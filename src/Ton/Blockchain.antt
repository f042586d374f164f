-- ===== src/Ton/Blockchain.antt =====
-- src/ton/providers/ton-blockchain.service.ts: the search for a transaction and its decoding.
pub mod Search
use Prim.Native.Nat.{◌%◌}
use Prim.Native.String.{◌++◌}
use eth_ton_swap.Common.{
  ℕ, ◌*◌, String, Bool, true, not, ◌&&◌, Option, none, some, List, [], ◌∷◌, Result, ok, err, str_eq,
  ltb, ◌==◌, if◌then◌else◌,
}
use eth_ton_swap.Common.Fallible.{◌>>=◌, traverse}
use eth_ton_swap.Env.{Env, TonTransaction, TonMessage}

abbrev pub ton_block_tracking_interval : ℕ
ton_block_tracking_interval = 4000

-- `enum JettonOperation`
pub data JettonOperation : Type 0 where
  transfer transfer_notification internal_transfer excesses burn burn_notification : JettonOperation

abbrev pub operation_code : JettonOperation → ℕ
operation_code JettonOperation.transfer = 0xf8a7ea5
operation_code JettonOperation.transfer_notification = 0x7362d09c
operation_code JettonOperation.internal_transfer = 0x178d4519
operation_code JettonOperation.excesses = 0xd53276db
operation_code JettonOperation.burn = 0x595f07bc
operation_code JettonOperation.burn_notification = 0x7bdd97de

-- `TransactionData`
pub record TransactionData (Num : Type 0) : Type 0 where
  pub id : String
  pub source_address : Option String
  pub destination_address : Option String
  pub amount : Num
  pub time : ℕ
  pub query_id : String
  pub payload : String

-- `x ? x : undefined` on a text
abbrev pub non_empty : String → Option String
non_empty text = if str_eq text "" then none else some text

abbrev generate_transaction_id : TonTransaction → String
generate_transaction_id t = t.lt ++ (":" ++ t.hash)

-- An address that is missing reaches the `Address` constructor as `undefined`, which throws.
abbrev pub address_text : Option String → Result String
address_text none = err "Address is undefined"
address_text (some text) = ok text

module _ {Num Slice : Type 0} (e : Env Num Slice) where
  abbrev pub normalize_address : String → Result String
  normalize_address any = do parsed ← e.ton.parse_address any; ok (e.ton.friendly parsed true)

  -- `new BigNumber(fromNano(text))`
  abbrev pub from_nano : String → Num
  from_nano text = e.big.parse (e.ton.from_nano text)

  abbrev parse_toncoin_message : TonTransaction → TonMessage → Result (TransactionData Num)
  parse_toncoin_message t input = do
    source ← traverse e.ton.parse_address (non_empty input.source)
    destination ← traverse e.ton.parse_address (non_empty input.destination)
    ok (record {
      id = generate_transaction_id t;
      source_address = source;
      destination_address = destination;
      amount = from_nano input.value;
      time = t.utime * 1000;
      query_id = "0";
      payload = "";
    })

  unfoldable pub parse_toncoin_transaction : TonTransaction → Result (Option (TransactionData Num))
  parse_toncoin_transaction t = traverse (parse_toncoin_message t) t.in_msg

  -- the last field of the two transfers: a payload in place is read if it is whole bytes
  abbrev read_payload : Slice → Result String
  read_payload slice = do
    (in_reference, rest) ← e.ton.read_bit slice
    let left = e.ton.remaining rest
    if not in_reference && (not (left == 0) && (left % 8 == 0))
        then e.ton.read_remaining_bytes rest
        else ok ""

  parse_jetton_transfer_transaction : Slice → TonTransaction → Result (TransactionData Num)
  parse_jetton_transfer_transaction slice t = do
    (query_id, s₁) ← e.ton.read_uint 64 slice
    (amount, s₂) ← e.ton.read_coins s₁
    (destination, s₃) ← e.ton.read_address s₂
    (response_destination, s₄) ← e.ton.read_address s₃
    s₅ ← e.ton.skip 1 s₄
    (forward_ton_amount, s₆) ← e.ton.read_coins s₅
    payload ← read_payload s₆
    to ← traverse e.ton.parse_address destination
    ok (record {
      id = generate_transaction_id t;
      source_address = none;
      destination_address = to;
      amount = from_nano (e.ton.decimal amount);
      time = t.utime * 1000;
      query_id = e.ton.decimal query_id;
      payload = payload;
    })

  parse_jetton_internal_transfer_transaction : Slice → TonTransaction → Result (TransactionData Num)
  parse_jetton_internal_transfer_transaction slice t = do
    (query_id, s₁) ← e.ton.read_uint 64 slice
    (amount, s₂) ← e.ton.read_coins s₁
    (source, s₃) ← e.ton.read_address s₂
    (response_address, s₄) ← e.ton.read_address s₃
    (forward_ton_amount, s₅) ← e.ton.read_coins s₄
    payload ← read_payload s₅
    from ← traverse e.ton.parse_address source
    ok (record {
      id = generate_transaction_id t;
      source_address = from;
      destination_address = none;
      amount = from_nano (e.ton.decimal amount);
      time = t.utime * 1000;
      query_id = e.ton.decimal query_id;
      payload = payload;
    })

  parse_jetton_burn_transaction : Slice → TonTransaction → Result (TransactionData Num)
  parse_jetton_burn_transaction slice t = do
    (query_id, s₁) ← e.ton.read_uint 64 slice
    (amount, s₂) ← e.ton.read_coins s₁
    (destination, s₃) ← e.ton.read_address s₂
    to ← traverse e.ton.parse_address destination
    ok (record {
      id = generate_transaction_id t;
      source_address = none;
      destination_address = to;
      amount = from_nano (e.ton.decimal amount);
      time = t.utime * 1000;
      query_id = e.ton.decimal query_id;
      payload = "";
    })

  -- the `switch` on an operation that is the one asked for
  parse_operation : JettonOperation → Slice → TonTransaction → Result (Option (TransactionData Num))
  unfolding parse_jetton_transfer_transaction
  parse_operation JettonOperation.internal_transfer slice t = do
    parsed ← parse_jetton_internal_transfer_transaction slice t
    ok (some parsed)
  parse_operation JettonOperation.transfer slice t = do
    parsed ← parse_jetton_transfer_transaction slice t
    ok (some parsed)
  parse_operation JettonOperation.burn slice t = do
    parsed ← parse_jetton_burn_transaction slice t
    ok (some parsed)
  parse_operation _ slice t = ok none

  parse_body :
      JettonOperation → TonTransaction → Option String → Result (Option (TransactionData Num))
  parse_body jetton_operation t none = ok none
  parse_body jetton_operation t (some body) = do
    slice ← e.ton.begin_parse body
    (operation, rest) ← e.ton.read_uint 32 slice
    if operation == operation_code jetton_operation
        then parse_operation jetton_operation rest t
        else ok none

  -- `in_msg?.msg_data.body`, where an empty text is falsy
  abbrev body_of : Option TonMessage → Option String
  body_of none = none
  body_of (some input) = elim input.body [ none ↦ none | some body ↦ non_empty body ]

  unfoldable pub parse_jetton_transaction :
      TonTransaction → JettonOperation → Result (Option (TransactionData Num))
  unfolding parse_body parse_operation parse_jetton_transfer_transaction
      parse_jetton_internal_transfer_transaction parse_jetton_burn_transaction
  parse_jetton_transaction t jetton_operation = parse_body jetton_operation t (body_of t.in_msg)

  pub parse_transaction :
      Option JettonOperation → TonTransaction → Result (Option (TransactionData Num))
  unfolding parse_jetton_transaction parse_toncoin_transaction
  parse_transaction none t = parse_toncoin_transaction t
  parse_transaction (some jetton_operation) t = parse_jetton_transaction t jetton_operation

  -- a transaction that was parsed and is not older than the given time
  abbrev recent : ℕ → Option (TransactionData Num) → Option (TransactionData Num)
  recent created_at none = none
  recent created_at (some parsed) = if ltb parsed.time created_at then none else some parsed

  first_recent :
      ℕ → Option JettonOperation → List TonTransaction → Result (Option (TransactionData Num))
  first_recent created_at operation [] = ok none
  first_recent created_at operation (t ∷ ts) = do
    parsed ← parse_transaction operation t
    elim (recent created_at parsed) [
      | none ↦ first_recent created_at operation ts
      | some found ↦ ok (some found)
    ]

  unfoldable pub find_transaction :
      String → ℕ → Option JettonOperation → Result (Option (TransactionData Num))
  unfolding first_recent parse_transaction
  find_transaction address_any created_at jetton_operation = do
    address ← normalize_address address_any
    response ← e.ton.get_transactions address 1
    first_recent created_at jetton_operation response

-- `WalletData`
pub record WalletData (Num : Type 0) : Type 0 where
  pub is_wallet : Bool
  pub address : String
  pub balance : Num
  pub account_state : String
  pub wallet_type : Option String
  pub seqno : Option ℕ

module _ {Num Slice : Type 0} (e : Env Num Slice) where
  unfoldable pub get_wallet_data : String → Result (WalletData Num)
  get_wallet_data address_any = do
    address ← e.ton.parse_address address_any
    normalized ← normalize_address e address
    response ← e.ton.get_wallet_info normalized
    ok (record {
      is_wallet = response.is_wallet;
      address = address;
      balance = from_nano e response.balance;
      account_state = response.account_state;
      wallet_type = response.wallet_type;
      seqno = response.seqno;
    })

  unfoldable pub get_balance : String → Result Num
  get_balance address_any = do
    address ← e.ton.parse_address address_any
    normalized ← normalize_address e address
    response ← e.ton.get_balance normalized
    ok (from_nano e response)
