-- ===== src/Samples/Chain.antt =====
-- Answers from outside, for the tests: amounts are counted in hundredths, and a fee is a tenth.
use eth_ton_swap.Common.{
  ℕ, ◌+◌, ◌-◌, ◌*◌, ◌/◌, suc, zero, String, true, false, none, some, List, [], ◌∷◌, ok, str_eq, ltb,
  ◌==◌, not, if◌then◌else◌,
}
use Prim.Native.String.{◌++◌}
use Prim.Native.Char.{code}
use Prim.Native.Nat.{compare}
use eth_ton_swap.Common.Number.{BigNumber}
use eth_ton_swap.Env.{Env, EthereumClient, TonClient, TonTransaction, Log, address, amount}

abbrev nth : List String → ℕ → String
nth [] n = ""
nth (s ∷ rest) zero = s
nth (s ∷ rest) (suc n) = nth rest n

abbrev digit_text : ℕ → String
digit_text = nth ("0" ∷ "1" ∷ "2" ∷ "3" ∷ "4" ∷ "5" ∷ "6" ∷ "7" ∷ "8" ∷ "9" ∷ [])

abbrev numeral_with : ℕ → ℕ → String
numeral_with zero n = ""
numeral_with (suc fuel) n =
    let front = numeral_with fuel (n / 10) in
    let last = digit_text (n - n / 10 * 10) in if ltb n 10 then last else front ++ last

abbrev pub numeral : ℕ → String
numeral n = numeral_with 9 n

abbrev value_of : ℕ → String → ℕ
value_of n String.[] = n
value_of n (String.◌∷◌ c s) = value_of (n * 10 + (code c - 48)) s

abbrev pub hundredths : BigNumber ℕ
hundredths = record {
  parse = λ s. value_of 0 s * 100;
  nan = 0;
  to_fixed = λ n decimals. numeral (n / 100);
  to_text = λ n. numeral (n / 100);
  plus = λ a b. a + b;
  minus = λ a b. a - b;
  times = λ a b. a * b / 100;
  div = λ a b. a * 100 / b;
  compared_to = λ a b. some (compare a b);
  lt = ltb;
  lte = λ a b. not (ltb b a);
  gt = λ a b. ltb b a;
  eq = λ a b. a == b;
}

abbrev pub transfer_log : Log
transfer_log = record { transaction_hash = "0xabc"; topics = []; contents = "" }

-- a chain on which the tokens were transferred to the wallet `0xw1`
abbrev pub ethereum_client : ℕ → EthereumClient ℕ
ethereum_client transferred = record {
  get_address = λ a. ok a;
  get_gas_price = ok "1";
  get_latest_block = ok 100;
  get_block_with_transactions = λ n. ok (some n);
  get_logs = λ token topic first last. ok (transfer_log ∷ []);
  topic_id = λ s. s;
  parse_log = λ log. ok (some (address "0xsender" ∷ address "0xw1" ∷ amount transferred ∷ []));
  format_units = λ n decimals. numeral n;
  parse_units = λ s decimals. ok s;
  hexlify = λ n. ok (numeral n);
  create_wallet = λ key. ok key;
  create_random_wallet =
      ok (record { address = "0xnew"; private_key = "0xsecret"; phrase = "one two" });
  balance_of = λ token account. ok 300;
  get_balance = λ a. ok 1;
  format_ether = numeral;
  parse_ether = λ s. ok s;
  max_fee_per_gas = ok 2;
  transfer = λ request. ok "0xdef";
  wait_for_transaction = λ hash confirmations. ok tt;
}

abbrev pub ton_client : TonClient (Unit {0})
ton_client = record {
  parse_address = λ a. ok a;
  friendly = λ a bounceable. a;
  get_transactions = λ a count. ok [];
  get_masterchain_seqno = ok 7;
  begin_parse = λ body. ok tt;
  read_uint = λ bits s. ok (0, s);
  read_coins = λ s. ok (0, s);
  read_address = λ s. ok (none, s);
  skip = λ bits s. ok s;
  read_bit = λ s. ok (false, s);
  remaining = λ s. 0;
  read_remaining_bytes = λ s. ok "";
  decimal = numeral;
  from_nano = λ s. s;
  to_nano = λ s. ok s;
  wallet_address = λ key. ok key;
  minter_address = λ admin. ok admin;
  jetton_wallet_address = λ admin owner. ok owner;
  generate_key = ok (record { secret_key = "secret"; words = "one" ∷ "two" ∷ [] });
  get_wallet_info = λ a. ok (record {
    is_wallet = true;
    balance = "1";
    account_state = "active";
    wallet_type = none;
    seqno = none;
  });
  get_balance = λ a. ok "1";
  get_jetton_wallet =
      λ a. ok (record { balance = 3; owner_address = "owner"; jetton_minter_address = "minter" });
  get_jetton_info =
      λ a. ok (record { total_supply = "5"; jetton_content_uri = "uri"; is_mutable = true });
  seqno = λ a. ok 1;
  estimate_fee =
      λ request. ok (record { in_fwd_fee = 1; storage_fee = 2; gas_fee = 3; fwd_fee = 4 });
  send = λ request. ok tt;
}

-- the answers at a time, where so many tokens were transferred
abbrev pub env_at : ℕ → ℕ → Env ℕ (Unit {0})
env_at now transferred = record {
  uuid_text = numeral;
  now = now;
  swap_fee = 10;
  big = hundredths;
  eth = ethereum_client transferred;
  ton = ton_client;
  encrypt_text = λ s. ok s;
  decrypt_text = λ s. ok s;
  cached_gas_price = none;
  cached_block = λ n. none;
}

-- a transaction whose body says whether it is the incoming or the outgoing transfer
abbrev pub jetton_transaction : String → TonTransaction
jetton_transaction body = record {
  utime = 1;
  lt = "7";
  hash = body;
  in_msg = some (record { source = "s"; destination = "d"; value = "0"; body = some body });
}

-- A reader is at a number that stands for the operation. The first wallet was paid one token by
-- the sender, whose jetton wallet shows the outgoing transfer.
abbrev jetton_client : TonClient ℕ
jetton_client = record {
  parse_address = λ a. ok a;
  friendly = λ a bounceable. a;
  get_transactions = λ a count.
      ok
        ((if str_eq a "w1" then jetton_transaction "received" else jetton_transaction "sent") ∷ []);
  get_masterchain_seqno = ok 7;
  begin_parse = λ body. ok (if str_eq body "received" then 0x178d4519 else 0xf8a7ea5);
  read_uint = λ bits s. ok (s, s);
  read_coins = λ s. ok (100, s);
  read_address = λ s. ok (some "sender", s);
  skip = λ bits s. ok s;
  read_bit = λ s. ok (false, s);
  remaining = λ s. 0;
  read_remaining_bytes = λ s. ok "";
  decimal = λ n. if n == 100 then "100" else "0";
  from_nano = λ s. s;
  to_nano = λ s. ok s;
  wallet_address = λ key. ok key;
  minter_address = λ admin. ok admin;
  jetton_wallet_address = λ admin owner. ok owner;
  generate_key = ok (record { secret_key = "secret"; words = "one" ∷ "two" ∷ [] });
  get_wallet_info = λ a. ok (record {
    is_wallet = true;
    balance = "1";
    account_state = "active";
    wallet_type = none;
    seqno = none;
  });
  get_balance = λ a. ok "1";
  get_jetton_wallet =
      λ a. ok (record { balance = 3; owner_address = "owner"; jetton_minter_address = "minter" });
  get_jetton_info =
      λ a. ok (record { total_supply = "5"; jetton_content_uri = "uri"; is_mutable = true });
  seqno = λ a. ok 1;
  estimate_fee =
      λ request. ok (record { in_fwd_fee = 1; storage_fee = 2; gas_fee = 3; fwd_fee = 4 });
  send = λ request. ok tt;
}

-- the answers where that transfer was made
abbrev pub jetton_env : Env ℕ ℕ
jetton_env = record {
  uuid_text = numeral;
  now = 5;
  swap_fee = 10;
  big = hundredths;
  eth = ethereum_client 100;
  ton = jetton_client;
  encrypt_text = λ s. ok s;
  decrypt_text = λ s. ok s;
  cached_gas_price = none;
  cached_block = λ n. none;
}
