-- ===== src/Ethereum.antt =====
-- src/ethereum/providers: the blockchain service and the contract service, and
-- src/swaps/providers/ethereum-cache.helper.ts.
pub mod Wallets
use Prim.Native.String.{◌++◌}
use eth_ton_swap.Common.{
  ℕ, ◌-◌, String, not, Option, none, some, List, [], ◌∷◌, Result, ok, Action, pure, throw, lift,
  ◌>>=◌, ◌>>◌, str_eq, ltb, if◌then◌else◌, strip_hex_prefix,
}
use eth_ton_swap.Common.Fallible.{◌>>=◌ as bind}
use eth_ton_swap.World.{World, erc20_transfer, ethers_transfer, gas_price, block, send, cache}
use eth_ton_swap.Env.{Env, ℤ, pos, negsuc, Log, LogArgument, address, amount}

-- `a - b` of block numbers
abbrev pub sub_ℕ : ℕ → ℕ → ℤ
sub_ℕ a b = if ltb a b then negsuc (b - a - 1) else pos (a - b)

abbrev pub erc20_token_transfer_gas_limit : ℕ
erc20_token_transfer_gas_limit = 100000

abbrev pub eth_block_tracking_interval : ℕ
eth_block_tracking_interval = 4000

pub record TransferLog (Num : Type 0) : Type 0 where
  pub transaction_id : String
  pub source_address : String
  pub destination_address : String
  pub amount : Num

-- `Contract`, as its address and the key of its signer
pub record TokenContract : Type 0 where
  pub address : String
  pub signer : String

module _ {Num Slice : Type 0} (e : Env Num Slice) where
  abbrev pub normalize_address : String → Result String
  normalize_address a = bind (e.eth.get_address a) (λ checked. ok (strip_hex_prefix checked))

  abbrev pub get_logs : String → ℤ → ℕ → Result (List Log)
  get_logs token_address from_block to_block =
      e.eth.get_logs token_address (e.eth.topic_id "Transfer(address,address,uint256)") from_block
        to_block

  -- the count is not negative, so `confirmations < 0 ? 0 : confirmations` is the count
  abbrev pub wait_for_transaction : String → ℕ → Result (Unit {0})
  wait_for_transaction transaction_id confirmations =
      e.eth.wait_for_transaction ("0x" ++ transaction_id) confirmations

  -- the three arguments of a `Transfer` event, `none` for any other count
  abbrev pub transfer_of : Log → String → ℕ → List LogArgument → Option (TransferLog Num)
  transfer_of log wallet decimals (address from ∷ address to ∷ amount n ∷ []) =
      if not (str_eq to ("0x" ++ wallet))
      then none
      else some (record {
        transaction_id = strip_hex_prefix log.transaction_hash;
        source_address = from;
        destination_address = to;
        amount = e.big.parse (e.eth.format_units n decimals);
      })
  transfer_of log wallet decimals _ = none

  abbrev described :
      Log → String → ℕ → Option (List LogArgument) → Result (Option (TransferLog Num))
  described log wallet decimals none = ok none
  described log wallet decimals (some args) = ok (transfer_of log wallet decimals args)

  unfoldable pub find_transfer_log : Log → String → ℕ → Result (Option (TransferLog Num))
  find_transfer_log log wallet decimals = bind (e.eth.parse_log log) (described log wallet decimals)

  abbrev pub create_token_contract : String → String → Result TokenContract
  create_token_contract token_address encrypted_secret_key =
      bind (e.decrypt_text encrypted_secret_key) (λ secret_key.
        bind (e.eth.create_wallet ("0x" ++ secret_key))
          (λ signer. ok (record { address = "0x" ++ token_address; signer = signer })))

  abbrev pub get_token_balance : TokenContract → String → ℕ → Result Num
  get_token_balance contract account token_decimals =
      bind (e.eth.balance_of contract.address ("0x" ++ account))
        (λ balance. ok (e.big.parse (e.eth.format_units balance token_decimals)))

  abbrev pub get_balance : String → Result Num
  get_balance account =
      bind (e.eth.get_balance account) (λ balance. ok (e.big.parse (e.eth.format_ether balance)))

  abbrev pub get_network_gas_price : Result Num
  get_network_gas_price = bind e.eth.get_gas_price (λ price. ok (e.big.parse price))

  -- the signer of `createWalletSigner`
  abbrev pub create_wallet_signer : String → Result String
  create_wallet_signer encrypted_secret_key =
      bind (e.decrypt_text encrypted_secret_key) e.eth.create_wallet

  -- `maxFeePerGas` of `getFeeData`
  abbrev pub get_max_fee_per_gas : Result Num
  get_max_fee_per_gas =
      bind e.eth.max_fee_per_gas (λ fee. ok (e.big.parse (e.eth.format_ether fee)))

  abbrev pub calculate_token_gas_fee : Num → Num
  calculate_token_gas_fee max_fee_per_gas = e.big.times max_fee_per_gas (e.big.parse "100000")

module _ {Db Num Slice : Type 0} (e : Env Num Slice) where
  unfoldable pub transfer_ethers : String → String → Num → Action (World Db) String
  transfer_ethers signer destination transfer_amount = do
    value ← lift (e.eth.parse_ether (e.big.to_text transfer_amount))
    let request = ethers_transfer signer destination value
    hash ← lift (e.eth.transfer request)
    send request
    pure (strip_hex_prefix hash)

  unfoldable pub transfer_tokens : TokenContract → String → Num → ℕ → Num → Action (World Db) String
  transfer_tokens contract destination token_amount token_decimals price = do
    token_amount_wei ← lift (e.eth.parse_units (e.big.to_text token_amount) token_decimals)
    price_hex ← lift (e.eth.hexlify price)
    let request =
        erc20_transfer contract.address contract.signer ("0x" ++ destination) token_amount_wei
          price_hex erc20_token_transfer_gas_limit
    hash ← lift (e.eth.transfer request)
    send request
    pure (strip_hex_prefix hash)

  fetch_gas_price : Action (World Db) Num
  fetch_gas_price = do
    price ← lift e.eth.get_gas_price
    cache (gas_price (e.big.to_text (e.big.parse price)))
    pure (e.big.parse price)

  -- an empty text is falsy, as a missing entry is
  gas_price_from : Option String → Action (World Db) Num
  gas_price_from none = fetch_gas_price
  gas_price_from (some price) =
      if str_eq price "" then fetch_gas_price else pure (e.big.parse price)

  unfoldable pub get_gas_price : Action (World Db) Num
  unfolding fetch_gas_price gas_price_from
  get_gas_price = gas_price_from e.cached_gas_price

  fetched_block : ℕ → Option ℕ → Action (World Db) ℕ
  fetched_block block_number none = throw "Block not found"
  fetched_block block_number (some found) = do cache (block block_number found); pure found

  block_from : ℕ → Option ℕ → Action (World Db) ℕ
  unfolding fetched_block
  block_from block_number none =
      lift (e.eth.get_block_with_transactions block_number) >>= fetched_block block_number
  block_from block_number (some found) = pure found

  unfoldable pub get_block_with_transactions : ℕ → Action (World Db) ℕ
  unfolding block_from
  get_block_with_transactions block_number = block_from block_number (e.cached_block block_number)
