-- ===== src/Swaps/EthDestination.antt =====
-- src/swaps/processors/eth-destination-swaps.processor.ts: the tokens are transferred to the
-- receiver in Ethereum.
pub mod Outcome
pub mod Paying
use Prim.Native.String.{String}
use eth_ton_swap.Common.{
  ℕ, Option, none, some, Result, ok, err, Action, pure, lift, ◌>>=◌, ◌>>◌, if◌then◌else◌, ltb,
}
use eth_ton_swap.Common.Errors.{error_no_error, get_status_code}
use eth_ton_swap.Common.Number.{parse_nullable}
use eth_ton_swap.Entities.{
  SwapStatus, Wallet, Swap, eth_total_confirmations, ton_total_confirmations, extended_expires_at,
}
use eth_ton_swap.Database.{Orm}
use eth_ton_swap.World.{World, JobData, SwapResult, ton_source_swaps, add_job, emit}
use eth_ton_swap.Env.{Env}
use eth_ton_swap.Ethereum
use eth_ton_swap.Ton.Blockchain.{ton_block_tracking_interval}
use eth_ton_swap.Swaps.Jobs.{settling}
use eth_ton_swap.Swaps.Repository
use eth_ton_swap.Swaps.Repository.{no_update}
use eth_ton_swap.Swaps.Helper.{is_swap_processable, swap_not_found, swap_expired}

-- `wallet.secretKey`, which throws at `null`
abbrev pub secret_key_of : Option Wallet → Result String
secret_key_of none = err "Cannot read properties of null (reading 'secretKey')"
secret_key_of (some wallet) = ok wallet.secret_key

module _ {Db Num Slice : Type 0} (orm : Orm Db) (e : Env Num Slice) where
  -- the payout, with the hash of the transaction
  unfoldable pub pay_out : Swap → Action (World Db) String
  pay_out swap = do
    gas_price ← Ethereum.get_gas_price e
    secret_key ← lift (secret_key_of swap.destination_wallet)
    token_contract ←
        lift (Ethereum.create_token_contract e swap.destination_token.address secret_key)
    Ethereum.transfer_tokens e token_contract swap.destination_address
        (parse_nullable e.big swap.destination_amount) swap.destination_token.decimals gas_price

  -- the swap is completed once its payout is confirmed
  unfoldable pub complete_payout : Swap → String → Action (World Db) SwapResult
  complete_payout swap transaction_id = do
    lift (Ethereum.wait_for_transaction e transaction_id eth_total_confirmations)
    Repository.update orm e swap.id (record no_update {
      destination_transaction_id = some transaction_id;
      status = some SwapStatus.completed;
      status_code = get_status_code error_no_error;
    })
    pure (record {
      status = SwapStatus.completed;
      status_code = get_status_code error_no_error;
      transaction_id = none;
    })

  transfer_found : Option Swap → Action (World Db) SwapResult
  transfer_found none = pure swap_not_found
  transfer_found (some swap) =
      if ltb (extended_expires_at swap) e.now
      then swap_expired orm e swap
      else (pay_out swap >>= complete_payout swap)

  -- `transferEthTokens`
  unfoldable pub transfer_eth_tokens : ℕ → Action (World Db) SwapResult
  unfolding transfer_found
  transfer_eth_tokens id = Repository.find_by_id orm id >>= transfer_found

-- `onTransferEthTokensCompleted`
unfoldable pub on_transfer_eth_tokens_completed :
    {Db : Type 0} → ℕ → SwapResult → Action (World Db) (Unit {0})
on_transfer_eth_tokens_completed id result = do
  emit (record {
    id = id;
    status = result.status;
    status_code = result.status_code;
    current_confirmations = ton_total_confirmations;
    total_confirmations = ton_total_confirmations;
  })
  if is_swap_processable result.status
      then add_job ton_source_swaps (JobData.transfer_ton_fee id)
          (settling none ton_block_tracking_interval)
      else pure tt
