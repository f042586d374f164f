-- ===== src/Swaps/Controller.antt =====
-- src/swaps/controllers/swaps.controller.ts: ordering and cancelling a swap. An HTTP exception is
-- its message; spans and calls of the logger are left out.
use eth_ton_swap.Common.{
  or_throw, throw_if, ℕ, String, true, false, not, Option, none, some, Result, Action, pure, throw,
  lift, catching, gets, ◌>>=◌, ◌>>◌, ltb,
}
use eth_ton_swap.Common.Errors.{
  queue_high_priority, error_token_not_found, error_invalid_address, error_swap_amount_too_low,
  error_swap_amount_too_high, error_too_many_requests, error_destination_walllet_not_available,
  error_collector_walllet_not_available, error_source_walllet_not_available,
  error_blockchain_connection_lost, error_swap_not_found, error_swap_already_completed,
  error_swap_in_progress, get_status_code,
}
use eth_ton_swap.Common.Number.{quantity_of}
use eth_ton_swap.Entities.{
  Blockchain, ethereum, ton, WalletType, SwapStatus, Token, Wallet, Swap, is_pending, is_completed,
  max_pending_swap_count_by_ip, eth_total_confirmations, ton_total_confirmations,
}
use eth_ton_swap.Database.{Orm}
use eth_ton_swap.World.{
  World, JobData, JobOptions, eth_source_swaps, ton_source_swaps, add_job, emit,
}
use eth_ton_swap.Env.{Env}
use eth_ton_swap.Ethereum
use eth_ton_swap.Ton.Blockchain as Ton
use eth_ton_swap.Swaps.Repository
use eth_ton_swap.Swaps.Repository.{CreateSwap, no_update}
use eth_ton_swap.Swaps.Helper.{calculate_destination_amount_and_fee}
use eth_ton_swap.Wallets.Repository as Wallets
use eth_ton_swap.Wallets.Repository.{set_in_use}

-- `CreateSwapDto`
pub record CreateSwapRequest : Type 0 where
  pub source_token_id : ℕ
  pub source_amount : String
  pub destination_token_id : ℕ
  pub destination_address : String
  pub ordered_at : ℕ

-- a job that is put at the front of its queue
abbrev pub first_in : JobOptions
first_in = record {
  attempts = none;
  delay = none;
  priority = queue_high_priority;
  lifo = true;
  backoff = none;
}

module _ {Num Slice : Type 0} (e : Env Num Slice) where
  abbrev pub normalized_address : Blockchain → String → Result String
  normalized_address ethereum address = Ethereum.normalize_address e address
  normalized_address ton address = Ton.normalize_address e address

module _ {Db Num Slice : Type 0} (e : Env Num Slice) where
  abbrev start_eth : ℕ → Action (World Db) (Unit {0})
  start_eth id = do
    block_number ← lift e.eth.get_latest_block
    add_job eth_source_swaps (JobData.confirm_eth_transfer id block_number) first_in
    emit (record {
      id = id;
      status = SwapStatus.pending;
      status_code = none;
      current_confirmations = 0;
      total_confirmations = eth_total_confirmations;
    })

  -- `runConfirmEthSwapJob`
  unfoldable pub run_confirm_eth_swap_job : ℕ → Action (World Db) (Unit {0})
  run_confirm_eth_swap_job id =
      catching (start_eth id) (λ message. throw error_blockchain_connection_lost)

  abbrev start_ton : ℕ → Action (World Db) (Unit {0})
  start_ton id = do
    block_number ← lift e.ton.get_masterchain_seqno
    add_job ton_source_swaps (JobData.confirm_ton_transfer id block_number) first_in
    emit (record {
      id = id;
      status = SwapStatus.pending;
      status_code = none;
      current_confirmations = 0;
      total_confirmations = ton_total_confirmations;
    })

  -- `runConfirmTonSwapJob`
  unfoldable pub run_confirm_ton_swap_job : ℕ → Action (World Db) (Unit {0})
  run_confirm_ton_swap_job id =
      catching (start_ton id) (λ message. throw error_blockchain_connection_lost)

  -- the `switch` on the source token's blockchain, whose two members it covers
  unfoldable pub run_confirm_swap_job : Blockchain → ℕ → Action (World Db) (Unit {0})
  unfolding run_confirm_eth_swap_job run_confirm_ton_swap_job
  run_confirm_swap_job ethereum = run_confirm_eth_swap_job
  run_confirm_swap_job ton = run_confirm_ton_swap_job

module _ {Db Num Slice : Type 0} (orm : Orm Db) (e : Env Num Slice) where
  -- the payout wallet, which only a payout in Ethereum needs
  unfoldable pub choose_destination_wallet : Blockchain → Num → Action (World Db) (Option Wallet)
  choose_destination_wallet ton destination_amount = pure none
  choose_destination_wallet ethereum destination_amount = do
    found ← Wallets.find_best_matched_one orm e (record {
      blockchain = ethereum;
      type = WalletType.transferer;
      min_balance = some destination_amount;
      in_use = none;
    })
    wallet ← or_throw found error_destination_walllet_not_available
    pure (some wallet)

  -- the wallet that collects the fees
  unfoldable pub choose_collector_wallet : Blockchain → Action (World Db) Wallet
  choose_collector_wallet blockchain = do
    found ← Wallets.find_best_matched_one orm e (record {
      blockchain = blockchain;
      type = WalletType.collector;
      min_balance = none;
      in_use = none;
    })
    or_throw found error_collector_walllet_not_available

  -- a free wallet to receive the source tokens
  unfoldable pub choose_source_wallet : Blockchain → Action (World Db) Wallet
  choose_source_wallet blockchain = do
    found ← Wallets.find_best_matched_one orm e (record {
      blockchain = blockchain;
      type = WalletType.transferer;
      min_balance = none;
      in_use = some false;
    })
    or_throw found error_source_walllet_not_available

  -- the swap is stored, and on a refusal the wallet is let go
  unfoldable pub store_swap : ℕ → CreateSwap Num → Action (World Db) Swap
  store_swap source_wallet_id fields =
      catching (Repository.create orm e fields)
        (λ message. do Wallets.update orm e source_wallet_id (set_in_use false); throw message)

  -- the job is started, and on a failure the swap fails and the wallet is let go
  unfoldable pub start_swap : Blockchain → ℕ → Swap → Action (World Db) (Unit {0})
  start_swap blockchain source_wallet_id swap =
      catching (run_confirm_swap_job e blockchain swap.id) (λ message. do
        Repository.update orm e swap.id (record no_update {
          status = some SwapStatus.failed;
          status_code = get_status_code message;
        })
        Wallets.update orm e source_wallet_id (set_in_use false)
        throw message)

  -- the two tokens and the receiver, validated
  unfoldable pub check_request :
      CreateSwapRequest → String → Action (World Db) (Token × Token × String)
  check_request r ip_address = do
    found_destination ← gets (λ w. orm.find_token w.db r.destination_token_id)
    destination_token ← or_throw found_destination error_token_not_found
    destination_address ←
        catching (lift (normalized_address e destination_token.blockchain r.destination_address))
          (λ message. throw error_invalid_address)
    found_source ← gets (λ w. orm.find_token w.db r.source_token_id)
    source_token ← or_throw found_source error_token_not_found
    let amount = e.big.parse r.source_amount
    throw_if (e.big.lt amount (e.big.parse source_token.min_swap_amount)) error_swap_amount_too_low
    throw_if (e.big.gt amount (e.big.parse source_token.max_swap_amount)) error_swap_amount_too_high
    pending_swap_count ← Repository.count orm ip_address SwapStatus.pending
    throw_if (ltb max_pending_swap_count_by_ip pending_swap_count) error_too_many_requests
    pure (source_token, destination_token, destination_address)

  -- `createSwap` once the payout, the collecting and the source wallet are chosen
  abbrev pub settle_swap :
      CreateSwapRequest
      → String
      → Token × Token × String
      → Option Wallet
      → Wallet
      → Wallet
      → Action (World Db) Swap
  settle_swap r ip_address (source_token, destination_token, destination_address) destination_wallet
        collector_wallet source_wallet =
      do
        let (destination_amount, fee) =
            calculate_destination_amount_and_fee e (e.big.parse r.source_amount)
        Wallets.update orm e source_wallet.id (set_in_use true)
        swap ← store_swap source_wallet.id (record {
          source_amount = quantity_of e.big r.source_amount source_token.decimals;
          source_token = source_token;
          source_wallet = source_wallet;
          destination_address = destination_address;
          destination_amount = record {
            quantity = destination_amount;
            decimals = destination_token.decimals;
          };
          destination_token = destination_token;
          destination_wallet = destination_wallet;
          fee = record { quantity = fee; decimals = source_token.decimals };
          ip_address = ip_address;
          collector_wallet = collector_wallet;
          ordered_at = r.ordered_at;
        })
        start_swap source_token.blockchain source_wallet.id swap
        pure swap

  -- `createSwap` from the choice of the wallets on
  unfoldable pub place_swap :
      CreateSwapRequest → String → Token × Token × String → Action (World Db) Swap
  place_swap r ip_address (source_token, destination_token, destination_address) = do
    let (destination_amount, fee) =
        calculate_destination_amount_and_fee e (e.big.parse r.source_amount)
    destination_wallet ← choose_destination_wallet destination_token.blockchain destination_amount
    collector_wallet ← choose_collector_wallet source_token.blockchain
    source_wallet ← choose_source_wallet source_token.blockchain
    settle_swap r ip_address (source_token, destination_token, destination_address)
        destination_wallet collector_wallet source_wallet

  -- `createSwap`
  unfoldable pub create_swap : CreateSwapRequest → String → Action (World Db) Swap
  unfolding check_request place_swap
  create_swap r ip_address = check_request r ip_address >>= place_swap r ip_address

  -- `cancelSwap`
  unfoldable pub cancel_swap : ℕ → Action (World Db) (Unit {0})
  cancel_swap id = do
    found ← Repository.find_by_id orm id
    swap ← or_throw found error_swap_not_found
    throw_if (is_completed swap.status) error_swap_already_completed
    throw_if (not (is_pending swap.status)) error_swap_in_progress
    Repository.update orm e swap.id (record no_update { status = some SwapStatus.canceled })
