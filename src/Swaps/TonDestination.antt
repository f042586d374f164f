-- ===== src/Swaps/TonDestination.antt =====
-- src/swaps/processors/ton-destination-swaps.processor.ts: the jettons are minted to the receiver
-- in TON, and the transaction that delivers them is looked up.
pub mod Delivering
pub mod Outcome
pub mod Minting
use eth_ton_swap.Common.{
  false, ℕ, String, Option, none, some, Action, pure, throw, lift, ◌>>=◌, ◌>>◌, if◌then◌else◌, ltb,
}
use eth_ton_swap.Common.Errors.{attempt_count_extended, error_no_error, get_status_code}
use eth_ton_swap.Common.Number.{parse_nullable}
use eth_ton_swap.Entities.{
  Blockchain, WalletType, SwapStatus, Wallet, Swap, eth_total_confirmations, extended_expires_at,
}
use eth_ton_swap.Database.{Orm}
use eth_ton_swap.World.{
  World, JobData, SwapResult, eth_source_swaps, ton_destination_swaps, add_job, emit,
}
use eth_ton_swap.Env.{Env}
use eth_ton_swap.Ethereum.{eth_block_tracking_interval}
use eth_ton_swap.Ton.Blockchain.{
  JettonOperation, TransactionData, ton_block_tracking_interval, find_transaction,
  normalize_address,
}
use eth_ton_swap.Ton.Contract.{
  create_wallet_signer, get_jetton_wallet_address, mint_jettons, mint_transfer_gas, mint_jetton_gas,
}
use eth_ton_swap.Swaps.Jobs.{retried, settling}
use eth_ton_swap.Swaps.Repository
use eth_ton_swap.Swaps.Repository.{no_update}
use eth_ton_swap.Swaps.Helper.{
  is_swap_processable, swap_not_found, swap_expired, jetton_minter_admin_wallet_not_found,
}
use eth_ton_swap.Wallets.Repository as Wallets

module _ {Db Num Slice : Type 0} (orm : Orm Db) (e : Env Num Slice) where
  -- the wallet that administers the jetton minter
  unfoldable pub find_minter_admin_wallet : Action (World Db) (Option Wallet)
  find_minter_admin_wallet = Wallets.find_best_matched_one orm e (record {
    blockchain = Blockchain.ton;
    type = WalletType.minter;
    min_balance = none;
    in_use = none;
  })

  mint_from : Swap → Option Wallet → Action (World Db) SwapResult
  mint_from swap none = jetton_minter_admin_wallet_not_found orm e swap
  mint_from swap (some minter_admin_wallet) = do
    signer ← lift (create_wallet_signer e minter_admin_wallet.secret_key)
    mint_jettons e signer swap.destination_address (parse_nullable e.big swap.destination_amount)
        (e.big.parse mint_transfer_gas) (e.big.parse mint_jetton_gas) false
    pure (record { status = SwapStatus.confirmed; status_code = none; transaction_id = none })

  mint_found : Option Swap → Action (World Db) SwapResult
  unfolding mint_from
  mint_found none = pure swap_not_found
  mint_found (some swap) =
      if ltb (extended_expires_at swap) e.now
      then swap_expired orm e swap
      else (find_minter_admin_wallet >>= mint_from swap)

  -- `mintTonJettons`
  unfoldable pub mint_ton_jettons : ℕ → Action (World Db) SwapResult
  unfolding mint_found
  mint_ton_jettons id = Repository.find_by_id orm id >>= mint_found

  -- the swap is completed by the transaction that was found
  unfoldable pub complete_mint :
      Swap → String → Option (TransactionData Num) → Action (World Db) SwapResult
  complete_mint swap jetton_wallet none = throw "Mint transaction not found"
  complete_mint swap jetton_wallet (some transaction) = do
    conjugated_address ← lift (normalize_address e jetton_wallet)
    Repository.update orm e swap.id (record no_update {
      destination_conjugated_address = some conjugated_address;
      destination_transaction_id = some transaction.id;
      status = some SwapStatus.completed;
      status_code = get_status_code error_no_error;
    })
    pure (record {
      status = SwapStatus.completed;
      status_code = get_status_code error_no_error;
      transaction_id = none;
    })

  find_mint : Swap → Option Wallet → Action (World Db) SwapResult
  find_mint swap none = jetton_minter_admin_wallet_not_found orm e swap
  find_mint swap (some minter_admin_wallet) = do
    jetton_wallet ←
        lift (get_jetton_wallet_address e minter_admin_wallet.address swap.destination_address)
    transaction ←
        lift (
          find_transaction e jetton_wallet swap.created_at (some JettonOperation.internal_transfer))
    complete_mint swap jetton_wallet transaction

  get_mint_found : Option Swap → Action (World Db) SwapResult
  unfolding find_mint
  get_mint_found none = pure swap_not_found
  get_mint_found (some swap) =
      if ltb (extended_expires_at swap) e.now
      then swap_expired orm e swap
      else (find_minter_admin_wallet >>= find_mint swap)

  -- `getTonMintTransaction`
  unfoldable pub get_ton_mint_transaction : ℕ → Action (World Db) SwapResult
  unfolding get_mint_found
  get_ton_mint_transaction id = Repository.find_by_id orm id >>= get_mint_found

module _ {Db : Type 0} where
  -- `onMintTonJettonsCompleted`
  unfoldable pub on_mint_ton_jettons_completed : ℕ → SwapResult → Action (World Db) (Unit {0})
  on_mint_ton_jettons_completed id result =
      if is_swap_processable result.status
      then add_job ton_destination_swaps (JobData.get_ton_mint_transaction id)
          (retried attempt_count_extended ton_block_tracking_interval)
      else emit (record {
        id = id;
        status = result.status;
        status_code = result.status_code;
        current_confirmations = eth_total_confirmations;
        total_confirmations = eth_total_confirmations;
      })

  -- `onGetTonMintTransactionCompleted`
  unfoldable pub on_get_ton_mint_transaction_completed :
      ℕ → SwapResult → Action (World Db) (Unit {0})
  on_get_ton_mint_transaction_completed id result = do
    emit (record {
      id = id;
      status = result.status;
      status_code = result.status_code;
      current_confirmations = eth_total_confirmations;
      total_confirmations = eth_total_confirmations;
    })
    if is_swap_processable result.status
        then add_job eth_source_swaps (JobData.transfer_eth_fee id)
            (settling none eth_block_tracking_interval)
        else pure tt
