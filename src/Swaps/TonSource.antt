-- ===== src/Swaps/TonSource.antt =====
-- src/swaps/processors/ton-source-swaps.processor.ts: the transfer of the jettons to the service in
-- TON, and, once the tokens are paid out in Ethereum, the fee and the burning of the jettons.
pub mod Outcome
pub mod Credit
pub mod Settling
use eth_ton_swap.Common.{
  String, false, ℕ, Option, none, some, Result, ok, err, Action, pure, throw, lift, ◌>>=◌, ◌>>◌,
  if◌then◌else◌, ltb,
}
use eth_ton_swap.Common.Errors.{attempt_count_extended}
use eth_ton_swap.Common.Number.{quantity_of, parse_nullable}
use eth_ton_swap.Entities.{
  SwapStatus, Wallet, Swap, is_canceled, ton_total_confirmations, ultimate_expires_at,
}
use eth_ton_swap.Database.{Orm}
use eth_ton_swap.World.{
  World, JobData, SwapResult, ton_source_swaps, eth_destination_swaps, add_job, emit,
}
use eth_ton_swap.Env.{Env}
use eth_ton_swap.Ton.Blockchain.{
  JettonOperation, TransactionData, ton_block_tracking_interval, find_transaction,
  normalize_address, address_text,
}
use eth_ton_swap.Ton.Contract.{
  create_wallet_signer, get_jetton_wallet_address, transfer_jettons, burn_jettons,
  transfer_jetton_gas, burn_jetton_gas,
}
use eth_ton_swap.Swaps.Jobs.{ConfirmTransfer, next_block, delayed, at_once, settling}
use eth_ton_swap.Swaps.Repository
use eth_ton_swap.Swaps.Repository.{no_update}
use eth_ton_swap.Swaps.Helper.{
  is_swap_processable, swap_not_found, swap_canceled, swap_expired, swap_not_recalculated,
  jetton_minter_admin_wallet_not_found,
}
use eth_ton_swap.Swaps.EthSource.{adjusted_swap}
use eth_ton_swap.Swaps.TonDestination.{find_minter_admin_wallet}
use eth_ton_swap.Wallets.Repository as Wallets
use eth_ton_swap.Wallets.Repository.{set_in_use, set_balance}

module _ {Db Num Slice : Type 0} (orm : Orm Db) (e : Env Num Slice) where
  -- the swap and its source wallet are credited
  unfoldable pub confirm_jettons :
      Swap → String → String → Option (TransactionData Num) → Action (World Db) SwapResult
  confirm_jettons swap source jetton_wallet none =
      throw "Outgoing jetton transfer transaction not found"
  confirm_jettons swap source jetton_wallet (some outgoing) = do
    source_address ← lift (normalize_address e source)
    source_conjugated_address ← lift (normalize_address e jetton_wallet)
    Repository.update orm e swap.id (record no_update {
      source_address = some source_address;
      source_conjugated_address = some source_conjugated_address;
      source_amount = some (quantity_of e.big swap.source_amount swap.source_token.decimals);
      source_token_decimals = some swap.source_token.decimals;
      source_transaction_id = some outgoing.id;
      destination_amount = some (record {
        quantity = parse_nullable e.big swap.destination_amount;
        decimals = swap.destination_token.decimals;
      });
      destination_token_decimals = some swap.destination_token.decimals;
      fee = some (record {
        quantity = parse_nullable e.big swap.fee;
        decimals = swap.source_token.decimals;
      });
      status = some SwapStatus.confirmed;
      confirmations = some 1;
    })
    let new_balance =
        e.big.plus (parse_nullable e.big swap.source_wallet.balance)
          (e.big.parse swap.source_amount)
    Wallets.update orm e swap.source_wallet.id (record (set_in_use false) {
      balance = some (record { quantity = new_balance; decimals = swap.source_token.decimals });
    })
    pure (record { status = SwapStatus.confirmed; status_code = none; transaction_id = none })

  -- the sender's own transaction is looked up on the sender's jetton wallet
  confirm_from_minter : Swap → Option String → Option Wallet → Action (World Db) SwapResult
  confirm_from_minter swap source none = jetton_minter_admin_wallet_not_found orm e swap
  confirm_from_minter swap source (some minter_admin_wallet) = do
    source_address ← lift (address_text source)
    jetton_wallet ← lift (get_jetton_wallet_address e minter_admin_wallet.address source_address)
    outgoing ←
        lift (find_transaction e jetton_wallet swap.created_at (some JettonOperation.transfer))
    confirm_jettons swap source_address jetton_wallet outgoing

  confirm_or_fail : Swap → Option String → Result Swap → Action (World Db) SwapResult
  unfolding confirm_from_minter
  confirm_or_fail swap source (err message) = swap_not_recalculated orm e swap message
  confirm_or_fail swap source (ok adjusted) =
      find_minter_admin_wallet orm e >>= confirm_from_minter adjusted source

  confirm_incoming : Swap → Option (TransactionData Num) → Action (World Db) SwapResult
  unfolding confirm_or_fail
  confirm_incoming swap none = throw "Incoming jetton transfer transaction not found"
  confirm_incoming swap (some incoming) =
      confirm_or_fail swap incoming.source_address (adjusted_swap e swap incoming.amount)

  confirm_found : Option Swap → Action (World Db) SwapResult
  unfolding confirm_incoming
  confirm_found none = pure swap_not_found
  confirm_found (some swap) =
      if is_canceled swap.status
      then swap_canceled orm e swap
      else if ltb swap.expires_at e.now
      then swap_expired orm e swap
      else (do
        source ← lift (address_text swap.source_wallet.conjugated_address)
        incoming ←
            lift
              (find_transaction e source swap.created_at (some JettonOperation.internal_transfer))
        confirm_incoming swap incoming)

  -- `conifrmTonTransfer`
  unfoldable pub confirm_ton_transfer : ConfirmTransfer → Action (World Db) SwapResult
  unfolding confirm_found
  confirm_ton_transfer d = Repository.find_by_id orm d.swap_id >>= confirm_found

  transfer_fee_from : Swap → Option Wallet → Action (World Db) (Unit {0})
  transfer_fee_from swap none = pure tt
  transfer_fee_from swap (some minter_admin_wallet) = do
    signer ← lift (create_wallet_signer e swap.source_wallet.secret_key)
    transfer_jettons e signer minter_admin_wallet.address swap.collector_wallet.address
        (parse_nullable e.big swap.fee) (e.big.parse transfer_jetton_gas) none
        (some (e.uuid_text swap.id)) false
    pure tt

  transfer_fee_found : Option Swap → Action (World Db) (Unit {0})
  unfolding transfer_fee_from
  transfer_fee_found none = pure tt
  transfer_fee_found (some swap) =
      if ltb (ultimate_expires_at swap) e.now
      then pure tt
      else (find_minter_admin_wallet orm e >>= transfer_fee_from swap)

  -- `transferTonFee`
  unfoldable pub transfer_ton_fee : ℕ → Action (World Db) (Unit {0})
  unfolding transfer_fee_found
  transfer_ton_fee id = Repository.find_by_id orm id >>= transfer_fee_found

  settle_fee : Swap → Option (TransactionData Num) → Action (World Db) (Unit {0})
  settle_fee swap none = throw "Incoming fee transfer transaction not found"
  settle_fee swap (some transaction) = do
    Repository.update orm e swap.id
        (record no_update { collector_transaction_id = some transaction.id })
    let new_balance =
        e.big.minus (parse_nullable e.big swap.source_wallet.balance)
          (parse_nullable e.big swap.fee)
    Wallets.update orm e swap.source_wallet.id
        (set_balance (record { quantity = new_balance; decimals = swap.source_token.decimals }))

  get_fee_found : Option Swap → Action (World Db) (Unit {0})
  unfolding settle_fee
  get_fee_found none = pure tt
  get_fee_found (some swap) = if ltb (ultimate_expires_at swap) e.now then pure tt else (do
    collector ← lift (address_text swap.collector_wallet.conjugated_address)
    transaction ←
        lift (find_transaction e collector swap.created_at (some JettonOperation.internal_transfer))
    settle_fee swap transaction)

  -- `getTonFeeTransaction`
  unfoldable pub get_ton_fee_transaction : ℕ → Action (World Db) (Unit {0})
  unfolding get_fee_found
  get_ton_fee_transaction id = Repository.find_by_id orm id >>= get_fee_found

  burn_from : Swap → Option Wallet → Action (World Db) (Unit {0})
  burn_from swap none = pure tt
  burn_from swap (some minter_admin_wallet) = do
    signer ← lift (create_wallet_signer e swap.source_wallet.secret_key)
    burn_jettons e signer minter_admin_wallet.address (parse_nullable e.big swap.destination_amount)
        (e.big.parse burn_jetton_gas) false
    pure tt

  burn_found : Option Swap → Action (World Db) (Unit {0})
  unfolding burn_from
  burn_found none = pure tt
  burn_found (some swap) =
      if ltb (ultimate_expires_at swap) e.now
      then pure tt
      else (find_minter_admin_wallet orm e >>= burn_from swap)

  -- `burnTonJettons`
  unfoldable pub burn_ton_jettons : ℕ → Action (World Db) (Unit {0})
  unfolding burn_found
  burn_ton_jettons id = Repository.find_by_id orm id >>= burn_found

  settle_burn : Swap → Option (TransactionData Num) → Action (World Db) (Unit {0})
  settle_burn swap none = throw "Burn transaction not found"
  settle_burn swap (some transaction) = do
    Repository.update orm e swap.id (record no_update { burn_transaction_id = some transaction.id })
    let new_balance =
        e.big.minus (parse_nullable e.big swap.source_wallet.balance)
          (parse_nullable e.big swap.destination_amount)
    Wallets.update orm e swap.source_wallet.id
        (set_balance (record { quantity = new_balance; decimals = swap.source_token.decimals }))

  get_burn_from : Swap → Option Wallet → Action (World Db) (Unit {0})
  unfolding settle_burn
  get_burn_from swap none = pure tt
  get_burn_from swap (some minter_admin_wallet) = do
    source ← lift (address_text swap.source_wallet.conjugated_address)
    transaction ← lift (find_transaction e source swap.created_at (some JettonOperation.burn))
    settle_burn swap transaction

  get_burn_found : Option Swap → Action (World Db) (Unit {0})
  unfolding get_burn_from
  get_burn_found none = pure tt
  get_burn_found (some swap) =
      if ltb (ultimate_expires_at swap) e.now
      then pure tt
      else (find_minter_admin_wallet orm e >>= get_burn_from swap)

  -- `getTonBurnTransaction`
  unfoldable pub get_ton_burn_transaction : ℕ → Action (World Db) (Unit {0})
  unfolding get_burn_found
  get_ton_burn_transaction id = Repository.find_by_id orm id >>= get_burn_found

module _ {Db : Type 0} where
  -- `onConfirmTonTransferFailed`
  unfoldable pub on_confirm_ton_transfer_failed :
      ConfirmTransfer → String → Action (World Db) (Unit {0})
  on_confirm_ton_transfer_failed d message =
      add_job ton_source_swaps (JobData.confirm_ton_transfer d.swap_id (next_block d message))
        (delayed ton_block_tracking_interval)

  -- `onConfirmTonTransferCompleted`
  unfoldable pub on_confirm_ton_transfer_completed :
      ConfirmTransfer → SwapResult → Action (World Db) (Unit {0})
  on_confirm_ton_transfer_completed d result = do
    emit (record {
      id = d.swap_id;
      status = result.status;
      status_code = result.status_code;
      current_confirmations = if is_swap_processable result.status then 1 else 0;
      total_confirmations = ton_total_confirmations;
    })
    if is_swap_processable result.status
        then add_job eth_destination_swaps (JobData.transfer_eth_tokens d.swap_id)
            (at_once attempt_count_extended ton_block_tracking_interval)
        else pure tt

  -- `onTransferTonFeeCompleted`
  unfoldable pub on_transfer_ton_fee_completed : ℕ → Action (World Db) (Unit {0})
  on_transfer_ton_fee_completed id =
      add_job ton_source_swaps (JobData.get_ton_fee_transaction id)
        (settling (some ton_block_tracking_interval) ton_block_tracking_interval)

  -- `onGetTonFeeTransactionCompleted`
  unfoldable pub on_get_ton_fee_transaction_completed : ℕ → Action (World Db) (Unit {0})
  on_get_ton_fee_transaction_completed id =
      add_job ton_source_swaps (JobData.burn_ton_jettons id)
        (settling none ton_block_tracking_interval)

  -- `onBurnTonJettonsCompleted`
  unfoldable pub on_burn_ton_jettons_completed : ℕ → Action (World Db) (Unit {0})
  on_burn_ton_jettons_completed id =
      add_job ton_source_swaps (JobData.get_ton_burn_transaction id)
        (settling (some ton_block_tracking_interval) ton_block_tracking_interval)
