-- ===== src/Swaps/EthSource.antt =====
-- src/swaps/processors/eth-source-swaps.processor.ts: the transfer of the tokens to the service in
-- Ethereum, its confirmations, and the fee at the end. Calls of the logger are left out.
pub mod Outcome
pub mod Credit
pub mod Logs
pub mod Waiting
use eth_ton_swap.Common.{
  ℕ, ◌+◌, String, false, Option, none, some, List, [], ◌∷◌, Result, ok, err, Action, pure, throw,
  lift, ◌>>=◌, ◌>>◌, if◌then◌else◌, ltb,
}
use eth_ton_swap.Common.Errors.{attempt_count_normal, attempt_count_extended}
use eth_ton_swap.Common.Number.{quantity_of, parse_nullable}
use eth_ton_swap.Entities.{
  SwapStatus, Swap, is_canceled, eth_total_confirmations, ultimate_expires_at,
}
use eth_ton_swap.Database.{Orm}
use eth_ton_swap.World.{
  World, JobData, SwapResult, eth_source_swaps, ton_destination_swaps, add_job, emit,
}
use eth_ton_swap.Env.{Env, Log}
use eth_ton_swap.Ethereum
use eth_ton_swap.Ethereum.{TransferLog, eth_block_tracking_interval}
use eth_ton_swap.Ton.Blockchain.{ton_block_tracking_interval}
use eth_ton_swap.Swaps.Jobs.{
  ConfirmTransfer, WaitForTransferConfirmation, template_text, next_block, retried, delayed,
  at_once,
}
use eth_ton_swap.Swaps.Repository
use eth_ton_swap.Swaps.Repository.{no_update}
use eth_ton_swap.Swaps.Helper.{
  is_swap_processable, swap_not_found, recalculate_swap, swap_canceled, swap_expired,
  swap_not_recalculated,
}
use eth_ton_swap.Wallets.Repository as Wallets
use eth_ton_swap.Wallets.Repository.{UpdateWallet, set_in_use, set_balance}

module _ {Num Slice : Type 0} (e : Env Num Slice) where
  -- the swap that is confirmed: as it was ordered, or recalculated for what was transferred
  unfoldable pub adjusted_swap : Swap → Num → Result Swap
  adjusted_swap swap amount =
      if e.big.eq amount (e.big.parse swap.source_amount)
      then ok swap
      else recalculate_swap e swap amount

module _ {Db Num Slice : Type 0} (orm : Orm Db) (e : Env Num Slice) where
  -- the end of the loop's body: the swap and its source wallet are credited
  unfoldable pub confirm_swap : TransferLog Num → Swap → Action (World Db) SwapResult
  confirm_swap transfer swap = do
    source_address ← lift (Ethereum.normalize_address e transfer.source_address)
    Repository.update orm e swap.id (record no_update {
      source_address = some source_address;
      source_amount = some (quantity_of e.big swap.source_amount swap.source_token.decimals);
      source_transaction_id = some transfer.transaction_id;
      destination_amount = some (record {
        quantity = parse_nullable e.big swap.destination_amount;
        decimals = swap.destination_token.decimals;
      });
      fee = some (record {
        quantity = parse_nullable e.big swap.fee;
        decimals = swap.source_token.decimals;
      });
      status = some SwapStatus.confirmed;
      confirmations = some 1;
    })
    let new_balance =
        e.big.plus (parse_nullable e.big swap.source_wallet.balance)
          (e.big.parse swap.source_amount)
    Wallets.update orm e swap.source_wallet.id (record (set_in_use false) {
      balance = some (record { quantity = new_balance; decimals = swap.source_token.decimals });
    })
    pure (record {
      status = SwapStatus.confirmed;
      status_code = none;
      transaction_id = some transfer.transaction_id;
    })

  confirm_or_fail : TransferLog Num → Swap → Result Swap → Action (World Db) SwapResult
  confirm_or_fail transfer swap (ok adjusted) = confirm_swap transfer adjusted
  confirm_or_fail transfer swap (err message) = swap_not_recalculated orm e swap message

  -- the loop over the logs: the first transfer to the source wallet decides
  confirm_first_transfer : Swap → List Log → Action (World Db) SwapResult
  unfolding confirm_or_fail
  confirm_first_transfer swap [] = throw "Token transfer transaction not found"
  confirm_first_transfer swap (log ∷ logs) = do
    found ←
        lift
          (Ethereum.find_transfer_log e log swap.source_wallet.address swap.source_token.decimals)
    elim found [
      | none ↦ confirm_first_transfer swap logs
      | some transfer ↦ confirm_or_fail transfer swap (adjusted_swap e swap transfer.amount)
    ]

  confirm_found : ConfirmTransfer → Option Swap → Action (World Db) SwapResult
  unfolding confirm_first_transfer
  confirm_found d none = pure swap_not_found
  confirm_found d (some swap) =
      if is_canceled swap.status
      then swap_canceled orm e swap
      else if ltb swap.expires_at e.now
      then swap_expired orm e swap
      else (do
        current_block ← Ethereum.get_block_with_transactions e d.block_number
        logs ← lift (
            Ethereum.get_logs e swap.source_token.address (Ethereum.sub_ℕ current_block 5)
              current_block)
        confirm_first_transfer swap logs)

  -- `confirmEthTransfer`
  unfoldable pub confirm_eth_transfer : ConfirmTransfer → Action (World Db) SwapResult
  unfolding confirm_found
  confirm_eth_transfer d = Repository.find_by_id orm d.swap_id >>= confirm_found d

  await_confirmation : WaitForTransferConfirmation → Option Swap → Action (World Db) SwapResult
  await_confirmation d none = pure swap_not_found
  await_confirmation d (some swap) =
      if ltb swap.expires_at e.now then swap_expired orm e swap else (do
        lift (Ethereum.wait_for_transaction e (template_text d.transaction_id) d.confirmations)
        Repository.update orm e swap.id (record no_update {
          status = some SwapStatus.confirmed;
          confirmations = some d.confirmations;
        })
        pure (record { status = SwapStatus.confirmed; status_code = none; transaction_id = none }))

  -- `waitForEthTransferConfirmation`
  unfoldable pub wait_for_eth_transfer_confirmation :
      WaitForTransferConfirmation → Action (World Db) SwapResult
  unfolding await_confirmation
  wait_for_eth_transfer_confirmation d =
      Repository.find_by_id orm d.swap_id >>= await_confirmation d

  pay_eth_fee : Option Swap → Action (World Db) (Unit {0})
  pay_eth_fee none = pure tt
  pay_eth_fee (some swap) = if ltb (ultimate_expires_at swap) e.now then pure tt else (do
    gas_price ← Ethereum.get_gas_price e
    token_contract ←
        lift
          (Ethereum.create_token_contract e swap.source_token.address swap.source_wallet.secret_key)
    transaction_id ←
        Ethereum.transfer_tokens e token_contract swap.collector_wallet.address
          (parse_nullable e.big swap.fee) swap.source_token.decimals gas_price
    lift (Ethereum.wait_for_transaction e transaction_id eth_total_confirmations)
    Repository.update orm e swap.id
        (record no_update { collector_transaction_id = some transaction_id })
    let new_balance =
        e.big.minus (parse_nullable e.big swap.source_wallet.balance)
          (parse_nullable e.big swap.fee)
    Wallets.update orm e swap.source_wallet.id
        (set_balance (record { quantity = new_balance; decimals = swap.source_token.decimals })))

  -- `transferEthFee`
  unfoldable pub transfer_eth_fee : ℕ → Action (World Db) (Unit {0})
  unfolding pay_eth_fee
  transfer_eth_fee id = Repository.find_by_id orm id >>= pay_eth_fee

module _ {Db : Type 0} where
  -- `onConfirmEthTransferFailed`
  unfoldable pub on_confirm_eth_transfer_failed :
      ConfirmTransfer → String → Action (World Db) (Unit {0})
  on_confirm_eth_transfer_failed d message =
      add_job eth_source_swaps (JobData.confirm_eth_transfer d.swap_id (next_block d message))
        (delayed eth_block_tracking_interval)

  -- `onConfirmEthTransferCompleted`
  unfoldable pub on_confirm_eth_transfer_completed :
      ConfirmTransfer → SwapResult → Action (World Db) (Unit {0})
  on_confirm_eth_transfer_completed d result = do
    emit (record {
      id = d.swap_id;
      status = result.status;
      status_code = result.status_code;
      current_confirmations = if is_swap_processable result.status then 1 else 0;
      total_confirmations = eth_total_confirmations;
    })
    if is_swap_processable result.status
        then add_job eth_source_swaps
            (JobData.wait_for_eth_transfer_confirmation d.swap_id result.transaction_id 2)
            (retried attempt_count_normal eth_block_tracking_interval)
        else pure tt

  -- `onWaitForEthTransferConfirmationCompleted`
  unfoldable pub on_wait_for_eth_transfer_confirmation_completed :
      WaitForTransferConfirmation → SwapResult → Action (World Db) (Unit {0})
  on_wait_for_eth_transfer_confirmation_completed d result = do
    emit (record {
      id = d.swap_id;
      status = result.status;
      status_code = result.status_code;
      current_confirmations = d.confirmations;
      total_confirmations = eth_total_confirmations;
    })
    if is_swap_processable result.status
        then (if ltb d.confirmations eth_total_confirmations
            then add_job eth_source_swaps
                (JobData.wait_for_eth_transfer_confirmation d.swap_id d.transaction_id
                  (d.confirmations + 1))
                (delayed eth_block_tracking_interval)
            else add_job ton_destination_swaps (JobData.mint_ton_jettons d.swap_id)
                (at_once attempt_count_extended ton_block_tracking_interval))
        else pure tt
