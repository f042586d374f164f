-- ===== src/Swaps/EthSource/Outcome.antt =====
-- The runs of the Ethereum source processor, as moves of a stage.
use eth_ton_swap.Common.{
  ℕ, none, some, List, [], ◌∷◌, Result, ok, err, ◌≡◌, ◌≢◌, ◌∙◌, refl, inl, inr, arith, ltb,
}
use eth_ton_swap.Entities.{SwapStatus, ultimate_expires_at, Swap, is_canceled}
use eth_ton_swap.Database.{Orm, OrmLaws}
use eth_ton_swap.World.{World}
use eth_ton_swap.Env.{Env, Log}
use eth_ton_swap.Ethereum.{TransferLog}
use eth_ton_swap.Swaps.Jobs.{ConfirmTransfer, WaitForTransferConfirmation}
use eth_ton_swap.Swaps.EthSource.{
  confirm_swap, confirm_or_fail, confirm_first_transfer, confirm_found, confirm_eth_transfer,
  await_confirmation, wait_for_eth_transfer_confirmation, pay_eth_fee, transfer_eth_fee,
  adjusted_swap,
}
use eth_ton_swap.Swaps.Stage.{Stage, stage, stage_of, Quiet-lift}
use eth_ton_swap.Swaps.Stage.Writes.{Settles-pure, Settles-wallet, Settles-then}
use eth_ton_swap.Swaps.Stage.Runs.{
  Runs, Runs-throw, Runs-if, Runs-bind, Runs-find, Runs-update, Runs-return, Runs-missing,
}
use eth_ton_swap.Swaps.Stage.Services.{get_gas_price-Quiet, get_block-Quiet, transfer_tokens-Quiet}
use eth_ton_swap.Swaps.Helper.{recalculate_swap}
use eth_ton_swap.Swaps.Helper.Closing.{
  closed, swap_canceled-Runs, swap_expired-Runs, swap_not_recalculated-Runs,
}
use eth_ton_swap.Swaps.Results.{
  after_confirmation, after_settling, ConfirmAllowed, WaitAllowed, AnyAllowed, is_canceled_eq,
  is_canceled_ne,
}

module _ {Db Num Slice : Type 0} {orm : Orm Db} (laws : OrmLaws orm) (e : Env Num Slice) where
  wait_found-Runs :
      (d : WaitForTransferConfirmation) (w : World Db) (swap : Swap)
      → swap.id ≡ d.swap_id
      → stage orm w d.swap_id ≡ some (stage_of swap)
      → Runs orm d.swap_id
          (after_confirmation d.confirmations)
          WaitAllowed
          w
          (await_confirmation orm e d (some swap))
  unfolding await_confirmation
  wait_found-Runs d w swap p found =
      Runs-if (ltb swap.expires_at e.now) _ _
        (λ late. swap_expired-Runs laws e swap p (λ c g. refl) (λ c. rw found (inl refl)))
        (λ in_time. Runs-bind _ _ (Quiet-lift orm _) λ confirmed.
          Runs-update laws e swap.id _ (closed SwapStatus.confirmed none) _ p (λ g. refl)
            (rw found (inr refl)) (Settles-pure laws e _))

  -- If the database obeys the laws, a run of waitForEthTransferConfirmation that throws touches
  -- no stage and no job. One that returns touches no job, and moves the stage of its own swap
  -- alone, which gets the status that is returned, and the job's number of confirmations if
  -- that is confirmed: failed if the swap is not stored, otherwise expired or confirmed.
  pub wait_for_eth_transfer_confirmation-Runs :
      (d : WaitForTransferConfirmation) (w : World Db)
      → Runs orm d.swap_id
          (after_confirmation d.confirmations)
          WaitAllowed
          w
          (wait_for_eth_transfer_confirmation orm e d)
  unfolding wait_for_eth_transfer_confirmation
  wait_for_eth_transfer_confirmation-Runs d w =
      Runs-find laws e _ (λ missing. Runs-missing laws e _ _ missing refl (Settles-pure laws e _))
        (wait_found-Runs d w)

  confirm_swap-Runs :
      (d : ConfirmTransfer) (w : World Db) (transfer : TransferLog Num) (swap : Swap) (g : Stage)
      → swap.id ≡ d.swap_id
      → stage orm w d.swap_id ≡ some g
      → g.status ≢ SwapStatus.canceled
      → Runs orm d.swap_id
          (after_confirmation 1)
          ConfirmAllowed
          w
          (confirm_swap orm e transfer swap)
  unfolding confirm_swap
  confirm_swap-Runs d w transfer swap g p found active =
      Runs-bind _ _ (Quiet-lift orm _) λ source_address.
        Runs-update laws e swap.id _
          (record {
            status = SwapStatus.confirmed;
            status_code = none;
            transaction_id = some transfer.transaction_id;
          })
          _ p (λ g. refl) (rw found (inr (active, inr (inr refl))))
          (Settles-then laws e tt _ _ _ (Settles-wallet laws e swap.source_wallet.id _ refl refl)
            (Settles-pure laws e _))

  pub adjusted_swap_id :
      (swap adjusted : Swap) (n : Num)
      → adjusted_swap e swap n ≡ ok adjusted
      → adjusted.id ≡ swap.id
  unfolding adjusted_swap recalculate_swap
  adjusted_swap_id swap adjusted n h = ground arith

  confirm_or_fail-Runs :
      (d : ConfirmTransfer) (w : World Db) (transfer : TransferLog Num) (swap : Swap) (g : Stage)
      → swap.id ≡ d.swap_id
      → stage orm w d.swap_id ≡ some g
      → g.status ≢ SwapStatus.canceled
      → (adjusted : Result Swap) → adjusted_swap e swap transfer.amount ≡ adjusted
      → Runs orm d.swap_id
          (after_confirmation 1)
          ConfirmAllowed
          w
          (confirm_or_fail orm e transfer swap adjusted)
  unfolding confirm_or_fail
  confirm_or_fail-Runs d w transfer swap g p found active (ok adjusted) h =
      confirm_swap-Runs d w transfer adjusted g
        (adjusted_swap_id swap adjusted transfer.amount h ∙ p) found active
  confirm_or_fail-Runs d w transfer swap g p found active (err message) h =
      swap_not_recalculated-Runs laws e swap message p (λ c g. refl)
        (λ c. rw found (inr (active, inr (inl refl))))

  confirm_first_transfer-Runs :
      (d : ConfirmTransfer) (w : World Db) (swap : Swap) (g : Stage) (logs : List Log)
      → swap.id ≡ d.swap_id
      → stage orm w d.swap_id ≡ some g
      → g.status ≢ SwapStatus.canceled
      → Runs orm d.swap_id
          (after_confirmation 1)
          ConfirmAllowed
          w
          (confirm_first_transfer orm e swap logs)
  unfolding confirm_first_transfer
  confirm_first_transfer-Runs d w swap g [] p found active = Runs-throw _
  confirm_first_transfer-Runs d w swap g (log ∷ logs) p found active =
      Runs-bind _ _ (Quiet-lift orm _) (elim [
        | none ↦ confirm_first_transfer-Runs d w swap g logs p found active
        | some transfer ↦ confirm_or_fail-Runs d w transfer swap g p found active _ refl
      ])

  confirm_found-Runs :
      (d : ConfirmTransfer) (w : World Db) (swap : Swap)
      → swap.id ≡ d.swap_id
      → stage orm w d.swap_id ≡ some (stage_of swap)
      → Runs orm d.swap_id
          (after_confirmation 1)
          ConfirmAllowed
          w
          (confirm_found orm e d (some swap))
  unfolding confirm_found
  confirm_found-Runs d w swap p found =
      Runs-if (is_canceled swap.status) _ _
        (λ gone.
          swap_canceled-Runs laws e swap p (λ c g. refl)
            (λ c. rw found (inl (is_canceled_eq swap.status gone, refl))))
        (λ active.
          Runs-if (ltb swap.expires_at e.now) _ _
            (λ late.
              swap_expired-Runs laws e swap p (λ c g. refl)
                (λ c. rw found (inr (is_canceled_ne swap.status active, inl refl))))
            (λ in_time. Runs-bind _ _ (get_block-Quiet orm e d.block_number) λ current.
              Runs-bind _ _ (Quiet-lift orm _) λ logs.
                confirm_first_transfer-Runs d w swap (stage_of swap) logs p found
                  (is_canceled_ne swap.status active)))

  -- If the database obeys the laws, a run of confirmEthTransfer that throws touches no stage
  -- and no job. One that returns touches no job, and moves the stage of its own swap alone,
  -- which gets the status that is returned, and one confirmation if that is confirmed: failed
  -- if the swap is not stored, canceled just if it was, otherwise expired, failed or confirmed.
  pub confirm_eth_transfer-Runs :
      (d : ConfirmTransfer) (w : World Db)
      → Runs orm d.swap_id (after_confirmation 1) ConfirmAllowed w (confirm_eth_transfer orm e d)
  unfolding confirm_eth_transfer
  confirm_eth_transfer-Runs d w =
      Runs-find laws e _ (λ missing. Runs-missing laws e _ _ missing refl (Settles-pure laws e _))
        (confirm_found-Runs d w)

  fee_found-Runs :
      (id : ℕ) (w : World Db) (swap : Swap)
      → swap.id ≡ id
      → Runs orm id after_settling AnyAllowed w (pay_eth_fee orm e (some swap))
  unfolding pay_eth_fee
  fee_found-Runs id w swap p =
      Runs-if (ltb (ultimate_expires_at swap) e.now) _ _
        (λ late. Runs-return laws e tt _ (λ g. refl) tt (Settles-pure laws e tt))
        (λ in_time. Runs-bind _ _ (get_gas_price-Quiet orm e) λ gas_price.
          Runs-bind _ _ (Quiet-lift orm _) λ contract.
            Runs-bind _ _ (transfer_tokens-Quiet orm e _ _ _ _ _) λ transaction_id.
              Runs-bind _ _ (Quiet-lift orm _) λ confirmed.
                Runs-update laws e swap.id _ tt _ p (λ g. refl) tt
                  (Settles-wallet laws e swap.source_wallet.id _ refl refl))

  pub transfer_eth_fee-Runs :
      (id : ℕ) (w : World Db) → Runs orm id after_settling AnyAllowed w (transfer_eth_fee orm e id)
  unfolding transfer_eth_fee
  transfer_eth_fee-Runs id w =
      Runs-find laws e _ (λ missing. Runs-missing laws e tt _ missing tt (Settles-pure laws e tt))
        (λ swap p found. fee_found-Runs id w swap p)
