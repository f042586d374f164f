-- ===== src/Swaps/TonSource/Outcome.antt =====
-- The runs of the TON source processor that confirm the incoming transfer, as moves of a stage.
use eth_ton_swap.Common.{
  ℕ, String, Option, none, some, Result, ok, err, ◌≡◌, ◌≢◌, ◌∙◌, refl, inl, inr, ltb,
}
use eth_ton_swap.Entities.{SwapStatus, Wallet, Swap, is_canceled}
use eth_ton_swap.Database.{Orm, OrmLaws}
use eth_ton_swap.World.{World}
use eth_ton_swap.Env.{Env}
use eth_ton_swap.Ton.Blockchain.{TransactionData}
use eth_ton_swap.Swaps.Jobs.{ConfirmTransfer}
use eth_ton_swap.Swaps.EthSource.{adjusted_swap}
use eth_ton_swap.Swaps.EthSource.Outcome.{adjusted_swap_id}
use eth_ton_swap.Swaps.TonDestination.Outcome.{find_minter_admin_wallet-Quiet}
use eth_ton_swap.Swaps.TonSource.{
  confirm_jettons, confirm_from_minter, confirm_or_fail, confirm_incoming, confirm_found,
  confirm_ton_transfer,
}
use eth_ton_swap.Swaps.Stage.{Stage, stage, stage_of, Quiet-lift}
use eth_ton_swap.Swaps.Stage.Writes.{Settles-pure, Settles-wallet, Settles-then}
use eth_ton_swap.Swaps.Stage.Runs.{
  Runs, Runs-throw, Runs-if, Runs-bind, Runs-find, Runs-update, Runs-missing,
}
use eth_ton_swap.Swaps.Helper.Closing.{
  closed, swap_canceled-Runs, swap_expired-Runs, swap_not_recalculated-Runs, minter_not_found-Runs,
}
use eth_ton_swap.Swaps.Results.{after_confirmation, ConfirmAllowed, is_canceled_eq, is_canceled_ne}

module _ {Db Num Slice : Type 0} {orm : Orm Db} (laws : OrmLaws orm) (e : Env Num Slice) where
  confirm_jettons-Runs :
      (id : ℕ) (w : World Db) (swap : Swap) (g : Stage) (source jetton_wallet : String)
      → swap.id ≡ id
      → stage orm w id ≡ some g
      → g.status ≢ SwapStatus.canceled
      → (outgoing : Option (TransactionData Num))
      → Runs orm id
          (after_confirmation 1)
          ConfirmAllowed
          w
          (confirm_jettons orm e swap source jetton_wallet outgoing)
  unfolding confirm_jettons
  confirm_jettons-Runs id w swap g source jetton_wallet p found active none = Runs-throw _
  confirm_jettons-Runs id w swap g source jetton_wallet p found active (some outgoing) =
      Runs-bind _ _ (Quiet-lift orm _) λ source_address.
        Runs-bind _ _ (Quiet-lift orm _) λ source_conjugated_address.
          Runs-update laws e swap.id _ (closed SwapStatus.confirmed none) _ p (λ g. refl)
            (rw found (inr (active, inr (inr refl))))
            (Settles-then laws e tt _ _ _ (Settles-wallet laws e swap.source_wallet.id _ refl refl)
              (Settles-pure laws e _))

  confirm_from_minter-Runs :
      (id : ℕ) (w : World Db) (swap : Swap) (g : Stage) (source : Option String)
      → swap.id ≡ id
      → stage orm w id ≡ some g
      → g.status ≢ SwapStatus.canceled
      → (minter : Option Wallet)
      → Runs orm id
          (after_confirmation 1)
          ConfirmAllowed
          w
          (confirm_from_minter orm e swap source minter)
  unfolding confirm_from_minter
  confirm_from_minter-Runs id w swap g source p found active none =
      minter_not_found-Runs laws e swap p (λ c g. refl)
        (λ c. rw found (inr (active, inr (inl refl))))
  confirm_from_minter-Runs id w swap g source p found active (some minter) =
      Runs-bind _ _ (Quiet-lift orm _) λ source_address.
        Runs-bind _ _ (Quiet-lift orm _) λ jetton_wallet.
          Runs-bind _ _ (Quiet-lift orm _)
            (confirm_jettons-Runs id w swap g source_address jetton_wallet p found active)

  confirm_or_fail-Runs :
      (id : ℕ) (w : World Db) (swap : Swap) (g : Stage) (source : Option String) (amount : Num)
      → swap.id ≡ id
      → stage orm w id ≡ some g
      → g.status ≢ SwapStatus.canceled
      → (adjusted : Result Swap) → adjusted_swap e swap amount ≡ adjusted
      → Runs orm id
          (after_confirmation 1)
          ConfirmAllowed
          w
          (confirm_or_fail orm e swap source adjusted)
  unfolding confirm_or_fail
  confirm_or_fail-Runs id w swap g source amount p found active (err message) h =
      swap_not_recalculated-Runs laws e swap message p (λ c g. refl)
        (λ c. rw found (inr (active, inr (inl refl))))
  confirm_or_fail-Runs id w swap g source amount p found active (ok adjusted) h =
      Runs-bind _ _ (find_minter_admin_wallet-Quiet orm e) (
        confirm_from_minter-Runs id w adjusted g source
          (adjusted_swap_id laws e swap adjusted amount h ∙ p) found active)

  confirm_incoming-Runs :
      (id : ℕ) (w : World Db) (swap : Swap) (g : Stage)
      → swap.id ≡ id
      → stage orm w id ≡ some g
      → g.status ≢ SwapStatus.canceled
      → (incoming : Option (TransactionData Num))
      → Runs orm id (after_confirmation 1) ConfirmAllowed w (confirm_incoming orm e swap incoming)
  unfolding confirm_incoming
  confirm_incoming-Runs id w swap g p found active none = Runs-throw _
  confirm_incoming-Runs id w swap g p found active (some incoming) =
      confirm_or_fail-Runs id w swap g incoming.source_address incoming.amount p found active _ refl

  confirm_found-Runs :
      (id : ℕ) (w : World Db) (swap : Swap)
      → swap.id ≡ id
      → stage orm w id ≡ some (stage_of swap)
      → Runs orm id (after_confirmation 1) ConfirmAllowed w (confirm_found orm e (some swap))
  unfolding confirm_found
  confirm_found-Runs id w swap p found =
      Runs-if (is_canceled swap.status) _ _
        (λ gone.
          swap_canceled-Runs laws e swap p (λ c g. refl)
            (λ c. rw found (inl (is_canceled_eq swap.status gone, refl))))
        (λ active.
          Runs-if (ltb swap.expires_at e.now) _ _
            (λ late.
              swap_expired-Runs laws e swap p (λ c g. refl)
                (λ c. rw found (inr (is_canceled_ne swap.status active, inl refl))))
            (λ in_time. Runs-bind _ _ (Quiet-lift orm _) λ source.
              Runs-bind _ _ (Quiet-lift orm _) (
                confirm_incoming-Runs id w swap (stage_of swap) p found
                  (is_canceled_ne swap.status active))))

  -- If the database obeys the laws, a run of conifrmTonTransfer that throws touches no stage
  -- and no job. One that returns touches no job, and moves the stage of its own swap alone,
  -- which gets the status that is returned, and one confirmation if that is confirmed: failed
  -- if the swap is not stored, canceled just if it was, otherwise expired, failed or confirmed.
  pub confirm_ton_transfer-Runs :
      (d : ConfirmTransfer) (w : World Db)
      → Runs orm d.swap_id (after_confirmation 1) ConfirmAllowed w (confirm_ton_transfer orm e d)
  unfolding confirm_ton_transfer
  confirm_ton_transfer-Runs d w =
      Runs-find laws e _ (λ missing. Runs-missing laws e _ _ missing refl (Settles-pure laws e _))
        (confirm_found-Runs d.swap_id w)
