-- ===== src/Swaps/Pipeline/Workers.antt =====
-- The run of a job with its listeners, for a job that fits its swap.
use eth_ton_swap.Common.{
  ℕ, ◌∷◌, String, Option, Result, ok, err, Action, pure, ◌≡◌, inr, refl, ap, sym, subst,
}
use eth_ton_swap.Database.{Orm, OrmLaws}
use eth_ton_swap.World.{World, swap_id, Job, JobData}
use eth_ton_swap.Env.{Env}
use eth_ton_swap.Swaps.Jobs.{ConfirmTransfer, WaitForTransferConfirmation}
use eth_ton_swap.Swaps.Stage.{Stage, stage, Same, Moved, Same-refl}
use eth_ton_swap.Swaps.Stage.Runs.{Outcome}
use eth_ton_swap.Swaps.Results.{
  after_confirmation, after_mint, after_payout, after_settling, ConfirmAllowed, WaitAllowed,
  MintAllowed, PayoutAllowed, AnyAllowed,
}
use eth_ton_swap.Swaps.EthSource as EthSource
use eth_ton_swap.Swaps.EthDestination as EthDestination
use eth_ton_swap.Swaps.TonSource as TonSource
use eth_ton_swap.Swaps.TonDestination as TonDestination
use eth_ton_swap.Swaps.EthSource.Outcome.{
  confirm_eth_transfer-Runs, wait_for_eth_transfer_confirmation-Runs, transfer_eth_fee-Runs,
}
use eth_ton_swap.Swaps.EthDestination.Outcome.{transfer_eth_tokens-Runs}
use eth_ton_swap.Swaps.TonSource.Outcome.{confirm_ton_transfer-Runs}
use eth_ton_swap.Swaps.TonSource.Settling.{
  transfer_ton_fee-Runs, get_ton_fee_transaction-Runs, burn_ton_jettons-Runs,
  get_ton_burn_transaction-Runs,
}
use eth_ton_swap.Swaps.TonDestination.Outcome.{mint_ton_jettons-Runs, get_ton_mint_transaction-Runs}
use eth_ton_swap.Swaps.Pipeline.Completed.{
  confirm_eth_transfer_completed, confirm_ton_transfer_completed, wait_completed, mint_completed,
  get_mint_completed, payout_completed, transfer_fee_completed, get_fee_completed, burn_completed,
  settled_completed, confirm_eth_transfer_failed, confirm_ton_transfer_failed,
}
use eth_ton_swap.Swaps.Pipeline.{Kept, dropped, put_back, requeue, report, run_job, logged}
use eth_ton_swap.Swaps.Pipeline.Fits.{FitsAt, Fits, JobFits, job_swap, Follows, Follows-refl}
use eth_ton_swap.Swaps.Pipeline.Advance.{Advances, Same-Advances}

module _ {Db : Type 0} (orm : Orm Db) where
  -- A job that threw touched no stage; it is gone or in its queue again.
  pub requeue-Advances :
      (w v : World Db) (job : Job) (kept : Option Job)
      → Kept job kept
      → JobFits orm w job
      → Same orm w v
      → Advances orm w (job_swap job) (requeue kept v)
  requeue-Advances w v job _ dropped fits s = Same-Advances orm (job_swap job) s
  requeue-Advances w v job _ (put_back tried) fits s = record {
    others = λ j _. s.stages j;
    own =
        subst (Follows (stage orm w (job_swap job))) (sym (s.stages (job_swap job)))
          (Follows-refl (stage orm w (job_swap job)));
    queued = inr (
      job,
      ap (λ js. job ∷ js) s.jobs,
      refl,
      subst (λ o. Fits o job) (sym (s.stages (job_swap job))) fits,
    );
  }

  pub report-Advances :
      {A : Type 0} (w : World Db) (id : ℕ) (after : A → Stage → Stage)
      (Allowed : Option Stage → A → Type 0) (kept : Option Job)
      (completed : A → Action (World Db) (Unit {0}))
      (failed : String → Action (World Db) (Unit {0})) (x : Result A × World Db)
      → Outcome orm id after Allowed w x
      → ((a : A) (v : World Db)
          → Moved orm w id (after a) v
          → Allowed (stage orm w id) a
          → Advances orm w id (completed a v).1)
      → ((message : String) (v : World Db)
          → Same orm w v
          → Advances orm w id (failed message (requeue kept v)).1)
      → Advances orm w id (report kept completed failed x)
  report-Advances w id after Allowed kept completed failed (ok a, v) h done lost = done a v h.0 h.1
  report-Advances w id after Allowed kept completed failed (err m, v) h done lost = lost m v h

module _ {Db Num Slice : Type 0} {orm : Orm Db} (laws : OrmLaws orm) (e : Env Num Slice) where
  requeued :
      (w v : World Db) (payload : JobData) (job : Job) (kept : Option Job)
      → job.payload ≡ payload
      → Kept job kept
      → FitsAt (stage orm w (swap_id payload)) payload job.options.attempts
      → (message : String) → Same orm w v
      → Advances orm w (swap_id payload) (logged message (requeue kept v)).1
  unfolding pure
  requeued w v payload job kept p k fits message =
      subst
        (λ d.
          Kept job kept
          → FitsAt (stage orm w (swap_id d)) d job.options.attempts
          → Same orm w v
          → Advances orm w (swap_id d) (requeue kept v))
        p (requeue-Advances orm w v job kept) k fits

  run_payload-Advances :
      (payload : JobData) (job : Job) (kept : Option Job) (w : World Db)
      → job.payload ≡ payload
      → Kept job kept
      → FitsAt (stage orm w (swap_id payload)) payload job.options.attempts
      → Advances orm w (swap_id payload) (run_job orm e kept payload w)
  unfolding run_job
  run_payload-Advances (JobData.confirm_eth_transfer id n) job kept w p k fits =
      let d : ConfirmTransfer = record { swap_id = id; block_number = n } in
      report-Advances orm w id (after_confirmation 1) ConfirmAllowed kept
        (EthSource.on_confirm_eth_transfer_completed d) (EthSource.on_confirm_eth_transfer_failed d)
        (EthSource.confirm_eth_transfer orm e d w)
        ((confirm_eth_transfer-Runs laws e d w).at w (Same-refl orm w))
        (λ r v m allowed.
          confirm_eth_transfer_completed orm w v d r job.options.attempts fits m allowed)
        (λ message v same. confirm_eth_transfer_failed orm w v d message job kept k fits same)
  run_payload-Advances (JobData.confirm_ton_transfer id n) job kept w p k fits =
      let d : ConfirmTransfer = record { swap_id = id; block_number = n } in
      report-Advances orm w id (after_confirmation 1) ConfirmAllowed kept
        (TonSource.on_confirm_ton_transfer_completed d) (TonSource.on_confirm_ton_transfer_failed d)
        (TonSource.confirm_ton_transfer orm e d w)
        ((confirm_ton_transfer-Runs laws e d w).at w (Same-refl orm w))
        (λ r v m allowed.
          confirm_ton_transfer_completed orm w v d r job.options.attempts fits m allowed)
        (λ message v same. confirm_ton_transfer_failed orm w v d message job kept k fits same)
  run_payload-Advances (JobData.wait_for_eth_transfer_confirmation id t c) job kept w p k fits =
      let d : WaitForTransferConfirmation = record {
        swap_id = id;
        transaction_id = t;
        confirmations = c;
      } in
      report-Advances orm w id (after_confirmation c) WaitAllowed kept
        (EthSource.on_wait_for_eth_transfer_confirmation_completed d) logged
        (EthSource.wait_for_eth_transfer_confirmation orm e d w)
        ((wait_for_eth_transfer_confirmation-Runs laws e d w).at w (Same-refl orm w))
        (λ r v m allowed. wait_completed orm w v d r job.options.attempts fits m allowed)
        (λ message v same. requeued w v _ job kept p k fits message same)
  run_payload-Advances (JobData.mint_ton_jettons id) job kept w p k fits =
      report-Advances orm w id after_mint MintAllowed kept
        (TonDestination.on_mint_ton_jettons_completed id) logged
        (TonDestination.mint_ton_jettons orm e id w)
        ((mint_ton_jettons-Runs laws e id w).at w (Same-refl orm w))
        (λ r v m allowed. mint_completed orm w v id r job.options.attempts fits m allowed)
        (λ message v same. requeued w v _ job kept p k fits message same)
  run_payload-Advances (JobData.get_ton_mint_transaction id) job kept w p k fits =
      report-Advances orm w id after_payout PayoutAllowed kept
        (TonDestination.on_get_ton_mint_transaction_completed id) logged
        (TonDestination.get_ton_mint_transaction orm e id w)
        ((get_ton_mint_transaction-Runs laws e id w).at w (Same-refl orm w))
        (λ r v m allowed. get_mint_completed orm w v id r job.options.attempts fits m allowed)
        (λ message v same. requeued w v _ job kept p k fits message same)
  run_payload-Advances (JobData.transfer_eth_tokens id) job kept w p k fits =
      report-Advances orm w id after_payout PayoutAllowed kept
        (EthDestination.on_transfer_eth_tokens_completed id) logged
        (EthDestination.transfer_eth_tokens orm e id w)
        ((transfer_eth_tokens-Runs laws e id w).at w (Same-refl orm w))
        (λ r v m allowed. payout_completed orm w v id r job.options.attempts fits m allowed)
        (λ message v same. requeued w v _ job kept p k fits message same)
  run_payload-Advances (JobData.transfer_ton_fee id) job kept w p k fits =
      report-Advances orm w id after_settling AnyAllowed kept
        (λ _. TonSource.on_transfer_ton_fee_completed id) logged
        (TonSource.transfer_ton_fee orm e id w)
        ((transfer_ton_fee-Runs laws e id w).at w (Same-refl orm w))
        (λ r v m _. transfer_fee_completed orm w v id r job.options.attempts fits m)
        (λ message v same. requeued w v _ job kept p k fits message same)
  run_payload-Advances (JobData.get_ton_fee_transaction id) job kept w p k fits =
      report-Advances orm w id after_settling AnyAllowed kept
        (λ _. TonSource.on_get_ton_fee_transaction_completed id) logged
        (TonSource.get_ton_fee_transaction orm e id w)
        ((get_ton_fee_transaction-Runs laws e id w).at w (Same-refl orm w))
        (λ r v m _. get_fee_completed orm w v id r job.options.attempts fits m)
        (λ message v same. requeued w v _ job kept p k fits message same)
  run_payload-Advances (JobData.burn_ton_jettons id) job kept w p k fits =
      report-Advances orm w id after_settling AnyAllowed kept
        (λ _. TonSource.on_burn_ton_jettons_completed id) logged
        (TonSource.burn_ton_jettons orm e id w)
        ((burn_ton_jettons-Runs laws e id w).at w (Same-refl orm w))
        (λ r v m _. burn_completed orm w v id r job.options.attempts fits m)
        (λ message v same. requeued w v _ job kept p k fits message same)
  run_payload-Advances (JobData.transfer_eth_fee id) job kept w p k fits =
      report-Advances orm w id after_settling AnyAllowed kept logged logged
        (EthSource.transfer_eth_fee orm e id w)
        ((transfer_eth_fee-Runs laws e id w).at w (Same-refl orm w))
        (λ r v m _. settled_completed orm w v id r m)
        (λ message v same. requeued w v _ job kept p k fits message same)
  run_payload-Advances (JobData.get_ton_burn_transaction id) job kept w p k fits =
      report-Advances orm w id after_settling AnyAllowed kept logged logged
        (TonSource.get_ton_burn_transaction orm e id w)
        ((get_ton_burn_transaction-Runs laws e id w).at w (Same-refl orm w))
        (λ r v m _. settled_completed orm w v id r m)
        (λ message v same. requeued w v _ job kept p k fits message same)

  -- A job that fits its swap moves that swap only, and leaves at most one job, which fits again.
  pub run_job-Advances :
      (job : Job) (kept : Option Job) (w : World Db)
      → Kept job kept
      → JobFits orm w job
      → Advances orm w (job_swap job) (run_job orm e kept job.payload w)
  run_job-Advances job kept w = run_payload-Advances job.payload job kept w refl
