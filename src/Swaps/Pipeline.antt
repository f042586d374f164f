-- ===== src/Swaps/Pipeline.antt =====
-- The queues of src/swaps/swaps.module.ts with their four processors, and the two endpoints that
-- change swaps, as one step relation. A run of a job, or of an endpoint, is one step, each with its
-- own answers from outside. Bull's events `completed` and `failed` call the processors' listeners;
-- a job that threw is dropped, or put back if it was given attempts.
pub mod Fits
pub mod Advance
pub mod Completed
pub mod Workers
pub mod Orders
pub mod Racing
pub mod Placing
pub mod Consistency
pub mod LifeCycle
pub mod Expiry
pub mod Reading
pub mod Holding
pub mod Leasing
pub mod Payouts
pub mod Admission
pub mod Caching
pub mod Resending
use eth_ton_swap.Common.{
  ℕ, String, Bool, Option, none, some, List, ◌∷◌, Result, ok, err, Action, pure, Picks, ◌≢◌,
}
use eth_ton_swap.Database.{Orm}
use eth_ton_swap.World.{World, JobData, Job}
use eth_ton_swap.Env.{Env}
use eth_ton_swap.Swaps.Jobs.{ConfirmTransfer, WaitForTransferConfirmation}
use eth_ton_swap.Swaps.Controller.{CreateSwapRequest, create_swap, cancel_swap}
use eth_ton_swap.Swaps.EthSource as EthSource
use eth_ton_swap.Swaps.EthDestination as EthDestination
use eth_ton_swap.Swaps.TonSource as TonSource
use eth_ton_swap.Swaps.TonDestination as TonDestination

-- The job, where it stays in its queue after it threw.
pub data Kept (job : Job) : Option Job → Type 0 where
  dropped : Kept job none
  put_back : job.options.attempts ≢ none → Kept job (some job)

module _ {Db : Type 0} where
  abbrev pub requeue : Option Job → World Db → World Db
  requeue none w = w
  requeue (some job) w = record w { jobs = job ∷ w.jobs }

  -- The listeners, called with what a run returned or threw.
  abbrev pub report :
      {A : Type 0}
      → Option Job
      → (A → Action (World Db) (Unit {0}))
      → (String → Action (World Db) (Unit {0}))
      → Result A × World Db
      → World Db
  report kept completed failed (ok a, w) = (completed a w).1
  report kept completed failed (err message, w) = (failed message (requeue kept w)).1

  -- a listener that only writes to the log
  abbrev pub logged : {A : Type 0} → A → Action (World Db) (Unit {0})
  logged a = pure tt

module _ {Db Num Slice : Type 0} (orm : Orm Db) (e : Env Num Slice) where
  -- the processor of each job, with its listeners
  unfoldable pub run_job : Option Job → JobData → World Db → World Db
  run_job kept (JobData.confirm_eth_transfer id block_number) w =
      let d : ConfirmTransfer = record { swap_id = id; block_number = block_number } in
      report kept (EthSource.on_confirm_eth_transfer_completed d)
        (EthSource.on_confirm_eth_transfer_failed d) (EthSource.confirm_eth_transfer orm e d w)
  run_job kept (JobData.wait_for_eth_transfer_confirmation id transaction_id confirmations) w =
      let d : WaitForTransferConfirmation = record {
        swap_id = id;
        transaction_id = transaction_id;
        confirmations = confirmations;
      } in
      report kept (EthSource.on_wait_for_eth_transfer_confirmation_completed d) logged
        (EthSource.wait_for_eth_transfer_confirmation orm e d w)
  run_job kept (JobData.transfer_eth_tokens id) w =
      report kept (EthDestination.on_transfer_eth_tokens_completed id) logged
        (EthDestination.transfer_eth_tokens orm e id w)
  run_job kept (JobData.transfer_eth_fee id) w =
      report kept logged logged (EthSource.transfer_eth_fee orm e id w)
  run_job kept (JobData.confirm_ton_transfer id block_number) w =
      let d : ConfirmTransfer = record { swap_id = id; block_number = block_number } in
      report kept (TonSource.on_confirm_ton_transfer_completed d)
        (TonSource.on_confirm_ton_transfer_failed d) (TonSource.confirm_ton_transfer orm e d w)
  run_job kept (JobData.mint_ton_jettons id) w =
      report kept (TonDestination.on_mint_ton_jettons_completed id) logged
        (TonDestination.mint_ton_jettons orm e id w)
  run_job kept (JobData.burn_ton_jettons id) w =
      report kept (λ _. TonSource.on_burn_ton_jettons_completed id) logged
        (TonSource.burn_ton_jettons orm e id w)
  run_job kept (JobData.transfer_ton_fee id) w =
      report kept (λ _. TonSource.on_transfer_ton_fee_completed id) logged
        (TonSource.transfer_ton_fee orm e id w)
  run_job kept (JobData.get_ton_mint_transaction id) w =
      report kept (TonDestination.on_get_ton_mint_transaction_completed id) logged
        (TonDestination.get_ton_mint_transaction orm e id w)
  run_job kept (JobData.get_ton_burn_transaction id) w =
      report kept logged logged (TonSource.get_ton_burn_transaction orm e id w)
  run_job kept (JobData.get_ton_fee_transaction id) w =
      report kept (λ _. TonSource.on_get_ton_fee_transaction_completed id) logged
        (TonSource.get_ton_fee_transaction orm e id w)

module _ {Db : Type 0} (Num Slice : Type 0) (orm : Orm Db) where
  pub data Step (w : World Db) : World Db → Type 0 where
    order :
        (e : Env Num Slice) (r : CreateSwapRequest) (ip_address : String)
        → Step w (create_swap orm e r ip_address w).1
    cancel : (e : Env Num Slice) (id : ℕ) → Step w (cancel_swap orm e id w).1
    run :
        (e : Env Num Slice) (job : Job) (rest : List Job) (kept : Option Job)
        → Picks job rest w.jobs
        → Kept job kept
        → Step w (run_job orm e kept job.payload (record w { jobs = rest }))

  pub data Reach (w : World Db) : World Db → Type 0 where
    here : Reach w w
    step : {v u : World Db} → Reach w v → Step v u → Reach w u
