-- ===== src/Wallets/Queue/Progress.antt =====
-- What a run of a job of the wallets puts into their queue.
use eth_ton_swap.Common.{
  ℕ, zero, suc, Bool, true, false, Option, none, some, List, ◌∷◌, Result, ok, err, Action, pure,
  modify, continue, catching, handled, ◌>>=◌, ◌≡◌, refl, ap, ◌∙◌, ◌⊎◌, inl, inr,
}
use eth_ton_swap.Database.{Orm}
use eth_ton_swap.World.{World, WalletJob, WalletJobData}
use eth_ton_swap.Env.{Env}
use eth_ton_swap.Ton.Blockchain.{ton_block_tracking_interval}
use eth_ton_swap.Wallets.Jobs.{wallet_job}
use eth_ton_swap.Wallets.Processor.{
  on_transfer_toncoins_completed, on_confirm_toncoins_transfer_completed,
  on_deploy_wallet_completed, on_confirm_wallet_deploy_completed,
}
use eth_ton_swap.Wallets.Processor.Quiet.{
  transfer_toncoins-Keeps, confirm_toncoins_transfer-Keeps, deploy_wallet-Keeps,
  confirm_wallet_deploy-Keeps,
}
use eth_ton_swap.World.Keeps.{Keeps, wallet_jobs, wallet_jobs_of_send}
use eth_ton_swap.Wallets.Queue.{run_payload, run_job, retry}

-- the job that follows one that completes
abbrev pub next_job : WalletJobData → Option WalletJob
next_job (WalletJobData.transfer_toncoins i g) =
    some
      (wallet_job (WalletJobData.confirm_toncoins_transfer i g) (some ton_block_tracking_interval))
next_job (WalletJobData.confirm_toncoins_transfer i g) =
    some (wallet_job (WalletJobData.deploy_wallet i) none)
next_job (WalletJobData.deploy_wallet i) =
    some (wallet_job (WalletJobData.confirm_wallet_deploy i) (some ton_block_tracking_interval))
next_job (WalletJobData.confirm_wallet_deploy i) = none

-- the same job with an attempt less, if it has one left
abbrev pub again : WalletJob → ℕ → Option WalletJob
again job zero = none
again job (suc zero) = none
again job (suc (suc fewer)) = some (record job { attempts = suc fewer })

abbrev pub queued : Option WalletJob → List WalletJob → List WalletJob
queued none jobs = jobs
queued (some job) jobs = job ∷ jobs

module _ {Db : Type 0} where
  -- Nothing more was queued, or the run returned and the job was queued.
  abbrev pub Enqueues : Option WalletJob → List WalletJob → Result (Unit {0}) × World Db → Type 0
  Enqueues job jobs x =
      (x.1.wallet_jobs ≡ jobs) ⊎ ((x.0 ≡ ok tt) × (x.1.wallet_jobs ≡ queued job jobs))

  continue-Enqueues :
      (job : Option WalletJob) (jobs : List WalletJob) (f : Bool → Action (World Db) (Unit {0}))
      (x : Result Bool × World Db)
      → x.1.wallet_jobs ≡ jobs
      → ((b : Bool) (v : World Db) → v.wallet_jobs ≡ jobs → Enqueues job jobs (f b v))
      → Enqueues job jobs (continue f x)
  continue-Enqueues job jobs f (ok b, v) h k = k b v h
  continue-Enqueues job jobs f (err m, v) h k = inl h

  bind-Enqueues :
      (job : Option WalletJob) (m : Action (World Db) Bool)
      (f : Bool → Action (World Db) (Unit {0})) (w : World Db)
      → Keeps wallet_jobs m
      → ((b : Bool) (v : World Db)
          → v.wallet_jobs ≡ w.wallet_jobs
          → Enqueues job w.wallet_jobs (f b v))
      → Enqueues job w.wallet_jobs ((m >>= f) w)
  unfolding ◌>>=◌
  bind-Enqueues job m f w idle k = continue-Enqueues job w.wallet_jobs f (m w) (idle.at w) k

module _ {Db Num Slice : Type 0} (orm : Orm Db) (e : Env Num Slice) where
  pub run_payload-Enqueues :
      (p : WalletJobData) (w : World Db)
      → Enqueues (next_job p) w.wallet_jobs (run_payload orm e p w)
  unfolding run_payload on_transfer_toncoins_completed on_confirm_toncoins_transfer_completed
      on_deploy_wallet_completed on_confirm_wallet_deploy_completed pure modify
  run_payload-Enqueues (WalletJobData.transfer_toncoins i g) w =
      bind-Enqueues (next_job (WalletJobData.transfer_toncoins i g)) _ _ w
        (transfer_toncoins-Keeps wallet_jobs wallet_jobs_of_send orm e i g)
        (elim [
          | true ↦ λ v h. inr (refl, ap (queued (next_job (WalletJobData.transfer_toncoins i g))) h)
          | false ↦ λ v h. inl h
        ])
  run_payload-Enqueues (WalletJobData.confirm_toncoins_transfer i g) w =
      bind-Enqueues (next_job (WalletJobData.confirm_toncoins_transfer i g)) _ _ w
        (confirm_toncoins_transfer-Keeps wallet_jobs wallet_jobs_of_send orm e i)
        (elim [
          | true ↦ λ v h.
              inr (refl, ap (queued (next_job (WalletJobData.confirm_toncoins_transfer i g))) h)
          | false ↦ λ v h. inl h
        ])
  run_payload-Enqueues (WalletJobData.deploy_wallet i) w =
      bind-Enqueues (next_job (WalletJobData.deploy_wallet i)) _ _ w
        (deploy_wallet-Keeps wallet_jobs wallet_jobs_of_send orm e i)
        (elim [
          | true ↦ λ v h. inr (refl, ap (queued (next_job (WalletJobData.deploy_wallet i))) h)
          | false ↦ λ v h. inl h
        ])
  run_payload-Enqueues (WalletJobData.confirm_wallet_deploy i) w =
      bind-Enqueues (next_job (WalletJobData.confirm_wallet_deploy i)) _ _ w
        (confirm_wallet_deploy-Keeps orm e i) (λ b v h. inl h)

  retry_queues :
      (job : WalletJob) (n : ℕ) (v : World Db)
      → (retry orm e job n v).1.wallet_jobs ≡ queued (again job n) v.wallet_jobs
  unfolding pure modify
  retry_queues job zero v = refl
  retry_queues job (suc zero) v = refl
  retry_queues job (suc (suc fewer)) v = refl

  handled-Enqueues :
      (job : WalletJob) (jobs : List WalletJob) (x : Result (Unit {0}) × World Db)
      → Enqueues (next_job job.payload) jobs x
      → let v = (handled (λ message. retry orm e job job.attempts) x).1 in
        (v.wallet_jobs ≡ jobs)
        ⊎ ((v.wallet_jobs ≡ queued (next_job job.payload) jobs)
            ⊎ (v.wallet_jobs ≡ queued (again job job.attempts) jobs))
  unfolding pure modify
  handled-Enqueues job jobs (ok r, v) (inl h) = inl h
  handled-Enqueues job jobs (ok r, v) (inr h) = inr (inl h.1)
  handled-Enqueues job jobs (err m, v) (inl h) =
      inr (inr (retry_queues job job.attempts v ∙ ap (queued (again job job.attempts)) h))
  handled-Enqueues job jobs (err m, v) (inr h) = cc

  -- A run queues nothing, or the job that follows, or the same job with an attempt less.
  pub run_job_queues :
      (job : WalletJob) (w : World Db)
      → let v = (run_job orm e job w).1 in
        (v.wallet_jobs ≡ w.wallet_jobs)
        ⊎ ((v.wallet_jobs ≡ queued (next_job job.payload) w.wallet_jobs)
            ⊎ (v.wallet_jobs ≡ queued (again job job.attempts) w.wallet_jobs))
  unfolding run_job catching
  run_job_queues job w =
      handled-Enqueues job w.wallet_jobs (run_payload orm e job.payload w)
        (run_payload-Enqueues job.payload w)
