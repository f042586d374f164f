-- ===== src/Wallets/Queue/Termination.antt =====
-- Every chain of jobs of the wallets ends, in whatever order they run.
use eth_ton_swap.Common.{
  ℕ, zero, suc, ◌+◌, ◌*◌, ◌≤◌, ◌<◌, List, [], ◌∷◌, Picks, first, later, ◌≡◌, refl, inl, inr, arith,
}
use eth_ton_swap.Database.{Orm}
use eth_ton_swap.World.{World, WalletJob, WalletJobData}
use eth_ton_swap.Env.{Env}
use eth_ton_swap.Wallets.Queue.{run_job}
use eth_ton_swap.Wallets.Queue.Progress.{next_job, again, queued, run_job_queues}

-- how many jobs may follow
abbrev rank : WalletJobData → ℕ
rank (WalletJobData.transfer_toncoins i g) = 3
rank (WalletJobData.confirm_toncoins_transfer i g) = 2
rank (WalletJobData.deploy_wallet i) = 1
rank (WalletJobData.confirm_wallet_deploy i) = 0

-- the most runs that a job and those that follow it can take
abbrev weight : WalletJob → ℕ
weight job = suc (rank job.payload * 7 + job.attempts)

abbrev pub runs_left : List WalletJob → ℕ
runs_left [] = 0
runs_left (job ∷ jobs) = weight job + runs_left jobs

runs_left-Picks :
    {job : WalletJob} {rest jobs : List WalletJob}
    → Picks job rest jobs
    → runs_left jobs ≡ weight job + runs_left rest
runs_left-Picks first = refl
runs_left-Picks (later p) = omega (arith, runs_left-Picks p)

next_lighter :
    (p : WalletJobData) (n : ℕ) (jobs : List WalletJob)
    → runs_left (queued (next_job p) jobs) < suc (rank p * 7 + n) + runs_left jobs
next_lighter (WalletJobData.transfer_toncoins i g) n jobs = omega arith
next_lighter (WalletJobData.confirm_toncoins_transfer i g) n jobs = omega arith
next_lighter (WalletJobData.deploy_wallet i) n jobs = omega arith
next_lighter (WalletJobData.confirm_wallet_deploy i) n jobs = omega arith

again_lighter :
    (job : WalletJob) (n : ℕ) (jobs : List WalletJob)
    → runs_left (queued (again job n) jobs) < suc (rank job.payload * 7 + n) + runs_left jobs
again_lighter job zero jobs = omega arith
again_lighter job (suc zero) jobs = omega arith
again_lighter job (suc (suc fewer)) jobs = omega arith

module _ {Db : Type 0} (Num Slice : Type 0) (orm : Orm Db) where
  -- So many runs, each of a job that is queued, answered in whatever way.
  pub data Chain : ℕ → World Db → World Db → Type 0 where
    here : {w : World Db} → Chain 0 w w
    run :
        {n : ℕ} {w v : World Db} (e : Env Num Slice) (job : WalletJob) (rest : List WalletJob)
        → Picks job rest w.wallet_jobs
        → Chain n (run_job orm e job (record w { wallet_jobs = rest })).1 v
        → Chain (suc n) w v

  run_lighter :
      (e : Env Num Slice) (job : WalletJob) (w : World Db)
      → runs_left (run_job orm e job w).1.wallet_jobs < weight job + runs_left w.wallet_jobs
  run_lighter e job w = elim (run_job_queues orm e job w) [
    | inl h ↦ rw h (omega arith)
    | inr (inl h) ↦ rw h (next_lighter job.payload job.attempts w.wallet_jobs)
    | inr (inr h) ↦ rw h (again_lighter job job.attempts w.wallet_jobs)
  ]

  -- However the queued jobs of wallets are run and answered, the number of runs is bounded by
  -- what was queued: the runs and the most that may still follow are no more than the most that
  -- could follow before.
  pub Chain_bounded :
      {n : ℕ} {w v : World Db} → Chain n w v → n + runs_left v.wallet_jobs ≤ runs_left w.wallet_jobs
  Chain_bounded here = omega arith
  Chain_bounded (run {w = w} e job rest p c) = omega (
    arith,
    Chain_bounded c,
    runs_left-Picks p,
    run_lighter e job (record w { wallet_jobs = rest }),
  )
