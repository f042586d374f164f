-- ===== src/Wallets/Queue/Refinement.antt =====
-- What the jobs of a wallet promise, apart from databases, clients and queues: its deployment goes
-- through four stages in order, and each of them is tried so often.
use eth_ton_swap.Common.{
  ℕ, zero, suc, List, [], ◌∷◌, Picks, first, later, ◌≡◌, refl, sym, subst, inl, inr,
}
use eth_ton_swap.Database.{Orm}
use eth_ton_swap.World.{World, WalletJob, WalletJobData}
use eth_ton_swap.Env.{Env}
use eth_ton_swap.Wallets.Jobs.{deploy_wallet_attempts}
use eth_ton_swap.Wallets.Queue.{run_job}
use eth_ton_swap.Wallets.Queue.Progress.{next_job, again, queued, run_job_queues}
use eth_ton_swap.Wallets.Queue.Termination.{Chain, here, run}

pub data Stage : Type 0 where
  toncoins_due toncoins_sent toncoins_received deployment_sent : Stage

-- nothing to do, or a wallet at a stage with attempts left
pub data Deployment : Type 0 where
  rested : Deployment
  busy : ℕ → Stage → ℕ → Deployment

pub data Follows : Stage → Stage → Type 0 where
  sends : Follows toncoins_due toncoins_sent
  receives : Follows toncoins_sent toncoins_received
  deploys : Follows toncoins_received deployment_sent

pub data Step : Deployment → Deployment → Type 0 where
  ends : {i : ℕ} {s : Stage} {n : ℕ} → Step (busy i s n) rested
  advances :
      {i : ℕ} {s t : Stage} {n : ℕ}
      → Follows s t
      → Step (busy i s n) (busy i t deploy_wallet_attempts)
  retries : {i : ℕ} {s : Stage} {n : ℕ} → Step (busy i s (suc (suc n))) (busy i s (suc n))

pub data Steps : ℕ → Deployment → Deployment → Type 0 where
  stays : {d : Deployment} → Steps 0 d d
  steps : {n : ℕ} {c d e : Deployment} → Step c d → Steps n d e → Steps (suc n) c e

abbrev stage : WalletJobData → Stage
stage (WalletJobData.transfer_toncoins i g) = toncoins_due
stage (WalletJobData.confirm_toncoins_transfer i g) = toncoins_sent
stage (WalletJobData.deploy_wallet i) = toncoins_received
stage (WalletJobData.confirm_wallet_deploy i) = deployment_sent

abbrev wallet_id : WalletJobData → ℕ
wallet_id (WalletJobData.transfer_toncoins i g) = i
wallet_id (WalletJobData.confirm_toncoins_transfer i g) = i
wallet_id (WalletJobData.deploy_wallet i) = i
wallet_id (WalletJobData.confirm_wallet_deploy i) = i

-- the deployment that a queue stands for, if it holds no more than one job
pub data Shows : List WalletJob → Deployment → Type 0 where
  empty : Shows [] rested
  single :
      (job : WalletJob)
      → Shows (job ∷ []) (busy (wallet_id job.payload) (stage job.payload) job.attempts)

-- the deployment that a queue comes to by a step
abbrev Advanced : Deployment → List WalletJob → Type 0
Advanced d jobs = (after : Deployment) × Step d after × Shows jobs after

next_advances :
    (p : WalletJobData) (n : ℕ) → Advanced (busy (wallet_id p) (stage p) n) (queued (next_job p) [])
next_advances (WalletJobData.transfer_toncoins i g) n = (_, advances sends, single _)
next_advances (WalletJobData.confirm_toncoins_transfer i g) n = (_, advances receives, single _)
next_advances (WalletJobData.deploy_wallet i) n = (_, advances deploys, single _)
next_advances (WalletJobData.confirm_wallet_deploy i) n = (_, ends, empty)

again_advances :
    (job : WalletJob) (n : ℕ)
    → Advanced (busy (wallet_id job.payload) (stage job.payload) n) (queued (again job n) [])
again_advances job zero = (_, ends, empty)
again_advances job (suc zero) = (_, ends, empty)
again_advances job (suc (suc fewer)) = (_, retries, single _)

no_pick : {job : WalletJob} {rest : List WalletJob} → Picks job rest [] → ⊥
no_pick p = elim p [ ]

-- the only job
taken :
    {job : WalletJob} {rest jobs : List WalletJob} {d : Deployment}
    → Picks job rest jobs
    → Shows jobs d
    → (rest ≡ []) × (d ≡ busy (wallet_id job.payload) (stage job.payload) job.attempts)
taken first (single job) = (refl, refl)
taken (later p) (single job) = absurd (no_pick p)

module _ {Db Num Slice : Type 0} (orm : Orm Db) where
  run_advances :
      (e : Env Num Slice) (job : WalletJob) (w : World Db)
      → let v = (run_job orm e job (record w { wallet_jobs = [] })).1 in
        Advanced (busy (wallet_id job.payload) (stage job.payload) job.attempts) v.wallet_jobs
  run_advances e job w = elim (run_job_queues orm e job (record w { wallet_jobs = [] })) [
    | inl h ↦ rw h (_, ends, empty)
    | inr (inl h) ↦ rw h (next_advances job.payload job.attempts)
    | inr (inr h) ↦ rw h (again_advances job job.attempts)
  ]

  run_alone :
      (e : Env Num Slice) (job : WalletJob) (rest : List WalletJob) (w : World Db)
      → rest ≡ []
      → let v = (run_job orm e job (record w { wallet_jobs = rest })).1 in
        Advanced (busy (wallet_id job.payload) (stage job.payload) job.attempts) v.wallet_jobs
  run_alone e job rest w h = rw h (run_advances e job w)

  -- If the queue of wallets holds at most one job, any number of runs of queued jobs, answered
  -- in whatever way, is as many steps of an abstract deployment: a wallet goes through four
  -- stages in order, a step goes to the next stage with six attempts, takes one attempt off, or
  -- ends, and the queue that is left shows where it is.
  pub Chain_refines :
      {n : ℕ} {w v : World Db} {before : Deployment}
      → Chain Num Slice orm n w v
      → Shows w.wallet_jobs before
      → (after : Deployment) × Steps n before after × Shows v.wallet_jobs after
  Chain_refines here shown = (_, stays, shown)
  Chain_refines (run {n = n} {w = w} e job rest p c) shown =
      let (alone, now) = taken p shown in
      let (middle, step, still) = run_alone e job rest w alone in
      let (after, more, last) = Chain_refines c still in
      (after, subst (λ d. Steps (suc n) d after) (sym now) (steps step more), last)
