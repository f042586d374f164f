-- ===== src/Wallets/Queue.antt =====
-- The queue of the wallets: a run of one of its jobs (src/wallets/processors/wallets.processor.ts)
-- with the listener that follows, and Bull's attempts.
pub mod Progress
pub mod Termination
pub mod Deployment
pub mod Refinement
use eth_ton_swap.Common.{
  ℕ, zero, suc, Bool, Option, none, some, List, [], ◌∷◌, Result, ok, err, Action, modify, pure,
  catching, ◌>>=◌, ◌>>◌,
}
use eth_ton_swap.Database.{Orm}
use eth_ton_swap.World.{World, WalletJob, WalletJobData, add_wallet_job}
use eth_ton_swap.Env.{Env}
use eth_ton_swap.Wallets.Processor.{
  transfer_toncoins, confirm_toncoins_transfer, deploy_wallet, confirm_wallet_deploy,
  on_transfer_toncoins_completed, on_confirm_toncoins_transfer_completed,
  on_deploy_wallet_completed, on_confirm_wallet_deploy_completed,
}

module _ {Db Num Slice : Type 0} (orm : Orm Db) (e : Env Num Slice) where
  -- the processor of a job's name, then its listener `completed`
  unfoldable pub run_payload : WalletJobData → Action (World Db) (Unit {0})
  run_payload (WalletJobData.transfer_toncoins wallet_id giver_wallet_id) =
      transfer_toncoins orm e wallet_id giver_wallet_id
      >>= on_transfer_toncoins_completed wallet_id giver_wallet_id
  run_payload (WalletJobData.confirm_toncoins_transfer wallet_id giver_wallet_id) =
      confirm_toncoins_transfer orm e wallet_id >>= on_confirm_toncoins_transfer_completed wallet_id
  run_payload (WalletJobData.deploy_wallet wallet_id) =
      deploy_wallet orm e wallet_id >>= on_deploy_wallet_completed wallet_id
  run_payload (WalletJobData.confirm_wallet_deploy wallet_id) =
      confirm_wallet_deploy orm e wallet_id >>= on_confirm_wallet_deploy_completed wallet_id

  -- a job that threw is put back if it has attempts left
  abbrev put_back : WalletJob → ℕ → Action (World Db) (Unit {0})
  put_back job zero = pure tt
  put_back job (suc left) = add_wallet_job (record job { attempts = suc left })

  abbrev retry : WalletJob → ℕ → Action (World Db) (Unit {0})
  retry job zero = pure tt
  retry job (suc left) = put_back job left

  unfoldable pub run_job : WalletJob → Action (World Db) (Unit {0})
  unfolding run_payload
  run_job job = catching (run_payload job.payload) (λ message. retry job job.attempts)

  -- the newest job is taken from the queue and run
  abbrev run_first : List WalletJob → World Db → World Db
  run_first [] w = w
  run_first (job ∷ jobs) w = (run_job job (record w { wallet_jobs = jobs })).1

  unfoldable pub run_next : World Db → World Db
  run_next w = run_first w.wallet_jobs w
