-- ===== src/Swaps/Pipeline/Fits.antt =====
-- Which jobs a swap may have in the queues, by its stage, and how a stage may move.
use eth_ton_swap.Common.{ℕ, ◌+◌, ◌≤◌, Option, none, some, All, HasDistinct, ◌≡◌, ◌⊎◌, arith}
use eth_ton_swap.Entities.{SwapStatus, eth_total_confirmations, ton_total_confirmations}
use eth_ton_swap.Database.{Orm}
use eth_ton_swap.World.{World, JobData, Job, swap_id}
use eth_ton_swap.Swaps.Stage.{Stage, stage}

-- A stage with so many confirmations counted.
abbrev IsConfirmed : Stage → ℕ → Type 0
IsConfirmed g n = (g.status ≡ SwapStatus.confirmed) × (g.confirmations ≡ n)

abbrev pub PayloadFits : Stage → JobData → Type 0
PayloadFits g (JobData.confirm_eth_transfer id block_number) =
    (g.status ≡ SwapStatus.pending) ⊎ (g.status ≡ SwapStatus.canceled)
PayloadFits g (JobData.confirm_ton_transfer id block_number) =
    (g.status ≡ SwapStatus.pending) ⊎ (g.status ≡ SwapStatus.canceled)
PayloadFits g (JobData.wait_for_eth_transfer_confirmation id transaction_id confirmations) =
    (g.status ≡ SwapStatus.confirmed)
    × (g.confirmations + 1 ≡ confirmations)
    × (confirmations ≤ eth_total_confirmations)
PayloadFits g (JobData.mint_ton_jettons id) = IsConfirmed g eth_total_confirmations
PayloadFits g (JobData.get_ton_mint_transaction id) = IsConfirmed g eth_total_confirmations
PayloadFits g (JobData.transfer_eth_tokens id) = IsConfirmed g ton_total_confirmations
PayloadFits g (JobData.transfer_eth_fee id) = g.status ≡ SwapStatus.completed
PayloadFits g (JobData.transfer_ton_fee id) = g.status ≡ SwapStatus.completed
PayloadFits g (JobData.get_ton_fee_transaction id) = g.status ≡ SwapStatus.completed
PayloadFits g (JobData.burn_ton_jettons id) = g.status ≡ SwapStatus.completed
PayloadFits g (JobData.get_ton_burn_transaction id) = g.status ≡ SwapStatus.completed

-- A job that its listener adds again is tried once.
abbrev OptionsFit : JobData → Option ℕ → Type 0
OptionsFit (JobData.confirm_eth_transfer id block_number) attempts = attempts ≡ none
OptionsFit (JobData.confirm_ton_transfer id block_number) attempts = attempts ≡ none
OptionsFit payload attempts = Unit {0}

abbrev pub FitsAt : Option Stage → JobData → Option ℕ → Type 0
FitsAt none payload attempts = ⊥
FitsAt (some g) payload attempts = PayloadFits g payload × OptionsFit payload attempts

abbrev pub Fits : Option Stage → Job → Type 0
Fits o job = FitsAt o job.payload job.options.attempts

abbrev pub job_swap : Job → ℕ
job_swap job = swap_id job.payload

module _ {Db : Type 0} (orm : Orm Db) where
  abbrev pub JobFits : World Db → Job → Type 0
  JobFits w job = Fits (stage orm w (job_swap job)) job

  -- Every job fits its swap, and no swap has two jobs.
  pub record IsConsistent (w : World Db) : Type 0 where
    pub fits : All (JobFits w) w.jobs
    pub distinct : HasDistinct job_swap w.jobs

-- Where a swap may go in one step.
abbrev pub StageFollows : Stage → Stage → Type 0
StageFollows g h =
    (h ≡ g)
    ⊎ ((g.status ≡ SwapStatus.pending) × (h.status ≡ SwapStatus.confirmed) × (h.confirmations ≡ 1))
    ⊎ ((g.status ≡ SwapStatus.pending)
        × ((h.status ≡ SwapStatus.canceled)
            ⊎ (h.status ≡ SwapStatus.expired)
            ⊎ (h.status ≡ SwapStatus.failed)))
    ⊎ ((g.status ≡ SwapStatus.confirmed)
        × (h.status ≡ SwapStatus.confirmed)
        × (h.confirmations ≡ g.confirmations + 1)
        × (h.confirmations ≤ eth_total_confirmations))
    ⊎ ((g.status ≡ SwapStatus.confirmed)
        × ((h.status ≡ SwapStatus.completed)
            ⊎ (h.status ≡ SwapStatus.expired)
            ⊎ (h.status ≡ SwapStatus.failed)))

abbrev pub Follows : Option Stage → Option Stage → Type 0
Follows none none = Unit {0}
Follows none (some h) =
    ((h.status ≡ SwapStatus.pending) ⊎ (h.status ≡ SwapStatus.failed)) × (h.confirmations ≡ 0)
Follows (some g) none = ⊥
Follows (some g) (some h) = StageFollows g h

pub Follows-refl : (o : Option Stage) → Follows o o
Follows-refl none = tt
Follows-refl (some g) = ground arith
