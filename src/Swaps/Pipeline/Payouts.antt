-- ===== src/Swaps/Pipeline/Payouts.antt =====
-- When tokens are paid out: the jobs that mint jettons and that transfer tokens.
use eth_ton_swap.Common.{
  ℕ, List, Option, none, some, All-Picks, Picks, ◌≡◌, refl, ap, sym, ◌∙◌, arith,
}
use eth_ton_swap.Entities.{SwapStatus, eth_total_confirmations, ton_total_confirmations}
use eth_ton_swap.Database.{Orm, OrmLaws}
use eth_ton_swap.World.{World, Job, JobData, swap_id}
use eth_ton_swap.Swaps.Stage.{Stage, stage}
use eth_ton_swap.Swaps.Pipeline.{Reach}
use eth_ton_swap.Swaps.Pipeline.Fits.{FitsAt, JobFits, IsConsistent}
use eth_ton_swap.Swaps.Pipeline.Consistency.{Reach-IsConsistent}

-- The jobs that pay a swap out, with the confirmations that the other blockchain must have given.
pub data PaysOut (id : ℕ) : ℕ → JobData → Type 0 where
  in_ton : PaysOut id eth_total_confirmations (JobData.mint_ton_jettons id)
  in_eth : PaysOut id ton_total_confirmations (JobData.transfer_eth_tokens id)

pays_confirmed :
    (o : Option Stage) (id n : ℕ) (payload : JobData) (attempts : Option ℕ)
    → PaysOut id n payload
    → FitsAt o payload attempts
    → o ≡ some (record { status = SwapStatus.confirmed; confirmations = n })
pays_confirmed (some g) id _ _ attempts in_ton fits = ground arith
pays_confirmed (some g) id _ _ attempts in_eth fits = ground arith
pays_confirmed none id _ _ attempts in_ton fits = absurd fits
pays_confirmed none id _ _ attempts in_eth fits = absurd fits

pays_own : (id n : ℕ) (payload : JobData) → PaysOut id n payload → swap_id payload ≡ id
pays_own id _ _ in_ton = refl
pays_own id _ _ in_eth = refl

module _ {Db Num Slice : Type 0} {orm : Orm Db} (laws : OrmLaws orm) where
  -- In every world that can be reached from a consistent one, over a database that obeys the
  -- laws, a queued job that pays a swap out finds the swap confirmed: five times for jettons in
  -- TON, once for tokens in Ethereum.
  pub Reach-PaysOut :
      {w w' : World Db} (job : Job) (rest : List Job) (id n : ℕ)
      → Reach Num Slice orm w w'
      → IsConsistent orm w
      → Picks job rest w'.jobs
      → PaysOut id n job.payload
      → stage orm w' id ≡ some (record { status = SwapStatus.confirmed; confirmations = n })
  Reach-PaysOut {w' = w'} job rest id n reached c picked pays =
      let fits = (All-Picks (JobFits orm w') picked (Reach-IsConsistent laws reached c).fits).0 in
      ap (stage orm w') (sym (pays_own id n job.payload pays))
      ∙ pays_confirmed (stage orm w' (swap_id job.payload)) id n job.payload job.options.attempts
          pays fits
