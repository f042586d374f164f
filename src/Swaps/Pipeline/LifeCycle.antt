-- ===== src/Swaps/Pipeline/LifeCycle.antt =====
-- A step moves each swap along its life cycle, at whose ends it stays.
use eth_ton_swap.Common.{
  ℕ, Option, none, some, Result, ok, err, ◌≡◌, ◌≢◌, inl, inr, sym, subst, Bool-cases, arith, ◌==◌,
  ==_iff, All-Picks,
}
use mathlib.Core.Option
use eth_ton_swap.Entities.{SwapStatus}
use eth_ton_swap.Database.{Orm, OrmLaws}
use eth_ton_swap.World.{World}
use eth_ton_swap.Swaps.Stage.{Stage, stage, Same, Same-refl}
use eth_ton_swap.Swaps.Stage.Runs.{Outcome}
use eth_ton_swap.Swaps.Pipeline.{Step, order, cancel, run, Reach, here, step}
use eth_ton_swap.Swaps.Pipeline.Fits.{JobFits, job_swap, IsConsistent, Follows, Follows-refl}
use eth_ton_swap.Swaps.Pipeline.Advance.{Advances}
use eth_ton_swap.Swaps.Pipeline.Workers.{run_job-Advances}
use eth_ton_swap.Swaps.Pipeline.Orders.{cancelled, CancelAllowed, cancel_swap-Runs}
use eth_ton_swap.Swaps.Pipeline.Placing.{Placed, create_swap-Places}
use eth_ton_swap.Swaps.Pipeline.Consistency.{Reach-IsConsistent}

abbrev pub IsFinal : SwapStatus → Type 0
IsFinal status = (status ≢ SwapStatus.pending) × (status ≢ SwapStatus.confirmed)

final_stays : (g : Stage) (o : Option Stage) → IsFinal g.status → Follows (some g) o → o ≡ some g
final_stays g none final f = absurd f
final_stays g (some h) final f = ground arith

module _ {Db : Type 0} (orm : Orm Db) where
  Same-Follows :
      (w w' : World Db) → Same orm w w' → (j : ℕ) → Follows (stage orm w j) (stage orm w' j)
  Same-Follows w w' s j =
      subst (Follows (stage orm w j)) (sym (s.stages j)) (Follows-refl (stage orm w j))

  Advances-Follows :
      (w w' : World Db) (id : ℕ)
      → Advances orm w id w'
      → (j : ℕ) → Follows (stage orm w j) (stage orm w' j)
  Advances-Follows w w' id a j = elim (Bool-cases (j == id)) [
    | inl same ↦
        subst (λ i. Follows (stage orm w i) (stage orm w' i)) (sym ((==_iff j id).0 same)) a.own
    | inr other ↦
        subst (Follows (stage orm w j)) (sym (a.others j (ground (arith, other))))
          (Follows-refl (stage orm w j))
  ]

  canceled_Follows :
      (o : Option Stage) → CancelAllowed o tt → Follows o (Option.map (cancelled tt) o)
  canceled_Follows none allowed = absurd allowed
  canceled_Follows (some g) allowed = ground arith

  Outcome-Follows :
      (w : World Db) (id : ℕ) (x : Result (Unit {0}) × World Db)
      → Outcome orm id cancelled CancelAllowed w x
      → (j : ℕ) → Follows (stage orm w j) (stage orm x.1 j)
  Outcome-Follows w id (ok r, v) h j =
      subst (Follows (stage orm w j)) (sym (h.0.stages j)) (elim (Bool-cases (j == id)) [
        | inl same ↦ rw same (
            canceled_Follows (stage orm w j)
              (subst (λ i. CancelAllowed (stage orm w i) tt) (sym ((==_iff j id).0 same)) h.1))
        | inr other ↦ rw other (Follows-refl (stage orm w j))
      ])
  Outcome-Follows w id (err m, v) h j = Same-Follows w v h j

  Placed-Follows :
      (w w' : World Db) → Placed orm w w' → (j : ℕ) → Follows (stage orm w j) (stage orm w' j)
  Placed-Follows w w' (inl same) j = Same-Follows w w' same j
  Placed-Follows w w' (inr (id, absent, a)) j = Advances-Follows w w' id a j

module _ {Db Num Slice : Type 0} {orm : Orm Db} (laws : OrmLaws orm) where
  -- In one step from a consistent world, over a database that obeys the laws, a swap keeps its
  -- stage or moves along the life cycle: it is ordered as pending, or as failed, with no
  -- confirmation; a pending one is confirmed once, cancelled, expired or failed; a confirmed
  -- one counts one confirmation more, up to five, or is completed, expired or failed.
  pub Step-Follows :
      {w w' : World Db}
      → Step Num Slice orm w w'
      → IsConsistent orm w
      → (j : ℕ) → Follows (stage orm w j) (stage orm w' j)
  Step-Follows {w} (order e r ip_address) c j =
      Placed-Follows orm w _ ((create_swap-Places laws e r ip_address w).at w (Same-refl orm w)) j
  Step-Follows {w} (cancel e id) c j =
      Outcome-Follows orm w id _ ((cancel_swap-Runs laws e id w).at w (Same-refl orm w)) j
  Step-Follows {w} (run e job rest kept picked k) c j =
      Advances-Follows orm (record w { jobs = rest }) _ (job_swap job)
        (run_job-Advances laws e job kept (record w { jobs = rest }) k
          (All-Picks (JobFits orm w) picked c.fits).0)
        j

  -- A swap that is completed, expired, failed or cancelled keeps its status and its
  -- confirmations in every world that can be reached from a consistent one, over a database
  -- that obeys the laws.
  pub Reach-IsFinal :
      {w w' : World Db} (j : ℕ) (g : Stage)
      → Reach Num Slice orm w w'
      → IsConsistent orm w
      → stage orm w j ≡ some g
      → IsFinal g.status
      → stage orm w' j ≡ some g
  Reach-IsFinal j g here c found final = found
  Reach-IsFinal {w} {w'} j g (step reached s) c found final =
      let found' = Reach-IsFinal j g reached c found final in
      final_stays g (stage orm w' j) final (
        subst (λ o. Follows o (stage orm w' j)) found'
          (Step-Follows s (Reach-IsConsistent laws reached c) j))
