-- ===== src/Swaps/Pipeline/Consistency.antt =====
-- Every step keeps the queues consistent with the database.
use eth_ton_swap.Common.{
  ℕ, ◌∷◌, List, [], Option, none, some, Result, ok, err, All, All-map, All-Picks, HasDistinct,
  HasDistinct-Picks, ◌≡◌, ◌≢◌, inl, inr, ap, sym, ◌∙◌, subst, Bool-cases, arith, ◌==◌, ==_iff,
}
use mathlib.Core.Option
use eth_ton_swap.Entities.{SwapStatus}
use eth_ton_swap.Database.{Orm, OrmLaws}
use eth_ton_swap.World.{World, Job, JobData}
use eth_ton_swap.Swaps.Stage.{Stage, stage, Same, Same-refl, Moved}
use eth_ton_swap.Swaps.Stage.Runs.{Outcome}
use eth_ton_swap.Swaps.Pipeline.{Step, order, cancel, run, Reach, here, step}
use eth_ton_swap.Swaps.Pipeline.Fits.{PayloadFits, Fits, JobFits, job_swap, IsConsistent}
use eth_ton_swap.Swaps.Pipeline.Advance.{Advances-IsConsistent}
use eth_ton_swap.Swaps.Pipeline.Workers.{run_job-Advances}
use eth_ton_swap.Swaps.Pipeline.Orders.{cancelled, CancelAllowed, cancel_swap-Runs}
use eth_ton_swap.Swaps.Pipeline.Placing.{Placed, create_swap-Places}

module _ {Db : Type 0} (orm : Orm Db) where
  same_fits :
      (w w' : World Db)
      → ((j : ℕ) → stage orm w' j ≡ stage orm w j)
      → (jobs : List Job) → All (JobFits orm w) jobs
      → All (JobFits orm w') jobs
  same_fits w w' h [] fits = tt
  same_fits w w' h (job ∷ jobs) fits =
      (subst (λ o. Fits o job) (sym (h (job_swap job))) fits.0, same_fits w w' h jobs fits.1)

  Same-IsConsistent : (w w' : World Db) → Same orm w w' → IsConsistent orm w → IsConsistent orm w'
  Same-IsConsistent w w' s c = record {
    fits = subst (All (JobFits orm w')) (sym s.jobs) (same_fits w w' s.stages w.jobs c.fits);
    distinct = subst (HasDistinct job_swap) (sym s.jobs) c.distinct;
  }

  payload_canceled :
      (g : Stage) (payload : JobData)
      → g.status ≡ SwapStatus.pending
      → PayloadFits g payload
      → PayloadFits (cancelled tt g) payload
  payload_canceled g payload waiting fits = ground arith

  -- A job of a pending swap looks for its transfer, and will find the swap cancelled.
  Fits-canceled :
      (o : Option Stage) (job : Job)
      → CancelAllowed o tt
      → Fits o job
      → Fits (Option.map (cancelled tt) o) job
  Fits-canceled none job allowed fits = absurd allowed
  Fits-canceled (some g) job allowed fits = (payload_canceled g job.payload allowed fits.0, fits.1)

  canceled_fits :
      (w w' : World Db) (id : ℕ)
      → Moved orm w id (cancelled tt) w'
      → CancelAllowed (stage orm w id) tt
      → (jobs : List Job) → All (JobFits orm w) jobs
      → All (JobFits orm w') jobs
  canceled_fits w w' id m allowed [] fits = tt
  canceled_fits w w' id m allowed (job ∷ jobs) fits = (
    subst (λ o. Fits o job) (sym (m.stages (job_swap job)))
        (elim (Bool-cases (job_swap job == id)) [
          | inl same ↦ rw same (
              Fits-canceled (stage orm w (job_swap job)) job
                (subst (λ j. CancelAllowed (stage orm w j) tt)
                  (sym ((==_iff (job_swap job) id).0 same)) allowed)
                fits.0)
          | inr other ↦ rw other fits.0
        ]),
    canceled_fits w w' id m allowed jobs fits.1,
  )

  -- A job of a swap that is not stored does not fit it.
  absent_apart :
      (w : World Db) (id : ℕ)
      → stage orm w id ≡ none
      → (jobs : List Job) → All (JobFits orm w) jobs
      → All (λ job. job_swap job ≢ id) jobs
  absent_apart w id absent jobs fits =
      All-map (JobFits orm w) (λ job. job_swap job ≢ id) jobs
        (λ job f same. subst (λ o. Fits o job) (ap (stage orm w) same ∙ absent) f) fits

  Outcome-IsConsistent :
      (w : World Db) (id : ℕ) (x : Result (Unit {0}) × World Db)
      → Outcome orm id cancelled CancelAllowed w x
      → IsConsistent orm w
      → IsConsistent orm x.1
  Outcome-IsConsistent w id (ok r, v) h c = record {
    fits = subst (All (JobFits orm v)) (sym h.0.jobs) (canceled_fits w v id h.0 h.1 w.jobs c.fits);
    distinct = subst (HasDistinct job_swap) (sym h.0.jobs) c.distinct;
  }
  Outcome-IsConsistent w id (err m, v) h c = Same-IsConsistent w v h c

  Placed-IsConsistent :
      (w w' : World Db) → Placed orm w w' → IsConsistent orm w → IsConsistent orm w'
  Placed-IsConsistent w w' (inl same) c = Same-IsConsistent w w' same c
  Placed-IsConsistent w w' (inr (id, absent, a)) c =
      Advances-IsConsistent orm id a (absent_apart w id absent w.jobs c.fits) c

module _ {Db Num Slice : Type 0} {orm : Orm Db} (laws : OrmLaws orm) where
  pub Step-IsConsistent :
      {w w' : World Db} → Step Num Slice orm w w' → IsConsistent orm w → IsConsistent orm w'
  Step-IsConsistent {w} (order e r ip_address) c =
      Placed-IsConsistent orm w _
        ((create_swap-Places laws e r ip_address w).at w (Same-refl orm w)) c
  Step-IsConsistent {w} (cancel e id) c =
      Outcome-IsConsistent orm w id _ ((cancel_swap-Runs laws e id w).at w (Same-refl orm w)) c
  Step-IsConsistent {w} (run e job rest kept picked k) c =
      let fits = All-Picks (JobFits orm w) picked c.fits in
      let distinct = HasDistinct-Picks job_swap picked c.distinct in
      Advances-IsConsistent orm (job_swap job)
        (run_job-Advances laws e job kept (record w { jobs = rest }) k fits.0) distinct.0
        (record { fits = fits.1; distinct = distinct.1 })

  -- In every world that orders, cancellations and runs of jobs reach from a consistent one,
  -- each queued job fits the stored status and confirmations of its swap, and no swap has two
  -- jobs, if the database obeys the laws.
  pub Reach-IsConsistent :
      {w w' : World Db} → Reach Num Slice orm w w' → IsConsistent orm w → IsConsistent orm w'
  Reach-IsConsistent here c = c
  Reach-IsConsistent (step reached s) c = Step-IsConsistent s (Reach-IsConsistent reached c)
