-- ===== src/Swaps/Pipeline/Advance.antt =====
-- A step moves one swap: the others keep their stage, and at most one job is added, which is that
-- swap's and fits it. Such a step keeps a world consistent.
use eth_ton_swap.Common.{
  ℕ, Bool, true, false, List, [], ◌∷◌, All, HasDistinct, ◌≡◌, ◌≢◌, ◌⊎◌, inl, inr, refl, ap, sym,
  ◌∙◌, subst, if◌then◌else◌, arith,
}
use mathlib.Core.Option
use eth_ton_swap.Database.{Orm}
use eth_ton_swap.World.{World, Job}
use eth_ton_swap.Swaps.Stage.{Stage, stage, Same, Moved}
use eth_ton_swap.Swaps.Pipeline.Fits.{Fits, JobFits, job_swap, IsConsistent, Follows, Follows-refl}

module _ {Db : Type 0} (orm : Orm Db) where
  -- what a step does to the swap `id` and to the queues
  pub record Advances (w : World Db) (id : ℕ) (w' : World Db) : Type 0 where
    pub others : (j : ℕ) → j ≢ id → stage orm w' j ≡ stage orm w j
    pub own : Follows (stage orm w id) (stage orm w' id)
    pub queued :
        (w'.jobs ≡ w.jobs)
        ⊎ ((job : Job) × (w'.jobs ≡ job ∷ w.jobs) × (job_swap job ≡ id) × JobFits orm w' job)

  still_fits :
      (w w' : World Db) (id : ℕ)
      → ((j : ℕ) → j ≢ id → stage orm w' j ≡ stage orm w j)
      → (jobs : List Job) → All (λ job. job_swap job ≢ id) jobs
      → All (JobFits orm w) jobs
      → All (JobFits orm w') jobs
  still_fits w w' id h [] apart fits = tt
  still_fits w w' id h (job ∷ jobs) apart fits = (
    subst (λ o. Fits o job) (sym (h (job_swap job) apart.0)) fits.0,
    still_fits w w' id h jobs apart.1 fits.1,
  )

  pub Advances-IsConsistent :
      {w w' : World Db} (id : ℕ)
      → Advances w id w'
      → All (λ job. job_swap job ≢ id) w.jobs
      → IsConsistent orm w
      → IsConsistent orm w'
  Advances-IsConsistent {w} {w'} id a apart c =
      let old = still_fits w w' id a.others w.jobs apart c.fits in
      elim a.queued [
        | inl same ↦ record {
          fits = subst (All (JobFits orm w')) (sym same) old;
          distinct = subst (HasDistinct job_swap) (sym same) c.distinct;
        }
        | inr (job, more, its, fits) ↦ record {
          fits = subst (All (JobFits orm w')) (sym more) (fits, old);
          distinct =
              subst (HasDistinct job_swap) (sym more)
                (subst (λ i. All (λ y. job_swap y ≢ i) w.jobs) (sym its) apart, c.distinct);
        }
      ]

  added :
      (w v w' : World Db) (id : ℕ) (test : Bool) (job : Job)
      → v.jobs ≡ w.jobs
      → w'.jobs ≡ (if test then job ∷ v.jobs else v.jobs)
      → job_swap job ≡ id
      → (test ≡ true → JobFits orm w' job)
      → (w'.jobs ≡ w.jobs)
        ⊎ ((new : Job) × (w'.jobs ≡ new ∷ w.jobs) × (job_swap new ≡ id) × JobFits orm w' new)
  added w v w' id true job same jobs its fits =
      inr (job, jobs ∙ ap (λ js. job ∷ js) same, its, fits refl)
  added w v w' id false job same jobs its fits = inl (jobs ∙ same)

  -- A swap is moved, and a job is added if a test holds.
  pub Moved-Advances :
      (w v : World Db) (id : ℕ) (f : Stage → Stage) (test : Bool) (job : Job) (w' : World Db)
      → Moved orm w id f v
      → w'.db ≡ v.db
      → w'.jobs ≡ (if test then job ∷ v.jobs else v.jobs)
      → job_swap job ≡ id
      → Follows (stage orm w id) (Option.map f (stage orm w id))
      → (test ≡ true → Fits (Option.map f (stage orm w id)) job)
      → Advances w id w'
  Moved-Advances w v id f test job w' m same_db jobs its own fits =
      let same_stage : (j : ℕ) → stage orm w' j ≡ stage orm v j = λ j. rw same_db refl in
      let moved : stage orm w' id ≡ Option.map f (stage orm w id) =
        same_stage id ∙ ground (arith, m.stages id) in
      record {
        others = λ j h. ground (arith, m.stages j, same_stage j);
        own = rw moved own;
        queued =
            added w v w' id test job m.jobs jobs its
              (λ h. subst (λ o. Fits o job) (sym moved ∙ sym (ap (stage orm w') its)) (fits h));
      }

  pub Same-Advances : {w v : World Db} (id : ℕ) → Same orm w v → Advances w id v
  Same-Advances {w} id s = record {
    others = λ j _. s.stages j;
    own = subst (Follows (stage orm w id)) (sym (s.stages id)) (Follows-refl (stage orm w id));
    queued = inl s.jobs;
  }
