-- ===== src/Swaps/Stage/Runs.antt =====
-- The outcome of a run of a processor, with a rule for each way in which the processors are built.
use mathlib.Core.Option
use eth_ton_swap.Common.{
  arith, ℕ, Bool, true, false, Option, none, some, Result, ok, err, Action, throw, continue, String,
  ◌>>=◌, ◌>>◌, ap, sym, subst, Option-cases, inl, inr, ◌≡◌, refl, ◌∙◌, if◌then◌else◌,
}
use eth_ton_swap.Entities.{Swap}
use eth_ton_swap.Database.{Orm, OrmLaws}
use eth_ton_swap.World.{World}
use eth_ton_swap.Env.{Env}
use eth_ton_swap.Swaps.Repository
use eth_ton_swap.Swaps.Repository.{UpdateSwap}
use eth_ton_swap.Swaps.Stage.{
  Stage, stage_of, stage, Same, Moved, Moved-pointwise, Same-trans, Moved-Same, Same-Moved,
  Moved-id, Quiet,
}
use eth_ton_swap.Swaps.Stage.Writes.{updated, update-Moved, Settles}

module _ {Db : Type 0} (orm : Orm Db) {A : Type 0} where
  -- What a run of a processor has done: it threw, or it returned and moved the stage of its swap as
  -- the result says, where the result was allowed at the stage before.
  abbrev pub Outcome :
      ℕ
      → (A → Stage → Stage)
      → (Option Stage → A → Type 0)
      → World Db
      → Result A × World Db
      → Type 0
  Outcome id after Allowed w (ok r, w') = Moved orm w id (after r) w' × Allowed (stage orm w id) r
  Outcome id after Allowed w (err m, w') = Same orm w w'

  -- The action has such an outcome in a run that began at `w` and touched no stage so far.
  pub record Runs (id : ℕ) (after : A → Stage → Stage) (Allowed : Option Stage → A → Type 0)
      (w : World Db) (m : Action (World Db) A) : Type 0 where
    pub at : (v : World Db) → Same orm w v → Outcome id after Allowed w (m v)

module _ {Db : Type 0} {orm : Orm Db} {A : Type 0} {id : ℕ} {after : A → Stage → Stage}
    {Allowed : Option Stage → A → Type 0} {w : World Db} where
  pub Runs-throw : (m : String) → Runs orm id after Allowed w (throw m)
  unfolding throw
  Runs-throw m = record { at = λ v s. s }

  pub Runs-if :
      (b : Bool) (m n : Action (World Db) A)
      → (b ≡ true → Runs orm id after Allowed w m)
      → (b ≡ false → Runs orm id after Allowed w n)
      → Runs orm id after Allowed w (if b then m else n)
  Runs-if true m n km kn = km refl
  Runs-if false m n km kn = kn refl

  continue-Outcome :
      {B : Type 0} (f : B → Action (World Db) A) (x : Result B × World Db)
      → Same orm w x.1
      → ((b : B) → Runs orm id after Allowed w (f b))
      → Outcome orm id after Allowed w (continue f x)
  continue-Outcome f (ok b, v) s k = (k b).at v s
  continue-Outcome f (err m, v) s k = s

  -- A run that begins with a quiet action.
  pub Runs-bind :
      {B : Type 0} (m : Action (World Db) B) (f : B → Action (World Db) A)
      → Quiet orm m
      → ((b : B) → Runs orm id after Allowed w (f b))
      → Runs orm id after Allowed w (m >>= f)
  unfolding ◌>>=◌
  Runs-bind m f q k = record { at = λ v s. continue-Outcome f (m v) (Same-trans orm s (q.at v)) k }

pub ruleset run_rules = (Runs-throw, Runs-if, Runs-bind)

returned-Outcome :
    {Db A : Type 0} (orm : Orm Db) (id : ℕ) (after : A → Stage → Stage)
    (Allowed : Option Stage → A → Type 0) (w : World Db) (r : A) (x : Result A × World Db)
    → x.0 ≡ ok r
    → Moved orm w id (after r) x.1
    → Allowed (stage orm w id) r
    → Outcome orm id after Allowed w x
returned-Outcome orm id after Allowed w r (y, v) p moved allowed = rw p (moved, allowed)

module _ {Db Num Slice : Type 0} {orm : Orm Db} (laws : OrmLaws orm) (e : Env Num Slice)
    {A : Type 0} {id : ℕ} {after : A → Stage → Stage} {Allowed : Option Stage → A → Type 0}
    {w : World Db} where
  -- A run that ends with the update of its swap.
  pub Runs-update :
      (i : ℕ) (u : UpdateSwap Num) (r : A) (rest : Action (World Db) A)
      → i ≡ id
      → ((g : Stage) → updated u g ≡ after r g)
      → Allowed (stage orm w id) r
      → Settles orm r rest
      → Runs orm id after Allowed w (Repository.update orm e i u >> rest)
  unfolding ◌>>=◌ Repository.update
  Runs-update i u r rest p same allowed s = record {
    at = λ v s₀.
        let v' = (Repository.update orm e i u v).1 in
        let written : Moved orm v id (updated u) v' =
          subst (λ k. Moved orm v k (updated u) v') p (update-Moved laws e i u v) in
        returned-Outcome orm id after Allowed w r (rest v') (s.returns v')
          (Moved-Same orm
            (Moved-pointwise orm id (updated u) (after r) same
              (Same-Moved orm id (updated u) s₀ written))
            (s.quiet.at v'))
          allowed;
  }

  -- A run that ends with no update.
  pub Runs-return :
      (r : A) (rest : Action (World Db) A)
      → ((g : Stage) → g ≡ after r g)
      → Allowed (stage orm w id) r
      → Settles orm r rest
      → Runs orm id after Allowed w rest
  Runs-return r rest same allowed s = record {
    at = λ v s₀.
        returned-Outcome orm id after Allowed w r (rest v) (s.returns v)
          (Moved-pointwise orm id (λ g. g) (after r) same
            (Moved-id orm id (Same-trans orm s₀ (s.quiet.at v))))
          allowed;
  }

  -- A run that begins with the lookup of its swap.
  pub Runs-find :
      (f : Option Swap → Action (World Db) A)
      → (stage orm w id ≡ none → Runs orm id after Allowed w (f none))
      → ((s : Swap)
          → s.id ≡ id
          → stage orm w id ≡ some (stage_of s)
          → Runs orm id after Allowed w (f (some s)))
      → Runs orm id after Allowed w (Repository.find_by_id orm id >>= f)
  unfolding ◌>>=◌ Repository.find_by_id
  Runs-find f missing found = record {
    at = λ v s. elim (Option-cases (orm.find_swap v.db id)) [
      | inl e₀ ↦ rw e₀ ((missing (sym (s.stages id) ∙ ap (Option.map stage_of) e₀)).at v s)
      | inr (swap, e₀) ↦ rw e₀ (
          (found swap (laws.find_swap_id v.db id swap e₀)
              (sym (s.stages id) ∙ ap (Option.map stage_of) e₀)).at
            v s)
    ];
  }

  -- A run whose swap is not stored.
  pub Runs-missing :
      (r : A) (rest : Action (World Db) A)
      → stage orm w id ≡ none
      → Allowed none r
      → Settles orm r rest
      → Runs orm id after Allowed w rest
  Runs-missing r rest missing allowed s = record {
    at = λ v s₀.
        let same = Same-trans orm s₀ (s.quiet.at v) in
        returned-Outcome orm id after Allowed w r (rest v) (s.returns v)
          (record {
            jobs = same.jobs;
            stages = λ j. ground (arith, same.stages j, same.stages id, missing);
          })
          (rw missing allowed);
  }
