-- ===== src/Swaps/Stage.antt =====
-- The stage of a swap, which is what the jobs depend on: its status and its confirmations. A run
-- that throws leaves every stage alone; one that returns moves the stage of its own swap only.
pub mod Writes
pub mod Runs
pub mod Services
use mathlib.Core.Option
use eth_ton_swap.Common.{
  ℕ, Bool, true, false, Option, none, some, Result, ok, err, Action, pure, throw, gets, continue,
  lift, modify, String, ◌>>=◌, ◌>>◌, ap, sym, subst, Option-cases, inl, inr, ◌≡◌, refl, ◌∙◌, ◌==◌,
  if◌then◌else◌, arith,
}
use eth_ton_swap.Entities.{SwapStatus, Swap}
use eth_ton_swap.Database.{Orm, OrmLaws, PartialWallet, assigned}
use eth_ton_swap.World.{World}
use eth_ton_swap.Env.{Env}
use eth_ton_swap.Swaps.Repository
use eth_ton_swap.Swaps.Repository.{UpdateSwap}
use eth_ton_swap.Wallets.Repository as Wallets
use eth_ton_swap.Wallets.Repository.{UpdateWallet}

pub record Stage : Type 0 where
  pub status : SwapStatus
  pub confirmations : ℕ

abbrev pub stage_of : Swap → Stage
stage_of s = record { status = s.status; confirmations = s.confirmations }

abbrev pub with_status : SwapStatus → Stage → Stage
with_status status g = record g { status = status }

module _ {Db : Type 0} (orm : Orm Db) where
  abbrev pub stage : World Db → ℕ → Option Stage
  stage w j = Option.map stage_of (orm.find_swap w.db j)

  -- No job and no stage is touched.
  pub record Same (w w' : World Db) : Type 0 where
    pub jobs : w'.jobs ≡ w.jobs
    pub stages : (j : ℕ) → stage w' j ≡ stage w j

  -- The stage of one swap is moved by `f`.
  pub record Moved (w : World Db) (id : ℕ) (f : Stage → Stage) (w' : World Db) : Type 0 where
    pub jobs : w'.jobs ≡ w.jobs
    pub stages : (j : ℕ) → stage w' j ≡ (if j == id then Option.map f (stage w j) else stage w j)

  map_pointwise :
      (f g : Stage → Stage) (o : Option Stage)
      → ((s : Stage) → f s ≡ g s)
      → Option.map f o ≡ Option.map g o
  map_pointwise f g none h = refl
  map_pointwise f g (some s) h = ap some (h s)

  pub Moved-pointwise :
      {u v : World Db} (id : ℕ) (f g : Stage → Stage)
      → ((s : Stage) → f s ≡ g s)
      → Moved u id f v
      → Moved u id g v
  Moved-pointwise {u} id f g h m = record {
    jobs = m.jobs;
    stages = λ j. ground (arith, m.stages j, map_pointwise f g (stage u j) h);
  }

  pub Same-refl : (w : World Db) → Same w w
  Same-refl w = record { jobs = refl; stages = λ j. refl }

  pub Same-trans : {u v w : World Db} → Same u v → Same v w → Same u w
  Same-trans p q = record { jobs = q.jobs ∙ p.jobs; stages = λ j. q.stages j ∙ p.stages j }

  pub Moved-Same :
      {u v w : World Db} {id : ℕ} {f : Stage → Stage} → Moved u id f v → Same v w → Moved u id f w
  Moved-Same p q = record { jobs = q.jobs ∙ p.jobs; stages = λ j. q.stages j ∙ p.stages j }

  pub Same-Moved :
      {u v w : World Db} (id : ℕ) (f : Stage → Stage) → Same u v → Moved v id f w → Moved u id f w
  Same-Moved id f p q = record {
    jobs = q.jobs ∙ p.jobs;
    stages = λ j. ground (arith, q.stages j, p.stages j);
  }

  pub Moved-id : {u v : World Db} (id : ℕ) → Same u v → Moved u id (λ g. g) v
  Moved-id {u} {v} id p = record { jobs = p.jobs; stages = λ j. ground (arith, p.stages j) }

module _ {Db : Type 0} (orm : Orm Db) where
  -- An action that touches no job and no stage.
  pub record Quiet {A : Type 0} (m : Action (World Db) A) : Type 0 where
    pub at : (w : World Db) → Same orm w (m w).1

  pub Quiet-pure : {A : Type 0} (a : A) → Quiet (pure a)
  unfolding pure
  Quiet-pure a = record { at = Same-refl orm }

  pub Quiet-throw : {A : Type 0} (m : String) → Quiet {A = A} (throw m)
  unfolding throw
  Quiet-throw m = record { at = Same-refl orm }

  pub Quiet-lift : {A : Type 0} (r : Result A) → Quiet (lift r)
  unfolding lift
  Quiet-lift r = record { at = Same-refl orm }

  pub Quiet-gets : {A : Type 0} (f : World Db → A) → Quiet (gets f)
  unfolding gets
  Quiet-gets f = record { at = Same-refl orm }

  pub Quiet-if :
      {A : Type 0} (b : Bool) (m n : Action (World Db) A)
      → Quiet m
      → Quiet n
      → Quiet (if b then m else n)
  Quiet-if true m n qm qn = qm
  Quiet-if false m n qm qn = qn

  pub Quiet-option :
      {A B : Type 0} (o : Option B) (m : Action (World Db) A) (f : B → Action (World Db) A)
      → Quiet m
      → ((b : B) → Quiet (f b))
      → Quiet (elim o [ none ↦ m | some b ↦ f b ])
  Quiet-option none m f qm qf = qm
  Quiet-option (some b) m f qm qf = qf b

  continue-Same :
      {A B : Type 0} (f : A → Action (World Db) B) (w : World Db) (x : Result A × World Db)
      → Same orm w x.1
      → ((a : A) → Quiet (f a))
      → Same orm w (continue f x).1
  continue-Same f w (ok a, v) s q = Same-trans orm s ((q a).at v)
  continue-Same f w (err m, v) s q = s

  pub Quiet-bind :
      {A B : Type 0} (m : Action (World Db) A) (f : A → Action (World Db) B)
      → Quiet m
      → ((a : A) → Quiet (f a))
      → Quiet (m >>= f)
  unfolding ◌>>=◌
  Quiet-bind m f qm qf = record { at = λ w. continue-Same f w (m w) (qm.at w) qf }

pub ruleset quiet_rules =
    (Quiet-pure, Quiet-throw, Quiet-lift, Quiet-gets, Quiet-if, Quiet-option, Quiet-bind)
