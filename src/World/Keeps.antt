-- ===== src/World/Keeps.antt =====
-- Actions that leave a part of the world alone: the database, the queue of the wallets, and so on.
use eth_ton_swap.Common.{
  String, Bool, true, false, Option, none, some, Result, ok, err, Action, pure, throw, lift, gets,
  modify, continue, ◌>>=◌, ◌≡◌, refl, ◌∙◌, if◌then◌else◌,
}
use eth_ton_swap.World.{World, WalletJob, Request, send, add_wallet_job}
use eth_ton_swap.Common.{List}

module _ {Db X : Type 0} (view : World Db → X) where
  pub record Keeps {A : Type 0} (m : Action (World Db) A) : Type 0 where
    pub at : (w : World Db) → view (m w).1 ≡ view w

  pub Keeps-pure : {A : Type 0} (a : A) → Keeps (pure a)
  unfolding pure
  Keeps-pure a = record { at = λ w. refl }

  pub Keeps-throw : {A : Type 0} (m : String) → Keeps {A = A} (throw m)
  unfolding throw
  Keeps-throw m = record { at = λ w. refl }

  pub Keeps-lift : {A : Type 0} (r : Result A) → Keeps (lift r)
  unfolding lift
  Keeps-lift r = record { at = λ w. refl }

  pub Keeps-gets : {A : Type 0} (f : World Db → A) → Keeps (gets f)
  unfolding gets
  Keeps-gets f = record { at = λ w. refl }

  pub Keeps-if :
      {A : Type 0} (b : Bool) (m n : Action (World Db) A)
      → Keeps m
      → Keeps n
      → Keeps (if b then m else n)
  Keeps-if true m n h k = h
  Keeps-if false m n h k = k

  continue-Keeps :
      {A B : Type 0} (f : A → Action (World Db) B) (w : World Db) (x : Result A × World Db)
      → view x.1 ≡ view w
      → ((a : A) → Keeps (f a))
      → view (continue f x).1 ≡ view w
  continue-Keeps f w (ok a, v) h k = (k a).at v ∙ h
  continue-Keeps f w (err m, v) h k = h

  pub Keeps-bind :
      {A B : Type 0} (m : Action (World Db) A) (f : A → Action (World Db) B)
      → Keeps m
      → ((a : A) → Keeps (f a))
      → Keeps (m >>= f)
  unfolding ◌>>=◌
  Keeps-bind m f h k = record { at = λ w. continue-Keeps f w (m w) (h.at w) k }

  pub Keeps-option :
      {A B : Type 0} (f : Option A → Action (World Db) B)
      → Keeps (f none)
      → ((a : A) → Keeps (f (some a)))
      → (o : Option A) → Keeps (f o)
  Keeps-option f h k none = h
  Keeps-option f h k (some a) = k a

module _ {Db : Type 0} where
  abbrev pub wallet_jobs : World Db → List WalletJob
  wallet_jobs w = w.wallet_jobs

  abbrev pub db : World Db → Db
  db w = w.db

  abbrev pub requests : World Db → List Request
  requests w = w.requests

  pub wallet_jobs_of_send : (r : Request) → Keeps wallet_jobs (send r)
  unfolding modify
  wallet_jobs_of_send r = record { at = λ w. refl }

  pub wallet_jobs_of_write :
      (f : World Db → Db) → Keeps wallet_jobs (modify (λ w. record w { db = f w }))
  unfolding modify
  wallet_jobs_of_write f = record { at = λ w. refl }

  pub requests_of_write : (f : World Db → Db) → Keeps requests (modify (λ w. record w { db = f w }))
  unfolding modify
  requests_of_write f = record { at = λ w. refl }

  pub db_of_wallet_job : (job : WalletJob) → Keeps db (add_wallet_job job)
  unfolding modify
  db_of_wallet_job job = record { at = λ w. refl }

  pub db_of_send : (r : Request) → Keeps db (send r)
  unfolding modify
  db_of_send r = record { at = λ w. refl }

pub ruleset keep_rules = (
  Keeps-pure, Keeps-throw, Keeps-lift, Keeps-gets, Keeps-if, Keeps-bind, wallet_jobs_of_send,
  wallet_jobs_of_write, requests_of_write, db_of_wallet_job, db_of_send,
)
