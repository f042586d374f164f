-- ===== src/Swaps/Pipeline/Reading.antt =====
-- Actions that only read, and what holds of a run that returns.
use eth_ton_swap.Common.{
  ap, or_throw, String, Bool, true, false, Option, none, some, Result, ok, err, Action, pure, throw,
  lift, gets, catching, handled, continue, ◌>>=◌, ◌≡◌, refl, sym, ◌∙◌, subst, ok_inj, if◌then◌else◌,
  arith,
}

-- An action that only reads.
pub record Reads {W A : Type 0} (m : Action W A) : Type 0 where
  pub at : (w : W) → (m w).1 ≡ w

module _ {W A : Type 0} where
  pub Reads-pure : (a : A) → Reads {W = W} (pure a)
  unfolding pure
  Reads-pure a = record { at = λ w. refl }

  pub Reads-throw : (m : String) → Reads {W = W} {A = A} (throw m)
  unfolding throw
  Reads-throw m = record { at = λ w. refl }

  pub Reads-lift : (r : Result A) → Reads {W = W} (lift r)
  unfolding lift
  Reads-lift r = record { at = λ w. refl }

  pub Reads-gets : (f : W → A) → Reads (gets f)
  unfolding gets
  Reads-gets f = record { at = λ w. refl }

  pub Reads-if : (b : Bool) (m n : Action W A) → Reads m → Reads n → Reads (if b then m else n)
  Reads-if true m n h k = h
  Reads-if false m n h k = k

  pub Reads-or_throw : (o : Option A) (message : String) → Reads {W = W} (or_throw o message)
  Reads-or_throw none message = Reads-throw message
  Reads-or_throw (some a) message = Reads-pure a

  handled-Reads :
      (handle : String → Action W A) (w : W) (x : Result A × W)
      → x.1 ≡ w
      → ((m : String) → Reads (handle m))
      → (handled handle x).1 ≡ w
  handled-Reads handle w (ok a, v) h k = h
  handled-Reads handle w (err m, v) h k = (k m).at v ∙ h

  pub Reads-catching :
      (m : Action W A) (handle : String → Action W A)
      → Reads m
      → ((message : String) → Reads (handle message))
      → Reads (catching m handle)
  unfolding catching
  Reads-catching m handle h k = record { at = λ w. handled-Reads handle w (m w) (h.at w) k }

module _ {W A B : Type 0} where
  continue-Reads :
      (f : A → Action W B) (w : W) (x : Result A × W)
      → x.1 ≡ w
      → ((a : A) → Reads (f a))
      → (continue f x).1 ≡ w
  continue-Reads f w (ok a, v) h k = (k a).at v ∙ h
  continue-Reads f w (err m, v) h k = h

  pub Reads-bind :
      (m : Action W A) (f : A → Action W B) → Reads m → ((a : A) → Reads (f a)) → Reads (m >>= f)
  unfolding ◌>>=◌
  Reads-bind m f h k = record { at = λ w. continue-Reads f w (m w) (h.at w) k }

pub ruleset read_rules = (
  Reads-pure, Reads-throw, Reads-lift, Reads-gets, Reads-if, Reads-or_throw, Reads-catching,
  Reads-bind,
)

module _ {W A : Type 0} where
  -- what holds of a run that returns
  abbrev pub Given : (A → W → Type 0) → Result A × W → Type 0
  Given Q (ok a, w) = Q a w
  Given Q (err m, w) = Unit {0}

  pub Given-ok : (Q : A → W → Type 0) (x : Result A × W) (a : A) → Given Q x → x.0 ≡ ok a → Q a x.1
  Given-ok Q (ok b, w) a g p = subst (λ c. Q c w) (ok_inj p) g
  Given-ok Q (err m, w) a g p = ground arith

  pub Given-lift :
      (Q : A → W → Type 0) (r : Result A) (w : W)
      → ((a : A) → r ≡ ok a → Q a w)
      → Given Q (lift r w)
  unfolding lift
  Given-lift Q (ok a) w k = k a refl
  Given-lift Q (err m) w k = tt

  pub got_or_thrown :
      (o : Option A) (message : String) (w : W) (a : A)
      → (or_throw o message w).0 ≡ ok a
      → o ≡ some a
  unfolding pure throw
  got_or_thrown none message w a h = ground (arith, h)
  got_or_thrown (some b) message w a h = ap some (ok_inj h)

  pub Given-pair :
      (Q : A → W → Type 0) (x : Result A × W) (a : A) (w : W) → Given Q x → x ≡ (ok a, w) → Q a w
  Given-pair Q x a w g p = subst (Given Q) p g

  pub Given-weaken :
      (Q R : A → W → Type 0) (x : Result A × W)
      → ((a : A) (w : W) → Q a w → R a w)
      → Given Q x
      → Given R x
  Given-weaken Q R (ok a, w) h g = h a w g
  Given-weaken Q R (err m, w) h g = tt

module _ {W A B : Type 0} where
  Given-after :
      (Q : B → W → Type 0) (f : A → Action W B) (w : W) (x : Result A × W)
      → x.1 ≡ w
      → ((a : A) → x.0 ≡ ok a → Given Q (f a w))
      → Given Q (continue f x)
  Given-after Q f w (ok a, v) h k = subst (λ u. Given Q (f a u)) (sym h) (k a refl)
  Given-after Q f w (err m, v) h k = tt

  -- a run that begins by reading
  pub Given-Reads :
      (Q : B → W → Type 0) (m : Action W A) (f : A → Action W B) (w : W)
      → Reads m
      → ((a : A) → (m w).0 ≡ ok a → Given Q (f a w))
      → Given Q ((m >>= f) w)
  unfolding ◌>>=◌
  Given-Reads Q m f w r k = Given-after Q f w (m w) (r.at w) k

  bound-Given :
      (R : A → W → Type 0) (Q : B → W → Type 0) (f : A → Action W B) (x : Result A × W)
      → Given R x
      → ((a : A) (v : W) → R a v → Given Q (f a v))
      → Given Q (continue f x)
  bound-Given R Q f (ok a, v) r k = k a v r
  bound-Given R Q f (err m, v) r k = tt

  -- a run that begins with one of which something is known
  pub Given-bind :
      (R : A → W → Type 0) (Q : B → W → Type 0) (m : Action W A) (f : A → Action W B) (w : W)
      → Given R (m w)
      → ((a : A) (v : W) → R a v → Given Q (f a v))
      → Given Q ((m >>= f) w)
  unfolding ◌>>=◌
  Given-bind R Q m f w r k = bound-Given R Q f (m w) r k
