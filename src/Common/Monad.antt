-- ===== src/Common/Monad.antt =====
-- An asynchronous method: it reads and changes a state, and may throw. The state comes back beside
-- an error too, since what was written before a throw stays written.
use Prim.Native.String.{String}
use mathlib.Core.Bool.{Bool}
use mathlib.Core.Option.{Option, none, some}
use eth_ton_swap.Common.Tests.{if◌then◌else◌}
use mathlib.Core.Path.{◌≡◌, refl, ap}
use mathlib.Core.Logic.{◌⊎◌, inl, inr}

-- A returned value, or the message of a thrown `Error`.
pub data Result {ℓ} (A : Type ℓ) : Type ℓ where
  ok : A → Result A
  err : String → Result A

pub Result-cases :
    {A : Type 0} (r : Result A) → ((a : A) × (r ≡ ok a)) ⊎ ((m : String) × (r ≡ err m))
Result-cases (ok a) = inl (a, refl)
Result-cases (err m) = inr (m, refl)

abbrev from_ok : {A : Type 0} → A → Result A → A
from_ok a (ok b) = b
from_ok a (err m) = a

pub ok_inj : {A : Type 0} {a b : A} → ok a ≡ ok b → a ≡ b
ok_inj {a = a} h = ap (from_ok a) h

abbrev pub Action : Type 0 → Type 0 → Type 0
Action W A = W → Result A × W

module _ {W A : Type 0} where
  unfoldable pub pure : A → Action W A
  pure a w = (ok a, w)

  unfoldable pub throw : String → Action W A
  throw m w = (err m, w)

  -- A call of a service, whose answer is known.
  unfoldable pub lift : Result A → Action W A
  lift r w = (r, w)

  unfoldable pub gets : (W → A) → Action W A
  gets f w = (ok (f w), w)

unfoldable pub modify : {W : Type 0} → (W → W) → Action W (Unit {0})
modify f w = (ok tt, f w)

module _ {W A B : Type 0} where
  abbrev pub continue : (A → Action W B) → Result A × W → Result B × W
  continue f (ok a, w) = f a w
  continue f (err m, w) = (err m, w)

  infixl 5 ◌>>=◌ ◌>>◌
  -- opening this opens the actions above too
  unfoldable pub ◌>>=◌ : Action W A → (A → Action W B) → Action W B
  unfolding pure throw lift gets modify
  ◌>>=◌ m f w = continue f (m w)

  abbrev pub ◌>>◌ : Action W A → Action W B → Action W B
  m >> k = m >>= λ _. k

-- `try { … } catch (err) { handle(err) }`
module _ {W A : Type 0} where
  abbrev pub handled : (String → Action W A) → Result A × W → Result A × W
  handled handle (ok a, w) = (ok a, w)
  handled handle (err m, w) = handle m w

  unfoldable pub catching : Action W A → (String → Action W A) → Action W A
  catching m handle w = handled handle (m w)

-- a task that logs what was thrown returns in any case
pub swallowed : {W : Type 0} (x : Result (Unit {0}) × W) → handled (λ m. pure tt) x ≡ (ok tt, x.1)
unfolding pure
swallowed (ok tt, w) = refl
swallowed (err m, w) = refl

-- `if (!x) throw new Error(message)`
abbrev pub or_throw : {W A : Type 0} → Option A → String → Action W A
or_throw none message = throw message
or_throw (some a) message = pure a

abbrev pub throw_if : {W : Type 0} → Bool → String → Action W (Unit {0})
throw_if test message = if test then throw message else pure tt
