-- ===== src/Common/Fallible.antt =====
-- Calls that answer or throw and change no state; `do` blocks over them use these operators.
use eth_ton_swap.Common.{Result, ok, err, Option, none, some, List, [], ◌∷◌, ◌≡◌, refl}

infixl 5 ◌>>=◌ ◌>>◌
abbrev pub ◌>>=◌ : {A B : Type 0} → Result A → (A → Result B) → Result B
ok a >>= f = f a
err m >>= f = err m

abbrev pub ◌>>◌ : {A B : Type 0} → Result A → Result B → Result B
m >> k = m >>= λ _. k

-- `x ? f(x) : undefined`
abbrev pub traverse : {A B : Type 0} → (A → Result B) → Option A → Result (Option B)
traverse f none = ok none
traverse f (some a) = f a >>= λ b. ok (some b)

-- `try { … } catch { … }` around a call that changes no state
abbrev pub otherwise {ℓ} : {A : Type ℓ} → A → Result A → A
otherwise a (ok b) = b
otherwise a (err m) = a

abbrev pub answered : {A : Type 0} → Result A → Option A
answered (ok a) = some a
answered (err m) = none

-- each entry in turn, up to the first that throws
unfoldable pub traverse_list : {A B : Type 0} → (A → Result B) → List A → Result (List B)
traverse_list f [] = ok []
traverse_list f (a ∷ xs) = f a >>= λ b. traverse_list f xs >>= λ bs. ok (b ∷ bs)

-- what a chain that answers was answered first
pub bind_ok :
    {A B : Type 0} (m : Result A) (f : A → Result B) (b : B)
    → (m >>= f) ≡ ok b
    → (a : A) × (m ≡ ok a) × (f a ≡ ok b)
bind_ok (ok a) f b h = (a, refl, h)
bind_ok (err m) f b h = cc
