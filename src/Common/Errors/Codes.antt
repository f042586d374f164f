-- ===== src/Common/Errors/Codes.antt =====
-- Distinct errors have distinct status codes.
use eth_ton_swap.Common.Tests.{str_eq, ◌==◌, ==_iff, ==_refl, if◌then◌else◌, Bool-cases}
use eth_ton_swap.Common.Lists.{All, HasDistinct}
use Prim.Native.Nat.{ℕ}
use Prim.Native.String.{String}
use mathlib.Core.Path.{◌≡◌, refl, ap, sym, ◌∙◌}
use mathlib.Core.Logic.{◌≢◌, inl, inr}
use mathlib.Core.Bool.{Bool, true, not, ◌&&◌}
use mathlib.Core.Option.{Option, none, some, some_inj}
use mathlib.Core.List.{List, [], ◌∷◌}
use text.Mathlib.TextEquality.{eq_iff}
use native.Mathlib.Omega.{arith}
use eth_ton_swap.Common.Errors.{property, error_to_status_code, get_status_code}

abbrev value_of : String × ℕ → ℕ
value_of (key, value) = value

-- the name whose value is `value`
abbrev name_of : ℕ → List (String × ℕ) → Option String
name_of value [] = none
name_of value ((key, v) ∷ rest) = if v == value then some key else name_of value rest

property_other :
    (name : String) (value : ℕ) (table : List (String × ℕ))
    → All (λ e. value_of e ≢ value) table
    → property name table ≡ some value
    → ⊥
property_other name value [] apart h = ground arith
property_other name value ((key, v) ∷ rest) apart h = elim (Bool-cases (str_eq key name)) [
  | inl same ↦ apart.0 (some_inj.0 (rw same at h))
  | inr other ↦ property_other name value rest apart.1 (rw other at h)
]

name_of-property :
    (name : String) (value : ℕ) (table : List (String × ℕ))
    → HasDistinct value_of table
    → property name table ≡ some value
    → name_of value table ≡ some name
name_of-property name value [] distinct h = ground arith
name_of-property name value ((key, v) ∷ rest) distinct h = elim (Bool-cases (str_eq key name)) [
  | inl same ↦
      rw (some_inj.0 (rw same at h)) (rw (==_refl value) (ap some ((eq_iff key name).0 same)))
  | inr other ↦ elim (Bool-cases (v == value)) [
    | inl taken ↦ absurd (
        property_other name v rest distinct.0
          (rw other at h ∙ ap some (sym ((==_iff v value).0 taken))))
    | inr free ↦ rw free (name_of-property name value rest distinct.1 (rw other at h))
  ]
]

-- every later value differs
abbrev differs : ℕ → List (String × ℕ) → Bool
differs value [] = true
differs value ((key, v) ∷ rest) = not (v == value) && differs value rest

abbrev all_differ : List (String × ℕ) → Bool
all_differ [] = true
all_differ ((key, v) ∷ rest) = differs v rest && all_differ rest

differs-All :
    (value : ℕ) (table : List (String × ℕ))
    → differs value table ≡ true
    → All (λ e. value_of e ≢ value) table
differs-All value [] h = tt
differs-All value ((key, v) ∷ rest) h = ((ground arith), differs-All value rest (ground arith))

all_differ-HasDistinct :
    (table : List (String × ℕ)) → all_differ table ≡ true → HasDistinct value_of table
all_differ-HasDistinct [] h = tt
all_differ-HasDistinct ((key, v) ∷ rest) h =
    (differs-All v rest (ground arith), all_differ-HasDistinct rest (ground arith))

-- Two messages with the same status code are the same message.
pub get_status_code_injective :
    (m m' : String) (code : ℕ)
    → get_status_code m ≡ some code
    → get_status_code m' ≡ some code
    → m ≡ m'
unfolding get_status_code
get_status_code_injective m m' code h h' =
    let distinct = all_differ-HasDistinct error_to_status_code refl in
    some_inj.0 (
      sym (name_of-property m code error_to_status_code distinct h)
      ∙ name_of-property m' code error_to_status_code distinct h')
