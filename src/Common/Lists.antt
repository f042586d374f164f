-- ===== src/Common/Lists.antt =====
-- Lists: what holds of every entry, taking one entry out, and distinct keys.
use Prim.Native.Nat.{ℕ, suc}
use mathlib.Core.Path.{sym}
use mathlib.Core.Logic.{◌≢◌}
use mathlib.Core.List.{List, [], ◌∷◌}

module _ {ℓ} {A : Type ℓ} where
  abbrev pub length : List A → ℕ
  length [] = 0
  length (x ∷ xs) = suc (length xs)

  -- `Picks x rest xs`: the list `xs` is `rest` with `x` put in somewhere.
  pub data Picks (x : A) : List A → List A → Type ℓ where
    first : {xs : List A} → Picks x xs (x ∷ xs)
    later : {y : A} {rest xs : List A} → Picks x rest xs → Picks x (y ∷ rest) (y ∷ xs)

module _ {ℓ κ} {A : Type ℓ} (P : A → Type κ) where
  abbrev pub All : List A → Type κ
  All [] = Unit
  All (x ∷ xs) = P x × All xs

  pub All-Picks : {x : A} {rest xs : List A} → Picks x rest xs → All xs → P x × All rest
  All-Picks first h = h
  All-Picks (later p) h = let r = All-Picks p h.1 in (r.0, (h.0, r.1))

module _ {ℓ κ ι} {A : Type ℓ} (P : A → Type κ) (Q : A → Type ι) where
  pub All-map : (xs : List A) → ((x : A) → P x → Q x) → All P xs → All Q xs
  All-map [] f h = tt
  All-map (x ∷ xs) f h = (f x h.0, All-map xs f h.1)

-- No two entries have the same key.
module _ {ℓ} {A : Type ℓ} (key : A → ℕ) where
  abbrev pub HasDistinct : List A → Type 0
  HasDistinct [] = Unit
  HasDistinct (x ∷ xs) = All (λ y. key y ≢ key x) xs × HasDistinct xs

  pub HasDistinct-Picks :
      {x : A} {rest xs : List A} → Picks x rest xs → HasDistinct xs → HasDistinct (x ∷ rest)
  HasDistinct-Picks first h = h
  HasDistinct-Picks (later p) h =
      let others = All-Picks (λ z. key z ≢ key _) p h.0 in
      let rest = HasDistinct-Picks p h.1 in (((λ e. others.0 (sym e)), rest.0), (others.1, rest.1))
