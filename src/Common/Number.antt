-- ===== src/Common/Number.antt =====
-- src/common/providers/quantity.ts, over the arithmetic of bignumber.js, which is a parameter.
use Prim.Native.Nat.{Ordering}
use eth_ton_swap.Common.{ℕ, String, Bool, Option, none, some}

-- What the code calls of bignumber.js. A text is a decimal numeral; `nan` is what `new BigNumber`
-- makes of `null` and `undefined`.
pub record BigNumber (Num : Type 0) : Type 0 where
  pub parse : String → Num
  pub nan : Num
  pub to_fixed : Num → ℕ → String
  pub to_text : Num → String
  pub plus : Num → Num → Num
  pub minus : Num → Num → Num
  pub times : Num → Num → Num
  pub div : Num → Num → Num
  -- `none` where one of the two is no number
  pub compared_to : Num → Num → Option Ordering
  pub lt : Num → Num → Bool
  pub lte : Num → Num → Bool
  pub gt : Num → Num → Bool
  pub eq : Num → Num → Bool

-- `class Quantity`
pub record Quantity (Num : Type 0) : Type 0 where
  pub quantity : Num
  pub decimals : ℕ

module _ {Num : Type 0} (big : BigNumber Num) where
  -- `new BigNumber(x)` at a column that may be null
  abbrev pub parse_nullable : Option String → Num
  parse_nullable none = big.nan
  parse_nullable (some text) = big.parse text

  -- `new Quantity(text, decimals)`
  abbrev pub quantity_of : String → ℕ → Quantity Num
  quantity_of text decimals = record { quantity = big.parse text; decimals = decimals }

  -- `Quantity.toString`
  unfoldable pub quantity_to_text : Quantity Num → String
  quantity_to_text q = big.to_fixed q.quantity q.decimals
