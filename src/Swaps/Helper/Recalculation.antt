-- ===== src/Swaps/Helper/Recalculation.antt =====
-- `recalculateSwap`: which transferred amounts are accepted, and what the swap becomes.
use eth_ton_swap.Common.{
  String, true, false, some, Result, ok, err, ◌≡◌, ◌⊎◌, refl, inl, inr, Bool-cases,
}
use eth_ton_swap.Common.Errors.{
  error_swap_not_recaculated_too_high, error_swap_not_recaculated_too_low,
  error_swap_not_recaculated_zero_amount, error_swap_not_recaculated_zero_fee,
}
use eth_ton_swap.Entities.{Swap}
use eth_ton_swap.Env.{Env}
use eth_ton_swap.Swaps.Helper.{calculate_destination_amount_and_fee, recalculate_swap}

module _ {Num Slice : Type 0} (e : Env Num Slice) where
  -- A transferred amount that the source token allows, and that leaves a fee.
  pub record IsAccepted (swap : Swap) (transferred : Num) : Type 0 where
    pub above_zero : e.big.lte transferred (e.big.parse "0") ≡ false
    pub from_min : e.big.lt transferred (e.big.parse swap.source_token.min_swap_amount) ≡ false
    pub to_max : e.big.gt transferred (e.big.parse swap.source_token.max_swap_amount) ≡ false
    pub fee_above_zero : e.big.lte (e.big.times transferred e.swap_fee) (e.big.parse "0") ≡ false

  -- The swap with its three amounts replaced.
  abbrev pub with_amounts : Swap → Num → Swap
  with_amounts swap transferred = record swap {
    source_amount = e.big.to_fixed transferred swap.source_token.decimals;
    destination_amount = some (
        e.big.to_fixed (e.big.minus transferred (e.big.times transferred e.swap_fee))
          swap.destination_token.decimals);
    fee = some (e.big.to_fixed (e.big.times transferred e.swap_fee) swap.source_token.decimals);
  }

  abbrev pub RefusedWith : Swap → Num → String → Type 0
  RefusedWith swap transferred message =
      ((message ≡ error_swap_not_recaculated_zero_amount)
        × (e.big.lte transferred (e.big.parse "0") ≡ true))
      ⊎ ((message ≡ error_swap_not_recaculated_too_low)
          × (e.big.lt transferred (e.big.parse swap.source_token.min_swap_amount) ≡ true))
      ⊎ ((message ≡ error_swap_not_recaculated_too_high)
          × (e.big.gt transferred (e.big.parse swap.source_token.max_swap_amount) ≡ true))
      ⊎ ((message ≡ error_swap_not_recaculated_zero_fee)
          × (e.big.lte (e.big.times transferred e.swap_fee) (e.big.parse "0") ≡ true))

  -- what a result promises
  abbrev pub Recalculates : Swap → Num → Result Swap → Type 0
  Recalculates swap transferred (ok new) =
      IsAccepted swap transferred × (new ≡ with_amounts swap transferred)
  Recalculates swap transferred (err message) = RefusedWith swap transferred message

  -- If recalculateSwap returns, the transferred amount is above zero, within the source token's
  -- bounds, and leaves a fee above zero, and the swap has its three amounts replaced and
  -- nothing else; if it throws, the message names one of these conditions, and that one fails.
  pub recalculate_swap-Recalculates :
      (swap : Swap) (transferred : Num)
      → Recalculates swap transferred (recalculate_swap e swap transferred)
  unfolding recalculate_swap calculate_destination_amount_and_fee
  recalculate_swap-Recalculates swap transferred =
      elim (Bool-cases (e.big.lte transferred (e.big.parse "0"))) [
        | inl zero ↦ rw zero (inl (refl, zero))
        | inr above ↦
            rw above
              (elim (Bool-cases
                (e.big.lt transferred (e.big.parse swap.source_token.min_swap_amount))) [
                  | inl low ↦ rw low (inr (inl (refl, low)))
                  | inr from ↦
                      rw from
                        (elim (Bool-cases
                          (e.big.gt transferred (e.big.parse swap.source_token.max_swap_amount))) [
                            | inl high ↦ rw high (inr (inr (inl (refl, high))))
                            | inr to ↦
                                rw to
                                  (elim (Bool-cases (
                                    e.big.lte (e.big.times transferred e.swap_fee)
                                      (e.big.parse "0"))) [
                                        | inl free ↦ rw free (inr (inr (inr (refl, free))))
                                        | inr fee ↦ rw fee (
                                          record {
                                            above_zero = above;
                                            from_min = from;
                                            to_max = to;
                                            fee_above_zero = fee;
                                          },
                                          refl,
                                        )
                                      ])
                          ])
                ])
      ]
