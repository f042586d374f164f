-- ===== src/Swaps/Helper.antt =====
-- src/swaps/providers/swaps.helper.ts
pub mod Closing
pub mod Recalculation
pub mod Release
use eth_ton_swap.Common.{
  ℕ, String, Bool, true, false, Option, none, some, Result, ok, err, Action, pure, ◌>>◌,
  if◌then◌else◌,
}
use eth_ton_swap.Common.Errors.{
  error_no_error, error_swap_expired, error_swap_not_found, error_swap_not_recaculated_too_high,
  error_swap_not_recaculated_too_low, error_swap_not_recaculated_zero_amount,
  error_swap_not_recaculated_zero_fee, error_jetton_minter_admin_wallet_not_found, get_status_code,
}
use eth_ton_swap.Entities.{SwapStatus, Swap}
use eth_ton_swap.Database.{Orm}
use eth_ton_swap.World.{World, SwapResult}
use eth_ton_swap.Env.{Env}
use eth_ton_swap.Swaps.Repository
use eth_ton_swap.Swaps.Repository.{no_update}
use eth_ton_swap.Wallets.Repository as Wallets
use eth_ton_swap.Wallets.Repository.{set_in_use}

-- `isSwapProcessable`
abbrev pub is_swap_processable : SwapStatus → Bool
is_swap_processable SwapStatus.expired = false
is_swap_processable SwapStatus.failed = false
is_swap_processable SwapStatus.canceled = false
is_swap_processable _ = true

-- `swapNotFound`
abbrev pub swap_not_found : SwapResult
swap_not_found = record {
  status = SwapStatus.failed;
  status_code = get_status_code error_swap_not_found;
  transaction_id = none;
}

module _ {Num Slice : Type 0} (e : Env Num Slice) where
  -- the destination amount and the fee
  unfoldable pub calculate_destination_amount_and_fee : Num → Num × Num
  calculate_destination_amount_and_fee source_amount =
      let fee = e.big.times source_amount e.swap_fee in (e.big.minus source_amount fee, fee)

  unfoldable pub recalculate_swap : Swap → Num → Result Swap
  unfolding calculate_destination_amount_and_fee
  recalculate_swap swap transferred =
      if e.big.lte transferred (e.big.parse "0")
      then err error_swap_not_recaculated_zero_amount
      else if e.big.lt transferred (e.big.parse swap.source_token.min_swap_amount)
      then err error_swap_not_recaculated_too_low
      else if e.big.gt transferred (e.big.parse swap.source_token.max_swap_amount)
      then err error_swap_not_recaculated_too_high
      else (let (destination_amount, fee) = calculate_destination_amount_and_fee transferred in
          if e.big.lte fee (e.big.parse "0")
          then err error_swap_not_recaculated_zero_fee
          else ok (record swap {
            source_amount = e.big.to_fixed transferred swap.source_token.decimals;
            destination_amount =
                some (e.big.to_fixed destination_amount swap.destination_token.decimals);
            fee = some (e.big.to_fixed fee swap.source_token.decimals);
          }))

module _ {Db Num Slice : Type 0} (orm : Orm Db) (e : Env Num Slice) where
  -- what the four methods below share: the result is stored, and the source wallet is let go
  abbrev pub close_swap : Swap → SwapStatus → Option ℕ → Action (World Db) SwapResult
  close_swap swap status status_code = do
    Repository.update orm e swap.id
        (record no_update { status = some status; status_code = status_code })
    Wallets.update orm e swap.source_wallet.id (set_in_use false)
    pure (record { status = status; status_code = status_code; transaction_id = none })

  unfoldable pub swap_canceled : Swap → Action (World Db) SwapResult
  swap_canceled swap = close_swap swap SwapStatus.canceled (get_status_code error_no_error)

  unfoldable pub swap_expired : Swap → Action (World Db) SwapResult
  swap_expired swap = close_swap swap SwapStatus.expired (get_status_code error_swap_expired)

  unfoldable pub swap_not_recalculated : Swap → String → Action (World Db) SwapResult
  swap_not_recalculated swap message = close_swap swap SwapStatus.failed (get_status_code message)

  unfoldable pub jetton_minter_admin_wallet_not_found : Swap → Action (World Db) SwapResult
  jetton_minter_admin_wallet_not_found swap =
      close_swap swap SwapStatus.failed (get_status_code error_jetton_minter_admin_wallet_not_found)
