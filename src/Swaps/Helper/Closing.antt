-- ===== src/Swaps/Helper/Closing.antt =====
-- The helper's methods that close a swap: the result's status is stored and the wallet let go.
use eth_ton_swap.Common.{ℕ, String, false, Option, none, some, ◌≡◌, refl}
use eth_ton_swap.Entities.{SwapStatus, Swap}
use eth_ton_swap.Database.{Orm, OrmLaws}
use eth_ton_swap.World.{World, SwapResult}
use eth_ton_swap.Env.{Env}
use eth_ton_swap.Wallets.Repository.{set_in_use}
use eth_ton_swap.Swaps.Repository.{no_update}
use eth_ton_swap.Swaps.Helper.{
  close_swap, swap_canceled, swap_expired, swap_not_recalculated,
  jetton_minter_admin_wallet_not_found,
}
use eth_ton_swap.Swaps.Stage.{Stage, stage, with_status}
use eth_ton_swap.Swaps.Stage.Writes.{Settles-pure, Settles-wallet, Settles-then}
use eth_ton_swap.Swaps.Stage.Runs.{Runs, Runs-update}

abbrev pub closed : SwapStatus → Option ℕ → SwapResult
closed status status_code = record {
  status = status;
  status_code = status_code;
  transaction_id = none;
}

module _ {Db Num Slice : Type 0} {orm : Orm Db} (laws : OrmLaws orm) (e : Env Num Slice) {id : ℕ}
    {after : SwapResult → Stage → Stage} {Allowed : Option Stage → SwapResult → Type 0}
    {w : World Db} where
  close_swap-Runs :
      (swap : Swap) (status : SwapStatus) (status_code : Option ℕ)
      → swap.id ≡ id
      → ((g : Stage) → with_status status g ≡ after (closed status status_code) g)
      → Allowed (stage orm w id) (closed status status_code)
      → Runs orm id after Allowed w (close_swap orm e swap status status_code)
  close_swap-Runs swap status status_code p moves allowed =
      Runs-update laws e swap.id
        (record no_update { status = some status; status_code = status_code })
        (closed status status_code) _ p moves allowed
        (Settles-then laws e tt (closed status status_code) _ _
          (Settles-wallet laws e swap.source_wallet.id (set_in_use false) refl refl)
          (Settles-pure laws e (closed status status_code)))

  pub swap_canceled-Runs :
      (swap : Swap)
      → swap.id ≡ id
      → ((code : Option ℕ) (g : Stage)
          → with_status SwapStatus.canceled g ≡ after (closed SwapStatus.canceled code) g)
      → ((code : Option ℕ) → Allowed (stage orm w id) (closed SwapStatus.canceled code))
      → Runs orm id after Allowed w (swap_canceled orm e swap)
  unfolding swap_canceled
  swap_canceled-Runs swap p moves allowed = close_swap-Runs swap _ _ p (moves _) (allowed _)

  pub swap_expired-Runs :
      (swap : Swap)
      → swap.id ≡ id
      → ((code : Option ℕ) (g : Stage)
          → with_status SwapStatus.expired g ≡ after (closed SwapStatus.expired code) g)
      → ((code : Option ℕ) → Allowed (stage orm w id) (closed SwapStatus.expired code))
      → Runs orm id after Allowed w (swap_expired orm e swap)
  unfolding swap_expired
  swap_expired-Runs swap p moves allowed = close_swap-Runs swap _ _ p (moves _) (allowed _)

  pub swap_not_recalculated-Runs :
      (swap : Swap) (message : String)
      → swap.id ≡ id
      → ((code : Option ℕ) (g : Stage)
          → with_status SwapStatus.failed g ≡ after (closed SwapStatus.failed code) g)
      → ((code : Option ℕ) → Allowed (stage orm w id) (closed SwapStatus.failed code))
      → Runs orm id after Allowed w (swap_not_recalculated orm e swap message)
  unfolding swap_not_recalculated
  swap_not_recalculated-Runs swap message p moves allowed =
      close_swap-Runs swap _ _ p (moves _) (allowed _)

  pub minter_not_found-Runs :
      (swap : Swap)
      → swap.id ≡ id
      → ((code : Option ℕ) (g : Stage)
          → with_status SwapStatus.failed g ≡ after (closed SwapStatus.failed code) g)
      → ((code : Option ℕ) → Allowed (stage orm w id) (closed SwapStatus.failed code))
      → Runs orm id after Allowed w (jetton_minter_admin_wallet_not_found orm e swap)
  unfolding jetton_minter_admin_wallet_not_found
  minter_not_found-Runs swap p moves allowed = close_swap-Runs swap _ _ p (moves _) (allowed _)
