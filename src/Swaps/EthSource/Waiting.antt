-- ===== src/Swaps/EthSource/Waiting.antt =====
-- What waiting for a confirmation in Ethereum stores:
-- src/swaps/processors/eth-source-swaps.processor.ts.
use Prim.Native.String.{◌++◌}
use eth_ton_swap.Common.{
  true, false, some, ok, ◌>>=◌, ◌≡◌, refl, ap, sym, ◌∙◌, subst, ltb, Bool-cases, inl, inr, lift,
  Result-cases,
}
use eth_ton_swap.Entities.{SwapStatus, Swap}
use eth_ton_swap.Database.{Orm, OrmLaws}
use eth_ton_swap.World.{World, SwapResult}
use eth_ton_swap.Env.{Env}
use eth_ton_swap.Swaps.Jobs.{WaitForTransferConfirmation, template_text}
use eth_ton_swap.Swaps.Repository
use eth_ton_swap.Swaps.Helper.{swap_expired}
use eth_ton_swap.Swaps.Helper.Release.{IsClosed, close_swap-Given, updated_swap}
use eth_ton_swap.Swaps.EthSource.{await_confirmation, wait_for_eth_transfer_confirmation}
use eth_ton_swap.Swaps.Crediting.{gotten}
use eth_ton_swap.Swaps.Pipeline.Reading.{Given, Given-ok, Given-Reads, Reads-gets}

module _ {Db Num Slice : Type 0} (orm : Orm Db) (e : Env Num Slice) where
  -- The outcomes for a stored swap: too late, it expires; in time, the job's number of confirmations
  -- of the job's transaction was answered, and is stored.
  pub data Waits (d : WaitForTransferConfirmation) (swap : Swap)
      : SwapResult → World Db → Type 0 where
    late :
        {r : SwapResult} {v : World Db}
        → ltb swap.expires_at e.now ≡ true
        → r.status ≡ SwapStatus.expired
        → IsClosed orm v swap SwapStatus.expired
        → Waits d swap r v
    answered :
        {r : SwapResult} {v : World Db}
        → ltb swap.expires_at e.now ≡ false
        → e.eth.wait_for_transaction ("0x" ++ template_text d.transaction_id) d.confirmations
          ≡ ok tt
        → r.status ≡ SwapStatus.confirmed
        → orm.find_swap v.db swap.id
          ≡ some (record swap { status = SwapStatus.confirmed; confirmations = d.confirmations })
        → Waits d swap r v

module _ {Db Num Slice : Type 0} {orm : Orm Db} (laws : OrmLaws orm) (e : Env Num Slice) where
  found-Waits :
      (d : WaitForTransferConfirmation) (swap : Swap) (w : World Db)
      → orm.find_swap w.db swap.id ≡ some swap
      → Given (Waits orm e d swap) (await_confirmation orm e d (some swap) w)
  unfolding await_confirmation swap_expired Repository.update lift ◌>>=◌
  found-Waits d swap w found = elim (Bool-cases (ltb swap.expires_at e.now)) [
    | inl gone ↦ rw gone (
        close_swap-Given laws e (Waits orm e d swap) w swap SwapStatus.expired _ found
          (λ v c q. late gone refl c))
    | inr in_time ↦
        rw in_time
          (elim (Result-cases
            (e.eth.wait_for_transaction ("0x" ++ template_text d.transaction_id) d.confirmations)) [
              | inl (done, p) ↦
                  rw p (answered in_time p refl (updated_swap laws e w.db swap _ found))
              | inr (m, p) ↦ rw p tt
            ])
  ]

  -- If waitForEthTransferConfirmation returns for a stored swap, over a database that obeys the
  -- laws, then either the swap's time is over, and it is expired and its source wallet free; or
  -- it is not over, the job's number of confirmations of the job's transaction was answered,
  -- and the swap is confirmed that often, and is otherwise as before.
  pub wait_for_eth_transfer_confirmation-Waits :
      (d : WaitForTransferConfirmation) (w : World Db) (swap : Swap) (r : SwapResult)
      → orm.find_swap w.db d.swap_id ≡ some swap
      → (wait_for_eth_transfer_confirmation orm e d w).0 ≡ ok r
      → Waits orm e d swap r (wait_for_eth_transfer_confirmation orm e d w).1
  unfolding wait_for_eth_transfer_confirmation Repository.find_by_id
  wait_for_eth_transfer_confirmation-Waits d w swap r found returned =
      Given-ok (Waits orm e d swap) (wait_for_eth_transfer_confirmation orm e d w) r
        (Given-Reads (Waits orm e d swap) _ _ w (Reads-gets _) λ o p.
          subst (λ o. Given (Waits orm e d swap) (await_confirmation orm e d o w))
            (sym found ∙ gotten _ w o p)
            (found-Waits d swap w
              (ap (orm.find_swap w.db) (laws.find_swap_id w.db d.swap_id swap found) ∙ found)))
        returned
