-- ===== src/Swaps/EthDestination/Outcome.antt =====
-- The runs of the Ethereum destination processor, as moves of a stage.
use eth_ton_swap.Common.{ℕ, String, some, ◌≡◌, refl, inl, inr, ltb}
use eth_ton_swap.Common.Errors.{error_no_error, get_status_code}
use eth_ton_swap.Entities.{SwapStatus, Swap, extended_expires_at}
use eth_ton_swap.Database.{Orm, OrmLaws}
use eth_ton_swap.World.{World}
use eth_ton_swap.Env.{Env}
use eth_ton_swap.Swaps.EthDestination.{
  pay_out, complete_payout, transfer_found, transfer_eth_tokens,
}
use eth_ton_swap.Swaps.Stage.{stage, stage_of, Quiet, Quiet-lift, Quiet-bind}
use eth_ton_swap.Swaps.Stage.Writes.{Settles-pure}
use eth_ton_swap.Swaps.Stage.Runs.{Runs, Runs-if, Runs-bind, Runs-find, Runs-update, Runs-missing}
use eth_ton_swap.Swaps.Stage.Services.{get_gas_price-Quiet, transfer_tokens-Quiet}
use eth_ton_swap.Swaps.Helper.Closing.{closed, swap_expired-Runs}
use eth_ton_swap.Swaps.Results.{after_payout, PayoutAllowed}

module _ {Db Num Slice : Type 0} (orm : Orm Db) (e : Env Num Slice) where
  pay_out-Quiet : (swap : Swap) → Quiet orm (pay_out orm e swap)
  unfolding pay_out
  pay_out-Quiet swap = Quiet-bind orm _ _ (get_gas_price-Quiet orm e) λ gas_price.
      Quiet-bind orm _ _ (Quiet-lift orm _) λ secret_key.
        Quiet-bind orm _ _ (Quiet-lift orm _) λ contract. transfer_tokens-Quiet orm e _ _ _ _ _

module _ {Db Num Slice : Type 0} {orm : Orm Db} (laws : OrmLaws orm) (e : Env Num Slice) where
  complete_payout-Runs :
      (id : ℕ) (w : World Db) (swap : Swap) (transaction_id : String)
      → swap.id ≡ id
      → stage orm w id ≡ some (stage_of swap)
      → Runs orm id after_payout PayoutAllowed w (complete_payout orm e swap transaction_id)
  unfolding complete_payout
  complete_payout-Runs id w swap transaction_id p found =
      Runs-bind _ _ (Quiet-lift orm _) λ confirmed.
        Runs-update laws e swap.id _ (closed SwapStatus.completed (get_status_code error_no_error))
          _ p (λ g. refl) (rw found (inr (inr refl))) (Settles-pure laws e _)

  transfer_found-Runs :
      (id : ℕ) (w : World Db) (swap : Swap)
      → swap.id ≡ id
      → stage orm w id ≡ some (stage_of swap)
      → Runs orm id after_payout PayoutAllowed w (transfer_found orm e (some swap))
  unfolding transfer_found
  transfer_found-Runs id w swap p found =
      Runs-if (ltb (extended_expires_at swap) e.now) _ _
        (λ late. swap_expired-Runs laws e swap p (λ c g. refl) (λ c. rw found (inl refl)))
        (λ in_time.
          Runs-bind _ _ (pay_out-Quiet orm e swap)
            λ transaction_id. complete_payout-Runs id w swap transaction_id p found)

  -- If the database obeys the laws, a run of transferEthTokens that throws touches no stage and
  -- no job. One that returns touches no job, and moves the stage of its own swap alone, which
  -- gets the status that is returned: failed if the swap is not stored, otherwise expired,
  -- failed or completed.
  pub transfer_eth_tokens-Runs :
      (id : ℕ) (w : World Db)
      → Runs orm id after_payout PayoutAllowed w (transfer_eth_tokens orm e id)
  unfolding transfer_eth_tokens
  transfer_eth_tokens-Runs id w =
      Runs-find laws e _ (λ missing. Runs-missing laws e _ _ missing refl (Settles-pure laws e _))
        (transfer_found-Runs id w)
