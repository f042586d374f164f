-- ===== src/Swaps/Pipeline/Completed.antt =====
-- What the processors' listeners do with a result or an error: the job that they add fits the swap.
use eth_ton_swap.Common.{
  ℕ, ◌+◌, ltb, String, Option, none, some, pure, ◌>>=◌, refl, true, Option-cases, if◌then◌else◌,
  arith,
}
use eth_ton_swap.Common.Errors.{attempt_count_normal, attempt_count_extended}
use eth_ton_swap.Entities.{eth_total_confirmations}
use eth_ton_swap.Database.{Orm}
use eth_ton_swap.World.{
  World, Job, JobData, SwapResult, eth_source_swaps, eth_destination_swaps, ton_source_swaps,
  ton_destination_swaps,
}
use eth_ton_swap.Ethereum.{eth_block_tracking_interval}
use eth_ton_swap.Ton.Blockchain.{ton_block_tracking_interval}
use eth_ton_swap.Swaps.Jobs.{
  ConfirmTransfer, WaitForTransferConfirmation, retried, delayed, at_once, settling, next_block,
}
use eth_ton_swap.Swaps.Stage.{stage, Same, Moved, Moved-id}
use eth_ton_swap.Swaps.Helper.{is_swap_processable}
use eth_ton_swap.Swaps.Results.{
  after_confirmation, after_mint, after_payout, after_settling, ConfirmAllowed, WaitAllowed,
  MintAllowed, PayoutAllowed,
}
use eth_ton_swap.Swaps.EthSource as EthSource
use eth_ton_swap.Swaps.EthDestination as EthDestination
use eth_ton_swap.Swaps.TonSource as TonSource
use eth_ton_swap.Swaps.TonDestination as TonDestination
use eth_ton_swap.Swaps.Pipeline.{logged, Kept, dropped, put_back, requeue}
use eth_ton_swap.Swaps.Pipeline.Fits.{FitsAt}
use eth_ton_swap.Swaps.Pipeline.Advance.{Advances, Moved-Advances, Same-Advances}

module _ {Db : Type 0} (orm : Orm Db) (w v : World Db) where
  pub confirm_eth_transfer_completed :
      (d : ConfirmTransfer) (r : SwapResult) (attempts : Option ℕ)
      → FitsAt
          (stage orm w d.swap_id)
          (JobData.confirm_eth_transfer d.swap_id d.block_number)
          attempts
      → Moved orm w d.swap_id (after_confirmation 1 r) v
      → ConfirmAllowed (stage orm w d.swap_id) r
      → Advances orm w d.swap_id (EthSource.on_confirm_eth_transfer_completed d r v).1
  unfolding EthSource.on_confirm_eth_transfer_completed ◌>>=◌
  confirm_eth_transfer_completed d r attempts fits m allowed =
      Moved-Advances orm w v d.swap_id (after_confirmation 1 r) (is_swap_processable r.status)
        (record {
          queue = eth_source_swaps;
          payload = JobData.wait_for_eth_transfer_confirmation d.swap_id r.transaction_id 2;
          options = retried attempt_count_normal eth_block_tracking_interval;
        })
        _ m (ground arith) (ground arith) refl
        (ground (arith, Option-cases (stage orm w d.swap_id)))
        (ground (arith, Option-cases (stage orm w d.swap_id)))

  pub confirm_ton_transfer_completed :
      (d : ConfirmTransfer) (r : SwapResult) (attempts : Option ℕ)
      → FitsAt
          (stage orm w d.swap_id)
          (JobData.confirm_ton_transfer d.swap_id d.block_number)
          attempts
      → Moved orm w d.swap_id (after_confirmation 1 r) v
      → ConfirmAllowed (stage orm w d.swap_id) r
      → Advances orm w d.swap_id (TonSource.on_confirm_ton_transfer_completed d r v).1
  unfolding TonSource.on_confirm_ton_transfer_completed ◌>>=◌
  confirm_ton_transfer_completed d r attempts fits m allowed =
      Moved-Advances orm w v d.swap_id (after_confirmation 1 r) (is_swap_processable r.status)
        (record {
          queue = eth_destination_swaps;
          payload = JobData.transfer_eth_tokens d.swap_id;
          options = at_once attempt_count_extended ton_block_tracking_interval;
        })
        _ m (ground arith) (ground arith) refl
        (ground (arith, Option-cases (stage orm w d.swap_id)))
        (ground (arith, Option-cases (stage orm w d.swap_id)))

  pub wait_completed :
      (d : WaitForTransferConfirmation) (r : SwapResult) (attempts : Option ℕ)
      → FitsAt
          (stage orm w d.swap_id)
          (JobData.wait_for_eth_transfer_confirmation d.swap_id d.transaction_id d.confirmations)
          attempts
      → Moved orm w d.swap_id (after_confirmation d.confirmations r) v
      → WaitAllowed (stage orm w d.swap_id) r
      → Advances orm w d.swap_id (EthSource.on_wait_for_eth_transfer_confirmation_completed d r v).1
  unfolding EthSource.on_wait_for_eth_transfer_confirmation_completed ◌>>=◌
  wait_completed d r attempts fits m allowed =
      Moved-Advances orm w v d.swap_id (after_confirmation d.confirmations r)
        (is_swap_processable r.status)
        (if ltb d.confirmations eth_total_confirmations
          then record {
            queue = eth_source_swaps;
            payload =
                JobData.wait_for_eth_transfer_confirmation d.swap_id d.transaction_id
                  (d.confirmations + 1);
            options = delayed eth_block_tracking_interval;
          }
          else record {
            queue = ton_destination_swaps;
            payload = JobData.mint_ton_jettons d.swap_id;
            options = at_once attempt_count_extended ton_block_tracking_interval;
          })
        _ m (ground arith) (ground arith) (ground arith)
        (ground (arith, Option-cases (stage orm w d.swap_id)))
        (ground (arith, Option-cases (stage orm w d.swap_id)))

  pub mint_completed :
      (id : ℕ) (r : SwapResult) (attempts : Option ℕ)
      → FitsAt (stage orm w id) (JobData.mint_ton_jettons id) attempts
      → Moved orm w id (after_mint r) v
      → MintAllowed (stage orm w id) r
      → Advances orm w id (TonDestination.on_mint_ton_jettons_completed id r v).1
  unfolding TonDestination.on_mint_ton_jettons_completed ◌>>=◌
  mint_completed id r attempts fits m allowed =
      Moved-Advances orm w v id (after_mint r) (is_swap_processable r.status)
        (record {
          queue = ton_destination_swaps;
          payload = JobData.get_ton_mint_transaction id;
          options = retried attempt_count_extended ton_block_tracking_interval;
        })
        _ m (ground arith) (ground arith) refl (ground (arith, Option-cases (stage orm w id)))
        (ground (arith, Option-cases (stage orm w id)))

  pub get_mint_completed :
      (id : ℕ) (r : SwapResult) (attempts : Option ℕ)
      → FitsAt (stage orm w id) (JobData.get_ton_mint_transaction id) attempts
      → Moved orm w id (after_payout r) v
      → PayoutAllowed (stage orm w id) r
      → Advances orm w id (TonDestination.on_get_ton_mint_transaction_completed id r v).1
  unfolding TonDestination.on_get_ton_mint_transaction_completed ◌>>=◌
  get_mint_completed id r attempts fits m allowed =
      Moved-Advances orm w v id (after_payout r) (is_swap_processable r.status)
        (record {
          queue = eth_source_swaps;
          payload = JobData.transfer_eth_fee id;
          options = settling none eth_block_tracking_interval;
        })
        _ m (ground arith) (ground arith) refl (ground (arith, Option-cases (stage orm w id)))
        (ground (arith, Option-cases (stage orm w id)))

  pub payout_completed :
      (id : ℕ) (r : SwapResult) (attempts : Option ℕ)
      → FitsAt (stage orm w id) (JobData.transfer_eth_tokens id) attempts
      → Moved orm w id (after_payout r) v
      → PayoutAllowed (stage orm w id) r
      → Advances orm w id (EthDestination.on_transfer_eth_tokens_completed id r v).1
  unfolding EthDestination.on_transfer_eth_tokens_completed ◌>>=◌
  payout_completed id r attempts fits m allowed =
      Moved-Advances orm w v id (after_payout r) (is_swap_processable r.status)
        (record {
          queue = ton_source_swaps;
          payload = JobData.transfer_ton_fee id;
          options = settling none ton_block_tracking_interval;
        })
        _ m (ground arith) (ground arith) refl (ground (arith, Option-cases (stage orm w id)))
        (ground (arith, Option-cases (stage orm w id)))

  pub transfer_fee_completed :
      (id : ℕ) (r : Unit {0}) (attempts : Option ℕ)
      → FitsAt (stage orm w id) (JobData.transfer_ton_fee id) attempts
      → Moved orm w id (after_settling r) v
      → Advances orm w id (TonSource.on_transfer_ton_fee_completed id v).1
  unfolding TonSource.on_transfer_ton_fee_completed ◌>>=◌
  transfer_fee_completed id r attempts fits m =
      Moved-Advances orm w v id (after_settling r) true
        (record {
          queue = ton_source_swaps;
          payload = JobData.get_ton_fee_transaction id;
          options = settling (some ton_block_tracking_interval) ton_block_tracking_interval;
        })
        _ m (ground arith) (ground arith) refl (ground (arith, Option-cases (stage orm w id)))
        (ground (arith, Option-cases (stage orm w id)))

  pub get_fee_completed :
      (id : ℕ) (r : Unit {0}) (attempts : Option ℕ)
      → FitsAt (stage orm w id) (JobData.get_ton_fee_transaction id) attempts
      → Moved orm w id (after_settling r) v
      → Advances orm w id (TonSource.on_get_ton_fee_transaction_completed id v).1
  unfolding TonSource.on_get_ton_fee_transaction_completed ◌>>=◌
  get_fee_completed id r attempts fits m =
      Moved-Advances orm w v id (after_settling r) true
        (record {
          queue = ton_source_swaps;
          payload = JobData.burn_ton_jettons id;
          options = settling none ton_block_tracking_interval;
        })
        _ m (ground arith) (ground arith) refl (ground (arith, Option-cases (stage orm w id)))
        (ground (arith, Option-cases (stage orm w id)))

  pub burn_completed :
      (id : ℕ) (r : Unit {0}) (attempts : Option ℕ)
      → FitsAt (stage orm w id) (JobData.burn_ton_jettons id) attempts
      → Moved orm w id (after_settling r) v
      → Advances orm w id (TonSource.on_burn_ton_jettons_completed id v).1
  unfolding TonSource.on_burn_ton_jettons_completed ◌>>=◌
  burn_completed id r attempts fits m =
      Moved-Advances orm w v id (after_settling r) true
        (record {
          queue = ton_source_swaps;
          payload = JobData.get_ton_burn_transaction id;
          options = settling (some ton_block_tracking_interval) ton_block_tracking_interval;
        })
        _ m (ground arith) (ground arith) refl (ground (arith, Option-cases (stage orm w id)))
        (ground (arith, Option-cases (stage orm w id)))

  -- The last jobs of a swap add none.
  pub settled_completed :
      (id : ℕ) (r : Unit {0})
      → Moved orm w id (after_settling r) v
      → Advances orm w id (logged r v).1
  unfolding pure
  settled_completed id r m = Same-Advances orm id (record {
    jobs = m.jobs;
    stages = λ j. ground (arith, m.stages j, Option-cases (stage orm w j));
  })

  pub confirm_eth_transfer_failed :
      (d : ConfirmTransfer) (message : String) (job : Job) (kept : Option Job)
      → Kept job kept
      → FitsAt
          (stage orm w d.swap_id)
          (JobData.confirm_eth_transfer d.swap_id d.block_number)
          job.options.attempts
      → Same orm w v
      → Advances orm w d.swap_id
          (EthSource.on_confirm_eth_transfer_failed d message (requeue kept v)).1
  unfolding EthSource.on_confirm_eth_transfer_failed ◌>>=◌
  confirm_eth_transfer_failed d message job _ dropped fits same =
      Moved-Advances orm w v d.swap_id (λ g. g) true
        (record {
          queue = eth_source_swaps;
          payload = JobData.confirm_eth_transfer d.swap_id (next_block d message);
          options = delayed eth_block_tracking_interval;
        })
        _ (Moved-id orm d.swap_id same) (ground arith) (ground arith) refl
        (ground (arith, Option-cases (stage orm w d.swap_id)))
        (ground (arith, Option-cases (stage orm w d.swap_id)))
  confirm_eth_transfer_failed d message job _ (put_back tried) fits same =
      ground (arith, tried, Option-cases (stage orm w d.swap_id))

  pub confirm_ton_transfer_failed :
      (d : ConfirmTransfer) (message : String) (job : Job) (kept : Option Job)
      → Kept job kept
      → FitsAt
          (stage orm w d.swap_id)
          (JobData.confirm_ton_transfer d.swap_id d.block_number)
          job.options.attempts
      → Same orm w v
      → Advances orm w d.swap_id
          (TonSource.on_confirm_ton_transfer_failed d message (requeue kept v)).1
  unfolding TonSource.on_confirm_ton_transfer_failed ◌>>=◌
  confirm_ton_transfer_failed d message job _ dropped fits same =
      Moved-Advances orm w v d.swap_id (λ g. g) true
        (record {
          queue = ton_source_swaps;
          payload = JobData.confirm_ton_transfer d.swap_id (next_block d message);
          options = delayed ton_block_tracking_interval;
        })
        _ (Moved-id orm d.swap_id same) (ground arith) (ground arith) refl
        (ground (arith, Option-cases (stage orm w d.swap_id)))
        (ground (arith, Option-cases (stage orm w d.swap_id)))
  confirm_ton_transfer_failed d message job _ (put_back tried) fits same =
      ground (arith, tried, Option-cases (stage orm w d.swap_id))
