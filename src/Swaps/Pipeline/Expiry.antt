-- ===== src/Swaps/Pipeline/Expiry.antt =====
-- A swap that waits for its transfer does not wait for ever: the run after its time, or after it
-- was cancelled, closes it and adds no job.
use eth_ton_swap.Common.{
  ℕ, String, true, false, Option, some, Result, ok, Action, ◌∙◌, ◌⊎◌, inl, inr, ◌>>=◌, ◌≡◌, refl,
  ap, ltb,
}
use eth_ton_swap.Common.Errors.{error_no_error, error_swap_expired, get_status_code}
use eth_ton_swap.Entities.{SwapStatus, Swap, is_canceled}
use eth_ton_swap.Database.{Orm, OrmLaws}
use eth_ton_swap.World.{World, Job, JobData, SwapResult}
use eth_ton_swap.Env.{Env}
use eth_ton_swap.Swaps.Repository
use eth_ton_swap.Swaps.Jobs.{ConfirmTransfer}
use eth_ton_swap.Swaps.Helper.Closing.{closed}
use eth_ton_swap.Swaps.Helper.Release.{IsClosed, Closes, swap_expired-Closes, swap_canceled-Closes}
use eth_ton_swap.Swaps.EthSource as EthSource
use eth_ton_swap.Swaps.TonSource as TonSource
use eth_ton_swap.Swaps.Pipeline.{report, run_job}

-- The jobs that look for the transfer of the source tokens.
pub data LooksFor (id : ℕ) : JobData → Type 0 where
  in_eth : (block_number : ℕ) → LooksFor id (JobData.confirm_eth_transfer id block_number)
  in_ton : (block_number : ℕ) → LooksFor id (JobData.confirm_ton_transfer id block_number)

module _ {Db : Type 0} (orm : Orm Db) where
  -- No job was added, the swap is closed, and its source wallet is free.
  pub record Ends (w : World Db) (swap : Swap) (status : SwapStatus) (w' : World Db) : Type 0 where
    pub jobs : w'.jobs ≡ w.jobs
    pub closed_swap : IsClosed orm w' swap status

  moved-IsClosed :
      (v v' : World Db) (swap : Swap) (status : SwapStatus)
      → v'.db ≡ v.db
      → IsClosed orm v swap status
      → IsClosed orm v' swap status
  moved-IsClosed v v' swap status same c = record {
    stored = rw same c.stored;
    released = rw same c.released;
  }

  -- the listener of a result that is closed adds no job
  report-closed :
      (w : World Db) (swap : Swap) (status : SwapStatus) (code : Option ℕ) (kept : Option Job)
      (completed : SwapResult → Action (World Db) (Unit {0}))
      (failed : String → Action (World Db) (Unit {0})) (x : Result SwapResult × World Db)
      → ((v : World Db)
          → ((completed (closed status code) v).1.db ≡ v.db)
            × ((completed (closed status code) v).1.jobs ≡ v.jobs))
      → x.0 ≡ ok (closed status code)
      → x.1.jobs ≡ w.jobs
      → IsClosed orm x.1 swap status
      → Ends w swap status (report kept completed failed x)
  report-closed w swap status code kept completed failed (r, v) quiet p jobs c = rw p (record {
    jobs = (quiet v).1 ∙ jobs;
    closed_swap = moved-IsClosed v _ swap status (quiet v).0 c;
  })

module _ {Db Num Slice : Type 0} {orm : Orm Db} (laws : OrmLaws orm) (e : Env Num Slice) where
  by_own_id :
      (d : ConfirmTransfer) (w : World Db) (swap : Swap)
      → orm.find_swap w.db d.swap_id ≡ some swap
      → orm.find_swap w.db swap.id ≡ some swap
  by_own_id d w swap found =
      ap (orm.find_swap w.db) (laws.find_swap_id w.db d.swap_id swap found) ∙ found

  confirm_eth_transfer_closed :
      (d : ConfirmTransfer) (w : World Db) (status : SwapStatus) (code : Option ℕ) (swap : Swap)
      (kept : Option Job)
      → ((status ≡ SwapStatus.expired) ⊎ (status ≡ SwapStatus.canceled))
      → Closes laws e swap status code w (EthSource.confirm_eth_transfer orm e d)
      → Ends orm w swap status (
          report kept
            (EthSource.on_confirm_eth_transfer_completed d)
            (EthSource.on_confirm_eth_transfer_failed d)
            (EthSource.confirm_eth_transfer orm e d w))
  unfolding EthSource.on_confirm_eth_transfer_completed ◌>>=◌
  confirm_eth_transfer_closed d w status code swap kept (inl p) c =
      report-closed orm w swap status code kept (EthSource.on_confirm_eth_transfer_completed d)
        (EthSource.on_confirm_eth_transfer_failed d) (EthSource.confirm_eth_transfer orm e d w)
        (λ v. rw p (refl, refl)) c.0 c.1 c.2
  confirm_eth_transfer_closed d w status code swap kept (inr p) c =
      report-closed orm w swap status code kept (EthSource.on_confirm_eth_transfer_completed d)
        (EthSource.on_confirm_eth_transfer_failed d) (EthSource.confirm_eth_transfer orm e d w)
        (λ v. rw p (refl, refl)) c.0 c.1 c.2

  confirm_eth_transfer_expires :
      (d : ConfirmTransfer) (w : World Db) (swap : Swap)
      → orm.find_swap w.db d.swap_id ≡ some swap
      → is_canceled swap.status ≡ false
      → ltb swap.expires_at e.now ≡ true
      → Closes laws e swap SwapStatus.expired
          (get_status_code error_swap_expired)
          w
          (EthSource.confirm_eth_transfer orm e d)
  unfolding EthSource.confirm_eth_transfer Repository.find_by_id ◌>>=◌
  confirm_eth_transfer_expires d w swap found active late =
      rw found (rw active (rw late (swap_expired-Closes laws e w swap (by_own_id d w swap found))))

  confirm_eth_transfer_cancels :
      (d : ConfirmTransfer) (w : World Db) (swap : Swap)
      → orm.find_swap w.db d.swap_id ≡ some swap
      → is_canceled swap.status ≡ true
      → Closes laws e swap SwapStatus.canceled
          (get_status_code error_no_error)
          w
          (EthSource.confirm_eth_transfer orm e d)
  unfolding EthSource.confirm_eth_transfer Repository.find_by_id ◌>>=◌
  confirm_eth_transfer_cancels d w swap found gone =
      rw found (rw gone (swap_canceled-Closes laws e w swap (by_own_id d w swap found)))

  confirm_ton_transfer_closed :
      (d : ConfirmTransfer) (w : World Db) (status : SwapStatus) (code : Option ℕ) (swap : Swap)
      (kept : Option Job)
      → ((status ≡ SwapStatus.expired) ⊎ (status ≡ SwapStatus.canceled))
      → Closes laws e swap status code w (TonSource.confirm_ton_transfer orm e d)
      → Ends orm w swap status (
          report kept
            (TonSource.on_confirm_ton_transfer_completed d)
            (TonSource.on_confirm_ton_transfer_failed d)
            (TonSource.confirm_ton_transfer orm e d w))
  unfolding TonSource.on_confirm_ton_transfer_completed ◌>>=◌
  confirm_ton_transfer_closed d w status code swap kept (inl p) c =
      report-closed orm w swap status code kept (TonSource.on_confirm_ton_transfer_completed d)
        (TonSource.on_confirm_ton_transfer_failed d) (TonSource.confirm_ton_transfer orm e d w)
        (λ v. rw p (refl, refl)) c.0 c.1 c.2
  confirm_ton_transfer_closed d w status code swap kept (inr p) c =
      report-closed orm w swap status code kept (TonSource.on_confirm_ton_transfer_completed d)
        (TonSource.on_confirm_ton_transfer_failed d) (TonSource.confirm_ton_transfer orm e d w)
        (λ v. rw p (refl, refl)) c.0 c.1 c.2

  confirm_ton_transfer_expires :
      (d : ConfirmTransfer) (w : World Db) (swap : Swap)
      → orm.find_swap w.db d.swap_id ≡ some swap
      → is_canceled swap.status ≡ false
      → ltb swap.expires_at e.now ≡ true
      → Closes laws e swap SwapStatus.expired
          (get_status_code error_swap_expired)
          w
          (TonSource.confirm_ton_transfer orm e d)
  unfolding TonSource.confirm_ton_transfer Repository.find_by_id ◌>>=◌
  confirm_ton_transfer_expires d w swap found active late =
      rw found (rw active (rw late (swap_expired-Closes laws e w swap (by_own_id d w swap found))))

  confirm_ton_transfer_cancels :
      (d : ConfirmTransfer) (w : World Db) (swap : Swap)
      → orm.find_swap w.db d.swap_id ≡ some swap
      → is_canceled swap.status ≡ true
      → Closes laws e swap SwapStatus.canceled
          (get_status_code error_no_error)
          w
          (TonSource.confirm_ton_transfer orm e d)
  unfolding TonSource.confirm_ton_transfer Repository.find_by_id ◌>>=◌
  confirm_ton_transfer_cancels d w swap found gone =
      rw found (rw gone (swap_canceled-Closes laws e w swap (by_own_id d w swap found)))

  -- When a job that looks for the transfer of a stored swap runs after the swap's time, and the
  -- swap is not cancelled, the run marks the swap expired, lets its source wallet go, and adds
  -- no job, if the database obeys the laws.
  pub run_job_expires :
      (id : ℕ) (payload : JobData) (kept : Option Job) (w : World Db) (swap : Swap)
      → LooksFor id payload
      → orm.find_swap w.db id ≡ some swap
      → is_canceled swap.status ≡ false
      → ltb swap.expires_at e.now ≡ true
      → Ends orm w swap SwapStatus.expired (run_job orm e kept payload w)
  unfolding run_job
  run_job_expires id _ kept w swap (in_eth n) found active late =
      let d : ConfirmTransfer = record { swap_id = id; block_number = n } in
      confirm_eth_transfer_closed d w SwapStatus.expired _ swap kept (inl refl)
        (confirm_eth_transfer_expires d w swap found active late)
  run_job_expires id _ kept w swap (in_ton n) found active late =
      let d : ConfirmTransfer = record { swap_id = id; block_number = n } in
      confirm_ton_transfer_closed d w SwapStatus.expired _ swap kept (inl refl)
        (confirm_ton_transfer_expires d w swap found active late)

  -- When a job that looks for the transfer of a stored swap runs after the swap was cancelled,
  -- the run leaves the swap cancelled, lets its source wallet go, and adds no job, if the
  -- database obeys the laws.
  pub run_job_cancels :
      (id : ℕ) (payload : JobData) (kept : Option Job) (w : World Db) (swap : Swap)
      → LooksFor id payload
      → orm.find_swap w.db id ≡ some swap
      → is_canceled swap.status ≡ true
      → Ends orm w swap SwapStatus.canceled (run_job orm e kept payload w)
  unfolding run_job
  run_job_cancels id _ kept w swap (in_eth n) found gone =
      let d : ConfirmTransfer = record { swap_id = id; block_number = n } in
      confirm_eth_transfer_closed d w SwapStatus.canceled _ swap kept (inr refl)
        (confirm_eth_transfer_cancels d w swap found gone)
  run_job_cancels id _ kept w swap (in_ton n) found gone =
      let d : ConfirmTransfer = record { swap_id = id; block_number = n } in
      confirm_ton_transfer_closed d w SwapStatus.canceled _ swap kept (inr refl)
        (confirm_ton_transfer_cancels d w swap found gone)
