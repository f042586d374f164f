-- ===== src/Swaps/Pipeline/Orders.antt =====
-- What the two endpoints do to the stages and to the queues.
use eth_ton_swap.Common.{
  throw_if, ℕ, ◌∷◌, String, Bool, true, false, not, Option, none, some, Action, pure, throw, lift,
  catching, ◌>>=◌, ◌>>◌, ◌≡◌, ◌≢◌, inl, inr, refl, ap, sym, ◌∙◌, subst, Result-cases, arith,
}
use eth_ton_swap.Common.Errors.{error_blockchain_connection_lost}
use eth_ton_swap.Entities.{Blockchain, ethereum, ton, SwapStatus, Swap, is_completed, is_pending}
use eth_ton_swap.Database.{Orm, OrmLaws}
use eth_ton_swap.World.{World, Job, JobData, eth_source_swaps, ton_source_swaps}
use eth_ton_swap.Env.{Env}
use eth_ton_swap.Wallets.Repository as Wallets
use eth_ton_swap.Wallets.Repository.{set_in_use, UpdateWallet}
use eth_ton_swap.Swaps.Repository
use eth_ton_swap.Swaps.Repository.{CreateSwap, UpdateSwap, no_update, draft_of}
use eth_ton_swap.Swaps.Stage.{
  Stage, stage, with_status, Same, Moved, Same-Moved, Moved-pointwise, Quiet, Quiet-throw,
  Quiet-bind,
}
use eth_ton_swap.Swaps.Stage.Writes.{wallets_update-Quiet, updated, update-Moved}
use eth_ton_swap.Swaps.Stage.Runs.{Runs, Runs-find}
use eth_ton_swap.Swaps.Controller.{first_in, run_confirm_swap_job, start_swap, cancel_swap}
use eth_ton_swap.Swaps.Pipeline.Fits.{Fits, job_swap}
use eth_ton_swap.Swaps.Pipeline.Advance.{Advances}

abbrev pub cancelled : Unit {0} → Stage → Stage
cancelled r g = with_status SwapStatus.canceled g

abbrev pub CancelAllowed : Option Stage → Unit {0} → Type 0
CancelAllowed none r = ⊥
CancelAllowed (some g) r = g.status ≡ SwapStatus.pending

module _ {Db : Type 0} {orm : Orm Db} {id : ℕ} {w : World Db} where
  Runs-throw_if :
      (b : Bool) (message : String) (rest : Action (World Db) (Unit {0}))
      → (b ≡ false → Runs orm id cancelled CancelAllowed w rest)
      → Runs orm id cancelled CancelAllowed w (throw_if b message >> rest)
  unfolding ◌>>=◌
  Runs-throw_if true message rest h = record { at = λ v s. s }
  Runs-throw_if false message rest h = h refl

  Runs-thrown :
      {A : Type 0} (message : String) (f : A → Action (World Db) (Unit {0}))
      → Runs orm id cancelled CancelAllowed w (throw message >>= f)
  unfolding ◌>>=◌
  Runs-thrown message f = record { at = λ v s. s }

  Runs-given :
      {A : Type 0} (a : A) (f : A → Action (World Db) (Unit {0}))
      → Runs orm id cancelled CancelAllowed w (f a)
      → Runs orm id cancelled CancelAllowed w (pure a >>= f)
  unfolding ◌>>=◌
  Runs-given a f h = record { at = h.at }

module _ {Db Num Slice : Type 0} {orm : Orm Db} (laws : OrmLaws orm) (e : Env Num Slice) where
  cancel-Runs :
      (id : ℕ) (w : World Db) (u : UpdateSwap Num)
      → ((g : Stage) → updated u g ≡ cancelled tt g)
      → CancelAllowed (stage orm w id) tt
      → Runs orm id cancelled CancelAllowed w (Repository.update orm e id u)
  unfolding Repository.update ◌>>=◌
  cancel-Runs id w u same allowed = record {
    at = λ v s. (
      Moved-pointwise orm id (updated u) (cancelled tt) same
          (Same-Moved orm id (updated u) s (update-Moved laws e id u v)),
      allowed,
    );
  }

  -- If the database obeys the laws, a cancellation that throws touches no stage and no job. One
  -- that returns found its swap pending; it touches no job, and moves the stage of that swap
  -- alone, whose status becomes canceled.
  pub cancel_swap-Runs :
      (id : ℕ) (w : World Db) → Runs orm id cancelled CancelAllowed w (cancel_swap orm e id)
  unfolding cancel_swap
  cancel_swap-Runs id w =
      Runs-find laws e _ (λ missing. Runs-thrown _ _)
        (λ swap p found. Runs-given swap _ (
          Runs-throw_if (is_completed swap.status) _ _ λ unfinished.
            Runs-throw_if (not (is_pending swap.status)) _ _ λ waiting.
              subst
                (λ i. Runs orm id cancelled CancelAllowed w (
                  Repository.update orm e i
                    (record no_update { status = some SwapStatus.canceled })))
                (sym p) (cancel-Runs id w _ (λ g. refl) (rw found (ground arith)))))

module _ {Db : Type 0} (orm : Orm Db) where
  -- A new swap is stored, beside what there was.
  pub record Fresh (w : World Db) (id : ℕ) (v : World Db) : Type 0 where
    pub absent : stage orm w id ≡ none
    pub row : stage orm v id ≡ some (record { status = SwapStatus.pending; confirmations = 0 })
    pub others : (j : ℕ) → j ≢ id → stage orm v j ≡ stage orm w j
    pub jobs : v.jobs ≡ w.jobs

  queued-Advances :
      (w v w' : World Db) (id : ℕ) (job : Job)
      → Fresh w id v
      → w'.db ≡ v.db
      → w'.jobs ≡ job ∷ v.jobs
      → job_swap job ≡ id
      → Fits (some (record { status = SwapStatus.pending; confirmations = 0 })) job
      → Advances orm w id w'
  queued-Advances w v w' id job fresh same_db jobs its fits =
      let same_stage : (j : ℕ) → stage orm w' j ≡ stage orm v j = λ j. rw same_db refl in
      record {
        others = λ j h. same_stage j ∙ fresh.others j h;
        own = rw fresh.absent (rw (same_stage id) (rw fresh.row (ground arith)));
        queued = inr (
          job,
          jobs ∙ ap (λ js. job ∷ js) fresh.jobs,
          its,
          subst (λ o. Fits o job) (sym (ap (stage orm w') its ∙ same_stage id ∙ fresh.row)) fits,
        );
      }

  failed-Advances :
      (w v u w' : World Db) (id : ℕ)
      → Fresh w id v
      → Moved orm v id (with_status SwapStatus.failed) u
      → Same orm u w'
      → Advances orm w id w'
  failed-Advances w v u w' id fresh m s =
      let row : stage orm w' id ≡ some (record { status = SwapStatus.failed; confirmations = 0 }) =
        s.stages id ∙ ground (arith, m.stages id, fresh.row) in
      record {
        others = λ j h. ground (arith, s.stages j, m.stages j, fresh.others j h);
        own = rw fresh.absent (rw row (ground arith));
        queued = inl (s.jobs ∙ m.jobs ∙ fresh.jobs);
      }

module _ {Db Num Slice : Type 0} {orm : Orm Db} (laws : OrmLaws orm) (e : Env Num Slice) where
  pub let_go-Quiet :
      {A : Type 0} (message : String) (wallet_id : ℕ)
      → Quiet orm (Wallets.update orm e wallet_id (set_in_use false) >> throw {A = A} message)
  let_go-Quiet message wallet_id =
      Quiet-bind orm _ _ (wallets_update-Quiet laws e wallet_id _) λ done. Quiet-throw orm message

  -- the handler of a start that failed
  give_up-Advances :
      (w v : World Db) (id wallet_id : ℕ) (message : String) (code : Option ℕ)
      → Fresh orm w id v
      → Advances orm w id
          ((Repository.update orm e id
                (record no_update { status = some SwapStatus.failed; status_code = code })
              >> (Wallets.update orm e wallet_id (set_in_use false)
                  >> throw {A = Unit {0}} message))
            v).1
  unfolding ◌>>=◌ Repository.update
  give_up-Advances w v id wallet_id message code fresh =
      let u : UpdateSwap Num = record no_update {
        status = some SwapStatus.failed;
        status_code = code;
      } in
      let v' = (Repository.update orm e id u v).1 in
      failed-Advances orm w v v' _ id fresh
        (Moved-pointwise orm id (updated u) (with_status SwapStatus.failed) (λ g. refl)
          (update-Moved laws e id u v))
        ((let_go-Quiet {A = Unit {0}} message wallet_id).at v')

  pub start_swap-Advances :
      (b : Blockchain) (wallet_id : ℕ) (swap : Swap) (w v : World Db)
      → Fresh orm w swap.id v
      → Advances orm w swap.id (start_swap orm e b wallet_id swap v).1
  unfolding start_swap catching run_confirm_swap_job throw lift ◌>>=◌
  start_swap-Advances ethereum wallet_id swap w v fresh =
      elim (Result-cases e.eth.get_latest_block) [
        | inl (n, found) ↦ rw found (
            queued-Advances orm w v _ swap.id
              (record {
                queue = eth_source_swaps;
                payload = JobData.confirm_eth_transfer swap.id n;
                options = first_in;
              })
              fresh refl refl refl (ground arith))
        | inr (m, lost) ↦
            rw lost
              (give_up-Advances w v swap.id wallet_id error_blockchain_connection_lost _ fresh)
      ]
  start_swap-Advances ton wallet_id swap w v fresh =
      elim (Result-cases e.ton.get_masterchain_seqno) [
        | inl (n, found) ↦ rw found (
            queued-Advances orm w v _ swap.id
              (record {
                queue = ton_source_swaps;
                payload = JobData.confirm_ton_transfer swap.id n;
                options = first_in;
              })
              fresh refl refl refl (ground arith))
        | inr (m, lost) ↦
            rw lost
              (give_up-Advances w v swap.id wallet_id error_blockchain_connection_lost _ fresh)
      ]
