-- ===== src/Wallets/Queue/Deployment.antt =====
-- When a run of a job of the wallets deploys one: src/wallets/processors/wallets.processor.ts.
use eth_ton_swap.Common.{
  ℕ, zero, suc, ◌==◌, ==_iff, str_eq, true, none, some, Result, ok, err, pure, throw, modify,
  catching, handled, ◌>>=◌, ◌≡◌, refl, sym, ap, ◌∙◌, ◌⊎◌, inl, inr, subst, Bool-cases, Option-cases,
  Result-cases,
}
use mathlib.Core.Option.{some_inj}
use text.Mathlib.TextEquality.{eq_iff}
use eth_ton_swap.Common.Number.{quantity_of, quantity_to_text}
use eth_ton_swap.Entities.{Wallet}
use eth_ton_swap.Database.{Orm, OrmLaws, PartialWallet, assign_wallet}
use eth_ton_swap.World.{World, WalletJob, WalletJobData}
use eth_ton_swap.World.Keeps.{Keeps-bind, keep_rules, db, db_of_send}
use eth_ton_swap.Env.{Env}
use eth_ton_swap.Ton.Blockchain.{WalletData, get_wallet_data}
use eth_ton_swap.Wallets.Repository
use eth_ton_swap.Wallets.Processor.{
  confirm_wallet_deploy, on_transfer_toncoins_completed, on_confirm_toncoins_transfer_completed,
  on_deploy_wallet_completed, on_confirm_wallet_deploy_completed,
}
use eth_ton_swap.Wallets.Processor.Quiet.{
  transfer_toncoins-Keeps, confirm_toncoins_transfer-Keeps, deploy_wallet-Keeps,
}
use eth_ton_swap.Wallets.Queue.{run_payload, run_job, retry}

module _ {Num Slice : Type 0} (e : Env Num Slice) where
  -- the columns that a confirmed deployment writes
  abbrev deployed_columns : Wallet → PartialWallet
  deployed_columns wallet = record {
    mnemonic = none;
    conjugated_address = none;
    balance = some (quantity_to_text e.big (quantity_of e.big "0" wallet.token.decimals));
    type = none;
    deployed = some true;
    in_use = none;
    disabled = none;
  }

module _ {Db Num Slice : Type 0} (orm : Orm Db) (e : Env Num Slice) where
  -- The chain answered that the wallet is active, and its row says that it is deployed.
  record Activates (i : ℕ) (before after : Db) : Type 0 where
    wallet : Wallet
    found : orm.find_wallet before i ≡ some wallet
    answer : WalletData Num
    answered : get_wallet_data e wallet.address ≡ ok answer
    active : answer.account_state ≡ "active"
    written : after ≡ orm.update_wallet before wallet.id (deployed_columns e wallet)

  retry_db : (job : WalletJob) (n : ℕ) (w : World Db) → (retry orm e job n w).1.db ≡ w.db
  unfolding pure modify
  retry_db job zero w = refl
  retry_db job (suc zero) w = refl
  retry_db job (suc (suc fewer)) w = refl

  handled_db :
      (job : WalletJob) (x : Result (Unit {0}) × World Db)
      → (handled (λ message. retry orm e job job.attempts) x).1.db ≡ x.1.db
  handled_db job (ok r, w) = refl
  handled_db job (err m, w) = retry_db job job.attempts w

  run_job_db :
      (job : WalletJob) (w : World Db)
      → (run_job orm e job w).1.db ≡ (run_payload orm e job.payload w).1.db
  unfolding run_job catching
  run_job_db job w = handled_db job (run_payload orm e job.payload w)

  confirm_deploy_db :
      (i : ℕ) (w : World Db)
      → let after = (run_payload orm e (WalletJobData.confirm_wallet_deploy i) w).1.db in
        (after ≡ w.db) ⊎ Activates i w.db after
  unfolding run_payload confirm_wallet_deploy Repository.find_by_id Repository.update
      on_confirm_wallet_deploy_completed ◌>>=◌ pure throw modify
  confirm_deploy_db i w = elim (Option-cases (orm.find_wallet w.db i)) [
    | inl absent ↦ rw absent (inl refl)
    | inr (wallet, found) ↦ rw found (elim (Result-cases (get_wallet_data e wallet.address)) [
      | inl (answer, answered) ↦
          rw answered (elim (Bool-cases (str_eq answer.account_state "active")) [
            | inl active ↦ rw active (
                inr (record {
                  wallet = wallet;
                  found = found;
                  answer = answer;
                  answered = answered;
                  active = (eq_iff answer.account_state "active").0 active;
                  written = refl;
                }))
            | inr idle ↦ rw idle (inl refl)
          ])
      | inr (m, failed) ↦ rw failed (inl refl)
    ])
  ]

  run_payload_db :
      (p : WalletJobData) (w : World Db)
      → ((run_payload orm e p w).1.db ≡ w.db)
        ⊎ ((i : ℕ) × (p ≡ WalletJobData.confirm_wallet_deploy i)
            × Activates i w.db (run_payload orm e p w).1.db)
  unfolding run_payload on_transfer_toncoins_completed on_confirm_toncoins_transfer_completed
      on_deploy_wallet_completed
  run_payload_db (WalletJobData.transfer_toncoins i g) w = inl (
      (Keeps-bind db _ _ (transfer_toncoins-Keeps db db_of_send orm e i g)
          (λ b. search keep_rules)).at
        w)
  run_payload_db (WalletJobData.confirm_toncoins_transfer i g) w = inl (
      (Keeps-bind db _ _ (confirm_toncoins_transfer-Keeps db db_of_send orm e i)
          (λ b. search keep_rules)).at
        w)
  run_payload_db (WalletJobData.deploy_wallet i) w = inl (
      (Keeps-bind db _ _ (deploy_wallet-Keeps db db_of_send orm e i) (λ b. search keep_rules)).at w)
  run_payload_db (WalletJobData.confirm_wallet_deploy i) w = elim (confirm_deploy_db i w) [
    | inl h ↦ inl h
    | inr a ↦ inr (i, refl, a)
  ]

module _ {Db Num Slice : Type 0} {orm : Orm Db} (laws : OrmLaws orm) (e : Env Num Slice) where
  -- the job confirmed the deployment, the chain answered that the wallet is active
  pub record Confirmed (job : WalletJob) (before after : Wallet) : Type 0 where
    pub job_of_it : job.payload ≡ WalletJobData.confirm_wallet_deploy before.id
    pub answer : WalletData Num
    pub answered : get_wallet_data e before.address ≡ ok answer
    pub active : answer.account_state ≡ "active"
    pub row : after ≡ assign_wallet (deployed_columns e before) before

  activated_row :
      (job : WalletJob) (d d' : Db) (i k : ℕ) (before after : Wallet)
      → orm.find_wallet d i ≡ some before
      → orm.find_wallet d' i ≡ some after
      → job.payload ≡ WalletJobData.confirm_wallet_deploy k
      → Activates orm e k d d'
      → (after ≡ before) ⊎ Confirmed job before after
  activated_row job d d' i k before after found stored p a =
      let row =
        sym (
          ap (λ x. orm.find_wallet x i) a.written
          ∙ laws.find_wallet-update_wallet d a.wallet.id i _)
        ∙ stored in
      let own = laws.find_wallet_id d k a.wallet a.found in
      elim (Bool-cases (i == a.wallet.id)) [
        | inl same ↦
            let at_k : i ≡ k = (==_iff i a.wallet.id).0 same ∙ own in
            let this : a.wallet ≡ before =
              some_inj.0 (sym a.found ∙ ap (orm.find_wallet d) (sym at_k) ∙ found) in
            inr (record {
              job_of_it =
                  p
                  ∙ ap WalletJobData.confirm_wallet_deploy
                      (sym own ∙ ap (λ (v : Wallet). v.id) this);
              answer = a.answer;
              answered =
                  subst (λ (v : Wallet). get_wallet_data e v.address ≡ ok a.answer) this a.answered;
              active = a.active;
              row = sym (
                  some_inj.0 (
                    subst
                      (λ (v : Wallet).
                        some (assign_wallet (deployed_columns e v) before) ≡ some after)
                      this (rw (same, found) at row)));
            })
        | inr other ↦ inl (some_inj.0 (sym (rw other at row) ∙ found))
      ]

  -- If the database obeys the laws, a run of a job of the wallets leaves a wallet's row as it
  -- was, or the job confirmed the deployment of that very wallet, the chain answered that it is
  -- active, and the row says that it is deployed and has a zero balance.
  pub run_job_changes :
      (job : WalletJob) (w : World Db) (i : ℕ) (before after : Wallet)
      → orm.find_wallet w.db i ≡ some before
      → orm.find_wallet (run_job orm e job w).1.db i ≡ some after
      → (after ≡ before) ⊎ Confirmed job before after
  run_job_changes job w i before after found stored =
      let stored' = subst (λ d. orm.find_wallet d i ≡ some after) (run_job_db orm e job w) stored in
      elim (run_payload_db orm e job.payload w) [
        | inl h ↦
            inl (some_inj.0 (sym (subst (λ d. orm.find_wallet d i ≡ some after) h stored') ∙ found))
        | inr (k, p, a) ↦ activated_row job w.db _ i k before after found stored' p a
      ]
