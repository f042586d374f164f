-- ===== src/Witnesses/Wallets.antt =====
-- The theorems on wallets, their jobs and the hourly tasks at concrete inputs.
use mathlib.Core.Option
use eth_ton_swap.Common.{
  ℕ, ◌+◌, ◌≤◌, true, false, none, some, [], ◌∷◌, first, ◌≡◌, refl, ok, err, ◌⊎◌, ◌>>=◌, pure, lift,
  gets, modify, catching,
}
use eth_ton_swap.Common.Errors.{error_wallet_not_found}
use eth_ton_swap.Common.Number.{quantity_to_text}
use eth_ton_swap.Entities.{ethereum, ton, transferer, Wallet, Setting}
use eth_ton_swap.World.{World, WalletJobData}
use eth_ton_swap.Ton.Blockchain.{get_wallet_data}
use eth_ton_swap.Ton.Contract.{get_jetton_wallet_data}
use eth_ton_swap.Ton.Blockchain
use eth_ton_swap.Ton.DryRuns.{Sending, serve, dry_run_keeps}
use eth_ton_swap.Settings.SyncGasFee
use eth_ton_swap.Settings.SyncGasFee.Fees.{run_ethereum_fee}
use eth_ton_swap.Wallets.Jobs.{wallet_job}
use eth_ton_swap.Wallets.Mnemonic.{split_space}
use eth_ton_swap.Wallets.Repository
use eth_ton_swap.Wallets.Repository.{created_draft, attached_draft, save, where_of}
use eth_ton_swap.Wallets.Controller.{
  create_wallet, attach_wallet, update_wallet, to_get_wallet, pay_first_toncoins,
}
use eth_ton_swap.Wallets.Controller.Attaching.{Attaches, attach_wallet-Attaches}
use eth_ton_swap.Wallets.Controller.Creating.{
  Created, Creates, create_wallet-Creates, create_wallet_strands,
}
use eth_ton_swap.Wallets.Controller.Updating.{Updates, update_wallet-Updates}
use eth_ton_swap.Wallets.Controller.Mnemonics.{create_wallet_shows}
use eth_ton_swap.Wallets.Queue.{run_job, run_payload}
use eth_ton_swap.Wallets.Queue.Termination.{Chain, runs_left, Chain_bounded}
use eth_ton_swap.Wallets.Queue.Deployment.{Confirmed, run_job_changes}
use eth_ton_swap.Wallets.Queue.Refinement.{
  Deployment, busy, toncoins_received, Steps, Shows, single, Chain_refines,
}
use eth_ton_swap.Wallets.Processor.{confirm_wallet_deploy, on_confirm_wallet_deploy_completed}
use eth_ton_swap.Wallets.SyncTokenBalance.{ethereum_balance, run_ethereum, run_ton}
use eth_ton_swap.Wallets.SyncTokenBalance.Rows.{
  InEthereum, InTon, Visited, run_ethereum_row, run_ton_row,
}
use eth_ton_swap.Wallets.DepositBalance.{run}
use eth_ton_swap.Samples.{Tables, tables}
use eth_ton_swap.Samples.Laws.{tables_laws}
use eth_ton_swap.Samples.Chain.{env_at}
use eth_ton_swap.Samples.Rows.{token_in, wallet_of}
use eth_ton_swap.Samples.Wallets.{
  giving_world, no_giver_world, create_request, update_request, attach_request, attached_answer,
  sealing_env, sealing_ciphers, new_answer, confirming_job, deploying_world,
}

-- the world after the one job has run
abbrev deployed_world : World Tables
deployed_world =
    (run_job tables (env_at 5 100) (wallet_job (WalletJobData.deploy_wallet 2) none) giving_world).1

one_run : Chain ℕ (Unit {0}) tables 1 deploying_world deployed_world
one_run =
    Chain.run (env_at 5 100) (wallet_job (WalletJobData.deploy_wallet 2) none) [] first Chain.here

Chain_bounded_example :
    1 + runs_left deployed_world.wallet_jobs ≤ runs_left deploying_world.wallet_jobs
Chain_bounded_example = Chain_bounded ℕ (Unit {0}) tables one_run

Chain_refines_example :
    (after : Deployment) × Steps 1 (busy 2 toncoins_received 6) after
    × Shows deployed_world.wallet_jobs after
Chain_refines_example =
    Chain_refines tables one_run (single (wallet_job (WalletJobData.deploy_wallet 2) none))

run_job_changes_example :
    let wallet = wallet_of 2 ton transferer "w2" in
    let after = record wallet { balance = some "0"; deployed = true } in
    (after ≡ wallet) ⊎ Confirmed tables_laws (env_at 5 100) confirming_job wallet after
unfolding run_job run_payload catching confirm_wallet_deploy on_confirm_wallet_deploy_completed
    ◌>>=◌ pure lift gets modify Repository.find_by_id Repository.update get_wallet_data
    quantity_to_text
run_job_changes_example =
    run_job_changes tables_laws (env_at 5 100) confirming_job giving_world 2
      (wallet_of 2 ton transferer "w2")
      (record (wallet_of 2 ton transferer "w2") { balance = some "0"; deployed = true }) refl refl

create_wallet-Creates_example :
    Creates tables sealing_env create_request giving_world new_answer
      (create_wallet tables sealing_env create_request giving_world).1
unfolding create_wallet Repository.create save created_draft pay_first_toncoins
    Repository.find_best_matched_one to_get_wallet split_space ◌>>=◌ pure lift gets modify
    Option.bind
create_wallet-Creates_example =
    create_wallet-Creates tables_laws sealing_env create_request giving_world new_answer refl

create_wallet_shows_example : new_answer.mnemonic ≡ some ("one" ∷ "two" ∷ [])
unfolding create_wallet Repository.create save created_draft pay_first_toncoins
    Repository.find_best_matched_one to_get_wallet split_space ◌>>=◌ pure lift gets modify
    Option.bind
create_wallet_shows_example =
    create_wallet_shows tables_laws sealing_env create_request giving_world new_answer
      (token_in ton 2) (record { secret_key = "secret"; words = "one" ∷ "two" ∷ [] }) "one"
      ("two" ∷ []) sealing_ciphers refl refl refl refl
      ((refl, (refl, (refl, tt))), ((refl, (refl, (refl, tt))), tt)) refl

update_wallet-Updates_example :
    Updates tables
      (env_at 5 100)
      2
      update_request
      giving_world
      (record new_answer {
        id = 2;
        address = "w2";
        mnemonic = none;
        conjugated_address = some "w2";
        balance = some "7";
      })
      (update_wallet tables (env_at 5 100) 2 update_request giving_world).1
unfolding update_wallet Repository.find_by_id Repository.update quantity_to_text to_get_wallet ◌>>=◌
    pure lift gets modify Option.bind
update_wallet-Updates_example =
    update_wallet-Updates tables_laws (env_at 5 100) 2 update_request giving_world
      (record new_answer {
        id = 2;
        address = "w2";
        mnemonic = none;
        conjugated_address = some "w2";
        balance = some "7";
      })
      refl

create_wallet_strands_example :
    let v =
      (Repository.create tables (env_at 5 100) transferer (token_in ton 2) no_giver_world).1 in
    (create_wallet tables (env_at 5 100) create_request no_giver_world
      ≡ (err error_wallet_not_found, v))
    × Created tables
        (env_at 5 100)
        transferer
        (token_in ton 2)
        no_giver_world.db
        (record (wallet_of 4 ton transferer "secret") {
          secret_key = "secret";
          mnemonic = some "one two";
          balance = none;
          deployed = false;
        })
        v.db
    × (v.wallet_jobs ≡ [])
unfolding Repository.create save created_draft ◌>>=◌ pure lift gets modify Option.bind
create_wallet_strands_example =
    create_wallet_strands tables_laws (env_at 5 100) create_request no_giver_world
      (Repository.create tables (env_at 5 100) transferer (token_in ton 2) no_giver_world).1
      (token_in ton 2)
      (record (wallet_of 4 ton transferer "secret") {
        secret_key = "secret";
        mnemonic = some "one two";
        balance = none;
        deployed = false;
      })
      refl refl refl refl

run_ethereum_row_example :
    ((run_ethereum tables (env_at 5 100) giving_world).0 ≡ ok tt)
    × ((new : Wallet) × (tables.find_wallet (run_ethereum tables (env_at 5 100) giving_world).1.db 1
          ≡ some new)
        × Visited (InEthereum (env_at 5 100)) (wallet_of 1 ethereum transferer "w1") true new)
unfolding ethereum_balance
run_ethereum_row_example =
    run_ethereum_row tables_laws (env_at 5 100) giving_world 1
      (wallet_of 1 ethereum transferer "w1") refl

run_ton_row_example :
    ((run_ton tables (env_at 5 100) giving_world).0 ≡ ok tt)
    × ((new : Wallet) × (tables.find_wallet (run_ton tables (env_at 5 100) giving_world).1.db 2
          ≡ some new)
        × Visited (InTon (env_at 5 100)) (wallet_of 2 ton transferer "w2") true new)
run_ton_row_example =
    run_ton_row tables_laws (env_at 5 100) giving_world 2 (wallet_of 2 ton transferer "w2") refl

abbrev ton_setting : Setting
ton_setting = record {
  id = 1;
  blockchain = ton;
  decimals = 2;
  min_wallet_balance = "5";
  gas_fee = none;
}

dry_run_keeps_example :
    (serve tables
      (env_at 5 100)
      (Sending.deploying_wallet (record { address = "w2"; dry_run = true }))
      giving_world).1
    ≡ giving_world
dry_run_keeps_example =
    dry_run_keeps tables (env_at 5 100)
      (Sending.deploying_wallet (record { address = "w2"; dry_run = true })) giving_world refl

run_ethereum_fee_example :
    ((SyncGasFee.run_ethereum tables (env_at 5 100) giving_world).0 ≡ ok tt)
    × (tables.find_setting
          (SyncGasFee.run_ethereum tables (env_at 5 100) giving_world).1.db
          ethereum
        ≡ some (record ton_setting { blockchain = ethereum; gas_fee = some "200000" }))
run_ethereum_fee_example =
    run_ethereum_fee tables_laws (env_at 5 100) giving_world
      (some (record ton_setting { blockchain = ethereum })) refl

attach_wallet-Attaches_example :
    Attaches tables sealing_env attach_request giving_world attached_answer
      (attach_wallet tables sealing_env attach_request giving_world).1
unfolding attach_wallet Repository.find_one Repository.attach save attached_draft to_get_wallet
    quantity_to_text get_jetton_wallet_data ◌>>=◌ pure lift gets modify Option.bind
attach_wallet-Attaches_example =
    attach_wallet-Attaches tables_laws sealing_env attach_request giving_world attached_answer refl
