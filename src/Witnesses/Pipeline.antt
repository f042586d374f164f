-- ===== src/Witnesses/Pipeline.antt =====
-- The pipeline's theorems at concrete inputs.
use eth_ton_swap.Common.{ℕ, none, some, [], ◌∷◌, first, ◌≡◌, refl, inl, catching, ◌>>=◌, arith}
use eth_ton_swap.Common.Number.{quantity_to_text}
use eth_ton_swap.Entities.{SwapStatus, Swap, Wallet, extended_expires_at}
use eth_ton_swap.Wallets.Repository as Wallets
use eth_ton_swap.Swaps.Repository.{count, create}
use eth_ton_swap.World.{Request, JobData}
use eth_ton_swap.Swaps.Controller.{
  choose_destination_wallet, choose_collector_wallet, choose_source_wallet, store_swap, start_swap,
  run_confirm_swap_job, check_request, create_swap, cancel_swap,
}
use eth_ton_swap.Swaps.Helper.{calculate_destination_amount_and_fee}
use eth_ton_swap.Swaps.Stage.{stage}
use eth_ton_swap.Swaps.Stage.Runs.{Runs}
use eth_ton_swap.Swaps.Pipeline.{Reach, order, cancel, run, here, step, dropped, run_job}
use eth_ton_swap.Swaps.Pipeline.Fits.{IsConsistent, Follows}
use eth_ton_swap.Swaps.Pipeline.Consistency.{Reach-IsConsistent}
use eth_ton_swap.Swaps.Pipeline.LifeCycle.{Step-Follows, Reach-IsFinal}
use eth_ton_swap.Swaps.Pipeline.Payouts.{in_ton, Reach-PaysOut}
use eth_ton_swap.Swaps.Pipeline.Expiry.{Ends, in_eth, run_job_expires, run_job_cancels}
use eth_ton_swap.Swaps.Pipeline.Orders.{cancelled, CancelAllowed, cancel_swap-Runs}
use eth_ton_swap.Swaps.Pipeline.Placing.{Places, create_swap-Places}
use eth_ton_swap.Swaps.Pipeline.Leasing.{Leases, create_swap-Leases}
use eth_ton_swap.Swaps.Pipeline.Racing.{Shares, choose, race, race-Shares}
use eth_ton_swap.Swaps.Pipeline.Admission.{Admits, create_swap-Admits}
use eth_ton_swap.Swaps.Pipeline.Resending.{payout_resent}
use eth_ton_swap.Ethereum.{get_gas_price, transfer_tokens}
use eth_ton_swap.Swaps.EthDestination.{pay_out}
use eth_ton_swap.Samples.{tables}
use eth_ton_swap.Samples.Laws.{tables_laws}
use eth_ton_swap.Samples.Chain.{env_at}
use eth_ton_swap.Samples.Rows.{empty_world, world_in, swap_in, request}
use eth_ton_swap.Samples.Worlds.{
  confirm_job, mint_job, ordered_swap, waiting, minting, cancelled_world, confirmed_world,
  losing_env, paying_swap, paying_world, payout_job,
}

empty_world-IsConsistent : IsConsistent tables empty_world
empty_world-IsConsistent = record { fits = tt; distinct = tt }

waiting-IsConsistent : IsConsistent tables waiting
waiting-IsConsistent = record { fits = ((inl refl, refl), tt); distinct = (tt, tt) }

minting-IsConsistent : IsConsistent tables minting
minting-IsConsistent = record { fits = (((refl, refl), tt), tt); distinct = (tt, tt) }

cancelled-Reach : Reach ℕ (Unit {0}) tables empty_world cancelled_world
cancelled-Reach =
    step (step here (order (env_at 5 100) request "127.0.0.1")) (cancel (env_at 6 100) 0)

Reach-IsConsistent_example : IsConsistent tables cancelled_world
Reach-IsConsistent_example = Reach-IsConsistent tables_laws cancelled-Reach empty_world-IsConsistent

Step-Follows_example : Follows (stage tables waiting 0) (stage tables confirmed_world 0)
Step-Follows_example =
    Step-Follows tables_laws (run (env_at 5 100) confirm_job [] none first dropped)
      waiting-IsConsistent 0

Reach-IsFinal_example :
    stage tables (cancel_swap tables (env_at 6 100) 0 (world_in SwapStatus.completed 5 [])).1 0
    ≡ some (record { status = SwapStatus.completed; confirmations = 5 })
Reach-IsFinal_example =
    Reach-IsFinal tables_laws 0 (record { status = SwapStatus.completed; confirmations = 5 })
      (step here (cancel (env_at 6 100) 0)) (record { fits = tt; distinct = tt }) refl
      ((ground arith), (ground arith))

Reach-PaysOut_example :
    stage tables minting 0 ≡ some (record { status = SwapStatus.confirmed; confirmations = 5 })
Reach-PaysOut_example =
    Reach-PaysOut {Num = ℕ} {Slice = Unit {0}} tables_laws mint_job [] 0 5 here minting-IsConsistent
      first in_ton

run_job_expires_example :
    Ends tables waiting
      (swap_in SwapStatus.pending 0)
      SwapStatus.expired
      (run_job tables (env_at 1300000 100) none (JobData.confirm_eth_transfer 0 100) waiting)
run_job_expires_example =
    run_job_expires tables_laws (env_at 1300000 100) 0 _ none waiting (swap_in SwapStatus.pending 0)
      (in_eth 100) refl refl refl

run_job_cancels_example :
    Ends tables
      (world_in SwapStatus.canceled 0 [])
      (swap_in SwapStatus.canceled 0)
      SwapStatus.canceled
      (run_job tables
        (env_at 5 100)
        none
        (JobData.confirm_eth_transfer 0 100)
        (world_in SwapStatus.canceled 0 []))
run_job_cancels_example =
    run_job_cancels tables_laws (env_at 5 100) 0 _ none (world_in SwapStatus.canceled 0 [])
      (swap_in SwapStatus.canceled 0) (in_eth 100) refl refl

create_swap-Leases_example :
    (wallet : Wallet) × Leases tables
      (env_at 5 100)
      request
      empty_world
      ordered_swap
      wallet
      (create_swap tables (env_at 5 100) request "127.0.0.1" empty_world).1
unfolding create_swap ◌>>=◌ catching count choose_destination_wallet choose_collector_wallet
    Wallets.find_best_matched_one choose_source_wallet Wallets.update store_swap create start_swap
    run_confirm_swap_job quantity_to_text calculate_destination_amount_and_fee
create_swap-Leases_example =
    create_swap-Leases tables_laws (env_at 5 100) request "127.0.0.1" empty_world ordered_swap refl

abbrev second_order : Swap
second_order = record ordered_swap { id = 1; ip_address = "127.0.0.2" }

race-Shares_example :
    Shares tables ordered_swap second_order
      (race tables (env_at 5 100) request "127.0.0.1" request "127.0.0.2" empty_world).1
unfolding race choose check_request ◌>>=◌ catching count choose_destination_wallet
    choose_collector_wallet Wallets.find_best_matched_one choose_source_wallet Wallets.update
    store_swap create start_swap run_confirm_swap_job quantity_to_text
    calculate_destination_amount_and_fee
race-Shares_example =
    race-Shares tables_laws (env_at 5 100) request request "127.0.0.1" "127.0.0.2" empty_world
      ordered_swap second_order refl refl

create_swap-Places_example :
    Places tables empty_world (create_swap tables (env_at 5 100) request "127.0.0.1")
create_swap-Places_example =
    create_swap-Places tables_laws (env_at 5 100) request "127.0.0.1" empty_world

cancel_swap-Runs_example :
    Runs tables 0 cancelled CancelAllowed waiting (cancel_swap tables (env_at 5 100) 0)
cancel_swap-Runs_example = cancel_swap-Runs tables_laws (env_at 5 100) 0 waiting

create_swap-Admits_example : Admits tables (env_at 5 100) empty_world request "127.0.0.1"
unfolding create_swap ◌>>=◌ catching count choose_destination_wallet choose_collector_wallet
    Wallets.find_best_matched_one choose_source_wallet Wallets.update store_swap create start_swap
    run_confirm_swap_job quantity_to_text calculate_destination_amount_and_fee
create_swap-Admits_example =
    create_swap-Admits tables (env_at 5 100) request "127.0.0.1" empty_world ordered_swap refl

payout_resent_example :
    let w' =
      run_job tables losing_env (some payout_job) (JobData.transfer_eth_tokens 0) paying_world in
    (w'.db ≡ paying_world.db)
    × (w'.jobs ≡ payout_job ∷ paying_world.jobs)
    × ((r : Request) × (w'.requests ≡ r ∷ paying_world.requests))
unfolding pay_out get_gas_price transfer_tokens ◌>>=◌ extended_expires_at
payout_resent_example =
    payout_resent tables losing_env payout_job 0 paying_world
      (pay_out tables losing_env paying_swap paying_world).1 paying_swap "def" "timeout" refl refl
      refl refl
