-- ===== src/Samples/Worlds.antt =====
-- Worlds, jobs and swaps that the tests run on.
use eth_ton_swap.Common.{◌==◌, err, if◌then◌else◌, ℕ, true, none, some, [], ◌∷◌}
use eth_ton_swap.Entities.{ethereum, transferer, SwapStatus, Swap}
use eth_ton_swap.World.{
  eth_destination_swaps, World, Job, JobData, eth_source_swaps, ton_destination_swaps,
}
use eth_ton_swap.Swaps.Controller.{create_swap, cancel_swap, first_in}
use eth_ton_swap.Swaps.Jobs.{ConfirmTransfer, WaitForTransferConfirmation, retried}
use eth_ton_swap.Swaps.Pipeline.{run_job}
use eth_ton_swap.Env.{Env}
use eth_ton_swap.Samples.{Tables, tables}
use eth_ton_swap.Samples.Chain.{env_at}
use eth_ton_swap.Samples.Rows.{wallet_of, empty_world, world_in, swap_in, request}

abbrev pub confirm_job : Job
confirm_job = record {
  queue = eth_source_swaps;
  payload = JobData.confirm_eth_transfer 0 100;
  options = first_in;
}

abbrev pub mint_job : Job
mint_job = record {
  queue = ton_destination_swaps;
  payload = JobData.mint_ton_jettons 0;
  options = retried 3 4000;
}

-- the swap that the request orders, found in the sample
abbrev pub ordered_swap : Swap
ordered_swap = record (swap_in SwapStatus.pending 0) {
  source_wallet = record (wallet_of 1 ethereum transferer "w1") { in_use = true };
}

abbrev pub waiting : World Tables
waiting = world_in SwapStatus.pending 0 (confirm_job ∷ [])

abbrev pub minting : World Tables
minting = world_in SwapStatus.confirmed 5 (mint_job ∷ [])

-- an order, and then its cancelling
abbrev pub cancelled_world : World Tables
cancelled_world =
    (cancel_swap tables (env_at 6 100) 0
      (create_swap tables (env_at 5 100) request "127.0.0.1" empty_world).1).1

abbrev pub confirmed_world : World Tables
confirmed_world =
    run_job tables (env_at 5 100) none confirm_job.payload (record waiting { jobs = [] })

abbrev pub first_confirmation : ConfirmTransfer
first_confirmation = record { swap_id = 0; block_number = 100 }

abbrev pub second_confirmation : WaitForTransferConfirmation
second_confirmation = record { swap_id = 0; transaction_id = some "abc"; confirmations = 2 }

-- a chain that is lost while a payout is waited for
abbrev pub losing_env : Env ℕ (Unit {0})
losing_env =
    let e = env_at 5 100 in
    record e { eth = record e.eth { wait_for_transaction = λ hash confirmations. err "timeout" } }

-- a swap that is paid out in Ethereum
abbrev pub paying_swap : Swap
paying_swap = record (swap_in SwapStatus.confirmed 1) {
  destination_wallet = some (wallet_of 1 ethereum transferer "w1");
}

abbrev pub paying_world : World Tables
paying_world =
    let w = world_in SwapStatus.confirmed 1 [] in
    record w { db = record w.db { swaps = λ j. if j == 0 then some paying_swap else none } }

abbrev pub payout_job : Job
payout_job = record {
  queue = eth_destination_swaps;
  payload = JobData.transfer_eth_tokens 0;
  options = retried 900 4000;
}

-- a swap whose receiver got jettons
abbrev pub minted_swap : Swap
minted_swap = record (swap_in SwapStatus.confirmed 5) { destination_address = "w1" }

abbrev pub minted_world : World Tables
minted_world = record paying_world {
  db = record paying_world.db { swaps = λ j. if j == 0 then some minted_swap else none };
}
