-- ===== src/Witnesses/Processors.antt =====
-- The theorems on processors, the helper and the errors at concrete inputs.
use eth_ton_swap.Common.{none, some, [], ◌∷◌, ◌≡◌, refl, ok, ◌>>=◌}
use eth_ton_swap.Common.Errors.{error_swap_expired, get_status_code}
use eth_ton_swap.Common.Errors.Codes.{get_status_code_injective}
use eth_ton_swap.Entities.{SwapStatus}
use eth_ton_swap.Wallets.Repository as Wallets
use eth_ton_swap.Swaps.Repository as Swaps
use eth_ton_swap.Swaps.Repository.{count, create, find_by_id}
use eth_ton_swap.Swaps.Helper.{swap_expired, recalculate_swap}
use eth_ton_swap.Swaps.Helper.Recalculation.{Recalculates, recalculate_swap-Recalculates}
use eth_ton_swap.Swaps.Helper.Release.{Closes, swap_expired-Closes}
use eth_ton_swap.Swaps.EthSource.{
  adjusted_swap, confirm_swap, confirm_eth_transfer, wait_for_eth_transfer_confirmation,
}
use eth_ton_swap.Swaps.EthSource.Outcome.{confirm_eth_transfer-Runs}
use eth_ton_swap.Swaps.EthDestination.{transfer_eth_tokens}
use eth_ton_swap.Swaps.TonSource.{confirm_ton_transfer}
use eth_ton_swap.Swaps.TonSource.Outcome.{confirm_ton_transfer-Runs}
use eth_ton_swap.Swaps.TonDestination.{mint_ton_jettons, get_ton_mint_transaction}
use eth_ton_swap.Swaps.Stage.Runs.{Runs}
use eth_ton_swap.Swaps.Results.{after_confirmation, ConfirmAllowed}
use eth_ton_swap.Ethereum.{get_block_with_transactions, find_transfer_log}
use eth_ton_swap.Swaps.EthSource.Credit.{Credits, confirm_eth_transfer-Credits}
use eth_ton_swap.Ton.Blockchain.{find_transaction, JettonOperation}
use eth_ton_swap.Ton.Blockchain.Search.{Searched, find_transaction-Searched}
use eth_ton_swap.Swaps.TonDestination.{find_minter_admin_wallet}
use eth_ton_swap.Swaps.TonSource.{confirm_jettons}
use eth_ton_swap.Swaps.TonSource.Credit as TonCredit
use eth_ton_swap.Swaps.TonSource.Credit.{confirm_ton_transfer-Credits}
use eth_ton_swap.Tokens.SyncTokensPrice.{run}
use eth_ton_swap.Tokens.SyncTokensPrice.Prices.{Swept, run-Swept}
use eth_ton_swap.Samples.Prices.{two_tokens, two_tokens_laws, listed_tokens, market}
use eth_ton_swap.Samples.{tables}
use eth_ton_swap.Samples.Laws.{tables_laws}
use eth_ton_swap.Samples.Chain.{env_at, hundredths, jetton_env, jetton_transaction}
use eth_ton_swap.Samples.Rows.{world_in, swap_in}
use eth_ton_swap.Samples.Worlds.{
  paying_swap, paying_world, minted_swap, minted_world, waiting, minting, first_confirmation,
  second_confirmation,
}
use eth_ton_swap.Common.Errors.{error_no_error}
use eth_ton_swap.Entities.{extended_expires_at}
use eth_ton_swap.Ethereum.{get_gas_price, transfer_tokens}
use eth_ton_swap.Ton.Contract.{mint_jettons}
use eth_ton_swap.Swaps.Helper.Closing.{closed}
use eth_ton_swap.Swaps.EthSource.Waiting.{Waits, wait_for_eth_transfer_confirmation-Waits}
use eth_ton_swap.Swaps.EthDestination.{pay_out, complete_payout}
use eth_ton_swap.Swaps.EthDestination.Paying.{Pays, transfer_eth_tokens-Pays}
use eth_ton_swap.Swaps.TonDestination.{complete_mint}
use eth_ton_swap.Swaps.TonDestination.Minting.{Mints, mint_ton_jettons-Mints}
use eth_ton_swap.Swaps.TonDestination.Delivering.{Delivers, get_ton_mint_transaction-Delivers}

get_status_code_injective_example : error_swap_expired ≡ error_swap_expired
unfolding get_status_code
get_status_code_injective_example =
    get_status_code_injective error_swap_expired error_swap_expired 1 refl refl

confirm_eth_transfer-Runs_example :
    Runs tables 0
      (after_confirmation 1)
      ConfirmAllowed
      waiting
      (confirm_eth_transfer tables (env_at 5 100) first_confirmation)
confirm_eth_transfer-Runs_example =
    confirm_eth_transfer-Runs tables_laws (env_at 5 100) first_confirmation waiting

wait_for_eth_transfer_confirmation-Waits_example :
    Waits tables
      (env_at 5 100)
      second_confirmation
      (swap_in SwapStatus.confirmed 1)
      (closed SwapStatus.confirmed none)
      (wait_for_eth_transfer_confirmation tables
        (env_at 5 100)
        second_confirmation
        (world_in SwapStatus.confirmed 1 [])).1
unfolding wait_for_eth_transfer_confirmation find_by_id ◌>>=◌ Swaps.update
wait_for_eth_transfer_confirmation-Waits_example =
    wait_for_eth_transfer_confirmation-Waits tables_laws (env_at 5 100) second_confirmation
      (world_in SwapStatus.confirmed 1 []) (swap_in SwapStatus.confirmed 1)
      (closed SwapStatus.confirmed none) refl refl

confirm_ton_transfer-Runs_example :
    Runs tables 0
      (after_confirmation 1)
      ConfirmAllowed
      waiting
      (confirm_ton_transfer tables (env_at 5 100) first_confirmation)
confirm_ton_transfer-Runs_example =
    confirm_ton_transfer-Runs tables_laws (env_at 5 100) first_confirmation waiting

mint_ton_jettons-Mints_example :
    Mints tables
      (env_at 5 100)
      (swap_in SwapStatus.confirmed 5)
      minting
      (closed SwapStatus.confirmed none)
      (mint_ton_jettons tables (env_at 5 100) 0 minting).1
unfolding mint_ton_jettons find_by_id ◌>>=◌ find_minter_admin_wallet Wallets.find_best_matched_one
    extended_expires_at mint_jettons
mint_ton_jettons-Mints_example =
    mint_ton_jettons-Mints tables_laws (env_at 5 100) 0 minting (swap_in SwapStatus.confirmed 5)
      (closed SwapStatus.confirmed none) refl refl

get_ton_mint_transaction-Delivers_example :
    Delivers tables jetton_env minted_swap minted_world
      (closed SwapStatus.completed (get_status_code error_no_error))
      (get_ton_mint_transaction tables jetton_env 0 minted_world).1
unfolding get_ton_mint_transaction find_by_id ◌>>=◌ find_minter_admin_wallet
    Wallets.find_best_matched_one extended_expires_at find_transaction complete_mint Swaps.update
get_ton_mint_transaction-Delivers_example =
    get_ton_mint_transaction-Delivers tables_laws jetton_env 0 minted_world minted_swap
      (closed SwapStatus.completed (get_status_code error_no_error)) refl refl

transfer_eth_tokens-Pays_example :
    Pays tables
      (env_at 5 100)
      paying_swap
      paying_world
      (closed SwapStatus.completed (get_status_code error_no_error))
      (transfer_eth_tokens tables (env_at 5 100) 0 paying_world).1
unfolding transfer_eth_tokens find_by_id ◌>>=◌ extended_expires_at pay_out complete_payout
    get_gas_price transfer_tokens Swaps.update
transfer_eth_tokens-Pays_example =
    transfer_eth_tokens-Pays tables_laws (env_at 5 100) 0 paying_world paying_swap
      (closed SwapStatus.completed (get_status_code error_no_error)) refl refl

swap_expired-Closes_example :
    Closes tables_laws
      (env_at 5 100)
      (swap_in SwapStatus.pending 0)
      SwapStatus.expired
      (get_status_code error_swap_expired)
      waiting
      (swap_expired tables (env_at 5 100) (swap_in SwapStatus.pending 0))
swap_expired-Closes_example =
    swap_expired-Closes tables_laws (env_at 5 100) waiting (swap_in SwapStatus.pending 0) refl

recalculate_swap-Recalculates_example :
    Recalculates
      (env_at 5 100)
      (swap_in SwapStatus.pending 0)
      500
      (recalculate_swap (env_at 5 100) (swap_in SwapStatus.pending 0) 500)
recalculate_swap-Recalculates_example =
    recalculate_swap-Recalculates (env_at 5 100) (swap_in SwapStatus.pending 0) 500

confirm_eth_transfer-Credits_example :
    Credits tables
      (env_at 5 200)
      first_confirmation
      (swap_in SwapStatus.pending 0)
      (confirm_eth_transfer tables (env_at 5 200) first_confirmation waiting).1
unfolding confirm_eth_transfer find_by_id ◌>>=◌ get_block_with_transactions find_transfer_log
    adjusted_swap recalculate_swap confirm_swap Swaps.update Wallets.update
confirm_eth_transfer-Credits_example =
    confirm_eth_transfer-Credits tables_laws (env_at 5 200) first_confirmation waiting
      (swap_in SwapStatus.pending 0)
      (record { status = SwapStatus.confirmed; status_code = none; transaction_id = some "abc" })
      refl refl refl

confirm_ton_transfer-Credits_example :
    TonCredit.Credits tables jetton_env waiting
      (swap_in SwapStatus.pending 0)
      (confirm_ton_transfer tables jetton_env first_confirmation waiting).1
unfolding confirm_ton_transfer find_by_id ◌>>=◌ find_transaction find_minter_admin_wallet
    Wallets.find_best_matched_one adjusted_swap recalculate_swap confirm_jettons Swaps.update
    Wallets.update
confirm_ton_transfer-Credits_example =
    confirm_ton_transfer-Credits tables_laws jetton_env first_confirmation waiting
      (swap_in SwapStatus.pending 0)
      (record { status = SwapStatus.confirmed; status_code = none; transaction_id = none }) refl
      refl refl

find_transaction-Searched_example :
    Searched jetton_env 0
      (some JettonOperation.internal_transfer)
      (jetton_transaction "received" ∷ [])
      (find_transaction jetton_env "w1" 0 (some JettonOperation.internal_transfer))
find_transaction-Searched_example =
    find_transaction-Searched jetton_env "w1" "w1" 0 (some JettonOperation.internal_transfer)
      (jetton_transaction "received" ∷ []) refl refl

run-Swept_example :
    ((run two_tokens hundredths market listed_tokens).0 ≡ ok tt)
    × Swept two_tokens hundredths market
        (run two_tokens hundredths market listed_tokens).1
        (two_tokens.find_tokens listed_tokens)
run-Swept_example = run-Swept two_tokens_laws hundredths market listed_tokens
