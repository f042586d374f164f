-- ===== src/Wallets/SyncTokenBalance.antt =====
-- src/wallets/tasks/sync-wallets-token-balance.task.ts: the hourly tasks that store the balances of
-- wallets. The pause between two wallets and what is logged are left out.
pub mod Balances
pub mod Rows
use eth_ton_swap.Common.{
  String, true, false, Option, none, some, List, [], ◌∷◌, Result, ok, Action, pure, lift, catching,
  ◌>>=◌, ◌>>◌,
}
use mathlib.Core.Option
use eth_ton_swap.Common.Fallible.{◌>>=◌ as bind, otherwise}
use eth_ton_swap.Entities.{Blockchain, ethereum, ton, Wallet}
use eth_ton_swap.Database.{Orm, by_token_and_type}
use eth_ton_swap.World.{World}
use eth_ton_swap.Env.{Env}
use eth_ton_swap.Ethereum.{create_token_contract, get_token_balance}
use eth_ton_swap.Ton.Blockchain.{non_empty}
use eth_ton_swap.Ton.Contract.{get_jetton_wallet_data}
use eth_ton_swap.Wallets.Repository
use eth_ton_swap.Wallets.Repository.{FindAllWallets, any_wallet, set_balance}

module _ {Num Slice : Type 0} (e : Env Num Slice) where
  -- the balance of the jetton wallet, and zero where the client throws
  abbrev pub jetton_balance : String → Num
  jetton_balance conjugated_address =
      otherwise (e.big.parse "0")
        (bind (get_jetton_wallet_data e conjugated_address) (λ answer. ok answer.balance))

  -- What is stored of a wallet on Ethereum.
  unfoldable pub ethereum_balance : Wallet → Result (Option Num)
  ethereum_balance wallet =
      bind (create_token_contract e wallet.token.address wallet.secret_key) (λ contract.
        bind (get_token_balance e contract wallet.address wallet.token.decimals)
          (λ balance. ok (some balance)))

  -- And on TON: a wallet with no conjugated address is passed over.
  unfoldable pub ton_balance : Wallet → Result (Option Num)
  ton_balance wallet =
      ok (Option.map jetton_balance (Option.bind wallet.conjugated_address non_empty))

abbrev pub free_ethereum_wallets : {Num : Type 0} → FindAllWallets Num
free_ethereum_wallets = record any_wallet {
  blockchain = some ethereum;
  in_use = some false;
  disabled = some false;
}

abbrev pub ton_wallets : {Num : Type 0} → FindAllWallets Num
ton_wallets = record any_wallet { blockchain = some ton; disabled = some false }

module _ {Db Num Slice : Type 0} (orm : Orm Db) (e : Env Num Slice) where
  abbrev pub store_balance : Wallet → Num → Action (World Db) (Unit {0})
  store_balance wallet balance =
      Repository.update orm e wallet.id
        (set_balance (record { quantity = balance; decimals = wallet.token.decimals }))

  abbrev pub store : Wallet → Option Num → Action (World Db) (Unit {0})
  store wallet none = pure tt
  store wallet (some balance) = store_balance wallet balance

  -- the loop over the wallets: the first call that throws ends it
  unfoldable pub sync : (Wallet → Result (Option Num)) → List Wallet → Action (World Db) (Unit {0})
  sync balance_of [] = pure tt
  sync balance_of (wallet ∷ wallets) = do
    balance ← lift (balance_of wallet)
    store wallet balance
    sync balance_of wallets

  -- `runEthereum` and `runTon`; no wallet is an empty loop
  unfoldable pub run_ethereum : Action (World Db) (Unit {0})
  run_ethereum =
      catching
        (Repository.find_all orm e free_ethereum_wallets by_token_and_type
          >>= sync (ethereum_balance e))
        (λ message. pure tt)

  unfoldable pub run_ton : Action (World Db) (Unit {0})
  run_ton =
      catching (Repository.find_all orm e ton_wallets by_token_and_type >>= sync (ton_balance e))
        (λ message. pure tt)
