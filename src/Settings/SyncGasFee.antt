-- ===== src/Settings/SyncGasFee.antt =====
-- src/settings/tasks/sync-settings-gas-fee.task.ts: the hourly task that stores the fee of a token
-- transfer on Ethereum. What is logged is left out.
pub mod Fees
use eth_ton_swap.Common.{Option, none, some, Action, pure, lift, catching, ◌>>=◌, ◌>>◌}
use eth_ton_swap.Entities.{Blockchain, ethereum, Setting}
use eth_ton_swap.Database.{Orm}
use eth_ton_swap.World.{World}
use eth_ton_swap.Env.{Env}
use eth_ton_swap.Ethereum.{get_max_fee_per_gas, calculate_token_gas_fee}
use eth_ton_swap.Settings.Repository

module _ {Db Num Slice : Type 0} (orm : Orm Db) (e : Env Num Slice) where
  sync : Option Setting → Action (World Db) (Unit {0})
  sync none = pure tt
  sync (some setting) = do
    max_fee_per_gas ← lift (get_max_fee_per_gas e)
    Repository.update orm e setting.id (record {
      decimals = setting.decimals;
      gas_fee = calculate_token_gas_fee e max_fee_per_gas;
    })

  -- `runEthereum`
  unfoldable pub run_ethereum : Action (World Db) (Unit {0})
  unfolding sync
  run_ethereum = catching (Repository.find_one orm ethereum >>= sync) (λ message. pure tt)
