-- ===== src/Settings/SyncGasFee/Fees.antt =====
-- What the gas fee task leaves: src/settings/tasks/sync-settings-gas-fee.task.ts.
use mathlib.Core.Option
use eth_ton_swap.Common.{
  ℕ, ==_refl, Option, none, some, Result, Result-cases, ok, err, pure, lift, gets, modify, catching,
  ◌>>=◌, ◌≡◌, refl, inl, inr,
}
use eth_ton_swap.Entities.{ethereum, Setting}
use eth_ton_swap.Database.{Orm, OrmLaws}
use eth_ton_swap.World.{World}
use eth_ton_swap.Env.{Env}
use eth_ton_swap.Settings.Repository
use eth_ton_swap.Settings.SyncGasFee.{sync, run_ethereum}

module _ {Num Slice : Type 0} (e : Env Num Slice) where
  -- The row with the fee of a transfer, to its decimals, if the greatest fee of a unit of gas is
  -- answered in wei: that fee in ethers, times the hundred thousand units that a transfer may take.
  abbrev pub with_fee : Result ℕ → Setting → Setting
  with_fee (ok wei) s = record s {
    gas_fee = some (
        e.big.to_fixed (e.big.times (e.big.parse (e.eth.format_ether wei)) (e.big.parse "100000"))
          s.decimals);
  }
  with_fee (err m) s = s

module _ {Db Num Slice : Type 0} {orm : Orm Db} (laws : OrmLaws orm) (e : Env Num Slice) where
  -- If the database obeys the laws, the gas fee task returns, and the setting of Ethereum, if
  -- one is stored, has the fee of a hundred thousand units of gas, each at the greatest fee
  -- that the network answers, in ethers and to the setting's decimals, and is otherwise as
  -- before; if that fee is not answered it stands, and if none is stored none is made.
  pub run_ethereum_fee :
      (w : World Db) (setting : Option Setting)
      → orm.find_setting w.db ethereum ≡ setting
      → ((run_ethereum orm e w).0 ≡ ok tt)
        × (orm.find_setting (run_ethereum orm e w).1.db ethereum
            ≡ Option.map (with_fee e e.eth.max_fee_per_gas) setting)
  unfolding run_ethereum sync catching ◌>>=◌ pure lift gets modify Repository.find_one
      Repository.update
  run_ethereum_fee w none found = rw found (refl, found)
  run_ethereum_fee w (some s) found = rw found (elim (Result-cases e.eth.max_fee_per_gas) [
    | inl (fee, answered) ↦ rw answered (
      refl,
      rw (laws.find_setting-update_setting w.db s.id _ ethereum s found, ==_refl s.id) refl,
    )
    | inr (m, failed) ↦ rw failed (refl, found)
  ])
