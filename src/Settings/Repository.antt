-- ===== src/Settings/Repository.antt =====
-- src/settings/providers/settings.repository.ts.
use eth_ton_swap.Common.{ℕ, Option, List, Result, ok, err, Action, gets, modify}
use eth_ton_swap.Entities.{Blockchain, Setting}
use eth_ton_swap.Database.{Orm}
use eth_ton_swap.World.{World}
use eth_ton_swap.Env.{Env}

-- `CreateSetting` and `UpdateSetting`
pub record CreateSetting (Num : Type 0) : Type 0 where
  pub blockchain : Blockchain
  pub decimals : ℕ
  pub min_wallet_balance : Num

pub record UpdateSetting (Num : Type 0) : Type 0 where
  pub decimals : ℕ
  pub gas_fee : Num

module _ {Db : Type 0} where
  abbrev saved : World Db → Result (Setting × Db) → Result Setting × World Db
  saved w (ok (setting, db')) = (ok setting, record w { db = db' })
  saved w (err message) = (err message, w)

module _ {Db Num Slice : Type 0} (orm : Orm Db) (e : Env Num Slice) where
  unfoldable pub create : CreateSetting Num → Action (World Db) Setting
  create s w = saved w (
      orm.save_setting w.db (record {
        blockchain = s.blockchain;
        decimals = s.decimals;
        min_wallet_balance = e.big.to_fixed s.min_wallet_balance s.decimals;
      }))

  unfoldable pub update : ℕ → UpdateSetting Num → Action (World Db) (Unit {0})
  update id u =
      modify
        (λ w. record w { db = orm.update_setting w.db id (e.big.to_fixed u.gas_fee u.decimals) })

module _ {Db : Type 0} (orm : Orm Db) where
  unfoldable pub find_all : Action (World Db) (List Setting)
  find_all = gets (λ w. orm.find_settings w.db)

  unfoldable pub find_one : Blockchain → Action (World Db) (Option Setting)
  find_one blockchain = gets (λ w. orm.find_setting w.db blockchain)
