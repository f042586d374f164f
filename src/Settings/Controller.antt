-- ===== src/Settings/Controller.antt =====
-- src/settings/controllers/settings.controller.ts.
use eth_ton_swap.Common.{
  ℕ, String, Option, none, some, List, map, str_eq, Action, pure, throw, ◌>>=◌, ◌>>◌, if◌then◌else◌,
}
use eth_ton_swap.Common.Errors.{error_setting_already_exists}
use eth_ton_swap.Entities.{Blockchain, Setting}
use eth_ton_swap.Database.{Orm}
use eth_ton_swap.World.{World}
use eth_ton_swap.Env.{Env}
use eth_ton_swap.Settings.Repository

-- `CreateSettingDto`, which is the answer too
pub record CreateSettingRequest : Type 0 where
  pub blockchain : Blockchain
  pub decimals : ℕ
  pub min_wallet_balance : String

-- `GetSettingsDto`: the fee of each blockchain in the order of the rows
pub record GetSettings (Num : Type 0) : Type 0 where
  pub swap_fee : Num
  pub fees : List (Blockchain × String)

module _ {Num Slice : Type 0} (e : Env Num Slice) where
  -- `new BigNumber(setting.gasFee || 0)`
  abbrev fee_or_zero : Option String → Num
  fee_or_zero none = e.big.parse "0"
  fee_or_zero (some text) = if str_eq text "" then e.big.parse "0" else e.big.parse text

  abbrev shown_fee : Setting → Blockchain × String
  shown_fee setting =
      (setting.blockchain, e.big.to_fixed (fee_or_zero setting.gas_fee) setting.decimals)

module _ {Db Num Slice : Type 0} (orm : Orm Db) (e : Env Num Slice) where
  abbrev refuse_second : Option Setting → Action (World Db) (Unit {0})
  refuse_second none = pure tt
  refuse_second (some setting) = throw error_setting_already_exists

  -- `createSetting`
  unfoldable pub create_setting : CreateSettingRequest → Action (World Db) CreateSettingRequest
  create_setting r = do
    found ← Repository.find_one orm r.blockchain
    refuse_second found
    setting ← Repository.create orm e (record {
      blockchain = r.blockchain;
      decimals = r.decimals;
      min_wallet_balance = e.big.parse r.min_wallet_balance;
    })
    pure (record {
      blockchain = setting.blockchain;
      decimals = setting.decimals;
      min_wallet_balance = setting.min_wallet_balance;
    })

  -- `getSettings`
  unfoldable pub get_settings : Action (World Db) (GetSettings Num)
  get_settings = do
    settings ← Repository.find_all orm
    pure (record { swap_fee = e.swap_fee; fees = map (shown_fee e) settings })
