-- ===== src/Database.antt =====
-- The tables behind TypeORM's repositories, which are no code of this repository: their calls are
-- the fields of `Orm`, over a database that stays abstract, and `OrmLaws` states what TypeORM's
-- documentation says of them. A call that the database refuses is modelled only for `save`, since
-- the code handles no other.
use eth_ton_swap.Common.{
  ℕ, String, Bool, Option, none, some, List, ◌≡◌, ◌==◌, if◌then◌else◌, ok, Result, ◌≢◌, All,
}
use mathlib.Core.Option
use eth_ton_swap.Entities.{Blockchain, WalletType, SwapStatus, Token, Wallet, Setting, Swap}

-- `QueryDeepPartialEntity<Swap>`: the columns to write, `none` for one that is left alone.
pub record PartialSwap : Type 0 where
  pub source_address : Option String
  pub source_conjugated_address : Option String
  pub source_amount : Option String
  pub source_transaction_id : Option String
  pub destination_conjugated_address : Option String
  pub destination_amount : Option String
  pub destination_transaction_id : Option String
  pub fee : Option String
  pub collector_transaction_id : Option String
  pub burn_transaction_id : Option String
  pub status : Option SwapStatus
  pub status_code : Option ℕ
  pub confirmations : Option ℕ

pub record PartialWallet : Type 0 where
  pub mnemonic : Option String
  pub conjugated_address : Option String
  pub balance : Option String
  pub type : Option WalletType
  pub deployed : Option Bool
  pub in_use : Option Bool
  pub disabled : Option Bool

-- The fields of a new `Swap` that `save` is given; the database fills in the others.
pub record SwapDraft : Type 0 where
  pub source_amount : String
  pub source_token : Token
  pub source_wallet : Wallet
  pub destination_address : String
  pub destination_amount : String
  pub destination_token : Token
  pub destination_wallet : Option Wallet
  pub fee : String
  pub collector_wallet : Wallet
  pub ip_address : String
  pub ordered_at : ℕ
  pub expires_at : ℕ

-- The fields of a new `Wallet`, and of a new `Setting`.
pub record WalletDraft : Type 0 where
  pub type : WalletType
  pub token : Token
  pub address : String
  pub conjugated_address : Option String
  pub secret_key : String
  pub mnemonic : Option String
  pub balance : Option String
  pub deployed : Bool
  pub in_use : Bool
  pub disabled : Bool

pub record SettingDraft : Type 0 where
  pub blockchain : Blockchain
  pub decimals : ℕ
  pub min_wallet_balance : String

-- The conditions of `findAll`, one field for each that is set.
pub record WalletWhere : Type 0 where
  pub blockchain : Option Blockchain
  pub type : Option WalletType
  pub min_balance : Option String
  pub deployed : Option Bool
  pub in_use : Option Bool
  pub disabled : Option Bool
  pub has_conjugated_address : Option Bool

pub data WalletOrder : Type 0 where
  by_balance by_token_and_type : WalletOrder

-- The conditions of the counts of wallets, which are all of the type transferer.
pub record WalletCount : Type 0 where
  pub token_address : String
  pub deployed : Option Bool
  pub has_balance : Option Bool
  pub in_use : Option Bool
  pub disabled : Option Bool

pub record Orm (Db : Type 0) : Type 0 where
  pub find_swap : Db → ℕ → Option Swap
  pub save_swap : Db → SwapDraft → Result (Swap × Db)
  pub update_swap : Db → ℕ → PartialSwap → Db
  pub count_swaps : Db → String → SwapStatus → ℕ
  -- those whose identifier ends like this, newest first
  pub find_swaps_like : Db → String → List Swap
  -- those whose source token has this address
  pub count_swaps_from : Db → String → SwapStatus → ℕ
  pub count_wallets : Db → WalletCount → ℕ
  pub find_wallet : Db → ℕ → Option Wallet
  pub find_wallets : Db → WalletWhere → WalletOrder → List Wallet
  pub update_wallet : Db → ℕ → PartialWallet → Db
  -- a wallet by its blockchain and its address
  pub find_wallet_at : Db → Blockchain → String → Option Wallet
  pub save_wallet : Db → WalletDraft → Result (Wallet × Db)
  -- the database refuses to delete a wallet that a swap refers to
  pub delete_wallet : Db → ℕ → Result Db
  pub find_token : Db → ℕ → Option Token
  -- a token by its blockchain and its address
  pub find_token_at : Db → Blockchain → String → Option Token
  pub find_setting : Db → Blockchain → Option Setting
  pub find_settings : Db → List Setting
  pub save_setting : Db → SettingDraft → Result (Setting × Db)
  -- the gas fee
  pub update_setting : Db → ℕ → String → Db

-- The value of a column after an update.
abbrev pub assigned {ℓ} : {A : Type ℓ} → Option A → A → A
assigned none old = old
assigned (some new) old = new

abbrev pub assigned_nullable {ℓ} : {A : Type ℓ} → Option A → Option A → Option A
assigned_nullable none old = old
assigned_nullable (some new) old = some new

abbrev pub assign_swap : PartialSwap → Swap → Swap
assign_swap p s = record s {
  source_address = assigned_nullable p.source_address s.source_address;
  source_conjugated_address =
      assigned_nullable p.source_conjugated_address s.source_conjugated_address;
  source_amount = assigned p.source_amount s.source_amount;
  source_transaction_id = assigned_nullable p.source_transaction_id s.source_transaction_id;
  destination_conjugated_address =
      assigned_nullable p.destination_conjugated_address s.destination_conjugated_address;
  destination_amount = assigned_nullable p.destination_amount s.destination_amount;
  destination_transaction_id =
      assigned_nullable p.destination_transaction_id s.destination_transaction_id;
  fee = assigned_nullable p.fee s.fee;
  collector_transaction_id =
      assigned_nullable p.collector_transaction_id s.collector_transaction_id;
  burn_transaction_id = assigned_nullable p.burn_transaction_id s.burn_transaction_id;
  status = assigned p.status s.status;
  status_code = assigned_nullable p.status_code s.status_code;
  confirmations = assigned p.confirmations s.confirmations;
}

abbrev pub assign_wallet : PartialWallet → Wallet → Wallet
assign_wallet p v = record v {
  mnemonic = assigned_nullable p.mnemonic v.mnemonic;
  conjugated_address = assigned_nullable p.conjugated_address v.conjugated_address;
  balance = assigned_nullable p.balance v.balance;
  type = assigned p.type v.type;
  deployed = assigned p.deployed v.deployed;
  in_use = assigned p.in_use v.in_use;
  disabled = assigned p.disabled v.disabled;
}

-- A joined wallet is the row as it stands.
abbrev pub assign_joined : ℕ → PartialWallet → Wallet → Wallet
assign_joined i p v = if v.id == i then assign_wallet p v else v

abbrev pub assign_swap_wallets : ℕ → PartialWallet → Swap → Swap
assign_swap_wallets i p s = record s {
  source_wallet = assign_joined i p s.source_wallet;
  destination_wallet = Option.map (assign_joined i p) s.destination_wallet;
  collector_wallet = assign_joined i p s.collector_wallet;
}

-- The row that `save` adds: what it was given, and the columns' defaults.
pub record IsNewSwap (d : SwapDraft) (s : Swap) : Type 0 where
  pub source_amount : s.source_amount ≡ d.source_amount
  pub source_token : s.source_token.id ≡ d.source_token.id
  pub source_wallet : s.source_wallet.id ≡ d.source_wallet.id
  pub destination_address : s.destination_address ≡ d.destination_address
  pub destination_amount : s.destination_amount ≡ some d.destination_amount
  pub destination_token : s.destination_token.id ≡ d.destination_token.id
  pub fee : s.fee ≡ some d.fee
  pub collector_wallet : s.collector_wallet.id ≡ d.collector_wallet.id
  pub ip_address : s.ip_address ≡ d.ip_address
  pub expires_at : s.expires_at ≡ d.expires_at
  pub status : s.status ≡ SwapStatus.pending
  pub confirmations : s.confirmations ≡ 0

pub record IsNewWallet (d : WalletDraft) (v : Wallet) : Type 0 where
  pub type : v.type ≡ d.type
  pub token : v.token.id ≡ d.token.id
  pub address : v.address ≡ d.address
  pub conjugated_address : v.conjugated_address ≡ d.conjugated_address
  pub secret_key : v.secret_key ≡ d.secret_key
  pub mnemonic : v.mnemonic ≡ d.mnemonic
  pub balance : v.balance ≡ d.balance
  pub deployed : v.deployed ≡ d.deployed
  pub in_use : v.in_use ≡ d.in_use
  pub disabled : v.disabled ≡ d.disabled

-- A condition that is not set holds of every row.
abbrev pub Sets {ℓ} : {A : Type ℓ} → Option A → A → Type ℓ
Sets none a = Unit
Sets (some b) a = a ≡ b

pub record Meets (c : WalletWhere) (v : Wallet) : Type 0 where
  pub blockchain : Sets c.blockchain v.token.blockchain
  pub type : Sets c.type v.type
  pub deployed : Sets c.deployed v.deployed
  pub in_use : Sets c.in_use v.in_use
  pub disabled : Sets c.disabled v.disabled

pub record OrmLaws {Db : Type 0} (orm : Orm Db) : Type 0 where
  pub find_swap-update_swap :
      (d : Db) (i j : ℕ) (p : PartialSwap)
      → orm.find_swap (orm.update_swap d i p) j
        ≡ (if j == i then Option.map (assign_swap p) (orm.find_swap d j) else orm.find_swap d j)
  pub find_swap-update_wallet :
      (d : Db) (i j : ℕ) (p : PartialWallet)
      → orm.find_swap (orm.update_wallet d i p) j
        ≡ Option.map (assign_swap_wallets i p) (orm.find_swap d j)
  pub find_swap_id : (d : Db) (j : ℕ) (s : Swap) → orm.find_swap d j ≡ some s → s.id ≡ j
  pub find_swap_joins :
      (d : Db) (j : ℕ) (s : Swap)
      → orm.find_swap d j ≡ some s
      → orm.find_wallet d s.source_wallet.id ≡ some s.source_wallet
  pub save_swap_fresh :
      (d d' : Db) (draft : SwapDraft) (s : Swap)
      → orm.save_swap d draft ≡ ok (s, d')
      → orm.find_swap d s.id ≡ none
  pub save_swap_stored :
      (d d' : Db) (draft : SwapDraft) (s : Swap)
      → orm.save_swap d draft ≡ ok (s, d')
      → (row : Swap) × (orm.find_swap d' s.id ≡ some row) × IsNewSwap draft row
  pub find_swap-save_swap :
      (d d' : Db) (draft : SwapDraft) (s : Swap) (j : ℕ)
      → orm.save_swap d draft ≡ ok (s, d')
      → j ≢ s.id
      → orm.find_swap d' j ≡ orm.find_swap d j
  pub find_wallet-update_wallet :
      (d : Db) (i j : ℕ) (p : PartialWallet)
      → orm.find_wallet (orm.update_wallet d i p) j ≡ (
          if j == i
          then Option.map (assign_wallet p) (orm.find_wallet d j)
          else orm.find_wallet d j)
  pub find_wallet-update_swap :
      (d : Db) (i j : ℕ) (p : PartialSwap)
      → orm.find_wallet (orm.update_swap d i p) j ≡ orm.find_wallet d j
  pub find_wallet-save_swap :
      (d d' : Db) (draft : SwapDraft) (s : Swap) (j : ℕ)
      → orm.save_swap d draft ≡ ok (s, d')
      → orm.find_wallet d' j ≡ orm.find_wallet d j
  pub find_wallets_rows :
      (d : Db) (c : WalletWhere) (o : WalletOrder)
      → All (λ v. (orm.find_wallet d v.id ≡ some v) × Meets c v) (orm.find_wallets d c o)
  pub find_wallet_id : (d : Db) (j : ℕ) (v : Wallet) → orm.find_wallet d j ≡ some v → v.id ≡ j
  pub find_wallet_at_row :
      (d : Db) (b : Blockchain) (address : String) (v : Wallet)
      → orm.find_wallet_at d b address ≡ some v
      → (orm.find_wallet d v.id ≡ some v) × (v.token.blockchain ≡ b) × (v.address ≡ address)
  pub save_wallet_returns :
      (d d' : Db) (draft : WalletDraft) (v : Wallet)
      → orm.save_wallet d draft ≡ ok (v, d')
      → IsNewWallet draft v
  pub save_wallet_stored :
      (d d' : Db) (draft : WalletDraft) (v : Wallet)
      → orm.save_wallet d draft ≡ ok (v, d')
      → (row : Wallet) × (orm.find_wallet d' v.id ≡ some row) × IsNewWallet draft row
  pub find_wallet-save_wallet :
      (d d' : Db) (draft : WalletDraft) (v : Wallet) (j : ℕ)
      → orm.save_wallet d draft ≡ ok (v, d')
      → j ≢ v.id
      → orm.find_wallet d' j ≡ orm.find_wallet d j
  pub find_setting-update_setting :
      (d : Db) (i : ℕ) (gas_fee : String) (b : Blockchain) (s : Setting)
      → orm.find_setting d b ≡ some s
      → orm.find_setting (orm.update_setting d i gas_fee) b
        ≡ some (if s.id == i then record s { gas_fee = some gas_fee } else s)
