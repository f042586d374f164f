-- ===== src/Wallets/Repository/Interfaces.antt =====
-- src/wallets/interfaces: what the repository of wallets is given and answers.
use eth_ton_swap.Common.{ℕ, String, Bool, Option, none, some, List, [], ◌∷◌}
use eth_ton_swap.Common.Number.{Quantity}
use eth_ton_swap.Entities.{Blockchain, WalletType, Token}

-- `UpdateWallet`: a field that is `undefined` is `none`.
pub record UpdateWallet (Num : Type 0) : Type 0 where
  pub mnemonic : Option String
  pub conjugated_address : Option String
  pub balance : Option (Quantity Num)
  pub type : Option WalletType
  pub deployed : Option Bool
  pub in_use : Option Bool
  pub disabled : Option Bool

-- `{ inUse: … }`, and `{ balance: … }`
abbrev pub set_in_use : {Num : Type 0} → Bool → UpdateWallet Num
set_in_use flag = record {
  mnemonic = none;
  conjugated_address = none;
  balance = none;
  type = none;
  deployed = none;
  in_use = some flag;
  disabled = none;
}

abbrev pub set_balance : {Num : Type 0} → Quantity Num → UpdateWallet Num
set_balance amount = record {
  mnemonic = none;
  conjugated_address = none;
  balance = some amount;
  type = none;
  deployed = none;
  in_use = none;
  disabled = none;
}

abbrev pub no_update : {Num : Type 0} → UpdateWallet Num
no_update = record {
  mnemonic = none;
  conjugated_address = none;
  balance = none;
  type = none;
  deployed = none;
  in_use = none;
  disabled = none;
}

-- `AttachWallet`
pub record AttachWallet (Num : Type 0) : Type 0 where
  pub secret_key : String
  pub mnemonic : Option String
  pub address : String
  pub conjugated_address : Option String
  pub balance : Quantity Num
  pub token : Token
  pub type : WalletType

-- `FindAllWallets`
pub record FindAllWallets (Num : Type 0) : Type 0 where
  pub blockchain : Option Blockchain
  pub type : Option WalletType
  pub min_balance : Option Num
  pub deployed : Option Bool
  pub in_use : Option Bool
  pub disabled : Option Bool
  pub has_conjugated_address : Option Bool

abbrev pub any_wallet : {Num : Type 0} → FindAllWallets Num
any_wallet = record {
  blockchain = none;
  type = none;
  min_balance = none;
  deployed = none;
  in_use = none;
  disabled = none;
  has_conjugated_address = none;
}

-- `FindBestMatchedWallet`
pub record FindBestMatchedWallet (Num : Type 0) : Type 0 where
  pub blockchain : Blockchain
  pub type : WalletType
  pub min_balance : Option Num
  pub in_use : Option Bool

-- `WalletsStats`
pub record WalletsStats : Type 0 where
  pub total : ℕ
  pub available : ℕ
  pub in_use : ℕ
  pub disabled : ℕ

abbrev pub head? {ℓ} : {A : Type ℓ} → List A → Option A
head? [] = none
head? (x ∷ xs) = some x
