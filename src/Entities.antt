-- ===== src/Entities.antt =====
-- The entities that the service stores: src/tokens/token.entity.ts, src/wallets/wallet.entity.ts,
-- src/swaps/swap.entity.ts and the enumerations of their columns. An identifier is only compared,
-- so it is a number; a date is the number of its milliseconds; a nullable column is an `Option`.
use eth_ton_swap.Common.{List, [], ◌∷◌, ℕ, ◌+◌, ◌*◌, String, Bool, true, false, Option}

pub data Blockchain : Type 0 where
  ethereum ton : Blockchain

pub data WalletType : Type 0 where
  transferer collector minter giver : WalletType

pub data SwapStatus : Type 0 where
  pending confirmed completed expired failed canceled : SwapStatus

-- `getAllSwapStatuses`
abbrev pub all_swap_statuses : List SwapStatus
all_swap_statuses =
    SwapStatus.pending ∷ SwapStatus.confirmed ∷ SwapStatus.completed ∷ SwapStatus.expired
    ∷ SwapStatus.failed ∷ SwapStatus.canceled ∷ []

-- `===` on the enumerations
abbrev pub is_pending : SwapStatus → Bool
is_pending SwapStatus.pending = true
is_pending _ = false

abbrev pub is_completed : SwapStatus → Bool
is_completed SwapStatus.completed = true
is_completed _ = false

abbrev pub is_canceled : SwapStatus → Bool
is_canceled SwapStatus.canceled = true
is_canceled _ = false

abbrev pub is_ton : Blockchain → Bool
is_ton ton = true
is_ton ethereum = false

pub record Token : Type 0 where
  pub id : ℕ
  pub blockchain : Blockchain
  pub address : String
  pub conjugated_address : Option String
  pub name : String
  pub symbol : String
  pub decimals : ℕ
  pub min_swap_amount : String
  pub max_swap_amount : String
  pub coinmarketcap_id : Option ℕ
  pub price : Option String

pub record Wallet : Type 0 where
  pub id : ℕ
  pub secret_key : String
  pub mnemonic : Option String
  pub address : String
  pub conjugated_address : Option String
  pub balance : Option String
  pub token : Token
  pub type : WalletType
  pub deployed : Bool
  pub in_use : Bool
  pub disabled : Bool
  pub created_at : ℕ

-- `Setting` (src/settings/setting.entity.ts)
pub record Setting : Type 0 where
  pub id : ℕ
  pub blockchain : Blockchain
  pub decimals : ℕ
  pub min_wallet_balance : String
  pub gas_fee : Option String

-- A swap with its relations joined.
pub record Swap : Type 0 where
  pub id : ℕ
  pub source_token : Token
  pub source_address : Option String
  pub source_conjugated_address : Option String
  pub source_amount : String
  pub source_wallet : Wallet
  pub source_transaction_id : Option String
  pub destination_token : Token
  pub destination_address : String
  pub destination_conjugated_address : Option String
  pub destination_amount : Option String
  pub destination_wallet : Option Wallet
  pub destination_transaction_id : Option String
  pub fee : Option String
  pub collector_wallet : Wallet
  pub collector_transaction_id : Option String
  pub burn_transaction_id : Option String
  pub status : SwapStatus
  pub status_code : Option ℕ
  pub confirmations : ℕ
  pub ip_address : String
  pub ordered_at : ℕ
  pub created_at : ℕ
  pub expires_at : ℕ

-- src/swaps/constants.ts
abbrev pub swap_expiration_interval : ℕ
swap_expiration_interval = 20 * 60 * 1000

abbrev pub max_pending_swap_count_by_ip : ℕ
max_pending_swap_count_by_ip = 5

abbrev pub eth_total_confirmations : ℕ
eth_total_confirmations = 5

abbrev pub ton_total_confirmations : ℕ
ton_total_confirmations = 1

-- `get extendedExpiresAt`, `get ultimateExpiresAt`
unfoldable pub extended_expires_at : Swap → ℕ
extended_expires_at s = s.expires_at + swap_expiration_interval * 3

unfoldable pub ultimate_expires_at : Swap → ℕ
ultimate_expires_at s = s.expires_at + swap_expiration_interval * 12
