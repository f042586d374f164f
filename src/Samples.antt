-- ===== src/Samples.antt =====
-- A small database that meets the laws of `OrmLaws`, for the tests.
pub mod WalletLaws
pub mod Laws
pub mod Chain
pub mod Rows
pub mod Worlds
pub mod Wallets
pub mod Prices
use eth_ton_swap.Common.{
  ℕ, ◌+◌, suc, zero, String, str_eq, Bool, true, false, ◌&&◌, Option, none, some, List, [], ◌∷◌,
  Result, ok, err, ltb, ◌==◌, if◌then◌else◌,
}
use mathlib.Core.Option
use eth_ton_swap.Entities.{
  Blockchain, ethereum, ton, WalletType, transferer, collector, minter, giver, SwapStatus, pending,
  confirmed, completed, expired, failed, canceled, Token, Wallet, Setting, Swap,
}
use eth_ton_swap.Database.{
  Orm, PartialSwap, PartialWallet, SwapDraft, WalletDraft, SettingDraft, WalletWhere, WalletOrder,
  assign_swap, assign_wallet, assign_swap_wallets,
}

-- Rows by their identifiers. A swap that refers to no wallet is not found.
pub record Tables : Type 0 where
  pub next_swap : ℕ
  pub swaps : ℕ → Option Swap
  pub wallets : ℕ → Option Wallet
  pub tokens : ℕ → Option Token
  pub wallet_ids : List ℕ
  pub settings : Blockchain → Option Setting

abbrev pub with_id : ℕ → Wallet → Wallet
with_id i v = record v { id = i }

abbrev pub wallet_row : (ℕ → Option Wallet) → ℕ → Option Wallet
wallet_row wallets i = Option.map (with_id i) (wallets i)

abbrev pub find_wallet : Tables → ℕ → Option Wallet
find_wallet d i = wallet_row d.wallets i

abbrev pub joined : ℕ → Swap → Option Wallet → Option Swap
joined j s none = none
joined j s (some v) = some (record s { id = j; source_wallet = v })

abbrev pub row : (ℕ → Option Wallet) → ℕ → Option Swap → Option Swap
row wallets j none = none
row wallets j (some s) = joined j s (wallet_row wallets s.source_wallet.id)

abbrev pub find_swap : Tables → ℕ → Option Swap
find_swap d j = if ltb j d.next_swap then row d.wallets j (d.swaps j) else none

abbrev pub update_swap : Tables → ℕ → PartialSwap → Tables
update_swap d i p = record d {
  swaps = λ j. if j == i then Option.map (assign_swap p) (d.swaps j) else d.swaps j;
}

abbrev pub update_wallet : Tables → ℕ → PartialWallet → Tables
update_wallet d i p = record d {
  swaps = λ j. Option.map (assign_swap_wallets i p) (d.swaps j);
  wallets = λ k. if k == i then Option.map (assign_wallet p) (d.wallets k) else d.wallets k;
}

abbrev pub new_swap : ℕ → SwapDraft → Wallet → Swap
new_swap id d source_wallet = record {
  id = id;
  source_token = d.source_token;
  source_address = none;
  source_conjugated_address = none;
  source_amount = d.source_amount;
  source_wallet = source_wallet;
  source_transaction_id = none;
  destination_token = d.destination_token;
  destination_address = d.destination_address;
  destination_conjugated_address = none;
  destination_amount = some d.destination_amount;
  destination_wallet = d.destination_wallet;
  destination_transaction_id = none;
  fee = some d.fee;
  collector_wallet = d.collector_wallet;
  collector_transaction_id = none;
  burn_transaction_id = none;
  status = pending;
  status_code = none;
  confirmations = 0;
  ip_address = d.ip_address;
  ordered_at = d.ordered_at;
  created_at = d.ordered_at;
  expires_at = d.expires_at;
}

abbrev pub save_with : Tables → SwapDraft → Option Wallet → Result (Swap × Tables)
save_with d draft none = err "violates foreign key constraint"
save_with d draft (some v) =
    let s = new_swap d.next_swap draft v in
    ok (
      s,
      record d {
        next_swap = suc d.next_swap;
        swaps = λ j. if j == d.next_swap then some s else d.swaps j;
      },
    )

abbrev pub save_swap : Tables → SwapDraft → Result (Swap × Tables)
save_swap d draft = save_with d draft (find_wallet d draft.source_wallet.id)

abbrev status_index : SwapStatus → ℕ
status_index pending = 0
status_index confirmed = 1
status_index completed = 2
status_index expired = 3
status_index failed = 4
status_index canceled = 5

abbrev counted : String → SwapStatus → Option Swap → ℕ
counted ip_address status none = 0
counted ip_address status (some s) =
    if str_eq s.ip_address ip_address && (status_index s.status == status_index status)
    then 1
    else 0

abbrev count_below : Tables → String → SwapStatus → ℕ → ℕ
count_below d ip_address status zero = 0
count_below d ip_address status (suc n) =
    counted ip_address status (find_swap d n) + count_below d ip_address status n

abbrev pub same_blockchain : Blockchain → Blockchain → Bool
same_blockchain ethereum ethereum = true
same_blockchain ton ton = true
same_blockchain _ _ = false

abbrev pub same_type : WalletType → WalletType → Bool
same_type transferer transferer = true
same_type collector collector = true
same_type minter minter = true
same_type giver giver = true
same_type _ _ = false

abbrev pub same_flag : Bool → Bool → Bool
same_flag true true = true
same_flag false false = true
same_flag _ _ = false

abbrev pub sets : {A : Type 0} → (A → A → Bool) → Option A → A → Bool
sets same none a = true
sets same (some b) a = same a b

abbrev pub meets : WalletWhere → Wallet → Bool
meets c v =
    sets same_blockchain c.blockchain v.token.blockchain
    && (sets same_type c.type v.type
        && (sets same_flag c.deployed v.deployed
            && (sets same_flag c.in_use v.in_use && sets same_flag c.disabled v.disabled)))

abbrev pub kept_if : WalletWhere → Option Wallet → List Wallet → List Wallet
kept_if c none rest = rest
kept_if c (some v) rest = if meets c v then v ∷ rest else rest

abbrev pub matching : Tables → WalletWhere → List ℕ → List Wallet
matching d c [] = []
matching d c (i ∷ ids) = kept_if c (find_wallet d i) (matching d c ids)

-- the wallet at an address, and the token at one among the first two
abbrev pub is_at : Blockchain → String → Wallet → Bool
is_at b address v = same_blockchain b v.token.blockchain && str_eq v.address address

abbrev pub at_or : Blockchain → String → Option Wallet → Option Wallet → Option Wallet
at_or b address none rest = rest
at_or b address (some v) rest = if is_at b address v then some v else rest

abbrev pub find_at : Tables → Blockchain → String → List ℕ → Option Wallet
find_at d b address [] = none
find_at d b address (i ∷ ids) = at_or b address (find_wallet d i) (find_at d b address ids)

abbrev token_or : Blockchain → String → Option Token → Option Token → Option Token
token_or b address none rest = rest
token_or b address (some t) rest =
    if same_blockchain b t.blockchain && str_eq t.address address then some t else rest

abbrev pub fresh : List ℕ → ℕ
fresh [] = 1
fresh (i ∷ ids) = i + fresh ids

abbrev pub new_wallet : ℕ → WalletDraft → Wallet
new_wallet id d = record {
  id = id;
  secret_key = d.secret_key;
  mnemonic = d.mnemonic;
  address = d.address;
  conjugated_address = d.conjugated_address;
  balance = d.balance;
  token = d.token;
  type = d.type;
  deployed = d.deployed;
  in_use = d.in_use;
  disabled = d.disabled;
  created_at = 0;
}

abbrev pub save_wallet : Tables → WalletDraft → Result (Wallet × Tables)
save_wallet d draft =
    let id = fresh d.wallet_ids in
    ok (
      new_wallet id draft,
      record d {
        wallets = λ j. if j == id then some (new_wallet id draft) else d.wallets j;
        wallet_ids = id ∷ d.wallet_ids;
      },
    )

abbrev remove : ℕ → List ℕ → List ℕ
remove i [] = []
remove i (j ∷ ids) = if j == i then remove i ids else j ∷ remove i ids

-- no swap of the samples refers to a wallet that a test deletes
abbrev pub delete_wallet : Tables → ℕ → Result Tables
delete_wallet d i = ok (record d {
  wallets = λ j. if j == i then none else d.wallets j;
  wallet_ids = remove i d.wallet_ids;
})

abbrev pub find_setting : Tables → Blockchain → Option Setting
find_setting d b = Option.map (λ (s : Setting). record s { blockchain = b }) (d.settings b)

abbrev kept : Option Setting → List Setting → List Setting
kept none rest = rest
kept (some s) rest = s ∷ rest

abbrev pub save_setting : Tables → SettingDraft → Result (Setting × Tables)
save_setting d draft =
    let s : Setting = record {
      id = 9;
      blockchain = draft.blockchain;
      decimals = draft.decimals;
      min_wallet_balance = draft.min_wallet_balance;
      gas_fee = none;
    } in
    ok (
      s,
      record d {
        settings = λ b. if same_blockchain b draft.blockchain then some s else d.settings b;
      },
    )

abbrev with_fee : ℕ → String → Setting → Setting
with_fee i gas_fee s = if s.id == i then record s { gas_fee = some gas_fee } else s

abbrev pub update_setting : Tables → ℕ → String → Tables
update_setting d i gas_fee = record d {
  settings = λ b. Option.map (with_fee i gas_fee) (d.settings b);
}

abbrev pub tables : Orm Tables
tables = record {
  find_swap = find_swap;
  save_swap = save_swap;
  update_swap = update_swap;
  count_swaps = λ d ip_address status. count_below d ip_address status d.next_swap;
  find_swaps_like = λ d text. [];
  count_swaps_from = λ d address status. 0;
  count_wallets = λ d count. 0;
  find_wallet = find_wallet;
  find_wallets = λ d c order. matching d c d.wallet_ids;
  update_wallet = update_wallet;
  find_token = λ d i. d.tokens i;
  find_wallet_at = λ d b address. find_at d b address d.wallet_ids;
  save_wallet = save_wallet;
  delete_wallet = delete_wallet;
  find_token_at =
      λ d b address. token_or b address (d.tokens 1) (token_or b address (d.tokens 2) none);
  find_setting = find_setting;
  find_settings = λ d. kept (find_setting d ethereum) (kept (find_setting d ton) []);
  save_setting = save_setting;
  update_setting = update_setting;
}
