-- ===== src/Samples/WalletLaws.antt =====
-- The sample database meets the laws on wallets and settings.
use eth_ton_swap.Common.{
  ℕ, String, true, Option, none, some, List, [], ◌∷◌, ok_inj, ok, subst, ◌==◌, if◌then◌else◌, ◌≡◌,
  ◌≢◌, inl, inr, refl, sym, ==_refl, Bool-cases, Option-cases, arith,
}
use mathlib.Core.Option.{some_inj}
use text.Mathlib.TextEquality.{eq_iff}
use eth_ton_swap.Entities.{Wallet, Setting, Blockchain}
use eth_ton_swap.Database.{IsNewWallet, WalletDraft}
use eth_ton_swap.Samples.{
  Tables, find_wallet, same_blockchain, find_at, is_at, at_or, fresh, find_setting, update_setting,
  save_wallet, new_wallet,
}

pub same_blockchain_sound : (a b : Blockchain) → same_blockchain a b ≡ true → a ≡ b
same_blockchain_sound a b h = ground arith

pub find_wallet_id : (d : Tables) (j : ℕ) (v : Wallet) → find_wallet d j ≡ some v → v.id ≡ j
find_wallet_id d j v h = ground (arith, Option-cases (d.wallets j), h)

abbrev pub At : Tables → Blockchain → String → Wallet → Type 0
At d b address v = (find_wallet d v.id ≡ some v) × (v.token.blockchain ≡ b) × (v.address ≡ address)

is_at-At :
    (d : Tables) (b : Blockchain) (address : String) (i : ℕ) (u : Wallet)
    → find_wallet d i ≡ some u
    → is_at b address u ≡ true
    → At d b address u
is_at-At d b address i u found h = (
  subst (λ j. find_wallet d j ≡ some u) (sym (find_wallet_id d i u found)) found,
  sym (same_blockchain_sound b u.token.blockchain (ground (arith, h))),
  ground (arith, eq_iff u.address address, h),
)

at_or-At :
    (d : Tables) (b : Blockchain) (address : String) (v : Wallet) (i : ℕ) (o rest : Option Wallet)
    → find_wallet d i ≡ o
    → (rest ≡ some v → At d b address v)
    → at_or b address o rest ≡ some v
    → At d b address v
at_or-At d b address v i none rest found k h = k h
at_or-At d b address v i (some u) rest found k h = elim (Bool-cases (is_at b address u)) [
  | inl met ↦ subst (At d b address) (some_inj.0 (rw met at h)) (is_at-At d b address i u found met)
  | inr missed ↦ k (rw missed at h)
]

pub find_at-At :
    (d : Tables) (b : Blockchain) (address : String) (v : Wallet) (ids : List ℕ)
    → find_at d b address ids ≡ some v
    → At d b address v
find_at-At d b address v [] h = ground (arith, h)
find_at-At d b address v (i ∷ ids) h =
    at_or-At d b address v i (find_wallet d i) _ refl (find_at-At d b address v ids) h

new_wallet-IsNewWallet : (id : ℕ) (draft : WalletDraft) → IsNewWallet draft (new_wallet id draft)
new_wallet-IsNewWallet id draft = record {
  type = refl;
  token = refl;
  address = refl;
  conjugated_address = refl;
  secret_key = refl;
  mnemonic = refl;
  balance = refl;
  deployed = refl;
  in_use = refl;
  disabled = refl;
}

pub save_wallet_returns :
    (d d' : Tables) (draft : WalletDraft) (v : Wallet)
    → save_wallet d draft ≡ ok (v, d')
    → IsNewWallet draft v
save_wallet_returns d d' draft v h =
    subst (λ x. IsNewWallet draft x.0) (ok_inj h)
      (new_wallet-IsNewWallet (fresh d.wallet_ids) draft)

pub save_wallet_stored :
    (d d' : Tables) (draft : WalletDraft) (v : Wallet)
    → save_wallet d draft ≡ ok (v, d')
    → (row : Wallet) × (find_wallet d' v.id ≡ some row) × IsNewWallet draft row
save_wallet_stored d d' draft v h =
    let id = fresh d.wallet_ids in
    subst (λ x. (row : Wallet) × (find_wallet x.1 x.0.id ≡ some row) × IsNewWallet draft row)
      (ok_inj h) (new_wallet id draft, rw (==_refl id) refl, new_wallet-IsNewWallet id draft)

pub find_wallet-save_wallet :
    (d d' : Tables) (draft : WalletDraft) (v : Wallet) (j : ℕ)
    → save_wallet d draft ≡ ok (v, d')
    → j ≢ v.id
    → find_wallet d' j ≡ find_wallet d j
find_wallet-save_wallet d d' draft v j h =
    subst (λ x. j ≢ x.0.id → find_wallet x.1 j ≡ find_wallet d j) (ok_inj h)
      (λ other. ground (arith, other))

pub find_setting-update_setting :
    (d : Tables) (i : ℕ) (gas_fee : String) (b : Blockchain) (s : Setting)
    → find_setting d b ≡ some s
    → find_setting (update_setting d i gas_fee) b
      ≡ some (if s.id == i then record s { gas_fee = some gas_fee } else s)
find_setting-update_setting d i gas_fee b s h = ground (arith, Option-cases (d.settings b))
