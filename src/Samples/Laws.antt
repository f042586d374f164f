-- ===== src/Samples/Laws.antt =====
-- The sample database meets the laws.
use eth_ton_swap.Common.{
  ℕ, suc, Bool, true, false, Option, none, some, List, [], ◌∷◌, ok_inj, ok, subst, All, ltb, ◌==◌,
  if◌then◌else◌, ◌≡◌, ◌≢◌, inl, inr, refl, ap, sym, ◌∙◌, ==_refl, Bool-cases, Option-cases, arith,
}
use mathlib.Core.Option
use mathlib.Core.Option.{some_inj}
use eth_ton_swap.Entities.{Swap, Wallet, WalletType}
use eth_ton_swap.Database.{
  PartialSwap, PartialWallet, SwapDraft, WalletWhere, OrmLaws, IsNewSwap, Meets, Sets, assign_swap,
  assign_wallet, assign_swap_wallets, assign_joined,
}
use eth_ton_swap.Samples.{
  Tables, with_id, find_wallet, wallet_row, joined, row, find_swap, update_swap, update_wallet,
  new_swap, save_with, save_swap, same_blockchain, same_type, same_flag, sets, meets, matching,
  tables,
}
use eth_ton_swap.Samples.WalletLaws.{
  same_blockchain_sound, find_wallet_id, find_at-At, save_wallet_returns, save_wallet_stored,
  find_wallet-save_wallet, find_setting-update_setting,
}

joined-assign :
    (p : PartialSwap) (j : ℕ) (s : Swap) (o : Option Wallet)
    → joined j (assign_swap p s) o ≡ Option.map (assign_swap p) (joined j s o)
joined-assign p j s none = refl
joined-assign p j s (some v) = refl

row-assign :
    (wallets : ℕ → Option Wallet) (j : ℕ) (p : PartialSwap) (o : Option Swap)
    → row wallets j (Option.map (assign_swap p) o) ≡ Option.map (assign_swap p) (row wallets j o)
row-assign wallets j p none = refl
row-assign wallets j p (some s) = joined-assign p j s (wallet_row wallets s.source_wallet.id)

map-if_none :
    {A : Type 0} (f : A → A) (b : Bool) (o o' : Option A)
    → o ≡ Option.map f o'
    → (if b then o else none) ≡ Option.map f (if b then o' else none)
map-if_none f true o o' h = h
map-if_none f false o o' h = refl

find_swap-update_swap :
    (d : Tables) (i j : ℕ) (p : PartialSwap)
    → find_swap (update_swap d i p) j
      ≡ (if j == i then Option.map (assign_swap p) (find_swap d j) else find_swap d j)
find_swap-update_swap d i j p = elim (Bool-cases (j == i)) [
  | inl same ↦
      rw same
        (map-if_none (assign_swap p) (ltb j d.next_swap) _ _ (row-assign d.wallets j p (d.swaps j)))
  | inr other ↦ rw other refl
]

find_wallet-update_wallet :
    (d : Tables) (i j : ℕ) (p : PartialWallet)
    → find_wallet (update_wallet d i p) j
      ≡ (if j == i then Option.map (assign_wallet p) (find_wallet d j) else find_wallet d j)
find_wallet-update_wallet d i j p = ground (arith, Option-cases (d.wallets j))

joined-wallet :
    (s : Swap) (i j k : ℕ) (p : PartialWallet) (b : Bool) (o : Option Wallet)
    → (k == i) ≡ b
    → joined j
        (assign_swap_wallets i p s)
        (Option.map (with_id k) (if k == i then Option.map (assign_wallet p) o else o))
      ≡ Option.map (assign_swap_wallets i p) (joined j s (Option.map (with_id k) o))
joined-wallet s i j k p true none h = rw h refl
joined-wallet s i j k p false none h = rw h refl
joined-wallet s i j k p true (some v) h = rw h refl
joined-wallet s i j k p false (some v) h = rw h refl

assign_joined_id : (i : ℕ) (p : PartialWallet) (v : Wallet) → (assign_joined i p v).id ≡ v.id
assign_joined_id i p v = ground arith

row-update_wallet :
    (d : Tables) (i j : ℕ) (p : PartialWallet) (o : Option Swap)
    → row (update_wallet d i p).wallets j (Option.map (assign_swap_wallets i p) o)
      ≡ Option.map (assign_swap_wallets i p) (row d.wallets j o)
row-update_wallet d i j p none = refl
row-update_wallet d i j p (some s) =
    rw (assign_joined_id i p s.source_wallet)
      (joined-wallet s i j s.source_wallet.id p _ (d.wallets s.source_wallet.id) refl)

find_swap-update_wallet :
    (d : Tables) (i j : ℕ) (p : PartialWallet)
    → find_swap (update_wallet d i p) j ≡ Option.map (assign_swap_wallets i p) (find_swap d j)
find_swap-update_wallet d i j p =
    map-if_none (assign_swap_wallets i p) (ltb j d.next_swap) _ _
      (row-update_wallet d i j p (d.swaps j))

row_id :
    (wallets : ℕ → Option Wallet) (j : ℕ) (o : Option Swap) (t : Swap)
    → row wallets j o ≡ some t
    → t.id ≡ j
row_id wallets j (some s) t h = ground (arith, Option-cases (wallets s.source_wallet.id))
row_id wallets j none t h = ground arith

row_joins :
    (wallets : ℕ → Option Wallet) (j : ℕ) (o : Option Swap) (t : Swap)
    → row wallets j o ≡ some t
    → wallet_row wallets t.source_wallet.id ≡ some t.source_wallet
row_joins wallets j none t h = ground arith
row_joins wallets j (some s) t h = ground (arith, Option-cases (wallets s.source_wallet.id))

some-if_none :
    {A : Type 0} (b : Bool) (o : Option A) (a : A) → (if b then o else none) ≡ some a → o ≡ some a
some-if_none true o a h = h
some-if_none false o a h = ground arith

save_swap_fresh :
    (d d' : Tables) (draft : SwapDraft) (s : Swap)
    → save_swap d draft ≡ ok (s, d')
    → find_swap d s.id ≡ none
save_swap_fresh d d' draft s h = ground (arith, Option-cases (d.wallets draft.source_wallet.id))

ltb-suc : (n : ℕ) → ltb n (suc n) ≡ true
ltb-suc n = ground arith

new_stored :
    (d : Tables) (draft : SwapDraft) (v : Wallet)
    → d.wallets draft.source_wallet.id ≡ some v
    → let saved = new_swap d.next_swap draft (with_id draft.source_wallet.id v) in
      let d' = record d {
        next_swap = suc d.next_swap;
        swaps = λ j. if j == d.next_swap then some saved else d.swaps j;
      } in
      (found : Swap) × (find_swap d' d.next_swap ≡ some found) × IsNewSwap draft found
new_stored d draft v found = (
  new_swap d.next_swap draft (with_id draft.source_wallet.id v),
  rw (==_refl d.next_swap) (rw (ltb-suc d.next_swap) (rw found refl)),
  record {
    source_amount = refl;
    source_token = refl;
    source_wallet = refl;
    destination_address = refl;
    destination_amount = refl;
    destination_token = refl;
    fee = refl;
    collector_wallet = refl;
    ip_address = refl;
    expires_at = refl;
    status = refl;
    confirmations = refl;
  },
)

save_swap_stored :
    (d d' : Tables) (draft : SwapDraft) (s : Swap)
    → save_swap d draft ≡ ok (s, d')
    → (found : Swap) × (find_swap d' s.id ≡ some found) × IsNewSwap draft found
save_swap_stored d d' draft s h = elim (Option-cases (d.wallets draft.source_wallet.id)) [
  | inl absent ↦ ground arith
  | inr (v, found) ↦
      subst
        (λ (x : Swap × Tables).
          (found : Swap) × (find_swap x.1 x.0.id ≡ some found) × IsNewSwap draft found)
        (ok_inj (
          sym (ap (λ o. save_with d draft (Option.map (with_id draft.source_wallet.id) o)) found)
          ∙ h))
        (new_stored d draft v found)
]

find_swap-save_swap :
    (d d' : Tables) (draft : SwapDraft) (s : Swap) (j : ℕ)
    → save_swap d draft ≡ ok (s, d')
    → j ≢ s.id
    → find_swap d' j ≡ find_swap d j
find_swap-save_swap d d' draft s j h other =
    ground (arith, Option-cases (d.wallets draft.source_wallet.id))

sets-Sets :
    {A : Type 0} (same : A → A → Bool)
    → ((a b : A) → same a b ≡ true → a ≡ b)
    → (o : Option A) (a : A) → sets same o a ≡ true
    → Sets o a
sets-Sets same sound none a h = tt
sets-Sets same sound (some b) a h = sound a b h

same_type_sound : (a b : WalletType) → same_type a b ≡ true → a ≡ b
same_type_sound a b h = ground arith

same_flag_sound : (a b : Bool) → same_flag a b ≡ true → a ≡ b
same_flag_sound a b h = ground arith

meets-Meets : (c : WalletWhere) (v : Wallet) → meets c v ≡ true → Meets c v
meets-Meets c v h = record {
  blockchain =
      sets-Sets same_blockchain same_blockchain_sound c.blockchain v.token.blockchain
        (ground arith);
  type = sets-Sets same_type same_type_sound c.type v.type (ground arith);
  deployed = sets-Sets same_flag same_flag_sound c.deployed v.deployed (ground arith);
  in_use = sets-Sets same_flag same_flag_sound c.in_use v.in_use (ground arith);
  disabled = sets-Sets same_flag same_flag_sound c.disabled v.disabled (ground arith);
}

find_wallet-save_swap :
    (d d' : Tables) (draft : SwapDraft) (s : Swap) (j : ℕ)
    → save_swap d draft ≡ ok (s, d')
    → find_wallet d' j ≡ find_wallet d j
find_wallet-save_swap d d' draft s j h =
    ground (arith, Option-cases (d.wallets draft.source_wallet.id))

matching_rows :
    (d : Tables) (c : WalletWhere) (ids : List ℕ)
    → All (λ v. (find_wallet d v.id ≡ some v) × Meets c v) (matching d c ids)
matching_rows d c [] = tt
matching_rows d c (i ∷ ids) = elim (Option-cases (d.wallets i)) [
  | inl absent ↦ rw absent (matching_rows d c ids)
  | inr (v, found) ↦ rw found (elim (Bool-cases (meets c (with_id i v))) [
    | inl met ↦ rw met ((rw found refl, meets-Meets c (with_id i v) met), matching_rows d c ids)
    | inr missed ↦ rw missed (matching_rows d c ids)
  ])
]

pub tables_laws : OrmLaws tables
tables_laws = record {
  find_swap-update_swap = find_swap-update_swap;
  find_swap-update_wallet = find_swap-update_wallet;
  find_swap_id =
      λ d j s h. row_id d.wallets j (d.swaps j) s (some-if_none (ltb j d.next_swap) _ s h);
  find_swap_joins =
      λ d j s h. row_joins d.wallets j (d.swaps j) s (some-if_none (ltb j d.next_swap) _ s h);
  save_swap_fresh = save_swap_fresh;
  save_swap_stored = save_swap_stored;
  find_swap-save_swap = find_swap-save_swap;
  find_wallet-update_wallet = find_wallet-update_wallet;
  find_wallet-update_swap = λ d i j p. refl;
  find_wallet-save_swap = find_wallet-save_swap;
  find_wallets_rows = λ d c o. matching_rows d c d.wallet_ids;
  find_wallet_id = find_wallet_id;
  find_wallet_at_row = λ d b address v h. find_at-At d b address v d.wallet_ids h;
  save_wallet_returns = save_wallet_returns;
  save_wallet_stored = save_wallet_stored;
  find_wallet-save_wallet = find_wallet-save_wallet;
  find_setting-update_setting = find_setting-update_setting;
}
