-- ===== src/Wallets/SyncTokenBalance/Balances.antt =====
-- The loop of the balance tasks, row by row: src/wallets/tasks/sync-wallets-token-balance.task.ts.
use eth_ton_swap.Common.{
  ap, ==_refl, ==_iff, ℕ, Bool, true, false, Bool-cases, ◌||◌, ◌==◌, Option, none, some, List, [],
  ◌∷◌, Result, Result-cases, ok, err, All, All-map, Action, pure, lift, gets, swallowed, catching,
  continue, ◌>>=◌, ◌≡◌, refl, sym, ◌∙◌, subst, inl, inr, if◌then◌else◌, arith,
}
use mathlib.Core.Option.{some_inj}
use eth_ton_swap.Common.Number.{quantity_to_text}
use eth_ton_swap.Entities.{Wallet}
use eth_ton_swap.Database.{Orm, OrmLaws, by_token_and_type}
use eth_ton_swap.World.{World}
use eth_ton_swap.Env.{Env}
use eth_ton_swap.Wallets.Repository
use eth_ton_swap.Wallets.Repository.{FindAllWallets, where_of}
use eth_ton_swap.Wallets.SyncTokenBalance.{store, sync}

-- a call that throws ends the loop
abbrev pub goes_on : {A : Type 0} → Result A → Bool → Bool
goes_on (ok a) later = later
goes_on (err m) later = false

module _ {Num : Type 0} (balance_of : Wallet → Result (Option Num)) where
  -- Whether the loop comes to a row of this number before a balance that throws.
  abbrev pub reaches : ℕ → List Wallet → Bool
  reaches j [] = false
  reaches j (v ∷ vs) = goes_on (balance_of v) ((j == v.id) || reaches j vs)

module _ {Num Slice : Type 0} (e : Env Num Slice) where
  abbrev pub stored : Wallet → Option Num → Wallet
  stored v none = v
  stored v (some balance) = record v { balance = some (e.big.to_fixed balance v.token.decimals) }

  -- The row of a wallet that the loop came to: the balance, to the token's number of decimals, if
  -- there is one to store.
  abbrev pub synced : Result (Option Num) → Wallet → Wallet
  synced (ok balance) v = stored v balance
  synced (err m) v = v

  -- the row before the loop has come to it, or after
  abbrev pick : (Wallet → Result (Option Num)) → Bool → Wallet → Wallet
  pick balance_of b v = if b then synced (balance_of v) v else v

  pick_later :
      (balance_of : Wallet → Result (Option Num)) (b : Bool) (v : Wallet)
      → pick balance_of (b || false) v ≡ pick balance_of b v
  pick_later balance_of true v = refl
  pick_later balance_of false v = refl

  pick_now :
      (balance_of : Wallet → Result (Option Num)) (b c : Bool) (v : Wallet)
      → pick balance_of (b || (true || c)) v ≡ pick balance_of true v
  pick_now balance_of true c v = refl
  pick_now balance_of false c v = refl

  -- storing the balance again changes nothing
  pick_stored :
      (balance_of : Wallet → Result (Option Num)) (b : Bool) (v : Wallet) (balance : Num)
      → balance_of v ≡ ok (some balance)
      → record (pick balance_of b v) { balance = some (e.big.to_fixed balance v.token.decimals) }
        ≡ pick balance_of true v
  pick_stored balance_of true v balance h = rw h refl
  pick_stored balance_of false v balance h = rw h refl

-- what follows a call that returns
module _ {W B : Type 0} where
  continued :
      (f : Unit {0} → Action W B) (x : Result (Unit {0}) × W)
      → x.0 ≡ ok tt
      → continue f x ≡ f tt x.1
  continued f (ok tt, w) h = refl
  continued f (err m, w) h = ground (arith, h)

module _ {Db Num Slice : Type 0} {orm : Orm Db} (laws : OrmLaws orm) (e : Env Num Slice)
    (balance_of : Wallet → Result (Option Num)) where
  store_other :
      (u : Wallet) (balance : Option Num) (w : World Db) (j : ℕ)
      → (j == u.id) ≡ false
      → orm.find_wallet (store orm e u balance w).1.db j ≡ orm.find_wallet w.db j
  unfolding pure ◌>>=◌ Repository.update
  store_other u none w j apart = refl
  store_other u (some balance) w j apart = rw (laws.find_wallet-update_wallet, apart) refl

  store_same :
      (u : Wallet) (balance : Option Num) (b : Bool) (w : World Db)
      → balance_of u ≡ ok balance
      → orm.find_wallet w.db u.id ≡ some (pick e balance_of b u)
      → orm.find_wallet (store orm e u balance w).1.db u.id ≡ some (pick e balance_of true u)
  unfolding pure ◌>>=◌ Repository.update quantity_to_text
  store_same u none true w h row = row
  store_same u none false w h row = row ∙ rw h refl
  store_same u (some balance) b w h row =
      rw (laws.find_wallet-update_wallet, ==_refl, row)
        (ap some (pick_stored e balance_of b u balance h))

  store_at :
      (u v : Wallet) (balance : Option Num) (b : Bool) (w : World Db) (j : ℕ)
      → j ≡ u.id
      → u ≡ v
      → balance_of u ≡ ok balance
      → orm.find_wallet w.db j ≡ some (pick e balance_of b v)
      → orm.find_wallet (store orm e u balance w).1.db j ≡ some (pick e balance_of true v)
  store_at u v balance b w j p q h row =
      let before =
        ap (orm.find_wallet w.db) (sym p) ∙ row ∙ ap (λ x. some (pick e balance_of b x)) (sym q) in
      ap (orm.find_wallet (store orm e u balance w).1.db) p
      ∙ store_same u balance b w h before
      ∙ ap (λ x. some (pick e balance_of true x)) q

  store_ok :
      (u : Wallet) (balance : Option Num) (w : World Db) → (store orm e u balance w).0 ≡ ok tt
  unfolding pure ◌>>=◌ Repository.update
  store_ok u none w = refl
  store_ok u (some balance) w = refl

  sync_row :
      (vs : List Wallet) (d : Db) (w : World Db) (j : ℕ) (v : Wallet) (b : Bool)
      → All (λ (u : Wallet). orm.find_wallet d u.id ≡ some u) vs
      → orm.find_wallet d j ≡ some v
      → orm.find_wallet w.db j ≡ some (pick e balance_of b v)
      → orm.find_wallet (sync orm e balance_of vs w).1.db j
        ≡ some (pick e balance_of (b || reaches balance_of j vs) v)
  unfolding sync ◌>>=◌ lift
  sync_row [] d w j v b rows found row = row ∙ ap some (sym (pick_later e balance_of b v))
  sync_row (u ∷ us) d w j v b rows found row = elim (Result-cases (balance_of u)) [
    | inr (m, h) ↦ rw h (row ∙ ap some (sym (pick_later e balance_of b v)))
    | inl (balance, h) ↦
        rw
          (
            h,
            continued (λ _. sync orm e balance_of us) (store orm e u balance w)
                (store_ok u balance w),
          )
          (elim (Bool-cases (j == u.id)) [
            | inr apart ↦
                rw apart
                  (sync_row us d _ j v b rows.1 found (store_other u balance w j apart ∙ row))
            | inl same ↦
                let here = (==_iff j u.id).0 same in
                let one = some_inj.0 (sym rows.0 ∙ ap (orm.find_wallet d) (sym here) ∙ found) in
                rw same (
                  sync_row us d _ j v true rows.1 found (store_at u v balance b w j here one h row)
                  ∙ ap some (sym (pick_now e balance_of b (reaches balance_of j us) v)))
          ])
  ]

  -- the whole run
  pub run_row :
      (f : FindAllWallets Num) (w : World Db) (j : ℕ) (v : Wallet)
      → orm.find_wallet w.db j ≡ some v
      → let x =
          catching
            (Repository.find_all orm e f by_token_and_type >>= sync orm e balance_of)
            (λ message. pure tt)
            w in
        (x.0 ≡ ok tt)
        × (orm.find_wallet x.1.db j
            ≡ some (
                if reaches balance_of j (orm.find_wallets w.db (where_of e f) by_token_and_type)
                then synced e (balance_of v) v
                else v))
  unfolding catching ◌>>=◌ Repository.find_all gets
  run_row f w j v found =
      let vs = orm.find_wallets w.db (where_of e f) by_token_and_type in
      let rows =
        All-map _ _ vs (λ u h. h.0)
          (laws.find_wallets_rows w.db (where_of e f) by_token_and_type) in
      subst
        (λ x.
          (x.0 ≡ ok tt)
          × (orm.find_wallet x.1.db j
              ≡ some (if reaches balance_of j vs then synced e (balance_of v) v else v)))
        (sym (swallowed (sync orm e balance_of vs w)))
        (refl, sync_row vs w.db w j v false rows found found)
