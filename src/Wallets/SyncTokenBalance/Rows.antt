-- ===== src/Wallets/SyncTokenBalance/Rows.antt =====
-- What the balance tasks leave: src/wallets/tasks/sync-wallets-token-balance.task.ts.
use Prim.Native.String.{◌++◌}
use text.Mathlib.TextEquality.{eq_iff}
use mathlib.Core.Option
use mathlib.Core.Option.{some_inj}
use eth_ton_swap.Common.{
  ℕ, String, Bool, true, false, Bool-cases, ◌||◌, ◌==◌, ==_iff, str_eq, Option, none, some, List,
  [], ◌∷◌, Result, Result-cases, ok, err, ok_inj, All, ◌⊎◌, ◌≡◌, refl, sym, ap, ◌∙◌, subst, inl,
  inr, arith,
}
use eth_ton_swap.Common.Fallible.{bind_ok}
use eth_ton_swap.Entities.{Blockchain, ethereum, ton, Wallet}
use eth_ton_swap.Database.{Orm, OrmLaws, WalletWhere, Meets, by_token_and_type}
use eth_ton_swap.World.{World}
use eth_ton_swap.Env.{Env}
use eth_ton_swap.Ethereum.{TokenContract}
use eth_ton_swap.Ton.Blockchain.{non_empty}
use eth_ton_swap.Ton.Contract.{JettonWalletData, get_jetton_wallet_data}
use eth_ton_swap.Wallets.SyncTokenBalance.{
  jetton_balance, ethereum_balance, ton_balance, free_ethereum_wallets, ton_wallets, run_ethereum,
  run_ton,
}
use eth_ton_swap.Wallets.SyncTokenBalance.Balances.{reaches, stored, synced, run_row}

-- all the enabled wallets of TON, and of those of Ethereum the ones that are free
abbrev pub enabled_in : Blockchain → Option Bool → WalletWhere
enabled_in blockchain in_use = record {
  blockchain = some blockchain;
  type = none;
  min_balance = none;
  deployed = none;
  in_use = in_use;
  disabled = some false;
  has_conjugated_address = none;
}

module _ {Num Slice : Type 0} (e : Env Num Slice) where
  abbrev with_balance : Wallet → Num → Wallet
  with_balance v balance = record v { balance = some (e.big.to_fixed balance v.token.decimals) }

  -- A free and enabled wallet in Ethereum, with the balance that its token's contract answers for
  -- its address.
  pub data InEthereum (v : Wallet) : Wallet → Type 0 where
    answered :
        (key signer : String) (units : ℕ)
        → v.token.blockchain ≡ ethereum
        → v.in_use ≡ false
        → v.disabled ≡ false
        → e.decrypt_text v.secret_key ≡ ok key
        → e.eth.create_wallet ("0x" ++ key) ≡ ok signer
        → e.eth.balance_of ("0x" ++ v.token.address) ("0x" ++ v.address) ≡ ok units
        → InEthereum v (with_balance v (e.big.parse (e.eth.format_units units v.token.decimals)))

  -- An enabled wallet in TON, with the balance that its jetton wallet answers, or zero where the
  -- client throws; one with no jetton wallet is as before.
  pub data InTon (v : Wallet) : Wallet → Type 0 where
    passed_over : (v.conjugated_address ≡ none) ⊎ (v.conjugated_address ≡ some "") → InTon v v
    answered :
        (jetton_wallet : String) (info : JettonWalletData Num)
        → v.token.blockchain ≡ ton
        → v.disabled ≡ false
        → v.conjugated_address ≡ some jetton_wallet
        → get_jetton_wallet_data e jetton_wallet ≡ ok info
        → InTon v (with_balance v info.balance)
    refused :
        (jetton_wallet message : String)
        → v.token.blockchain ≡ ton
        → v.disabled ≡ false
        → v.conjugated_address ≡ some jetton_wallet
        → get_jetton_wallet_data e jetton_wallet ≡ err message
        → InTon v (with_balance v (e.big.parse "0"))

-- A row that the loop came to is as the relation says, and another one stands.
pub data Visited (Row : Wallet → Wallet → Type 0) (v : Wallet) : Bool → Wallet → Type 0 where
  came : {new : Wallet} → Row v new → Visited Row v true new
  stands : Visited Row v false v

-- whether a row of that number is listed
abbrev pub lists : ℕ → List Wallet → Bool
lists j [] = false
lists j (v ∷ vs) = (j == v.id) || lists j vs

module _ {Db Num : Type 0} (orm : Orm Db) (balance_of : Wallet → Result (Option Num)) where
  -- a row that the loop came to was listed, so it meets the conditions, and its balance is known
  reached_row :
      (d : Db) (c : WalletWhere) (j : ℕ) (v : Wallet)
      → orm.find_wallet d j ≡ some v
      → (vs : List Wallet) → All (λ u. (orm.find_wallet d u.id ≡ some u) × Meets c u) vs
      → reaches balance_of j vs ≡ true
      → Meets c v × ((balance : Option Num) × (balance_of v ≡ ok balance))
  reached_row d c j v found [] all h = ground (arith, h)
  reached_row d c j v found (u ∷ us) all h = elim (Result-cases (balance_of u)) [
    | inr (m, p) ↦ (let bad = rw p at h in ground (arith, bad))
    | inl (balance, p) ↦ elim (Bool-cases (j == u.id)) [
      | inl same ↦
          let one =
            some_inj.0
              (sym all.0.0 ∙ ap (orm.find_wallet d) (sym ((==_iff j u.id).0 same)) ∙ found) in
          subst (λ x. Meets c x × ((b : Option Num) × (balance_of x ≡ ok b))) one
            (all.0.1, (balance, p))
      | inr other ↦ reached_row d c j v found us all.1 (rw (p, other) at h)
    ]
  ]

module _ {Num Slice : Type 0} (e : Env Num Slice) where
  ethereum_row :
      (v : Wallet) (balance : Option Num)
      → v.token.blockchain ≡ ethereum
      → v.in_use ≡ false
      → v.disabled ≡ false
      → ethereum_balance e v ≡ ok balance
      → InEthereum e v (stored e v balance)
  unfolding ethereum_balance
  ethereum_row v balance chain free enabled h =
      let (contract, made, rest) = bind_ok _ _ balance h in
      let (key, opened, built) = bind_ok (e.decrypt_text v.secret_key) _ contract made in
      let (signer, signs, named) = bind_ok (e.eth.create_wallet ("0x" ++ key)) _ contract built in
      let (read, asked, given) = bind_ok _ _ balance rest in
      let (units, counted, shown) =
        bind_ok (e.eth.balance_of contract.address ("0x" ++ v.address)) _ read asked in
      let own = sym (ap (λ (x : TokenContract). x.address) (ok_inj named)) in
      subst (λ b. InEthereum e v (stored e v b)) (ap some (ok_inj shown) ∙ ok_inj given)
        (InEthereum.answered key signer units chain free enabled opened signs
          (ap (λ a. e.eth.balance_of a ("0x" ++ v.address)) (sym own) ∙ counted))

  jetton_row :
      (v : Wallet) (jetton_wallet : String)
      → v.token.blockchain ≡ ton
      → v.disabled ≡ false
      → v.conjugated_address ≡ some jetton_wallet
      → InTon e v (with_balance e v (jetton_balance e jetton_wallet))
  jetton_row v jetton_wallet chain enabled named =
      elim (Result-cases (get_jetton_wallet_data e jetton_wallet)) [
        | inl (info, p) ↦ rw p (InTon.answered jetton_wallet info chain enabled named p)
        | inr (m, p) ↦ rw p (InTon.refused jetton_wallet m chain enabled named p)
      ]

  ton_row_at :
      (v : Wallet)
      → v.token.blockchain ≡ ton
      → v.disabled ≡ false
      → (address : Option String) → v.conjugated_address ≡ address
      → InTon e v (stored e v (Option.map (jetton_balance e) (Option.bind address non_empty)))
  unfolding Option.bind
  ton_row_at v chain enabled none named = InTon.passed_over (inl named)
  ton_row_at v chain enabled (some address) named = elim (Bool-cases (str_eq address "")) [
    | inl empty ↦ rw empty (InTon.passed_over (inr (named ∙ ap some ((eq_iff address "").0 empty))))
    | inr filled ↦ rw filled (jetton_row v address chain enabled named)
  ]

  ton_row :
      (v : Wallet)
      → v.token.blockchain ≡ ton
      → v.disabled ≡ false
      → InTon e v (synced e (ton_balance e v) v)
  unfolding ton_balance
  ton_row v chain enabled = ton_row_at v chain enabled v.conjugated_address refl

  -- the TON loop comes to every row that is listed
  ton_reaches : (j : ℕ) (vs : List Wallet) → reaches (ton_balance e) j vs ≡ lists j vs
  unfolding ton_balance
  ton_reaches j [] = refl
  ton_reaches j (v ∷ vs) = ap (λ b. (j == v.id) || b) (ton_reaches j vs)

module _ {Db Num Slice : Type 0} {orm : Orm Db} (laws : OrmLaws orm) (e : Env Num Slice) where
  -- If the database obeys the laws, the Ethereum balance task returns, and a stored row that
  -- the loop comes to before a call throws is a free and enabled one of Ethereum, and has the
  -- balance that its token's contract answers for its address, to the token's decimals, and is
  -- otherwise as before; every other row stands.
  pub run_ethereum_row :
      (w : World Db) (j : ℕ) (v : Wallet)
      → orm.find_wallet w.db j ≡ some v
      → let vs = orm.find_wallets w.db (enabled_in ethereum (some false)) by_token_and_type in
        ((run_ethereum orm e w).0 ≡ ok tt)
        × ((new : Wallet) × (orm.find_wallet (run_ethereum orm e w).1.db j ≡ some new)
            × Visited (InEthereum e) v (reaches (ethereum_balance e) j vs) new)
  unfolding run_ethereum
  run_ethereum_row w j v found =
      let c = enabled_in ethereum (some false) in
      let vs = orm.find_wallets w.db c by_token_and_type in
      let (returned, row) = run_row laws e (ethereum_balance e) free_ethereum_wallets w j v found in
      (
        returned,
        elim (Bool-cases (reaches (ethereum_balance e) j vs)) [
          | inr missed ↦ (v, rw missed at row, rw missed stands)
          | inl reached ↦
              let (meets, (balance, known)) =
                reached_row orm (ethereum_balance e) w.db c j v found vs
                  (laws.find_wallets_rows w.db c by_token_and_type) reached in
              (
                stored e v balance,
                rw (reached, known) at row,
                rw reached (
                    came (
                      ethereum_row e v balance meets.blockchain meets.in_use meets.disabled known)),
              )
        ],
      )

  -- If the database obeys the laws, the TON balance task returns, and a stored row that is
  -- listed is an enabled one of TON, and has the balance that its jetton wallet answers, or
  -- zero if the client throws, to the token's decimals, and is otherwise as before; a listed
  -- row with no jetton wallet, and one that is not listed, stands.
  pub run_ton_row :
      (w : World Db) (j : ℕ) (v : Wallet)
      → orm.find_wallet w.db j ≡ some v
      → let vs = orm.find_wallets w.db (enabled_in ton none) by_token_and_type in
        ((run_ton orm e w).0 ≡ ok tt)
        × ((new : Wallet) × (orm.find_wallet (run_ton orm e w).1.db j ≡ some new)
            × Visited (InTon e) v (lists j vs) new)
  unfolding run_ton
  run_ton_row w j v found =
      let c = enabled_in ton none in
      let vs = orm.find_wallets w.db c by_token_and_type in
      let (returned, row) = run_row laws e (ton_balance e) ton_wallets w j v found in
      let all = laws.find_wallets_rows w.db c by_token_and_type in
      (
        returned,
        elim (Bool-cases (reaches (ton_balance e) j vs)) [
          | inr missed ↦ (v, rw missed at row, rw (sym (ton_reaches e j vs) ∙ missed) stands)
          | inl reached ↦
              let meets = (reached_row orm (ton_balance e) w.db c j v found vs all reached).0 in
              (
                synced e (ton_balance e v) v,
                rw reached at row,
                rw (sym (ton_reaches e j vs) ∙ reached)
                    (came (ton_row e v meets.blockchain meets.disabled)),
              )
        ],
      )
