-- ===== src/Tokens/SyncTokensPrice/Prices.antt =====
-- What the price task leaves: src/tokens/tasks/sync-tokens-price.task.ts.
use eth_ton_swap.Common.{
  ℕ, String, none, some, List, [], ◌∷◌, ok, err, All, HasDistinct, ◌>>=◌, swallowed, catching, ◌≡◌,
  ◌≢◌, refl, sym, ap, ◌∙◌, ==_refl, inl, inr, Option-cases, Result-cases, arith, Bool-cases, ◌==◌,
  ==_iff, ◌⊎◌, Option,
}
use mathlib.Core.Option
use mathlib.Core.Option.{some_inj}
use eth_ton_swap.Common.Number.{BigNumber}
use eth_ton_swap.Entities.{Token}
use eth_ton_swap.Tokens.ExchangeRates.{Market, get_quote_price}
use eth_ton_swap.Tokens.Repository
use eth_ton_swap.Tokens.Repository.{TokenOrm, TokenLaws, PartialToken, assign_token}
use eth_ton_swap.Tokens.SyncTokensPrice.{coinmarketcap_id_usd, listed, sync_listed, sync_all, run}

-- a token is listed by a number that is not zero
unlisted_id : (o : Option ℕ) → listed o ≡ none → (o ≡ none) ⊎ (o ≡ some 0)
unlisted_id none h = inl refl
unlisted_id (some id) h = elim (Bool-cases (id == 0)) [
  | inl zero ↦ inr (ap some ((==_iff id 0).0 zero))
  | inr other ↦ (let bad = rw other at h in ground (arith, bad))
]

listed_id : (o : Option ℕ) (id : ℕ) → listed o ≡ some id → (o ≡ some id) × (id ≢ 0)
listed_id none id h = ground (arith, h)
listed_id (some n) id h = elim (Bool-cases (n == 0)) [
  | inl zero ↦ (let bad = rw zero at h in ground (arith, bad))
  | inr other ↦
      let same = rw other at h in
      (same, λ p. (let none_left = (==_iff n 0).1 (some_inj.0 same ∙ p) in cc))
]

-- the columns that the task writes
abbrev price_column : String → PartialToken
price_column text = record {
  name = none;
  symbol = none;
  decimals = none;
  conjugated_address = none;
  min_swap_amount = none;
  max_swap_amount = none;
  coinmarketcap_id = none;
  price = some text;
}

-- the row stands as it was read
abbrev pub Untouched : {Db : Type 0} → TokenOrm Db → Db → Token → Type 0
Untouched orm d t = orm.find_token d t.id ≡ some t

module _ {Db Price Num : Type 0} (orm : TokenOrm Db) (big : BigNumber Num)
    (market : Market Price Num) where
  -- the row, where only the price is another
  abbrev pub priced : Token → Price → Token
  priced t price = record t { price = some (big.to_text (market.big_number price)) }

  -- The rows after the task has gone through these tokens: up to the first whose price is not
  -- answered, each listed token has its price, and all the other rows stand as they were.
  pub data Swept (d : Db) : List Token → Type 0 where
    finished : Swept d []
    unlisted :
        {t : Token} {ts : List Token}
        → ((t.coinmarketcap_id ≡ none) ⊎ (t.coinmarketcap_id ≡ some 0))
        → Untouched orm d t
        → Swept d ts
        → Swept d (t ∷ ts)
    quoted :
        {t : Token} {ts : List Token} (id : ℕ) (price : Price)
        → t.coinmarketcap_id ≡ some id
        → id ≢ 0
        → get_quote_price market id 2781 ≡ ok price
        → orm.find_token d t.id ≡ some (priced t price)
        → Swept d ts
        → Swept d (t ∷ ts)
    stopped :
        {t : Token} {ts : List Token} (id : ℕ) (m : String)
        → t.coinmarketcap_id ≡ some id
        → id ≢ 0
        → get_quote_price market id 2781 ≡ err m
        → All (Untouched orm d) (t ∷ ts)
        → Swept d (t ∷ ts)

module _ {Db Price Num : Type 0} {orm : TokenOrm Db} (laws : TokenLaws orm) (big : BigNumber Num)
    (market : Market Price Num) where
  update_other :
      (d : Db) (i j : ℕ) (p : PartialToken)
      → i ≢ j
      → orm.find_token (orm.update_token d i p) j ≡ orm.find_token d j
  update_other d i j p apart = laws.find_token-update_token d i j p ∙ grind arith

  row_of :
      (d : Db) (t : Token) (text : String)
      → orm.find_token d t.id ≡ some t
      → orm.find_token (orm.update_token d t.id (price_column text)) t.id
        ≡ some (assign_token (price_column text) t)
  row_of d t text found =
      laws.find_token-update_token d t.id t.id (price_column text)
      ∙ rw (==_refl t.id) (ap (Option.map (assign_token (price_column text))) found)

  kept_rows :
      (ts : List Token) (d : Db) (i : ℕ) (p : PartialToken)
      → All (λ (t : Token). t.id ≢ i) ts
      → All (Untouched orm d) ts
      → All (Untouched orm (orm.update_token d i p)) ts
  kept_rows [] d i p apart rows = tt
  kept_rows (t ∷ ts) d i p apart rows =
      (update_other d i t.id p (λ h. apart.0 (sym h)) ∙ rows.0, kept_rows ts d i p apart.1 rows.1)

  sync_all_other :
      (ts : List Token) (d : Db) (j : ℕ)
      → All (λ t. t.id ≢ j) ts
      → orm.find_token (sync_all orm big market ts d).1 j ≡ orm.find_token d j
  unfolding sync_all sync_listed Repository.update ◌>>=◌
  sync_all_other [] d j apart = refl
  sync_all_other (t ∷ ts) d j apart = elim (Option-cases (listed t.coinmarketcap_id)) [
    | inl p ↦ rw p (sync_all_other ts d j apart.1)
    | inr (id, p) ↦ rw p (elim (Result-cases (get_quote_price market id coinmarketcap_id_usd)) [
      | inl (price, q) ↦ rw q (sync_all_other ts _ j apart.1 ∙ update_other d t.id j _ apart.0)
      | inr (m, q) ↦ rw q refl
    ])
  ]

  sync_all-Swept :
      (ts : List Token) (d : Db)
      → All (Untouched orm d) ts
      → HasDistinct (λ (t : Token). t.id) ts
      → Swept orm big market (sync_all orm big market ts d).1 ts
  unfolding sync_all sync_listed Repository.update ◌>>=◌
  sync_all-Swept [] d rows distinct = finished
  sync_all-Swept (t ∷ ts) d rows distinct = elim (Option-cases (listed t.coinmarketcap_id)) [
    | inl p ↦ rw p (
        unlisted (unlisted_id t.coinmarketcap_id p) (sync_all_other ts d t.id distinct.0 ∙ rows.0)
          (sync_all-Swept ts d rows.1 distinct.1))
    | inr (id, p) ↦ rw p (elim (Result-cases (get_quote_price market id coinmarketcap_id_usd)) [
      | inl (price, q) ↦ rw q (
          quoted id price (listed_id t.coinmarketcap_id id p).0
            (listed_id t.coinmarketcap_id id p).1 q
            (sync_all_other ts _ t.id distinct.0 ∙ row_of d t _ rows.0)
            (sync_all-Swept ts _ (kept_rows ts d t.id _ distinct.0 rows.1) distinct.1))
      | inr (m, q) ↦ rw q (
          stopped id m (listed_id t.coinmarketcap_id id p).0 (listed_id t.coinmarketcap_id id p).1 q
            rows)
    ])
  ]

  -- If the table of tokens obeys the laws, the price task returns; of the rows that it read, up
  -- to the first with a number of Coinmarketcap other than zero whose price is not answered,
  -- each with such a number has the price in US dollars that is answered for it, whichever
  -- blockchain it is in, and is otherwise as before, and all the others stand as they were.
  pub run-Swept :
      (d : Db)
      → ((run orm big market d).0 ≡ ok tt)
        × Swept orm big market (run orm big market d).1 (orm.find_tokens d)
  unfolding run catching Repository.find_all ◌>>=◌
  run-Swept d =
      let swept =
        sync_all-Swept (orm.find_tokens d) d (laws.find_tokens_rows d)
          (laws.find_tokens_distinct d) in
      rw (swallowed (sync_all orm big market (orm.find_tokens d) d)) (refl, swept)
