-- ===== src/Swaps/Pipeline/Caching.antt =====
-- Runs that only add entries to the Ethereum cache: swaps/providers/ethereum-cache.helper.ts.
use eth_ton_swap.Common.{
  ◌⊎◌, ℕ, String, str_eq, Bool, true, false, none, some, Result, ok, err, Action, pure, lift, ◌>>=◌,
  ◌>>◌, ◌≡◌, refl, inl, inr, Option-cases, Result-cases, if◌then◌else◌,
}
use eth_ton_swap.World.{World, CacheEntry, cache}
use eth_ton_swap.Env.{Env}
use eth_ton_swap.Ethereum
use eth_ton_swap.Swaps.Pipeline.Reading.{Given}

module _ {Db : Type 0} where
  -- Only entries of the cache were added.
  pub record Kept (w v : World Db) : Type 0 where
    pub db : v.db ≡ w.db
    pub jobs : v.jobs ≡ w.jobs
    pub requests : v.requests ≡ w.requests

module _ {Num Slice : Type 0} (e : Env Num Slice) where
  -- the block of a number, from the cache or from the network
  abbrev pub Resolves : ℕ → ℕ → Type 0
  Resolves n found =
      (e.cached_block n ≡ some found)
      ⊎ ((e.cached_block n ≡ none) × (e.eth.get_block_with_transactions n ≡ ok (some found)))

module _ {Db Num Slice : Type 0} (e : Env Num Slice) where
  fetched-Kept :
      (r : Result String) (entry : String → CacheEntry) (value : String → Num) (w : World Db)
      → Given (λ _ v. Kept w v) ((lift r >>= λ price. cache (entry price) >> pure (value price)) w)
  unfolding ◌>>=◌
  fetched-Kept (ok price) entry value w = record { db = refl; jobs = refl; requests = refl }
  fetched-Kept (err m) entry value w = tt

  gas_price_if :
      (b : Bool) (m : Action (World Db) Num) (price : Num) (w : World Db)
      → Given (λ _ v. Kept w v) (m w)
      → Given (λ _ v. Kept w v) ((if b then m else pure price) w)
  unfolding pure
  gas_price_if true m price w h = h
  gas_price_if false m price w h = record { db = refl; jobs = refl; requests = refl }

  pub get_gas_price-Kept : (w : World Db) → Given (λ _ v. Kept w v) (Ethereum.get_gas_price e w)
  unfolding Ethereum.get_gas_price
  get_gas_price-Kept w = elim (Option-cases e.cached_gas_price) [
    | inl absent ↦ rw absent (fetched-Kept e.eth.get_gas_price _ _ w)
    | inr (price, present) ↦ rw present (
        gas_price_if (str_eq price "") _ (e.big.parse price) w
          (fetched-Kept e.eth.get_gas_price _ _ w))
  ]

  pub get_block-Resolves :
      (n : ℕ) (w : World Db)
      → Given
          (λ found v. Kept w v × Resolves e n found)
          (Ethereum.get_block_with_transactions e n w)
  unfolding Ethereum.get_block_with_transactions ◌>>=◌
  get_block-Resolves n w = elim (Option-cases (e.cached_block n)) [
    | inl absent ↦ rw absent (elim (Result-cases (e.eth.get_block_with_transactions n)) [
      | inl (none, p) ↦ rw p tt
      | inl (some found, p) ↦
          rw p (record { db = refl; jobs = refl; requests = refl }, inr (refl, p))
      | inr (m, p) ↦ rw p tt
    ])
    | inr (found, present) ↦
        rw present (record { db = refl; jobs = refl; requests = refl }, inl refl)
  ]
