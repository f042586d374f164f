-- ===== src/Stats.antt =====
-- src/stats/controllers/stats.controller.ts: the counts that are shown of wallets and swaps.
use Prim.Native.Char.{Char, code}
use Prim.Native.String.{◌++◌}
use text.Mathlib.Text.{char_at?}
use eth_ton_swap.Common.{
  ℕ, ◌-◌, String, not, ◌&&◌, Option, none, some, List, [], ◌∷◌, str_eq, ltb, Action, pure, gets,
  ◌>>=◌, if◌then◌else◌,
}
use eth_ton_swap.Entities.{SwapStatus, Token}
use eth_ton_swap.Database.{Orm}
use eth_ton_swap.World.{World}
use eth_ton_swap.Tokens.Repository.{TokenOrm}
use eth_ton_swap.Swaps.Repository as Swaps
use eth_ton_swap.Wallets.Repository as Wallets
use eth_ton_swap.Wallets.Repository.{WalletsStats}

-- `toLowerCase`, of the letters of ASCII
abbrev or_same : Char → Option Char → Char
or_same c none = c
or_same c (some lower) = lower

abbrev lower_letter : Char → Char
lower_letter c =
    if not (ltb (code c) 65) && ltb (code c) 91
    then or_same c (char_at? "abcdefghijklmnopqrstuvwxyz" (code c - 65))
    else c

abbrev pub lower_case : String → String
lower_case String.[] = String.[]
lower_case (String.◌∷◌ c s) = String.◌∷◌ (lower_letter c) (lower_case s)

-- `stats[key] = value`: a key that is there keeps its place
abbrev pub put : {A : Type 0} → String → A → List (String × A) → List (String × A)
put key value [] = (key, value) ∷ []
put key value ((other, old) ∷ rest) =
    let later = put key value rest in
    if str_eq other key then (key, value) ∷ rest else (other, old) ∷ later

-- `GetStatsDto`
pub record GetStats : Type 0 where
  pub wallets : List (String × WalletsStats)
  pub swaps : List (String × List (SwapStatus × ℕ))

module _ {Db : Type 0} (tokens : TokenOrm Db) (orm : Orm Db) where
  unfoldable pub stats_of : GetStats → List Token → Action (World Db) GetStats
  stats_of stats [] = pure stats
  stats_of stats (token ∷ rest) = do
    let symbol = lower_case token.symbol
    wallets ← Wallets.count_stats orm token.address
    swaps ← Swaps.count_stats orm token.address
    stats_of
        (record {
          wallets = put symbol wallets stats.wallets;
          swaps = put (symbol ++ "->any") swaps stats.swaps;
        })
        rest

  -- `getStats`
  unfoldable pub get_stats : Action (World Db) GetStats
  unfolding stats_of
  get_stats = gets (λ w. tokens.find_tokens w.db) >>= stats_of (record { wallets = []; swaps = [] })
