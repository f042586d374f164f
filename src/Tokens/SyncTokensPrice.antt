-- ===== src/Tokens/SyncTokensPrice.antt =====
-- src/tokens/tasks/sync-tokens-price.task.ts: the daily task that stores prices in US dollars.
pub mod Prices
use eth_ton_swap.Common.{
  ℕ, Option, none, some, List, [], ◌∷◌, Action, pure, lift, catching, ◌>>=◌, ◌>>◌, ◌==◌,
  if◌then◌else◌,
}
use eth_ton_swap.Common.Number.{BigNumber}
use eth_ton_swap.Entities.{Token}
use eth_ton_swap.Tokens.ExchangeRates.{Market, get_quote_price}
use eth_ton_swap.Tokens.Repository
use eth_ton_swap.Tokens.Repository.{TokenOrm, no_update}

abbrev pub coinmarketcap_id_usd : ℕ
coinmarketcap_id_usd = 2781

-- `!token.coinmarketcapId` holds of a missing number and of zero
abbrev pub listed : Option ℕ → Option ℕ
listed none = none
listed (some id) = if id == 0 then none else some id

module _ {Db Price Num : Type 0} (orm : TokenOrm Db) (big : BigNumber Num)
    (market : Market Price Num) where
  sync_listed : Token → Option ℕ → Action Db (Unit {0})
  sync_listed token none = pure tt
  sync_listed token (some id) = do
    quote_price ← lift (get_quote_price market id coinmarketcap_id_usd)
    Repository.update orm big token.id
        (record no_update { price = some (market.big_number quote_price) })

  -- the loop over the tokens; it does nothing where there is none
  sync_all : List Token → Action Db (Unit {0})
  unfolding sync_listed
  sync_all [] = pure tt
  sync_all (token ∷ tokens) = sync_listed token (listed token.coinmarketcap_id) >> sync_all tokens

  -- what the `catch` logs is left out; of its errors, only those of the exchange rates are modelled
  unfoldable pub run : Action Db (Unit {0})
  unfolding sync_all
  run = catching (Repository.find_all orm >>= sync_all) (λ message. pure tt)
