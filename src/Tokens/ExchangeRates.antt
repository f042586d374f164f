-- ===== src/Tokens/ExchangeRates.antt =====
-- src/tokens/providers/exchange-rates.service.ts: the price of one coin in another.
use Prim.Native.String.{◌++◌}
use eth_ton_swap.Common.{ℕ, String, List, [], ◌∷◌, Result, ok, err, str_eq, not, if◌then◌else◌}
use eth_ton_swap.Common.Fallible.{◌>>=◌}

-- `PriceConversion`, with the price of each quote
pub record PriceConversion (Price : Type 0) : Type 0 where
  pub error_code : String
  pub error_message : String
  pub quote : List Price

-- What coinmarketcap answers for two coins, and `new BigNumber(price)` of a JavaScript number.
pub record Market (Price Num : Type 0) : Type 0 where
  pub price_conversion : ℕ → ℕ → Result (PriceConversion Price)
  pub big_number : Price → Num

module _ {Price Num : Type 0} (market : Market Price Num) where
  abbrev refused : PriceConversion Price → Result Price
  refused c = err ("Code: " ++ (c.error_code ++ (". Message: " ++ c.error_message)))

  abbrev first_quote : PriceConversion Price → List Price → Result Price
  first_quote c [] = refused c
  first_quote c (price ∷ rest) = ok price

  abbrev read_quote : PriceConversion Price → Result Price
  read_quote c = if not (str_eq c.error_code "0") then refused c else first_quote c c.quote

  unfoldable pub get_quote_price : ℕ → ℕ → Result Price
  get_quote_price base_id quote_id = market.price_conversion base_id quote_id >>= read_quote
