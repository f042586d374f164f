-- ===== src/Samples/Prices.antt =====
-- Two tokens and a market, for the tests of the price task.
use eth_ton_swap.Common.{
  ℕ, Option, none, some, [], ◌∷◌, ok, err, str_eq, ◌≡◌, refl, ◌==◌, arith, if◌then◌else◌,
}
use mathlib.Core.Option
use eth_ton_swap.Entities.{Token, ethereum, ton}
use eth_ton_swap.Tokens.Repository.{TokenOrm, TokenLaws, PartialToken, assign_token}
use eth_ton_swap.Tokens.ExchangeRates.{Market}
use eth_ton_swap.Samples.Rows.{token_in}

pub record TwoTokens : Type 0 where
  pub one : Token
  pub two : Token

abbrev row_one : TwoTokens → Token
row_one d = record d.one { id = 1 }

abbrev row_two : TwoTokens → Token
row_two d = record d.two { id = 2 }

abbrev find : TwoTokens → ℕ → Option Token
find d j = if j == 1 then some (row_one d) else if j == 2 then some (row_two d) else none

abbrev write : TwoTokens → ℕ → PartialToken → TwoTokens
write d i p =
    if i == 1
    then record d { one = assign_token p d.one }
    else if i == 2
    then record d { two = assign_token p d.two }
    else d

abbrev pub two_tokens : TokenOrm TwoTokens
two_tokens = record {
  find_tokens = λ d. row_one d ∷ row_two d ∷ [];
  find_token = find;
  find_token_at =
      λ d b address. if str_eq (row_one d).address address then some (row_one d) else none;
  save_token = λ d draft. err "duplicate key value violates unique constraint";
  update_token = write;
}

find-write :
    (d : TwoTokens) (i j : ℕ) (p : PartialToken)
    → find (write d i p) j ≡ (if j == i then Option.map (assign_token p) (find d j) else find d j)
find-write d i j p = ground arith

pub two_tokens_laws : TokenLaws two_tokens
two_tokens_laws = record {
  find_token-update_token = find-write;
  find_tokens_rows = λ d. (refl, (refl, tt));
  find_tokens_distinct = λ d. (((λ h. omega arith), tt), (tt, tt));
}

-- the first token is listed at the market, the second is not
abbrev pub listed_tokens : TwoTokens
listed_tokens = record {
  one = record (token_in ethereum 1) { coinmarketcap_id = some 825 };
  two = token_in ton 2;
}

abbrev pub market : Market ℕ ℕ
market = record {
  price_conversion =
      λ base quote. ok (record { error_code = "0"; error_message = ""; quote = 100 ∷ [] });
  big_number = λ price. price;
}
