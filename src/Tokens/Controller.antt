-- ===== src/Tokens/Controller.antt =====
-- src/tokens/controllers/tokens.controller.ts.
use mathlib.Core.Option
use eth_ton_swap.Common.{
  ℕ, String, Option, none, some, List, map, Action, pure, throw, or_throw, ◌>>=◌, ◌>>◌,
}
use eth_ton_swap.Common.Errors.{error_token_not_found, error_token_already_exists}
use eth_ton_swap.Common.Number.{BigNumber, quantity_of, quantity_to_text}
use eth_ton_swap.Entities.{Token}
use eth_ton_swap.Ton.Blockchain.{non_empty}
use eth_ton_swap.Tokens.Dto.{GetPublicToken, to_get_bounded_token}
use eth_ton_swap.Tokens.Pipes.{CreateTokenRequest, UpdateTokenRequest}
use eth_ton_swap.Tokens.Repository
use eth_ton_swap.Tokens.Repository.{TokenOrm, TokenDraft, UpdateToken}

-- `GetTokenDto`; the times, which the database alone writes, are left out
pub record GetToken : Type 0 where
  pub token : GetPublicToken
  pub price : Option String

abbrev to_get_token : Token → GetToken
to_get_token token = record { token = to_get_bounded_token token; price = token.price }

-- `updateTokenDto.decimals ?? token.decimals`
abbrev either : Option ℕ → ℕ → ℕ
either none old = old
either (some new) old = new

module _ {Num : Type 0} (big : BigNumber Num) where
  abbrev rounded : String → ℕ → String
  rounded text decimals = quantity_to_text big (quantity_of big text decimals)

  abbrev draft_of : CreateTokenRequest → TokenDraft
  draft_of r = record {
    id = r.id;
    blockchain = r.blockchain;
    name = r.name;
    symbol = r.symbol;
    decimals = r.decimals;
    address = r.address;
    conjugated_address = r.conjugated_address;
    min_swap_amount = rounded r.min_swap_amount r.decimals;
    max_swap_amount = rounded r.max_swap_amount r.decimals;
    coinmarketcap_id = r.coinmarketcap_id;
  }

  abbrev changes : UpdateTokenRequest Num → ℕ → UpdateToken Num
  changes r decimals = record {
    name = r.name;
    symbol = r.symbol;
    decimals = some decimals;
    conjugated_address = r.conjugated_address;
    min_swap_amount =
        Option.map (λ text. quantity_of big text decimals)
          (Option.bind r.min_swap_amount non_empty);
    max_swap_amount =
        Option.map (λ text. quantity_of big text decimals)
          (Option.bind r.max_swap_amount non_empty);
    coinmarketcap_id = r.coinmarketcap_id;
    price = r.price;
  }

module _ {Db Num : Type 0} (orm : TokenOrm Db) (big : BigNumber Num) where
  abbrev refuse_second : Option Token → Action Db (Unit {0})
  refuse_second none = pure tt
  refuse_second (some token) = throw error_token_already_exists

  -- `createToken`
  unfoldable pub create_token : CreateTokenRequest → Action Db GetToken
  create_token r = do
    found ← Repository.find_one orm r.blockchain r.address
    refuse_second found
    token ← Repository.create orm (draft_of big r)
    pure (to_get_token token)

  -- `updateToken`
  unfoldable pub update_token : ℕ → UpdateTokenRequest Num → Action Db GetToken
  update_token id r = do
    found ← Repository.find_by_id orm id
    token ← or_throw found error_token_not_found
    Repository.update orm big id (changes big r (either r.decimals token.decimals))
    again ← Repository.find_by_id orm id
    updated ← or_throw again "Cannot read properties of null"
    pure (to_get_token updated)

module _ {Db : Type 0} (orm : TokenOrm Db) where
  -- `getTokens`
  unfoldable pub get_tokens : Action Db (List GetPublicToken)
  get_tokens = do tokens ← Repository.find_all orm; pure (map to_get_bounded_token tokens)

  -- `getToken`
  unfoldable pub get_token : ℕ → Action Db GetToken
  get_token id = do
    found ← Repository.find_by_id orm id
    token ← or_throw found error_token_not_found
    pure (to_get_token token)
