-- ===== src/Tokens/Dto.antt =====
-- src/tokens/dto/get-token.dto.ts. A time of the last change is written by the database alone, and
-- is left out.
use eth_ton_swap.Common.{ℕ, String, Option, none, some}
use eth_ton_swap.Entities.{Blockchain, Token}

-- `GetPublicTokenDto`
pub record GetPublicToken : Type 0 where
  pub id : ℕ
  pub blockchain : Blockchain
  pub name : String
  pub symbol : String
  pub decimals : ℕ
  pub address : String
  pub conjugated_address : Option String
  pub min_swap_amount : Option String
  pub max_swap_amount : Option String

-- `toGetPublicTokenDto` of the wallets, and of the tokens, which adds the bounds
abbrev pub to_get_public_token : Token → GetPublicToken
to_get_public_token token = record {
  id = token.id;
  blockchain = token.blockchain;
  name = token.name;
  symbol = token.symbol;
  decimals = token.decimals;
  address = token.address;
  conjugated_address = token.conjugated_address;
  min_swap_amount = none;
  max_swap_amount = none;
}

abbrev pub to_get_bounded_token : Token → GetPublicToken
to_get_bounded_token token = record (to_get_public_token token) {
  min_swap_amount = some token.min_swap_amount;
  max_swap_amount = some token.max_swap_amount;
}
