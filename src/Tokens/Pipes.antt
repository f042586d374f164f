-- ===== src/Tokens/Pipes.antt =====
-- src/tokens/dto and src/tokens/pipes: the requests of an administrator, with their addresses made
-- uniform and their amounts rounded.
use eth_ton_swap.Common.{ℕ, String, Option, none, some, Result, ok, err, if◌then◌else◌, str_eq}
use eth_ton_swap.Common.Errors.{error_invalid_address}
use eth_ton_swap.Common.Fallible.{◌>>=◌}
use eth_ton_swap.Entities.{Blockchain, ethereum, ton}
use eth_ton_swap.Env.{Env}
use eth_ton_swap.Ethereum
use eth_ton_swap.Ton.Blockchain.{normalize_address, address_text}

-- `CreateTokenDto` and `UpdateTokenDto`
pub record CreateTokenRequest : Type 0 where
  pub id : ℕ
  pub blockchain : Blockchain
  pub name : String
  pub symbol : String
  pub decimals : ℕ
  pub address : String
  pub conjugated_address : Option String
  pub min_swap_amount : String
  pub max_swap_amount : String
  pub coinmarketcap_id : Option ℕ

pub record UpdateTokenRequest (Num : Type 0) : Type 0 where
  pub name : Option String
  pub symbol : Option String
  pub decimals : Option ℕ
  pub conjugated_address : Option String
  pub min_swap_amount : Option String
  pub max_swap_amount : Option String
  pub coinmarketcap_id : Option ℕ
  pub price : Option Num

abbrev rejected : {A : Type 0} → Result A → Result A
rejected (ok a) = ok a
rejected (err m) = err error_invalid_address

module _ {Num Slice : Type 0} (e : Env Num Slice) where
  -- the two addresses
  abbrev uniform : Blockchain → CreateTokenRequest → Result CreateTokenRequest
  uniform ethereum r = do
    address ← Ethereum.normalize_address e r.address
    ok (record r { address = address })
  uniform ton r = do
    address ← normalize_address e r.address
    text ← address_text r.conjugated_address
    conjugated_address ← normalize_address e text
    ok (record r { address = address; conjugated_address = some conjugated_address })

  -- `CreateTokenPipe.transform`
  unfoldable pub check_create : CreateTokenRequest → Result CreateTokenRequest
  check_create r = do
    u ← rejected (uniform r.blockchain r)
    ok (record u {
      min_swap_amount = e.big.to_fixed (e.big.parse u.min_swap_amount) u.decimals;
      max_swap_amount = e.big.to_fixed (e.big.parse u.max_swap_amount) u.decimals;
    })

  abbrev with_conjugated : UpdateTokenRequest Num → Option String → Result (UpdateTokenRequest Num)
  with_conjugated r none = ok r
  with_conjugated r (some text) =
      if str_eq text ""
      then ok r
      else rejected (do
        address ← normalize_address e text
        ok (record r { conjugated_address = some address }))

  -- `UpdateTokenPipe.transform`, which the controller does not use
  unfoldable pub check_update : UpdateTokenRequest Num → Result (UpdateTokenRequest Num)
  check_update r = with_conjugated r r.conjugated_address
