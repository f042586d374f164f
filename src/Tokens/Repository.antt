-- ===== src/Tokens/Repository.antt =====
-- src/tokens/providers/tokens.repository.ts, over TypeORM's repository of tokens.
use eth_ton_swap.Common.{
  ℕ, String, Option, none, some, List, Result, ok, err, Action, gets, modify, ◌≡◌, ◌==◌,
  if◌then◌else◌, All, HasDistinct,
}
use mathlib.Core.Option
use eth_ton_swap.Common.Number.{BigNumber, Quantity, quantity_to_text}
use eth_ton_swap.Entities.{Blockchain, Token}
use eth_ton_swap.Database.{assigned, assigned_nullable}

-- `QueryDeepPartialEntity<Token>`: the columns to write, `none` for one that is left alone.
pub record PartialToken : Type 0 where
  pub name : Option String
  pub symbol : Option String
  pub decimals : Option ℕ
  pub conjugated_address : Option String
  pub min_swap_amount : Option String
  pub max_swap_amount : Option String
  pub coinmarketcap_id : Option ℕ
  pub price : Option String

abbrev pub assign_token : PartialToken → Token → Token
assign_token p t = record t {
  name = assigned p.name t.name;
  symbol = assigned p.symbol t.symbol;
  decimals = assigned p.decimals t.decimals;
  conjugated_address = assigned_nullable p.conjugated_address t.conjugated_address;
  min_swap_amount = assigned p.min_swap_amount t.min_swap_amount;
  max_swap_amount = assigned p.max_swap_amount t.max_swap_amount;
  coinmarketcap_id = assigned_nullable p.coinmarketcap_id t.coinmarketcap_id;
  price = assigned_nullable p.price t.price;
}

-- `CreateToken`, with the amounts as texts
pub record TokenDraft : Type 0 where
  pub id : ℕ
  pub blockchain : Blockchain
  pub name : String
  pub symbol : String
  pub decimals : ℕ
  pub address : String
  pub conjugated_address : Option String
  pub min_swap_amount : String
  pub max_swap_amount : String
  pub coinmarketcap_id : Option ℕ

-- TypeORM's calls: `find` ordered by blockchain and name, `findOneBy` with an identifier, or with a
-- blockchain and an address, `save` and `update`.
pub record TokenOrm (Db : Type 0) : Type 0 where
  pub find_tokens : Db → List Token
  pub find_token : Db → ℕ → Option Token
  pub find_token_at : Db → Blockchain → String → Option Token
  pub save_token : Db → TokenDraft → Result (Token × Db)
  pub update_token : Db → ℕ → PartialToken → Db

-- What its documentation says of them; an identifier is the primary key.
pub record TokenLaws {Db : Type 0} (orm : TokenOrm Db) : Type 0 where
  pub find_token-update_token :
      (d : Db) (i j : ℕ) (p : PartialToken)
      → orm.find_token (orm.update_token d i p) j
        ≡ (if j == i then Option.map (assign_token p) (orm.find_token d j) else orm.find_token d j)
  pub find_tokens_rows : (d : Db) → All (λ t. orm.find_token d t.id ≡ some t) (orm.find_tokens d)
  pub find_tokens_distinct : (d : Db) → HasDistinct (λ (t : Token). t.id) (orm.find_tokens d)

-- `UpdateToken`
pub record UpdateToken (Num : Type 0) : Type 0 where
  pub name : Option String
  pub symbol : Option String
  pub decimals : Option ℕ
  pub conjugated_address : Option String
  pub min_swap_amount : Option (Quantity Num)
  pub max_swap_amount : Option (Quantity Num)
  pub coinmarketcap_id : Option ℕ
  pub price : Option Num

abbrev pub no_update : {Num : Type 0} → UpdateToken Num
no_update = record {
  name = none;
  symbol = none;
  decimals = none;
  conjugated_address = none;
  min_swap_amount = none;
  max_swap_amount = none;
  coinmarketcap_id = none;
  price = none;
}

module _ {Db Num : Type 0} (orm : TokenOrm Db) (big : BigNumber Num) where
  unfoldable pub update : ℕ → UpdateToken Num → Action Db (Unit {0})
  update id u = modify (λ d. orm.update_token d id (record {
    name = u.name;
    symbol = u.symbol;
    decimals = u.decimals;
    conjugated_address = u.conjugated_address;
    min_swap_amount = Option.map (quantity_to_text big) u.min_swap_amount;
    max_swap_amount = Option.map (quantity_to_text big) u.max_swap_amount;
    coinmarketcap_id = u.coinmarketcap_id;
    price = Option.map big.to_text u.price;
  }))

module _ {Db : Type 0} (orm : TokenOrm Db) where
  unfoldable pub find_all : Action Db (List Token)
  find_all = gets orm.find_tokens

  unfoldable pub find_by_id : ℕ → Action Db (Option Token)
  find_by_id id = gets (λ d. orm.find_token d id)

  unfoldable pub find_one : Blockchain → String → Action Db (Option Token)
  find_one blockchain address = gets (λ d. orm.find_token_at d blockchain address)

  abbrev saved : Db → Result (Token × Db) → Result Token × Db
  saved d (ok (token, d')) = (ok token, d')
  saved d (err message) = (err message, d)

  unfoldable pub create : TokenDraft → Action Db Token
  create draft d = saved d (orm.save_token d draft)
