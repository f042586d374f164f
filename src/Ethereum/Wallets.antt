-- ===== src/Ethereum/Wallets.antt =====
-- src/ethereum/controllers/wallets.controller.ts and src/ethereum/pipes: what an administrator
-- does with Ethereum wallets.
use Prim.Native.String.{◌++◌}
use eth_ton_swap.Common.{
  String, Result, ok, err, List, [], ◌∷◌, Action, pure, lift, gets, or_throw, ◌>>=◌,
}
use eth_ton_swap.Common.Errors.{
  error_token_not_found, error_wallet_not_found, error_invalid_address,
}
use eth_ton_swap.Common.Fallible.{◌>>=◌ as bind, traverse_list}
use eth_ton_swap.Entities.{ethereum, Token, Wallet}
use eth_ton_swap.Database.{Orm}
use eth_ton_swap.World.{World}
use eth_ton_swap.Env.{Env}
use eth_ton_swap.Ethereum
use eth_ton_swap.Ethereum.{
  normalize_address, create_wallet_signer, create_token_contract, get_token_balance, get_gas_price,
}
use eth_ton_swap.Wallets.Repository

-- `TransferEthersDto`, `TransferTokensDto`, `QueryTokenDataDto` and `TokenData`
pub record TransferEthers : Type 0 where
  pub source_address : String
  pub destination_address : String
  pub amount : String

pub record TransferTokens : Type 0 where
  pub token_address : String
  pub source_address : String
  pub destination_address : String
  pub amount : String

pub record QueryTokenData : Type 0 where
  pub token_addresses : List String
  pub wallet_address : String

pub record TokenData : Type 0 where
  pub address : String
  pub balance : String

abbrev rejected : {A : Type 0} → Result A → Result A
rejected (ok a) = ok a
rejected (err m) = err error_invalid_address

module _ {Num Slice : Type 0} (e : Env Num Slice) where
  -- `TransferEthersPipe.transform`
  unfoldable pub check_transfer_ethers : TransferEthers → Result TransferEthers
  check_transfer_ethers r = rejected (
      bind (normalize_address e r.source_address) (λ source.
        bind (normalize_address e r.destination_address) (λ destination.
          ok (record r { source_address = source; destination_address = destination }))))

  -- `TransferTokensPipe.transform`
  unfoldable pub check_transfer_tokens : TransferTokens → Result TransferTokens
  check_transfer_tokens r = rejected (
      bind (normalize_address e r.token_address) (λ token.
        bind (normalize_address e r.source_address) (λ source.
          bind (normalize_address e r.destination_address) (λ destination. ok (record r {
            token_address = token;
            source_address = source;
            destination_address = destination;
          })))))

  -- `QueryTokenDataPipe.transform`: what the addresses are made into is thrown away
  unfoldable pub check_token_data : QueryTokenData → Result QueryTokenData
  unfolding traverse_list
  check_token_data r =
      rejected (bind (traverse_list (normalize_address e) r.token_addresses) (λ normalized. ok r))

  abbrev format_tokens : Token → Num → String
  format_tokens token amount = e.big.to_fixed amount token.decimals ++ (" " ++ token.symbol)

  shown_balance : Token → Wallet → Result TokenData
  shown_balance token wallet =
      bind (create_token_contract e token.address wallet.secret_key) (λ contract.
        bind (get_token_balance e contract wallet.address token.decimals) (λ balance.
          ok (record { address = wallet.address; balance = format_tokens token balance })))

module _ {Db Num Slice : Type 0} (orm : Orm Db) (e : Env Num Slice) where
  abbrev wallet_at : String → Action (World Db) Wallet
  wallet_at address = do
    found ← Repository.find_one orm ethereum address
    or_throw found error_wallet_not_found

  abbrev token_at : String → Action (World Db) Token
  token_at address = do
    found ← gets (λ w. orm.find_token_at w.db ethereum address)
    or_throw found error_token_not_found

  -- `transferEthers`, which answers the identifier of the transaction
  unfoldable pub transfer_ethers : TransferEthers → Action (World Db) String
  transfer_ethers r = do
    wallet ← wallet_at r.source_address
    signer ← lift (create_wallet_signer e wallet.secret_key)
    Ethereum.transfer_ethers e signer r.destination_address (e.big.parse r.amount)

  -- `transferTokens`
  unfoldable pub transfer_tokens : TransferTokens → Action (World Db) String
  transfer_tokens r = do
    token ← token_at r.token_address
    wallet ← wallet_at r.source_address
    gas_price ← get_gas_price e
    contract ← lift (create_token_contract e token.address wallet.secret_key)
    Ethereum.transfer_tokens e contract r.destination_address (e.big.parse r.amount) token.decimals
        gas_price

  token_data_of : String → List String → Action (World Db) (List TokenData)
  unfolding shown_balance
  token_data_of wallet_address [] = pure []
  token_data_of wallet_address (address ∷ addresses) = do
    token ← token_at address
    wallet ← wallet_at wallet_address
    shown ← lift (shown_balance e token wallet)
    rest ← token_data_of wallet_address addresses
    pure (shown ∷ rest)

  -- `getTokenData`
  unfoldable pub token_data : QueryTokenData → Action (World Db) (List TokenData)
  unfolding token_data_of
  token_data r = token_data_of r.wallet_address r.token_addresses
