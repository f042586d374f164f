-- ===== src/Ton/Wallets.antt =====
-- src/ton/controllers/wallets.controller.ts: what an administrator does with TON wallets.
use Prim.Native.String.{◌++◌}
use mathlib.Core.Option
use eth_ton_swap.Common.{
  ℕ, String, Bool, true, Option, some, none, Result, ok, List, [], ◌∷◌, Action, pure, lift, gets,
  or_throw, ◌>>=◌, ◌>>◌, if◌then◌else◌,
}
use eth_ton_swap.Common.Errors.{error_token_not_found, error_wallet_not_found}
use eth_ton_swap.Common.Fallible.{◌>>=◌ as bind, traverse, otherwise, answered}
use eth_ton_swap.Entities.{ton, Token, Wallet}
use eth_ton_swap.Database.{Orm}
use eth_ton_swap.World.{World, TonBody}
use eth_ton_swap.Env.{Env}
use eth_ton_swap.Ton.Blockchain.{normalize_address, get_wallet_data}
use eth_ton_swap.Ton.Contract.{
  create_wallet_signer, get_jetton_wallet_address, get_jetton_wallet_data,
}
use eth_ton_swap.Ton.Contract
use eth_ton_swap.Ton.Pipes.{
  DeployWallet, TransferToncoins, TransferJettons, BurnJettons, QueryJettonWalletData,
}
use eth_ton_swap.Wallets.Repository
use eth_ton_swap.Wallets.Repository.{no_update}

abbrev pub toncoin_decimals : ℕ
toncoin_decimals = 9

-- `GetTransactionResultDto`
pub record TransactionResult : Type 0 where
  pub total_fee : Option String

-- `GetWalletDataDto`
pub record GetWalletData : Type 0 where
  pub is_wallet : Bool
  pub address : String
  pub balance : String
  pub account_state : String
  pub wallet_type : Option String
  pub seqno : Option ℕ

-- `JettonData`
pub record JettonData : Type 0 where
  pub address : String
  pub conjugated_address : Option String
  pub balance : String

module _ {Num Slice : Type 0} (e : Env Num Slice) where
  abbrev pub format_toncoins : Num → String
  format_toncoins amount = e.big.to_fixed amount toncoin_decimals ++ " TON"

  abbrev pub format_jettons : Num → Token → String
  format_jettons amount token = e.big.to_fixed amount token.decimals ++ (" " ++ token.symbol)

  abbrev pub transaction_result : Option Num → TransactionResult
  transaction_result fee = record { total_fee = Option.map e.big.to_text fee }

  -- `getWalletData`
  unfoldable pub wallet_data : String → Result GetWalletData
  wallet_data address = bind (get_wallet_data e address) (λ answer.
      bind (normalize_address e answer.address) (λ normalized. ok (record {
        is_wallet = answer.is_wallet;
        address = normalized;
        balance = format_toncoins answer.balance;
        account_state = answer.account_state;
        wallet_type = answer.wallet_type;
        seqno = answer.seqno;
      })))

  -- One round of `getJettonWalletData`: a balance that is not answered counts as zero, and the
  -- address stands if it was found before.
  unfoldable pub jetton_data : String → String → Token → Result JettonData
  jetton_data wallet_address minter_admin_address token =
      let jetton_wallet = get_jetton_wallet_address e minter_admin_address wallet_address in
      let balance = otherwise (e.big.parse "0") (
        bind jetton_wallet (λ conjugated.
          bind (get_jetton_wallet_data e conjugated) (λ answer. ok answer.balance))) in
      bind (normalize_address e wallet_address) (λ address.
        bind (traverse (normalize_address e) (answered jetton_wallet)) (λ conjugated. ok (record {
          address = address;
          conjugated_address = conjugated;
          balance = format_jettons balance token;
        })))

module _ {Db : Type 0} (orm : Orm Db) where
  abbrev pub wallet_at : String → String → Action (World Db) Wallet
  wallet_at address message = do found ← Repository.find_one orm ton address; or_throw found message

  abbrev pub token_at : String → Action (World Db) Token
  token_at address = do
    found ← gets (λ w. orm.find_token_at w.db ton address)
    or_throw found error_token_not_found

-- what is stored where the run was not dry
abbrev pub unless_dry :
    {Db : Type 0} → Bool → Action (World Db) (Unit {0}) → Action (World Db) (Unit {0})
unless_dry dry_run m = if dry_run then pure tt else m

module _ {Db Num Slice : Type 0} (orm : Orm Db) (e : Env Num Slice) where
  -- `deployWallet`
  unfoldable pub deploy_wallet : DeployWallet → Action (World Db) TransactionResult
  deploy_wallet r = do
    wallet ← wallet_at orm r.address error_wallet_not_found
    signer ← lift (create_wallet_signer e wallet.secret_key)
    total_fee ← Contract.deploy_wallet e signer r.dry_run
    unless_dry r.dry_run (
        Repository.update orm e wallet.id (record no_update {
          balance = some (record { quantity = e.big.parse "0"; decimals = wallet.token.decimals });
          deployed = some true;
        }))
    pure (transaction_result e total_fee)

  -- `transferToncoins`
  unfoldable pub transfer_toncoins : TransferToncoins → Action (World Db) TransactionResult
  transfer_toncoins r = do
    wallet ← wallet_at orm r.source_address error_wallet_not_found
    signer ← lift (create_wallet_signer e wallet.secret_key)
    total_fee ←
        Contract.transfer e signer r.destination_address (e.big.parse r.amount) r.bounceable
          (Option.map TonBody.comment r.payload) none r.dry_run
    pure (transaction_result e total_fee)

  -- `transferJettons`
  unfoldable pub transfer_jettons : TransferJettons → Action (World Db) TransactionResult
  transfer_jettons r = do
    token ← token_at orm r.minter_admin_wallet_address
    wallet ← wallet_at orm r.source_address error_wallet_not_found
    signer ← lift (create_wallet_signer e wallet.secret_key)
    total_fee ←
        Contract.transfer_jettons e signer r.minter_admin_wallet_address r.destination_address
          (e.big.parse r.jetton_amount) (e.big.parse r.transfer_amount) none r.payload r.dry_run
    pure (transaction_result e total_fee)

  -- `burnJettons`
  unfoldable pub burn_jettons : BurnJettons → Action (World Db) TransactionResult
  burn_jettons r = do
    token ← token_at orm r.minter_admin_wallet_address
    wallet ← wallet_at orm r.owner_wallet_address error_wallet_not_found
    signer ← lift (create_wallet_signer e wallet.secret_key)
    total_fee ←
        Contract.burn_jettons e signer r.minter_admin_wallet_address (e.big.parse r.jetton_amount)
          (e.big.parse r.transfer_amount) r.dry_run
    pure (transaction_result e total_fee)

  -- `getJettonWalletData`
  unfoldable pub jettons_of : String → List String → Action (World Db) (List JettonData)
  jettons_of wallet_address [] = pure []
  jettons_of wallet_address (minter ∷ minters) = do
    token ← token_at orm minter
    jetton ← lift (jetton_data e wallet_address minter token)
    jettons ← jettons_of wallet_address minters
    pure (jetton ∷ jettons)

  abbrev pub jetton_wallet_data : QueryJettonWalletData → Action (World Db) (List JettonData)
  jetton_wallet_data r = jettons_of r.wallet_address r.minter_admin_addresses
