-- ===== src/Ton/Minters.antt =====
-- src/ton/controllers/minters.controller.ts: the jetton minters that an administrator deploys.
use eth_ton_swap.Common.{String, Bool, some, Result, ok, Action, pure, lift, ◌>>=◌, ◌>>◌}
use eth_ton_swap.Common.Errors.{error_jetton_minter_admin_wallet_not_found}
use eth_ton_swap.Common.Fallible.{◌>>=◌ as bind}
use eth_ton_swap.Entities.{Token}
use eth_ton_swap.Database.{Orm}
use eth_ton_swap.World.{World}
use eth_ton_swap.Env.{Env}
use eth_ton_swap.Ton.Blockchain.{normalize_address}
use eth_ton_swap.Ton.Contract.{
  create_wallet_signer, get_jetton_minter_data, deploy_jetton_minter, deploy_jetton_minter_gas,
}
use eth_ton_swap.Ton.Contract
use eth_ton_swap.Ton.Pipes.{DeployJettonMinter, MintJettons}
use eth_ton_swap.Ton.Wallets.{
  TransactionResult, transaction_result, format_toncoins, format_jettons, wallet_at, token_at,
  unless_dry,
}
use eth_ton_swap.Wallets.Repository
use eth_ton_swap.Wallets.Repository.{no_update}

-- `GetJettonMinterDataDto`
pub record GetMinterData : Type 0 where
  pub total_supply : String
  pub jetton_minter_address : String
  pub jetton_minter_balance : String
  pub jetton_content_uri : String
  pub is_mutable : Bool
  pub admin_wallet_address : String
  pub admin_wallet_balance : String

module _ {Num Slice : Type 0} (e : Env Num Slice) where
  shown_minter : String → Token → Result GetMinterData
  shown_minter address token = bind (get_jetton_minter_data e address) (λ answer.
      bind (normalize_address e answer.jetton_minter_address) (λ minter.
        bind (normalize_address e answer.admin_wallet_address) (λ admin. ok (record {
          total_supply = format_jettons e answer.total_supply token;
          jetton_minter_address = minter;
          jetton_minter_balance = format_toncoins e answer.jetton_minter_balance;
          jetton_content_uri = answer.jetton_content_uri;
          is_mutable = answer.is_mutable;
          admin_wallet_address = admin;
          admin_wallet_balance = format_toncoins e answer.admin_wallet_balance;
        }))))

module _ {Db Num Slice : Type 0} (orm : Orm Db) (e : Env Num Slice) where
  -- `deployMinter`
  unfoldable pub deploy_minter : DeployJettonMinter → Action (World Db) TransactionResult
  deploy_minter r = do
    admin ← wallet_at orm r.admin_wallet_address error_jetton_minter_admin_wallet_not_found
    signer ← lift (create_wallet_signer e admin.secret_key)
    total_fee ← deploy_jetton_minter e signer (e.big.parse deploy_jetton_minter_gas) r.dry_run
    unless_dry r.dry_run (do
      minter ← lift (
          bind (e.ton.wallet_address signer.secret_key) (λ own.
            bind (get_jetton_minter_data e own)
              (λ answer. normalize_address e answer.jetton_minter_address)))
      Repository.update orm e admin.id (record no_update {
        conjugated_address = some minter;
        balance = some (record { quantity = e.big.parse "0"; decimals = admin.token.decimals });
      }))
    pure (transaction_result e total_fee)

  -- `mintJettons`
  unfoldable pub mint_jettons : MintJettons → Action (World Db) TransactionResult
  mint_jettons r = do
    admin ← wallet_at orm r.admin_address error_jetton_minter_admin_wallet_not_found
    token ← token_at orm admin.address
    signer ← lift (create_wallet_signer e admin.secret_key)
    total_fee ←
        Contract.mint_jettons e signer r.destination_address (e.big.parse r.jetton_amount)
          (e.big.parse r.transfer_amount) (e.big.parse r.mint_transfer_amount) r.dry_run
    pure (transaction_result e total_fee)

  -- `getMinterData`
  unfoldable pub minter_data : String → Action (World Db) GetMinterData
  unfolding shown_minter
  minter_data address = do token ← token_at orm address; lift (shown_minter e address token)
