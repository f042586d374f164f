-- ===== src/Wallets/Processor.antt =====
-- src/wallets/processors/wallets.processor.ts: a TON wallet gets its first toncoins from a giver,
-- and is deployed. Calls of the logger are left out.
pub mod Quiet
use eth_ton_swap.Common.{
  ℕ, Bool, true, false, not, Option, none, some, str_eq, Action, pure, throw, throw_if, lift, ◌>>=◌,
  ◌>>◌, if◌then◌else◌,
}
use eth_ton_swap.Common.Number.{quantity_of}
use eth_ton_swap.Entities.{Wallet}
use eth_ton_swap.Database.{Orm}
use eth_ton_swap.World.{World, WalletJobData, add_wallet_job}
use eth_ton_swap.Env.{Env}
use eth_ton_swap.Ton.Blockchain.{
  TransactionData, find_transaction, get_wallet_data, ton_block_tracking_interval,
}
use eth_ton_swap.Ton.Contract.{create_wallet_signer, deploy_wallet_gas}
use eth_ton_swap.Ton.Contract
use eth_ton_swap.Wallets.Jobs.{wallet_job}
use eth_ton_swap.Wallets.Repository
use eth_ton_swap.Wallets.Repository.{no_update}

module _ {Db Num Slice : Type 0} (orm : Orm Db) (e : Env Num Slice) where
  -- the giver sends the gas of the deployment; the address does not bounce, since nothing is there
  transfer_from : Wallet → Option Wallet → Action (World Db) Bool
  transfer_from wallet none = pure false
  transfer_from wallet (some giver_wallet) = do
    signer ← lift (create_wallet_signer e giver_wallet.secret_key)
    Contract.transfer e signer wallet.address (e.big.parse deploy_wallet_gas) false none none false
    pure true

  transfer_found : ℕ → Option Wallet → Action (World Db) Bool
  unfolding transfer_from
  transfer_found giver_wallet_id none = pure false
  transfer_found giver_wallet_id (some wallet) =
      Repository.find_by_id orm giver_wallet_id >>= transfer_from wallet

  -- `transferToncoins`
  unfoldable pub transfer_toncoins : ℕ → ℕ → Action (World Db) Bool
  unfolding transfer_found
  transfer_toncoins wallet_id giver_wallet_id =
      Repository.find_by_id orm wallet_id >>= transfer_found giver_wallet_id

  confirm_transaction : Option (TransactionData Num) → Action (World Db) Bool
  confirm_transaction none = throw "Toncoins transfer transaction not found"
  confirm_transaction (some transaction) = pure true

  confirm_found : Option Wallet → Action (World Db) Bool
  unfolding confirm_transaction
  confirm_found none = pure false
  confirm_found (some wallet) =
      lift (find_transaction e wallet.address wallet.created_at none) >>= confirm_transaction

  -- `confirmToncoinsTransfer`
  unfoldable pub confirm_toncoins_transfer : ℕ → Action (World Db) Bool
  unfolding confirm_found
  confirm_toncoins_transfer wallet_id = Repository.find_by_id orm wallet_id >>= confirm_found

  deploy_found : Option Wallet → Action (World Db) Bool
  deploy_found none = pure false
  deploy_found (some wallet) = do
    signer ← lift (create_wallet_signer e wallet.secret_key)
    Contract.deploy_wallet e signer false
    pure true

  -- `deployWallet`
  unfoldable pub deploy_wallet : ℕ → Action (World Db) Bool
  unfolding deploy_found
  deploy_wallet wallet_id = Repository.find_by_id orm wallet_id >>= deploy_found

  confirm_deploy_found : Option Wallet → Action (World Db) Bool
  confirm_deploy_found none = pure false
  confirm_deploy_found (some wallet) = do
    wallet_data ← lift (get_wallet_data e wallet.address)
    throw_if (not (str_eq wallet_data.account_state "active")) "Wallet inactive"
    Repository.update orm e wallet.id (record no_update {
      balance = some (quantity_of e.big "0" wallet.token.decimals);
      deployed = some true;
    })
    pure true

  -- `confirmWalletDeploy`
  unfoldable pub confirm_wallet_deploy : ℕ → Action (World Db) Bool
  unfolding confirm_deploy_found
  confirm_wallet_deploy wallet_id = Repository.find_by_id orm wallet_id >>= confirm_deploy_found

module _ {Db : Type 0} where
  -- `onTransferToncoinsCompleted`
  unfoldable pub on_transfer_toncoins_completed : ℕ → ℕ → Bool → Action (World Db) (Unit {0})
  on_transfer_toncoins_completed wallet_id giver_wallet_id result =
      if not result
      then pure tt
      else add_wallet_job (
          wallet_job (WalletJobData.confirm_toncoins_transfer wallet_id giver_wallet_id)
            (some ton_block_tracking_interval))

  -- `onConfirmToncoinsTransferCompleted`
  unfoldable pub on_confirm_toncoins_transfer_completed : ℕ → Bool → Action (World Db) (Unit {0})
  on_confirm_toncoins_transfer_completed wallet_id result =
      if not result
      then pure tt
      else add_wallet_job (wallet_job (WalletJobData.deploy_wallet wallet_id) none)

  -- `onDeployWalletCompleted`
  unfoldable pub on_deploy_wallet_completed : ℕ → Bool → Action (World Db) (Unit {0})
  on_deploy_wallet_completed wallet_id result =
      if not result
      then pure tt
      else add_wallet_job (
          wallet_job (WalletJobData.confirm_wallet_deploy wallet_id)
            (some ton_block_tracking_interval))

  -- `onConfirmWalletDeployCompleted` only logs
  unfoldable pub on_confirm_wallet_deploy_completed : ℕ → Bool → Action (World Db) (Unit {0})
  on_confirm_wallet_deploy_completed wallet_id result = pure tt
