-- ===== src/Wallets/Processor/Quiet.antt =====
-- What the processors of the wallets leave alone: their queue is left to the listeners.
use eth_ton_swap.Common.{ℕ, String, Bool, true, false, Option}
use eth_ton_swap.Database.{Orm}
use eth_ton_swap.World.{World, Request, TonBody, StateInit, send}
use eth_ton_swap.Env.{Env}
use eth_ton_swap.Ton.Contract
use eth_ton_swap.Ton.Contract.{WalletSigner}
use eth_ton_swap.Wallets.Repository
use eth_ton_swap.Wallets.Repository.{UpdateWallet}
use eth_ton_swap.World.Keeps.{
  Keeps, Keeps-option, Keeps-bind, Keeps-lift, Keeps-gets, keep_rules, wallet_jobs,
}
use eth_ton_swap.Wallets.Processor.{
  transfer_toncoins, confirm_toncoins_transfer, deploy_wallet, confirm_wallet_deploy,
}

module _ {Db Num Slice X : Type 0} (view : World Db → X)
    (sends : (r : Request) → Keeps view (send r)) (orm : Orm Db) (e : Env Num Slice) where
  submit-Keeps : (r : Request) (dry_run : Bool) → Keeps view (Contract.submit {Db = Db} e r dry_run)
  unfolding Contract.submit
  submit-Keeps r true = search keep_rules
  submit-Keeps r false = search (keep_rules, sends)

  pub transfer-Keeps :
      (s : WalletSigner) (to : String) (amount : Num) (bounceable : Bool) (body : Option TonBody)
      (state_init : Option StateInit) (dry_run : Bool)
      → Keeps view (Contract.transfer {Db = Db} e s to amount bounceable body state_init dry_run)
  unfolding Contract.transfer
  transfer-Keeps s to amount bounceable body state_init dry_run =
      search (keep_rules, submit-Keeps) depth 16

  contract_deploy-Keeps :
      (s : WalletSigner) (dry_run : Bool)
      → Keeps view (Contract.deploy_wallet {Db = Db} e s dry_run)
  unfolding Contract.deploy_wallet
  contract_deploy-Keeps s dry_run = search (keep_rules, submit-Keeps) depth 16

  pub transfer_toncoins-Keeps : (i g : ℕ) → Keeps view (transfer_toncoins orm e i g)
  unfolding transfer_toncoins Repository.find_by_id
  transfer_toncoins-Keeps i g = Keeps-bind _ _ _ (Keeps-gets _ _) (
      Keeps-option _ _ (search keep_rules) λ wallet. Keeps-bind _ _ _ (Keeps-gets _ _) (
        Keeps-option _ _ (search keep_rules) λ giver. search (keep_rules, transfer-Keeps) depth 16))

  pub confirm_toncoins_transfer-Keeps : (i : ℕ) → Keeps view (confirm_toncoins_transfer orm e i)
  unfolding confirm_toncoins_transfer Repository.find_by_id
  confirm_toncoins_transfer-Keeps i = Keeps-bind _ _ _ (Keeps-gets _ _) (
      Keeps-option _ _ (search keep_rules) λ wallet.
        Keeps-bind _ _ _ (Keeps-lift _ _)
          (Keeps-option _ _ (search keep_rules) (λ transaction. search keep_rules)))

  pub deploy_wallet-Keeps : (i : ℕ) → Keeps view (deploy_wallet orm e i)
  unfolding deploy_wallet Repository.find_by_id
  deploy_wallet-Keeps i = Keeps-bind _ _ _ (Keeps-gets _ _) (
      Keeps-option _ _ (search keep_rules)
        λ wallet. search (keep_rules, contract_deploy-Keeps) depth 16)

module _ {Db Num Slice : Type 0} (orm : Orm Db) (e : Env Num Slice) where
  pub update-Keeps :
      (id : ℕ) (u : UpdateWallet Num) → Keeps wallet_jobs (Repository.update orm e id u)
  unfolding Repository.update
  update-Keeps id u = search keep_rules depth 16

  pub confirm_wallet_deploy-Keeps : (i : ℕ) → Keeps wallet_jobs (confirm_wallet_deploy orm e i)
  unfolding confirm_wallet_deploy Repository.find_by_id
  confirm_wallet_deploy-Keeps i =
      Keeps-bind _ _ _ (Keeps-gets _ _)
        (Keeps-option _ _ (search keep_rules) λ wallet. search (keep_rules, update-Keeps) depth 16)
