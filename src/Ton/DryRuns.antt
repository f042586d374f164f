-- ===== src/Ton/DryRuns.antt =====
-- The dry runs of src/ton/controllers.
use eth_ton_swap.Common.{Bool, true, String, sym, subst, Action, ◌≡◌, Option}
use eth_ton_swap.Database.{Orm}
use eth_ton_swap.World.{World, TonBody, StateInit}
use eth_ton_swap.Env.{Env}
use eth_ton_swap.Swaps.Pipeline.Reading.{Reads, read_rules}
use eth_ton_swap.Ton.Contract
use eth_ton_swap.Ton.Contract.{WalletSigner, submit, transfer}
use eth_ton_swap.Ton.Pipes.{
  DeployWallet, TransferToncoins, TransferJettons, BurnJettons, DeployJettonMinter, MintJettons,
}
use eth_ton_swap.Ton.Wallets.{
  TransactionResult, deploy_wallet, transfer_toncoins, transfer_jettons, burn_jettons,
}
use eth_ton_swap.Ton.Minters.{deploy_minter, mint_jettons}
use eth_ton_swap.Wallets.Repository

module _ {Db Num Slice : Type 0} (e : Env Num Slice) where
  dry_transfer :
      (signer : WalletSigner) (to : String) (amount : Num) (bounceable : Bool)
      (payload : Option TonBody) (state_init : Option StateInit)
      → Reads {W = World Db} (transfer e signer to amount bounceable payload state_init true)
  unfolding transfer submit
  dry_transfer signer to amount bounceable payload state_init = search read_rules depth 20

module _ {Db Num Slice : Type 0} (orm : Orm Db) (e : Env Num Slice) where
  dry_deploy_wallet : (r : DeployWallet) → Reads (deploy_wallet orm e (record r { dry_run = true }))
  unfolding deploy_wallet Contract.deploy_wallet Repository.find_one
  dry_deploy_wallet r = search (read_rules, dry_transfer) depth 20

  dry_transfer_toncoins :
      (r : TransferToncoins) → Reads (transfer_toncoins orm e (record r { dry_run = true }))
  unfolding transfer_toncoins Repository.find_one
  dry_transfer_toncoins r = search (read_rules, dry_transfer) depth 20

  dry_transfer_jettons :
      (r : TransferJettons) → Reads (transfer_jettons orm e (record r { dry_run = true }))
  unfolding transfer_jettons Contract.transfer_jettons Repository.find_one
  dry_transfer_jettons r = search (read_rules, dry_transfer) depth 30

  dry_burn_jettons : (r : BurnJettons) → Reads (burn_jettons orm e (record r { dry_run = true }))
  unfolding burn_jettons Contract.burn_jettons Repository.find_one
  dry_burn_jettons r = search (read_rules, dry_transfer) depth 30

  dry_deploy_minter :
      (r : DeployJettonMinter) → Reads (deploy_minter orm e (record r { dry_run = true }))
  unfolding deploy_minter Contract.deploy_jetton_minter Repository.find_one
  dry_deploy_minter r = search (read_rules, dry_transfer) depth 20

  dry_mint_jettons : (r : MintJettons) → Reads (mint_jettons orm e (record r { dry_run = true }))
  unfolding mint_jettons Contract.mint_jettons Repository.find_one
  dry_mint_jettons r = search (read_rules, dry_transfer) depth 30

-- A request to one of the six endpoints that send to the network.
pub data Sending : Type 0 where
  deploying_wallet : DeployWallet → Sending
  sending_toncoins : TransferToncoins → Sending
  sending_jettons : TransferJettons → Sending
  burning_jettons : BurnJettons → Sending
  deploying_minter : DeployJettonMinter → Sending
  minting_jettons : MintJettons → Sending

abbrev pub is_dry : Sending → Bool
is_dry (deploying_wallet r) = r.dry_run
is_dry (sending_toncoins r) = r.dry_run
is_dry (sending_jettons r) = r.dry_run
is_dry (burning_jettons r) = r.dry_run
is_dry (deploying_minter r) = r.dry_run
is_dry (minting_jettons r) = r.dry_run

module _ {Db Num Slice : Type 0} (orm : Orm Db) (e : Env Num Slice) where
  abbrev pub serve : Sending → Action (World Db) TransactionResult
  serve (deploying_wallet r) = deploy_wallet orm e r
  serve (sending_toncoins r) = transfer_toncoins orm e r
  serve (sending_jettons r) = transfer_jettons orm e r
  serve (burning_jettons r) = burn_jettons orm e r
  serve (deploying_minter r) = deploy_minter orm e r
  serve (minting_jettons r) = mint_jettons orm e r

  dry_at :
      {A : Type 0} (f : Bool → Action (World Db) A) (b : Bool) (w : World Db)
      → b ≡ true
      → Reads (f true)
      → (f b w).1 ≡ w
  dry_at f b w h reads = subst (λ c. (f c w).1 ≡ w) (sym h) (reads.at w)

  -- A dry run of any of the six endpoints that send to TON, whether it returns or throws,
  -- changes nothing: no row, no job, no event, and no request is sent.
  pub dry_run_keeps : (s : Sending) (w : World Db) → is_dry s ≡ true → (serve s w).1 ≡ w
  dry_run_keeps (deploying_wallet r) w dry =
      dry_at (λ b. deploy_wallet orm e (record r { dry_run = b })) r.dry_run w dry
        (dry_deploy_wallet orm e r)
  dry_run_keeps (sending_toncoins r) w dry =
      dry_at (λ b. transfer_toncoins orm e (record r { dry_run = b })) r.dry_run w dry
        (dry_transfer_toncoins orm e r)
  dry_run_keeps (sending_jettons r) w dry =
      dry_at (λ b. transfer_jettons orm e (record r { dry_run = b })) r.dry_run w dry
        (dry_transfer_jettons orm e r)
  dry_run_keeps (burning_jettons r) w dry =
      dry_at (λ b. burn_jettons orm e (record r { dry_run = b })) r.dry_run w dry
        (dry_burn_jettons orm e r)
  dry_run_keeps (deploying_minter r) w dry =
      dry_at (λ b. deploy_minter orm e (record r { dry_run = b })) r.dry_run w dry
        (dry_deploy_minter orm e r)
  dry_run_keeps (minting_jettons r) w dry =
      dry_at (λ b. mint_jettons orm e (record r { dry_run = b })) r.dry_run w dry
        (dry_mint_jettons orm e r)
