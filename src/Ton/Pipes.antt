-- ===== src/Ton/Pipes.antt =====
-- src/ton/dto and src/ton/pipes: the requests to the TON controllers, and the addresses in them
-- that are made uniform before a controller sees them.
use eth_ton_swap.Common.{String, Bool, Option, List, Result, ok, err}
use eth_ton_swap.Common.Errors.{error_invalid_address, error_jetton_minter_admin_wallet_not_found}
use eth_ton_swap.Common.Fallible.{◌>>=◌}
use eth_ton_swap.Env.{Env}
use eth_ton_swap.Ton.Blockchain.{normalize_address}

pub record DeployWallet : Type 0 where
  pub address : String
  pub dry_run : Bool

pub record TransferToncoins : Type 0 where
  pub source_address : String
  pub destination_address : String
  pub amount : String
  pub payload : Option String
  pub bounceable : Bool
  pub dry_run : Bool

pub record TransferJettons : Type 0 where
  pub minter_admin_wallet_address : String
  pub source_address : String
  pub destination_address : String
  pub jetton_amount : String
  pub transfer_amount : String
  pub payload : Option String
  pub dry_run : Bool

pub record BurnJettons : Type 0 where
  pub minter_admin_wallet_address : String
  pub owner_wallet_address : String
  pub jetton_amount : String
  pub transfer_amount : String
  pub dry_run : Bool

pub record DeployJettonMinter : Type 0 where
  pub admin_wallet_address : String
  pub dry_run : Bool

pub record MintJettons : Type 0 where
  pub admin_address : String
  pub destination_address : String
  pub jetton_amount : String
  pub transfer_amount : String
  pub mint_transfer_amount : String
  pub dry_run : Bool

pub record QueryJettonWalletData : Type 0 where
  pub wallet_address : String
  pub minter_admin_addresses : List String

-- `catch { throw new BadRequestException(message) }`
abbrev rejected : {A : Type 0} → String → Result A → Result A
rejected message (ok a) = ok a
rejected message (err m) = err message

module _ {Num Slice : Type 0} (e : Env Num Slice) where
  -- `DeployWalletPipe.transform`
  unfoldable pub check_deploy_wallet : DeployWallet → Result DeployWallet
  check_deploy_wallet r =
      rejected error_invalid_address
        (do address ← normalize_address e r.address; ok (record r { address = address }))

  -- `TransferToncoinsPipe.transform`
  unfoldable pub check_transfer_toncoins : TransferToncoins → Result TransferToncoins
  check_transfer_toncoins r = rejected error_invalid_address (do
    source ← normalize_address e r.source_address
    destination ← normalize_address e r.destination_address
    ok (record r { source_address = source; destination_address = destination }))

  -- `TransferJettonsPipe.transform`
  unfoldable pub check_transfer_jettons : TransferJettons → Result TransferJettons
  check_transfer_jettons r = rejected error_invalid_address (do
    admin ← normalize_address e r.minter_admin_wallet_address
    source ← normalize_address e r.source_address
    destination ← normalize_address e r.destination_address
    ok (record r {
      minter_admin_wallet_address = admin;
      source_address = source;
      destination_address = destination;
    }))

  -- `BurnJettonsPipe.transform`
  unfoldable pub check_burn_jettons : BurnJettons → Result BurnJettons
  check_burn_jettons r = rejected "Invalid address is specified" (do
    admin ← normalize_address e r.minter_admin_wallet_address
    owner ← normalize_address e r.owner_wallet_address
    ok (record r { minter_admin_wallet_address = admin; owner_wallet_address = owner }))

  -- `DeployJettonMinterPipe.transform`
  unfoldable pub check_deploy_minter : DeployJettonMinter → Result DeployJettonMinter
  check_deploy_minter r = rejected error_jetton_minter_admin_wallet_not_found (do
    admin ← normalize_address e r.admin_wallet_address
    ok (record r { admin_wallet_address = admin }))

  -- `MintJettonsPipe.transform`
  unfoldable pub check_mint_jettons : MintJettons → Result MintJettons
  check_mint_jettons r = rejected error_invalid_address (do
    admin ← normalize_address e r.admin_address
    destination ← normalize_address e r.destination_address
    ok (record r { admin_address = admin; destination_address = destination }))

  -- `QueryWalletDataPipe.transform` and `QueryJettonMinterDataPipe.transform`
  unfoldable pub check_address : String → Result String
  check_address address = rejected error_invalid_address (normalize_address e address)
