-- ===== src/Ton/Contract.antt =====
-- src/ton/providers/ton-contract.service.ts: the requests to the contracts. Tonweb builds the
-- bodies; a request that the network answers with an error throws and counts as not sent.
use eth_ton_swap.Common.{
  String, ◌+◌, Bool, true, false, Option, none, some, Result, ok, Action, pure, lift, ◌>>=◌, ◌>>◌,
}
use eth_ton_swap.Common.Fallible.{◌>>=◌ as bind, traverse}
use eth_ton_swap.World.{
  World, Request, TonBody, StateInit, wallet_of_key, minter_of_admin, ton_message, send,
}
use eth_ton_swap.Env.{Env, SourceFees}
use eth_ton_swap.Ton.Blockchain.{from_nano, get_balance}

-- `WalletSigner`: the secret key, from which tonweb derives the wallet.
pub record WalletSigner : Type 0 where
  pub secret_key : String

-- `JettonWalletData` and `JettonMinterData`
pub record JettonWalletData (Num : Type 0) : Type 0 where
  pub balance : Num
  pub owner_address : String
  pub jetton_minter_address : String

pub record JettonMinterData (Num : Type 0) : Type 0 where
  pub total_supply : Num
  pub jetton_minter_address : String
  pub jetton_minter_balance : Num
  pub admin_wallet_address : String
  pub admin_wallet_balance : Num
  pub jetton_content_uri : String
  pub is_mutable : Bool

-- the gas amounts of src/ton/constants.ts
abbrev pub deploy_wallet_gas : String
deploy_wallet_gas = "0.01"

abbrev pub deploy_jetton_minter_gas : String
deploy_jetton_minter_gas = "0.038"

abbrev pub transfer_jetton_gas : String
transfer_jetton_gas = "0.035"

abbrev pub mint_transfer_gas : String
mint_transfer_gas = "0.008"

abbrev pub mint_jetton_gas : String
mint_jetton_gas = "0.02"

abbrev pub burn_jetton_gas : String
burn_jetton_gas = "0.07"

module _ {Num Slice : Type 0} (e : Env Num Slice) where
  abbrev pub create_wallet_signer : String → Result WalletSigner
  create_wallet_signer encrypted_secret_key =
      bind (e.decrypt_text encrypted_secret_key) (λ key. ok (record { secret_key = key }))

  -- `toNano(amount.toString())`
  abbrev nano : Num → Result String
  nano amount = e.ton.to_nano (e.big.to_text amount)

  abbrev pub get_jetton_wallet_address : String → String → Result String
  get_jetton_wallet_address admin_any owner_any = bind (e.ton.parse_address admin_any) (λ admin.
      bind (e.ton.parse_address owner_any) (λ owner. e.ton.jetton_wallet_address admin owner))

  -- `getJettonWalletData`
  unfoldable pub get_jetton_wallet_data : String → Result (JettonWalletData Num)
  get_jetton_wallet_data jetton_wallet_any =
      bind (e.ton.parse_address jetton_wallet_any) (λ jetton_wallet.
        bind (e.ton.get_jetton_wallet jetton_wallet) (λ info. ok (record {
          balance = from_nano e (e.ton.decimal info.balance);
          owner_address = info.owner_address;
          jetton_minter_address = info.jetton_minter_address;
        })))

  -- `getJettonMinterData`
  unfoldable pub get_jetton_minter_data : String → Result (JettonMinterData Num)
  get_jetton_minter_data admin_any = bind (e.ton.parse_address admin_any) (λ admin.
      bind (get_balance e admin) (λ admin_balance. bind (e.ton.minter_address admin) (λ minter.
        bind (get_balance e minter) (λ minter_balance. bind (e.ton.get_jetton_info admin) (λ info.
          ok (record {
            total_supply = e.big.div (e.big.parse info.total_supply) (e.big.parse "1000000000");
            jetton_minter_address = minter;
            jetton_minter_balance = minter_balance;
            admin_wallet_address = admin;
            admin_wallet_balance = admin_balance;
            jetton_content_uri = info.jetton_content_uri;
            is_mutable = info.is_mutable;
          }))))))

  -- `calculateTotalFee`
  abbrev total_fee : SourceFees → Num
  total_fee fees = e.big.parse (
      e.ton.from_nano
        (e.ton.decimal (fees.in_fwd_fee + fees.storage_fee + fees.gas_fee + fees.fwd_fee)))

module _ {Db Num Slice : Type 0} (e : Env Num Slice) where
  -- a dry run asks for the fee, in place of sending
  unfoldable pub submit : Request → Bool → Action (World Db) (Option Num)
  submit request true = do fees ← lift (e.ton.estimate_fee request); pure (some (total_fee e fees))
  submit request false = do lift (e.ton.send request); send request; pure none

  unfoldable pub transfer :
      WalletSigner
      → String
      → Num
      → Bool
      → Option TonBody
      → Option StateInit
      → Bool
      → Action (World Db) (Option Num)
  unfolding submit
  transfer signer destination_any transfer_amount bounceable payload state_init dry_run = do
    seqno ← lift (e.ton.seqno signer.secret_key)
    destination ← lift (e.ton.parse_address destination_any)
    amount ← lift (nano e transfer_amount)
    submit
        (ton_message signer.secret_key (e.ton.friendly destination bounceable) amount seqno payload
          state_init)
        dry_run

  unfoldable pub deploy_wallet : WalletSigner → Bool → Action (World Db) (Option Num)
  unfolding transfer
  deploy_wallet signer dry_run = do
    address ← lift (e.ton.wallet_address signer.secret_key)
    transfer signer (e.ton.friendly address true) (e.big.parse "0") true none
        (some (wallet_of_key signer.secret_key)) dry_run

  unfoldable pub deploy_jetton_minter : WalletSigner → Num → Bool → Action (World Db) (Option Num)
  unfolding transfer
  deploy_jetton_minter signer transfer_amount dry_run = do
    admin ← lift (e.ton.wallet_address signer.secret_key)
    minter ← lift (e.ton.minter_address admin)
    transfer signer (e.ton.friendly minter true) transfer_amount true none
        (some (minter_of_admin admin)) dry_run

  unfoldable pub mint_jettons :
      WalletSigner → String → Num → Num → Num → Bool → Action (World Db) (Option Num)
  unfolding transfer
  mint_jettons signer destination_any jetton_amount transfer_amount mint_amount dry_run = do
    admin ← lift (e.ton.wallet_address signer.secret_key)
    minter ← lift (e.ton.minter_address admin)
    destination ← lift (e.ton.parse_address destination_any)
    jettons ← lift (nano e jetton_amount)
    amount ← lift (nano e mint_amount)
    transfer signer (e.ton.friendly minter true) transfer_amount true
        (some (TonBody.mint destination jettons amount)) none dry_run

  unfoldable pub transfer_jettons :
      WalletSigner
      → String
      → String
      → Num
      → Num
      → Option Num
      → Option String
      → Bool
      → Action (World Db) (Option Num)
  unfolding transfer
  transfer_jettons signer admin_any destination_any jetton_amount transfer_amount forward_amount
        forward_payload dry_run =
      do
        owner ← lift (e.ton.wallet_address signer.secret_key)
        admin ← lift (e.ton.parse_address admin_any)
        jetton_wallet ← lift (e.ton.jetton_wallet_address admin owner)
        jettons ← lift (nano e jetton_amount)
        destination ← lift (e.ton.parse_address destination_any)
        forward ← lift (traverse (nano e) forward_amount)
        transfer signer jetton_wallet transfer_amount true
            (some (TonBody.transfer destination jettons forward forward_payload owner)) none dry_run

  unfoldable pub burn_jettons :
      WalletSigner → String → Num → Num → Bool → Action (World Db) (Option Num)
  unfolding transfer
  burn_jettons signer admin_any jetton_amount transfer_amount dry_run = do
    owner ← lift (e.ton.wallet_address signer.secret_key)
    admin ← lift (e.ton.parse_address admin_any)
    jetton_wallet ← lift (e.ton.jetton_wallet_address admin owner)
    jettons ← lift (nano e jetton_amount)
    transfer signer jetton_wallet transfer_amount true (some (TonBody.burn jettons owner)) none
        dry_run
