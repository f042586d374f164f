-- ===== src/Wallets/Controller.antt =====
-- src/wallets/controllers/wallets.controller.ts: the wallets that an administrator creates,
-- attaches, changes and detaches. An HTTP exception is its message.
pub mod Attaching
pub mod Creating
pub mod Drafting
pub mod Looking
pub mod Mnemonics
pub mod Storing
pub mod Updating
use eth_ton_swap.Common.{
  ℕ, String, Bool, true, false, not, Option, none, some, List, [], ◌∷◌, str_eq, Result, ok, err,
  Action, pure, throw, lift, gets, or_throw, ◌>>=◌, ◌>>◌, if◌then◌else◌,
}
use mathlib.Core.Option
use eth_ton_swap.Common.Errors.{
  error_token_not_found, error_wallet_not_found, error_wallet_already_exists,
}
use eth_ton_swap.Common.Fallible.{◌>>=◌ as bind, traverse, otherwise}
use eth_ton_swap.Common.Number.{parse_nullable}
use eth_ton_swap.Entities.{Blockchain, ethereum, ton, WalletType, Token, Wallet}
use eth_ton_swap.Database.{Orm, by_token_and_type}
use eth_ton_swap.World.{World, WalletJobData, add_wallet_job}
use eth_ton_swap.Env.{Env}
use eth_ton_swap.Ethereum
use eth_ton_swap.Ton.Blockchain.{non_empty}
use eth_ton_swap.Ton.Contract.{get_jetton_wallet_address, get_jetton_wallet_data}
use eth_ton_swap.Tokens.Dto.{GetPublicToken, to_get_public_token}
use eth_ton_swap.Wallets.Jobs.{wallet_job}
use eth_ton_swap.Wallets.Mnemonic.{split_space}
use eth_ton_swap.Wallets.Pipes.{CreateWalletRequest, AttachWalletRequest}
use eth_ton_swap.Wallets.Repository
use eth_ton_swap.Wallets.Repository.{UpdateWallet, AttachWallet, any_wallet}

-- `UpdateWalletDto` and `QueryWalletsDto`
pub record UpdateWalletRequest : Type 0 where
  pub mnemonic : Option String
  pub conjugated_address : Option String
  pub balance : Option String
  pub type : Option WalletType
  pub deployed : Option Bool
  pub in_use : Option Bool
  pub disabled : Option Bool

pub record QueryWallets : Type 0 where
  pub blockchain : Option Blockchain
  pub type : Option WalletType
  pub min_balance : Option String
  pub deployed : Option Bool
  pub in_use : Option Bool
  pub disabled : Option Bool

-- `GetWalletDto`; the time of the last change is written by the database alone, and is left out
pub record GetWallet : Type 0 where
  pub id : ℕ
  pub address : String
  pub mnemonic : Option (List String)
  pub conjugated_address : Option String
  pub balance : Option String
  pub type : WalletType
  pub token : GetPublicToken
  pub deployed : Bool
  pub is_use : Bool
  pub disabled : Bool
  pub created_at : ℕ

abbrev pub is_minter : WalletType → Bool
is_minter WalletType.minter = true
is_minter _ = false

-- `if (wallet) throw`
abbrev pub throw_if_some : {W : Type 0} → Option Wallet → Action W (Unit {0})
throw_if_some none = pure tt
throw_if_some (some wallet) = throw error_wallet_already_exists

module _ {Num Slice : Type 0} (e : Env Num Slice) where
  -- `toGetWalletDto`
  unfoldable pub to_get_wallet : Wallet → Result GetWallet
  to_get_wallet wallet =
      bind (traverse e.decrypt_text (Option.bind wallet.mnemonic non_empty)) (λ mnemonic.
        ok (record {
          id = wallet.id;
          address = wallet.address;
          mnemonic = Option.map split_space mnemonic;
          conjugated_address = wallet.conjugated_address;
          balance = wallet.balance;
          type = wallet.type;
          token = to_get_public_token wallet.token;
          deployed = wallet.deployed;
          is_use = wallet.in_use;
          disabled = wallet.disabled;
          created_at = wallet.created_at;
        }))

  to_get_wallets : List Wallet → Result (List GetWallet)
  to_get_wallets [] = ok []
  to_get_wallets (wallet ∷ wallets) =
      bind (to_get_wallet wallet)
        (λ first. bind (to_get_wallets wallets) (λ rest. ok (first ∷ rest)))

  -- The conjugated address of an attached TON wallet, and its balance: a call that throws is
  -- passed over.
  abbrev pub conjugated : AttachWalletRequest → Token → Option String
  conjugated r token =
      if is_minter r.type
      then r.conjugated_address
      else otherwise r.conjugated_address (
          bind (get_jetton_wallet_address e token.address r.address) (λ address. ok (some address)))

  abbrev pub jetton_balance : Option String → Num
  jetton_balance none = e.big.parse "0"
  jetton_balance (some address) =
      otherwise (e.big.parse "0")
        (bind (get_jetton_wallet_data e address) (λ answer. ok answer.balance))

  -- the `switch` on the token's blockchain
  abbrev pub looked_up : AttachWalletRequest → Token → Blockchain → Result (Option String × Num)
  looked_up r token ethereum =
      bind (Ethereum.create_token_contract e token.address r.secret_key) (λ contract.
        bind (Ethereum.get_token_balance e contract r.address token.decimals)
          (λ balance. ok (r.conjugated_address, balance)))
  looked_up r token ton =
      let address = conjugated r token in
      ok (address, jetton_balance (Option.bind address non_empty))

  -- What a request changes: a balance that is missing goes through `new BigNumber(undefined)`.
  abbrev pub requested : UpdateWalletRequest → ℕ → UpdateWallet Num
  requested r decimals = record {
    mnemonic = r.mnemonic;
    conjugated_address = r.conjugated_address;
    balance = some (record { quantity = parse_nullable e.big r.balance; decimals = decimals });
    type = r.type;
    deployed = r.deployed;
    in_use = r.in_use;
    disabled = r.disabled;
  }

  -- what is attached
  abbrev pub attached : AttachWalletRequest → Token → Option String → Num → AttachWallet Num
  attached r token conjugated_address balance = record {
    secret_key = r.secret_key;
    mnemonic = r.mnemonic;
    address = r.address;
    conjugated_address = conjugated_address;
    balance = record { quantity = balance; decimals = token.decimals };
    token = token;
    type = r.type;
  }

module _ {Db Num Slice : Type 0} (orm : Orm Db) (e : Env Num Slice) where
  -- a TON wallet needs toncoins of a giver
  unfoldable pub pay_first_toncoins : Blockchain → Wallet → Action (World Db) (Unit {0})
  pay_first_toncoins ethereum wallet = pure tt
  pay_first_toncoins ton wallet = do
    found ←
        Repository.find_best_matched_one orm e
          (record { blockchain = ton; type = WalletType.giver; min_balance = none; in_use = none })
    giver_wallet ← or_throw found error_wallet_not_found
    add_wallet_job (wallet_job (WalletJobData.transfer_toncoins wallet.id giver_wallet.id) none)

  -- `createWallet`
  unfoldable pub create_wallet : CreateWalletRequest → Action (World Db) GetWallet
  create_wallet r = do
    found ← gets (λ w. orm.find_token w.db r.token_id)
    token ← or_throw found error_token_not_found
    wallet ← Repository.create orm e r.type token
    pay_first_toncoins token.blockchain wallet
    lift (to_get_wallet e wallet)

  -- `attachWallet`
  unfoldable pub attach_wallet : AttachWalletRequest → Action (World Db) GetWallet
  attach_wallet r = do
    found ← gets (λ w. orm.find_token w.db r.token_id)
    token ← or_throw found error_token_not_found
    other ← Repository.find_one orm token.blockchain r.address
    throw_if_some other
    (conjugated_address, balance) ← lift (looked_up e r token token.blockchain)
    wallet ← Repository.attach orm e (attached e r token conjugated_address balance)
    lift (to_get_wallet e wallet)

  -- `updateWallet`
  unfoldable pub update_wallet : ℕ → UpdateWalletRequest → Action (World Db) GetWallet
  update_wallet id r = do
    found ← Repository.find_by_id orm id
    wallet ← or_throw found error_wallet_not_found
    Repository.update orm e id (requested e r wallet.token.decimals)
    again ← Repository.find_by_id orm id
    updated ← or_throw again "Cannot read properties of null"
    lift (to_get_wallet e updated)

  -- `detachWallet`
  unfoldable pub detach_wallet : ℕ → Action (World Db) (Unit {0})
  detach_wallet id = do
    found ← Repository.find_by_id orm id
    wallet ← or_throw found error_wallet_not_found
    Repository.delete orm id

  -- `getWallets`
  unfoldable pub get_wallets : QueryWallets → Action (World Db) (List GetWallet)
  unfolding to_get_wallets
  get_wallets q = do
    wallets ←
        Repository.find_all orm e
          (record any_wallet {
            blockchain = q.blockchain;
            type = q.type;
            min_balance = Option.map e.big.parse q.min_balance;
            deployed = q.deployed;
            in_use = q.in_use;
            disabled = q.disabled;
          })
          by_token_and_type
    lift (to_get_wallets e wallets)

  -- `getWallet`
  unfoldable pub get_wallet : ℕ → Action (World Db) GetWallet
  get_wallet id = do
    found ← Repository.find_by_id orm id
    wallet ← or_throw found error_wallet_not_found
    lift (to_get_wallet e wallet)
