-- ===== src/Wallets/Repository.antt =====
-- src/wallets/providers/wallets.repository.ts.
mod Interfaces
pub use Interfaces.*
use mathlib.Core.Option
use eth_ton_swap.Common.{
  Result, ok, err, strip_hex_prefix, ℕ, String, Bool, true, false, Option, none, some, List, [],
  ◌∷◌, Action, lift, gets, modify, ◌>>=◌, if◌then◌else◌,
}
use eth_ton_swap.Common.Fallible.{traverse, ◌>>=◌ as bind}
use eth_ton_swap.Common.Number.{Quantity, quantity_to_text}
use eth_ton_swap.Entities.{Blockchain, ethereum, ton, WalletType, Token, Wallet, is_ton}
use eth_ton_swap.Database.{
  Orm, PartialWallet, WalletCount, WalletWhere, WalletDraft, WalletOrder, by_balance,
}
use eth_ton_swap.World.{World}
use eth_ton_swap.Env.{Env}
use eth_ton_swap.Wallets.Mnemonic.{joined}
use eth_ton_swap.Ethereum
use eth_ton_swap.Ton.Blockchain.{normalize_address, address_text}
use eth_ton_swap.Ton.Contract.{get_jetton_wallet_address}

abbrev any_transferer : String → WalletCount
any_transferer token_address = record {
  token_address = token_address;
  deployed = none;
  has_balance = none;
  in_use = none;
  disabled = none;
}

module _ {Num Slice : Type 0} (e : Env Num Slice) where
  -- the `where` of `findAll`
  abbrev pub where_of : FindAllWallets Num → WalletWhere
  where_of f = record {
    blockchain = f.blockchain;
    type = f.type;
    min_balance = Option.map e.big.to_text f.min_balance;
    deployed = f.deployed;
    in_use = f.in_use;
    disabled = f.disabled;
    has_conjugated_address = f.has_conjugated_address;
  }

  -- the conditions that `findBestMatchedOne` gives to `findAll`
  abbrev pub best_matched_where : FindBestMatchedWallet Num → WalletWhere
  best_matched_where f = where_of (record any_wallet {
    blockchain = some f.blockchain;
    type = some f.type;
    min_balance = f.min_balance;
    in_use = f.in_use;
    disabled = some false;
    has_conjugated_address = if is_ton f.blockchain then some true else none;
  })

module _ {Db Num Slice : Type 0} (orm : Orm Db) (e : Env Num Slice) where
  -- `WalletsRepository.update`
  unfoldable pub update : ℕ → UpdateWallet Num → Action (World Db) (Unit {0})
  update id u = do
    mnemonic ← lift (traverse e.encrypt_text u.mnemonic)
    conjugated_address ← lift (traverse (normalize_address e) u.conjugated_address)
    let partial_wallet : PartialWallet = record {
      mnemonic = mnemonic;
      conjugated_address = conjugated_address;
      balance = Option.map (quantity_to_text e.big) u.balance;
      type = u.type;
      deployed = u.deployed;
      in_use = u.in_use;
      disabled = u.disabled;
    }
    modify (λ w. record w { db = orm.update_wallet w.db id partial_wallet })

  -- `WalletsRepository.findAll`, with the order that it is given or its own
  unfoldable pub find_all : FindAllWallets Num → WalletOrder → Action (World Db) (List Wallet)
  find_all f order = gets (λ w. orm.find_wallets w.db (where_of e f) order)

  -- `WalletsRepository.findBestMatchedOne`
  unfoldable pub find_best_matched_one :
      FindBestMatchedWallet Num → Action (World Db) (Option Wallet)
  find_best_matched_one f =
      gets (λ w. head? (orm.find_wallets w.db (best_matched_where e f) by_balance))

module _ {Num Slice : Type 0} (e : Env Num Slice) where
  -- the `Wallet` that `create` fills in
  abbrev pub ethereum_draft : WalletType → Token → Result WalletDraft
  ethereum_draft type token = bind e.eth.create_random_wallet (λ random.
      bind (Ethereum.normalize_address e random.address) (λ address.
        bind (e.encrypt_text (strip_hex_prefix random.private_key)) (λ secret_key.
          bind (e.encrypt_text random.phrase) (λ mnemonic. ok (record {
            type = type;
            token = token;
            address = address;
            conjugated_address = none;
            secret_key = secret_key;
            mnemonic = some mnemonic;
            balance = none;
            deployed = true;
            in_use = false;
            disabled = false;
          })))))

  abbrev pub ton_draft : WalletType → Token → Result WalletDraft
  ton_draft type token = bind e.ton.generate_key (λ random.
      bind (e.ton.wallet_address random.secret_key) (λ own.
        bind (normalize_address e own) (λ address.
          bind (get_jetton_wallet_address e token.address address) (λ jetton_wallet.
            bind (normalize_address e jetton_wallet) (λ conjugated_address.
              bind (e.encrypt_text random.secret_key) (λ secret_key.
                bind (e.encrypt_text (joined random.words)) (λ mnemonic. ok (record {
                  type = type;
                  token = token;
                  address = address;
                  conjugated_address = some conjugated_address;
                  secret_key = secret_key;
                  mnemonic = some mnemonic;
                  balance = none;
                  deployed = false;
                  in_use = false;
                  disabled = false;
                }))))))))

  unfoldable pub created_draft : WalletType → Token → Blockchain → Result WalletDraft
  created_draft type token ethereum = ethereum_draft type token
  created_draft type token ton = ton_draft type token

  -- the addresses that `attach` stores
  abbrev pub attached_addresses :
      Blockchain → String → Option String → Result (String × Option String)
  attached_addresses ethereum address conjugated_address =
      bind (Ethereum.normalize_address e address) (λ own. ok (own, none))
  attached_addresses ton address conjugated_address = bind (normalize_address e address) (λ own.
      bind (address_text conjugated_address)
        (λ text. bind (normalize_address e text) (λ conjugated. ok (own, some conjugated))))

  unfoldable pub attached_draft : AttachWallet Num → Result WalletDraft
  attached_draft a =
      bind (attached_addresses a.token.blockchain a.address a.conjugated_address)
        (λ (addresses : String × Option String). ok (record {
          type = a.type;
          token = a.token;
          address = addresses.0;
          conjugated_address = addresses.1;
          secret_key = a.secret_key;
          mnemonic = a.mnemonic;
          balance = some (quantity_to_text e.big a.balance);
          deployed = true;
          in_use = false;
          disabled = false;
        }))

module _ {Db Num Slice : Type 0} (orm : Orm Db) (e : Env Num Slice) where
  abbrev pub saved : World Db → Result (Wallet × Db) → Result Wallet × World Db
  saved w (ok (wallet, db')) = (ok wallet, record w { db = db' })
  saved w (err message) = (err message, w)

  unfoldable pub save : WalletDraft → Action (World Db) Wallet
  save draft w = saved w (orm.save_wallet w.db draft)

  -- `WalletsRepository.create`
  unfoldable pub create : WalletType → Token → Action (World Db) Wallet
  unfolding save
  create type token = lift (created_draft e type token token.blockchain) >>= save

  -- `WalletsRepository.attach`
  unfoldable pub attach : AttachWallet Num → Action (World Db) Wallet
  unfolding save
  attach a = lift (attached_draft e a) >>= save

module _ {Db : Type 0} (orm : Orm Db) where
  abbrev deleted : World Db → Result Db → Result (Unit {0}) × World Db
  deleted w (ok db') = (ok tt, record w { db = db' })
  deleted w (err message) = (err message, w)

  unfoldable pub delete : ℕ → Action (World Db) (Unit {0})
  delete id w = deleted w (orm.delete_wallet w.db id)

  unfoldable pub find_by_id : ℕ → Action (World Db) (Option Wallet)
  find_by_id id = gets (λ w. orm.find_wallet w.db id)

  unfoldable pub find_one : Blockchain → String → Action (World Db) (Option Wallet)
  find_one blockchain address = gets (λ w. orm.find_wallet_at w.db blockchain address)

  -- `WalletsRepository.countStats`
  unfoldable pub count_stats : String → Action (World Db) WalletsStats
  count_stats token_address = gets (λ w.
      let all = any_transferer token_address in
      record {
        total = orm.count_wallets w.db all;
        available =
            orm.count_wallets w.db
              (record all { deployed = some true; has_balance = some true; in_use = some false });
        in_use = orm.count_wallets w.db (record all { in_use = some true });
        disabled = orm.count_wallets w.db (record all { disabled = some true });
      })
