-- ===== src/Wallets/Controller/Updating.antt =====
-- What changing a wallet stores: src/wallets/controllers/wallets.controller.ts.
use eth_ton_swap.Common.{ap, ==_refl, ℕ, String, Option, some, ok, modify, ◌≡◌, refl, sym, ◌∙◌}
use mathlib.Core.Option
use mathlib.Core.Option.{some_inj}
use eth_ton_swap.Common.Fallible.{traverse}
use eth_ton_swap.Common.Number.{parse_nullable, quantity_to_text}
use eth_ton_swap.Entities.{Wallet}
use eth_ton_swap.Database.{Orm, OrmLaws, assign_wallet, PartialWallet}
use eth_ton_swap.World.{World}
use eth_ton_swap.Env.{Env}
use eth_ton_swap.Ton.Blockchain.{normalize_address}
use eth_ton_swap.Swaps.Pipeline.Reading.{
  Reads-lift, Given, Given-ok, Given-Reads, Given-bind, Reads-gets, Reads-or_throw, Given-lift,
  got_or_thrown,
}
use eth_ton_swap.Swaps.Crediting.{lifted, gotten}
use eth_ton_swap.Wallets.Repository
use eth_ton_swap.Wallets.Repository.{UpdateWallet}
use eth_ton_swap.Wallets.Controller.{
  GetWallet, UpdateWalletRequest, requested, to_get_wallet, update_wallet,
}

module _ {Db Num Slice : Type 0} (orm : Orm Db) (e : Env Num Slice) where
  -- The row after a change: the balance is the request's or the text of no number, a mnemonic is
  -- encrypted, an address is normalized, and a column that the request leaves out stands.
  pub record Updates (id : ℕ) (r : UpdateWalletRequest) (w : World Db) (answer : GetWallet)
      (v : World Db) : Type 0 where
    pub before : Wallet
    pub found : orm.find_wallet w.db id ≡ some before
    pub mnemonic : Option String
    pub encrypted : traverse e.encrypt_text r.mnemonic ≡ ok mnemonic
    pub conjugated_address : Option String
    pub normalized : traverse (normalize_address e) r.conjugated_address ≡ ok conjugated_address
    pub after : Wallet
    pub row : orm.find_wallet v.db id ≡ some after
    pub changed :
        after
        ≡ assign_wallet
            (record {
              mnemonic = mnemonic;
              conjugated_address = conjugated_address;
              balance =
                  some (e.big.to_fixed (parse_nullable e.big r.balance) before.token.decimals);
              type = r.type;
              deployed = r.deployed;
              in_use = r.in_use;
              disabled = r.disabled;
            })
            before
    pub answered : to_get_wallet e after ≡ ok answer

module _ {Db Num Slice : Type 0} (orm : Orm Db) (e : Env Num Slice) where
  -- what `Repository.update` leaves
  record Written (id : ℕ) (u : UpdateWallet Num) (w v : World Db) : Type 0 where
    pub mnemonic : Option String
    pub encrypted : traverse e.encrypt_text u.mnemonic ≡ ok mnemonic
    pub conjugated_address : Option String
    pub normalized : traverse (normalize_address e) u.conjugated_address ≡ ok conjugated_address
    pub db :
        v.db
        ≡ orm.update_wallet w.db id (record {
          mnemonic = mnemonic;
          conjugated_address = conjugated_address;
          balance = Option.map (quantity_to_text e.big) u.balance;
          type = u.type;
          deployed = u.deployed;
          in_use = u.in_use;
          disabled = u.disabled;
        })

  update-Written :
      (id : ℕ) (u : UpdateWallet Num) (w : World Db)
      → Given (λ _. Written id u w) (Repository.update orm e id u w)
  unfolding Repository.update modify
  update-Written id u w = Given-Reads _ _ _ w (Reads-lift _) λ mnemonic p.
      Given-Reads _ _ _ w (Reads-lift _) λ conjugated_address q. record {
        mnemonic = mnemonic;
        encrypted = lifted _ w mnemonic p;
        conjugated_address = conjugated_address;
        normalized = lifted _ w conjugated_address q;
        db = refl;
      }

module _ {Db Num Slice : Type 0} {orm : Orm Db} (laws : OrmLaws orm) (e : Env Num Slice) where
  -- the row that a change leaves
  updated_row :
      (id : ℕ) (p : PartialWallet) (d : Db) (before : Wallet)
      → orm.find_wallet d id ≡ some before
      → orm.find_wallet (orm.update_wallet d id p) id ≡ some (assign_wallet p before)
  updated_row id p d before h = rw (laws.find_wallet-update_wallet, ==_refl, h) refl

  -- If updateWallet returns, over a database that obeys the laws, the wallet was stored, and
  -- the answer shows the row that is stored now: the mnemonic is encrypted and the address
  -- normalized if they are given, the balance is the text of the request's or of no number, and
  -- of the other columns those that are given are changed.
  pub update_wallet-Updates :
      (id : ℕ) (r : UpdateWalletRequest) (w : World Db) (answer : GetWallet)
      → (update_wallet orm e id r w).0 ≡ ok answer
      → Updates orm e id r w answer (update_wallet orm e id r w).1
  unfolding update_wallet Repository.find_by_id Repository.update quantity_to_text
  update_wallet-Updates id r w answer returned =
      Given-ok (Updates orm e id r w) _ answer
        (Given-Reads _ _ _ w (Reads-gets _) λ found p.
          Given-Reads _ _ _ w (Reads-or_throw found _) λ before q.
            Given-bind (λ _ v. Written orm e id (requested e r before.token.decimals) w v) _ _ _ w
              (update-Written orm e id (requested e r before.token.decimals) w)
              λ _ v u. Given-Reads _ _ _ v (Reads-gets _) λ again h.
                Given-Reads _ _ _ v (Reads-or_throw again _) λ after k.
                  Given-lift (Updates orm e id r w) (to_get_wallet e after) v λ shown l.
                    let sound = gotten _ w found p ∙ got_or_thrown found _ w before q in
                    let row = gotten _ v again h ∙ got_or_thrown again _ v after k in
                    record {
                      before = before;
                      found = sound;
                      mnemonic = u.mnemonic;
                      encrypted = u.encrypted;
                      conjugated_address = u.conjugated_address;
                      normalized = u.normalized;
                      after = after;
                      row = row;
                      changed = some_inj.0 (
                          sym row
                          ∙ ap (λ d. orm.find_wallet d id) u.db
                          ∙ updated_row id _ w.db before sound);
                      answered = l;
                    })
        returned
