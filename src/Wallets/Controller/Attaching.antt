-- ===== src/Wallets/Controller/Attaching.antt =====
-- What attaching a wallet stores and answers:
-- src/wallets/controllers/wallets.controller.ts and src/wallets/providers/wallets.repository.ts.
use eth_ton_swap.Common.{String, Option, none, some, ok, throw, ◌≡◌, refl, sym, subst, ◌∙◌, arith}
use eth_ton_swap.Common.Errors.{error_token_not_found}
use eth_ton_swap.Entities.{Token, Wallet}
use eth_ton_swap.Database.{Orm, OrmLaws, WalletDraft}
use eth_ton_swap.World.{World}
use eth_ton_swap.Env.{Env}
use eth_ton_swap.Swaps.Pipeline.Reading.{
  Given-weaken, Given, Given-ok, Given-Reads, Given-bind, Reads, Reads-gets, Reads-or_throw,
  Reads-lift, Reads-pure, Reads-throw, Given-lift, got_or_thrown,
}
use eth_ton_swap.Swaps.Crediting.{lifted, gotten}
use eth_ton_swap.Wallets.Repository
use eth_ton_swap.Wallets.Repository.{AttachWallet, attached_draft}
use eth_ton_swap.Wallets.Pipes.{AttachWalletRequest}
use eth_ton_swap.Wallets.Controller.{
  GetWallet, to_get_wallet, attached, throw_if_some, attach_wallet,
}
use eth_ton_swap.Wallets.Controller.Looking.{
  LooksUp, Normalizes, columns, looked_up-LooksUp, attached_draft-Normalizes,
}
use eth_ton_swap.Wallets.Controller.Storing.{Stored, save-Stored}

module _ {Db Num Slice : Type 0} (orm : Orm Db) (e : Env Num Slice) where
  -- No wallet was stored at the address that was sent; a new one is stored with what was sent and
  -- looked up, and shown; nothing is queued.
  pub record Attaches (r : AttachWalletRequest) (w : World Db) (answer : GetWallet) (v : World Db)
      : Type 0 where
    pub token : Token
    pub token_found : orm.find_token w.db r.token_id ≡ some token
    pub absent : orm.find_wallet_at w.db token.blockchain r.address ≡ none
    pub conjugated_address : Option String
    pub balance : Num
    pub answered : LooksUp e r token token.blockchain conjugated_address balance
    pub own : String
    pub named : Option String
    pub normalized : Normalizes e r.address token.blockchain conjugated_address own named
    pub wallet : Wallet
    pub stored : Stored orm (columns e r token balance own named) w.db wallet v.db
    pub jobs : v.wallet_jobs ≡ w.wallet_jobs
    pub shown : to_get_wallet e wallet ≡ ok answer

module _ {Db : Type 0} where
  Reads-throw_if_some : (o : Option Wallet) → Reads {W = World Db} (throw_if_some o)
  Reads-throw_if_some none = Reads-pure tt
  Reads-throw_if_some (some wallet) = Reads-throw _

  passed : (o : Option Wallet) (w : World Db) → (throw_if_some o w).0 ≡ ok tt → o ≡ none
  unfolding throw
  passed none w h = refl
  passed (some wallet) w h = ground (arith, h)

module _ {Db Num Slice : Type 0} {orm : Orm Db} (laws : OrmLaws orm) (e : Env Num Slice) where
  attach-Stored :
      (a : AttachWallet Num) (w : World Db)
      → Given
          (λ wallet v.
            (draft : WalletDraft) × (attached_draft e a ≡ ok draft)
            × Stored orm draft w.db wallet v.db
            × (v.wallet_jobs ≡ w.wallet_jobs))
          (Repository.attach orm e a w)
  unfolding Repository.attach
  attach-Stored a w = Given-Reads _ _ _ w (Reads-lift _) λ draft h.
      Given-weaken _ _ (Repository.save orm e draft w)
        (λ wallet v s. (draft, lifted _ w draft h, s.0, s.1)) (save-Stored laws e draft w)

  -- If attachWallet returns, over a database that obeys the laws, its token is stored, no
  -- wallet was stored at the address as it was sent, a wallet with the normalized addresses and
  -- the balance that was looked up is stored now, at an identifier of its own, with all the
  -- other rows as they were, no job is added, and the answer shows it.
  pub attach_wallet-Attaches :
      (r : AttachWalletRequest) (w : World Db) (answer : GetWallet)
      → (attach_wallet orm e r w).0 ≡ ok answer
      → Attaches orm e r w answer (attach_wallet orm e r w).1
  unfolding attach_wallet Repository.find_one
  attach_wallet-Attaches r w answer returned =
      Given-ok (Attaches orm e r w) _ answer
        (Given-Reads _ _ _ w (Reads-gets _) λ found p.
          Given-Reads _ _ _ w (Reads-or_throw found _) λ token q.
            Given-Reads _ _ _ w (Reads-gets _) λ other o.
              Given-Reads _ _ _ w (Reads-throw_if_some other) λ _ n.
                Given-Reads _ _ _ w (Reads-lift _) λ seen l.
                  Given-bind _ _ _ _ w (attach-Stored (attached e r token seen.0 seen.1) w)
                    λ wallet v (draft, drafted, stored, jobs).
                      let (own, named, normal, same) =
                        attached_draft-Normalizes e r token seen.0 seen.1 draft drafted in
                      Given-lift (Attaches orm e r w) (to_get_wallet e wallet) v λ shown h. record {
                        token = token;
                        token_found =
                            gotten _ w found p
                            ∙ got_or_thrown found error_token_not_found w token q;
                        absent = gotten _ w other o ∙ passed other w n;
                        conjugated_address = seen.0;
                        balance = seen.1;
                        answered =
                            looked_up-LooksUp e r token token.blockchain seen (lifted _ w seen l);
                        own = own;
                        named = named;
                        normalized = normal;
                        wallet = wallet;
                        stored = subst (λ c. Stored orm c w.db wallet v.db) (sym same) stored;
                        jobs = jobs;
                        shown = h;
                      })
        returned
