-- ===== src/Wallets/Controller/Creating.antt =====
-- What creating a wallet stores, queues and answers:
-- src/wallets/controllers/wallets.controller.ts and src/wallets/providers/wallets.repository.ts.
use eth_ton_swap.Common.{
  none, some, List, ◌∷◌, ok, err, pure, throw, modify, gets, ◌>>=◌, ◌≡◌, refl, sym, ◌∙◌, subst, inl,
  inr, Option-cases,
}
use eth_ton_swap.Common.Errors.{error_token_not_found, error_wallet_not_found}
use eth_ton_swap.Entities.{Blockchain, ethereum, ton, WalletType, Token, Wallet}
use eth_ton_swap.Database.{Orm, OrmLaws, WalletDraft, by_balance}
use eth_ton_swap.World.{World, WalletJob, WalletJobData}
use eth_ton_swap.Env.{Env}
use eth_ton_swap.Swaps.Pipeline.Reading.{
  Given-pair, Given-weaken, Given, Given-ok, Given-Reads, Given-bind, Reads-gets, Reads-or_throw,
  Reads-lift, Given-lift, got_or_thrown,
}
use eth_ton_swap.Swaps.Crediting.{lifted, gotten}
use eth_ton_swap.Wallets.Jobs.{wallet_job}
use eth_ton_swap.Wallets.Repository
use eth_ton_swap.Wallets.Repository.{
  FindBestMatchedWallet, created_draft, best_matched_where, head?,
}
use eth_ton_swap.Wallets.Controller.Drafting.{Drafts, created_draft-Drafts}
use eth_ton_swap.Wallets.Controller.Storing.{Stored, save-Stored}
use eth_ton_swap.Wallets.Pipes.{CreateWalletRequest}
use eth_ton_swap.Wallets.Controller.{GetWallet, to_get_wallet, pay_first_toncoins, create_wallet}

-- the search for a giver
abbrev pub giver_in_ton : {Num : Type 0} → FindBestMatchedWallet Num
giver_in_ton = record {
  blockchain = ton;
  type = WalletType.giver;
  min_balance = none;
  in_use = none;
}

module _ {Db Num Slice : Type 0} (orm : Orm Db) (e : Env Num Slice) where
  -- A new wallet of a random key is stored, beside the others.
  pub record Created (type : WalletType) (token : Token) (before : Db) (wallet : Wallet)
      (after : Db) : Type 0 where
    pub draft : WalletDraft
    pub drafted : created_draft e type token token.blockchain ≡ ok draft
    pub made : Drafts e type token token.blockchain draft
    pub stored : Stored orm draft before wallet after

  -- the jobs that creating adds: a giver's payment to a wallet in TON
  pub data Pays (wallet : Wallet) (d : Db) (before : List WalletJob)
      : Blockchain → List WalletJob → Type 0 where
    nothing_due : Pays wallet d before ethereum before
    first_toncoins :
        (giver : Wallet)
        → head? (orm.find_wallets d (best_matched_where e giver_in_ton) by_balance) ≡ some giver
        → Pays wallet d before ton
            (wallet_job (WalletJobData.transfer_toncoins wallet.id giver.id) none ∷ before)

  pub record Creates (r : CreateWalletRequest) (w : World Db) (answer : GetWallet) (v : World Db)
      : Type 0 where
    pub token : Token
    pub token_found : orm.find_token w.db r.token_id ≡ some token
    pub wallet : Wallet
    pub created : Created r.type token w.db wallet v.db
    pub paid : Pays wallet v.db w.wallet_jobs token.blockchain v.wallet_jobs
    pub answered : to_get_wallet e wallet ≡ ok answer

module _ {Db Num Slice : Type 0} {orm : Orm Db} (laws : OrmLaws orm) (e : Env Num Slice) where
  create-Created :
      (type : WalletType) (token : Token) (w : World Db)
      → Given
          (λ wallet v. Created orm e type token w.db wallet v.db × (v.wallet_jobs ≡ w.wallet_jobs))
          (Repository.create orm e type token w)
  unfolding Repository.create
  create-Created type token w = Given-Reads _ _ _ w (Reads-lift _) λ draft h.
      Given-weaken _ _ (Repository.save orm e draft w)
        (λ wallet v s. (
          record {
            draft = draft;
            drafted = lifted _ w draft h;
            made = created_draft-Drafts e type token token.blockchain draft (lifted _ w draft h);
            stored = s.0;
          },
          s.1,
        ))
        (save-Stored laws e draft w)

  pay-Pays :
      (wallet : Wallet) (blockchain : Blockchain) (w : World Db)
      → Given
          (λ _ v. (v.db ≡ w.db) × Pays orm e wallet w.db w.wallet_jobs blockchain v.wallet_jobs)
          (pay_first_toncoins orm e blockchain wallet w)
  unfolding pay_first_toncoins Repository.find_best_matched_one ◌>>=◌ pure modify gets throw
  pay-Pays wallet ethereum w = (refl, Pays.nothing_due)
  pay-Pays wallet ton w =
      elim (Option-cases
        (head? (orm.find_wallets w.db (best_matched_where e giver_in_ton) by_balance))) [
          | inl absent ↦ rw absent tt
          | inr (giver, found) ↦ rw found (refl, Pays.first_toncoins giver found)
        ]

  -- If createWallet returns, over a database that obeys the laws, its token is stored, a wallet
  -- of the random key that the token's blockchain answers is stored now, at an identifier of
  -- its own, with normalized addresses, the key and the words encrypted, no balance, free,
  -- enabled, and deployed just in Ethereum; all the other rows are as they were, the answer
  -- shows it, and no job is added for Ethereum, and for TON one that lets the best matched
  -- giver pay its first toncoins.
  pub create_wallet-Creates :
      (r : CreateWalletRequest) (w : World Db) (answer : GetWallet)
      → (create_wallet orm e r w).0 ≡ ok answer
      → Creates orm e r w answer (create_wallet orm e r w).1
  unfolding create_wallet
  create_wallet-Creates r w answer returned =
      Given-ok (Creates orm e r w) _ answer
        (Given-Reads _ _ _ w (Reads-gets _) λ found p.
          Given-Reads _ _ _ w (Reads-or_throw found _) λ token q.
            Given-bind _ _ _ _ w (create-Created r.type token w) λ wallet v c.
              Given-bind _ _ _ _ v (pay-Pays wallet token.blockchain v) λ _ u paid.
                Given-lift (Creates orm e r w) (to_get_wallet e wallet) u λ shown h. record {
                  token = token;
                  token_found =
                      gotten _ w found p ∙ got_or_thrown found error_token_not_found w token q;
                  wallet = wallet;
                  created = subst (Created orm e r.type token w.db wallet) (sym paid.0) c.0;
                  paid =
                      subst (λ d. Pays orm e wallet d w.wallet_jobs token.blockchain u.wallet_jobs)
                        (sym paid.0)
                        (subst (λ js. Pays orm e wallet v.db js token.blockchain u.wallet_jobs) c.1
                          paid.1);
                  answered = h;
                })
        returned

  -- If the token is one of TON, its wallet can be created and there is no giver then,
  -- createWallet throws that the wallet is not found, but the wallet stays stored, with no job
  -- that would deploy it. This is over a database that obeys the laws.
  pub create_wallet_strands :
      (r : CreateWalletRequest) (w v : World Db) (token : Token) (wallet : Wallet)
      → orm.find_token w.db r.token_id ≡ some token
      → token.blockchain ≡ ton
      → Repository.create orm e r.type token w ≡ (ok wallet, v)
      → head? (orm.find_wallets v.db (best_matched_where e giver_in_ton) by_balance) ≡ none
      → (create_wallet orm e r w ≡ (err error_wallet_not_found, v))
        × Created orm e r.type token w.db wallet v.db
        × (v.wallet_jobs ≡ w.wallet_jobs)
  unfolding create_wallet pay_first_toncoins Repository.find_best_matched_one ◌>>=◌ pure gets throw
  create_wallet_strands r w v token wallet found in_ton created absent =
      let c = Given-pair _ _ wallet v (create-Created r.type token w) created in
      (rw (found, created, in_ton, absent) refl, c.0, c.1)
