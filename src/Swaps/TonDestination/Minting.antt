-- ===== src/Swaps/TonDestination/Minting.antt =====
-- What a payout in TON sends and stores: src/swaps/processors/ton-destination-swaps.processor.ts.
use eth_ton_swap.Common.{
  Action, if◌then◌else◌, ◌∷◌, String, true, false, Option, none, some, ok, ok_inj, pure, modify,
  ◌>>=◌, ◌≡◌, refl, ap, sym, ◌∙◌, subst, ltb, Bool-cases, inl, inr, ℕ,
}
use eth_ton_swap.Common.Fallible.{bind_ok}
use eth_ton_swap.Common.Number.{parse_nullable}
use eth_ton_swap.Entities.{Blockchain, WalletType, SwapStatus, Wallet, Swap, extended_expires_at}
use eth_ton_swap.Database.{Orm, OrmLaws, by_balance}
use eth_ton_swap.World.{World, Request, TonBody, SwapResult, ton_message}
use eth_ton_swap.Env.{Env}
use eth_ton_swap.Ton.Contract.{WalletSigner, create_wallet_signer, submit, transfer, mint_jettons}
use eth_ton_swap.Wallets.Repository as Wallets
use eth_ton_swap.Wallets.Repository.{best_matched_where, head?}
use eth_ton_swap.Swaps.Repository
use eth_ton_swap.Swaps.Helper.{swap_expired, jetton_minter_admin_wallet_not_found}
use eth_ton_swap.Swaps.Helper.Release.{IsClosed, close_swap-Given}
use eth_ton_swap.Swaps.TonDestination.{
  find_minter_admin_wallet, mint_from, mint_found, mint_ton_jettons,
}
use eth_ton_swap.Swaps.Crediting.{lifted, gotten}
use eth_ton_swap.Swaps.Pipeline.Reading.{
  Given, Given-ok, Given-Reads, Given-bind, Reads, Reads-lift, Reads-gets,
}

own_key :
    {Num Slice : Type 0} (e : Env Num Slice) (secret : String) (signer : WalletSigner)
    → create_wallet_signer e secret ≡ ok signer
    → e.decrypt_text secret ≡ ok signer.secret_key
own_key e secret signer h =
    let (key, opened, made) = bind_ok (e.decrypt_text secret) _ signer h in
    opened ∙ ap (λ (s : WalletSigner). ok s.secret_key) (ok_inj made)

module _ {Db Num Slice : Type 0} (orm : Orm Db) (e : Env Num Slice) where
  -- the wallet that administers the minter, `none` if there is none
  abbrev pub minter_admin : World Db → Option Wallet
  minter_admin w = head? (
      orm.find_wallets w.db
        (best_matched_where e (record {
          blockchain = Blockchain.ton;
          type = WalletType.minter;
          min_balance = none;
          in_use = none;
        }))
        by_balance)

  -- A message of the minter's administrator to its minter, which mints a swap's amount, in nanos,
  -- for its receiver.
  pub record IsMint (swap : Swap) (admin : Wallet) (request : Request) : Type 0 where
    pub key : String
    pub own : e.decrypt_text admin.secret_key ≡ ok key
    pub receiver : String
    pub parsed : e.ton.parse_address swap.destination_address ≡ ok receiver
    pub nanos : String
    pub amount :
        e.ton.to_nano (e.big.to_text (parse_nullable e.big swap.destination_amount)) ≡ ok nanos
    pub gas : String
    pub mint_gas : e.ton.to_nano (e.big.to_text (e.big.parse "0.02")) ≡ ok gas
    pub message_gas : String
    pub transfer_gas : e.ton.to_nano (e.big.to_text (e.big.parse "0.008")) ≡ ok message_gas
    pub wallet : String
    pub of_key : e.ton.wallet_address key ≡ ok wallet
    pub minter : String
    pub of_wallet : e.ton.minter_address wallet ≡ ok minter
    pub destination : String
    pub to_minter : e.ton.parse_address (e.ton.friendly minter true) ≡ ok destination
    pub seqno : ℕ
    pub called :
        request
        ≡ ton_message key
            (e.ton.friendly destination true)
            message_gas
            seqno
            (some (TonBody.mint receiver nanos gas))
            none

  -- what a swap that is too late, or that no wallet can mint for, leaves
  pub data Refused (swap : Swap) (w : World Db) : SwapResult → World Db → Type 0 where
    late :
        {r : SwapResult} {v : World Db}
        → ltb (extended_expires_at swap) e.now ≡ true
        → r.status ≡ SwapStatus.expired
        → v.requests ≡ w.requests
        → IsClosed orm v swap SwapStatus.expired
        → Refused swap w r v
    unmanned :
        {r : SwapResult} {v : World Db}
        → ltb (extended_expires_at swap) e.now ≡ false
        → minter_admin w ≡ none
        → r.status ≡ SwapStatus.failed
        → v.requests ≡ w.requests
        → IsClosed orm v swap SwapStatus.failed
        → Refused swap w r v

  -- The outcomes for a stored swap: refused, or one mint more is sent, and nothing stored.
  pub data Mints (swap : Swap) (w : World Db) : SwapResult → World Db → Type 0 where
    refused : {r : SwapResult} {v : World Db} → Refused swap w r v → Mints swap w r v
    minted :
        {r : SwapResult} {v : World Db} (admin : Wallet) (request : Request)
        → ltb (extended_expires_at swap) e.now ≡ false
        → minter_admin w ≡ some admin
        → IsMint swap admin request
        → e.ton.send request ≡ ok tt
        → v.requests ≡ request ∷ w.requests
        → v.db ≡ w.db
        → r.status ≡ SwapStatus.confirmed
        → Mints swap w r v

  pub admin-Reads : Reads (find_minter_admin_wallet orm e)
  unfolding find_minter_admin_wallet Wallets.find_best_matched_one
  admin-Reads = Reads-gets _

  pub is_admin :
      (w : World Db) (o : Option Wallet)
      → (find_minter_admin_wallet orm e w).0 ≡ ok o
      → minter_admin w ≡ o
  unfolding find_minter_admin_wallet Wallets.find_best_matched_one
  is_admin w o h = gotten _ w o h

  sent-Mints :
      (swap : Swap) (w : World Db) (admin : Wallet) (request : Request) (price : Option Num)
      → ltb (extended_expires_at swap) e.now ≡ false
      → minter_admin w ≡ some admin
      → IsMint swap admin request
      → Given
          (λ _ v.
            Mints swap w
              (record { status = SwapStatus.confirmed; status_code = none; transaction_id = none })
              v)
          (submit e request false w)
  unfolding submit ◌>>=◌ modify pure
  sent-Mints swap w admin request price in_time found mint =
      Given-Reads _ _ _ w (Reads-lift _)
        λ sent p. minted admin request in_time found mint (lifted _ w sent p) refl refl refl

  mint_jettons-Mints :
      (swap : Swap) (w : World Db) (admin : Wallet) (signer : WalletSigner)
      → ltb (extended_expires_at swap) e.now ≡ false
      → minter_admin w ≡ some admin
      → create_wallet_signer e admin.secret_key ≡ ok signer
      → Given
          (λ _ v.
            Mints swap w
              (record { status = SwapStatus.confirmed; status_code = none; transaction_id = none })
              v)
          (mint_jettons e signer swap.destination_address
            (parse_nullable e.big swap.destination_amount)
            (e.big.parse "0.008")
            (e.big.parse "0.02")
            false
            w)
  unfolding mint_jettons transfer
  mint_jettons-Mints swap w admin signer in_time found signs =
      Given-Reads _ _ _ w (Reads-lift _) λ own p. Given-Reads _ _ _ w (Reads-lift _) λ minter q.
        Given-Reads _ _ _ w (Reads-lift _) λ receiver parsed.
          Given-Reads _ _ _ w (Reads-lift _) λ nanos counted.
            Given-Reads _ _ _ w (Reads-lift _) λ gas r.
              Given-Reads _ _ _ w (Reads-lift _) λ seqno _.
                Given-Reads _ _ _ w (Reads-lift _) λ destination s.
                  Given-Reads _ _ _ w (Reads-lift _) λ message_gas t.
                    sent-Mints swap w admin _ none in_time found (record {
                      key = signer.secret_key;
                      own = own_key e admin.secret_key signer signs;
                      receiver = receiver;
                      parsed = lifted _ w receiver parsed;
                      nanos = nanos;
                      amount = lifted _ w nanos counted;
                      gas = gas;
                      mint_gas = lifted _ w gas r;
                      message_gas = message_gas;
                      transfer_gas = lifted _ w message_gas t;
                      wallet = own;
                      of_key = lifted _ w own p;
                      minter = minter;
                      of_wallet = lifted _ w minter q;
                      destination = destination;
                      to_minter = lifted _ w destination s;
                      seqno = seqno;
                      called = refl;
                    })

module _ {Db Num Slice : Type 0} {orm : Orm Db} (laws : OrmLaws orm) (e : Env Num Slice) where
  -- the two refusals, for a run that does something else otherwise
  pub guarded-Given :
      (Q : SwapResult → World Db → Type 0) (f : Option Wallet → Action (World Db) SwapResult)
      (swap : Swap) (w : World Db)
      → orm.find_swap w.db swap.id ≡ some swap
      → f none ≡ jetton_minter_admin_wallet_not_found orm e swap
      → ((r : SwapResult) (v : World Db) → Refused orm e swap w r v → Q r v)
      → ((admin : Wallet)
          → ltb (extended_expires_at swap) e.now ≡ false
          → minter_admin orm e w ≡ some admin
          → Given Q (f (some admin) w))
      → Given Q (
          (if ltb (extended_expires_at swap) e.now
              then swap_expired orm e swap
              else (find_minter_admin_wallet orm e >>= f))
            w)
  unfolding swap_expired jetton_minter_admin_wallet_not_found
  guarded-Given Q f swap w found unmanned_run refuse k =
      elim (Bool-cases (ltb (extended_expires_at swap) e.now)) [
        | inl gone ↦ rw gone (
            close_swap-Given laws e Q w swap SwapStatus.expired _ found
              (λ v c q. refuse _ v (late gone refl q c)))
        | inr in_time ↦ rw in_time (
            Given-Reads {A = Option Wallet} Q _ f w (admin-Reads orm e) (elim [
              | none ↦ λ p. rw unmanned_run (
                  close_swap-Given laws e Q w swap SwapStatus.failed _ found
                    (λ v c q. refuse _ v (unmanned in_time (is_admin orm e w none p) refl q c)))
              | some admin ↦ λ p. k admin in_time (is_admin orm e w (some admin) p)
            ]))
      ]

  mint_from-Mints :
      (swap : Swap) (w : World Db) (admin : Wallet)
      → ltb (extended_expires_at swap) e.now ≡ false
      → minter_admin orm e w ≡ some admin
      → Given (Mints orm e swap w) (mint_from orm e swap (some admin) w)
  unfolding mint_from pure
  mint_from-Mints swap w admin in_time found =
      Given-Reads (Mints orm e swap w) _ _ w (Reads-lift _) λ signer p.
        Given-bind
          (λ _ v.
            Mints orm e swap w
              (record { status = SwapStatus.confirmed; status_code = none; transaction_id = none })
              v)
          (Mints orm e swap w) _ _ w
          (mint_jettons-Mints orm e swap w admin signer in_time found (lifted _ w signer p))
          (λ _ v m. m)

  found-Mints :
      (swap : Swap) (w : World Db)
      → orm.find_swap w.db swap.id ≡ some swap
      → Given (Mints orm e swap w) (mint_found orm e (some swap) w)
  unfolding mint_found mint_from
  found-Mints swap w found =
      guarded-Given (Mints orm e swap w) (mint_from orm e swap) swap w found refl
        (λ r v refusal. refused refusal) (mint_from-Mints swap w)

  -- If mintTonJettons returns for a stored swap, over a database that obeys the laws, then the
  -- swap's extended time is over, and it is expired; or it is not over, but no wallet of TON
  -- administers the minter, and it has failed, in both cases with its source wallet free and
  -- nothing sent; or one message more was sent, signed with the administrator's key, which
  -- mints the swap's destination amount for its receiver, the database is as it was, and
  -- confirmed is returned.
  pub mint_ton_jettons-Mints :
      (id : ℕ) (w : World Db) (swap : Swap) (r : SwapResult)
      → orm.find_swap w.db id ≡ some swap
      → (mint_ton_jettons orm e id w).0 ≡ ok r
      → Mints orm e swap w r (mint_ton_jettons orm e id w).1
  unfolding mint_ton_jettons Repository.find_by_id
  mint_ton_jettons-Mints id w swap r found returned =
      Given-ok (Mints orm e swap w) (mint_ton_jettons orm e id w) r
        (Given-Reads (Mints orm e swap w) _ _ w (Reads-gets _) λ o p.
          subst (λ o. Given (Mints orm e swap w) (mint_found orm e o w))
            (sym found ∙ gotten _ w o p)
            (found-Mints swap w
              (ap (orm.find_swap w.db) (laws.find_swap_id w.db id swap found) ∙ found)))
        returned
