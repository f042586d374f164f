-- ===== src/Swaps/TonSource/Settling.antt =====
-- The runs of the TON source processor after the payout touch no stage.
use eth_ton_swap.Common.{ℕ, Option, none, some, Result, ok, err, Action, ◌≡◌, refl, ltb}
use eth_ton_swap.Entities.{Wallet, Swap, ultimate_expires_at}
use eth_ton_swap.Database.{Orm, OrmLaws}
use eth_ton_swap.World.{World}
use eth_ton_swap.Env.{Env}
use eth_ton_swap.Ton.Blockchain.{TransactionData}
use eth_ton_swap.Swaps.TonDestination.Outcome.{find_minter_admin_wallet-Quiet}
use eth_ton_swap.Swaps.TonSource.{
  transfer_fee_from, transfer_fee_found, transfer_ton_fee, settle_fee, get_fee_found,
  get_ton_fee_transaction, burn_from, burn_found, burn_ton_jettons, settle_burn, get_burn_from,
  get_burn_found, get_ton_burn_transaction,
}
use eth_ton_swap.Swaps.Stage.{Quiet, Quiet-pure, Quiet-bind, Quiet-lift, Same, Same-trans, Moved-id}
use eth_ton_swap.Swaps.Stage.Writes.{Settles-pure, Settles-wallet}
use eth_ton_swap.Swaps.Stage.Runs.{
  Runs, Outcome, Runs-throw, Runs-if, Runs-bind, Runs-find, Runs-update, Runs-return, Runs-missing,
}
use eth_ton_swap.Swaps.Stage.Services.{transfer_jettons-Quiet, burn_jettons-Quiet}
use eth_ton_swap.Swaps.Results.{after_settling, AnyAllowed}

module _ {Db : Type 0} (orm : Orm Db) (id : ℕ) (w : World Db) where
  Quiet-Outcome :
      (x : Result (Unit {0}) × World Db)
      → Same orm w x.1
      → Outcome orm id after_settling AnyAllowed w x
  Quiet-Outcome (ok r, v) s = (Moved-id orm id s, tt)
  Quiet-Outcome (err m, v) s = s

  Runs-Quiet :
      (m : Action (World Db) (Unit {0})) → Quiet orm m → Runs orm id after_settling AnyAllowed w m
  Runs-Quiet m q = record { at = λ v s. Quiet-Outcome (m v) (Same-trans orm s (q.at v)) }

module _ {Db Num Slice : Type 0} {orm : Orm Db} (laws : OrmLaws orm) (e : Env Num Slice) (id : ℕ)
    (w : World Db) where
  transfer_fee_from-Runs :
      (swap : Swap) (minter : Option Wallet)
      → Runs orm id after_settling AnyAllowed w (transfer_fee_from orm e swap minter)
  unfolding transfer_fee_from
  transfer_fee_from-Runs swap none = Runs-return laws e tt _ (λ g. refl) tt (Settles-pure laws e tt)
  transfer_fee_from-Runs swap (some minter) = Runs-bind _ _ (Quiet-lift orm _) λ signer.
      Runs-Quiet orm id w _ (
        Quiet-bind orm _ _ (transfer_jettons-Quiet orm e _ _ _ _ _ _ _ _) (λ fee. Quiet-pure orm _))

  transfer_fee_found-Runs :
      (swap : Swap)
      → swap.id ≡ id
      → Runs orm id after_settling AnyAllowed w (transfer_fee_found orm e (some swap))
  unfolding transfer_fee_found
  transfer_fee_found-Runs swap p =
      Runs-if (ltb (ultimate_expires_at swap) e.now) _ _
        (λ late. Runs-return laws e tt _ (λ g. refl) tt (Settles-pure laws e tt))
        (λ in_time.
          Runs-bind _ _ (find_minter_admin_wallet-Quiet orm e) (transfer_fee_from-Runs swap))

  pub transfer_ton_fee-Runs : Runs orm id after_settling AnyAllowed w (transfer_ton_fee orm e id)
  unfolding transfer_ton_fee
  transfer_ton_fee-Runs =
      Runs-find laws e _ (λ missing. Runs-missing laws e tt _ missing tt (Settles-pure laws e tt))
        (λ swap p found. transfer_fee_found-Runs swap p)

  settle_fee-Runs :
      (swap : Swap) (transaction : Option (TransactionData Num))
      → swap.id ≡ id
      → Runs orm id after_settling AnyAllowed w (settle_fee orm e swap transaction)
  unfolding settle_fee
  settle_fee-Runs swap none p = Runs-throw _
  settle_fee-Runs swap (some transaction) p =
      Runs-update laws e swap.id _ tt _ p (λ g. refl) tt
        (Settles-wallet laws e swap.source_wallet.id _ refl refl)

  get_fee_found-Runs :
      (swap : Swap)
      → swap.id ≡ id
      → Runs orm id after_settling AnyAllowed w (get_fee_found orm e (some swap))
  unfolding get_fee_found
  get_fee_found-Runs swap p =
      Runs-if (ltb (ultimate_expires_at swap) e.now) _ _
        (λ late. Runs-return laws e tt _ (λ g. refl) tt (Settles-pure laws e tt))
        (λ in_time. Runs-bind _ _ (Quiet-lift orm _) λ collector.
          Runs-bind _ _ (Quiet-lift orm _) λ transaction. settle_fee-Runs swap transaction p)

  pub get_ton_fee_transaction-Runs :
      Runs orm id after_settling AnyAllowed w (get_ton_fee_transaction orm e id)
  unfolding get_ton_fee_transaction
  get_ton_fee_transaction-Runs =
      Runs-find laws e _ (λ missing. Runs-missing laws e tt _ missing tt (Settles-pure laws e tt))
        (λ swap p found. get_fee_found-Runs swap p)

  burn_from-Runs :
      (swap : Swap) (minter : Option Wallet)
      → Runs orm id after_settling AnyAllowed w (burn_from orm e swap minter)
  unfolding burn_from
  burn_from-Runs swap none = Runs-return laws e tt _ (λ g. refl) tt (Settles-pure laws e tt)
  burn_from-Runs swap (some minter) = Runs-bind _ _ (Quiet-lift orm _) λ signer.
      Runs-Quiet orm id w _
        (Quiet-bind orm _ _ (burn_jettons-Quiet orm e _ _ _ _ _) (λ fee. Quiet-pure orm _))

  burn_found-Runs :
      (swap : Swap)
      → swap.id ≡ id
      → Runs orm id after_settling AnyAllowed w (burn_found orm e (some swap))
  unfolding burn_found
  burn_found-Runs swap p =
      Runs-if (ltb (ultimate_expires_at swap) e.now) _ _
        (λ late. Runs-return laws e tt _ (λ g. refl) tt (Settles-pure laws e tt))
        (λ in_time. Runs-bind _ _ (find_minter_admin_wallet-Quiet orm e) (burn_from-Runs swap))

  pub burn_ton_jettons-Runs : Runs orm id after_settling AnyAllowed w (burn_ton_jettons orm e id)
  unfolding burn_ton_jettons
  burn_ton_jettons-Runs =
      Runs-find laws e _ (λ missing. Runs-missing laws e tt _ missing tt (Settles-pure laws e tt))
        (λ swap p found. burn_found-Runs swap p)

  settle_burn-Runs :
      (swap : Swap) (transaction : Option (TransactionData Num))
      → swap.id ≡ id
      → Runs orm id after_settling AnyAllowed w (settle_burn orm e swap transaction)
  unfolding settle_burn
  settle_burn-Runs swap none p = Runs-throw _
  settle_burn-Runs swap (some transaction) p =
      Runs-update laws e swap.id _ tt _ p (λ g. refl) tt
        (Settles-wallet laws e swap.source_wallet.id _ refl refl)

  get_burn_from-Runs :
      (swap : Swap) (minter : Option Wallet)
      → swap.id ≡ id
      → Runs orm id after_settling AnyAllowed w (get_burn_from orm e swap minter)
  unfolding get_burn_from
  get_burn_from-Runs swap none p = Runs-return laws e tt _ (λ g. refl) tt (Settles-pure laws e tt)
  get_burn_from-Runs swap (some minter) p =
      Runs-bind _ _ (Quiet-lift orm _) λ source.
        Runs-bind _ _ (Quiet-lift orm _) λ transaction. settle_burn-Runs swap transaction p

  get_burn_found-Runs :
      (swap : Swap)
      → swap.id ≡ id
      → Runs orm id after_settling AnyAllowed w (get_burn_found orm e (some swap))
  unfolding get_burn_found
  get_burn_found-Runs swap p =
      Runs-if (ltb (ultimate_expires_at swap) e.now) _ _
        (λ late. Runs-return laws e tt _ (λ g. refl) tt (Settles-pure laws e tt))
        (λ in_time.
          Runs-bind _ _ (find_minter_admin_wallet-Quiet orm e)
            (λ minter. get_burn_from-Runs swap minter p))

  pub get_ton_burn_transaction-Runs :
      Runs orm id after_settling AnyAllowed w (get_ton_burn_transaction orm e id)
  unfolding get_ton_burn_transaction
  get_ton_burn_transaction-Runs =
      Runs-find laws e _ (λ missing. Runs-missing laws e tt _ missing tt (Settles-pure laws e tt))
        (λ swap p found. get_burn_found-Runs swap p)
