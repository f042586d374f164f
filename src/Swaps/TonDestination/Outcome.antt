-- ===== src/Swaps/TonDestination/Outcome.antt =====
-- The runs of the TON destination processor, as moves of a stage.
use eth_ton_swap.Common.{ℕ, String, Option, none, some, ◌≡◌, refl, inl, inr, ltb}
use eth_ton_swap.Common.Errors.{error_no_error, get_status_code}
use eth_ton_swap.Entities.{SwapStatus, Wallet, Swap, extended_expires_at}
use eth_ton_swap.Database.{Orm, OrmLaws}
use eth_ton_swap.World.{World}
use eth_ton_swap.Env.{Env}
use eth_ton_swap.Ton.Blockchain.{TransactionData}
use eth_ton_swap.Wallets.Repository as Wallets
use eth_ton_swap.Swaps.TonDestination.{
  find_minter_admin_wallet, mint_from, mint_found, mint_ton_jettons, complete_mint, find_mint,
  get_mint_found, get_ton_mint_transaction,
}
use eth_ton_swap.Swaps.Stage.{stage, stage_of, Quiet, Quiet-lift, Quiet-gets}
use eth_ton_swap.Swaps.Stage.Writes.{Settles-pure}
use eth_ton_swap.Swaps.Stage.Runs.{
  Runs, Runs-throw, Runs-if, Runs-bind, Runs-find, Runs-update, Runs-return, Runs-missing,
}
use eth_ton_swap.Swaps.Stage.Services.{mint_jettons-Quiet}
use eth_ton_swap.Swaps.Helper.Closing.{closed, swap_expired-Runs, minter_not_found-Runs}
use eth_ton_swap.Swaps.Results.{after_mint, after_payout, MintAllowed, PayoutAllowed}

module _ {Db Num Slice : Type 0} (orm : Orm Db) (e : Env Num Slice) where
  pub find_minter_admin_wallet-Quiet : Quiet orm (find_minter_admin_wallet orm e)
  unfolding find_minter_admin_wallet Wallets.find_best_matched_one
  find_minter_admin_wallet-Quiet = Quiet-gets orm _

module _ {Db Num Slice : Type 0} {orm : Orm Db} (laws : OrmLaws orm) (e : Env Num Slice) where
  mint_from-Runs :
      (id : ℕ) (w : World Db) (swap : Swap)
      → swap.id ≡ id
      → stage orm w id ≡ some (stage_of swap)
      → (minter : Option Wallet)
      → Runs orm id after_mint MintAllowed w (mint_from orm e swap minter)
  unfolding mint_from
  mint_from-Runs id w swap p found none =
      minter_not_found-Runs laws e swap p (λ c g. refl) (λ c. rw found (inr (inl refl)))
  mint_from-Runs id w swap p found (some minter) = Runs-bind _ _ (Quiet-lift orm _) λ signer.
      Runs-bind _ _ (mint_jettons-Quiet orm e _ _ _ _ _ _) λ minted.
        Runs-return laws e (closed SwapStatus.confirmed none) _ (λ g. refl)
          (rw found (inr (inr refl))) (Settles-pure laws e _)

  mint_found-Runs :
      (id : ℕ) (w : World Db) (swap : Swap)
      → swap.id ≡ id
      → stage orm w id ≡ some (stage_of swap)
      → Runs orm id after_mint MintAllowed w (mint_found orm e (some swap))
  unfolding mint_found
  mint_found-Runs id w swap p found =
      Runs-if (ltb (extended_expires_at swap) e.now) _ _
        (λ late. swap_expired-Runs laws e swap p (λ c g. refl) (λ c. rw found (inl refl)))
        (λ in_time.
          Runs-bind _ _ (find_minter_admin_wallet-Quiet orm e) (mint_from-Runs id w swap p found))

  -- If the database obeys the laws, a run of mintTonJettons that throws touches no stage and no
  -- job. One that returns touches no job, and moves the stage of its own swap alone, which
  -- stays if confirmed is returned, and otherwise gets the status that is returned: failed if
  -- the swap is not stored, otherwise expired or failed.
  pub mint_ton_jettons-Runs :
      (id : ℕ) (w : World Db) → Runs orm id after_mint MintAllowed w (mint_ton_jettons orm e id)
  unfolding mint_ton_jettons
  mint_ton_jettons-Runs id w =
      Runs-find laws e _ (λ missing. Runs-missing laws e _ _ missing refl (Settles-pure laws e _))
        (mint_found-Runs id w)

  complete_mint-Runs :
      (id : ℕ) (w : World Db) (swap : Swap) (jetton_wallet : String)
      → swap.id ≡ id
      → stage orm w id ≡ some (stage_of swap)
      → (transaction : Option (TransactionData Num))
      → Runs orm id after_payout PayoutAllowed w
          (complete_mint orm e swap jetton_wallet transaction)
  unfolding complete_mint
  complete_mint-Runs id w swap jetton_wallet p found none = Runs-throw _
  complete_mint-Runs id w swap jetton_wallet p found (some transaction) =
      Runs-bind _ _ (Quiet-lift orm _) λ conjugated_address.
        Runs-update laws e swap.id _ (closed SwapStatus.completed (get_status_code error_no_error))
          _ p (λ g. refl) (rw found (inr (inr refl))) (Settles-pure laws e _)

  find_mint-Runs :
      (id : ℕ) (w : World Db) (swap : Swap)
      → swap.id ≡ id
      → stage orm w id ≡ some (stage_of swap)
      → (minter : Option Wallet)
      → Runs orm id after_payout PayoutAllowed w (find_mint orm e swap minter)
  unfolding find_mint
  find_mint-Runs id w swap p found none =
      minter_not_found-Runs laws e swap p (λ c g. refl) (λ c. rw found (inr (inl refl)))
  find_mint-Runs id w swap p found (some minter) = Runs-bind _ _ (Quiet-lift orm _) λ jetton_wallet.
      Runs-bind _ _ (Quiet-lift orm _)
        λ transaction. complete_mint-Runs id w swap jetton_wallet p found transaction

  get_mint_found-Runs :
      (id : ℕ) (w : World Db) (swap : Swap)
      → swap.id ≡ id
      → stage orm w id ≡ some (stage_of swap)
      → Runs orm id after_payout PayoutAllowed w (get_mint_found orm e (some swap))
  unfolding get_mint_found
  get_mint_found-Runs id w swap p found =
      Runs-if (ltb (extended_expires_at swap) e.now) _ _
        (λ late. swap_expired-Runs laws e swap p (λ c g. refl) (λ c. rw found (inl refl)))
        (λ in_time.
          Runs-bind _ _ (find_minter_admin_wallet-Quiet orm e) (find_mint-Runs id w swap p found))

  -- If the database obeys the laws, a run of getTonMintTransaction that throws touches no stage
  -- and no job. One that returns touches no job, and moves the stage of its own swap alone,
  -- which gets the status that is returned: failed if the swap is not stored, otherwise
  -- expired, failed or completed.
  pub get_ton_mint_transaction-Runs :
      (id : ℕ) (w : World Db)
      → Runs orm id after_payout PayoutAllowed w (get_ton_mint_transaction orm e id)
  unfolding get_ton_mint_transaction
  get_ton_mint_transaction-Runs id w =
      Runs-find laws e _ (λ missing. Runs-missing laws e _ _ missing refl (Settles-pure laws e _))
        (get_mint_found-Runs id w)
