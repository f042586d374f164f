-- ===== src/Wallets/Controller/Storing.antt =====
-- What saving a wallet leaves: src/wallets/providers/wallets.repository.ts.
use eth_ton_swap.Common.{ℕ, some, Result-cases, ◌≡◌, ◌≢◌, refl, inl, inr}
use eth_ton_swap.Entities.{Wallet}
use eth_ton_swap.Database.{Orm, OrmLaws, WalletDraft, IsNewWallet}
use eth_ton_swap.World.{World}
use eth_ton_swap.Env.{Env}
use eth_ton_swap.Swaps.Pipeline.Reading.{Given}
use eth_ton_swap.Wallets.Repository

module _ {Db : Type 0} (orm : Orm Db) where
  -- A new row beside the others, and the wallet that is returned, have what was given.
  pub record Stored (draft : WalletDraft) (before : Db) (wallet : Wallet) (after : Db)
      : Type 0 where
    pub returned : IsNewWallet draft wallet
    pub row :
        (stored : Wallet) × (orm.find_wallet after wallet.id ≡ some stored)
        × IsNewWallet draft stored
    pub others : (j : ℕ) → j ≢ wallet.id → orm.find_wallet after j ≡ orm.find_wallet before j

module _ {Db Num Slice : Type 0} {orm : Orm Db} (laws : OrmLaws orm) (e : Env Num Slice) where
  pub save-Stored :
      (draft : WalletDraft) (w : World Db)
      → Given
          (λ wallet v. Stored orm draft w.db wallet v.db × (v.wallet_jobs ≡ w.wallet_jobs))
          (Repository.save orm e draft w)
  unfolding Repository.save
  save-Stored draft w = elim (Result-cases (orm.save_wallet w.db draft)) [
    | inl ((wallet, after), h) ↦ rw h (
      record {
        returned = laws.save_wallet_returns w.db after draft wallet h;
        row = laws.save_wallet_stored w.db after draft wallet h;
        others = λ j. laws.find_wallet-save_wallet w.db after draft wallet j h;
      },
      refl,
    )
    | inr (m, h) ↦ rw h tt
  ]
