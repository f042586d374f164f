-- ===== src/Swaps/Helper/Release.antt =====
-- What closing a swap leaves in the database: the swap's status, and a wallet that is free.
use eth_ton_swap.Common.{
  ℕ, Bool, Action, ==_refl, false, Option, none, some, ok, ◌>>=◌, ◌≡◌, refl, ap, ◌∙◌, arith,
}
use mathlib.Core.Option
use eth_ton_swap.Common.Errors.{error_swap_expired, error_no_error, get_status_code}
use eth_ton_swap.Entities.{SwapStatus, Swap, Wallet}
use eth_ton_swap.Database.{
  assigned_nullable, Orm, OrmLaws, PartialSwap, PartialWallet, assign_wallet, assign_swap,
  assign_swap_wallets,
}
use eth_ton_swap.World.{World, SwapResult}
use eth_ton_swap.Env.{Env}
use eth_ton_swap.Wallets.Repository as Wallets
use eth_ton_swap.Swaps.Repository
use eth_ton_swap.Swaps.Repository.{no_update}
use eth_ton_swap.Swaps.Helper.{swap_expired, swap_canceled, close_swap}
use eth_ton_swap.Swaps.Helper.Closing.{closed}
use eth_ton_swap.Swaps.Pipeline.Reading.{Given}

module _ {Db : Type 0} (orm : Orm Db) where
  -- The swap has that status, and its source wallet is not in use.
  pub record IsClosed (w : World Db) (swap : Swap) (status : SwapStatus) : Type 0 where
    pub stored : (row : Swap) × (orm.find_swap w.db swap.id ≡ some row) × (row.status ≡ status)
    pub released :
        (wallet : Wallet) × (orm.find_wallet w.db swap.source_wallet.id ≡ some wallet)
        × (wallet.in_use ≡ false)

-- the columns that `{ inUse: … }` writes
abbrev pub partial_in_use : Bool → PartialWallet
partial_in_use flag = record {
  mnemonic = none;
  conjugated_address = none;
  balance = none;
  type = none;
  deployed = none;
  in_use = some flag;
  disabled = none;
}

module _ {Db Num Slice : Type 0} {orm : Orm Db} (laws : OrmLaws orm) (e : Env Num Slice) where
  -- a swap's row after an update
  pub updated_swap :
      (d : Db) (swap : Swap) (p : PartialSwap)
      → orm.find_swap d swap.id ≡ some swap
      → orm.find_swap (orm.update_swap d swap.id p) swap.id ≡ some (assign_swap p swap)
  updated_swap d swap p found =
      laws.find_swap-update_swap d swap.id swap.id p
      ∙ rw (==_refl swap.id) (ap (Option.map (assign_swap p)) found)

  -- a swap's row and its wallet's row after two updates
  pub updated_rows :
      (d : Db) (swap : Swap) (p : PartialSwap) (q : PartialWallet)
      → orm.find_swap d swap.id ≡ some swap
      → let i = swap.source_wallet.id in
        let d' = orm.update_wallet (orm.update_swap d swap.id p) i q in
        (orm.find_swap d' swap.id ≡ some (assign_swap_wallets i q (assign_swap p swap)))
        × (orm.find_wallet d' i ≡ some (assign_wallet q swap.source_wallet))
  updated_rows d swap p q found =
      let d₁ = orm.update_swap d swap.id p in
      let i = swap.source_wallet.id in
      let stored : orm.find_swap d₁ swap.id ≡ some (assign_swap p swap) =
        updated_swap d swap p found in
      let wallet : orm.find_wallet d₁ i ≡ some swap.source_wallet =
        laws.find_wallet-update_swap d swap.id i p ∙ laws.find_swap_joins d swap.id swap found in
      (
        laws.find_swap-update_wallet d₁ i swap.id q
            ∙ ap (Option.map (assign_swap_wallets i q)) stored,
        laws.find_wallet-update_wallet d₁ i i q
            ∙ rw (==_refl i) (ap (Option.map (assign_wallet q)) wallet),
      )

  closed_rows :
      (d : Db) (swap : Swap) (status : SwapStatus) (p : PartialSwap) (q : PartialWallet)
      → p.status ≡ some status
      → q.in_use ≡ some false
      → orm.find_swap d swap.id ≡ some swap
      → let d' = orm.update_wallet (orm.update_swap d swap.id p) swap.source_wallet.id q in
        ((row : Swap) × (orm.find_swap d' swap.id ≡ some row) × (row.status ≡ status))
        × ((wallet : Wallet) × (orm.find_wallet d' swap.source_wallet.id ≡ some wallet)
            × (wallet.in_use ≡ false))
  closed_rows d swap status p q ps qs found =
      let rows = updated_rows d swap p q found in
      (
        (
          assign_swap_wallets swap.source_wallet.id q (assign_swap p swap),
          rows.0,
          ground (arith, ps),
        ),
        (assign_wallet q swap.source_wallet, rows.1, ground (arith, qs)),
      )

  -- what the helper's closing methods return and leave behind
  abbrev pub Closes :
      Swap → SwapStatus → Option ℕ → World Db → Action (World Db) SwapResult → Type 0
  Closes swap status code w m =
      ((m w).0 ≡ ok (closed status code))
      × ((m w).1.jobs ≡ w.jobs)
      × IsClosed orm (m w).1 swap status
      × ((row : Swap) × (orm.find_swap (m w).1.db swap.id ≡ some row)
          × (row.status_code ≡ assigned_nullable code swap.status_code))

  -- a closing method never throws
  pub close_swap-closed :
      (w : World Db) (swap : Swap) (status : SwapStatus) (code : Option ℕ)
      → (close_swap orm e swap status code w).0 ≡ ok (closed status code)
  unfolding ◌>>=◌ Repository.update Wallets.update
  close_swap-closed w swap status code = refl

  close_swap-Closes :
      (w : World Db) (swap : Swap) (status : SwapStatus) (code : Option ℕ)
      → orm.find_swap w.db swap.id ≡ some swap
      → Closes swap status code w (close_swap orm e swap status code)
  unfolding ◌>>=◌ Repository.update Wallets.update
  close_swap-Closes w swap status code found =
      let columns =
        Repository.partial_swap orm e
          (record no_update { status = some status; status_code = code }) in
      let rows = closed_rows w.db swap status columns (partial_in_use false) refl refl found in
      (
        refl,
        refl,
        record { stored = rows.0; released = rows.1 },
        (_, (updated_rows w.db swap columns (partial_in_use false) found).0, refl),
      )

  -- what holds after a closing method holds of a run that ends with it
  pub close_swap-Given :
      (Q : SwapResult → World Db → Type 0) (w : World Db) (swap : Swap) (status : SwapStatus)
      (code : Option ℕ)
      → orm.find_swap w.db swap.id ≡ some swap
      → ((v : World Db)
          → IsClosed orm v swap status
          → v.requests ≡ w.requests
          → Q (closed status code) v)
      → Given Q (close_swap orm e swap status code w)
  unfolding ◌>>=◌ Repository.update Wallets.update
  close_swap-Given Q w swap status code found k =
      k _ (close_swap-Closes w swap status code found).2 refl

  -- For a stored swap, swapExpired returns the expired result with the status code of an
  -- expired swap, stores that status and that status code, lets the swap's source wallet go,
  -- and adds no job, if the database obeys the laws.
  pub swap_expired-Closes :
      (w : World Db) (swap : Swap)
      → orm.find_swap w.db swap.id ≡ some swap
      → Closes swap SwapStatus.expired
          (get_status_code error_swap_expired)
          w
          (swap_expired orm e swap)
  unfolding swap_expired
  swap_expired-Closes w swap found = close_swap-Closes w swap _ _ found

  pub swap_canceled-Closes :
      (w : World Db) (swap : Swap)
      → orm.find_swap w.db swap.id ≡ some swap
      → Closes swap SwapStatus.canceled
          (get_status_code error_no_error)
          w
          (swap_canceled orm e swap)
  unfolding swap_canceled
  swap_canceled-Closes w swap found = close_swap-Closes w swap _ _ found
