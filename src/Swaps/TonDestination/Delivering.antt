-- ===== src/Swaps/TonDestination/Delivering.antt =====
-- What the search for the mint's transaction stores:
-- src/swaps/processors/ton-destination-swaps.processor.ts.
use eth_ton_swap.Common.{
  ℕ, String, false, Option, none, some, ok, throw, ◌>>=◌, ◌≡◌, refl, ap, sym, ◌∙◌, subst, ltb, lift,
  Result-cases, inl, inr,
}
use eth_ton_swap.Common.Errors.{get_status_code}
use eth_ton_swap.Entities.{SwapStatus, Wallet, Swap, extended_expires_at}
use eth_ton_swap.Database.{Orm, OrmLaws}
use eth_ton_swap.World.{World, SwapResult}
use eth_ton_swap.Env.{Env}
use eth_ton_swap.Ton.Blockchain.{
  JettonOperation, TransactionData, find_transaction, normalize_address,
}
use eth_ton_swap.Ton.Contract.{get_jetton_wallet_address}
use eth_ton_swap.Swaps.Repository
use eth_ton_swap.Swaps.Helper.Release.{updated_swap}
use eth_ton_swap.Swaps.TonDestination.{
  complete_mint, find_mint, get_mint_found, get_ton_mint_transaction,
}
use eth_ton_swap.Swaps.TonDestination.Minting.{minter_admin, Refused, guarded-Given}
use eth_ton_swap.Swaps.Crediting.{lifted, gotten}
use eth_ton_swap.Swaps.Pipeline.Reading.{Given, Given-ok, Given-Reads, Reads-lift, Reads-gets}

module _ {Db Num Slice : Type 0} (orm : Orm Db) (e : Env Num Slice) where
  -- The outcomes for a stored swap: refused, or the transaction that delivered the jettons is found,
  -- and completes the swap.
  pub data Delivers (swap : Swap) (w : World Db) : SwapResult → World Db → Type 0 where
    refused : {r : SwapResult} {v : World Db} → Refused orm e swap w r v → Delivers swap w r v
    delivered :
        {r : SwapResult} {v : World Db} (admin : Wallet) (jetton_wallet : String)
        (transaction : TransactionData Num) (stored : Swap)
        → ltb (extended_expires_at swap) e.now ≡ false
        → minter_admin orm e w ≡ some admin
        → get_jetton_wallet_address e admin.address swap.destination_address ≡ ok jetton_wallet
        → find_transaction e jetton_wallet swap.created_at (some JettonOperation.internal_transfer)
          ≡ ok (some transaction)
        → v.requests ≡ w.requests
        → r.status ≡ SwapStatus.completed
        → orm.find_swap v.db swap.id ≡ some stored
        → (stored.status ≡ SwapStatus.completed)
          × (stored.destination_transaction_id ≡ some transaction.id)
        → Delivers swap w r v

module _ {Db Num Slice : Type 0} {orm : Orm Db} (laws : OrmLaws orm) (e : Env Num Slice) where
  complete-Delivers :
      (swap : Swap) (w : World Db) (admin : Wallet) (jetton_wallet : String)
      (o : Option (TransactionData Num))
      → orm.find_swap w.db swap.id ≡ some swap
      → ltb (extended_expires_at swap) e.now ≡ false
      → minter_admin orm e w ≡ some admin
      → get_jetton_wallet_address e admin.address swap.destination_address ≡ ok jetton_wallet
      → find_transaction e jetton_wallet swap.created_at (some JettonOperation.internal_transfer)
        ≡ ok o
      → Given (Delivers orm e swap w) (complete_mint orm e swap jetton_wallet o w)
  unfolding complete_mint Repository.update throw lift ◌>>=◌ get_status_code
  complete-Delivers swap w admin jetton_wallet none found in_time manned owned seen = tt
  complete-Delivers swap w admin jetton_wallet (some transaction) found in_time manned owned seen =
      elim (Result-cases (normalize_address e jetton_wallet)) [
        | inl (conjugated_address, p) ↦ rw p (
            delivered admin jetton_wallet transaction _ in_time manned owned seen refl refl
              (updated_swap laws e w.db swap _ found) (refl, refl))
        | inr (m, p) ↦ rw p tt
      ]

  find_mint-Delivers :
      (swap : Swap) (w : World Db)
      → orm.find_swap w.db swap.id ≡ some swap
      → (admin : Wallet) → ltb (extended_expires_at swap) e.now ≡ false
      → minter_admin orm e w ≡ some admin
      → Given (Delivers orm e swap w) (find_mint orm e swap (some admin) w)
  unfolding find_mint
  find_mint-Delivers swap w found admin in_time manned =
      Given-Reads (Delivers orm e swap w) _ _ w (Reads-lift _) λ jetton_wallet p.
        Given-Reads (Delivers orm e swap w) _ _ w (Reads-lift _) λ o q.
          complete-Delivers swap w admin jetton_wallet o found in_time manned
            (lifted _ w jetton_wallet p) (lifted _ w o q)

  found-Delivers :
      (swap : Swap) (w : World Db)
      → orm.find_swap w.db swap.id ≡ some swap
      → Given (Delivers orm e swap w) (get_mint_found orm e (some swap) w)
  unfolding get_mint_found find_mint
  found-Delivers swap w found =
      guarded-Given laws e (Delivers orm e swap w) (find_mint orm e swap) swap w found refl
        (λ r v refusal. refused refusal) (find_mint-Delivers swap w found)

  -- If getTonMintTransaction returns for a stored swap, over a database that obeys the laws,
  -- then the swap's extended time is over, and it is expired; or it is not over, but no wallet
  -- of TON administers the minter, and it has failed, in both cases with its source wallet
  -- free; or the search at the receiver's jetton wallet for a transfer that came in since the
  -- swap was made found a transaction, which completes the swap.
  pub get_ton_mint_transaction-Delivers :
      (id : ℕ) (w : World Db) (swap : Swap) (r : SwapResult)
      → orm.find_swap w.db id ≡ some swap
      → (get_ton_mint_transaction orm e id w).0 ≡ ok r
      → Delivers orm e swap w r (get_ton_mint_transaction orm e id w).1
  unfolding get_ton_mint_transaction Repository.find_by_id
  get_ton_mint_transaction-Delivers id w swap r found returned =
      Given-ok (Delivers orm e swap w) (get_ton_mint_transaction orm e id w) r
        (Given-Reads (Delivers orm e swap w) _ _ w (Reads-gets _) λ o p.
          subst (λ o. Given (Delivers orm e swap w) (get_mint_found orm e o w))
            (sym found ∙ gotten _ w o p)
            (found-Delivers swap w
              (ap (orm.find_swap w.db) (laws.find_swap_id w.db id swap found) ∙ found)))
        returned
