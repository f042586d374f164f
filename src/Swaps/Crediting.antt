-- ===== src/Swaps/Crediting.antt =====
-- What crediting a swap and its source wallet writes, whichever blockchain was paid in.
use eth_ton_swap.Common.{
  ℕ, String, true, false, Option, some, Result, ok, err, lift, gets, ok_inj, ◌≡◌, ◌∙◌, refl, sym,
  subst, Bool-cases, inl, inr, arith,
}
use eth_ton_swap.Common.Number.{quantity_to_text, parse_nullable}
use eth_ton_swap.Entities.{SwapStatus, Swap, Wallet}
use eth_ton_swap.Database.{
  Orm, OrmLaws, PartialSwap, PartialWallet, assign_swap, assign_wallet, assign_swap_wallets,
}
use eth_ton_swap.World.{SwapResult}
use eth_ton_swap.Env.{Env}
use eth_ton_swap.Swaps.Helper.{recalculate_swap}
use eth_ton_swap.Swaps.Helper.Recalculation.{
  IsAccepted, with_amounts, Recalculates, recalculate_swap-Recalculates,
}
use eth_ton_swap.Swaps.Helper.Closing.{closed}
use eth_ton_swap.Swaps.Helper.Release.{updated_rows, partial_in_use}
use eth_ton_swap.Swaps.EthSource.{adjusted_swap}
use eth_ton_swap.Swaps.Pipeline.Reading.{Given}

module _ {Num Slice : Type 0} (e : Env Num Slice) where
  -- what an adjusted swap shares with the stored one
  pub record Adjusts (swap adjusted : Swap) : Type 0 where
    pub same_id : adjusted.id ≡ swap.id
    pub same_wallet : adjusted.source_wallet ≡ swap.source_wallet

  pub adjusted_swap-Adjusts :
      (swap adjusted : Swap) (amount : Num)
      → adjusted_swap e swap amount ≡ ok adjusted
      → Adjusts swap adjusted
  unfolding adjusted_swap recalculate_swap
  adjusted_swap-Adjusts swap adjusted amount h = record {
    same_id = ground arith;
    same_wallet = ground arith;
  }

  -- The swap as it was ordered if just that amount was transferred, and otherwise, if the amount is
  -- accepted, the swap with its three amounts recalculated for it.
  pub data AdjustedTo (swap : Swap) (amount : Num) : Swap → Type 0 where
    as_ordered :
        e.big.eq amount (e.big.parse swap.source_amount) ≡ true → AdjustedTo swap amount swap
    recalculated :
        e.big.eq amount (e.big.parse swap.source_amount) ≡ false
        → IsAccepted e swap amount
        → AdjustedTo swap amount (with_amounts e swap amount)

  accepted :
      (swap adjusted : Swap) (amount : Num)
      → e.big.eq amount (e.big.parse swap.source_amount) ≡ false
      → (r : Result Swap) → Recalculates e swap amount r
      → r ≡ ok adjusted
      → AdjustedTo swap amount adjusted
  accepted swap adjusted amount other (ok new) c h =
      subst (AdjustedTo swap amount) (sym c.1 ∙ ok_inj h) (recalculated other c.0)
  accepted swap adjusted amount other (err m) c h = ground (arith, h)

  pub adjusted_swap-AdjustedTo :
      (swap adjusted : Swap) (amount : Num)
      → adjusted_swap e swap amount ≡ ok adjusted
      → AdjustedTo swap amount adjusted
  unfolding adjusted_swap
  adjusted_swap-AdjustedTo swap adjusted amount h =
      elim (Bool-cases (e.big.eq amount (e.big.parse swap.source_amount))) [
        | inl same ↦
            let one : ok swap ≡ ok adjusted = sym (rw same (refl {a = ok swap})) ∙ h in
            subst (AdjustedTo swap amount) (ok_inj one) (as_ordered same)
        | inr other ↦
            accepted swap adjusted amount other (recalculate_swap e swap amount)
              (recalculate_swap-Recalculates e swap amount)
              (let chosen = h in ground (arith, other, h))
      ]

  -- the source wallet, free, with the amount added to the balance that a row of it shows
  abbrev pub credited_wallet : Swap → Wallet → Swap → Wallet
  credited_wallet swap shown adjusted = record swap.source_wallet {
    in_use = false;
    balance = some (
        quantity_to_text e.big (record {
          quantity =
              e.big.plus (parse_nullable e.big shown.balance) (e.big.parse adjusted.source_amount);
          decimals = adjusted.source_token.decimals;
        }));
  }

-- what is to be shown of a run that confirms
abbrev pub IfConfirmed : {W : Type 0} → (W → Type 0) → SwapResult → W → Type 0
IfConfirmed P r w = r.status ≡ SwapStatus.confirmed → P w

pub closed-IfConfirmed :
    {W : Type 0} (P : W → Type 0) (status : SwapStatus) (code : Option ℕ)
    (x : Result SwapResult × W)
    → x.0 ≡ ok (closed status code)
    → (status ≡ SwapStatus.confirmed → ⊥)
    → Given (IfConfirmed P) x
closed-IfConfirmed P status code (r, v) p other = rw p (λ h. absurd (other h))

-- the columns that crediting a wallet writes
abbrev pub credited_columns : String → PartialWallet
credited_columns balance = record (partial_in_use false) { balance = some balance }

module _ {W A : Type 0} where
  pub lifted : (r : Result A) (w : W) (a : A) → (lift r w).0 ≡ ok a → r ≡ ok a
  unfolding lift
  lifted r w a h = h

  pub gotten : (f : W → A) (w : W) (a : A) → (gets f w).0 ≡ ok a → f w ≡ a
  unfolding gets
  gotten f w a h = ok_inj h

module _ {Db Num Slice : Type 0} {orm : Orm Db} (laws : OrmLaws orm) (e : Env Num Slice) where
  pub credited_rows :
      (d : Db) (swap : Swap) (i : ℕ) (wallet : Wallet) (p : PartialSwap) (balance : String)
      → i ≡ swap.id
      → wallet ≡ swap.source_wallet
      → orm.find_swap d swap.id ≡ some swap
      → let d' = orm.update_wallet (orm.update_swap d i p) wallet.id (credited_columns balance) in
        (orm.find_swap d' swap.id
          ≡ some (
              assign_swap_wallets swap.source_wallet.id
                (credited_columns balance)
                (assign_swap p swap)))
        × (orm.find_wallet d' swap.source_wallet.id
            ≡ some (assign_wallet (credited_columns balance) swap.source_wallet))
  credited_rows d swap i wallet p balance same_id same_wallet found =
      subst
        (λ j.
          let d' = orm.update_wallet (orm.update_swap d j p) wallet.id (credited_columns balance) in
          (orm.find_swap d' swap.id
            ≡ some (
                assign_swap_wallets swap.source_wallet.id (credited_columns balance)
                  (assign_swap p swap)))
          × (orm.find_wallet d' swap.source_wallet.id
              ≡ some (assign_wallet (credited_columns balance) swap.source_wallet)))
        (sym same_id)
        (subst
          (λ u.
            let d' =
              orm.update_wallet (orm.update_swap d swap.id p) u.id (credited_columns balance) in
            (orm.find_swap d' swap.id
              ≡ some (
                  assign_swap_wallets swap.source_wallet.id (credited_columns balance)
                    (assign_swap p swap)))
            × (orm.find_wallet d' swap.source_wallet.id
                ≡ some (assign_wallet (credited_columns balance) swap.source_wallet)))
          (sym same_wallet) (updated_rows laws e d swap p (credited_columns balance) found))
