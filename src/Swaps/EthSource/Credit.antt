-- ===== src/Swaps/EthSource/Credit.antt =====
-- What a confirmed transfer credits: src/swaps/processors/eth-source-swaps.processor.ts.
use eth_ton_swap.Common.{
  ℕ, Picks, first, later, Option, none, some, List, [], ◌∷◌, Result, ok, err, throw, ◌>>=◌, ◌≡◌,
  refl, ap, sym, ◌∙◌, subst, ltb, Bool-cases, Result-cases, inl, inr, arith,
}
use eth_ton_swap.Common.Number.{quantity_of, quantity_to_text}
use eth_ton_swap.Entities.{SwapStatus, Swap, Wallet, is_canceled}
use eth_ton_swap.Database.{Orm, OrmLaws}
use eth_ton_swap.World.{World, SwapResult}
use eth_ton_swap.Env.{Env, Log}
use eth_ton_swap.Ethereum
use eth_ton_swap.Ethereum.{TransferLog}
use eth_ton_swap.Wallets.Repository as Wallets
use eth_ton_swap.Swaps.Repository
use eth_ton_swap.Swaps.Jobs.{ConfirmTransfer}
use eth_ton_swap.Swaps.Helper.{swap_canceled, swap_expired, swap_not_recalculated}
use eth_ton_swap.Swaps.Helper.Release.{close_swap-closed}
use eth_ton_swap.Swaps.EthSource.Logs.{Describes, find_transfer_log-Describes}
use eth_ton_swap.Swaps.EthSource.{
  adjusted_swap, confirm_swap, confirm_or_fail, confirm_first_transfer, confirm_found,
  confirm_eth_transfer,
}
use eth_ton_swap.Swaps.Pipeline.Reading.{
  Given, Given-ok, Given-Reads, Given-bind, Reads-lift, Reads-gets,
}
use eth_ton_swap.Swaps.Pipeline.Caching.{Kept, Resolves, get_block-Resolves}
use eth_ton_swap.Swaps.Crediting.{
  AdjustedTo, adjusted_swap-AdjustedTo, credited_wallet, adjusted_swap-Adjusts, IfConfirmed,
  closed-IfConfirmed, credited_rows, lifted, gotten,
}

module _ {Num Slice : Type 0} (e : Env Num Slice) where
  -- The logs of the source token's contract for a block, which is the job's, and the five before.
  pub record Answers (d : ConfirmTransfer) (swap : Swap) (block : ℕ) (logs : List Log)
      : Type 0 where
    pub of_job : Resolves e d.block_number block
    pub listed :
        e.eth.get_logs swap.source_token.address
          (e.eth.topic_id "Transfer(address,address,uint256)")
          (Ethereum.sub_ℕ block 5)
          block
        ≡ ok logs

module _ {Db Num Slice : Type 0} (orm : Orm Db) (e : Env Num Slice) where
  -- The swap and its wallet are credited with a transfer that one of the logs describes.
  pub record Credits (d : ConfirmTransfer) (swap : Swap) (w' : World Db) : Type 0 where
    pub block : ℕ
    pub logs : List Log
    pub answered : Answers e d swap block logs
    pub log : Log
    pub member : (rest : List Log) × Picks log rest logs
    pub transfer : TransferLog Num
    pub logged : Describes e log swap.source_wallet.address swap.source_token.decimals transfer
    pub adjusted : Swap
    pub adjusts : AdjustedTo e swap transfer.amount adjusted
    pub row :
        (stored : Swap) × (orm.find_swap w'.db swap.id ≡ some stored)
        × (stored.status ≡ SwapStatus.confirmed)
        × (stored.confirmations ≡ 1)
        × (stored.source_transaction_id ≡ some transfer.transaction_id)
        × (stored.source_amount
            ≡ quantity_to_text e.big
                (quantity_of e.big adjusted.source_amount adjusted.source_token.decimals))
    pub wallet :
        orm.find_wallet w'.db swap.source_wallet.id
        ≡ some (credited_wallet e swap swap.source_wallet adjusted)

  abbrev Credited : ConfirmTransfer → Swap → SwapResult → World Db → Type 0
  Credited d swap = IfConfirmed (Credits d swap)

module _ {Db Num Slice : Type 0} {orm : Orm Db} (laws : OrmLaws orm) (e : Env Num Slice) where
  confirm_swap-Given :
      (d : ConfirmTransfer) (swap adjusted : Swap) (block : ℕ) (all : List Log) (log : Log)
      (transfer : TransferLog Num) (v : World Db)
      → Answers e d swap block all
      → (rest : List Log) × Picks log rest all
      → orm.find_swap v.db swap.id ≡ some swap
      → Ethereum.find_transfer_log e log swap.source_wallet.address swap.source_token.decimals
        ≡ ok (some transfer)
      → adjusted_swap e swap transfer.amount ≡ ok adjusted
      → Given (Credited orm e d swap) (confirm_swap orm e transfer adjusted v)
  unfolding confirm_swap Repository.update Wallets.update ◌>>=◌
  confirm_swap-Given d swap adjusted block all log transfer v answered member found logged adjusts =
      elim (Result-cases (Ethereum.normalize_address e transfer.source_address)) [
        | inl (source_address, p) ↦ rw p (λ confirmed.
            let same = adjusted_swap-Adjusts e swap adjusted transfer.amount adjusts in
            let rows =
              credited_rows laws e v.db swap adjusted.id adjusted.source_wallet _ _ same.same_id
                same.same_wallet found in
            record {
              block = block;
              logs = all;
              answered = answered;
              member = member;
              log = log;
              transfer = transfer;
              logged = find_transfer_log-Describes e log _ _ transfer logged;
              adjusted = adjusted;
              adjusts = adjusted_swap-AdjustedTo e swap adjusted transfer.amount adjusts;
              row = (_, rows.0, refl, refl, refl, refl);
              wallet =
                  rows.1
                  ∙ ap (λ (u : Wallet). some (credited_wallet e swap u adjusted)) same.same_wallet;
            })
        | inr (m, p) ↦ rw p tt
      ]

  confirm_or_fail-Given :
      (d : ConfirmTransfer) (swap : Swap) (block : ℕ) (all : List Log) (log : Log)
      (transfer : TransferLog Num) (v : World Db) (adjusted : Result Swap)
      → Answers e d swap block all
      → (rest : List Log) × Picks log rest all
      → orm.find_swap v.db swap.id ≡ some swap
      → Ethereum.find_transfer_log e log swap.source_wallet.address swap.source_token.decimals
        ≡ ok (some transfer)
      → adjusted_swap e swap transfer.amount ≡ adjusted
      → Given (Credited orm e d swap) (confirm_or_fail orm e transfer swap adjusted v)
  unfolding confirm_or_fail swap_not_recalculated
  confirm_or_fail-Given d swap block all log transfer v (ok adjusted) answered member found logged
        adjusts =
      confirm_swap-Given d swap adjusted block all log transfer v answered member found logged
        adjusts
  confirm_or_fail-Given d swap block all log transfer v (err message) answered member found logged
        adjusts =
      closed-IfConfirmed (Credits orm e d swap) SwapStatus.failed _ _
        (close_swap-closed laws e v swap SwapStatus.failed _) (λ h. ground (arith, h))

  first_transfer-Given :
      (d : ConfirmTransfer) (swap : Swap) (block : ℕ) (all logs : List Log) (v : World Db)
      → Answers e d swap block all
      → ((l : Log) (r : List Log) → Picks l r logs → (rest : List Log) × Picks l rest all)
      → orm.find_swap v.db swap.id ≡ some swap
      → Given (Credited orm e d swap) (confirm_first_transfer orm e swap logs v)
  unfolding confirm_first_transfer throw
  first_transfer-Given d swap block all [] v answered among found = tt
  first_transfer-Given d swap block all (log ∷ logs) v answered among found =
      Given-Reads {A = Option (TransferLog Num)} (Credited orm e d swap) _ _ v (Reads-lift _)
        (elim [
          | none ↦ λ p.
              first_transfer-Given d swap block all logs v answered
                (λ l r q. among l (log ∷ r) (later q)) found
          | some transfer ↦ λ p.
              confirm_or_fail-Given d swap block all log transfer v _ answered
                (among log logs first) found (lifted _ v _ p) refl
        ])

  found-Given :
      (d : ConfirmTransfer) (swap : Swap) (w : World Db)
      → orm.find_swap w.db swap.id ≡ some swap
      → Given (Credited orm e d swap) (confirm_found orm e d (some swap) w)
  unfolding confirm_found swap_canceled swap_expired
  found-Given d swap w found = elim (Bool-cases (is_canceled swap.status)) [
    | inl gone ↦ rw gone (
        closed-IfConfirmed (Credits orm e d swap) SwapStatus.canceled _ _
          (close_swap-closed laws e w swap SwapStatus.canceled _) (λ h. ground (arith, h)))
    | inr active ↦ rw active (elim (Bool-cases (ltb swap.expires_at e.now)) [
      | inl late ↦ rw late (
          closed-IfConfirmed (Credits orm e d swap) SwapStatus.expired _ _
            (close_swap-closed laws e w swap SwapStatus.expired _) (λ h. ground (arith, h)))
      | inr in_time ↦ rw in_time (
          Given-bind (λ n v. Kept w v × Resolves e d.block_number n) (Credited orm e d swap) _ _ w
            (get_block-Resolves e d.block_number w)
            (λ current v (k, is_block).
              Given-Reads (Credited orm e d swap) _ _ v (Reads-lift _) λ logs q.
                first_transfer-Given d swap current logs logs v
                  (record { of_job = is_block; listed = lifted _ v logs q }) (λ l r p. (r, p))
                  (ap (λ db. orm.find_swap db swap.id) k.db ∙ found)))
    ])
  ]

  -- If confirmEthTransfer returns confirmed for a stored swap, over a database that obeys the
  -- laws, one of the logs that were answered for the job's block and the five before it is an
  -- event whose receiver is the swap's source wallet, and its amount is the one that counts:
  -- the swap as it was ordered if the two amounts are equal, and otherwise the swap with its
  -- amounts recalculated for an amount within the token's bounds. The stored swap is confirmed
  -- once and has the log's transaction and that amount, and the wallet is free and has the
  -- amount added to its balance.
  pub confirm_eth_transfer-Credits :
      (d : ConfirmTransfer) (w : World Db) (swap : Swap) (r : SwapResult)
      → orm.find_swap w.db d.swap_id ≡ some swap
      → (confirm_eth_transfer orm e d w).0 ≡ ok r
      → r.status ≡ SwapStatus.confirmed
      → Credits orm e d swap (confirm_eth_transfer orm e d w).1
  unfolding confirm_eth_transfer Repository.find_by_id
  confirm_eth_transfer-Credits d w swap r found returned confirmed =
      Given-ok (Credited orm e d swap) (confirm_eth_transfer orm e d w) r
        (Given-Reads (Credited orm e d swap) _ _ w (Reads-gets _) λ o p.
          subst (λ o. Given (Credited orm e d swap) (confirm_found orm e d o w))
            (sym found ∙ gotten _ w o p)
            (found-Given d swap w
              (ap (orm.find_swap w.db) (laws.find_swap_id w.db d.swap_id swap found) ∙ found)))
        returned confirmed
