-- ===== src/Swaps/TonSource/Credit.antt =====
-- What a confirmed transfer credits: src/swaps/processors/ton-source-swaps.processor.ts.
use eth_ton_swap.Common.{
  String, Option, none, some, Result, ok, err, throw, ◌>>=◌, ◌≡◌, refl, ap, sym, ◌∙◌, subst, ltb,
  Bool-cases, Result-cases, inl, inr, arith,
}
use eth_ton_swap.Common.Number.{quantity_of, quantity_to_text}
use eth_ton_swap.Entities.{SwapStatus, Swap, Wallet, is_canceled}
use eth_ton_swap.Database.{Orm, OrmLaws}
use eth_ton_swap.World.{World, SwapResult}
use eth_ton_swap.Env.{Env}
use eth_ton_swap.Ton.Blockchain
use eth_ton_swap.Ton.Blockchain.{address_text, JettonOperation, TransactionData}
use eth_ton_swap.Ton.Contract
use eth_ton_swap.Wallets.Repository as Wallets
use eth_ton_swap.Swaps.Repository
use eth_ton_swap.Swaps.Jobs.{ConfirmTransfer}
use eth_ton_swap.Swaps.Helper.{
  swap_canceled, swap_expired, swap_not_recalculated, jetton_minter_admin_wallet_not_found,
}
use eth_ton_swap.Swaps.Helper.Release.{close_swap-closed}
use eth_ton_swap.Swaps.EthSource.{adjusted_swap}
use eth_ton_swap.Swaps.TonDestination.Minting.{minter_admin, admin-Reads, is_admin}
use eth_ton_swap.Swaps.TonSource.{
  confirm_jettons, confirm_from_minter, confirm_or_fail, confirm_incoming, confirm_found,
  confirm_ton_transfer,
}
use eth_ton_swap.Swaps.Pipeline.Reading.{Given, Given-ok, Given-Reads, Reads-lift, Reads-gets}
use eth_ton_swap.Swaps.Crediting.{
  AdjustedTo, adjusted_swap-AdjustedTo, Adjusts, credited_wallet, adjusted_swap-Adjusts,
  IfConfirmed, closed-IfConfirmed, credited_rows, lifted, gotten,
}

module _ {Num Slice : Type 0} (e : Env Num Slice) where
  -- the transfer that came in at the swap's wallet, and the swap adjusted to it
  pub record Received (swap : Swap) : Type 0 where
    pub source : String
    pub at_wallet : address_text swap.source_wallet.conjugated_address ≡ ok source
    pub incoming : TransactionData Num
    pub received :
        Blockchain.find_transaction e source swap.created_at
          (some JettonOperation.internal_transfer)
        ≡ ok (some incoming)
    pub adjusted : Swap
    pub adjusts : AdjustedTo e swap incoming.amount adjusted
    pub shares : Adjusts e swap adjusted

  -- the sender's transaction that the transfer belongs to
  pub record Sent (adjusted : Swap) (source : Option String) : Type 0 where
    pub minter_admin : String
    pub sender : String
    pub named : address_text source ≡ ok sender
    pub jetton_wallet : String
    pub owned : Contract.get_jetton_wallet_address e minter_admin sender ≡ ok jetton_wallet
    pub outgoing : TransactionData Num
    pub sent :
        Blockchain.find_transaction e jetton_wallet adjusted.created_at
          (some JettonOperation.transfer)
        ≡ ok (some outgoing)

module _ {Db Num Slice : Type 0} (orm : Orm Db) (e : Env Num Slice) where
  -- The swap and its wallet are credited with a transfer that was received, and sent.
  pub record Credits (w : World Db) (swap : Swap) (w' : World Db) : Type 0 where
    pub transfer : Received e swap
    pub origin : Sent e transfer.adjusted transfer.incoming.source_address
    pub minter : Wallet
    pub found_minter : minter_admin orm e w ≡ some minter
    pub same_minter : origin.minter_admin ≡ minter.address
    pub row :
        (stored : Swap) × (orm.find_swap w'.db swap.id ≡ some stored)
        × (stored.status ≡ SwapStatus.confirmed)
        × (stored.confirmations ≡ 1)
        × (stored.source_transaction_id ≡ some origin.outgoing.id)
        × (stored.source_amount
            ≡ quantity_to_text e.big (
                quantity_of e.big transfer.adjusted.source_amount
                  transfer.adjusted.source_token.decimals))
    pub wallet :
        orm.find_wallet w'.db swap.source_wallet.id
        ≡ some (credited_wallet e swap swap.source_wallet transfer.adjusted)

  abbrev Credited : World Db → Swap → SwapResult → World Db → Type 0
  Credited w swap = IfConfirmed (Credits w swap)

module _ {Db Num Slice : Type 0} {orm : Orm Db} (laws : OrmLaws orm) (e : Env Num Slice) where
  confirm_jettons-Given :
      (swap : Swap) (t : Received e swap) (v : World Db)
      → orm.find_swap v.db swap.id ≡ some swap
      → (o : Sent e t.adjusted t.incoming.source_address) → (minter : Wallet)
      → minter_admin orm e v ≡ some minter
      → o.minter_admin ≡ minter.address
      → Given
          (Credited orm e v swap)
          (confirm_jettons orm e t.adjusted o.sender o.jetton_wallet (some o.outgoing) v)
  unfolding confirm_jettons Repository.update Wallets.update ◌>>=◌
  confirm_jettons-Given swap t v found o minter found_minter same_minter =
      elim (Result-cases (Blockchain.normalize_address e o.sender)) [
        | inl (source_address, p) ↦
            rw p (elim (Result-cases (Blockchain.normalize_address e o.jetton_wallet)) [
              | inl (source_conjugated_address, q) ↦ rw q (λ confirmed.
                  let same = t.shares in
                  let rows =
                    credited_rows laws e v.db swap t.adjusted.id t.adjusted.source_wallet _ _
                      same.same_id same.same_wallet found in
                  record {
                    transfer = t;
                    origin = o;
                    minter = minter;
                    found_minter = found_minter;
                    same_minter = same_minter;
                    row = (_, rows.0, refl, refl, refl, refl);
                    wallet =
                        rows.1
                        ∙ ap (λ (u : Wallet). some (credited_wallet e swap u t.adjusted))
                            same.same_wallet;
                  })
              | inr (m, q) ↦ rw q tt
            ])
        | inr (m, p) ↦ rw p tt
      ]

  missing-Given :
      (swap : Swap) (t : Received e swap) (v : World Db) (sender jetton_wallet : String)
      → Given (Credited orm e v swap) (confirm_jettons orm e t.adjusted sender jetton_wallet none v)
  unfolding confirm_jettons throw
  missing-Given swap t v sender jetton_wallet = tt

  from_minter-Given :
      (swap : Swap) (t : Received e swap) (v : World Db)
      → orm.find_swap v.db swap.id ≡ some swap
      → (minter : Option Wallet) → minter_admin orm e v ≡ minter
      → Given
          (Credited orm e v swap)
          (confirm_from_minter orm e t.adjusted t.incoming.source_address minter v)
  unfolding confirm_from_minter jetton_minter_admin_wallet_not_found
  from_minter-Given swap t v found none absent =
      closed-IfConfirmed (Credits orm e v swap) SwapStatus.failed _ _
        (close_swap-closed laws e v t.adjusted SwapStatus.failed _) (λ h. ground (arith, h))
  from_minter-Given swap t v found (some minter) found_minter =
      Given-Reads (Credited orm e v swap) _ _ v (Reads-lift _) λ sender named.
        Given-Reads (Credited orm e v swap) _ _ v (Reads-lift _) λ jetton_wallet owned.
          Given-Reads {A = Option (TransactionData Num)} (Credited orm e v swap) _ _ v
            (Reads-lift _)
            (elim [
              | none ↦ λ sent. missing-Given swap t v sender jetton_wallet
              | some outgoing ↦ λ sent.
                  confirm_jettons-Given swap t v found
                    (record {
                      minter_admin = minter.address;
                      sender = sender;
                      named = lifted _ v sender named;
                      jetton_wallet = jetton_wallet;
                      owned = lifted _ v jetton_wallet owned;
                      outgoing = outgoing;
                      sent = lifted _ v _ sent;
                    })
                    minter found_minter refl
            ])

  confirm_or_fail-Given :
      (swap : Swap) (source : String) (incoming : TransactionData Num) (v : World Db)
      (adjusted : Result Swap)
      → address_text swap.source_wallet.conjugated_address ≡ ok source
      → Blockchain.find_transaction e source swap.created_at
          (some JettonOperation.internal_transfer)
        ≡ ok (some incoming)
      → orm.find_swap v.db swap.id ≡ some swap
      → adjusted_swap e swap incoming.amount ≡ adjusted
      → Given
          (Credited orm e v swap)
          (confirm_or_fail orm e swap incoming.source_address adjusted v)
  unfolding confirm_or_fail swap_not_recalculated
  confirm_or_fail-Given swap source incoming v (err message) at_wallet received found adjusts =
      closed-IfConfirmed (Credits orm e v swap) SwapStatus.failed _ _
        (close_swap-closed laws e v swap SwapStatus.failed _) (λ h. ground (arith, h))
  confirm_or_fail-Given swap source incoming v (ok adjusted) at_wallet received found adjusts =
      Given-Reads (Credited orm e v swap) _ _ v (admin-Reads orm e) λ minter h.
        from_minter-Given swap
          (record {
            source = source;
            at_wallet = at_wallet;
            incoming = incoming;
            received = received;
            adjusted = adjusted;
            adjusts = adjusted_swap-AdjustedTo e swap adjusted incoming.amount adjusts;
            shares = adjusted_swap-Adjusts e swap adjusted incoming.amount adjusts;
          })
          v found minter (is_admin orm e v minter h)

  incoming-Given :
      (swap : Swap) (source : String) (v : World Db)
      → address_text swap.source_wallet.conjugated_address ≡ ok source
      → orm.find_swap v.db swap.id ≡ some swap
      → (incoming : Option (TransactionData Num))
      → Blockchain.find_transaction e source swap.created_at
          (some JettonOperation.internal_transfer)
        ≡ ok incoming
      → Given (Credited orm e v swap) (confirm_incoming orm e swap incoming v)
  unfolding confirm_incoming throw
  incoming-Given swap source v at_wallet found none received = tt
  incoming-Given swap source v at_wallet found (some incoming) received =
      confirm_or_fail-Given swap source incoming v _ at_wallet received found refl

  found-Given :
      (swap : Swap) (w : World Db)
      → orm.find_swap w.db swap.id ≡ some swap
      → Given (Credited orm e w swap) (confirm_found orm e (some swap) w)
  unfolding confirm_found swap_canceled swap_expired
  found-Given swap w found = elim (Bool-cases (is_canceled swap.status)) [
    | inl gone ↦ rw gone (
        closed-IfConfirmed (Credits orm e w swap) SwapStatus.canceled _ _
          (close_swap-closed laws e w swap SwapStatus.canceled _) (λ h. ground (arith, h)))
    | inr active ↦ rw active (elim (Bool-cases (ltb swap.expires_at e.now)) [
      | inl late ↦ rw late (
          closed-IfConfirmed (Credits orm e w swap) SwapStatus.expired _ _
            (close_swap-closed laws e w swap SwapStatus.expired _) (λ h. ground (arith, h)))
      | inr in_time ↦ rw in_time (
          Given-Reads (Credited orm e w swap) _ _ w (Reads-lift _) λ source p.
            Given-Reads (Credited orm e w swap) _ _ w (Reads-lift _) λ incoming q.
              incoming-Given swap source w (lifted _ w source p) found incoming
                (lifted _ w incoming q))
    ])
  ]

  -- If conifrmTonTransfer returns confirmed for a stored swap, over a database that obeys the
  -- laws, a jetton transfer was found that came in at the swap's source wallet and one that
  -- left the jetton wallet that its sender has of the minter whose administrator is stored, and
  -- the amount that came in is the one that counts: the swap as it was ordered if the two
  -- amounts are equal, and otherwise the swap with its amounts recalculated for an amount
  -- within the token's bounds. The stored swap is confirmed once and has the outgoing
  -- transaction and that amount, and the wallet is free and has the amount added to its
  -- balance.
  pub confirm_ton_transfer-Credits :
      (d : ConfirmTransfer) (w : World Db) (swap : Swap) (r : SwapResult)
      → orm.find_swap w.db d.swap_id ≡ some swap
      → (confirm_ton_transfer orm e d w).0 ≡ ok r
      → r.status ≡ SwapStatus.confirmed
      → Credits orm e w swap (confirm_ton_transfer orm e d w).1
  unfolding confirm_ton_transfer Repository.find_by_id
  confirm_ton_transfer-Credits d w swap r found returned confirmed =
      Given-ok (Credited orm e w swap) (confirm_ton_transfer orm e d w) r
        (Given-Reads (Credited orm e w swap) _ _ w (Reads-gets _) λ o p.
          subst (λ o. Given (Credited orm e w swap) (confirm_found orm e o w))
            (sym found ∙ gotten _ w o p)
            (found-Given swap w
              (ap (orm.find_swap w.db) (laws.find_swap_id w.db d.swap_id swap found) ∙ found)))
        returned confirmed
