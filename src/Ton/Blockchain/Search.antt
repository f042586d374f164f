-- ===== src/Ton/Blockchain/Search.antt =====
-- What the search for a transaction finds: src/ton/providers/ton-blockchain.service.ts.
use mathlib.Core.Option.{some_inj}
use eth_ton_swap.Common.{
  ℕ, String, Bool, true, false, subst, Option, none, some, List, [], ◌∷◌, Result, ok, err, ◌≡◌,
  refl, ltb, Result-cases, inl, inr, arith, if◌then◌else◌,
}
use eth_ton_swap.Env.{Env, TonTransaction}
use eth_ton_swap.Ton.Blockchain.{
  JettonOperation, TransactionData, parse_transaction, first_recent, find_transaction,
  normalize_address,
}

module _ {Num Slice : Type 0} (e : Env Num Slice) (created_at : ℕ)
    (operation : Option JettonOperation) where
  -- a transaction that was read, and is not of that operation or is older
  abbrev pub Passed : TonTransaction → Type 0
  Passed t =
      (parsed : Option (TransactionData Num)) × (parse_transaction e operation t ≡ ok parsed)
      × ((x : TransactionData Num) → parsed ≡ some x → ltb x.time created_at ≡ true)

  -- Each answer of the search: the first transaction that was not passed over is the one that is
  -- found, which is recent, or the one that cannot be read.
  pub data Searched : List TonTransaction → Result (Option (TransactionData Num)) → Type 0 where
    nowhere : Searched [] (ok none)
    further :
        {t : TonTransaction} {ts : List TonTransaction} {r : Result (Option (TransactionData Num))}
        → Passed t
        → Searched ts r
        → Searched (t ∷ ts) r
    here :
        {t : TonTransaction} {ts : List TonTransaction} (x : TransactionData Num)
        → parse_transaction e operation t ≡ ok (some x)
        → ltb x.time created_at ≡ false
        → Searched (t ∷ ts) (ok (some x))
    unreadable :
        {t : TonTransaction} {ts : List TonTransaction} (m : String)
        → parse_transaction e operation t ≡ err m
        → Searched (t ∷ ts) (err m)

  old-Searched :
      (t : TonTransaction) (ts : List TonTransaction) (x : TransactionData Num)
      → parse_transaction e operation t ≡ ok (some x)
      → Searched ts (first_recent e created_at operation ts)
      → (old : Bool) → ltb x.time created_at ≡ old
      → Searched (t ∷ ts) (elim (if old then none else some x) [
        | none ↦ first_recent e created_at operation ts
        | some found ↦ ok (some found)
      ])
  old-Searched t ts x p rest true h =
      further (some x, p, λ y q. subst (λ z. ltb z.time created_at ≡ true) (some_inj.0 q) h) rest
  old-Searched t ts x p rest false h = here x p h

  first_recent-Searched :
      (ts : List TonTransaction) → Searched ts (first_recent e created_at operation ts)
  unfolding first_recent
  first_recent-Searched [] = nowhere
  first_recent-Searched (t ∷ ts) = elim (Result-cases (parse_transaction e operation t)) [
    | inl (none, p) ↦ rw p (further (none, p, λ x h. ground (arith, h)) (first_recent-Searched ts))
    | inl (some x, p) ↦ rw p (old-Searched t ts x p (first_recent-Searched ts) _ refl)
    | inr (m, p) ↦ rw p (unreadable m p)
  ]

module _ {Num Slice : Type 0} (e : Env Num Slice) where
  -- If the address is valid and the client answers the transactions of the normalized address,
  -- the search passes over those that are not of the asked operation or are older than the
  -- given time: its answer is the first other one, an error if that one cannot be read, and
  -- none if there is no other.
  pub find_transaction-Searched :
      (any address : String) (created_at : ℕ) (operation : Option JettonOperation)
      (response : List TonTransaction)
      → normalize_address e any ≡ ok address
      → e.ton.get_transactions address 1 ≡ ok response
      → Searched e created_at operation response (find_transaction e any created_at operation)
  unfolding find_transaction
  find_transaction-Searched any address created_at operation response p q =
      rw p (rw q (first_recent-Searched e created_at operation response))
