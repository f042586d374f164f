-- ===== src/Swaps/EthDestination/Paying.antt =====
-- What a payout in Ethereum sends and stores: src/swaps/processors/eth-destination-swaps.processor.ts.
use Prim.Native.String.{◌++◌}
use eth_ton_swap.Common.{
  Option, none, arith, ℕ, ◌∷◌, String, true, false, some, ok, ok_inj, pure, ◌>>=◌, ◌>>◌, ◌≡◌, refl,
  ap, sym, ◌∙◌, subst, ltb, Bool-cases, inl, inr, strip_hex_prefix,
}
use eth_ton_swap.Common.Errors.{get_status_code}
use eth_ton_swap.Common.Fallible.{bind_ok}
use eth_ton_swap.Common.Number.{parse_nullable}
use eth_ton_swap.Entities.{Wallet, SwapStatus, Swap, extended_expires_at}
use eth_ton_swap.Database.{Orm, OrmLaws}
use eth_ton_swap.World.{World, Request, SwapResult, erc20_transfer, send}
use eth_ton_swap.Env.{Env}
use eth_ton_swap.Ethereum
use eth_ton_swap.Ethereum.{TokenContract}
use eth_ton_swap.Swaps.Repository
use eth_ton_swap.Swaps.Helper.{swap_expired}
use eth_ton_swap.Swaps.Helper.Release.{IsClosed, close_swap-Given, updated_swap}
use eth_ton_swap.Swaps.EthDestination.{
  secret_key_of, pay_out, complete_payout, transfer_found, transfer_eth_tokens,
}
use eth_ton_swap.Swaps.Crediting.{lifted, gotten}
use eth_ton_swap.Swaps.Pipeline.Caching.{Kept, get_gas_price-Kept}
use eth_ton_swap.Swaps.Pipeline.Reading.{
  Given, Given-ok, Given-Reads, Given-bind, Reads-lift, Reads-gets,
}

module _ {Num Slice : Type 0} (e : Env Num Slice) where
  -- a contract is that of the token, with the signer of the key
  made_contract :
      (address secret_key : String) (contract : TokenContract)
      → Ethereum.create_token_contract e address secret_key ≡ ok contract
      → (key : String) × (e.decrypt_text secret_key ≡ ok key)
        × (e.eth.create_wallet ("0x" ++ key) ≡ ok contract.signer)
        × (contract.address ≡ "0x" ++ address)
  made_contract address secret_key contract h =
      let (key, opened, made) = bind_ok (e.decrypt_text secret_key) _ contract h in
      let (signer, signs, built) = bind_ok (e.eth.create_wallet ("0x" ++ key)) _ contract made in
      (
        key,
        opened,
        signs ∙ ap (λ (c : TokenContract). ok c.signer) (ok_inj built),
        sym (ap (λ (c : TokenContract). c.address) (ok_inj built)),
      )

  payer_of :
      (o : Option Wallet) (secret_key : String)
      → secret_key_of o ≡ ok secret_key
      → (wallet : Wallet) × (o ≡ some wallet) × (wallet.secret_key ≡ secret_key)
  payer_of none secret_key h = ground (arith, h)
  payer_of (some wallet) secret_key h = (wallet, refl, ok_inj h)

  -- The request, signed with the key of the swap's payout wallet, pays the swap's amount, in units
  -- of its token, to its receiver.
  pub record IsPayment (swap : Swap) (request : Request) : Type 0 where
    pub wallet : Wallet
    pub payer : swap.destination_wallet ≡ some wallet
    pub key : String
    pub opened : e.decrypt_text wallet.secret_key ≡ ok key
    pub signer : String
    pub signs : e.eth.create_wallet ("0x" ++ key) ≡ ok signer
    pub units : String
    pub gas_price : String
    pub amount :
        e.eth.parse_units
          (e.big.to_text (parse_nullable e.big swap.destination_amount))
          swap.destination_token.decimals
        ≡ ok units
    pub called :
        request
        ≡ erc20_transfer
            ("0x" ++ swap.destination_token.address)
            signer
            ("0x" ++ swap.destination_address)
            units
            gas_price
            100000

module _ {Db Num Slice : Type 0} (e : Env Num Slice) where
  -- One request more was sent, which the network answered with that transaction.
  pub record Paid (swap : Swap) (w : World Db) (transaction_id : String) (v : World Db)
      : Type 0 where
    pub db : v.db ≡ w.db
    pub request : Request
    pub payment : IsPayment e swap request
    pub sent : v.requests ≡ request ∷ w.requests
    pub hash : String
    pub answered : e.eth.transfer request ≡ ok hash
    pub named : transaction_id ≡ strip_hex_prefix hash

module _ {Db Num Slice : Type 0} (orm : Orm Db) (e : Env Num Slice) where
  -- The outcomes for a stored swap: too late, it expires and nothing is sent; in time, one payment
  -- is sent, five confirmations of it are awaited, and the swap is completed by it.
  pub data Pays (swap : Swap) (w : World Db) : SwapResult → World Db → Type 0 where
    late :
        {r : SwapResult} {v : World Db}
        → ltb (extended_expires_at swap) e.now ≡ true
        → r.status ≡ SwapStatus.expired
        → v.requests ≡ w.requests
        → IsClosed orm v swap SwapStatus.expired
        → Pays swap w r v
    paid :
        {r : SwapResult} {u v : World Db} (transaction_id : String) (stored : Swap)
        → ltb (extended_expires_at swap) e.now ≡ false
        → Paid e swap w transaction_id u
        → v.requests ≡ u.requests
        → e.eth.wait_for_transaction ("0x" ++ transaction_id) 5 ≡ ok tt
        → r.status ≡ SwapStatus.completed
        → orm.find_swap v.db swap.id ≡ some stored
        → (stored.status ≡ SwapStatus.completed)
          × (stored.destination_transaction_id ≡ some transaction_id)
        → Pays swap w r v

  sent-Paid :
      (swap : Swap) (w v : World Db) (request : Request) (hash : String)
      → Kept w v
      → IsPayment e swap request
      → e.eth.transfer request ≡ ok hash
      → Given (Paid e swap w) ((send request >> pure (strip_hex_prefix hash)) v)
  unfolding ◌>>=◌
  sent-Paid swap w v request hash k payment answered = record {
    db = k.db;
    request = request;
    payment = payment;
    sent = ap (λ rs. request ∷ rs) k.requests;
    hash = hash;
    answered = answered;
    named = refl;
  }

  pay_out-Paid : (swap : Swap) (w : World Db) → Given (Paid e swap w) (pay_out orm e swap w)
  unfolding pay_out Ethereum.transfer_tokens
  pay_out-Paid swap w =
      Given-bind (λ _ v. Kept w v) _ _ _ w (get_gas_price-Kept e w)
        λ price v k. Given-Reads _ _ _ v (Reads-lift _) λ secret given.
          Given-Reads _ _ _ v (Reads-lift _) λ contract made.
            Given-Reads _ _ _ v (Reads-lift _) λ units amount.
              Given-Reads _ _ _ v (Reads-lift _) λ price_hex _.
                Given-Reads _ _ _ v (Reads-lift _) λ hash answered.
                  let (wallet, payer, owned) =
                    payer_of e swap.destination_wallet secret (lifted _ v secret given) in
                  let (key, opened, signs, own) =
                    made_contract e _ secret contract (lifted _ v contract made) in
                  sent-Paid swap w v _ hash k
                    (record {
                      wallet = wallet;
                      payer = payer;
                      key = key;
                      opened = ap e.decrypt_text owned ∙ opened;
                      signer = contract.signer;
                      signs = signs;
                      units = units;
                      gas_price = price_hex;
                      amount = lifted _ v units amount;
                      called =
                          ap
                            (λ a.
                              erc20_transfer a contract.signer ("0x" ++ swap.destination_address)
                                units price_hex 100000)
                            own;
                    })
                    (lifted _ v hash answered)

module _ {Db Num Slice : Type 0} {orm : Orm Db} (laws : OrmLaws orm) (e : Env Num Slice) where
  complete-Pays :
      (swap : Swap) (w u : World Db) (transaction_id : String)
      → orm.find_swap w.db swap.id ≡ some swap
      → ltb (extended_expires_at swap) e.now ≡ false
      → Paid e swap w transaction_id u
      → Given (Pays orm e swap w) (complete_payout orm e swap transaction_id u)
  unfolding complete_payout Repository.update ◌>>=◌ get_status_code
  complete-Pays swap w u transaction_id found in_time p =
      Given-Reads (Pays orm e swap w) _ _ u (Reads-lift _) λ waited answered.
        paid transaction_id _ in_time p refl (lifted _ u waited answered) refl
          (updated_swap laws e u.db swap _ (ap (λ d. orm.find_swap d swap.id) p.db ∙ found))
          (refl, refl)

  found-Pays :
      (swap : Swap) (w : World Db)
      → orm.find_swap w.db swap.id ≡ some swap
      → Given (Pays orm e swap w) (transfer_found orm e (some swap) w)
  unfolding transfer_found swap_expired
  found-Pays swap w found = elim (Bool-cases (ltb (extended_expires_at swap) e.now)) [
    | inl gone ↦ rw gone (
        close_swap-Given laws e (Pays orm e swap w) w swap SwapStatus.expired _ found
          (λ v c q. late gone refl q c))
    | inr in_time ↦ rw in_time (
        Given-bind (Paid e swap w) (Pays orm e swap w) _ _ w (pay_out-Paid orm e swap w)
          (λ transaction_id u p. complete-Pays swap w u transaction_id found in_time p))
  ]

  -- If transferEthTokens returns for a stored swap, over a database that obeys the laws, then
  -- either the swap's extended time is over, nothing is sent, and the swap is expired and its
  -- source wallet free; or it is not over, one request more was sent, which pays the swap's
  -- destination amount from its payout wallet to its receiver, five confirmations of its
  -- transaction were answered, and the swap is completed by that transaction.
  pub transfer_eth_tokens-Pays :
      (id : ℕ) (w : World Db) (swap : Swap) (r : SwapResult)
      → orm.find_swap w.db id ≡ some swap
      → (transfer_eth_tokens orm e id w).0 ≡ ok r
      → Pays orm e swap w r (transfer_eth_tokens orm e id w).1
  unfolding transfer_eth_tokens Repository.find_by_id
  transfer_eth_tokens-Pays id w swap r found returned =
      Given-ok (Pays orm e swap w) (transfer_eth_tokens orm e id w) r
        (Given-Reads (Pays orm e swap w) _ _ w (Reads-gets _) λ o p.
          subst (λ o. Given (Pays orm e swap w) (transfer_found orm e o w))
            (sym found ∙ gotten _ w o p)
            (found-Pays swap w
              (ap (orm.find_swap w.db) (laws.find_swap_id w.db id swap found) ∙ found)))
        returned
