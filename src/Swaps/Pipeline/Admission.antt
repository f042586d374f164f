-- ===== src/Swaps/Pipeline/Admission.antt =====
-- Which orders `createSwap` admits.
use eth_ton_swap.Common.{
  or_throw, throw_if, ℕ, ◌≤◌, ltb, String, Bool, true, false, Option, none, some, Result, ok, err,
  pure, throw, gets, ◌≡◌, refl, ◌∙◌, ok_inj, arith,
}
use eth_ton_swap.Entities.{SwapStatus, Token, Swap, max_pending_swap_count_by_ip}
use eth_ton_swap.Database.{Orm}
use eth_ton_swap.World.{World}
use eth_ton_swap.Env.{Env}
use eth_ton_swap.Swaps.Repository
use eth_ton_swap.Swaps.Controller.{CreateSwapRequest, check_request, create_swap}
use eth_ton_swap.Swaps.Pipeline.Reading.{
  Reads, read_rules, Given, Given-ok, Given-Reads, Reads-gets, Reads-or_throw, Reads-throw,
  Reads-if, Reads-pure,
}
use eth_ton_swap.Swaps.Pipeline.Holding.{check_request-Reads}

module _ {W A : Type 0} where
  gets-ok : (f : W → A) (w : W) (a : A) → (gets f w).0 ≡ ok a → f w ≡ a
  unfolding gets
  gets-ok f w a h = ok_inj h

  or_throw-ok :
      (o : Option A) (message : String) (w : W) (a : A)
      → (or_throw o message w).0 ≡ ok a
      → o ≡ some a
  unfolding throw pure
  or_throw-ok none message w a h = ground arith
  or_throw-ok (some b) message w a h = ground (arith, h)

  Given-const : {P : Type 0} (x : Result A × W) → P → Given (λ _ _. P) x
  Given-const (ok a, w) p = p
  Given-const (err m, w) p = tt

throw_if-ok :
    {W : Type 0} (b : Bool) (message : String) (w : W)
    → (throw_if b message w).0 ≡ ok tt
    → b ≡ false
unfolding throw pure
throw_if-ok true message w h = ground arith
throw_if-ok false message w h = refl

module _ {Db Num Slice : Type 0} (orm : Orm Db) (e : Env Num Slice) where
  -- Both tokens are stored, the amount is within the source token's bounds, and at most five swaps
  -- of the address were pending.
  pub record Admits (w : World Db) (r : CreateSwapRequest) (ip_address : String) : Type 0 where
    pub source_token : Token
    pub destination_token : Token
    pub source : orm.find_token w.db r.source_token_id ≡ some source_token
    pub destination : orm.find_token w.db r.destination_token_id ≡ some destination_token
    pub from_min :
        e.big.lt (e.big.parse r.source_amount) (e.big.parse source_token.min_swap_amount) ≡ false
    pub to_max :
        e.big.gt (e.big.parse r.source_amount) (e.big.parse source_token.max_swap_amount) ≡ false
    pub pending_count :
        orm.count_swaps w.db ip_address SwapStatus.pending ≤ max_pending_swap_count_by_ip

  at_most : (a b : ℕ) → ltb a b ≡ false → b ≤ a
  at_most a b h = ground arith

  Reads-throw_if : (b : Bool) (message : String) → Reads {W = World Db} (throw_if b message)
  Reads-throw_if b message = Reads-if b _ _ (Reads-throw message) (Reads-pure tt)

  pub check_request-Given :
      (r : CreateSwapRequest) (ip_address : String) (w : World Db)
      → Given
          (λ checked v. (a : Admits w r ip_address) × (checked.0 ≡ a.source_token))
          (check_request orm e r ip_address w)
  unfolding check_request Repository.count pure
  check_request-Given r ip_address w = Given-Reads _ _ _ w (Reads-gets _) λ found₁ p₁.
      Given-Reads _ _ _ w (Reads-or_throw _ _) λ destination q₁.
        Given-Reads _ _ _ w (search read_rules) λ receiver _.
          Given-Reads _ _ _ w (Reads-gets _) λ found₂ p₂.
            Given-Reads _ _ _ w (Reads-or_throw _ _) λ source q₂.
              Given-Reads _ _ _ w (Reads-throw_if _ _) λ _ low.
                Given-Reads _ _ _ w (Reads-throw_if _ _) λ _ high.
                  Given-Reads _ _ _ w (Reads-gets _) λ count counted.
                    Given-Reads _ _ _ w (Reads-throw_if _ _) λ _ many. (
                      record {
                        source_token = source;
                        destination_token = destination;
                        source = gets-ok _ w found₂ p₂ ∙ or_throw-ok found₂ _ w source q₂;
                        destination = gets-ok _ w found₁ p₁ ∙ or_throw-ok found₁ _ w destination q₁;
                        from_min = throw_if-ok _ _ w low;
                        to_max = throw_if-ok _ _ w high;
                        pending_count =
                            rw (gets-ok _ w count counted) (at_most _ _ (throw_if-ok _ _ w many));
                      },
                      refl,
                    )

  -- If an order succeeds, both its tokens are stored, its amount is neither below the least nor
  -- above the greatest amount of the source token, and at most five swaps of its address were
  -- pending.
  pub create_swap-Admits :
      (r : CreateSwapRequest) (ip_address : String) (w : World Db) (swap : Swap)
      → (create_swap orm e r ip_address w).0 ≡ ok swap
      → Admits w r ip_address
  unfolding create_swap
  create_swap-Admits r ip_address w swap h =
      Given-ok (λ _ _. Admits w r ip_address) (create_swap orm e r ip_address w) swap
        (Given-Reads _ _ _ w (check_request-Reads orm e r ip_address) λ checked p. Given-const _ (
          (Given-ok (λ checked v. (a : Admits w r ip_address) × (checked.0 ≡ a.source_token))
            (check_request orm e r ip_address w) checked (check_request-Given r ip_address w) p).0))
        h
