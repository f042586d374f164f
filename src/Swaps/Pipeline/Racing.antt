-- ===== src/Swaps/Pipeline/Racing.antt =====
-- Two orders of src/swaps/controllers/swaps.controller.ts that interleave: createSwap awaits the
-- database between the choice of a free wallet and the update that puts it in use.
use eth_ton_swap.Common.{
  ℕ, String, true, Bool-cases, ◌==◌, Option, some, Result, ok, err, Action, pure, continue, ◌>>=◌,
  ◌≡◌, ◌≢◌, refl, sym, ap, ◌∙◌, inl, inr, ok_inj,
}
use mathlib.Core.Option
use mathlib.Core.Option.{some_inj}
use eth_ton_swap.Entities.{Blockchain, SwapStatus, Swap, Token, Wallet}
use eth_ton_swap.Database.{Orm, OrmLaws, PartialWallet, assign_joined, assign_swap_wallets}
use eth_ton_swap.World.{World}
use eth_ton_swap.Env.{Env}
use eth_ton_swap.Swaps.Repository
use eth_ton_swap.Swaps.Crediting.{gotten}
use eth_ton_swap.Swaps.Helper.{calculate_destination_amount_and_fee}
use eth_ton_swap.Swaps.Helper.Release.{partial_in_use}
use eth_ton_swap.Swaps.Controller.{
  CreateSwapRequest, choose_destination_wallet, choose_collector_wallet, choose_source_wallet,
  check_request, settle_swap, place_swap, create_swap,
}
use eth_ton_swap.Swaps.Pipeline.Reading.{
  Reads, Reads-bind, Reads-pure, Reads-gets, Reads-or_throw, Given, Given-ok, Given-Reads,
  Given-bind, got_or_thrown, read_rules,
}
use eth_ton_swap.Swaps.Pipeline.Holding.{
  Holds, held-Given, check_request-Reads, choose_destination-Reads, choose_collector-Reads,
  choose_source-Reads,
}

-- what an order has found before it writes
pub record Chosen : Type 0 where
  pub tokens : Token × Token × String
  pub destination_wallet : Option Wallet
  pub collector_wallet : Wallet
  pub source_wallet : Wallet

module _ {W A B C : Type 0} where
  continue_regroup :
      (f : A → Action W B) (h : A → Action W C) (g : B → Action W C) (x : Result A × W)
      → ((a : A) (v : W) → h a v ≡ (f a >>= g) v)
      → continue h x ≡ continue g (continue f x)
  unfolding ◌>>=◌
  continue_regroup f h g (ok a, v) k = k a v
  continue_regroup f h g (err m, v) k = refl

  -- what follows in parts follows as one
  regroup :
      (m : Action W A) (f : A → Action W B) (h : A → Action W C) (g : B → Action W C) (w : W)
      → ((a : A) (v : W) → h a v ≡ (f a >>= g) v)
      → (m >>= h) w ≡ ((m >>= f) >>= g) w
  unfolding ◌>>=◌
  regroup m f h g w k = continue_regroup f h g (m w) k

module _ {Db Num Slice : Type 0} (orm : Orm Db) (e : Env Num Slice) where
  -- the first half of `createSwap`, which only reads
  unfoldable pub choose : CreateSwapRequest → String → Action (World Db) Chosen
  choose r ip_address = do
    tokens ← check_request orm e r ip_address
    destination_wallet ←
        choose_destination_wallet orm e tokens.1.blockchain
          (calculate_destination_amount_and_fee e (e.big.parse r.source_amount)).0
    collector_wallet ← choose_collector_wallet orm e tokens.0.blockchain
    source_wallet ← choose_source_wallet orm e tokens.0.blockchain
    pure (record {
      tokens = tokens;
      destination_wallet = destination_wallet;
      collector_wallet = collector_wallet;
      source_wallet = source_wallet;
    })

  -- the second half; `choose-settle` says that the two are `createSwap`
  abbrev pub settle : CreateSwapRequest → String → Chosen → Action (World Db) Swap
  settle r ip_address c =
      settle_swap orm e r ip_address c.tokens c.destination_wallet c.collector_wallet
        c.source_wallet

  choose-settle :
      (r : CreateSwapRequest) (ip_address : String) (w : World Db)
      → create_swap orm e r ip_address w ≡ (choose r ip_address >>= settle r ip_address) w
  unfolding create_swap place_swap choose ◌>>=◌
  choose-settle r ip_address w = regroup (check_request orm e r ip_address) _ _ _ w λ tokens v.
      regroup
        (choose_destination_wallet orm e tokens.1.blockchain
          (calculate_destination_amount_and_fee e (e.big.parse r.source_amount)).0)
        _ _ _ v
        λ destination u.
          regroup (choose_collector_wallet orm e tokens.0.blockchain) _ _ _ u λ collector t.
            regroup (choose_source_wallet orm e tokens.0.blockchain) _ _ _ t λ source s. refl

  -- Both orders choose before either of them writes.
  unfoldable pub race :
      CreateSwapRequest → String → CreateSwapRequest → String → Action (World Db) (Swap × Swap)
  race r ip_address r' ip_address' = do
    one ← choose r ip_address
    two ← choose r' ip_address'
    swap ← settle r ip_address one
    other ← settle r' ip_address' two
    pure (swap, other)

  -- the source token and the source wallet of a choice
  record Takes (r : CreateSwapRequest) (w : World Db) (c : Chosen) : Type 0 where
    pub token : orm.find_token w.db r.source_token_id ≡ some c.tokens.0
    pub wallet : (choose_source_wallet orm e c.tokens.0.blockchain w).0 ≡ ok c.source_wallet

  source_found :
      (r : CreateSwapRequest) (ip_address : String) (w : World Db)
      → Given
          (λ tokens v. orm.find_token w.db r.source_token_id ≡ some tokens.0)
          (check_request orm e r ip_address w)
  unfolding check_request Repository.count pure
  source_found r ip_address w = Given-Reads _ _ _ w (Reads-gets _) λ _ _.
      Given-Reads _ _ _ w (Reads-or_throw _ _) λ _ _. Given-Reads _ _ _ w (search read_rules) λ _ _.
        Given-Reads _ _ _ w (Reads-gets _) λ found p.
          Given-Reads _ _ _ w (Reads-or_throw _ _) λ source q.
            Given-Reads _ _ _ w (search read_rules) λ _ _.
              Given-Reads _ _ _ w (search read_rules) λ _ _.
                Given-Reads _ _ _ w (Reads-gets _) λ _ _.
                  Given-Reads _ _ _ w (search read_rules)
                    λ _ _. gotten _ w found p ∙ got_or_thrown found _ w source q

  choose-Reads : (r : CreateSwapRequest) (ip_address : String) → Reads (choose r ip_address)
  unfolding choose
  choose-Reads r ip_address = Reads-bind _ _ (check_request-Reads orm e r ip_address) λ tokens.
      Reads-bind _ _ (choose_destination-Reads orm e _ _) λ _.
        Reads-bind _ _ (choose_collector-Reads orm e _)
          λ _. Reads-bind _ _ (choose_source-Reads orm e _) λ _. Reads-pure _

  choose-Takes :
      (r : CreateSwapRequest) (ip_address : String) (w : World Db)
      → Given (λ c _. Takes r w c) (choose r ip_address w)
  unfolding choose pure
  choose-Takes r ip_address w =
      Given-Reads _ _ _ w (check_request-Reads orm e r ip_address) λ tokens p.
        Given-Reads _ _ _ w (choose_destination-Reads orm e _ _) λ _ _.
          Given-Reads _ _ _ w (choose_collector-Reads orm e _) λ _ _.
            Given-Reads _ _ _ w (choose_source-Reads orm e _) λ wallet h. record {
              token =
                  Given-ok (λ t _. orm.find_token w.db r.source_token_id ≡ some t.0) _ tokens
                    (source_found r ip_address w) p;
              wallet = h;
            }

  same_wallet :
      (r r' : CreateSwapRequest) (w : World Db) (one two : Chosen)
      → r.source_token_id ≡ r'.source_token_id
      → Takes r w one
      → Takes r' w two
      → one.source_wallet ≡ two.source_wallet
  same_wallet r r' w one two same p q =
      let tokens = some_inj.0 (sym p.token ∙ ap (orm.find_token w.db) same ∙ q.token) in
      ok_inj (
        sym p.wallet
        ∙ ap (λ (t : Token). (choose_source_wallet orm e t.blockchain w).0) tokens
        ∙ q.wallet)

module _ {Db : Type 0} (orm : Orm Db) where
  -- Two pending swaps that wait for a transfer to one wallet.
  pub record Shares (swap other : Swap) (w : World Db) : Type 0 where
    pub wallet : ℕ
    pub apart : swap.id ≢ other.id
    pub row :
        (stored : Swap) × (orm.find_swap w.db swap.id ≡ some stored)
        × (stored.status ≡ SwapStatus.pending)
        × (stored.source_wallet.id ≡ wallet)
    pub other_row :
        (stored : Swap) × (orm.find_swap w.db other.id ≡ some stored)
        × (stored.status ≡ SwapStatus.pending)
        × (stored.source_wallet.id ≡ wallet)

joined_id : (i : ℕ) (p : PartialWallet) (v : Wallet) → (assign_joined i p v).id ≡ v.id
joined_id i p v = elim (Bool-cases (v.id == i)) [ inl h ↦ rw h refl | inr h ↦ rw h refl ]

module _ {Db Num Slice : Type 0} {orm : Orm Db} (laws : OrmLaws orm) (e : Env Num Slice) where
  held_twice :
      (a b : Blockchain) (w v u : World Db) (swap other : Swap) (wallet second : Wallet)
      → wallet ≡ second
      → Holds orm e a w swap wallet v
      → Holds orm e b v other second u
      → Shares orm swap other u
  held_twice a b w v u swap other wallet second same h k =
      let (stored, found, status, owner) = h.row in
      let apart : swap.id ≢ other.id =
        λ p. (let bad = sym found ∙ ap (orm.find_swap v.db) p ∙ k.new in cc) in
      record {
        wallet = wallet.id;
        apart = apart;
        row = (
          assign_swap_wallets second.id (partial_in_use true) stored,
          k.others swap.id apart
              ∙ ap (Option.map (assign_swap_wallets second.id (partial_in_use true))) found,
          status,
          joined_id second.id (partial_in_use true) stored.source_wallet ∙ owner,
        );
        other_row =
            let (row, at, pending, owned) = k.row in
            (row, at, pending, owned ∙ ap (λ (x : Wallet). x.id) (sym same));
      }

  settle-Holds :
      (r : CreateSwapRequest) (ip_address : String) (c : Chosen) (w : World Db)
      → Given
          (λ swap v. Holds orm e c.tokens.0.blockchain w swap c.source_wallet v)
          (settle orm e r ip_address c w)
  settle-Holds r ip_address c w = held-Given laws e w _ c.source_wallet _ refl

  -- When two orders of one source token both choose their wallets before either of them writes,
  -- and both return, over a database that obeys the laws, then two different pending swaps are
  -- stored that wait for a transfer to the same wallet.
  pub race-Shares :
      (r r' : CreateSwapRequest) (ip_address ip_address' : String) (w : World Db)
      (swap other : Swap)
      → r.source_token_id ≡ r'.source_token_id
      → (race orm e r ip_address r' ip_address' w).0 ≡ ok (swap, other)
      → Shares orm swap other (race orm e r ip_address r' ip_address' w).1
  unfolding race pure
  race-Shares r r' ip_address ip_address' w swap other same returned =
      Given-ok (λ (x : Swap × Swap) v. Shares orm x.0 x.1 v) _ (swap, other)
        (Given-Reads _ _ _ w (choose-Reads orm e r ip_address) λ one p.
          Given-Reads _ _ _ w (choose-Reads orm e r' ip_address') λ two q.
            Given-bind (λ a v. Holds orm e one.tokens.0.blockchain w a one.source_wallet v) _ _ _ w
              (settle-Holds r ip_address one w)
              λ a v h.
                Given-bind (λ b u. Holds orm e two.tokens.0.blockchain v b two.source_wallet u) _ _
                  _ v (settle-Holds r' ip_address' two v)
                  λ b u k.
                    held_twice _ _ w v u a b one.source_wallet two.source_wallet
                      (same_wallet orm e r r' w one two same
                        (Given-ok (λ c _. Takes orm e r w c) _ one
                          (choose-Takes orm e r ip_address w) p)
                        (Given-ok (λ c _. Takes orm e r' w c) _ two
                          (choose-Takes orm e r' ip_address' w) q))
                      h k)
        returned
