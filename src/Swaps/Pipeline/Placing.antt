-- ===== src/Swaps/Pipeline/Placing.antt =====
-- `createSwap` orders one new swap, or changes no swap.
use eth_ton_swap.Common.{
  or_throw, ℕ, String, false, Option, none, some, Result, ok, err, Action, pure, throw, catching,
  handled, continue, ◌>>=◌, ◌>>◌, ◌≡◌, ◌⊎◌, inl, inr, refl, sym, subst, ◌∙◌, Result-cases, arith,
  ap,
}
use mathlib.Core.Option
use eth_ton_swap.Entities.{Blockchain, ethereum, ton, Swap}
use eth_ton_swap.Database.{Orm, OrmLaws}
use eth_ton_swap.World.{World}
use eth_ton_swap.Env.{Env}
use eth_ton_swap.Wallets.Repository as Wallets
use eth_ton_swap.Wallets.Repository.{set_in_use}
use eth_ton_swap.Swaps.Repository
use eth_ton_swap.Swaps.Repository.{CreateSwap, draft_of}
use eth_ton_swap.Swaps.Stage.{
  stage, stage_of, Same, Same-trans, Quiet, Quiet-pure, Quiet-throw, quiet_rules,
}
use eth_ton_swap.Swaps.Stage.Writes.{wallets_update-Quiet, Settles-wallet}
use eth_ton_swap.Swaps.Controller.{
  CreateSwapRequest, choose_destination_wallet, choose_collector_wallet, choose_source_wallet,
  store_swap, start_swap, check_request, place_swap, create_swap,
}
use eth_ton_swap.Swaps.Pipeline.Advance.{Advances}
use eth_ton_swap.Swaps.Pipeline.Orders.{Fresh, let_go-Quiet, start_swap-Advances}

module _ {Db : Type 0} (orm : Orm Db) where
  -- A swap is ordered, or nothing is.
  abbrev pub Placed : World Db → World Db → Type 0
  Placed w w' = Same orm w w' ⊎ ((id : ℕ) × (stage orm w id ≡ none) × Advances orm w id w')

  pub record Places {A : Type 0} (w : World Db) (m : Action (World Db) A) : Type 0 where
    pub at : (v : World Db) → Same orm w v → Placed w (m v).1

module _ {Db : Type 0} {orm : Orm Db} where
  handled-Same :
      {A : Type 0} (handle : String → Action (World Db) A) (w : World Db) (x : Result A × World Db)
      → Same orm w x.1
      → ((message : String) → Quiet orm (handle message))
      → Same orm w (handled handle x).1
  handled-Same handle w (ok a, v) s q = s
  handled-Same handle w (err message, v) s q = Same-trans orm s ((q message).at v)

  Quiet-catching :
      {A : Type 0} (m : Action (World Db) A) (handle : String → Action (World Db) A)
      → Quiet orm m
      → ((message : String) → Quiet orm (handle message))
      → Quiet orm (catching m handle)
  unfolding catching
  Quiet-catching m handle qm qh = record { at = λ w. handled-Same handle w (m w) (qm.at w) qh }

  Quiet-or_throw : {A : Type 0} (o : Option A) (message : String) → Quiet orm (or_throw o message)
  Quiet-or_throw none message = Quiet-throw orm message
  Quiet-or_throw (some a) message = Quiet-pure orm a

  continue-Placed :
      {A B : Type 0} (w : World Db) (f : A → Action (World Db) B) (x : Result A × World Db)
      → Same orm w x.1
      → ((a : A) → Places orm w (f a))
      → Placed orm w (continue f x).1
  continue-Placed w f (ok a, v) s k = (k a).at v s
  continue-Placed w f (err m, v) s k = inl s

  Places-bind :
      {A B : Type 0} {w : World Db} (m : Action (World Db) A) (f : A → Action (World Db) B)
      → Quiet orm m
      → ((a : A) → Places orm w (f a))
      → Places orm w (m >>= f)
  unfolding ◌>>=◌
  Places-bind {w = w} m f q k = record {
    at = λ v s. continue-Placed w f (m v) (Same-trans orm s (q.at v)) k;
  }

module _ {Db Num Slice : Type 0} (orm : Orm Db) (e : Env Num Slice) where
  check_request-Quiet :
      (r : CreateSwapRequest) (ip_address : String) → Quiet orm (check_request orm e r ip_address)
  unfolding check_request Repository.count
  check_request-Quiet r ip_address = search (quiet_rules, Quiet-catching, Quiet-or_throw) depth 40

  choose_destination-Quiet :
      (b : Blockchain) (n : Num) → Quiet orm (choose_destination_wallet orm e b n)
  unfolding choose_destination_wallet Wallets.find_best_matched_one
  choose_destination-Quiet ethereum n = search (quiet_rules, Quiet-or_throw)
  choose_destination-Quiet ton n = Quiet-pure orm none

  choose_collector-Quiet : (b : Blockchain) → Quiet orm (choose_collector_wallet orm e b)
  unfolding choose_collector_wallet Wallets.find_best_matched_one
  choose_collector-Quiet b = search (quiet_rules, Quiet-or_throw)

  choose_source-Quiet : (b : Blockchain) → Quiet orm (choose_source_wallet orm e b)
  unfolding choose_source_wallet Wallets.find_best_matched_one
  choose_source-Quiet b = search (quiet_rules, Quiet-or_throw)

module _ {W A B : Type 0} where
  thrown_after :
      (message : String) (x : Result B × W)
      → (b : B) → x.0 ≡ ok b
      → (continue (λ _. throw {A = A} message) x).0 ≡ err message
  unfolding throw
  thrown_after message (r, v) b p = rw p refl

  continue_thrown :
      (f : A → Action W B) (message : String) (x : Result A × W)
      → x.0 ≡ err message
      → (continue f x).1 ≡ x.1
  continue_thrown f message (r, v) p = rw p refl

  continue-pure_state : (b : B) (x : Result A × W) → (continue (λ _. pure b) x).1 ≡ x.1
  unfolding pure
  continue-pure_state b (ok a, v) = refl
  continue-pure_state b (err m, v) = refl

module _ {Db Num Slice : Type 0} {orm : Orm Db} (laws : OrmLaws orm) (e : Env Num Slice) where
  saved-Fresh :
      (w v : World Db) (d : CreateSwap Num) (swap : Swap) (db' : Db)
      → Same orm w v
      → orm.save_swap v.db (draft_of orm e d) ≡ ok (swap, db')
      → Fresh orm w swap.id (record v { db = db' })
  saved-Fresh w v d swap db' s p =
      let (row, found, new) = laws.save_swap_stored v.db db' (draft_of orm e d) swap p in
      record {
        absent =
            sym (s.stages swap.id)
            ∙ ap (Option.map stage_of) (laws.save_swap_fresh v.db db' (draft_of orm e d) swap p);
        row = rw found (ground (arith, new.status, new.confirmations));
        others = λ j h.
            ap (Option.map stage_of)
              (laws.find_swap-save_swap v.db db' (draft_of orm e d) swap j p h)
            ∙ s.stages j;
        jobs = s.jobs;
      }

  pub let_go_throws :
      {A : Type 0} (message : String) (wallet_id : ℕ) (v : World Db)
      → ((Wallets.update orm e wallet_id (set_in_use false) >> throw {A = A} message) v).0
        ≡ err message
  unfolding ◌>>=◌
  let_go_throws message wallet_id v =
      thrown_after message (Wallets.update orm e wallet_id (set_in_use false) v) tt
        ((Settles-wallet laws e wallet_id (set_in_use false) refl refl).returns v)

  stored :
      (w : World Db) (b : Blockchain) (wallet_id : ℕ) (swap : Swap) (v : World Db)
      → Fresh orm w swap.id v
      → Placed orm w ((start_swap orm e b wallet_id swap >> pure swap) v).1
  unfolding ◌>>=◌
  stored w b wallet_id swap v fresh = inr (
    swap.id,
    fresh.absent,
    subst (Advances orm w swap.id)
        (sym (continue-pure_state swap (start_swap orm e b wallet_id swap v)))
        (start_swap-Advances laws e b wallet_id swap w v fresh),
  )

  store-Places :
      (w : World Db) (b : Blockchain) (wallet_id : ℕ) (d : CreateSwap Num)
      → Places orm w
          (store_swap orm e wallet_id d >>= λ swap. start_swap orm e b wallet_id swap >> pure swap)
  unfolding store_swap catching Repository.create ◌>>=◌
  store-Places w b wallet_id d = record {
    at = λ v s. elim (Result-cases (orm.save_swap v.db (draft_of orm e d))) [
      | inl ((swap, db'), p) ↦
          rw p (stored w b wallet_id swap (record v { db = db' }) (saved-Fresh w v d swap db' s p))
      | inr (message, p) ↦ rw p (
          inl (
            subst (Same orm w)
              (sym (
                continue_thrown (λ swap. start_swap orm e b wallet_id swap >> pure swap) message
                  ((Wallets.update orm e wallet_id (set_in_use false) >> throw message) v)
                  (let_go_throws message wallet_id v)))
              (Same-trans orm s ((let_go-Quiet laws e message wallet_id).at v))))
    ];
  }

  -- An order, whether it returns or throws, touches no stage and no job; or it touches the
  -- stage of one identifier alone, at which no swap was stored, and where at most a swap that
  -- is pending or failed, with no confirmation, is stored now, and it adds at most one job,
  -- which is that swap's and fits it. This holds if the database obeys the laws, also after
  -- other actions that touched no stage and no job.
  pub create_swap-Places :
      (r : CreateSwapRequest) (ip_address : String) (w : World Db)
      → Places orm w (create_swap orm e r ip_address)
  unfolding create_swap place_swap
  create_swap-Places r ip_address w =
      Places-bind _ _ (check_request-Quiet orm e r ip_address) λ checked.
        Places-bind _ _ (choose_destination-Quiet orm e _ _) λ destination.
          Places-bind _ _ (choose_collector-Quiet orm e _) λ collector.
            Places-bind _ _ (choose_source-Quiet orm e _) λ source.
              Places-bind _ _ (wallets_update-Quiet laws e source.id _)
                λ held. store-Places w _ source.id _
