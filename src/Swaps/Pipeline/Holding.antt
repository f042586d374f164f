-- ===== src/Swaps/Pipeline/Holding.antt =====
-- What an order stores and queues once its wallets are chosen: the end of createSwap in
-- src/swaps/controllers/swaps.controller.ts.
use eth_ton_swap.Common.{
  ℕ, ◌∷◌, String, true, false, Option, none, some, Result, ok, err, pure, throw, lift, catching,
  continue, ◌>>=◌, ◌>>◌, ◌≡◌, ◌≢◌, refl, ap, sym, ◌∙◌, Result-cases, inl, inr, arith,
}
use mathlib.Core.Option
use eth_ton_swap.Entities.{Blockchain, ethereum, ton, SwapStatus, Swap, Wallet}
use eth_ton_swap.Database.{Orm, OrmLaws, assign_swap_wallets}
use eth_ton_swap.World.{World, Job, JobData, JobOptions, eth_source_swaps, ton_source_swaps}
use eth_ton_swap.Common.Errors.{error_blockchain_connection_lost}
use eth_ton_swap.Env.{Env}
use eth_ton_swap.Wallets.Repository as Wallets
use eth_ton_swap.Wallets.Repository.{set_in_use, best_matched_where, head?}
use eth_ton_swap.Swaps.Repository
use eth_ton_swap.Swaps.Repository.{UpdateSwap, CreateSwap, draft_of}
use eth_ton_swap.Swaps.Controller.{
  CreateSwapRequest, choose_destination_wallet, choose_collector_wallet, choose_source_wallet,
  store_swap, start_swap, run_confirm_swap_job, check_request,
}
use eth_ton_swap.Swaps.Helper.Release.{partial_in_use}
use eth_ton_swap.Swaps.Pipeline.Placing.{let_go_throws}
use eth_ton_swap.Swaps.Pipeline.Reading.{Reads, Reads-pure, read_rules, Given}

module _ {Db Num Slice : Type 0} (orm : Orm Db) (e : Env Num Slice) where
  pub check_request-Reads :
      (r : CreateSwapRequest) (ip_address : String) → Reads (check_request orm e r ip_address)
  unfolding check_request Repository.count
  check_request-Reads r ip_address = search read_rules depth 40

  pub choose_destination-Reads :
      (b : Blockchain) (n : Num) → Reads (choose_destination_wallet orm e b n)
  unfolding choose_destination_wallet Wallets.find_best_matched_one
  choose_destination-Reads ethereum n = search read_rules
  choose_destination-Reads ton n = Reads-pure none

  pub choose_collector-Reads : (b : Blockchain) → Reads (choose_collector_wallet orm e b)
  unfolding choose_collector_wallet Wallets.find_best_matched_one
  choose_collector-Reads b = search read_rules

  pub choose_source-Reads : (b : Blockchain) → Reads (choose_source_wallet orm e b)
  unfolding choose_source_wallet Wallets.find_best_matched_one
  choose_source-Reads b = search read_rules

module _ {Num Slice : Type 0} (e : Env Num Slice) where
  -- The job that looks for the transfer of a swap, in the queue of the source token's blockchain,
  -- from the block that is the latest there.
  pub data LooksIn (id : ℕ) : Blockchain → Job → Type 0 where
    in_ethereum :
        (block_number : ℕ) (options : JobOptions)
        → e.eth.get_latest_block ≡ ok block_number
        → LooksIn id ethereum (record {
          queue = eth_source_swaps;
          payload = JobData.confirm_eth_transfer id block_number;
          options = options;
        })
    in_ton :
        (block_number : ℕ) (options : JobOptions)
        → e.ton.get_masterchain_seqno ≡ ok block_number
        → LooksIn id ton (record {
          queue = ton_source_swaps;
          payload = JobData.confirm_ton_transfer id block_number;
          options = options;
        })

module _ {Db Num Slice : Type 0} (orm : Orm Db) (e : Env Num Slice) where
  -- A swap that is stored with a wallet put in use, free or not, and its job.
  pub record Holds (b : Blockchain) (w : World Db) (swap : Swap) (wallet : Wallet) (w' : World Db)
      : Type 0 where
    pub row :
        (stored : Swap) × (orm.find_swap w'.db swap.id ≡ some stored)
        × (stored.status ≡ SwapStatus.pending)
        × (stored.source_wallet.id ≡ wallet.id)
    pub new : orm.find_swap w.db swap.id ≡ none
    pub others :
        (j : ℕ)
        → j ≢ swap.id
        → orm.find_swap w'.db j
          ≡ Option.map (assign_swap_wallets wallet.id (partial_in_use true)) (orm.find_swap w.db j)
    pub wallets :
        (j : ℕ)
        → orm.find_wallet w'.db j
          ≡ orm.find_wallet (orm.update_wallet w.db wallet.id (partial_in_use true)) j
    pub queued : (job : Job) × (w'.jobs ≡ job ∷ w.jobs) × LooksIn e swap.id b job

module _ {Db Num Slice : Type 0} {orm : Orm Db} (laws : OrmLaws orm) (e : Env Num Slice) where
  thrown-Given :
      {W A : Type 0} (Q : A → W → Type 0) (message : String) (x : Result A × W)
      → x.0 ≡ err message
      → Given Q x
  thrown-Given Q message (r, v) p = rw p tt

  -- what a start that succeeds has done
  Started : Blockchain → World Db → ℕ → Unit {0} → World Db → Type 0
  Started b v id r v' =
      (v'.db ≡ v.db) × ((job : Job) × (v'.jobs ≡ job ∷ v.jobs) × LooksIn e id b job)

  gave_up :
      (b : Blockchain) (v : World Db) (id wallet_id : ℕ) (message : String) (u : UpdateSwap Num)
      → Given (Started b v id) (
          (Repository.update orm e id u
              >> (Wallets.update orm e wallet_id (set_in_use false) >> throw message))
            v)
  unfolding ◌>>=◌ Repository.update
  gave_up b v id wallet_id message u =
      thrown-Given (Started b v id) message _
        (let_go_throws laws e message wallet_id (Repository.update orm e id u v).1)

  start-Given :
      (b : Blockchain) (wallet_id : ℕ) (swap : Swap) (v : World Db)
      → Given (Started b v swap.id) (start_swap orm e b wallet_id swap v)
  unfolding start_swap catching run_confirm_swap_job throw lift ◌>>=◌ Started
  start-Given ethereum wallet_id swap v = elim (Result-cases e.eth.get_latest_block) [
    | inl (n, found) ↦ rw found (refl, (_, refl, in_ethereum n _ found))
    | inr (m, lost) ↦ rw lost (gave_up _ v swap.id wallet_id error_blockchain_connection_lost _)
  ]
  start-Given ton wallet_id swap v = elim (Result-cases e.ton.get_masterchain_seqno) [
    | inl (n, found) ↦ rw found (refl, (_, refl, in_ton n _ found))
    | inr (m, lost) ↦ rw lost (gave_up _ v swap.id wallet_id error_blockchain_connection_lost _)
  ]

  unmapped_none : {A : Type 0} (f : A → A) (o : Option A) → Option.map f o ≡ none → o ≡ none
  unmapped_none f none h = refl
  unmapped_none f (some a) h = ground arith

  stored_Holds :
      (b : Blockchain) (w v' : World Db) (wallet : Wallet) (d : CreateSwap Num) (swap : Swap)
      (db' : Db)
      → d.source_wallet ≡ wallet
      → orm.save_swap (orm.update_wallet w.db wallet.id (partial_in_use true)) (draft_of orm e d)
        ≡ ok (swap, db')
      → Started b (record w { db = db' }) swap.id tt v'
      → Holds orm e b w swap wallet v'
  unfolding Started
  stored_Holds b w v' wallet d swap db' owned saved (same, queued) =
      let d₁ = orm.update_wallet w.db wallet.id (partial_in_use true) in
      let (row, found, new) = laws.save_swap_stored d₁ db' (draft_of orm e d) swap saved in
      record {
        row = (
          row,
          ap (λ db. orm.find_swap db swap.id) same ∙ found,
          new.status,
          new.source_wallet ∙ ap (λ v. v.id) owned,
        );
        new =
            unmapped_none (assign_swap_wallets wallet.id (partial_in_use true))
              (orm.find_swap w.db swap.id)
              (sym (laws.find_swap-update_wallet w.db wallet.id swap.id (partial_in_use true))
                ∙ laws.save_swap_fresh d₁ db' (draft_of orm e d) swap saved);
        others = λ j apart.
            ap (λ db. orm.find_swap db j) same
            ∙ laws.find_swap-save_swap d₁ db' (draft_of orm e d) swap j saved apart
            ∙ laws.find_swap-update_wallet w.db wallet.id j (partial_in_use true);
        wallets = λ j.
            ap (λ db. orm.find_wallet db j) same
            ∙ laws.find_wallet-save_swap d₁ db' (draft_of orm e d) swap j saved;
        queued = queued;
      }

  finish-Given :
      (b : Blockchain) (Q : Swap → World Db → Type 0) (v : World Db) (swap : Swap)
      (x : Result (Unit {0}) × World Db)
      → Given (Started b v swap.id) x
      → ((v' : World Db) → Started b v swap.id tt v' → Q swap v')
      → Given Q (continue (λ _. pure swap) x)
  unfolding pure
  finish-Given b Q v swap (ok r, v') g k = k v' g
  finish-Given b Q v swap (err m, v') g k = tt

  pub held-Given :
      (w : World Db) (b : Blockchain) (wallet : Wallet) (d : CreateSwap Num)
      → d.source_wallet ≡ wallet
      → Given
          (λ swap w'. Holds orm e b w swap wallet w')
          ((Wallets.update orm e wallet.id (set_in_use true)
              >> (store_swap orm e wallet.id d >>= λ swap.
                  start_swap orm e b wallet.id swap >> pure swap))
            w)
  unfolding Wallets.update store_swap catching Repository.create ◌>>=◌
  held-Given w b wallet d owned =
      elim (Result-cases (
        orm.save_swap (orm.update_wallet w.db wallet.id (partial_in_use true))
          (draft_of orm e d))) [
            | inl ((swap, db'), p) ↦ rw p (
                finish-Given b (λ swap w'. Holds orm e b w swap wallet w') (record w { db = db' })
                  swap (start_swap orm e b wallet.id swap (record w { db = db' }))
                  (start-Given b wallet.id swap (record w { db = db' }))
                  (λ v' s. stored_Holds b w v' wallet d swap db' owned p s))
            | inr (m, p) ↦ rw p tt
          ]
