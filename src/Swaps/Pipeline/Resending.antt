-- ===== src/Swaps/Pipeline/Resending.antt =====
-- A payout in Ethereum whose confirmation is not seen: what the next run finds.
use eth_ton_swap.Common.{
  ℕ, ◌∷◌, ltb, String, false, some, Result, ok, err, pure, ◌>>=◌, ◌>>◌, ◌≡◌, refl, ap, ◌∙◌,
}
use eth_ton_swap.Entities.{Swap, extended_expires_at, eth_total_confirmations}
use eth_ton_swap.Database.{Orm}
use eth_ton_swap.World.{World, Job, JobData, Request, SwapResult, send}
use eth_ton_swap.Env.{Env}
use eth_ton_swap.Ethereum
use eth_ton_swap.Ethereum.{TokenContract}
use eth_ton_swap.Swaps.Repository
use eth_ton_swap.Swaps.EthDestination.{
  pay_out, complete_payout, transfer_eth_tokens, on_transfer_eth_tokens_completed,
}
use eth_ton_swap.Swaps.Pipeline.{run_job, report, logged}
use eth_ton_swap.Swaps.Pipeline.Caching.{Kept, get_gas_price-Kept}
use eth_ton_swap.Swaps.Pipeline.Reading.{
  Given, Given-Reads, Reads-lift, Given-bind, Given-weaken, Given-pair,
}

module _ {Db : Type 0} where
  -- One request was sent beside.
  pub record Sends (w v : World Db) : Type 0 where
    pub db : v.db ≡ w.db
    pub jobs : v.jobs ≡ w.jobs
    pub requests : (r : Request) × (v.requests ≡ r ∷ w.requests)

  Kept-Sends : (w v u : World Db) → Kept w v → Sends v u → Sends w u
  Kept-Sends w v u k s = record {
    db = s.db ∙ k.db;
    jobs = s.jobs ∙ k.jobs;
    requests = (s.requests.0, s.requests.1 ∙ ap (λ rs. s.requests.0 ∷ rs) k.requests);
  }

module _ {Db Num Slice : Type 0} (orm : Orm Db) (e : Env Num Slice) where
  sent-Sends :
      {A : Type 0} (request : Request) (a : A) (w : World Db)
      → Given (λ _ v. Sends w v) ((send request >> pure a) w)
  unfolding ◌>>=◌
  sent-Sends request a w = record { db = refl; jobs = refl; requests = (request, refl) }

  transfer-Sends :
      (c : TokenContract) (to : String) (n : Num) (d : ℕ) (price : Num) (w : World Db)
      → Given (λ _ v. Sends w v) (Ethereum.transfer_tokens e c to n d price w)
  unfolding Ethereum.transfer_tokens
  transfer-Sends c to n d price w = Given-Reads _ _ _ w (Reads-lift _) λ amount _.
      Given-Reads _ _ _ w (Reads-lift _)
        λ price _. Given-Reads _ _ _ w (Reads-lift _) λ hash _. sent-Sends _ _ w

  pay_out-Sends : (swap : Swap) (w : World Db) → Given (λ _ v. Sends w v) (pay_out orm e swap w)
  unfolding pay_out
  pay_out-Sends swap w =
      Given-bind (λ _ v. Kept w v) _ _ _ w (get_gas_price-Kept e w)
        λ price v k. Given-Reads _ _ _ v (Reads-lift _) λ secret _.
          Given-Reads _ _ _ v (Reads-lift _) λ contract _.
            Given-weaken (λ _ u. Sends v u) (λ _ u. Sends w u) _ (λ tx u s. Kept-Sends w v u k s)
              (transfer-Sends contract _ _ _ price v)

  -- the run of a job whose payout was sent, and whose confirmation threw
  thrown_report :
      (w : World Db) (job : Job) (id : ℕ) (message : String) (v : World Db)
      → Sends w v
      → (run : Result SwapResult × World Db) → run ≡ (err message, v)
      → let w' = report (some job) (on_transfer_eth_tokens_completed id) logged run in
        (w'.db ≡ w.db) × (w'.jobs ≡ job ∷ w.jobs) × ((r : Request) × (w'.requests ≡ r ∷ w.requests))
  unfolding pure
  thrown_report w job id message v s run p = rw p (s.db, ap (λ js. job ∷ js) s.jobs, s.requests)

  payout_throws :
      (id : ℕ) (w v : World Db) (swap : Swap) (transaction_id message : String)
      → orm.find_swap w.db id ≡ some swap
      → ltb (extended_expires_at swap) e.now ≡ false
      → pay_out orm e swap w ≡ (ok transaction_id, v)
      → Ethereum.wait_for_transaction e transaction_id eth_total_confirmations ≡ err message
      → transfer_eth_tokens orm e id w ≡ (err message, v)
  unfolding transfer_eth_tokens complete_payout Repository.find_by_id ◌>>=◌
  payout_throws id w v swap transaction_id message found in_time paid lost =
      rw found (rw in_time (rw paid (rw lost refl)))

  -- When a job pays out a stored swap in Ethereum in time, the transfer is sent, and waiting
  -- for its confirmations throws, then the run adds one request, leaves the database as it was,
  -- and the job, put back, is the one job more, so that it finds the swap as it found it
  -- before.
  pub payout_resent :
      (job : Job) (id : ℕ) (w v : World Db) (swap : Swap) (transaction_id message : String)
      → orm.find_swap w.db id ≡ some swap
      → ltb (extended_expires_at swap) e.now ≡ false
      → pay_out orm e swap w ≡ (ok transaction_id, v)
      → Ethereum.wait_for_transaction e transaction_id eth_total_confirmations ≡ err message
      → let w' = run_job orm e (some job) (JobData.transfer_eth_tokens id) w in
        (w'.db ≡ w.db) × (w'.jobs ≡ job ∷ w.jobs) × ((r : Request) × (w'.requests ≡ r ∷ w.requests))
  unfolding run_job
  payout_resent job id w v swap transaction_id message found in_time paid lost =
      thrown_report w job id message v
        (Given-pair (λ _ u. Sends w u) (pay_out orm e swap w) transaction_id v
          (pay_out-Sends swap w) paid)
        (transfer_eth_tokens orm e id w)
        (payout_throws id w v swap transaction_id message found in_time paid lost)
