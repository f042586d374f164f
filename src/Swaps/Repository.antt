-- ===== src/Swaps/Repository.antt =====
-- src/swaps/providers/swaps.repository.ts
use mathlib.Core.Option
use eth_ton_swap.Common.{
  List, [], ◌∷◌, ℕ, ◌+◌, String, Option, none, Result, ok, err, Action, gets, modify,
}
use eth_ton_swap.Common.Number.{Quantity, quantity_to_text}
use eth_ton_swap.Entities.{
  all_swap_statuses, SwapStatus, Token, Wallet, Swap, swap_expiration_interval,
}
use eth_ton_swap.Database.{Orm, PartialSwap, SwapDraft}
use eth_ton_swap.World.{World}
use eth_ton_swap.Env.{Env}

-- `UpdateSwap`: a field that is `undefined` is `none`.
pub record UpdateSwap (Num : Type 0) : Type 0 where
  pub source_address : Option String
  pub source_amount : Option (Quantity Num)
  pub source_token_decimals : Option ℕ
  pub source_conjugated_address : Option String
  pub source_transaction_id : Option String
  pub destination_conjugated_address : Option String
  pub destination_amount : Option (Quantity Num)
  pub destination_token_decimals : Option ℕ
  pub destination_transaction_id : Option String
  pub fee : Option (Quantity Num)
  pub collector_transaction_id : Option String
  pub burn_transaction_id : Option String
  pub status : Option SwapStatus
  pub status_code : Option ℕ
  pub confirmations : Option ℕ

-- `{}`, which the callers extend
abbrev pub no_update : {Num : Type 0} → UpdateSwap Num
no_update = record {
  source_address = none;
  source_amount = none;
  source_token_decimals = none;
  source_conjugated_address = none;
  source_transaction_id = none;
  destination_conjugated_address = none;
  destination_amount = none;
  destination_token_decimals = none;
  destination_transaction_id = none;
  fee = none;
  collector_transaction_id = none;
  burn_transaction_id = none;
  status = none;
  status_code = none;
  confirmations = none;
}

-- `CreateSwap`
pub record CreateSwap (Num : Type 0) : Type 0 where
  pub source_amount : Quantity Num
  pub source_token : Token
  pub source_wallet : Wallet
  pub destination_address : String
  pub destination_amount : Quantity Num
  pub destination_token : Token
  pub destination_wallet : Option Wallet
  pub fee : Quantity Num
  pub ip_address : String
  pub collector_wallet : Wallet
  pub ordered_at : ℕ

module _ {Db Num Slice : Type 0} (orm : Orm Db) (e : Env Num Slice) where
  -- the `Swap` that `create` fills in
  abbrev pub draft_of : CreateSwap Num → SwapDraft
  draft_of c = record {
    source_amount = quantity_to_text e.big c.source_amount;
    source_token = c.source_token;
    source_wallet = c.source_wallet;
    destination_address = c.destination_address;
    destination_amount = quantity_to_text e.big c.destination_amount;
    destination_token = c.destination_token;
    destination_wallet = c.destination_wallet;
    fee = quantity_to_text e.big c.fee;
    collector_wallet = c.collector_wallet;
    ip_address = c.ip_address;
    ordered_at = c.ordered_at;
    expires_at = c.ordered_at + swap_expiration_interval;
  }

  abbrev saved : World Db → Result (Swap × Db) → Result Swap × World Db
  saved w (ok (swap, db')) = (ok swap, record w { db = db' })
  saved w (err message) = (err message, w)

  -- `SwapsRepository.create`
  unfoldable pub create : CreateSwap Num → Action (World Db) Swap
  create c w = saved w (orm.save_swap w.db (draft_of c))

  -- The decimals of the two tokens are not columns of a swap, and are passed over.
  abbrev pub partial_swap : UpdateSwap Num → PartialSwap
  partial_swap u = record {
    source_address = u.source_address;
    source_conjugated_address = u.source_conjugated_address;
    source_amount = Option.map (quantity_to_text e.big) u.source_amount;
    source_transaction_id = u.source_transaction_id;
    destination_conjugated_address = u.destination_conjugated_address;
    destination_amount = Option.map (quantity_to_text e.big) u.destination_amount;
    destination_transaction_id = u.destination_transaction_id;
    fee = Option.map (quantity_to_text e.big) u.fee;
    collector_transaction_id = u.collector_transaction_id;
    burn_transaction_id = u.burn_transaction_id;
    status = u.status;
    status_code = u.status_code;
    confirmations = u.confirmations;
  }

  -- `SwapsRepository.update`
  unfoldable pub update : ℕ → UpdateSwap Num → Action (World Db) (Unit {0})
  update id u = modify (λ w. record w { db = orm.update_swap w.db id (partial_swap u) })

module _ {Db : Type 0} (orm : Orm Db) where
  unfoldable pub find_by_id : ℕ → Action (World Db) (Option Swap)
  find_by_id id = gets (λ w. orm.find_swap w.db id)

  unfoldable pub count : String → SwapStatus → Action (World Db) ℕ
  count ip_address status = gets (λ w. orm.count_swaps w.db ip_address status)

  -- `SwapsRepository.findByShortId`
  unfoldable pub find_by_short_id : String → Action (World Db) (List Swap)
  find_by_short_id short_id = gets (λ w. orm.find_swaps_like w.db short_id)

  -- the count of `SwapsRepository.countStats` for one status after the other
  abbrev pub counts_of : World Db → String → List SwapStatus → List (SwapStatus × ℕ)
  counts_of w token_address [] = []
  counts_of w token_address (status ∷ statuses) =
      (status, orm.count_swaps_from w.db token_address status) ∷ counts_of w token_address statuses

  unfoldable pub count_stats : String → Action (World Db) (List (SwapStatus × ℕ))
  count_stats token_address = gets (λ w. counts_of w token_address all_swap_statuses)
