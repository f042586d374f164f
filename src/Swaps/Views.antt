-- ===== src/Swaps/Views.antt =====
-- What is shown of a swap: src/swaps/controllers/swaps.controller.ts, and the events of
-- src/common/providers/events.service.ts. A time is a number, and the time of the last change,
-- which the database alone writes, is left out.
use mathlib.Core.Option
use eth_ton_swap.Common.{
  ℕ, String, Option, List, map, [], ◌∷◌, Action, pure, ◌>>=◌, ◌==◌, or_throw, if◌then◌else◌,
}
use eth_ton_swap.Common.Errors.{error_swap_not_found}
use eth_ton_swap.Entities.{
  Swap, SwapStatus, Wallet, is_ton, eth_total_confirmations, ton_total_confirmations,
}
use eth_ton_swap.Database.{Orm}
use eth_ton_swap.World.{World, SwapEvent}
use eth_ton_swap.Tokens.Dto.{GetPublicToken, to_get_bounded_token}
use eth_ton_swap.Swaps.Repository

-- `GetPublicWalletDto`
pub record GetPublicWallet : Type 0 where
  pub id : ℕ
  pub address : String
  pub conjugated_address : Option String

-- `GetPublicSwapDto` and `GetSwapDto`
pub record GetPublicSwap : Type 0 where
  pub id : ℕ
  pub source_token_id : ℕ
  pub source_address : Option String
  pub source_amount : String
  pub source_transaction_id : Option String
  pub destination_token_id : ℕ
  pub destination_address : String
  pub destination_conjugated_address : Option String
  pub destination_amount : Option String
  pub destination_transaction_id : Option String
  pub wallet : GetPublicWallet
  pub status : SwapStatus
  pub status_code : Option ℕ
  pub current_confirmations : ℕ
  pub total_confirmations : ℕ
  pub ordered_at : ℕ
  pub created_at : ℕ
  pub expires_at : ℕ

pub record GetSwap : Type 0 where
  pub id : ℕ
  pub source_address : Option String
  pub source_conjugated_address : Option String
  pub source_amount : String
  pub source_token : GetPublicToken
  pub source_walet : GetPublicWallet
  pub source_transaction_id : Option String
  pub destination_address : String
  pub destination_conjugated_address : Option String
  pub destination_amount : Option String
  pub destination_token : GetPublicToken
  pub destination_wallet : Option GetPublicWallet
  pub destination_transaction_id : Option String
  pub fee : Option String
  pub collector_wallet : GetPublicWallet
  pub collector_transaction_id : Option String
  pub burn_transaction_id : Option String
  pub status : SwapStatus
  pub status_code : Option ℕ
  pub current_confirmations : ℕ
  pub total_confirmations : ℕ
  pub ordered_at : ℕ
  pub created_at : ℕ
  pub expires_at : ℕ

abbrev pub to_get_public_wallet : Wallet → GetPublicWallet
to_get_public_wallet wallet = record {
  id = wallet.id;
  address = wallet.address;
  conjugated_address = wallet.conjugated_address;
}

abbrev total_confirmations : Swap → ℕ
total_confirmations swap =
    if is_ton swap.source_token.blockchain then ton_total_confirmations else eth_total_confirmations

-- `toGetPublicSwapDto`
unfoldable pub to_get_public_swap : Swap → GetPublicSwap
to_get_public_swap swap = record {
  id = swap.id;
  source_token_id = swap.source_token.id;
  source_address = swap.source_address;
  source_amount = swap.source_amount;
  source_transaction_id = swap.source_transaction_id;
  destination_token_id = swap.destination_token.id;
  destination_address = swap.destination_address;
  destination_conjugated_address = swap.destination_conjugated_address;
  destination_amount = swap.destination_amount;
  destination_transaction_id = swap.destination_transaction_id;
  wallet = to_get_public_wallet swap.source_wallet;
  status = swap.status;
  status_code = swap.status_code;
  current_confirmations = swap.confirmations;
  total_confirmations = total_confirmations swap;
  ordered_at = swap.ordered_at;
  created_at = swap.created_at;
  expires_at = swap.expires_at;
}

-- `toGetSwapDto`
unfoldable pub to_get_swap : Swap → GetSwap
to_get_swap swap = record {
  id = swap.id;
  source_address = swap.source_address;
  source_conjugated_address = swap.source_conjugated_address;
  source_amount = swap.source_amount;
  source_token = to_get_bounded_token swap.source_token;
  source_walet = to_get_public_wallet swap.source_wallet;
  source_transaction_id = swap.source_transaction_id;
  destination_address = swap.destination_address;
  destination_conjugated_address = swap.destination_conjugated_address;
  destination_amount = swap.destination_amount;
  destination_token = to_get_bounded_token swap.destination_token;
  destination_wallet = Option.map to_get_public_wallet swap.destination_wallet;
  destination_transaction_id = swap.destination_transaction_id;
  fee = swap.fee;
  collector_wallet = to_get_public_wallet swap.collector_wallet;
  collector_transaction_id = swap.collector_transaction_id;
  burn_transaction_id = swap.burn_transaction_id;
  status = swap.status;
  status_code = swap.status_code;
  current_confirmations = swap.confirmations;
  total_confirmations = total_confirmations swap;
  ordered_at = swap.ordered_at;
  created_at = swap.created_at;
  expires_at = swap.expires_at;
}

module _ {Db : Type 0} (orm : Orm Db) where
  -- `getSwap`
  unfoldable pub get_swap : ℕ → Action (World Db) GetPublicSwap
  get_swap id = do
    found ← Repository.find_by_id orm id
    swap ← or_throw found error_swap_not_found
    pure (to_get_public_swap swap)

  -- `searchSwaps`
  unfoldable pub search_swaps : String → Action (World Db) (List GetSwap)
  unfolding to_get_swap
  search_swaps short_id = do
    swaps ← Repository.find_by_short_id orm short_id
    pure (map to_get_swap swaps)

-- `EventsService.subscribe`: of the events that were emitted, those of a swap
unfoldable pub subscribed : ℕ → List SwapEvent → List SwapEvent
subscribed id [] = []
subscribed id (event ∷ events) =
    let rest = subscribed id events in if event.id == id then event ∷ rest else rest
