-- ===== src/World.antt =====
-- What the background jobs share: the database, the queues of Bull, the events emitted to clients,
-- the requests sent to the blockchains, and the writes to the Ethereum cache.
pub mod Keeps
use eth_ton_swap.Common.{ℕ, String, Bool, Option, List, ◌∷◌, Action, modify}
use eth_ton_swap.Entities.{SwapStatus}

-- The payloads of the jobs (src/swaps/dto), under the job names of src/swaps/constants.ts.
pub data JobData : Type 0 where
  confirm_eth_transfer : ℕ → ℕ → JobData
  wait_for_eth_transfer_confirmation : ℕ → Option String → ℕ → JobData
  transfer_eth_tokens : ℕ → JobData
  transfer_eth_fee : ℕ → JobData
  confirm_ton_transfer : ℕ → ℕ → JobData
  mint_ton_jettons : ℕ → JobData
  burn_ton_jettons : ℕ → JobData
  transfer_ton_fee : ℕ → JobData
  get_ton_mint_transaction : ℕ → JobData
  get_ton_burn_transaction : ℕ → JobData
  get_ton_fee_transaction : ℕ → JobData

-- The field `swapId` of each payload.
abbrev pub swap_id : JobData → ℕ
swap_id (confirm_eth_transfer id block_number) = id
swap_id (wait_for_eth_transfer_confirmation id transaction_id confirmations) = id
swap_id (transfer_eth_tokens id) = id
swap_id (transfer_eth_fee id) = id
swap_id (confirm_ton_transfer id block_number) = id
swap_id (mint_ton_jettons id) = id
swap_id (burn_ton_jettons id) = id
swap_id (transfer_ton_fee id) = id
swap_id (get_ton_mint_transaction id) = id
swap_id (get_ton_burn_transaction id) = id
swap_id (get_ton_fee_transaction id) = id

pub data QueueName : Type 0 where
  eth_source_swaps eth_destination_swaps ton_source_swaps ton_destination_swaps : QueueName

pub data Backoff : Type 0 where
  fixed : ℕ → Backoff
  exponential : ℕ → Backoff

-- Bull's `JobOptions`; `none` is an option that is not given.
pub record JobOptions : Type 0 where
  pub attempts : Option ℕ
  pub delay : Option ℕ
  pub priority : ℕ
  pub lifo : Bool
  pub backoff : Option Backoff

pub record Job : Type 0 where
  pub queue : QueueName
  pub payload : JobData
  pub options : JobOptions

-- `SwapEvent`
pub record SwapEvent : Type 0 where
  pub id : ℕ
  pub status : SwapStatus
  pub status_code : Option ℕ
  pub current_confirmations : ℕ
  pub total_confirmations : ℕ

-- `SwapResult`
pub record SwapResult : Type 0 where
  pub status : SwapStatus
  pub status_code : Option ℕ
  pub transaction_id : Option String

-- The body that the TON contracts of tonweb build from these arguments, amounts in nanos.
pub data TonBody : Type 0 where
  mint : String → String → String → TonBody
  transfer : String → String → Option String → Option String → String → TonBody
  burn : String → String → TonBody
  comment : String → TonBody

-- The contract that a message deploys: the wallet of a key, or the jetton minter of an admin.
pub data StateInit : Type 0 where
  wallet_of_key : String → StateInit
  minter_of_admin : String → StateInit

-- A request that was sent to a blockchain.
pub data Request : Type 0 where
  -- contract, key of the signer, receiver, amount in the smallest unit, gas price, gas limit
  erc20_transfer : String → String → String → String → String → ℕ → Request
  -- private key of the sender, receiver, amount in wei
  ethers_transfer : String → String → String → Request
  -- key of the signer, receiver, nanos, sequence number, body, contract that is deployed
  ton_message : String → String → String → ℕ → Option TonBody → Option StateInit → Request

pub data CacheEntry : Type 0 where
  gas_price : String → CacheEntry
  block : ℕ → ℕ → CacheEntry

-- The payloads of the queue of wallets (src/wallets/dto), under the job names of
-- src/wallets/constants.ts: the wallet, and the giver that pays its first toncoins.
pub data WalletJobData : Type 0 where
  transfer_toncoins : ℕ → ℕ → WalletJobData
  confirm_toncoins_transfer : ℕ → ℕ → WalletJobData
  deploy_wallet : ℕ → WalletJobData
  confirm_wallet_deploy : ℕ → WalletJobData

-- A job of that queue, with the attempts that it has left.
pub record WalletJob : Type 0 where
  pub payload : WalletJobData
  pub attempts : ℕ
  pub delay : Option ℕ
  pub backoff : Backoff

-- Newest first in each list.
pub record World (Db : Type 0) : Type 0 where
  pub db : Db
  pub jobs : List Job
  pub wallet_jobs : List WalletJob
  pub events : List SwapEvent
  pub requests : List Request
  pub cached : List CacheEntry

module _ {Db : Type 0} where
  -- `queue.add`
  abbrev pub add_job : QueueName → JobData → JobOptions → Action (World Db) (Unit {0})
  add_job queue payload options = modify (λ w. record w {
    jobs = record { queue = queue; payload = payload; options = options } ∷ w.jobs;
  })

  abbrev pub add_wallet_job : WalletJob → Action (World Db) (Unit {0})
  add_wallet_job job = modify (λ w. record w { wallet_jobs = job ∷ w.wallet_jobs })

  -- `EventsService.emit`: a field that is `undefined` is sent as `null`.
  abbrev pub emit : SwapEvent → Action (World Db) (Unit {0})
  emit event = modify (λ w. record w { events = event ∷ w.events })

  abbrev pub send : Request → Action (World Db) (Unit {0})
  send request = modify (λ w. record w { requests = request ∷ w.requests })

  abbrev pub cache : CacheEntry → Action (World Db) (Unit {0})
  cache entry = modify (λ w. record w { cached = entry ∷ w.cached })
