-- ===== src/Samples/Rows.antt =====
-- A small database and a world over it, for the tests.
use eth_ton_swap.Common.{
  ℕ, zero, suc, String, false, true, Option, none, some, [], ◌∷◌, if◌then◌else◌, ◌==◌, List,
}
use eth_ton_swap.Entities.{
  Blockchain, ethereum, ton, WalletType, transferer, collector, minter, SwapStatus, Token, Wallet,
  Setting, Swap,
}
use eth_ton_swap.World.{World, Job}
use eth_ton_swap.Samples.{Tables}
use eth_ton_swap.Swaps.Controller.{CreateSwapRequest}

abbrev pub token_in : Blockchain → ℕ → Token
token_in blockchain id = record {
  id = id;
  blockchain = blockchain;
  address = "token";
  conjugated_address = none;
  name = "US Dollar";
  symbol = "USD";
  decimals = 2;
  min_swap_amount = "10";
  max_swap_amount = "1000";
  coinmarketcap_id = none;
  price = none;
}

abbrev pub wallet_of : ℕ → Blockchain → WalletType → String → Wallet
wallet_of id blockchain type address = record {
  id = id;
  secret_key = "key";
  mnemonic = none;
  address = address;
  conjugated_address = some address;
  balance = some "500";
  token = token_in blockchain (if id == 1 then 1 else 2);
  type = type;
  deployed = true;
  in_use = false;
  disabled = false;
  created_at = 0;
}

-- rows numbered from one
abbrev pub numbered : {A : Type 0} → List A → ℕ → Option A
numbered [] n = none
numbered (a ∷ rest) zero = none
numbered (a ∷ rest) (suc zero) = some a
numbered (a ∷ rest) (suc (suc n)) = numbered rest (suc n)

abbrev pub wallets : ℕ → Option Wallet
wallets = numbered (
    wallet_of 1 ethereum transferer "w1"
    ∷ wallet_of 2 ethereum collector "w2"
    ∷ wallet_of 3 ton minter "w3"
    ∷ wallet_of 4 ton transferer "w4"
    ∷ wallet_of 5 ton collector "w5"
    ∷ [])

abbrev pub tokens : ℕ → Option Token
tokens = numbered (token_in ethereum 1 ∷ token_in ton 2 ∷ [])

abbrev pub settings : Blockchain → Option Setting
settings blockchain = some (record {
  id = 1;
  blockchain = blockchain;
  decimals = 2;
  min_wallet_balance = "5";
  gas_fee = none;
})

-- a swap from Ethereum to TON, in a status and with confirmations
abbrev pub swap_in : SwapStatus → ℕ → Swap
swap_in status confirmations = record {
  id = 0;
  source_token = token_in ethereum 1;
  source_address = none;
  source_conjugated_address = none;
  source_amount = "100";
  source_wallet = wallet_of 1 ethereum transferer "w1";
  source_transaction_id = none;
  destination_token = token_in ton 2;
  destination_address = "receiver";
  destination_conjugated_address = none;
  destination_amount = some "90";
  destination_wallet = none;
  destination_transaction_id = none;
  fee = some "10";
  collector_wallet = wallet_of 2 ethereum collector "w2";
  collector_transaction_id = none;
  burn_transaction_id = none;
  status = status;
  status_code = none;
  confirmations = confirmations;
  ip_address = "127.0.0.1";
  ordered_at = 0;
  created_at = 0;
  expires_at = 1200000;
}

-- the world with that swap and one job, or with none at all
abbrev pub world_in : SwapStatus → ℕ → List Job → World Tables
world_in status confirmations jobs = record {
  db = record {
    next_swap = 1;
    swaps = λ j. if j == 0 then some (swap_in status confirmations) else none;
    wallets = wallets;
    tokens = tokens;
    wallet_ids = 1 ∷ 2 ∷ 3 ∷ 4 ∷ 5 ∷ [];
    settings = settings;
  };
  jobs = jobs;
  wallet_jobs = [];
  events = [];
  requests = [];
  cached = [];
}

abbrev pub empty_world : World Tables
empty_world = record {
  db = record {
    next_swap = 0;
    swaps = λ j. none;
    wallets = wallets;
    tokens = tokens;
    wallet_ids = 1 ∷ 2 ∷ 3 ∷ 4 ∷ 5 ∷ [];
    settings = settings;
  };
  jobs = [];
  wallet_jobs = [];
  events = [];
  requests = [];
  cached = [];
}

abbrev pub request : CreateSwapRequest
request = record {
  source_token_id = 1;
  source_amount = "100";
  destination_token_id = 2;
  destination_address = "receiver";
  ordered_at = 0;
}
