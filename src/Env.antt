-- ===== src/Env.antt =====
-- What one run of a method is answered from outside: the time, the configuration, the Ethereum
-- provider (ethers), the TON client (tonweb, ton), node's crypto and the cache manager. These are
-- no code of this repository; another run may be answered otherwise.
use eth_ton_swap.Common.{ℕ, String, Bool, Option, List, Result}
use eth_ton_swap.Common.Number.{BigNumber}
use eth_ton_swap.World.{Request}

-- A block number may lie below zero when an offset is taken off it.
pub data ℤ : Type 0 where
  pos : ℕ → ℤ
  negsuc : ℕ → ℤ

-- An argument of a decoded log.
pub data LogArgument : Type 0 where
  address : String → LogArgument
  amount : ℕ → LogArgument

pub record Log : Type 0 where
  pub transaction_hash : String
  pub topics : List String
  pub contents : String

-- A random wallet of ethers, whose private key begins with 0x.
pub record RandomWallet : Type 0 where
  pub address : String
  pub private_key : String
  pub phrase : String

pub record EthereumClient (Num : Type 0) : Type 0 where
  -- `getAddress`: the checksummed form
  pub get_address : String → Result String
  pub get_gas_price : Result String
  pub get_latest_block : Result ℕ
  pub get_block_with_transactions : ℕ → Result (Option ℕ)
  -- token, topic, first and last block
  pub get_logs : String → String → ℤ → ℕ → Result (List Log)
  pub topic_id : String → String
  -- `Interface.parseLog`
  pub parse_log : Log → Result (Option (List LogArgument))
  pub format_units : ℕ → ℕ → String
  pub parse_units : String → ℕ → Result String
  pub hexlify : Num → Result String
  -- the key of the signer that `createWallet` makes of a secret
  pub create_wallet : String → Result String
  pub create_random_wallet : Result RandomWallet
  -- of a token's contract, the balance of an account
  pub balance_of : String → String → Result ℕ
  -- in wei
  pub get_balance : String → Result ℕ
  pub format_ether : ℕ → String
  pub parse_ether : String → Result String
  -- the greatest fee for a unit of gas, in wei
  pub max_fee_per_gas : Result ℕ
  -- the hash of the transaction that was sent
  pub transfer : Request → Result String
  pub wait_for_transaction : String → ℕ → Result (Unit {0})

-- `Message` and `Transaction` of toncenter
pub record TonMessage : Type 0 where
  pub source : String
  pub destination : String
  pub value : String
  pub body : Option String

pub record TonTransaction : Type 0 where
  pub utime : ℕ
  pub lt : String
  pub hash : String
  pub in_msg : Option TonMessage

-- `WalletInfo` of toncenter
pub record WalletInfo : Type 0 where
  pub is_wallet : Bool
  pub balance : String
  pub account_state : String
  pub wallet_type : Option String
  pub seqno : Option ℕ

-- `source_fees` of toncenter, in nanos
pub record SourceFees : Type 0 where
  pub in_fwd_fee : ℕ
  pub storage_fee : ℕ
  pub gas_fee : ℕ
  pub fwd_fee : ℕ

-- the key pair of a random mnemonic
pub record RandomKey : Type 0 where
  pub secret_key : String
  pub words : List String

-- what `JettonWallet.getData` answers, the balance in nanos
pub record JettonWalletInfo : Type 0 where
  pub balance : ℕ
  pub owner_address : String
  pub jetton_minter_address : String

-- what `JettonMinter.getJettonData` answers
pub record JettonInfo : Type 0 where
  pub total_supply : String
  pub jetton_content_uri : String
  pub is_mutable : Bool

-- `Slice` is the state of a reader over the bits of a cell.
pub record TonClient (Slice : Type 0) : Type 0 where
  -- `new Address(text)`, and `address.toString(true, true, bounceable)`
  pub parse_address : String → Result String
  pub friendly : String → Bool → String
  pub get_transactions : String → ℕ → Result (List TonTransaction)
  pub get_masterchain_seqno : Result ℕ
  pub begin_parse : String → Result Slice
  pub read_uint : ℕ → Slice → Result (ℕ × Slice)
  pub read_coins : Slice → Result (ℕ × Slice)
  pub read_address : Slice → Result (Option String × Slice)
  pub skip : ℕ → Slice → Result Slice
  pub read_bit : Slice → Result (Bool × Slice)
  pub remaining : Slice → ℕ
  pub read_remaining_bytes : Slice → Result String
  pub decimal : ℕ → String
  pub from_nano : String → String
  pub to_nano : String → Result String
  -- the address of the wallet, or of the jetton minter, of a key or an admin
  pub wallet_address : String → Result String
  pub minter_address : String → Result String
  -- of the minter of an admin, the jetton wallet of an owner
  pub jetton_wallet_address : String → String → Result String
  pub generate_key : Result RandomKey
  pub get_wallet_info : String → Result WalletInfo
  -- in nanos
  pub get_balance : String → Result String
  pub get_jetton_wallet : String → Result JettonWalletInfo
  -- of the minter of an admin
  pub get_jetton_info : String → Result JettonInfo
  pub seqno : String → Result ℕ
  pub estimate_fee : Request → Result SourceFees
  pub send : Request → Result (Unit {0})

pub record Env (Num Slice : Type 0) : Type 0 where
  -- the text of an identifier
  pub uuid_text : ℕ → String
  pub now : ℕ
  pub swap_fee : Num
  pub big : BigNumber Num
  pub eth : EthereumClient Num
  pub ton : TonClient Slice
  pub encrypt_text : String → Result String
  pub decrypt_text : String → Result String
  pub cached_gas_price : Option String
  pub cached_block : ℕ → Option ℕ
