-- ===== src/Wallets/DepositBalance.antt =====
-- src/wallets/tasks/deposit-wallets-balance.task.ts: the hourly tasks that fill up the wallets that
-- pay for transfers. The pause between two wallets and what is logged are left out.
pub mod Giving
use Prim.Native.Nat.{Ordering}
use eth_ton_swap.Common.{
  String, Bool, true, false, Option, none, some, List, [], ◌∷◌, Result, Action, pure, lift, gets,
  catching, ◌>>=◌, ◌>>◌, if◌then◌else◌,
}
use eth_ton_swap.Common.Number.{parse_nullable}
use eth_ton_swap.Entities.{Blockchain, ethereum, ton, WalletType, Wallet, Setting}
use eth_ton_swap.Database.{Orm, by_token_and_type}
use eth_ton_swap.World.{World}
use eth_ton_swap.Env.{Env}
use eth_ton_swap.Ethereum
use eth_ton_swap.Ethereum.{transfer_ethers}
use eth_ton_swap.Ton.Blockchain
use eth_ton_swap.Ton.Contract
use eth_ton_swap.Ton.Contract.{transfer}
use eth_ton_swap.Wallets.Repository
use eth_ton_swap.Wallets.Repository.{FindAllWallets, any_wallet}

-- The last of the list comes first: `pop` takes from the end.
abbrev pub reversed_onto {ℓ} : {A : Type ℓ} → List A → List A → List A
reversed_onto acc [] = acc
reversed_onto acc (x ∷ xs) = reversed_onto (x ∷ acc) xs

abbrev is_greater : Option Ordering → Bool
is_greater (some Ordering.gt) = true
is_greater _ = false

abbrev pub transferers : {Num : Type 0} → Blockchain → FindAllWallets Num
transferers ethereum = record any_wallet {
  blockchain = some ethereum;
  type = some WalletType.transferer;
  disabled = some false;
}
transferers ton = record any_wallet {
  blockchain = some ton;
  type = some WalletType.transferer;
  disabled = some false;
  has_conjugated_address = some true;
}

abbrev pub givers : {Num : Type 0} → Blockchain → FindAllWallets Num
givers blockchain = record any_wallet {
  blockchain = some blockchain;
  type = some WalletType.giver;
  disabled = some false;
}

module _ {Num Slice : Type 0} (e : Env Num Slice) where
  -- The `sort` by stored balances, greatest first and stable. A comparison with no number counts
  -- as equal; ECMAScript leaves the order open then, and this is one of those that it allows.
  abbrev inserted : Wallet → List Wallet → List Wallet
  inserted x [] = x ∷ []
  inserted x (y ∷ ys) =
      let later = inserted x ys in
      if is_greater
        (e.big.compared_to (parse_nullable e.big y.balance) (parse_nullable e.big x.balance))
      then y ∷ later
      else x ∷ (y ∷ ys)

  abbrev pub sorted : List Wallet → List Wallet
  sorted [] = []
  sorted (x ∷ xs) = inserted x (sorted xs)

  -- `getBalance` of the blockchain's service
  unfoldable pub balance_of : Blockchain → Wallet → Result Num
  balance_of ethereum wallet = Ethereum.get_balance e wallet.address
  balance_of ton wallet = Blockchain.get_balance e wallet.address

  -- `balance.plus(balanceEpsilon).lt(minWalletBalance)`
  abbrev pub is_low : Num → Num → Bool
  is_low minimum balance =
      e.big.lt (e.big.plus balance (e.big.div minimum (e.big.parse "10"))) minimum

module _ {Db Num Slice : Type 0} (e : Env Num Slice) where
  -- `createWalletSigner` and the transfer
  unfoldable pub give : Blockchain → Wallet → Wallet → Num → Action (World Db) (Unit {0})
  give ethereum giver wallet amount = do
    signer ← lift (Ethereum.create_wallet_signer e giver.secret_key)
    transfer_ethers e signer wallet.address amount
    pure tt
  give ton giver wallet amount = do
    signer ← lift (Contract.create_wallet_signer e giver.secret_key)
    transfer e signer wallet.address amount true none none false
    pure tt

  -- one round of the loop, with the givers that are left, the last one first
  abbrev pub deposit :
      Blockchain → Num → Wallet → List Wallet → Wallet → Num → Action (World Db) (List Wallet)
  deposit blockchain minimum giver givers wallet balance =
      if is_low e minimum balance
      then give blockchain giver wallet (e.big.minus minimum balance) >> pure givers
      else pure (giver ∷ givers)

  unfoldable pub deposit_all :
      Blockchain → Num → List Wallet → List Wallet → Action (World Db) (Unit {0})
  deposit_all blockchain minimum givers [] = pure tt
  deposit_all blockchain minimum [] (wallet ∷ wallets) = pure tt
  deposit_all blockchain minimum (giver ∷ givers) (wallet ∷ wallets) = do
    balance ← lift (balance_of e blockchain wallet)
    left ← deposit blockchain minimum giver givers wallet balance
    deposit_all blockchain minimum left wallets

module _ {Db Num Slice : Type 0} (orm : Orm Db) (e : Env Num Slice) where
  -- what follows the queries: with no giver, and no setting, nothing
  abbrev pub fill_up :
      Blockchain → List Wallet → List Wallet → Option Setting → Action (World Db) (Unit {0})
  fill_up blockchain wallets [] setting = pure tt
  fill_up blockchain wallets (giver ∷ givers) none = pure tt
  fill_up blockchain wallets (giver ∷ givers) (some setting) =
      deposit_all e blockchain (e.big.parse setting.min_wallet_balance)
        (reversed_onto [] (giver ∷ givers)) (sorted e wallets)

  abbrev pub with_wallets : Blockchain → List Wallet → Action (World Db) (Unit {0})
  with_wallets blockchain [] = pure tt
  with_wallets blockchain (wallet ∷ wallets) = do
    giver_wallets ← Repository.find_all orm e (givers blockchain) by_token_and_type
    setting ← gets (λ w. orm.find_setting w.db blockchain)
    fill_up blockchain (wallet ∷ wallets) giver_wallets setting

  -- `runEthereum` and `runTon`
  unfoldable pub run : Blockchain → Action (World Db) (Unit {0})
  run blockchain =
      catching
        (Repository.find_all orm e (transferers blockchain) by_token_and_type
          >>= with_wallets blockchain)
        (λ message. pure tt)
