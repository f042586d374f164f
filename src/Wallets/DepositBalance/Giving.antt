-- ===== src/Wallets/DepositBalance/Giving.antt =====
-- Who gives to whom: src/wallets/tasks/deposit-wallets-balance.task.ts.
use eth_ton_swap.Common.{List, [], ◌∷◌, Action, pure, ◌>>◌, if◌then◌else◌}
use eth_ton_swap.Entities.{Blockchain, Wallet, Setting}
use eth_ton_swap.Database.{Orm}
use eth_ton_swap.World.{World}
use eth_ton_swap.Env.{Env}
use eth_ton_swap.Wallets.Repository
use eth_ton_swap.Wallets.DepositBalance.{is_low, give}

-- Each with the one at the same place in the other list, as far as both go.
abbrev pub zip : {A B : Type 0} → List A → List B → List (A × B)
zip [] ys = []
zip (a ∷ xs) [] = []
zip (a ∷ xs) (b ∷ ys) = (a, b) ∷ zip xs ys

module _ {Num Slice : Type 0} (e : Env Num Slice) (minimum : Num) (known : Wallet → Num) where
  abbrev pub needy : List Wallet → List Wallet
  needy [] = []
  needy (wallet ∷ wallets) =
      let rest = needy wallets in if is_low e minimum (known wallet) then wallet ∷ rest else rest

module _ {Db Num Slice : Type 0} (e : Env Num Slice) (blockchain : Blockchain) (minimum : Num)
    (known : Wallet → Num) where
  -- each of the pairs in turn: the second gives the first what it lacks
  unfoldable pub give_each : List (Wallet × Wallet) → Action (World Db) (Unit {0})
  give_each [] = pure tt
  give_each ((wallet, giver) ∷ pairs) =
      give e blockchain giver wallet (e.big.minus minimum (known wallet)) >> give_each pairs

module _ {Db Num Slice : Type 0} (orm : Orm Db) (e : Env Num Slice) (blockchain : Blockchain)
    (known : Wallet → Num) (setting : Setting) where
  abbrev minimum : Num
  minimum = e.big.parse setting.min_wallet_balance
