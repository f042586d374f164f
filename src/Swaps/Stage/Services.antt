-- ===== src/Swaps/Stage/Services.antt =====
-- The calls of the blockchains touch no job and no stage: src/ethereum/providers, src/ton/providers.
use eth_ton_swap.Common.{
  ℕ, String, str_eq, Bool, true, false, Option, none, some, modify, refl, Option-cases, inl, inr,
}
use eth_ton_swap.Database.{Orm}
use eth_ton_swap.World.{Request, CacheEntry, send, cache}
use eth_ton_swap.Env.{Env}
use eth_ton_swap.Ethereum
use eth_ton_swap.Ethereum.{TokenContract}
use eth_ton_swap.Ton.Contract as Contract
use eth_ton_swap.Ton.Contract.{WalletSigner}
use eth_ton_swap.Swaps.Stage.{Quiet, quiet_rules, Quiet-if, Quiet-bind, Quiet-lift}

module _ {Db : Type 0} (orm : Orm Db) where
  pub Quiet-send : (r : Request) → Quiet orm (send r)
  unfolding modify
  Quiet-send r = record { at = λ w. record { jobs = refl; stages = λ j. refl } }

  pub Quiet-cache : (c : CacheEntry) → Quiet orm (cache c)
  unfolding modify
  Quiet-cache c = record { at = λ w. record { jobs = refl; stages = λ j. refl } }

module _ {Db Num Slice : Type 0} (orm : Orm Db) (e : Env Num Slice) where
  pub transfer_tokens-Quiet :
      (c : TokenContract) (to : String) (n : Num) (d : ℕ) (price : Num)
      → Quiet orm (Ethereum.transfer_tokens e c to n d price)
  unfolding Ethereum.transfer_tokens
  transfer_tokens-Quiet c to n d price = search (quiet_rules, Quiet-send)

  submit-Quiet : (r : Request) (dry_run : Bool) → Quiet orm (Contract.submit e r dry_run)
  unfolding Contract.submit
  submit-Quiet r true = search quiet_rules
  submit-Quiet r false = search (quiet_rules, Quiet-send)

  pub mint_jettons-Quiet :
      (s : WalletSigner) (to : String) (jettons gas amount : Num) (dry_run : Bool)
      → Quiet orm (Contract.mint_jettons e s to jettons gas amount dry_run)
  unfolding Contract.mint_jettons
  mint_jettons-Quiet s to jettons gas amount dry_run = search (quiet_rules, submit-Quiet) depth 16

  pub transfer_jettons-Quiet :
      (s : WalletSigner) (admin to : String) (jettons gas : Num) (forward : Option Num)
      (payload : Option String) (dry_run : Bool)
      → Quiet orm (Contract.transfer_jettons e s admin to jettons gas forward payload dry_run)
  unfolding Contract.transfer_jettons
  transfer_jettons-Quiet s admin to jettons gas forward payload dry_run =
      search (quiet_rules, submit-Quiet) depth 16

  pub burn_jettons-Quiet :
      (s : WalletSigner) (admin : String) (jettons gas : Num) (dry_run : Bool)
      → Quiet orm (Contract.burn_jettons e s admin jettons gas dry_run)
  unfolding Contract.burn_jettons
  burn_jettons-Quiet s admin jettons gas dry_run = search (quiet_rules, submit-Quiet) depth 16

  pub get_gas_price-Quiet : Quiet orm (Ethereum.get_gas_price e)
  unfolding Ethereum.get_gas_price
  get_gas_price-Quiet = elim (Option-cases e.cached_gas_price) [
    | inl absent ↦ rw absent (search (quiet_rules, Quiet-cache))
    | inr (price, present) ↦ rw present (
        Quiet-if orm (str_eq price "") _ _ (search (quiet_rules, Quiet-cache)) (search quiet_rules))
  ]

  pub get_block-Quiet : (n : ℕ) → Quiet orm (Ethereum.get_block_with_transactions e n)
  unfolding Ethereum.get_block_with_transactions
  get_block-Quiet n = elim (Option-cases (e.cached_block n)) [
    | inl absent ↦ rw absent (
        Quiet-bind orm _ _ (Quiet-lift orm _)
          (elim [ none ↦ search quiet_rules | some found ↦ search (quiet_rules, Quiet-cache) ]))
    | inr (found, present) ↦ rw present (search quiet_rules)
  ]
