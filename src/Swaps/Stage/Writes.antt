-- ===== src/Swaps/Stage/Writes.antt =====
-- What the repositories' updates do to the stages, and actions that cannot throw.
use eth_ton_swap.Common.{
  ℕ, none, Result, ok, Action, pure, continue, modify, ◌>>=◌, ◌>>◌, ◌≡◌, refl, arith,
}
use eth_ton_swap.Database.{Orm, OrmLaws, PartialWallet, assigned}
use eth_ton_swap.World.{World}
use eth_ton_swap.Env.{Env}
use eth_ton_swap.Swaps.Repository
use eth_ton_swap.Swaps.Repository.{UpdateSwap}
use eth_ton_swap.Wallets.Repository as Wallets
use eth_ton_swap.Wallets.Repository.{UpdateWallet}
use eth_ton_swap.Swaps.Stage.{Stage, Moved, Quiet, Quiet-pure, Quiet-bind, quiet_rules}

-- the stage that an update writes
abbrev pub updated : {Num : Type 0} → UpdateSwap Num → Stage → Stage
updated u g = record {
  status = assigned u.status g.status;
  confirmations = assigned u.confirmations g.confirmations;
}

module _ {Db Num Slice : Type 0} {orm : Orm Db} (laws : OrmLaws orm) (e : Env Num Slice) where
  pub update-Moved :
      (id : ℕ) (u : UpdateSwap Num) (w : World Db)
      → Moved orm w id (updated u) (Repository.update orm e id u w).1
  unfolding Repository.update modify
  update-Moved id u w = record {
    jobs = refl;
    stages =
        λ j. ground (arith, laws.find_swap-update_swap w.db id j (Repository.partial_swap orm e u));
  }

  wallet_row-Quiet :
      (id : ℕ) (p : PartialWallet)
      → Quiet orm (modify (λ w. record w { db = orm.update_wallet w.db id p }))
  unfolding modify
  wallet_row-Quiet id p = record {
    at = λ w. record {
      jobs = refl;
      stages = λ j. ground (arith, laws.find_swap-update_wallet w.db id j p);
    };
  }

  pub wallets_update-Quiet : (id : ℕ) (u : UpdateWallet Num) → Quiet orm (Wallets.update orm e id u)
  unfolding Wallets.update
  wallets_update-Quiet id u = search (quiet_rules, wallet_row-Quiet)

  pub wallets_update_ok :
      (id : ℕ) (u : UpdateWallet Num) (w : World Db)
      → u.mnemonic ≡ none
      → u.conjugated_address ≡ none
      → (Wallets.update orm e id u w).0 ≡ ok tt
  unfolding Wallets.update ◌>>=◌
  wallets_update_ok id u w p q = ground arith

-- An action that returns `r` whatever the state, and touches no stage.
pub record Settles {Db : Type 0} (orm : Orm Db) {A : Type 0} (r : A) (m : Action (World Db) A)
    : Type 0 where
  pub returns : (w : World Db) → (m w).0 ≡ ok r
  pub quiet : Quiet orm m

module _ {Db Num Slice : Type 0} {orm : Orm Db} (laws : OrmLaws orm) (e : Env Num Slice) where
  pub Settles-pure : {A : Type 0} (r : A) → Settles orm r (pure r)
  unfolding pure
  Settles-pure r = record { returns = λ w. refl; quiet = Quiet-pure orm r }

  -- An update of a wallet that neither encrypts nor normalises cannot throw.
  pub Settles-wallet :
      (id : ℕ) (u : UpdateWallet Num)
      → u.mnemonic ≡ none
      → u.conjugated_address ≡ none
      → Settles orm tt (Wallets.update orm e id u)
  Settles-wallet id u p q = record {
    returns = λ w. wallets_update_ok laws e id u w p q;
    quiet = wallets_update-Quiet laws e id u;
  }

  continue-returns :
      {A B : Type 0} (f : A → Action (World Db) B) (a : A) (b : B) (x : Result A × World Db)
      → x.0 ≡ ok a
      → Settles orm b (f a)
      → (continue f x).0 ≡ ok b
  continue-returns f a b (r, w) p s = rw p (s.returns w)

  pub Settles-then :
      {A B : Type 0} (a : A) (b : B) (m : Action (World Db) A) (k : Action (World Db) B)
      → Settles orm a m
      → Settles orm b k
      → Settles orm b (m >> k)
  unfolding ◌>>=◌
  Settles-then a b m k sm sk = record {
    returns = λ w. continue-returns (λ _. k) a b (m w) (sm.returns w) sk;
    quiet = Quiet-bind orm m (λ _. k) sm.quiet (λ _. sk.quiet);
  }
