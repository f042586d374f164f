-- ===== src/Swaps/Pipeline/Leasing.antt =====
-- A swap that was ordered holds a wallet that was free, and has the job that looks for its transfer.
use eth_ton_swap.Common.{
  or_throw, ◌∷◌, [], List, All, String, true, false, none, some, ok, pure, throw, ◌>>=◌, ◌≡◌, refl,
  ap, sym, ◌∙◌, subst, arith, ok_inj, ==_refl,
}
use mathlib.Core.Option
use eth_ton_swap.Entities.{Blockchain, WalletType, SwapStatus, Token, Swap, Wallet}
use eth_ton_swap.Database.{Orm, OrmLaws, Sets, Meets, WalletWhere, by_balance, assign_wallet}
use eth_ton_swap.World.{World, Job}
use eth_ton_swap.Env.{Env}
use eth_ton_swap.Wallets.Repository as Wallets
use eth_ton_swap.Wallets.Repository.{set_in_use, best_matched_where, head?}
use eth_ton_swap.Swaps.Controller.{
  CreateSwapRequest, check_request, choose_source_wallet, place_swap, create_swap,
}
use eth_ton_swap.Swaps.Helper.Release.{partial_in_use}
use eth_ton_swap.Swaps.Pipeline.Admission.{Admits, check_request-Given}
use eth_ton_swap.Swaps.Pipeline.Reading.{Given, Given-ok, Given-weaken, Given-Reads}
use eth_ton_swap.Swaps.Pipeline.Holding.{
  check_request-Reads, choose_destination-Reads, choose_collector-Reads, choose_source-Reads, Holds,
  LooksIn, held-Given,
}

module _ {Db Num Slice : Type 0} (orm : Orm Db) (e : Env Num Slice) where
  abbrev pub IsFree : World Db → Wallet → Type 0
  IsFree w wallet = (orm.find_wallet w.db wallet.id ≡ some wallet) × (wallet.in_use ≡ false)

  -- An ordered swap: pending, with a transferer in the source token's blockchain that was free and
  -- is in use now, and one job more, which looks for the transfer there.
  pub record Leases (r : CreateSwapRequest) (w : World Db) (swap : Swap) (wallet : Wallet)
      (w' : World Db) : Type 0 where
    pub row :
        (stored : Swap) × (orm.find_swap w'.db swap.id ≡ some stored)
        × (stored.status ≡ SwapStatus.pending)
        × (stored.source_wallet.id ≡ wallet.id)
    pub new : orm.find_swap w.db swap.id ≡ none
    pub was_free : IsFree w wallet
    pub in_use : orm.find_wallet w'.db wallet.id ≡ some (record wallet { in_use = true })
    pub source_token : Token
    pub source : orm.find_token w.db r.source_token_id ≡ some source_token
    pub fits :
        (wallet.token.blockchain ≡ source_token.blockchain) × (wallet.type ≡ WalletType.transferer)
    pub queued :
        (job : Job) × (w'.jobs ≡ job ∷ w.jobs) × LooksIn e swap.id source_token.blockchain job

module _ {Db Num Slice : Type 0} {orm : Orm Db} (laws : OrmLaws orm) (e : Env Num Slice) where
  -- the wallet that is chosen is a free transferer in the blockchain
  abbrev IsChosen : World Db → Blockchain → Wallet → Type 0
  IsChosen w b wallet =
      IsFree orm e w wallet × (wallet.token.blockchain ≡ b) × (wallet.type ≡ WalletType.transferer)

  first-IsChosen :
      (w : World Db) (b : Blockchain) (c : WalletWhere) (message : String) (wallet : Wallet)
      → c.in_use ≡ some false
      → c.blockchain ≡ some b
      → c.type ≡ some WalletType.transferer
      → (rows : List Wallet) → All (λ v. (orm.find_wallet w.db v.id ≡ some v) × Meets c v) rows
      → (or_throw (head? rows) message w).0 ≡ ok wallet
      → IsChosen w b wallet
  unfolding throw pure
  first-IsChosen w b c message wallet p q r [] all h = ground arith
  first-IsChosen w b c message wallet p q r (v ∷ rows) all h = subst (IsChosen w b) (ok_inj h) (
    (all.0.0, subst (λ o. Sets o v.in_use) p all.0.1.in_use),
    subst (λ o. Sets o v.token.blockchain) q all.0.1.blockchain,
    subst (λ o. Sets o v.type) r all.0.1.type,
  )

  choose_source-IsChosen :
      (b : Blockchain) (w : World Db) (wallet : Wallet)
      → (choose_source_wallet orm e b w).0 ≡ ok wallet
      → IsChosen w b wallet
  unfolding choose_source_wallet Wallets.find_best_matched_one ◌>>=◌
  choose_source-IsChosen b w wallet h =
      first-IsChosen w b _ _ wallet refl refl refl _ (laws.find_wallets_rows w.db _ by_balance) h

  Holds-Leases :
      (r : CreateSwapRequest) (ip_address : String) (w v' : World Db) (token : Token)
      (wallet : Wallet) (swap : Swap)
      → (a : Admits orm e w r ip_address) → token ≡ a.source_token
      → IsChosen w token.blockchain wallet
      → Holds orm e token.blockchain w swap wallet v'
      → Leases orm e r w swap wallet v'
  Holds-Leases r ip_address w v' token wallet swap a same (free, in_chain, kind) h = record {
    row = h.row;
    new = h.new;
    was_free = free;
    in_use =
        h.wallets wallet.id
        ∙ laws.find_wallet-update_wallet w.db wallet.id wallet.id (partial_in_use true)
        ∙ rw (==_refl wallet.id) (ap (Option.map (assign_wallet (partial_in_use true))) free.0);
    source_token = token;
    source = a.source ∙ ap some (sym same);
    fits = (in_chain, kind);
    queued = h.queued;
  }

  create-Given :
      (r : CreateSwapRequest) (ip_address : String) (w : World Db)
      → Given
          (λ swap w'. (wallet : Wallet) × Leases orm e r w swap wallet w')
          (create_swap orm e r ip_address w)
  unfolding create_swap place_swap
  create-Given r ip_address w =
      Given-Reads _ _ _ w (check_request-Reads orm e r ip_address) λ checked p.
        let (admitted, same) =
          Given-ok (λ checked v. (a : Admits orm e w r ip_address) × (checked.0 ≡ a.source_token))
            (check_request orm e r ip_address w) checked (check_request-Given orm e r ip_address w)
            p in
        Given-Reads _ _ _ w (choose_destination-Reads orm e _ _) λ destination _.
          Given-Reads _ _ _ w (choose_collector-Reads orm e _) λ collector _.
            Given-Reads _ _ _ w (choose_source-Reads orm e _) λ wallet chosen.
              Given-weaken (λ swap w'. Holds orm e checked.0.blockchain w swap wallet w')
                (λ swap w'. (wallet : Wallet) × Leases orm e r w swap wallet w') _
                (λ swap w' h. (
                  wallet,
                  Holds-Leases r ip_address w w' checked.0 wallet swap admitted same
                      (choose_source-IsChosen _ w wallet chosen) h,
                ))
                (held-Given laws e w _ wallet _ refl)

  -- If an order succeeds, over a database that obeys the laws, its swap is new and pending, and
  -- has for its source a transferer in the source token's blockchain that was free and is in
  -- use now, and one job is added: in the queue of that blockchain, it looks for the swap's
  -- transfer there, from the latest block.
  pub create_swap-Leases :
      (r : CreateSwapRequest) (ip_address : String) (w : World Db) (swap : Swap)
      → (create_swap orm e r ip_address w).0 ≡ ok swap
      → (wallet : Wallet) × Leases orm e r w swap wallet (create_swap orm e r ip_address w).1
  create_swap-Leases r ip_address w swap h =
      Given-ok (λ swap w'. (wallet : Wallet) × Leases orm e r w swap wallet w')
        (create_swap orm e r ip_address w) swap (create-Given r ip_address w) h
