-- ===== src/Wallets/Controller/Mnemonics.antt =====
-- The mnemonic of a new wallet, from src/wallets/providers/wallets.repository.ts to the answer of
-- src/wallets/controllers/wallets.controller.ts.
use eth_ton_swap.Common.{
  String, some, List, ◌∷◌, Result-cases, inl, inr, arith, ok, ok_inj, ◌≡◌, sym, ap, ◌∙◌, All, subst,
}
use mathlib.Core.Option
use mathlib.Core.Option.{some_inj}
use eth_ton_swap.Entities.{ton, WalletType, Token, Wallet}
use eth_ton_swap.Database.{Orm, OrmLaws, WalletDraft}
use eth_ton_swap.World.{World}
use eth_ton_swap.Env.{Env, RandomKey}
use eth_ton_swap.Ton.Blockchain.{non_empty}
use eth_ton_swap.Wallets.Mnemonic.{joined, split_space}
use eth_ton_swap.Wallets.Mnemonic.Words.{IsWord, split_space-joined}
use eth_ton_swap.Wallets.Repository.{created_draft}
use eth_ton_swap.Wallets.Pipes.{CreateWalletRequest}
use eth_ton_swap.Wallets.Controller.{GetWallet, to_get_wallet, create_wallet}
use eth_ton_swap.Wallets.Controller.Creating.{create_wallet-Creates}

module _ {Num Slice : Type 0} (e : Env Num Slice) where
  -- what node's ciphers promise
  pub record Ciphers : Type 0 where
    pub inverse :
        (text secret : String) → e.encrypt_text text ≡ ok secret → e.decrypt_text secret ≡ ok text
    pub some_text :
        (text secret : String) → e.encrypt_text text ≡ ok secret → non_empty secret ≡ some secret

  drafted_mnemonic :
      (type : WalletType) (token : Token) (draft : WalletDraft) (key : RandomKey)
      → e.ton.generate_key ≡ ok key
      → created_draft e type token ton ≡ ok draft
      → (secret : String) × (e.encrypt_text (joined key.words) ≡ ok secret)
        × (draft.mnemonic ≡ some secret)
  unfolding created_draft
  drafted_mnemonic type token draft key random drafted =
      elim (Result-cases (e.encrypt_text (joined key.words))) [
        | inl (secret, h) ↦ (secret, h, ground arith)
        | inr (m, h) ↦ ground arith
      ]

  shown_mnemonic :
      (wallet : Wallet) (text secret : String) (answer : GetWallet)
      → Ciphers
      → wallet.mnemonic ≡ some secret
      → e.encrypt_text text ≡ ok secret
      → to_get_wallet e wallet ≡ ok answer
      → answer.mnemonic ≡ some (split_space text)
  unfolding to_get_wallet Option.bind
  shown_mnemonic wallet text secret answer ciphers stored encrypted shown =
      let plain =
        rw (stored, ciphers.some_text text secret encrypted, ciphers.inverse text secret encrypted)
          at shown in
      sym (ap (λ (a : GetWallet). a.mnemonic) (ok_inj plain))

module _ {Db Num Slice : Type 0} {orm : Orm Db} (laws : OrmLaws orm) (e : Env Num Slice) where
  -- If createWallet returns for a token of TON, the client made a key of at least one word
  -- without a space in any, and decryption inverts encryption, which gives no empty text, the
  -- answer shows the words of the key in their order. This is over a database that obeys the
  -- laws.
  pub create_wallet_shows :
      (r : CreateWalletRequest) (w : World Db) (answer : GetWallet) (token : Token)
      (key : RandomKey) (word : String) (words : List String)
      → Ciphers e
      → orm.find_token w.db r.token_id ≡ some token
      → token.blockchain ≡ ton
      → e.ton.generate_key ≡ ok key
      → key.words ≡ (word ∷ words)
      → All IsWord (word ∷ words)
      → (create_wallet orm e r w).0 ≡ ok answer
      → answer.mnemonic ≡ some (word ∷ words)
  create_wallet_shows r w answer token key word words ciphers found in_ton random spelt clean
        returned =
      let c = create_wallet-Creates laws e r w answer returned in
      let same = some_inj.0 (sym c.token_found ∙ found) in
      let drafted =
        subst (λ b. created_draft e r.type c.token b ≡ ok c.created.draft)
          (ap (λ (t : Token). t.blockchain) same ∙ in_ton) c.created.drafted in
      let (secret, encrypted, kept) =
        drafted_mnemonic e r.type c.token c.created.draft key random drafted in
      shown_mnemonic e c.wallet (joined key.words) secret answer ciphers
        (c.created.stored.returned.mnemonic ∙ kept) encrypted c.answered
      ∙ ap some
          (ap (λ ws. split_space (joined ws)) spelt ∙ split_space-joined word words clean.0 clean.1)
