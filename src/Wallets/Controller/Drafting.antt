-- ===== src/Wallets/Controller/Drafting.antt =====
-- The columns of a wallet of a random key: src/wallets/providers/wallets.repository.ts.
use eth_ton_swap.Common.{String, true, false, none, some, ok, ok_inj, ◌≡◌, subst, strip_hex_prefix}
use eth_ton_swap.Common.Fallible.{bind_ok}
use eth_ton_swap.Entities.{Blockchain, ethereum, ton, WalletType, Token}
use eth_ton_swap.Database.{WalletDraft}
use eth_ton_swap.Env.{Env, RandomWallet, RandomKey}
use eth_ton_swap.Ethereum
use eth_ton_swap.Ton.Blockchain.{normalize_address}
use eth_ton_swap.Ton.Contract.{get_jetton_wallet_address}
use eth_ton_swap.Wallets.Mnemonic.{joined}
use eth_ton_swap.Wallets.Repository.{created_draft}

module _ {Num Slice : Type 0} (e : Env Num Slice) (type : WalletType) (token : Token) where
  -- The wallet is of the random key that was answered: its addresses are normalized, its key and
  -- its words encrypted, the key without a prefix.
  pub data Drafts : Blockchain → WalletDraft → Type 0 where
    in_ethereum :
        (random : RandomWallet) (address secret_key mnemonic : String)
        → e.eth.create_random_wallet ≡ ok random
        → Ethereum.normalize_address e random.address ≡ ok address
        → e.encrypt_text (strip_hex_prefix random.private_key) ≡ ok secret_key
        → e.encrypt_text random.phrase ≡ ok mnemonic
        → Drafts ethereum (record {
          type = type;
          token = token;
          address = address;
          conjugated_address = none;
          secret_key = secret_key;
          mnemonic = some mnemonic;
          balance = none;
          deployed = true;
          in_use = false;
          disabled = false;
        })
    in_ton :
        (random : RandomKey) (own address jetton_wallet named secret_key mnemonic : String)
        → e.ton.generate_key ≡ ok random
        → e.ton.wallet_address random.secret_key ≡ ok own
        → normalize_address e own ≡ ok address
        → get_jetton_wallet_address e token.address address ≡ ok jetton_wallet
        → normalize_address e jetton_wallet ≡ ok named
        → e.encrypt_text random.secret_key ≡ ok secret_key
        → e.encrypt_text (joined random.words) ≡ ok mnemonic
        → Drafts ton (record {
          type = type;
          token = token;
          address = address;
          conjugated_address = some named;
          secret_key = secret_key;
          mnemonic = some mnemonic;
          balance = none;
          deployed = false;
          in_use = false;
          disabled = false;
        })

  pub created_draft-Drafts :
      (b : Blockchain) (draft : WalletDraft)
      → created_draft e type token b ≡ ok draft
      → Drafts b draft
  unfolding created_draft
  created_draft-Drafts ethereum draft h =
      let (random, p, h₁) = bind_ok e.eth.create_random_wallet _ draft h in
      let (address, q, h₂) = bind_ok (Ethereum.normalize_address e random.address) _ draft h₁ in
      let (secret_key, r, h₃) =
        bind_ok (e.encrypt_text (strip_hex_prefix random.private_key)) _ draft h₂ in
      let (mnemonic, s, given) = bind_ok (e.encrypt_text random.phrase) _ draft h₃ in
      subst (Drafts ethereum) (ok_inj given)
        (in_ethereum random address secret_key mnemonic p q r s)
  created_draft-Drafts ton draft h =
      let (random, p, h₁) = bind_ok e.ton.generate_key _ draft h in
      let (own, q, h₂) = bind_ok (e.ton.wallet_address random.secret_key) _ draft h₁ in
      let (address, r, h₃) = bind_ok (normalize_address e own) _ draft h₂ in
      let (jetton_wallet, s, h₄) =
        bind_ok (get_jetton_wallet_address e token.address address) _ draft h₃ in
      let (named, t, h₅) = bind_ok (normalize_address e jetton_wallet) _ draft h₄ in
      let (secret_key, u, h₆) = bind_ok (e.encrypt_text random.secret_key) _ draft h₅ in
      let (mnemonic, v, given) = bind_ok (e.encrypt_text (joined random.words)) _ draft h₆ in
      subst (Drafts ton) (ok_inj given)
        (in_ton random own address jetton_wallet named secret_key mnemonic p q r s t u v)
