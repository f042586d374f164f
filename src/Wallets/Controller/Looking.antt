-- ===== src/Wallets/Controller/Looking.antt =====
-- What attaching a wallet looks up and normalizes:
-- src/wallets/controllers/wallets.controller.ts and src/wallets/providers/wallets.repository.ts.
use Prim.Native.String.{◌++◌}
use text.Mathlib.TextEquality.{eq_iff}
use mathlib.Core.Option
use eth_ton_swap.Common.{
  ℕ, String, true, false, str_eq, Bool-cases, Option, none, some, Result-cases, ok, err, ok_inj,
  ◌≡◌, ◌≢◌, refl, sym, ap, ◌∙◌, subst, inl, inr, strip_hex_prefix, arith,
}
use eth_ton_swap.Common.Fallible.{bind_ok}
use eth_ton_swap.Common.Number.{quantity_to_text}
use eth_ton_swap.Entities.{Blockchain, ethereum, ton, WalletType, Token}
use eth_ton_swap.Database.{WalletDraft}
use eth_ton_swap.Env.{Env}
use eth_ton_swap.Ethereum.{TokenContract}
use eth_ton_swap.Ton.Blockchain.{normalize_address, address_text, non_empty}
use eth_ton_swap.Ton.Contract.{JettonWalletData, get_jetton_wallet_address, get_jetton_wallet_data}
use eth_ton_swap.Wallets.Repository.{attached_addresses, attached_draft}
use eth_ton_swap.Wallets.Pipes.{AttachWalletRequest}
use eth_ton_swap.Wallets.Controller.{is_minter, conjugated, jetton_balance, looked_up, attached}

module _ {Num Slice : Type 0} (e : Env Num Slice) where
  -- The conjugated address of a wallet in TON: for a minter, and where the client throws, the one
  -- that was sent, and otherwise that of the jetton wallet.
  pub data Conjugates (r : AttachWalletRequest) (token : Token) : Option String → Type 0 where
    as_minter : r.type ≡ WalletType.minter → Conjugates r token r.conjugated_address
    derived :
        (jetton_wallet : String)
        → r.type ≢ WalletType.minter
        → get_jetton_wallet_address e token.address r.address ≡ ok jetton_wallet
        → Conjugates r token (some jetton_wallet)
    not_derived :
        (message : String)
        → r.type ≢ WalletType.minter
        → get_jetton_wallet_address e token.address r.address ≡ err message
        → Conjugates r token r.conjugated_address

  -- The balance of a jetton wallet, zero if there is none or the client throws.
  pub data JettonBalance : Option String → Num → Type 0 where
    nowhere : JettonBalance none (e.big.parse "0")
    empty_text : JettonBalance (some "") (e.big.parse "0")
    shown :
        (jetton_wallet : String) (info : JettonWalletData Num)
        → get_jetton_wallet_data e jetton_wallet ≡ ok info
        → JettonBalance (some jetton_wallet) info.balance
    hidden :
        (jetton_wallet message : String)
        → get_jetton_wallet_data e jetton_wallet ≡ err message
        → JettonBalance (some jetton_wallet) (e.big.parse "0")

  -- What is looked up: in Ethereum the balance that the token's contract answers for the address
  -- that was sent, in TON the jetton wallet and its balance.
  pub data LooksUp (r : AttachWalletRequest) (token : Token)
      : Blockchain → Option String → Num → Type 0 where
    in_ethereum :
        (key signer : String) (units : ℕ)
        → e.decrypt_text r.secret_key ≡ ok key
        → e.eth.create_wallet ("0x" ++ key) ≡ ok signer
        → e.eth.balance_of ("0x" ++ token.address) ("0x" ++ r.address) ≡ ok units
        → LooksUp r token ethereum r.conjugated_address
            (e.big.parse (e.eth.format_units units token.decimals))
    in_ton :
        (conjugated_address : Option String) (balance : Num)
        → Conjugates r token conjugated_address
        → JettonBalance conjugated_address balance
        → LooksUp r token ton conjugated_address balance

  -- The addresses that are stored: in Ethereum the own one, checked and without its prefix, and no
  -- conjugated one, in TON both, as tonweb writes them.
  pub data Normalizes (address : String)
      : Blockchain → Option String → String → Option String → Type 0 where
    in_ethereum :
        (conjugated_address : Option String) (checked : String)
        → e.eth.get_address address ≡ ok checked
        → Normalizes address ethereum conjugated_address (strip_hex_prefix checked) none
    in_ton :
        (conjugated_address : Option String) (own text named : String)
        → normalize_address e address ≡ ok own
        → address_text conjugated_address ≡ ok text
        → normalize_address e text ≡ ok named
        → Normalizes address ton conjugated_address own (some named)

  minter_is : (type : WalletType) → is_minter type ≡ true → type ≡ WalletType.minter
  minter_is WalletType.minter h = refl
  minter_is WalletType.transferer h = ground (arith, h)
  minter_is WalletType.collector h = ground (arith, h)
  minter_is WalletType.giver h = ground (arith, h)

  minter_is_not : (type : WalletType) → is_minter type ≡ false → type ≢ WalletType.minter
  minter_is_not type h p = (let bad = sym h ∙ ap is_minter p in cc)

  conjugated-Conjugates :
      (r : AttachWalletRequest) (token : Token) → Conjugates r token (conjugated e r token)
  conjugated-Conjugates r token = elim (Bool-cases (is_minter r.type)) [
    | inl is ↦ rw is (as_minter (minter_is r.type is))
    | inr is_not ↦
        rw is_not (elim (Result-cases (get_jetton_wallet_address e token.address r.address)) [
          | inl (address, p) ↦ rw p (derived address (minter_is_not r.type is_not) p)
          | inr (m, p) ↦ rw p (not_derived m (minter_is_not r.type is_not) p)
        ])
  ]

  balance-JettonBalance :
      (address : Option String)
      → JettonBalance address (jetton_balance e (Option.bind address non_empty))
  unfolding Option.bind
  balance-JettonBalance none = nowhere
  balance-JettonBalance (some address) = elim (Bool-cases (str_eq address "")) [
    | inl empty ↦
        subst (λ a. JettonBalance (some a) (jetton_balance e (non_empty address)))
          (sym ((eq_iff address "").0 empty)) (rw empty empty_text)
    | inr filled ↦ rw filled (elim (Result-cases (get_jetton_wallet_data e address)) [
      | inl (info, p) ↦ rw p (shown address info p)
      | inr (m, p) ↦ rw p (hidden address m p)
    ])
  ]

  pub looked_up-LooksUp :
      (r : AttachWalletRequest) (token : Token) (b : Blockchain) (seen : Option String × Num)
      → looked_up e r token b ≡ ok seen
      → LooksUp r token b seen.0 seen.1
  looked_up-LooksUp r token ethereum seen h =
      let (contract, made, rest) = bind_ok _ _ seen h in
      let (key, opened, built) = bind_ok (e.decrypt_text r.secret_key) _ contract made in
      let (signer, signs, named) = bind_ok (e.eth.create_wallet ("0x" ++ key)) _ contract built in
      let (balance, asked, given) = bind_ok _ _ seen rest in
      let (units, counted, read) =
        bind_ok (e.eth.balance_of contract.address ("0x" ++ r.address)) _ balance asked in
      let own = ap (λ (x : TokenContract). x.address) (ok_inj named) in
      subst (λ (s : Option String × Num). LooksUp r token ethereum s.0 s.1)
        (ap (λ n. (r.conjugated_address, n)) (ok_inj read) ∙ ok_inj given)
        (LooksUp.in_ethereum key signer units opened signs
          (ap (λ a. e.eth.balance_of a ("0x" ++ r.address)) own ∙ counted))
  looked_up-LooksUp r token ton seen h =
      subst (λ (s : Option String × Num). LooksUp r token ton s.0 s.1) (ok_inj h)
        (LooksUp.in_ton _ _ (conjugated-Conjugates r token) (balance-JettonBalance _))

  attached_addresses-Normalizes :
      (address : String) (b : Blockchain) (conjugated_address : Option String)
      (addresses : String × Option String)
      → attached_addresses e b address conjugated_address ≡ ok addresses
      → Normalizes address b conjugated_address addresses.0 addresses.1
  attached_addresses-Normalizes address ethereum conjugated_address addresses h =
      let (own, normal, given) = bind_ok _ _ addresses h in
      let (checked, answered, stripped) = bind_ok (e.eth.get_address address) _ own normal in
      subst (λ (x : String × Option String). Normalizes address ethereum conjugated_address x.0 x.1)
        (ap (λ o. (o, none)) (ok_inj stripped) ∙ ok_inj given)
        (Normalizes.in_ethereum conjugated_address checked answered)
  attached_addresses-Normalizes address ton conjugated_address addresses h =
      let (own, normal, rest) = bind_ok (normalize_address e address) _ addresses h in
      let (text, there, last) = bind_ok (address_text conjugated_address) _ addresses rest in
      let (named, second, given) = bind_ok (normalize_address e text) _ addresses last in
      subst (λ (x : String × Option String). Normalizes address ton conjugated_address x.0 x.1)
        (ok_inj given) (Normalizes.in_ton conjugated_address own text named normal there second)

  -- the columns that `attach` gives to `save`
  abbrev pub columns : AttachWalletRequest → Token → Num → String → Option String → WalletDraft
  columns r token balance own named = record {
    type = r.type;
    token = token;
    address = own;
    conjugated_address = named;
    secret_key = r.secret_key;
    mnemonic = r.mnemonic;
    balance = some (e.big.to_fixed balance token.decimals);
    deployed = true;
    in_use = false;
    disabled = false;
  }

  pub attached_draft-Normalizes :
      (r : AttachWalletRequest) (token : Token) (conjugated_address : Option String) (balance : Num)
      (draft : WalletDraft)
      → attached_draft e (attached e r token conjugated_address balance) ≡ ok draft
      → (own : String) × (named : Option String) × Normalizes r.address token.blockchain
          conjugated_address own named
        × (columns r token balance own named ≡ draft)
  unfolding attached_draft quantity_to_text
  attached_draft-Normalizes r token conjugated_address balance draft h =
      let (addresses, normal, given) =
        bind_ok (attached_addresses e token.blockchain r.address conjugated_address) _ draft h in
      (
        addresses.0,
        addresses.1,
        attached_addresses-Normalizes r.address token.blockchain conjugated_address addresses
            normal,
        ok_inj given,
      )
