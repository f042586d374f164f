-- ===== src/Wallets/Pipes.antt =====
-- src/wallets/pipes: what is checked and encrypted before a request reaches the controller.
use eth_ton_swap.Common.{
  ℕ, String, Bool, true, false, ◌||◌, ◌==◌, Option, none, some, str_eq, Result, ok, err,
  if◌then◌else◌,
}
use eth_ton_swap.Common.Errors.{error_unacceptable_wallet_type, error_invalid_mnemonic}
use eth_ton_swap.Common.Fallible.{◌>>=◌}
use eth_ton_swap.Entities.{WalletType}
use eth_ton_swap.Env.{Env}
use eth_ton_swap.Wallets.Mnemonic.{word_count}

-- `CreateWalletDto` and `AttachWalletDto`
pub record CreateWalletRequest : Type 0 where
  pub token_id : ℕ
  pub type : WalletType

pub record AttachWalletRequest : Type 0 where
  pub token_id : ℕ
  pub secret_key : String
  pub mnemonic : Option String
  pub address : String
  pub conjugated_address : Option String
  pub type : WalletType

-- `[WalletType.Giver, WalletType.Minter].includes(type)`
abbrev is_kept_back : WalletType → Bool
is_kept_back WalletType.giver = true
is_kept_back WalletType.minter = true
is_kept_back _ = false

-- `CreateWalletPipe.transform`
unfoldable pub check_create : CreateWalletRequest → Result CreateWalletRequest
check_create r = if is_kept_back r.type then err error_unacceptable_wallet_type else ok r

abbrev pub is_mnemonic_length : ℕ → Bool
is_mnemonic_length n = n == 12 || (n == 15 || (n == 18 || (n == 21 || n == 24)))

module _ {Num Slice : Type 0} (e : Env Num Slice) where
  encrypted_mnemonic : Option String → Result (Option String)
  encrypted_mnemonic none = ok none
  encrypted_mnemonic (some text) =
      if str_eq text ""
      then ok (some text)
      else if is_mnemonic_length (word_count text)
      then (do encrypted ← e.encrypt_text text; ok (some encrypted))
      else err error_invalid_mnemonic

  -- `AttachWalletPipe.transform`
  unfoldable pub check_attach : AttachWalletRequest → Result AttachWalletRequest
  unfolding encrypted_mnemonic
  check_attach r = do
    secret_key ← e.encrypt_text r.secret_key
    mnemonic ← encrypted_mnemonic r.mnemonic
    ok (record r { secret_key = secret_key; mnemonic = mnemonic })
