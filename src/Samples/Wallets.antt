-- ===== src/Samples/Wallets.antt =====
-- Wallets with givers, their jobs and the requests on them, for the tests.
use text.Mathlib.TextEquality.{eq_iff}
use eth_ton_swap.Common.{
  ℕ, String, true, false, Option, none, some, [], ◌∷◌, Result, ok, err, ok_inj, Bool, Bool-cases,
  inl, inr, str_eq, ap, ◌≡◌, refl, subst,
}
use eth_ton_swap.Entities.{ethereum, ton, transferer, giver, Wallet}
use eth_ton_swap.World.{World, WalletJob, WalletJobData}
use eth_ton_swap.Env.{Env}
use eth_ton_swap.Ton.Blockchain.{non_empty}
use eth_ton_swap.Tokens.Dto.{to_get_public_token}
use eth_ton_swap.Wallets.Jobs.{wallet_job}
use eth_ton_swap.Wallets.Pipes.{CreateWalletRequest, AttachWalletRequest}
use eth_ton_swap.Wallets.Controller.{GetWallet, UpdateWalletRequest}
use eth_ton_swap.Wallets.Controller.Mnemonics.{Ciphers}
use eth_ton_swap.Samples.{Tables}
use eth_ton_swap.Samples.Chain.{env_at}
use eth_ton_swap.Samples.Rows.{numbered, token_in, wallet_of, empty_world}

abbrev pub paying : ℕ → Option Wallet
paying = numbered (
    wallet_of 1 ethereum transferer "w1"
    ∷ wallet_of 2 ton transferer "w2"
    ∷ wallet_of 3 ton giver "w3"
    ∷ [])

abbrev pub giving_world : World Tables
giving_world = record empty_world {
  db = record empty_world.db { wallets = paying; wallet_ids = 1 ∷ 2 ∷ 3 ∷ [] };
}

-- the same without the giver
abbrev pub no_giver_world : World Tables
no_giver_world = record giving_world { db = record giving_world.db { wallet_ids = 1 ∷ 2 ∷ [] } }

abbrev pub create_request : CreateWalletRequest
create_request = record { token_id = 2; type = transferer }

abbrev pub update_request : UpdateWalletRequest
update_request = record {
  mnemonic = none;
  conjugated_address = none;
  balance = some "7";
  type = none;
  deployed = some false;
  in_use = none;
  disabled = none;
}

-- ciphers that put a letter in front
abbrev opened : String → Result String
opened String.[] = err "Invalid text"
opened (String.◌∷◌ c s) = ok s

abbrev pub sealing_env : Env ℕ (Unit {0})
sealing_env = record (env_at 5 100) {
  encrypt_text = λ s. ok (String.◌∷◌ "x" s);
  decrypt_text = opened;
}

abbrev begins : String → Bool
begins String.[] = false
begins (String.◌∷◌ c s) = true

not_empty : (text : String) → begins text ≡ true → non_empty text ≡ some text
not_empty text h = elim (Bool-cases (str_eq text "")) [
  | inl empty ↦ (let same = ap begins ((eq_iff text "").0 empty) in cc)
  | inr filled ↦ rw filled refl
]

pub sealing_ciphers : Ciphers sealing_env
sealing_ciphers = record {
  inverse = λ text secret h. subst (λ s. opened s ≡ ok text) (ok_inj h) refl;
  some_text = λ text secret h.
      subst (λ s. non_empty s ≡ some s) (ok_inj h) (not_empty (String.◌∷◌ "x" text) refl);
}

-- the answer that shows the wallet made of the sample key
abbrev pub new_answer : GetWallet
new_answer = record {
  id = 7;
  address = "secret";
  mnemonic = some ("one" ∷ "two" ∷ []);
  conjugated_address = some "secret";
  balance = none;
  type = transferer;
  token = to_get_public_token (token_in ton 2);
  deployed = false;
  is_use = false;
  disabled = false;
  created_at = 0;
}

abbrev pub attach_request : AttachWalletRequest
attach_request = record {
  token_id = 2;
  secret_key = "xkey";
  mnemonic = none;
  address = "w9";
  conjugated_address = none;
  type = transferer;
}

abbrev pub attached_answer : GetWallet
attached_answer = record new_answer {
  address = "w9";
  mnemonic = none;
  conjugated_address = some "w9";
  balance = some "3";
  deployed = true;
}

abbrev pub confirming_job : WalletJob
confirming_job = wallet_job (WalletJobData.confirm_wallet_deploy 2) none

abbrev pub deploying_world : World Tables
deploying_world = record giving_world {
  wallet_jobs = wallet_job (WalletJobData.deploy_wallet 2) none ∷ [];
}
