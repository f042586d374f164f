-- ===== src/Wallets/Mnemonic/Words.antt =====
-- Words that were joined are split again.
use Prim.Native.Char.{code}
use Prim.Native.String.{◌++◌}
use text.Mathlib.TextLemmas.{nil-append, cons-append}
use eth_ton_swap.Common.{String, false, List, [], ◌∷◌, ◌==◌, ◌≡◌, refl, ap, ◌∙◌, All}
use eth_ton_swap.Wallets.Mnemonic.{joined, split_space, prepend}

-- no character is a space
abbrev pub IsWord : String → Type 0
IsWord String.[] = Unit {0}
IsWord (String.◌∷◌ c s) = ((code c == b' ') ≡ false) × IsWord s

-- the words of a text that begins with a word and a space
split_space-word :
    (word rest : String)
    → IsWord word
    → split_space (word ++ (" " ++ rest)) ≡ (word ∷ split_space rest)
unfolding split_space
split_space-word String.[] rest h = rw (nil-append, cons-append " " String.[] rest, nil-append) refl
split_space-word (String.◌∷◌ c word) rest h =
    rw (cons-append c word (" " ++ rest)) (rw h.0 (ap (prepend c) (split_space-word word rest h.1)))

split_space_one : (word : String) → IsWord word → split_space word ≡ (word ∷ [])
unfolding split_space
split_space_one String.[] h = refl
split_space_one (String.◌∷◌ c word) h = rw h.0 (ap (prepend c) (split_space_one word h.1))

pub split_space-joined :
    (word : String) (words : List String)
    → IsWord word
    → All IsWord words
    → split_space (joined (word ∷ words)) ≡ (word ∷ words)
split_space-joined word [] h hs = split_space_one word h
split_space-joined word (next ∷ words) h hs =
    split_space-word word (joined (next ∷ words)) h
    ∙ ap (λ (ws : List String). word ∷ ws) (split_space-joined next words hs.0 hs.1)
