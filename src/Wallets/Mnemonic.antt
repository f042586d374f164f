-- ===== src/Wallets/Mnemonic.antt =====
-- The words of a mnemonic: the texts that src/wallets joins and splits.
pub mod Words
use Prim.Native.Char.{Char, code}
use Prim.Native.String.{◌++◌}
use eth_ton_swap.Common.{
  ℕ, ◌+◌, String, Bool, true, false, ◌&&◌, ◌||◌, not, List, [], ◌∷◌, ◌==◌, ltb, if◌then◌else◌,
}

-- `words.join(" ")`
abbrev pub joined : List String → String
joined [] = ""
joined (word ∷ []) = word
joined (word ∷ words) = word ++ (" " ++ joined words)

abbrev prepend : Char → List String → List String
prepend c [] = String.◌∷◌ c String.[] ∷ []
prepend c (word ∷ words) = String.◌∷◌ c word ∷ words

-- `text.split(" ")`
unfoldable pub split_space : String → List String
split_space String.[] = "" ∷ []
split_space (String.◌∷◌ c s) =
    let rest = split_space s in if code c == b' ' then "" ∷ rest else prepend c rest

-- the white space of a regular expression, `\s`
abbrev is_space : ℕ → Bool
is_space c =
    c == 32
    || ((not (ltb c 9) && ltb c 14)
        || (c == 160
            || (c == 5760
                || ((not (ltb c 8192) && ltb c 8203)
                    || (c == 8232
                        || (c == 8233
                            || (c == 8239 || (c == 8287 || (c == 12288 || c == 65279)))))))))

-- how often white space begins, after a character that was white space or not
spaces : Bool → String → ℕ
spaces inside String.[] = 0
spaces inside (String.◌∷◌ c s) =
    let here = is_space (code c) in (if here && not inside then 1 else 0) + spaces here s

-- the length of `text.split(/\s+/)`
unfoldable pub word_count : String → ℕ
unfolding spaces
word_count s = spaces false s + 1
