-- ===== src/Behavior/Regex.antt =====
-- The part of Python's `re` that the credential pattern uses: `fullmatch` over sequences,
-- alternatives, repetition, single characters and one negated character class, by derivatives.
use Prim.Native.Char.{code}
use Prim.Native.String.{String}
use e_bpf_based_kernel_ai_se.Prelude.{
  ℕ, List, [], ◌∷◌, Bool, true, false, ◌&&◌, ◌||◌, if◌then◌else◌, ◌==◌,
}

infixr 60 ◌then◌
infixr 55 ◌or◌
pub data Regex : Type 0 where
  never : Regex
  empty : Regex
  char : ℕ → Regex
  char_but : ℕ → Regex
  ◌then◌ : Regex → Regex → Regex
  ◌or◌ : Regex → Regex → Regex
  many : Regex → Regex

unfoldable pub nullable : Regex → Bool
nullable never = false
nullable empty = true
nullable (char c) = false
nullable (char_but c) = false
nullable (r then s) = nullable r && nullable s
nullable (r or s) = nullable r || nullable s
nullable (many r) = true

-- The rest of a match after the character `c`.
unfoldable pub derive : ℕ → Regex → Regex
derive c never = never
derive c empty = never
derive c (char d) = if d == c then empty else never
derive c (char_but d) = if d == c then never else empty
derive c (r then s) =
    let first = derive c r then s in
    let second = derive c s in if nullable r then first or second else first
derive c (r or s) = derive c r or derive c s
derive c (many r) = derive c r then many r

unfoldable pub fullmatch : Regex → List ℕ → Bool
unfolding nullable derive
fullmatch r [] = nullable r
fullmatch r (c ∷ cs) = fullmatch (derive c r) cs

-- One or more.
abbrev pub some_of : Regex → Regex
some_of r = r then many r

unfoldable pub text : String → Regex
text String.[] = empty
text (String.◌∷◌ c s) = char (code c) then text s
