-- ===== src/Bytes.antt =====
-- Python `bytes` as lists of numbers below 256, and what the programs use of `struct`: the fixed
-- little-endian fields that `unpack_from` reads at an offset.
use Prim.Native.Char.{code}
use native.Mathlib.Nat.{pow-succ'}
use Prim.Native.String.{String}
use e_bpf_based_kernel_ai_se.Prelude.{
  ℕ, zero, suc, ◌+◌, ◌*◌, ◌/◌, ◌%◌, ◌^◌, ◌<◌, ◌≡◌, refl, ap, ◌++◌, length, arith, List, [], ◌∷◌,
  Bool, true, false, ◌||◌, ◌&&◌, if◌then◌else◌, ◌==◌, take, drop, All,
}

abbrev pub IsBytes : List ℕ → Type 0
IsBytes = All (λ b. b < 256)

-- The unsigned number in the first `n` bytes, least significant byte first.
unfoldable pub little : ℕ → List ℕ → ℕ
little zero bs = 0
little (suc n) [] = 0
little (suc n) (b ∷ bs) = b + 256 * little n bs

unfoldable pub u16 : ℕ → List ℕ → ℕ
unfolding little
u16 off bs = little 2 (drop off bs)

unfoldable pub u32 : ℕ → List ℕ → ℕ
unfolding little
u32 off bs = little 4 (drop off bs)

unfoldable pub u64 : ℕ → List ℕ → ℕ
unfolding little
u64 off bs = little 8 (drop off bs)

-- `bs[off:off + n]`
abbrev pub slice : ℕ → ℕ → List ℕ → List ℕ
slice off n bs = take n (drop off bs)

-- `b"\0" in bs`
unfoldable pub has_nul : List ℕ → Bool
has_nul [] = false
has_nul (b ∷ bs) = (b == 0) || has_nul bs

-- `bs.split(b"\0", 1)[0]`: the bytes before the first NUL, or all of them.
unfoldable pub until_nul : List ℕ → List ℕ
until_nul [] = []
until_nul (b ∷ bs) = let rest = until_nul bs in if b == 0 then [] else b ∷ rest

-- The bytes of an ASCII text.
unfoldable pub bytes_of : String → List ℕ
bytes_of String.[] = []
bytes_of (String.◌∷◌ c s) = code c ∷ bytes_of s

-- `struct.pack` of one unsigned field of `n` bytes.
unfoldable pub little_endian : ℕ → ℕ → List ℕ
little_endian zero v = []
little_endian (suc n) v = v % 256 ∷ little_endian n (v / 256)

-- A number that fits in `n` bytes is read back.
pub little-little_endian :
    (n v : ℕ) (rest : List ℕ) → v < 256 ^ n → little n (little_endian n v ++ rest) ≡ v
unfolding little little_endian
little-little_endian zero v rest h = omega arith
little-little_endian (suc n) v rest h =
    omega (arith, little-little_endian n (v / 256) rest (omega (arith, pow-succ' 256 n)))

pub length-little_endian : (n v : ℕ) → length (little_endian n v) ≡ n
unfolding little_endian
length-little_endian zero v = refl
length-little_endian (suc n) v = ap suc (length-little_endian n (v / 256))

unfoldable pub same_bytes : List ℕ → List ℕ → Bool
same_bytes [] [] = true
same_bytes [] (b ∷ bs) = false
same_bytes (a ∷ as') [] = false
same_bytes (a ∷ as') (b ∷ bs) = (a == b) && same_bytes as' bs
