-- ===== src/Samples/Struct.antt =====
-- generate-handoff-samples.py: what the generator uses of `struct.pack`, with its error. The numbers that go
-- into unsigned fields are natural numbers.
use e_bpf_based_kernel_ai_se.Prelude.{
  ℕ, suc, ◌+◌, ◌-◌, ◌*◌, ◌^◌, ◌<◌, ◌≡◌, refl, List, [], ◌∷◌, ◌++◌, Bool, true, false, if◌then◌else◌,
  ltb, all, All, length, take, replicate, arith, length-append, length-take, length-replicate,
  Bool-cases, inl, inr,
}
use e_bpf_based_kernel_ai_se.Bytes.{little_endian, length-little_endian}
use e_bpf_based_kernel_ai_se.Decoder.Event.{ℤ, pos, negsuc}

pub data Error : Type 0 where
  struct_error : Error
  value_error : Error

pub data Made (A : Type 0) : Type 0 where
  made : A → Made A
  raised : Error → Made A

abbrev pub and_then : {A B : Type 0} → Made A → (A → Made B) → Made B
and_then (made a) k = k a
and_then (raised e) k = raised e

abbrev pub map_made : {A B : Type 0} → (A → B) → Made A → Made B
map_made f (made a) = made (f a)
map_made f (raised e) = raised e

-- A field of a format with its value: `B`, `H`, `I` and `Q` of 1, 2, 4 and 8 bytes, `i` and `q` of 4 and 8
-- bytes, `s`, and the padding `x`.
pub data Field : Type 0 where
  unsigned : ℕ → ℕ → Field
  signed : ℕ → ℤ → Field
  text : ℕ → List ℕ → Field
  padding : ℕ → Field

-- A signed number of `n` bytes that fits.
unfoldable pub two_complement : ℕ → ℤ → List ℕ
two_complement n (pos v) = little_endian n v
two_complement n (negsuc v) = little_endian n (2 ^ (8 * n) - suc v)

unfoldable pub fits : Field → Bool
fits (unsigned n v) = ltb v (256 ^ n)
fits (signed n (pos v)) = ltb v (2 ^ (8 * n - 1))
fits (signed n (negsuc v)) = ltb v (2 ^ (8 * n - 1))
fits (text n bs) = true
fits (padding n) = true

unfoldable pub field_bytes : Field → List ℕ
unfolding two_complement
field_bytes (unsigned n v) = little_endian n v
field_bytes (signed n z) = two_complement n z
field_bytes (text n bs) = take n bs ++ replicate (n - length bs) 0
field_bytes (padding n) = replicate n 0

unfoldable pub layout : List Field → List ℕ
unfolding field_bytes
layout [] = []
layout (f ∷ fs) = field_bytes f ++ layout fs

-- `Struct.pack`: a number out of its range is a `struct.error`.
unfoldable pub pack : List Field → Made (List ℕ)
unfolding fits layout
pack fs = if all fits fs then made (layout fs) else raised struct_error

-- `-bound <= z < bound`
abbrev pub Within : ℕ → ℤ → Type 0
Within bound (pos v) = v < bound
Within bound (negsuc v) = v < bound

abbrev pub Fits : Field → Type 0
Fits (unsigned n v) = v < 256 ^ n
Fits (signed n z) = Within (2 ^ (8 * n - 1)) z
Fits (text n bs) = Unit
Fits (padding n) = Unit

Fits-fits : (f : Field) → Fits f → fits f ≡ true
unfolding fits
Fits-fits (unsigned n v) h = ground arith
Fits-fits (signed n (pos v)) h = ground arith
Fits-fits (signed n (negsuc v)) h = ground arith
Fits-fits (text n bs) h = refl
Fits-fits (padding n) h = refl

fits-Fits : (f : Field) → fits f ≡ true → Fits f
unfolding fits
fits-Fits (unsigned n v) h = ground arith
fits-Fits (signed n (pos v)) h = ground arith
fits-Fits (signed n (negsuc v)) h = ground arith
fits-Fits (text n bs) h = tt
fits-Fits (padding n) h = tt

all-fits : (fs : List Field) → All Fits fs → all fits fs ≡ true
all-fits [] h = refl
all-fits (f ∷ fs) h = ground (arith, Fits-fits f h.0, all-fits fs h.1)

All-fits : (fs : List Field) → all fits fs ≡ true → All Fits fs
All-fits [] h = tt
All-fits (f ∷ fs) h = (fits-Fits f (ground arith), All-fits fs (ground arith))

pub pack-made : (fs : List Field) → All Fits fs → pack fs ≡ made (layout fs)
unfolding pack
pack-made fs h = rw (all-fits fs h) refl

-- What is packed fits.
pub pack-Fits : (fs : List Field) (bs : List ℕ) → pack fs ≡ made bs → All Fits fs × (layout fs ≡ bs)
unfolding pack
pack-Fits fs bs h = elim (Bool-cases (all fits fs)) [
  | inl e ↦ (All-fits fs e, if_made (all fits fs) (layout fs) bs e h)
  | inr e ↦ absurd (if_raised (all fits fs) (layout fs) bs e h)
]
  where
    if_made :
        (b : Bool) (x y : List ℕ)
        → b ≡ true
        → (if b then made x else raised struct_error) ≡ made y
        → x ≡ y
    if_made b x y e h = ground arith

    if_raised :
        (b : Bool) (x y : List ℕ)
        → b ≡ false
        → (if b then made x else raised struct_error) ≡ made y
        → ⊥
    if_raised b x y e h = ground arith

-- Packing raises nothing but a `struct.error`.
pub pack-raised : (fs : List Field) (e : Error) → pack fs ≡ raised e → e ≡ struct_error
unfolding pack
pack-raised fs e h = one_error (all fits fs) (layout fs) e h
  where
    one_error :
        (b : Bool) (x : List ℕ) (e : Error)
        → (if b then made x else raised struct_error) ≡ raised e
        → e ≡ struct_error
    one_error b x e h = ground arith

abbrev pub field_size : Field → ℕ
field_size (unsigned n v) = n
field_size (signed n z) = n
field_size (text n bs) = n
field_size (padding n) = n

abbrev pub size_of : List Field → ℕ
size_of [] = 0
size_of (f ∷ fs) = field_size f + size_of fs

two_complement-length : (n : ℕ) (z : ℤ) → length (two_complement n z) ≡ n
unfolding two_complement
two_complement-length n (pos v) = length-little_endian n v
two_complement-length n (negsuc v) = length-little_endian n (2 ^ (8 * n) - suc v)

field_bytes-length : (f : Field) → length (field_bytes f) ≡ field_size f
unfolding field_bytes
field_bytes-length (unsigned n v) = length-little_endian n v
field_bytes-length (signed n z) = two_complement-length n z
field_bytes-length (text n bs) = omega (
  arith,
  length-append (take n bs) (replicate (n - length bs) 0),
  length-take n bs,
  length-replicate {A = ℕ} (n - length bs) 0,
)
field_bytes-length (padding n) = length-replicate n 0

pub layout-length : (fs : List Field) → length (layout fs) ≡ size_of fs
unfolding layout
layout-length [] = refl
layout-length (f ∷ fs) =
    omega (arith, length-append (field_bytes f) (layout fs), field_bytes-length f, layout-length fs)

-- Two parts that fit are packed one after the other.
pub both_made :
    (fs gs : List Field) (k : List ℕ → List ℕ → Made (List ℕ))
    → All Fits fs
    → All Fits gs
    → and_then (pack fs) (λ header. and_then (pack gs) (k header)) ≡ k (layout fs) (layout gs)
both_made fs gs k h l = rw (pack-made fs h, pack-made gs l) refl
