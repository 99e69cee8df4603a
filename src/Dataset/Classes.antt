-- ===== src/Dataset/Classes.antt =====
-- build_event_time_dataset.py, `build`: the class of a row, seen from what the dataset says of it.
use text.Mathlib.TextLemmas.{length-append as count-append}
use Prim.Native.String.{String, count, ◌++◌ as text_append}
use e_bpf_based_kernel_ai_se.Prelude.{
  ℕ, suc, ◌+◌, ◌≡◌, refl, ap, sym, ◌∙◌, List, [], ◌∷◌, ◌++◌, Bool, true, false, not, ◌&&◌, ◌||◌,
  if◌then◌else◌, string_discrete, arith, Bool-cases, inl, inr, subst, same_text,
}
use e_bpf_based_kernel_ai_se.Extract.Label.{without_prefix}
use e_bpf_based_kernel_ai_se.Dataset.Timeline.{Interval}
use e_bpf_based_kernel_ai_se.Dataset.Rows.{Row, row_of, Built, count_class}

-- An attack is labelled so; a precursor has its technique marked; any other row is normal.
abbrev pub is_attack : Row → Bool
is_attack r = same_text r.label "attack"

abbrev pub is_precursor : Row → Bool
is_precursor r = same_text r.technique (text_append "precursor:" (without_prefix r.unit))

abbrev pub is_normal : Row → Bool
is_normal r = not (is_attack r) && not (is_precursor r)

unfoldable pub number_of : (Row → Bool) → List Row → ℕ
number_of p [] = 0
number_of p (r ∷ rs) = (if p r then 1 else 0) + number_of p rs

number_of-append :
    (p : Row → Bool) (rs : List Row) (r : Row)
    → number_of p (rs ++ r ∷ []) ≡ number_of p rs + (if p r then 1 else 0)
unfolding number_of
number_of-append p [] r = omega arith
number_of-append p (q ∷ rs) r = omega (arith, number_of-append p rs r)

-- Every row is counted in the class that it shows.
abbrev pub ByClass : Built → Type 0
ByClass b =
    (b.attack ≡ number_of is_attack b.rows)
    × (b.precursor ≡ number_of is_precursor b.rows)
    × (b.normal ≡ number_of is_normal b.rows)

mark_count : count "precursor:" ≡ 10
mark_count = refl

same_eq : (s t : String) → same_text s t ≡ true → s ≡ t
same_eq s t h = ground arith

same_refl : (s : String) → same_text s s ≡ true
same_refl s = ground arith

not_marked : (s : String) → same_text s (text_append "precursor:" s) ≡ false
not_marked s = elim (Bool-cases (same_text s (text_append "precursor:" s))) [
  | inr e ↦ e
  | inl e ↦ absurd (
      omega (
        arith,
        ap count (same_eq s (text_append "precursor:" s) e),
        count-append "precursor:" s,
        mark_count,
      ))
]

module _ (session : String) (start : ℕ) (features : List ℕ) (i : Interval) where
  row_of-is_attack : is_attack (row_of session start features i) ≡ same_text i.cls "attack"
  unfolding row_of string_discrete
  row_of-is_attack = elim (Bool-cases (same_text i.cls "attack")) [
    | inl e ↦ rw e refl
    | inr e ↦ rw e refl
  ]

  row_of-is_precursor : is_precursor (row_of session start features i) ≡ same_text i.cls "precursor"
  unfolding row_of
  row_of-is_precursor = elim (Bool-cases (same_text i.cls "precursor")) [
    | inl e ↦ rw e (same_refl (text_append "precursor:" (without_prefix i.unit)))
    | inr e ↦ rw e (not_marked (without_prefix i.unit))
  ]

attack_not_precursor :
    (cls : String) → same_text cls "attack" ≡ true → same_text cls "precursor" ≡ false
unfolding string_discrete
attack_not_precursor cls e =
    subst (λ c. same_text c "precursor" ≡ false) (sym (same_eq cls "attack" e)) refl

one_if : (a : Bool) (n m k : ℕ) → n ≡ k → m ≡ k + (if a then 1 else 0) → a ≡ true → suc n ≡ m
one_if a n m k h l e = ground arith

none_if : (a : Bool) (n m k : ℕ) → n ≡ k → m ≡ k + (if a then 1 else 0) → a ≡ false → n ≡ m
none_if a n m k h l e = ground arith

not_normal : (a p : Bool) → a || p ≡ true → not a && not p ≡ false
not_normal a p e = ground arith

normal : (a p : Bool) → a ≡ false → p ≡ false → not a && not p ≡ true
normal a p e f = ground arith

first_or : (a p : Bool) → a ≡ true → a || p ≡ true
first_or a p e = ground arith

second_or : (a p : Bool) → p ≡ true → a || p ≡ true
second_or a p e = ground arith

-- A kept row goes to its class.
pub count_class-ByClass :
    (session : String) (start : ℕ) (features : List ℕ) (i : Interval) (b : Built)
    → ByClass b
    → ByClass
        (count_class i.cls (record b { rows = b.rows ++ row_of session start features i ∷ [] }))
unfolding count_class
count_class-ByClass session start features i b h =
    let row = row_of session start features i in
    let is_a = is_attack row in
    let is_p = is_precursor row in
    let a = row_of-is_attack session start features i in
    let p = row_of-is_precursor session start features i in
    let more = λ (q : Row → Bool) (n : ℕ) (l : n ≡ number_of q b.rows) (e : q row ≡ true).
      one_if (q row) n (number_of q (b.rows ++ row ∷ [])) (number_of q b.rows) l
        (number_of-append q b.rows row) e in
    let same = λ (q : Row → Bool) (n : ℕ) (l : n ≡ number_of q b.rows) (e : q row ≡ false).
      none_if (q row) n (number_of q (b.rows ++ row ∷ [])) (number_of q b.rows) l
        (number_of-append q b.rows row) e in
    elim (Bool-cases (same_text i.cls "attack")) [
      | inl e ↦
          let f = p ∙ attack_not_precursor i.cls e in
          rw (e, count_class)
            (
              more is_attack b.attack h.0 (a ∙ e),
              same is_precursor b.precursor h.1 f,
              same is_normal b.normal h.2 (not_normal is_a is_p (first_or is_a is_p (a ∙ e))),
            )
      | inr e ↦ elim (Bool-cases (same_text i.cls "precursor")) [
        | inl f ↦
            rw (e, f, count_class)
              (
                same is_attack b.attack h.0 (a ∙ e),
                more is_precursor b.precursor h.1 (p ∙ f),
                same is_normal b.normal h.2 (not_normal is_a is_p (second_or is_a is_p (p ∙ f))),
              )
        | inr f ↦
            rw (e, f, count_class)
              (
                same is_attack b.attack h.0 (a ∙ e),
                same is_precursor b.precursor h.1 (p ∙ f),
                more is_normal b.normal h.2 (normal is_a is_p (a ∙ e) (p ∙ f)),
              )
      ]
    ]
