-- ===== src/Extract/Timeline.antt =====
-- extract.py, `label_of`: the bisection against a search through the spans.
use mathlib.Core.Option
use e_bpf_based_kernel_ai_se.Prelude.{
  ℕ, ◌≤◌, ◌<◌, ◌≡◌, refl, ap, sym, ◌∙◌, List, [], ◌∷◌, Option, none, some, ◌&&◌, if◌then◌else◌, leb,
  ltb, String, arith, Bool-cases, inl, inr,
}
use e_bpf_based_kernel_ai_se.Extract.Label.{
  Span, bisect_right, unit_of, label_at, label_index, label_of,
}

-- The spans start after `lo`, one after the end of the other, and none ends before it starts.
abbrev pub Follow : ℕ → List Span → Type 0
Follow lo [] = Unit
Follow lo (x ∷ xs) = (lo < x.first) × (x.first ≤ x.last) × Follow x.last xs

-- A timeline with no overlap. The first span may start at 0.
abbrev pub Disjoint : List Span → Type 0
Disjoint [] = Unit
Disjoint (x ∷ xs) = (x.first ≤ x.last) × Follow x.last xs

-- The span that holds a time.
unfoldable pub span_at : List Span → ℕ → Option Span
span_at [] ts = none
span_at (x ∷ xs) ts = if leb x.first ts && leb ts x.last then some x else span_at xs ts

abbrev pub label : Span → String × String
label x = (x.cls, unit_of x)

-- Before the first span there is none.
early : (ts lo : ℕ) (xs : List Span) → Follow lo xs → ts ≤ lo → span_at xs ts ≡ none
unfolding span_at
early ts lo [] f h = refl
early ts lo (x ∷ xs) f h = ground (arith, early ts x.last xs f.2)

not_started :
    (ts : ℕ) (x : Span) (xs : List Span)
    → ts < x.first
    → x.first ≤ x.last
    → Follow x.last xs
    → span_at (x ∷ xs) ts ≡ none
unfolding span_at
not_started ts x xs l h f = ground (arith, early ts x.last xs f)

label_of_started :
    (ts : ℕ) (x y : Span) (ys : List Span)
    → x.first ≤ ts
    → y.first ≤ ts
    → label_of (x ∷ y ∷ ys) ts ≡ label_of (y ∷ ys) ts
unfolding label_of label_index bisect_right
label_of_started ts x y ys a b = ground arith

label_of_last :
    (ts : ℕ) (x y : Span) (ys : List Span)
    → x.first ≤ ts
    → ts < y.first
    → label_of (x ∷ y ∷ ys) ts ≡ label_at (some x) ts
unfolding label_of label_index bisect_right
label_of_last ts x y ys a b = ground arith

label_of_early : (ts : ℕ) (x : Span) (xs : List Span) → ts < x.first → label_of (x ∷ xs) ts ≡ none
unfolding label_of label_index bisect_right
label_of_early ts x xs a = ground arith

span_at_past :
    (ts : ℕ) (x : Span) (xs : List Span) → x.last < ts → span_at (x ∷ xs) ts ≡ span_at xs ts
unfolding span_at
span_at_past ts x xs h = ground arith

label_at-span_at :
    (ts : ℕ) (x : Span) (xs : List Span)
    → x.first ≤ ts
    → span_at xs ts ≡ none
    → label_at (some x) ts ≡ Option.map label (span_at (x ∷ xs) ts)
unfolding label_at span_at
label_at-span_at ts x xs a e = elim (Bool-cases (ltb x.last ts)) [
  | inl past ↦ ground (arith, ap (Option.map label) e)
  | inr inside ↦ ground arith
]

label_of_only : (ts : ℕ) (x : Span) → x.first ≤ ts → label_of (x ∷ []) ts ≡ label_at (some x) ts
unfolding label_of label_index bisect_right
label_of_only ts x a = ground arith

span_at-none : (ts : ℕ) → span_at [] ts ≡ none
unfolding span_at
span_at-none ts = refl

Follow-label :
    (ts : ℕ) (x : Span) (xs : List Span)
    → x.first ≤ x.last
    → Follow x.last xs
    → label_of (x ∷ xs) ts ≡ Option.map label (span_at (x ∷ xs) ts)
Follow-label ts x [] h f = elim (Bool-cases (leb x.first ts)) [
  | inr not_yet ↦
      label_of_early ts x [] (ground arith)
      ∙ ap (Option.map label) (sym (not_started ts x [] (ground arith) h f))
  | inl started ↦
      label_of_only ts x (ground arith) ∙ label_at-span_at ts x [] (ground arith) (span_at-none ts)
]
Follow-label ts x (y ∷ ys) h f = elim (Bool-cases (leb y.first ts)) [
  | inl next_started ↦
      label_of_started ts x y ys (ground arith) (ground arith)
      ∙ Follow-label ts y ys f.1 f.2
      ∙ ap (Option.map label) (sym (span_at_past ts x (y ∷ ys) (ground arith)))
  | inr next_waits ↦ elim (Bool-cases (leb x.first ts)) [
    | inr not_yet ↦
        label_of_early ts x (y ∷ ys) (ground arith)
        ∙ ap (Option.map label) (sym (not_started ts x (y ∷ ys) (ground arith) h f))
    | inl started ↦
        label_of_last ts x y ys (ground arith) (ground arith)
        ∙ label_at-span_at ts x (y ∷ ys) (ground arith) (not_started ts y ys (ground arith) f.1 f.2)
  ]
]

-- On a timeline with no overlap `label_of` gives the class and the unit of the span that holds the
-- time, both ends included, and nothing where no span holds it.
pub label_of-span_at :
    (tl : List Span) (ts : ℕ) → Disjoint tl → label_of tl ts ≡ Option.map label (span_at tl ts)
unfolding label_of label_index bisect_right span_at
label_of-span_at [] ts d = refl
label_of-span_at (x ∷ xs) ts d = Follow-label ts x xs d.0 d.1
