-- ===== src/Evaluation/Sets.antt =====
-- evaluate_event_time.py: the sorted sets of session names.
use Prim.Native.Char.{Char, code}
use Prim.Native.String.{String}
use text.Mathlib.TextEquality.{Char-path}
use e_bpf_based_kernel_ai_se.Prelude.{
  ℕ, ◌≡◌, refl, ap, sym, ◌∙◌, List, [], ◌∷◌, Bool, true, false, ◌||◌, ◌&&◌, ltb, ◌==◌, All, arith,
  Bool-cases, inl, inr, same_text,
}
use e_bpf_based_kernel_ai_se.Aggregate.Buckets.{text_lt}
use e_bpf_based_kernel_ai_se.Dataset.Sorting.{add_name}
use e_bpf_based_kernel_ai_se.Evaluation.Data.{text_in, set_of}

-- Characters that are in neither order are the same.
char_eq : (c d : Char) → ltb (code c) (code d) ≡ false → ltb (code d) (code c) ≡ false → c ≡ d
char_eq c d h k = Char-path c d (ground arith)

text_lt_irrefl : (s : String) → text_lt s s ≡ false
unfolding text_lt
text_lt_irrefl String.[] = refl
text_lt_irrefl (String.◌∷◌ c s) = ground (arith, text_lt_irrefl s)

lex_trans :
    (a b c : ℕ) (p q r : Bool)
    → (p ≡ true → q ≡ true → r ≡ true)
    → ltb a b || ((a == b) && p) ≡ true
    → ltb b c || ((b == c) && q) ≡ true
    → ltb a c || ((a == c) && r) ≡ true
lex_trans a b c p q r f h k = ground arith

text_lt_trans : (s t u : String) → text_lt s t ≡ true → text_lt t u ≡ true → text_lt s u ≡ true
unfolding text_lt
text_lt_trans String.[] String.[] u h k = cc
text_lt_trans String.[] (String.◌∷◌ d t) String.[] h k = cc
text_lt_trans String.[] (String.◌∷◌ d t) (String.◌∷◌ e u) h k = refl
text_lt_trans (String.◌∷◌ c s) String.[] u h k = cc
text_lt_trans (String.◌∷◌ c s) (String.◌∷◌ d t) String.[] h k = cc
text_lt_trans (String.◌∷◌ c s) (String.◌∷◌ d t) (String.◌∷◌ e u) h k =
    lex_trans (code c) (code d) (code e) _ _ _ (text_lt_trans s t u) h k

lex_total :
    (a b : ℕ) (p q : Bool)
    → ltb a b || ((a == b) && p) ≡ false
    → ltb b a || ((b == a) && q) ≡ false
    → (ltb a b ≡ false) × (ltb b a ≡ false) × (p ≡ false) × (q ≡ false)
lex_total a b p q h k = ground arith

text_eq : (s t : String) → text_lt s t ≡ false → text_lt t s ≡ false → s ≡ t
unfolding text_lt
text_eq String.[] String.[] h k = refl
text_eq String.[] (String.◌∷◌ d t) h k = cc
text_eq (String.◌∷◌ c s) String.[] h k = cc
text_eq (String.◌∷◌ c s) (String.◌∷◌ d t) h k =
    let l = lex_total (code c) (code d) _ _ h k in
    λ i. String.◌∷◌ (char_eq c d l.0 l.1 i) (text_eq s t l.2 l.3 i)

pub same_eq : (s t : String) → same_text s t ≡ true → s ≡ t
same_eq s t h = ground arith

pub same_refl : (s : String) → same_text s s ≡ true
same_refl s = ground arith

pub lt_differs : (s t : String) → text_lt s t ≡ true → same_text s t ≡ false
lt_differs s t h = elim (Bool-cases (same_text s t)) [
  | inr e ↦ e
  | inl e ↦ absurd (true_false (sym h ∙ ap (text_lt s) (sym (same_eq s t e)) ∙ text_lt_irrefl s))
]
  where
    true_false : true ≡ false → ⊥
    true_false e = cc

pub same_sym : (s t : String) → same_text s t ≡ false → same_text t s ≡ false
same_sym s t h = ground arith

-- A sorted list without repetitions.
abbrev pub Increasing : List String → Type 0
Increasing [] = Unit
Increasing (x ∷ xs) = All (λ y. text_lt x y ≡ true) xs × Increasing xs

All-lt :
    (u v : String) (xs : List String)
    → text_lt u v ≡ true
    → All (λ y. text_lt v y ≡ true) xs
    → All (λ y. text_lt u y ≡ true) xs
All-lt u v [] l h = tt
All-lt u v (x ∷ xs) l h = (text_lt_trans u v x l h.0, All-lt u v xs l h.1)

add_name-All :
    (v u : String) (xs : List String)
    → text_lt v u ≡ true
    → All (λ y. text_lt v y ≡ true) xs
    → All (λ y. text_lt v y ≡ true) (add_name u xs)
unfolding add_name
add_name-All v u [] l h = (l, tt)
add_name-All v u (x ∷ xs) l h = ground (arith, add_name-All v u xs l h.1)

later : (u v : String) → same_text u v ≡ false → text_lt u v ≡ false → text_lt v u ≡ true
later u v n h = elim (Bool-cases (text_lt v u)) [
  | inl e ↦ e
  | inr e ↦ absurd (false_true (sym n ∙ ap (same_text u) (sym (text_eq u v h e)) ∙ same_refl u))
]
  where
    false_true : false ≡ true → ⊥
    false_true e = cc

add_name-Increasing : (u : String) (xs : List String) → Increasing xs → Increasing (add_name u xs)
unfolding add_name
add_name-Increasing u [] h = (tt, tt)
add_name-Increasing u (x ∷ xs) h = elim (Bool-cases (same_text u x)) [
  | inl e ↦ rw (e, add_name) h
  | inr e ↦ elim (Bool-cases (text_lt u x)) [
    | inl l ↦ rw (e, l, add_name) ((l, All-lt u x xs l h.0), h)
    | inr l ↦
        rw (e, l, add_name) (add_name-All x u xs (later u x e l) h.0, add_name-Increasing u xs h.1)
  ]
]

pub set_of-Increasing : (xs : List String) → Increasing (set_of xs)
unfolding set_of
set_of-Increasing [] = tt
set_of-Increasing (x ∷ xs) = add_name-Increasing x (set_of xs) (set_of-Increasing xs)

text_in_self : (u : String) (xs : List String) → text_in u (add_name u xs) ≡ true
unfolding text_in add_name
text_in_self u [] = ground (arith, same_refl u)
text_in_self u (x ∷ xs) = ground (arith, same_refl u, text_in_self u xs)

text_in-add_name :
    (s u : String) (xs : List String) → text_in s xs ≡ true → text_in s (add_name u xs) ≡ true
unfolding text_in add_name
text_in-add_name s u [] h = cc
text_in-add_name s u (x ∷ xs) h = ground (arith, text_in-add_name s u xs)

-- Every text is in the set, and so is one that is in the set of the rest.
pub text_in-set_of : (xs : List String) → All (λ s. text_in s (set_of xs) ≡ true) xs
unfolding set_of
text_in-set_of [] = tt
text_in-set_of (x ∷ xs) = (text_in_self x (set_of xs), grown xs (text_in-set_of xs))
  where
    grown :
        (ys : List String)
        → All (λ s. text_in s (set_of xs) ≡ true) ys
        → All (λ s. text_in s (add_name x (set_of xs)) ≡ true) ys
    grown [] h = tt
    grown (y ∷ ys) h = (text_in-add_name y x (set_of xs) h.0, grown ys h.1)
