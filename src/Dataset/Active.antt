-- ===== src/Dataset/Active.antt =====
-- build_event_time_dataset.py, `build`: what `active` holds during the sweep.
use mathlib.Core.List.{append_assoc, append-nil}
use e_bpf_based_kernel_ai_se.Prelude.{
  ℕ, ◌+◌, ◌≤◌, ◌<◌, ◌≡◌, refl, ap, sym, ◌∙◌, List, [], ◌∷◌, ◌++◌, Option, none, some, Bool, true,
  false, ◌&&◌, if◌then◌else◌, leb, ltb, All, String, arith, Bool-cases, Option-cases, inl, inr,
}
use e_bpf_based_kernel_ai_se.Unlinks.Audit.{second}
use e_bpf_based_kernel_ai_se.Decoder.Event.{pos, negsuc}
use e_bpf_based_kernel_ai_se.Dataset.Timeline.{Interval, interval_lt}
use e_bpf_based_kernel_ai_se.Dataset.Log.{Field, absent, number, other, Diagnostic, event_bounds}
use e_bpf_based_kernel_ai_se.Dataset.Sorting.{Ascending}
use e_bpf_based_kernel_ai_se.Dataset.Rows.{
  one_more, span_of, features_of, filter, overlaps, judge, note_verdict, Built,
}
use e_bpf_based_kernel_ai_se.Dataset.Sweep.{swept, visit, starting_before, starting_later, renew}

filter-append :
    (p : Interval → Bool) (xs ys : List Interval) → filter p (xs ++ ys) ≡ filter p xs ++ filter p ys
unfolding filter
filter-append p [] ys = refl
filter-append p (x ∷ xs) ys = ground (arith, filter-append p xs ys)

filter-filter :
    (p q : Interval → Bool) (xs : List Interval)
    → ((i : Interval) → p i ≡ true → q i ≡ true)
    → filter p (filter q xs) ≡ filter p xs
unfolding filter
filter-filter p q [] h = refl
filter-filter p q (x ∷ xs) h = ground (arith, filter-filter p q xs h, h x)

filter_none :
    (p : Interval → Bool) (xs : List Interval) → All (λ i. p i ≡ false) xs → filter p xs ≡ []
unfolding filter
filter_none p [] h = refl
filter_none p (x ∷ xs) h = ground (arith, filter_none p xs h.1, h.0)

abbrev pub start_of : Interval → ℕ
start_of i = i.start

abbrev pub InOrder : List Interval → Type 0
InOrder = Ascending interval_lt start_of

pub before-later : (e : ℕ) (is : List Interval) → starting_before e is ++ starting_later e is ≡ is
unfolding starting_before starting_later
before-later e [] = refl
before-later e (i ∷ is) = ground (arith, before-later e is)

pub later-InOrder : (e : ℕ) (is : List Interval) → InOrder is → InOrder (starting_later e is)
unfolding starting_later
later-InOrder e [] h = tt
later-InOrder e (i ∷ is) h = ground (arith, h, later-InOrder e is h.1)

All-le :
    (e s : ℕ) (is : List Interval)
    → e ≤ s
    → All (λ i. s ≤ start_of i) is
    → All (λ i. e ≤ start_of i) is
All-le e s [] l h = tt
All-le e s (i ∷ is) l h = (omega (arith, h.0), All-le e s is l h.1)

later-All :
    (e : ℕ) (is : List Interval) → InOrder is → All (λ i. e ≤ start_of i) (starting_later e is)
unfolding starting_later
later-All e [] h = tt
later-All e (i ∷ is) h = elim (Bool-cases (ltb i.start e)) [
  | inl q ↦ rw q (later-All e is h.1)
  | inr q ↦ rw q (ground arith, All-le e i.start is (ground arith) h.0)
]

not_overlapping :
    (from to e : ℕ) (is : List Interval)
    → to ≤ e
    → All (λ i. e ≤ start_of i) is
    → All (λ i. overlaps from to i ≡ false) is
not_overlapping from to e [] l h = tt
not_overlapping from to e (i ∷ is) l h = (ground (arith, h.0), not_overlapping from to e is l h.1)

pub overlaps-end : (from to : ℕ) (i : Interval) → overlaps from to i ≡ true → from < i.end
overlaps-end from to i h = ground arith

inside :
    (start a b from to : ℕ)
    → one_more (
        if◌then◌else◌ {A = Option (ℕ × ℕ)}
          (leb start a && (leb a b && ltb b (start + second)))
          (some (a, b))
          none)
      ≡ some (from, to)
    → (start ≤ from) × (to ≤ start + second)
inside start a b from to h = ground arith

-- A span lies in its bucket.
pub span_within :
    (start : ℕ) (f l : Field) (from to : ℕ)
    → span_of start f l ≡ some (from, to)
    → (start ≤ from) × (to ≤ start + second)
unfolding span_of event_bounds
span_within start absent absent from to h = ground arith
span_within start absent (number z) from to h = cc
span_within start absent other from to h = cc
span_within start (number (pos a)) absent from to h = cc
span_within start (number (pos a)) (number (pos b)) from to h = inside start a b from to h
span_within start (number (pos a)) (number (negsuc b)) from to h = cc
span_within start (number (pos a)) other from to h = cc
span_within start (number (negsuc a)) l from to h = cc
span_within start other l from to h = cc

pub visit_congr :
    (session : String) (start : ℕ) (d : Diagnostic) (over over' : ℕ → ℕ → List Interval) (b : Built)
    → ((from to : ℕ) → start ≤ from → to ≤ start + second → over from to ≡ over' from to)
    → visit session start d over b ≡ visit session start d over' b
unfolding visit
visit_congr session start d over over' b h = elim (Option-cases (features_of d.features)) [
  | inl q ↦ rw (q, visit)
  | inr (row, q) ↦ elim (Option-cases (span_of start d.first_event_ns d.last_event_ns)) [
    | inl r ↦ rw (q, r, visit)
    | inr ((from, to), r) ↦
        let w = span_within start d.first_event_ns d.last_event_ns from to r in
        rw (q, r, visit)
          (ap (λ is. swept (note_verdict session start row (judge from to is) b))
            (h from to w.0 w.1))
  ]
]

-- What `active` has to do with the intervals before the next one: it holds all of them that end
-- after the last bucket, in their order.
abbrev pub Held : ℕ → List Interval → List Interval → Type 0
Held s active before =
    (p : Interval → Bool)
    → ((i : Interval) → p i ≡ true → s < i.end)
    → filter p active ≡ filter p before

pub renew-Held :
    (s start : ℕ) (active before next : List Interval)
    → s ≤ start
    → Held s active before
    → Held start (renew start active next) (before ++ starting_before (start + second) next)
unfolding renew
renew-Held s start active before next l h p g =
    let taken = starting_before (start + second) next in
    filter-append p (filter (λ (i : Interval). ltb start i.end) active) taken
    ∙ ap (λ is. is ++ filter p taken)
        (filter-filter p _ active (λ i e. ground (arith, g i e))
          ∙ h p (λ i e. omega (arith, g i e, l)))
    ∙ sym (filter-append p before taken)

-- The intervals that overlap a span in the bucket are among the active ones.
pub active-overlaps :
    (s start from to : ℕ) (active before next : List Interval)
    → s ≤ start
    → start ≤ from
    → to ≤ start + second
    → InOrder next
    → Held s active before
    → filter (overlaps from to) (renew start active next)
      ≡ filter (overlaps from to) (before ++ next)
active-overlaps s start from to active before next l f t o h =
    let e = start + second in
    let p = overlaps from to in
    let taken = starting_before e next in
    let left = starting_later e next in
    renew-Held s start active before next l h p (λ i q. omega (arith, overlaps-end from to i q, f))
    ∙ sym (append-nil (filter p (before ++ taken)))
    ∙ ap (λ is. filter p (before ++ taken) ++ is)
        (sym (filter_none p left (not_overlapping from to e left t (later-All e next o))))
    ∙ sym (filter-append p (before ++ taken) left)
    ∙ ap (filter p) (append_assoc before taken left ∙ ap (λ is. before ++ is) (before-later e next))
