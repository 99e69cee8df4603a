-- ===== src/Dataset/Spans.antt =====
-- build_event_time_dataset.py: where the events of a bucket lie, as the log records them.
use e_bpf_based_kernel_ai_se.Prelude.{
  ℕ, suc, ◌+◌, ◌≤◌, ◌<◌, ◌⊎◌, none, leb, ◌&&◌, ◌≡◌, refl, ap, ◌∙◌, List, [], ◌∷◌, Option, some,
  if◌then◌else◌, ltb, All, arith, inl, inr,
}
use e_bpf_based_kernel_ai_se.Dict.{Dict}
use e_bpf_based_kernel_ai_se.Unlinks.Audit.{second}
use e_bpf_based_kernel_ai_se.Dataset.Log.{Field, absent, number, other, event_bounds, Diagnostic}
use e_bpf_based_kernel_ai_se.Decoder.Event.{pos, negsuc}
use e_bpf_based_kernel_ai_se.Dataset.Rows.{features_of, one_more, span_of}

-- The events of a bucket: the recorded bounds, the last one included, or the second from its start.
abbrev pub Spans : ℕ → Diagnostic → ℕ → ℕ → Type 0
Spans start d from to =
    ((d.first_event_ns ≡ absent)
      × (d.last_event_ns ≡ absent)
      × (from ≡ start)
      × (to ≡ start + second))
    ⊎ ((last : ℕ) × ((d.first_event_ns ≡ number (pos from))
          × (d.last_event_ns ≡ number (pos last))
          × (start ≤ from)
          × (from ≤ last)
          × (last < start + second)
          × (to ≡ suc last)))

abbrev pub In : ℕ × Diagnostic → Dict ℕ Diagnostic → Type 0
In x [] = ⊥
In x (y ∷ ys) = (x ≡ y) ⊎ In x ys

pub features_of-same : (o : Option (List ℕ)) (xs : List ℕ) → features_of o ≡ some xs → o ≡ some xs
unfolding features_of
features_of-same none xs h = cc
features_of-same (some ys) xs h = ground arith

bounded-Spans :
    (start a b from to : ℕ)
    → one_more (
        if◌then◌else◌ {A = Option (ℕ × ℕ)}
          (leb start a && (leb a b && ltb b (start + second)))
          (some (a, b))
          none)
      ≡ some (from, to)
    → (start ≤ from) × (a ≡ from) × (from ≤ b) × (b < start + second) × (to ≡ suc b)
bounded-Spans start a b from to h = ground arith

plain-Spans :
    (start from to : ℕ)
    → ◌≡◌ {A = Option (ℕ × ℕ)} (some (start, start + second)) (some (from, to))
    → (from ≡ start) × (to ≡ start + second)
plain-Spans start from to h = ground arith

pub span_of-Spans :
    (start : ℕ) (d : Diagnostic) (f l : Field) (from to : ℕ)
    → d.first_event_ns ≡ f
    → d.last_event_ns ≡ l
    → span_of start f l ≡ some (from, to)
    → Spans start d from to
unfolding span_of event_bounds
span_of-Spans start d absent absent from to p q h =
    let k = plain-Spans start from to h in inl (p, q, k.0, k.1)
span_of-Spans start d absent (number z) from to p q h = cc
span_of-Spans start d absent other from to p q h = cc
span_of-Spans start d (number (pos a)) absent from to p q h = cc
span_of-Spans start d (number (pos a)) (number (pos b)) from to p q h =
    let k = bounded-Spans start a b from to h in
    inr (b, (p ∙ ap (λ n. number (pos n)) k.1, q, k.0, k.2, k.3, k.4))
span_of-Spans start d (number (pos a)) (number (negsuc b)) from to p q h = cc
span_of-Spans start d (number (pos a)) other from to p q h = cc
span_of-Spans start d (number (negsuc a)) l from to p q h = cc
span_of-Spans start d other l from to p q h = cc

All-In-there :
    (xs : Dict ℕ Diagnostic) (x : ℕ × Diagnostic) (ys : Dict ℕ Diagnostic)
    → All (λ y. In y xs) ys
    → All (λ y. In y (x ∷ xs)) ys
All-In-there xs x [] h = tt
All-In-there xs x (y ∷ ys) h = (inr h.0, All-In-there xs x ys h.1)

pub All-In : (xs : Dict ℕ Diagnostic) → All (λ y. In y xs) xs
All-In [] = tt
All-In (x ∷ xs) = (inl refl, All-In-there xs x xs (All-In xs))
