-- ===== src/Aggregate/Pids.antt =====
-- aggregate.py, `bucket_features`: the pids among the paths of a bucket.
use e_bpf_based_kernel_ai_se.Prelude.{
  ℕ, Option, none, some, suc, ◌≤◌, ◌≡◌, refl, ap, sym, subst, List, [], ◌∷◌, ◌++◌, true, length,
  arith, any, Bool-cases, inl, inr, length-append, All, All-append,
}
use e_bpf_based_kernel_ai_se.Bytes.{same_bytes}
use e_bpf_based_kernel_ai_se.Aggregate.Paths.{split, nonempty, add_text}
use e_bpf_based_kernel_ai_se.Aggregate.Files.{pid_of, add_pid}

same_bytes_lem : (a b : List ℕ) → same_bytes a b ≡ true → a ≡ b
unfolding same_bytes
same_bytes_lem [] [] e = refl
same_bytes_lem [] (y ∷ b) e = cc
same_bytes_lem (x ∷ a) [] e = cc
same_bytes_lem (x ∷ a) (y ∷ b) e = ground (arith, same_bytes_lem a b)

same_bytes_self : (a : List ℕ) → same_bytes a a ≡ true
unfolding same_bytes
same_bytes_self [] = refl
same_bytes_self (x ∷ a) = ground (arith, same_bytes_self a)

any-append :
    (x y : List ℕ) (xs : List (List ℕ))
    → any (same_bytes x) xs ≡ true
    → any (same_bytes x) (xs ++ y ∷ []) ≡ true
any-append x y [] e = cc
any-append x y (z ∷ xs) e = ground (arith, any-append x y xs)

any-last : (x : List ℕ) (xs : List (List ℕ)) → any (same_bytes x) (xs ++ x ∷ []) ≡ true
any-last x [] = ground (arith, same_bytes_self x)
any-last x (z ∷ xs) = ground (arith, any-last x xs)

add_text-has : (x : List ℕ) (xs : List (List ℕ)) → any (same_bytes x) (add_text x xs) ≡ true
unfolding add_text
add_text-has x xs = elim (Bool-cases (any (same_bytes x) xs)) [
  | inl e ↦ rw e e
  | inr e ↦ rw e (any-last x xs)
]

add_text-keeps :
    (x y : List ℕ) (xs : List (List ℕ))
    → any (same_bytes x) xs ≡ true
    → any (same_bytes x) (add_text y xs) ≡ true
unfolding add_text
add_text-keeps x y xs h = elim (Bool-cases (any (same_bytes y) xs)) [
  | inl e ↦ rw e h
  | inr e ↦ rw e (any-append x y xs h)
]

pub add_text-length : (x : List ℕ) (xs : List (List ℕ)) → length (add_text x xs) ≤ suc (length xs)
unfolding add_text
add_text-length x xs = ground (arith, length-append xs (x ∷ []))

-- The pid is among those found.
abbrev pub Has : List (List ℕ) → Option (List ℕ) → Type 0
Has pids none = Unit
Has pids (some x) = any (same_bytes x) pids ≡ true

abbrev pub pid_in : List ℕ → Option (List ℕ)
pid_in p = pid_of (nonempty (split p))

add_pid-Has : (o : Option (List ℕ)) (pids : List (List ℕ)) → Has (add_pid o pids) o
unfolding add_pid
add_pid-Has none pids = tt
add_pid-Has (some x) pids = add_text-has x pids

add_pid-keeps :
    (o o' : Option (List ℕ)) (pids : List (List ℕ)) → Has pids o → Has (add_pid o' pids) o
unfolding add_pid
add_pid-keeps o none pids h = h
add_pid-keeps none (some y) pids h = tt
add_pid-keeps (some x) (some y) pids h = add_text-keeps x y pids h

add_pid-old : (o : Option (List ℕ)) (pids : List (List ℕ)) → Has pids o → add_pid o pids ≡ pids
unfolding add_pid add_text
add_pid-old none pids h = refl
add_pid-old (some x) pids h = rw h refl

add_pid-length :
    (o : Option (List ℕ)) (pids : List (List ℕ)) → length (add_pid o pids) ≤ suc (length pids)
unfolding add_pid
add_pid-length none pids = omega arith
add_pid-length (some x) pids = add_text-length x pids

abbrev pub Known : List (List ℕ) → List ℕ → Type 0
Known pids p = Has pids (pid_in p)

Known-among :
    (pids : List (List ℕ)) (p : List ℕ) (paths : List (List ℕ))
    → All (Known pids) paths
    → any (same_bytes p) paths ≡ true
    → Known pids p
Known-among pids p [] k e = cc
Known-among pids p (q ∷ paths) k e = elim (Bool-cases (same_bytes p q)) [
  | inl h ↦ subst (Known pids) (sym (same_bytes_lem p q h)) k.0
  | inr h ↦ Known-among pids p paths k.1 (ground (arith, h))
]

-- Every path that is found has its pid found, and there are at most as many pids as paths.
abbrev pub Covered : List (List ℕ) → List (List ℕ) → Type 0
Covered paths pids = All (Known pids) paths × (length pids ≤ length paths)

Known-still :
    (o : Option (List ℕ)) (pids : List (List ℕ)) (paths : List (List ℕ))
    → All (Known pids) paths
    → All (Known (add_pid o pids)) paths
Known-still o pids [] k = tt
Known-still o pids (q ∷ paths) k =
    (add_pid-keeps (pid_in q) o pids k.0, Known-still o pids paths k.1)

pub add-Covered :
    (p : List ℕ) (paths pids : List (List ℕ))
    → Covered paths pids
    → Covered (add_text p paths) (add_pid (pid_in p) pids)
unfolding add_text
add-Covered p paths pids (k, l) = elim (Bool-cases (any (same_bytes p) paths)) [
  | inl e ↦ rw e (
    Known-still (pid_in p) pids paths k,
    omega (
      arith,
      ap (length {A = List ℕ}) (add_pid-old (pid_in p) pids (Known-among pids p paths k e)),
      l,
    ),
  )
  | inr e ↦ rw e (
    All-append (Known (add_pid (pid_in p) pids)) paths (p ∷ [])
        (Known-still (pid_in p) pids paths k) (add_pid-Has (pid_in p) pids, tt),
    omega (arith, add_pid-length (pid_in p) pids, length-append paths (p ∷ []), l),
  )
]
