-- ===== src/Aggregate/Permissions.antt =====
-- aggregate.py, `PermLookup`: an answer does not change.
use e_bpf_based_kernel_ai_se.Prelude.{
  ℕ, ◌≡◌, refl, ap, List, [], ◌∷◌, none, some, arith, Option-cases, Bool-cases, inl, inr,
}
use e_bpf_based_kernel_ai_se.Dict.{Dict, get, put}
use e_bpf_based_kernel_ai_se.Dict.Laws.{get-put}
use e_bpf_based_kernel_ai_se.Aggregate.Perm.{
  path_discrete, Perm, FileSystem, Lookup, lookup_new, lookup, lookup_all, perm_of, proc_perm,
}
use e_bpf_based_kernel_ai_se.Aggregate.Paths.{is_proc_pid}

-- An answer that is known is given again and nothing is asked.
lookup_known :
    (fs : FileSystem) (p : List ℕ) (v : Perm) (l : Lookup)
    → get path_discrete p l.cache ≡ some v
    → lookup fs p l ≡ (l, v)
unfolding lookup
lookup_known fs p v l e = rw (e, lookup) refl

lookup_new-known :
    (fs : FileSystem) (p : List ℕ) (l : Lookup)
    → get path_discrete p (lookup_new fs p l).0.cache ≡ some (lookup_new fs p l).1
unfolding lookup_new
lookup_new-known fs p l = elim (Bool-cases (is_proc_pid p)) [
  | inl e ↦ rw e (ground (arith, get-put path_discrete p p proc_perm l.cache))
  | inr e ↦ rw e (ground (arith, get-put path_discrete p p (perm_of (fs l.stats p)) l.cache))
]

-- A new key does not touch another one.
put-keeps :
    (p q : List ℕ) (v w : Perm) (d : Dict (List ℕ) Perm)
    → get path_discrete q d ≡ none
    → get path_discrete p d ≡ some v
    → get path_discrete p (put path_discrete q w d) ≡ some v
put-keeps p q v w d n e = elim (path_discrete q p) [
  | yes r ↦ absurd (ground (arith, ap (λ (x : List ℕ). get path_discrete x d) r))
  | no r ↦ ground (arith, get-put path_discrete p q w d)
]

lookup_new-keeps :
    (fs : FileSystem) (p q : List ℕ) (v : Perm) (l : Lookup)
    → get path_discrete q l.cache ≡ none
    → get path_discrete p l.cache ≡ some v
    → get path_discrete p (lookup_new fs q l).0.cache ≡ some v
unfolding lookup_new
lookup_new-keeps fs p q v l n e = elim (Bool-cases (is_proc_pid q)) [
  | inl t ↦ rw t (put-keeps p q v proc_perm l.cache n e)
  | inr t ↦ rw t (put-keeps p q v (perm_of (fs l.stats q)) l.cache n e)
]

lookup-knows :
    (fs : FileSystem) (p : List ℕ) (l : Lookup)
    → get path_discrete p (lookup fs p l).0.cache ≡ some (lookup fs p l).1
unfolding lookup
lookup-knows fs p l = elim (Option-cases (get path_discrete p l.cache)) [
  | inl e ↦ rw (e, lookup) (lookup_new-known fs p l)
  | inr (v, e) ↦ rw (e, lookup) e
]

lookup-keeps :
    (fs : FileSystem) (p q : List ℕ) (v : Perm) (l : Lookup)
    → get path_discrete p l.cache ≡ some v
    → get path_discrete p (lookup fs q l).0.cache ≡ some v
unfolding lookup
lookup-keeps fs p q v l e = elim (Option-cases (get path_discrete q l.cache)) [
  | inl n ↦ rw (n, lookup) (lookup_new-keeps fs p q v l n e)
  | inr (w, h) ↦ rw (h, lookup) e
]

lookup_all-keeps :
    (fs : FileSystem) (p : List ℕ) (qs : List (List ℕ)) (v : Perm) (l : Lookup)
    → get path_discrete p l.cache ≡ some v
    → get path_discrete p (lookup_all fs qs l).cache ≡ some v
unfolding lookup_all
lookup_all-keeps fs p [] v l e = e
lookup_all-keeps fs p (q ∷ qs) v l e =
    lookup_all-keeps fs p qs v (lookup fs q l).0 (lookup-keeps fs p q v l e)

-- Whatever paths are looked up after a path, a second lookup of it gives the first answer and asks the
-- file system nothing, even where the file has changed or gone in between.
pub lookup-lookup_all :
    (fs : FileSystem) (p : List ℕ) (qs : List (List ℕ)) (l : Lookup)
    → let l' = lookup_all fs qs (lookup fs p l).0 in lookup fs p l' ≡ (l', (lookup fs p l).1)
lookup-lookup_all fs p qs l =
    lookup_known fs p (lookup fs p l).1 (lookup_all fs qs (lookup fs p l).0)
      (lookup_all-keeps fs p qs (lookup fs p l).1 (lookup fs p l).0 (lookup-knows fs p l))
