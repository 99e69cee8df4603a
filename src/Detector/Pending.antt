-- ===== src/Detector/Pending.antt =====
-- detect2.py: the system calls that are counted in the buckets and in the verdicts.
use e_bpf_based_kernel_ai_se.Prelude.{
  ℕ, ◌+◌, ◌/◌, ◌≡◌, refl, ap, sym, subst, List, [], ◌∷◌, ◌++◌, Option, none, some, if◌then◌else◌,
  ◌==◌, ℕ_discrete, arith, max,
}
use e_bpf_based_kernel_ai_se.Bytes.{u32}
use e_bpf_based_kernel_ai_se.Dict.{get, pop, Distinct}
use e_bpf_based_kernel_ai_se.Dict.Laws.{Distinct-put, pop_absent}
use e_bpf_based_kernel_ai_se.Dict.Sums.{at, total, total-put, total-pop}
use e_bpf_based_kernel_ai_se.Detector.Event.{Header}
use e_bpf_based_kernel_ai_se.Detector.State.{
  Proc, Procs, Config, Verdict, State, start, sum_of, records, verdict_of, judge_bucket,
  finalize_found, finalize,
}
use e_bpf_based_kernel_ai_se.Detector.Buckets.{
  identify, count_syscall, collect, procs_of, proc_of, note_bounds, update_proc, note_event,
}

abbrev pub calls : Proc → ℕ
calls r = r.n_syscalls

abbrev pub judged : List Verdict → ℕ
judged = sum_of (λ (v : Verdict). v.n_syscalls)

-- The calls that were counted so far, in the buckets that wait and in the verdicts.
abbrev pub counted : State → ℕ
counted s = total (total calls) s.buckets + judged s.verdicts

sum_of-append {ℓ} :
    {A : Type ℓ} (f : A → ℕ) (xs ys : List A) → sum_of f (xs ++ ys) ≡ sum_of f xs + sum_of f ys
unfolding sum_of
sum_of-append f [] ys = omega arith
sum_of-append f (x ∷ xs) ys = omega (arith, sum_of-append f xs ys)

judged_one : (v : Verdict) → judged (v ∷ []) ≡ v.n_syscalls
unfolding sum_of
judged_one v = omega arith

sum_of-records : (procs : Procs) → sum_of calls (records procs) ≡ total calls procs
unfolding sum_of records total
sum_of-records [] = refl
sum_of-records ((tg, r) ∷ d) = omega (arith, sum_of-records d)

-- Whether an event is a system call that the number map knows: 1 or 0.
unfoldable pub known_call : Config → ℕ → List ℕ → ℕ
known_call c etype ev =
    if etype == 4 then (elim (c.number_map (u32 88 ev)) [ none ↦ 0 | some _ ↦ 1 ]) else 0

identify-calls : (h : Header) (r : Proc) → calls (identify h r) ≡ calls r
unfolding identify
identify-calls h r = ground arith

collect-calls :
    (c : Config) (etype : ℕ) (ev : List ℕ) (r : Proc)
    → calls (collect c etype ev r) ≡ calls r + known_call c etype ev
unfolding collect count_syscall known_call
collect-calls c etype ev r = ground arith

proc_of-calls : (o : Option Proc) → calls (proc_of o) ≡ at calls o
unfolding proc_of
proc_of-calls none = refl
proc_of-calls (some r) = refl

update_proc-calls :
    (c : Config) (h : Header) (ev : List ℕ) (procs : Procs)
    → total calls (update_proc c h ev procs) ≡ total calls procs + known_call c h.etype ev
unfolding update_proc
update_proc-calls c h ev procs =
    let old = get ℕ_discrete h.tgid procs in
    let r = identify h (proc_of old) in
    omega (
      arith,
      total-put calls ℕ_discrete h.tgid (collect c h.etype ev r) procs,
      collect-calls c h.etype ev r,
      identify-calls h (proc_of old),
      proc_of-calls old,
    )

procs_of-calls : (o : Option Procs) → total calls (procs_of o) ≡ at (total calls) o
unfolding procs_of total
procs_of-calls none = refl
procs_of-calls (some procs) = refl

-- A state that has the same buckets and verdicts counts the same.
note_bounds-keeps :
    (c : Config) (b ts : ℕ) (s : State)
    → ((note_bounds c b ts s).buckets ≡ s.buckets) × ((note_bounds c b ts s).verdicts ≡ s.verdicts)
unfolding note_bounds
note_bounds-keeps c b ts s = ground arith

pub note_event-counted :
    (c : Config) (h : Header) (ev : List ℕ) (s : State)
    → Distinct ℕ_discrete s.buckets
    → Distinct ℕ_discrete (note_event c h ev s).buckets
      × (counted (note_event c h ev s) ≡ counted s + known_call c h.etype ev)
unfolding note_event
note_event-counted c h ev s d =
    let b = h.ts / c.bucket_ns in
    let s' = note_bounds c b h.ts (record s { last_ts = max s.last_ts h.ts }) in
    let (bk, vd) = note_bounds-keeps c b h.ts (record s { last_ts = max s.last_ts h.ts }) in
    let old = get ℕ_discrete b s'.buckets in
    let procs = update_proc c h ev (procs_of old) in
    (
      Distinct-put ℕ_discrete b procs s'.buckets (subst (Distinct ℕ_discrete) (sym bk) d),
      omega (
        arith,
        total-put (total calls) ℕ_discrete b procs s'.buckets,
        update_proc-calls c h ev (procs_of old),
        procs_of-calls old,
        ap (total (total calls)) bk,
        ap judged vd,
      ),
    )

finalize_found-counted :
    (c : Config) (b : ℕ) (o : Option Procs) (s : State)
    → get ℕ_discrete b s.buckets ≡ o
    → Distinct ℕ_discrete s.buckets
    → ((finalize_found c b o s).buckets ≡ pop ℕ_discrete b s.buckets)
      × (counted (finalize_found c b o s) ≡ counted s)
unfolding finalize_found judge_bucket verdict_of total
finalize_found-counted c b none s e d = (sym (pop_absent ℕ_discrete b s.buckets e), refl)
finalize_found-counted c b (some []) s e d = (
  refl,
  omega (
    arith,
    total-pop (total calls) ℕ_discrete b s.buckets,
    ap (at (total calls)) e,
    procs_of-calls none,
  ),
)
finalize_found-counted c b (some (p ∷ ps)) s e d =
    let procs = p ∷ ps in
    let v =
      verdict_of c b (records procs) (get ℕ_discrete b s.bounds)
        (c.judge (s.n_alert + s.n_norm) (records procs)) in
    (
      refl,
      omega (
        arith,
        total-pop (total calls) ℕ_discrete b s.buckets,
        ap (at (total calls)) e,
        sum_of-append (λ (v : Verdict). v.n_syscalls) s.verdicts (v ∷ []),
        judged_one v,
        sum_of-records procs,
      ),
    )

pub finalize-counted :
    (c : Config) (b : ℕ) (s : State)
    → Distinct ℕ_discrete s.buckets
    → ((finalize c b s).buckets ≡ pop ℕ_discrete b s.buckets)
      × (counted (finalize c b s) ≡ counted s)
unfolding finalize
finalize-counted c b s d = finalize_found-counted c b (get ℕ_discrete b s.buckets) s refl d

pub no_buckets-calls : total {K = ℕ} (total {K = ℕ} calls) [] ≡ 0
unfolding total
no_buckets-calls = refl

pub start-counted : counted start ≡ 0
unfolding total sum_of
start-counted = refl
