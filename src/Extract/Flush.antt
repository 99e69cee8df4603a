-- ===== src/Extract/Flush.antt =====
-- extract.py, `flush`: a window becomes a record, or is dropped, or waits for more.
use e_bpf_based_kernel_ai_se.Prelude.{
  ℕ, zero, suc, List, [], ◌∷◌, ◌++◌, Option, none, some, Bool, length, if◌then◌else◌, ltb, ◌==◌,
  not,
}
use e_bpf_based_kernel_ai_se.Dict.{Dict, get, put, pop}
use e_bpf_based_kernel_ai_se.Decoder.Event.{negsuc}
use e_bpf_based_kernel_ai_se.Extract.Label.{label_of}
use e_bpf_based_kernel_ai_se.Extract.State.{
  Key, key_discrete, Stratum, stratum_discrete, Options, Meta, full, slim, Rec, State, list_at,
  distinct_count,
}

-- `sysq.pop(key, None)` and the same for the other three.
unfoldable pub forget : Key → State → State
forget k s = record s {
  sysq = pop key_discrete k s.sysq;
  files = pop key_discrete k s.files;
  nets = pop key_discrete k s.nets;
  execs = pop key_discrete k s.execs;
}

-- `sysq[key] = []` and the same for the other three.
unfoldable pub reset : Key → State → State
reset k s = record s {
  sysq = put key_discrete k [] s.sysq;
  files = put key_discrete k [] s.files;
  nets = put key_discrete k [] s.nets;
  execs = put key_discrete k [] s.execs;
}

unfoldable pub meta_of : Option Meta → Meta
meta_of none = record { comm = b'?' ∷ []; uid = negsuc 0; ppid = negsuc 0 }
meta_of (some m) = m

unfoldable pub record_of : Options → Key → Stratum → State → Rec
unfolding list_at distinct_count meta_of
record_of o k u s =
    let seq = list_at k s.sysq in
    record {
      stratum = u;
      session = o.session;
      key = k;
      meta = meta_of (get key_discrete k s.meta);
      calls = if o.is_slim then slim (length seq) (distinct_count seq) else full seq;
      files = list_at k s.files;
      net = list_at k s.nets;
      execs = list_at k s.execs;
    }

-- `res[j] = rec`
unfoldable pub replace_at : ℕ → Rec → List Rec → List Rec
replace_at j r [] = []
replace_at zero r (x ∷ xs) = r ∷ xs
replace_at (suc j) r (x ∷ xs) = x ∷ replace_at j r xs

-- One step of algorithm R into `res` with room for `cap`, where `j` is the draw.
unfoldable pub sample : ℕ → ℕ → Rec → List Rec → List Rec
unfolding replace_at
sample cap j r res =
    if ltb (length res) cap then res ++ r ∷ [] else if ltb j cap then replace_at j r res else res

-- A draw is made only where the sample is full.
abbrev pub after_draw : ℕ → List Rec → State → State
after_draw cap res s = if ltb (length res) cap then s else record s { draws = suc s.draws }

unfoldable pub strata_at : Stratum → Dict Stratum (List Rec) → List Rec
strata_at u d = elim (get stratum_discrete u d) [ none ↦ [] | some rs ↦ rs ]

unfoldable pub seen_at : Stratum → Dict Stratum ℕ → ℕ
seen_at u d = elim (get stratum_discrete u d) [ none ↦ 0 | some n ↦ n ]

unfoldable pub sample_unit : Options → Rec → State → State
unfolding sample strata_at seen_at
sample_unit o r s =
    let res = strata_at r.stratum s.strata in
    let seen = suc (seen_at r.stratum s.seen_u) in
    after_draw o.max_per_unit res (record s {
      strata =
          put stratum_discrete r.stratum (sample o.max_per_unit (o.draw s.draws seen) r res)
            s.strata;
      seen_u = put stratum_discrete r.stratum seen s.seen_u;
    })

unfoldable pub sample_all : Options → Rec → State → State
unfolding sample
sample_all o r s =
    after_draw o.max_records s.reservoir
      (record s { reservoir = sample o.max_records (o.draw s.draws (suc s.written)) r s.reservoir })

unfoldable pub emit : Options → Rec → State → State
unfolding sample_unit sample_all
emit o r s =
    if o.is_slim
    then record s { out = s.out ++ r ∷ [] }
    else if not (o.max_per_unit == 0)
    then sample_unit o r s
    else if not (o.max_records == 0)
    then sample_all o r s
    else record s { out = s.out ++ r ∷ [] }

unfoldable pub flush_as : Options → Key → Option Stratum → State → State
unfolding record_of emit reset
flush_as o k none s = reset k s
flush_as o k (some u) s =
    let s' = emit o (record_of o k u s) s in reset k (record s' { written = suc s'.written })

-- The label of the command line, or of the timeline where there is one.
unfoldable pub stratum_of : Options → Key → Option Stratum
stratum_of o k = elim o.timeline [
  | [] ↦ some (record { label = o.label; technique = o.technique })
  | x ∷ xs ↦ elim (label_of (x ∷ xs) k.start) [
    | none ↦ none
    | some (cls, name) ↦ some (record { label = cls; technique = name })
  ]
]

unfoldable pub flush : Options → Bool → Key → State → State
unfolding flush_as stratum_of list_at
flush o force k s =
    if ltb (length (list_at k s.sysq)) o.min_len
    then if force then forget k s else s
    else flush_as o k (stratum_of o k) s
