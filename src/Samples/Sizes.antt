-- ===== src/Samples/Sizes.antt =====
-- generate-handoff-samples.py: which arguments give a record, and its size. The numbers that go into unsigned
-- fields are natural numbers.
use e_bpf_based_kernel_ai_se.Prelude.{
  ℕ, ◌-◌, ◌≤◌, ◌<◌, ◌≡◌, refl, ap, sym, ◌∙◌, List, ◌++◌, if◌then◌else◌, ltb, All, length, replicate,
  arith, length-append, length-replicate,
}
use e_bpf_based_kernel_ai_se.Decoder.Event.{ℤ}
use e_bpf_based_kernel_ai_se.Samples.Struct.{
  Error, struct_error, Made, made, raised, and_then, Field, layout, pack, Within, Fits, pack-made,
  pack-Fits, pack-raised, size_of, layout-length,
}
use e_bpf_based_kernel_ai_se.Samples.Records.{task_start, common_fields, host_record, host_header}

-- The record is made exactly if `R` holds, and then has `n` bytes; otherwise there is a `struct.error`.
pub record MadeIf (R : Type 0) (n : ℕ) (m : Made (List ℕ)) : Type 0 where
  pub succeeds : R → (bs : List ℕ) × (m ≡ made bs)
  pub only : (bs : List ℕ) → m ≡ made bs → R × (length bs ≡ n)
  pub fails : (e : Error) → m ≡ raised e → e ≡ struct_error

pub MadeIf-iff :
    (R S : Type 0) (n : ℕ) (m : Made (List ℕ)) → (S → R) → (R → S) → MadeIf R n m → MadeIf S n m
MadeIf-iff R S n m f g h = record {
  succeeds = λ s. h.succeeds (f s);
  only = λ bs e. (g (h.only bs e).0, (h.only bs e).1);
  fails = h.fails;
}

-- Two packed parts that are put together without an error.
pub packed-MadeIf :
    (fs gs : List Field) (n : ℕ) (k : List ℕ → List ℕ → Made (List ℕ)) (all_bytes : List ℕ)
    → k (layout fs) (layout gs) ≡ made all_bytes
    → length all_bytes ≡ n
    → MadeIf
        (All Fits fs × All Fits gs)
        n
        (and_then (pack fs) (λ header. and_then (pack gs) (k header)))
packed-MadeIf fs gs n k all_bytes h l = parts (pack fs) (pack gs) refl refl
  where
    same_made : (x y : List ℕ) → made x ≡ made y → x ≡ y
    same_made x y e = cc

    same_error : (e f : Error) → ◌≡◌ {A = Made (List ℕ)} (raised e) (raised f) → e ≡ f
    same_error e f h = cc

    parts :
        (p q : Made (List ℕ))
        → pack fs ≡ p
        → pack gs ≡ q
        → MadeIf (All Fits fs × All Fits gs) n (and_then p (λ header. and_then q (k header)))
    parts (raised e) q a b = record {
      succeeds = λ r. let c = sym a ∙ pack-made fs r.0 in cc;
      only = λ bs c. cc;
      fails = λ f c. sym (same_error e f c) ∙ pack-raised fs e a;
    }
    parts (made x) (raised e) a b = record {
      succeeds = λ r. let c = sym b ∙ pack-made gs r.1 in cc;
      only = λ bs c. cc;
      fails = λ f c. sym (same_error e f c) ∙ pack-raised gs e b;
    }
    parts (made x) (made y) a b =
        let u = pack-Fits fs x a in
        let v = pack-Fits gs y b in
        let w = ap (λ z. k z y) (sym u.1) ∙ ap (k (layout fs)) (sym v.1) ∙ h in
        record {
          succeeds = λ r. (all_bytes, w);
          only = λ bs c. ((u.0, v.0), ap length (same_made bs all_bytes (sym c ∙ w)) ∙ l);
          fails = λ f c. let d = sym w ∙ c in cc;
        }

fixed_bytes-any :
    (bytes : List ℕ) → length bytes ≤ 376 → length (bytes ++ replicate (376 - length bytes) 0) ≡ 376
fixed_bytes-any bytes h = omega (
  arith,
  length-append bytes (replicate (376 - length bytes) 0),
  length-replicate {A = ℕ} (376 - length bytes) 0,
)

host_record-made :
    (header payload : List ℕ)
    → length (header ++ payload) ≤ 376
    → host_record header payload
      ≡ made ((header ++ payload) ++ replicate (376 - length (header ++ payload)) 0)
unfolding host_record
host_record-made header payload h = not_longer _ _ _ h
  where
    not_longer : (n : ℕ) (a b : Made (List ℕ)) → n ≤ 376 → (if ltb 376 n then a else b) ≡ b
    not_longer n a b h = ground arith

-- A host record from a header of 88 bytes and a part that leaves room.
pub host-MadeIf :
    (fs gs : List Field) (k : ℕ)
    → size_of fs ≡ 88
    → size_of gs ≡ k
    → k ≤ 288
    → MadeIf
        (All Fits fs × All Fits gs)
        376
        (and_then (pack fs) (λ header. and_then (pack gs) (host_record header)))
host-MadeIf fs gs k a b l =
    let bytes = layout fs ++ layout gs in
    let n : length bytes ≤ 376 =
      omega
        (arith, length-append (layout fs) (layout gs), layout-length fs, layout-length gs, a, b) in
    packed-MadeIf fs gs 376 host_record _ (host_record-made (layout fs) (layout gs) n)
      (fixed_bytes-any bytes n)

-- What the header asks of the numbers of a record.
abbrev pub HeaderFits : (kind ts pid ppid : ℕ) → Type 0
HeaderFits kind ts pid ppid =
    (ts < 18446744073709551616) × (pid < 4294967296) × (ppid < 4294967296) × (kind < 65536)

pub task_start_fits : (pid : ℕ) → pid < 4294967296 → task_start pid < 18446744073709551616
unfolding task_start
task_start_fits pid h = ground arith

-- The header fits exactly if its numbers do; the start of the task then fits too.
pub header-Fits :
    (kind ts pid ppid size : ℕ) (z : ℤ) (flags : ℕ) (comm : List ℕ)
    → HeaderFits kind ts pid ppid
    → size < 4294967296
    → Within 2147483648 z
    → flags < 4294967296
    → All Fits (common_fields (record (host_header kind ts pid ppid z flags comm) { size = size }))
header-Fits kind ts pid ppid size z flags comm r s w f =
    let t = task_start_fits pid r.1 in
    let p = r.1 in
    (
      r.0,
      (
        omega arith,
        (
          t,
          (
            p,
            (
              p,
              (
                p,
                (
                  p,
                  (
                    r.2,
                    (
                      omega arith,
                      (omega arith, (omega arith, (w, (s, (f, (omega arith, (r.3, (tt, tt)))))))),
                    ),
                  ),
                ),
              ),
            ),
          ),
        ),
      ),
    )

pub header-only :
    (kind ts pid ppid size : ℕ) (z : ℤ) (flags : ℕ) (comm : List ℕ)
    → All Fits (common_fields (record (host_header kind ts pid ppid z flags comm) { size = size }))
    → HeaderFits kind ts pid ppid × Within 2147483648 z × (flags < 4294967296)
header-only kind ts pid ppid size z flags comm h = (
  (h.0, h.1.1.1.0, h.1.1.1.1.1.1.1.0, h.1.1.1.1.1.1.1.1.1.1.1.1.1.1.1.0),
  h.1.1.1.1.1.1.1.1.1.1.1.0,
  h.1.1.1.1.1.1.1.1.1.1.1.1.1.0,
)
