-- ===== src/Dataset/Timeline.antt =====
-- build_event_time_dataset.py, `read_timeline`. A line comes as the fields that `split` makes of it,
-- texts of ASCII characters.
use e_bpf_based_kernel_ai_se.Prelude.{
  ℕ, zero, suc, ◌+◌, ◌-◌, ◌*◌, List, [], ◌∷◌, Option, none, some, Bool, true, false, ◌&&◌, ◌||◌,
  if◌then◌else◌, ite, ◌==◌, leb, ltb, all, String, string_discrete, ◌≤◌, ◌≡◌, arith, subst,
}
use e_bpf_based_kernel_ai_se.Bytes.{bytes_of}
use e_bpf_based_kernel_ai_se.Decoder.Event.{ℤ, pos, negsuc}
use e_bpf_based_kernel_ai_se.Aggregate.Buckets.{text_lt}
use e_bpf_based_kernel_ai_se.Dataset.Sorting.{sorted, Ascending, sorted-Ascending}

-- `str.isspace` of an ASCII character.
unfoldable pub is_space : ℕ → Bool
is_space c = (leb 9 c && leb c 13) || (leb 28 c && leb c 32)

-- What `int` reads after the sign: digits, single underscores between them, spaces behind them.
unfoldable pub int_digits : Bool → ℕ → List ℕ → Option ℕ
unfolding is_space
int_digits after n [] = if after then some n else none
int_digits after n (c ∷ cs) =
    let digit = int_digits true (n * 10 + (c - 48)) cs in
    let low_line = int_digits false n cs in
    if leb 48 c && leb c 57
    then digit
    else if (c == 95) && after
    then low_line
    else if after && all is_space (c ∷ cs)
    then some n
    else none

abbrev negative : Option ℕ → Option ℤ
negative none = none
negative (some zero) = some (pos 0)
negative (some (suc n)) = some (negsuc n)

abbrev positive : Option ℕ → Option ℤ
positive none = none
positive (some n) = some (pos n)

-- `int(text)`, where `none` is the ValueError.
unfoldable pub int_of : List ℕ → Option ℤ
unfolding is_space int_digits
int_of [] = none
int_of (c ∷ cs) =
    let rest = int_of cs in
    if is_space c
    then rest
    else if c == b'-'
    then negative (int_digits false 0 cs)
    else if c == b'+'
    then positive (int_digits false 0 cs)
    else positive (int_digits false 0 (c ∷ cs))

pub record Interval : Type 0 where
  pub start : ℕ
  pub end : ℕ
  pub cls : String
  pub unit : String

pub data Error : Type 0 where
  expected_fields : Error
  invalid_timestamp : Error
  invalid_interval : Error

pub data Read (A : Type 0) : Type 0 where
  failed : Error → Read A
  success : A → Read A

abbrev pub is_empty : String → Bool
is_empty s = ite (string_discrete s "") true false

unfoldable pub interval_of : Option ℤ → Option ℤ → String → String → Read Interval
interval_of (some (pos a)) (some (pos b)) c u =
    if leb b a || (is_empty c || is_empty u)
    then failed invalid_interval
    else success (record { start = a; end = b; cls = c; unit = u })
interval_of (some (pos a)) (some (negsuc b)) c u = failed invalid_interval
interval_of (some (negsuc a)) (some b) c u = failed invalid_interval
interval_of (some a) none c u = failed invalid_timestamp
interval_of none b c u = failed invalid_timestamp

unfoldable pub read_fields : List String → Read Interval
unfolding interval_of int_of bytes_of
read_fields (a ∷ b ∷ c ∷ u ∷ []) = interval_of (int_of (bytes_of a)) (int_of (bytes_of b)) c u
read_fields fields = failed expected_fields

-- `not line.strip()`
unfoldable pub is_blank : List String → Bool
unfolding is_space bytes_of
is_blank fields = all (λ s. all is_space (bytes_of s)) fields

-- The order of the tuples.
unfoldable pub interval_lt : Interval → Interval → Bool
unfolding text_lt
interval_lt i j =
    ltb i.start j.start
    || ((i.start == j.start)
        && (ltb i.end j.end
            || ((i.end == j.end)
                && (text_lt i.cls j.cls
                    || ite (string_discrete i.cls j.cls) (text_lt i.unit j.unit) false))))

abbrev add_interval : Read Interval → Read (List Interval) → Read (List Interval)
add_interval (failed e) rest = failed e
add_interval (success i) (failed e) = failed e
add_interval (success i) (success is) = success (i ∷ is)

unfoldable pub read_lines : List (List String) → Read (List Interval)
unfolding is_blank read_fields
read_lines [] = success []
read_lines (line ∷ lines) =
    let rest = read_lines lines in
    if is_blank line then rest else add_interval (read_fields line) rest

abbrev sort_read : Read (List Interval) → Read (List Interval)
sort_read (failed e) = failed e
sort_read (success is) = success (sorted interval_lt is)

unfoldable pub read_timeline : List (List String) → Read (List Interval)
unfolding read_lines sorted interval_lt
read_timeline lines = sort_read (read_lines lines)

lt_le : (a b : ℕ) (c : Bool) → ltb a b || ((a == b) && c) ≡ true → a ≤ b
lt_le a b c e = ground arith

not_lt_le : (a b : ℕ) (c : Bool) → ltb a b || ((a == b) && c) ≡ false → b ≤ a
not_lt_le a b c e = ground arith

sorted_intervals-Ascending :
    (is : List Interval) → Ascending interval_lt (λ (i : Interval). i.start) (sorted interval_lt is)
unfolding interval_lt
sorted_intervals-Ascending is =
    sorted-Ascending interval_lt (λ (i : Interval). i.start) (λ x y e. lt_le _ _ _ e)
      (λ x y e. not_lt_le _ _ _ e) is

sort_read-Ascending :
    (r : Read (List Interval)) (is : List Interval)
    → sort_read r ≡ success is
    → Ascending interval_lt (λ (i : Interval). i.start) is
sort_read-Ascending (failed e) is h = cc
sort_read-Ascending (success js) is h =
    subst (λ xs. Ascending interval_lt (λ (i : Interval). i.start) xs) (success-inj h)
      (sorted_intervals-Ascending js)
  where
    success-inj : {x y : List Interval} → Read.success x ≡ success y → x ≡ y
    success-inj e = cc

pub read_timeline-Ascending :
    (lines : List (List String)) (is : List Interval)
    → read_timeline lines ≡ success is
    → Ascending interval_lt (λ (i : Interval). i.start) is
unfolding read_timeline
read_timeline-Ascending lines is h = sort_read-Ascending (read_lines lines) is h
