-- ===== src/Extract/Label.antt =====
-- extract.py, `label_of`: the unit of the timeline that a time falls into.
use Prim.Native.Char.{code}
use Prim.Native.String.{String}
use e_bpf_based_kernel_ai_se.Prelude.{
  ℕ, zero, suc, List, [], ◌∷◌, Option, none, some, ◌&&◌, ite, if◌then◌else◌, ltb, leb, ◌==◌,
  get_elem?, string_discrete,
}

-- A line of the timeline; the list of them is sorted.
pub record Span : Type 0 where
  pub first : ℕ
  pub last : ℕ
  pub cls : String
  pub name : String

-- `bisect.bisect_right(tl_starts, ts)` on a sorted timeline: how many spans start at `ts` or before.
unfoldable pub bisect_right : List Span → ℕ → ℕ
bisect_right [] ts = 0
bisect_right (x ∷ xs) ts = let rest = bisect_right xs ts in if leb x.first ts then suc rest else 0

-- `unit[2:]` where the unit starts with `t_`.
unfoldable pub without_prefix : String → String
without_prefix String.[] = String.[]
without_prefix (String.◌∷◌ c String.[]) = String.◌∷◌ c String.[]
without_prefix (String.◌∷◌ c (String.◌∷◌ d s)) =
    if (code c == b't') && (code d == b'_') then s else String.◌∷◌ c (String.◌∷◌ d s)

unfoldable pub unit_of : Span → String
unfolding without_prefix
unit_of x = ite (string_discrete x.cls "attack") (without_prefix x.name) x.name

-- `ts > tl[i][1]` drops the window.
unfoldable pub label_at : Option Span → ℕ → Option (String × String)
unfolding unit_of
label_at none ts = none
label_at (some x) ts = if ltb x.last ts then none else some (x.cls, unit_of x)

-- `i = bisect_right(...) - 1`, where -1 is out.
unfoldable pub label_index : List Span → ℕ → ℕ → Option (String × String)
unfolding label_at
label_index tl zero ts = none
label_index tl (suc i) ts = label_at (get_elem? tl i) ts

unfoldable pub label_of : List Span → ℕ → Option (String × String)
unfolding label_index bisect_right
label_of tl ts = label_index tl (bisect_right tl ts) ts
