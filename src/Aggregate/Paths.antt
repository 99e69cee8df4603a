-- ===== src/Aggregate/Paths.antt =====
-- aggregate.py, what it does with the text of a path. A path is its bytes, and a digit an ASCII digit.
use e_bpf_based_kernel_ai_se.Prelude.{
  ℕ, List, [], ◌∷◌, ◌++◌, Bool, true, false, ◌&&◌, ◌||◌, not, if◌then◌else◌, ◌==◌, leb, any, all,
}
use e_bpf_based_kernel_ai_se.Bytes.{bytes_of, same_bytes}

abbrev pub slash : ℕ
slash = b'/'

-- Puts a byte in front of the first part.
unfoldable pub onto_first : ℕ → List (List ℕ) → List (List ℕ)
onto_first c [] = (c ∷ []) ∷ []
onto_first c (x ∷ xs) = (c ∷ x) ∷ xs

-- `p.split("/")`
unfoldable pub split : List ℕ → List (List ℕ)
unfolding onto_first
split [] = [] ∷ []
split (c ∷ cs) = let rest = split cs in if c == slash then [] ∷ rest else onto_first c rest

unfoldable pub is_empty : List ℕ → Bool
is_empty [] = true
is_empty (c ∷ cs) = false

-- `[x for x in parts if x]`
unfoldable pub nonempty : List (List ℕ) → List (List ℕ)
unfolding is_empty
nonempty [] = []
nonempty (x ∷ xs) = let rest = nonempty xs in if is_empty x then rest else x ∷ rest

-- `"/".join(parts)`
unfoldable pub join : List (List ℕ) → List ℕ
join [] = []
join (x ∷ []) = x
join (x ∷ y ∷ ys) = x ++ slash ∷ join (y ∷ ys)

-- `x.isdigit()`
unfoldable pub is_digits : List ℕ → Bool
unfolding is_empty
is_digits x = not (is_empty x) && all (λ c. leb 48 c && leb c 57) x

-- `p.startswith(d)`
unfoldable pub starts_with : List ℕ → List ℕ → Bool
starts_with [] p = true
starts_with (d ∷ ds) [] = false
starts_with (d ∷ ds) (c ∷ cs) = (d == c) && starts_with ds cs

-- `PermLookup._is_proc_pid`; the limit of the split does not reach the first three parts.
unfoldable pub is_proc_pid_parts : List (List ℕ) → Bool
unfolding is_digits bytes_of same_bytes
is_proc_pid_parts (a ∷ b ∷ c ∷ rest) = same_bytes b (bytes_of "proc") && is_digits c
is_proc_pid_parts parts = false

unfoldable pub is_proc_pid : List ℕ → Bool
unfolding is_proc_pid_parts split
is_proc_pid p = is_proc_pid_parts (split p)

-- `parts[:-1]`
unfoldable pub all_but_last : List (List ℕ) → List (List ℕ)
all_but_last [] = []
all_but_last (x ∷ []) = []
all_but_last (x ∷ y ∷ ys) = x ∷ all_but_last (y ∷ ys)

-- `any(x.startswith(".") for x in parts)`
unfoldable pub is_hidden : List (List ℕ) → Bool
unfolding starts_with bytes_of
is_hidden parts = any (starts_with (bytes_of ".")) parts

-- The number of the first of `DIR_FRACS` that the path is under, or 5.
unfoldable pub dir_index : List ℕ → ℕ
unfolding starts_with bytes_of
dir_index p =
    if starts_with (bytes_of "/etc/") p
    then 0
    else if starts_with (bytes_of "/proc/") p
    then 1
    else if starts_with (bytes_of "/usr/") p
    then 2
    else if starts_with (bytes_of "/dev/") p
    then 3
    else if starts_with (bytes_of "/tmp/") p
    then 4
    else 5

-- Under one of `DIRS_SENSITIVE`.
unfoldable pub is_sensitive : List ℕ → Bool
unfolding starts_with bytes_of
is_sensitive p =
    starts_with (bytes_of "/etc/") p
    || (starts_with (bytes_of "/root/") p
        || (starts_with (bytes_of "/home/") p || starts_with (bytes_of "/var/spool/") p))

-- `set.add` on texts; only the size of the set is used.
unfoldable pub add_text : List ℕ → List (List ℕ) → List (List ℕ)
unfolding same_bytes
add_text x xs = if any (same_bytes x) xs then xs else xs ++ x ∷ []
