-- ===== src/Aggregate/Tests.antt =====
-- The bucket features on concrete records.
use e_bpf_based_kernel_ai_se.Prelude.{ℕ, ◌≡◌, List, [], ◌∷◌, none, some, if◌then◌else◌, ◌==◌}
use e_bpf_based_kernel_ai_se.Bytes.{bytes_of}
use e_bpf_based_kernel_ai_se.Decoder.Event.{pos}
use e_bpf_based_kernel_ai_se.Extract.State.{Rec, full, slim}
use e_bpf_based_kernel_ai_se.Aggregate.Perm.{FileSystem, Lookup, lookup, lookup_all}
use e_bpf_based_kernel_ai_se.Aggregate.Features.{bucket_features}
use e_bpf_based_kernel_ai_se.Aggregate.Buckets.{aggregate}
use e_bpf_based_kernel_ai_se.Aggregate.Rows.{all_windows, aggregate-windows}
use e_bpf_based_kernel_ai_se.Aggregate.Permissions.{lookup-lookup_all}
use e_bpf_based_kernel_ai_se.Aggregate.Shape.{IsRow, bucket_features-IsRow}

-- A file that is gone at the second question.
unfoldable files : FileSystem
files k p = if k == 0 then some (record { st_mode = 33188; st_uid = 0 }) else none

abbrev no_answers : Lookup
no_answers = record { cache = []; stats = 0 }

unfoldable passwd : List ℕ
unfolding bytes_of
passwd = bytes_of "/etc/passwd"

unfoldable status : List ℕ
unfolding bytes_of
status = bytes_of "/proc/12/status"

unfoldable reader : Rec
unfolding passwd status
reader = record {
  stratum = record { label = "attack"; technique = "T1003" };
  session = "s1";
  key = record { tgid = 7; start = 120 };
  meta = record { comm = b's' ∷ b'h' ∷ []; uid = pos 0; ppid = pos 1 };
  calls = full (3 ∷ 4 ∷ 3 ∷ []);
  files = record { p = passwd; fl = 0; m = 2 } ∷ record { p = status; fl = 0; m = 0 } ∷ [];
  net = [];
  execs = [];
}

unfoldable builder : Rec
builder = record {
  stratum = record { label = "normal"; technique = "build" };
  session = "s1";
  key = record { tgid = 8; start = 230 };
  meta = record { comm = b'c' ∷ b'c' ∷ []; uid = pos 1000; ppid = pos 1 };
  calls = slim 9 4;
  files = [];
  net = [];
  execs = [];
}

abbrev three : List Rec
three = reader ∷ builder ∷ reader ∷ []

lookup-lookup_all_example :
    let l' = lookup_all files (status ∷ passwd ∷ []) (lookup files passwd no_answers).0 in
    lookup files passwd l' ≡ (l', (lookup files passwd no_answers).1)
lookup-lookup_all_example = lookup-lookup_all files passwd (status ∷ passwd ∷ []) no_answers

aggregate-windows_example : all_windows (aggregate files 100 three).rows ≡ 3
aggregate-windows_example = aggregate-windows files 100 three

bucket_features-IsRow_example :
    IsRow (bucket_features files reader (builder ∷ reader ∷ []) no_answers).1
bucket_features-IsRow_example =
    bucket_features-IsRow files reader (builder ∷ reader ∷ []) no_answers
