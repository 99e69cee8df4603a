-- ===== src/Unlinks/Tests.antt =====
-- The trailing windows on a concrete audit.
use e_bpf_based_kernel_ai_se.Prelude.{ℕ, ◌≡◌, refl, List, [], ◌∷◌, some, true, false, map}
use e_bpf_based_kernel_ai_se.Decoder.Event.{pos}
use e_bpf_based_kernel_ai_se.Aggregate.Files.{same_int}
use e_bpf_based_kernel_ai_se.Unlinks.Audit.{
  Entry, Audit, audit_error, is_negative, natural, bad_time, bad_times, has_twice, bad_count,
  bad_scopes, entry_error, total_of, total_error,
}
use e_bpf_based_kernel_ai_se.Unlinks.Features.{bins_of, result, temporal_features}
use e_bpf_based_kernel_ai_se.Unlinks.Direct.{direct, temporal_features-direct}
use e_bpf_based_kernel_ai_se.Unlinks.History.{
  Sample, marks_of, clean, history_clean, has_clean_history, history_clean-direct,
}

abbrev entry : ℕ → ℕ → Entry
entry t n = record {
  bucket_ns = pos t;
  unlink_attempts = pos n;
  unique_directory_scopes = pos 0;
  unknown_scope_attempts = pos 0;
}

-- Three buckets, not in the order of time.
unfoldable audit : Audit
audit = record {
  buckets = entry 70000000000 4 ∷ entry 10000000000 2 ∷ entry 66000000000 1 ∷ [];
  dropped_outside_npz = pos 0;
  npz_buckets = pos 3;
  matched_unlink_attempts = pos 7;
  recorded_file_unlink = pos 7;
}

temporal_features-direct_example :
    temporal_features audit
    ≡ result (map (λ x. some (direct (bins_of 0 audit.buckets) x)) (bins_of 0 audit.buckets))
unfolding audit_error same_int is_negative natural bad_time bad_times has_twice bad_count bad_scopes
    entry_error total_of total_error audit
temporal_features-direct_example = temporal_features-direct audit refl

unfoldable samples : List Sample
samples =
    record { bucket_ns = pos 70000000000; is_attack = false; is_forbidden = false }
    ∷ record { bucket_ns = pos 10000000000; is_attack = true; is_forbidden = true }
    ∷ record { bucket_ns = pos 66000000000; is_attack = false; is_forbidden = false }
    ∷ []

history_clean-direct_example :
    history_clean samples
    ≡ clean (map (λ x. some (has_clean_history (marks_of 0 samples) x)) (marks_of 0 samples))
unfolding is_negative natural bad_time bad_times has_twice samples
history_clean-direct_example = history_clean-direct samples refl refl
