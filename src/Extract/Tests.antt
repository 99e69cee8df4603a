-- ===== src/Extract/Tests.antt =====
-- The trace extraction on a concrete timeline and a concrete capture.
use e_bpf_based_kernel_ai_se.Prelude.{
  ℕ, ◌≡◌, List, [], ◌∷◌, ◌++◌, some, string_discrete, arith, take, drop, false,
}
use e_bpf_based_kernel_ai_se.Capture.Calls.{call_frame}
use e_bpf_based_kernel_ai_se.Extract.Label.{Span, unit_of, label_of, without_prefix}
use e_bpf_based_kernel_ai_se.Extract.State.{Options}
use e_bpf_based_kernel_ai_se.Extract.Events.{extract}
use e_bpf_based_kernel_ai_se.Extract.Windows.{Kept}
use e_bpf_based_kernel_ai_se.Extract.Bounds.{extract-Kept}
use e_bpf_based_kernel_ai_se.Extract.Timeline.{label_of-span_at, span_at}

abbrev timeline : List Span
timeline =
    record { first = 10; last = 20; cls = "normal"; name = "build" }
    ∷ record { first = 25; last = 60; cls = "attack"; name = "t_T1003" }
    ∷ []

label_of-span_at_example : label_of timeline 60 ≡ some ("attack", "T1003")
unfolding span_at unit_of without_prefix string_discrete
label_of-span_at_example =
    label_of-span_at timeline 60 (omega arith, (omega arith, omega arith, tt))

-- Windows of two calls, samples of at most one record.
unfoldable options : Options
options = record {
  window = 2;
  min_len = 1;
  label = "normal";
  technique = "none";
  session = "s1";
  max_records = 1;
  max_per_unit = 1;
  is_slim = false;
  timeline = timeline;
  number_map = λ nr. some nr;
  draw = λ k n. 0;
}

unfoldable capture : List (List ℕ)
unfolding call_frame
capture =
    take 40 (call_frame 10 3)
    ∷ (drop 40 (call_frame 10 3) ++ call_frame 20 4)
    ∷ (call_frame 30 5 ++ call_frame 40 3 ++ call_frame 50 3)
    ∷ []

extract-Kept_example : Kept options (extract options false capture).1
unfolding options
extract-Kept_example = extract-Kept options (omega arith) false capture
