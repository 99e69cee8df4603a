-- ===== src/Detector/Tests.antt =====
-- The stream detector on a concrete stream.
use e_bpf_based_kernel_ai_se.Prelude.{
  ◌≡◌, refl, List, [], ◌∷◌, ◌++◌, none, some, true, false, if◌then◌else◌, ◌==◌, take, drop,
}
use e_bpf_based_kernel_ai_se.Bytes.{little, u16, u32, u64, little_endian, bytes_of}
use e_bpf_based_kernel_ai_se.Chunks.{more, run, joined, parse, take_frame}
use e_bpf_based_kernel_ai_se.Capture.{is_corrupt}
use e_bpf_based_kernel_ai_se.Capture.Calls.{call_frame}
use e_bpf_based_kernel_ai_se.Detector.Event.{check_frame, check_event, header_of, min_event_size}
use e_bpf_based_kernel_ai_se.Detector.State.{Config, start}
use e_bpf_based_kernel_ai_se.Detector.Stream.{idle, chunk, detect, Tick}
use e_bpf_based_kernel_ai_se.Detector.Conservation.{EndsAs, count_event, chunks_of, detect-counts}
use e_bpf_based_kernel_ai_se.Detector.Pending.{known_call}

-- Buckets of 100 time units; every call but the number 9 is known.
unfoldable config : Config
config = record {
  bucket_ns = 100;
  grace_ns = 50;
  number_map = λ nr. if nr == 9 then none else some nr;
  judge = λ k recs. false;
  is_quiet = false;
  explains = true;
  diagnoses = true;
  summary_only = false;
}

-- Three calls in two buckets, one of them unknown, cut within the first and the second frame.
unfoldable three_calls : List Tick
unfolding call_frame
three_calls =
    chunk 10 (take 30 (call_frame 120 3))
    ∷ chunk 20 (drop 30 (call_frame 120 3) ++ take 5 (call_frame 130 9))
    ∷ idle 200
    ∷ chunk 210 (drop 5 (call_frame 130 9) ++ call_frame 350 3)
    ∷ []

three_calls_counted :
    run check_frame (count_event config) (joined (chunks_of three_calls)) 0 ≡ more 2 []
unfolding run parse take_frame check_frame is_corrupt check_event min_event_size header_of little
    u16 u32 u64 little_endian bytes_of call_frame three_calls known_call config
three_calls_counted = refl

detect-counts_example :
    EndsAs config
      (detect config three_calls [] start)
      (run check_frame (count_event config) (joined (chunks_of three_calls)) 0)
detect-counts_example = detect-counts config three_calls
