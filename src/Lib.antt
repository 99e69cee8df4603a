-- ===== src/Lib.antt =====
-- The Python side of an eBPF security agent. The agent in the kernel writes a stream of binary event
-- frames; the programs here read such a stream afterwards.
--
-- Behavior models agent/ai/experiments/event-time-v1/src/behavior_memory.py, a replay that raises an
-- advisory when a task opens a credential file and then, itself or through its verified
-- descendants, tries to connect to a remote address.
--   Behavior/State       `BehaviorMemory`: `__init__`, `clear`, `expire`, `drop_family`
--   Behavior/Replay      the state and exception monad of the methods
--   Behavior/Tasks       `task`, `root`, `block_thread`
--   Behavior/Forks       `fork`
--   Behavior/Regex, Behavior/Credential      `CREDENTIAL.fullmatch`
--   Behavior/Destination the tests of `ipaddress` on the address of a connect
--   Behavior/Event       the header, the sizes of the kinds, the advisory
--   Behavior/Activity    `observe` on FILE_OPEN and CONNECT
--   Behavior/Observe     `observe`, from the checks on the bytes to the handler of the kind
--   Behavior/Stream      `read_frame` and the generator `replay`
--   Behavior/Run         `summary` and `main`
-- Behavior/Invariant says when a memory is well formed; its children treat the operations in the
-- order of the calls: Admission and Admitting for `task`, Roots for `root` and
-- `block_thread`, Families and Forking for `fork`, Expiry, then Steps and Observing for `observe`.
-- Behavior/Advisories, Resets, Stream/Short and History hold the results on whole operations.
--
-- Decoder models agent/tools/decode-events.py, which turns the stream into records: Decoder/Event
-- has `decode_event` and Decoder/Frames the generator `frames`; Decoder/Agreement and
-- Decoder/Framing relate both to the framing and the checks of the replay, which reads the same
-- format.
-- Samples models agent/tools/generate-handoff-samples.py, which writes such a stream: Samples/Records
-- has the records of the host and the health, Samples/Endpoints those of processes and connections,
-- Samples/Struct `struct.pack` with its error, Samples/Framing the file, Samples/Sizes,
-- Samples/Ranges and Samples/Connections the arguments that give a record, Samples/Health and Samples/Syscalls the round
-- trips of two kinds of records.
-- Chunks models the loop that agent/ai/experiments/event-time-v1/src/detect2.py and extract.py share:
-- a buffer takes chunks of any size, and every complete frame in it is handled. Chunks/Laws treats
-- the loop for any check and handler, Chunks/Simulation two runs of it, Chunks/Keeps an invariant.
-- Capture has the fields that both programs read from an event.
-- Detector models detect2.py, which judges time buckets of a live stream: Detector/Event has the
-- checks, Detector/State `finalize`, Detector/Buckets an event, Detector/Stream the loop of `main`;
-- Detector/Pending and Detector/Conservation count the system calls.
-- Extract models extract.py, which cuts a capture into labelled windows: Extract/Label has
-- `label_of`, Extract/Flush `flush`, Extract/Events the loop and the end of `main`; Extract/Windows,
-- Extract/Bounds and Extract/Timeline hold what concerns the windows and the labels.
-- Traces models agent/ai/bin2traces.py, which turns a file into one trace for each window:
-- Traces/Convert has `main`, Traces/Bounds and Traces/Runs the sizes and the end of it.
-- Aggregate models agent/ai/experiments/event-time-v1/src/aggregate.py, which makes one row of
-- features for each time bucket: Aggregate/Paths has what it does with texts, Aggregate/Perm
-- `PermLookup`, Aggregate/Files and Aggregate/Features `bucket_features`, Aggregate/Buckets `main`.
-- Aggregate/Pids, Tallies and Shape treat a row, Grouping and Rows the file, Permissions the lookup.
-- Unlinks models agent/ai/experiments/event-time-v1/src/temporal_unlinks.py: Unlinks/Audit has the
-- checks, Unlinks/Windows the prefix sums, Unlinks/Features `temporal_features`, Unlinks/History
-- `history_clean`; Unlinks/Sorting and Placing treat the order of the rows, Unlinks/Direct the
-- computation without prefix sums.
-- Scan models agent/ai/experiments/event-time-v1/src/audit_unlink_buckets.py, which counts the unlinks
-- of a capture and writes what temporal_unlinks.py reads: Scan/Npz has the checks on the dataset,
-- Scan/Unlinks `audit`, Scan/Balance the counters during the scan, Scan/Runs a finished run,
-- Scan/Accepted and Scan/Accounts the report. Scan/Network and Scan/Incomplete treat
-- audit_network_capture.py, which counts the network events of a capture.
-- Dataset models agent/ai/experiments/event-time-v1/src/build_event_time_dataset.py, which labels the
-- buckets of the detector's log by a timeline: Dataset/Timeline has `read_timeline`, Dataset/Log
-- `read_buckets`, Dataset/Sorting `sorted`, Dataset/Rows a bucket, Dataset/Sweep `build`;
-- Dataset/Active and Dataset/Direct treat the sweep, Dataset/Recorded, Dataset/Classes and
-- Dataset/Accounts the counts, Dataset/Spans and Dataset/Labels the labels.
-- Evaluation models agent/ai/experiments/event-time-v1/src/evaluate_event_time.py and feature_schema.py,
-- which judge a forest on such datasets: Evaluation/Data has `read_data` and the mask of columns,
-- Evaluation/Scores the threshold and the counts, Evaluation/Nested `evaluate`, Evaluation/Candidate
-- `export_candidate_model`; Evaluation/Cutoff treats the threshold, Evaluation/Isolation what a held-out
-- session has no influence on, Evaluation/Sets and Evaluation/Split the parts of a candidate.
-- Vocabulary models agent/ai/syscall_map.py, which numbers the system calls: Vocabulary/Assign has
-- `main`, Vocabulary/Bounds the size of the vocabulary.
-- Dict models the ordered dictionaries, Bytes the little-endian fields of `struct`.
--
-- Choices of the model:
--   Times, identities and counts are natural numbers; the fields of an event are below their width by
--   their reading from bytes. The retention comes in nanoseconds: the float product of
--   `__init__` is outside, and so is the uuid. `ts - t >= ttl` is written as `t + ttl <= ts`.
--   A task is a Python list that `fork` compares by `is`; `Task.ref` is that identity, and a
--   changed object is written back to the slot that holds it.
--   Counter names are given whole where the source builds them by `+`.
--   A path is its bytes. The decoding with "replace" keeps every ASCII byte and turns the others into
--   at least one character that is no `/`, which is all that the pattern sees of them.
--   A source hands out at least one byte and at most as many as asked for in each `read`, as its field
--   `sizes` says. An `OSError` of the source is not modelled.
--   The decoder reads a file, where `read` falls short only at the end. Its texts are bytes, its
--   addresses packed bytes, and the name of a kind is its number.
--   `exact` has the bytes that it wants as fuel, `replay` and `frames` the bytes of the stream and one
--   more.
--   Of the detector, the score is the parameter `judge k`, which is asked for the k-th judged bucket;
--   the clock comes with each wake-up. Of the extraction, `draw k n` is the k-th random number below
--   n. The map of system calls is a function. Of the features,
--   `os.stat` is a parameter that may answer each call differently, and a number of a row is
--   `log1p` of a number, a quotient or a number, since floats are outside. Offsets in a buffer are
--   the bytes dropped from it.
--   Of the datasets, a line of a log comes as the JSON that it holds, a line of a timeline as its
--   fields, a feature as the bits of a 32-bit float. Of the evaluation, the forest is a parameter
--   with its fit, its classes and its probabilities, whose bits are compared as numbers, since
--   floats that are not negative have the order of their bits; the number of false positives that
--   is allowed among n scores is the parameter `allowed n`.
--   The generator takes natural numbers for unsigned fields; a number out of the range of its field is
--   the `struct.error` of `pack`.
--   The loops over frames have the bytes of the buffer or the file as fuel.
-- Not modelled: the command lines but that of the replay; the list of samples and the scenario manifest of
-- the generator; the statistics per class of the bucket audit; the replay of a deployed model and
-- the files of an exported one; of agent/ai/experiments/event-time-v1/src the programs that
-- finalize a session, archive a capture, and compare groups of attacks or temporal features, which
-- are mostly files, processes and calls of NumPy and scikit-learn; agent/tools/validate-handoff-bundle.py;
-- the scripts that drive a live agent; the C code of the agent; and
-- agent/ai/experiments/bucket-data9, which holds copies of extract.py and aggregate.py.
pub mod Prelude
pub mod Dict
pub mod Bytes
pub mod Behavior
pub mod Aggregate
pub mod Capture
pub mod Chunks
pub mod Dataset
pub mod Decoder
pub mod Detector
pub mod Evaluation
pub mod Extract
pub mod Samples
pub mod Scan
pub mod Traces
pub mod Unlinks
pub mod Vocabulary
