-- ===== src/Tests/Capture.antt =====
-- src/runtime_client: calibrations, blocks and events of the client.
use phantom_runtime_lite.Prelude.{
  ℕ, max, ◌-◌, ◌*◌, ◌≤◌, String, true, false, none, some, List, [], ◌∷◌, string_eq, length, ◌≡◌,
  ◌≢◌, refl, arith,
}
use phantom_runtime_lite.Value.{Value, str, dict, end, field}
use phantom_runtime_lite.Client.Calibration.{
  Settings, ObservationResult, CalibrationResult, CalibrationEngine, new_observer, new_controller,
  observe_blocks, begin_recalibration, feed_blocks, calibrate, calibrate_floor, derive_speech_gate,
}
use phantom_runtime_lite.Client.Calibration.Windows.{
  observed, clean_result, observe_blocks-observed, observe_blocks-ends,
}
use phantom_runtime_lite.Client.Calibration.Cycles.{
  Request, recalibrate, feed, serve_all, IsGated, after_cycle, cycle_lem,
}
use phantom_runtime_lite.Client.Bridge.{Block, pump_block}
use phantom_runtime_lite.Client.Bridge.Gate.{pump_block-bounds}
use phantom_runtime_lite.Client.Events.{
  Client, new_store, keep_last, handle_lines, handle_line, handle_envelope, handle_typed,
  handle_named, handle_transcript, append_log, get,
}
use phantom_runtime_lite.Client.Events.Log.{all_entries, handle_lines_log}

-- Two windows of two blocks; the louder block stands for the percentile.
abbrev loudest : List ℕ → ℕ
loudest [] = 0
loudest (x ∷ xs) = max x (loudest xs)

abbrev two_windows : Settings
two_windows = record {
  window_blocks = 2;
  contamination_threshold = 150;
  max_attempts = 2;
  percentile = loudest;
}

abbrev noisy_then_quiet : List ℕ
noisy_then_quiet = 100 ∷ 300 ∷ 90 ∷ 120 ∷ 80 ∷ []

abbrev second_window : ObservationResult
second_window = clean_result two_windows 2 (90 ∷ 120 ∷ [])

amounts_to : observed two_windows 1 1 noisy_then_quiet ≡ some second_window
amounts_to = refl

observe_blocks-observed_example :
    (observe_blocks two_windows noisy_then_quiet new_observer).result
    ≡ observed two_windows (2 - 1) 1 noisy_then_quiet
observe_blocks-observed_example = observe_blocks-observed two_windows noisy_then_quiet (omega arith)

observe_blocks-ends_example :
    (observe_blocks two_windows noisy_then_quiet new_observer).result ≢ none
observe_blocks-ends_example =
    observe_blocks-ends two_windows noisy_then_quiet (omega arith) (omega arith) (omega arith)

abbrev doubling : CalibrationEngine
doubling = record { multiply = λ n. n * 2; gate_min = 150; gate_max = 2500 }

abbrev first_calibration : CalibrationResult
first_calibration = record {
  success = true;
  noise_floor = some 100;
  speech_gate = some 200;
  sample_count = 2;
  attempts = 1;
}

first-IsGated : IsGated doubling first_calibration
first-IsGated = (refl, (200, (refl, (omega arith, omega arith))))

second_gate : (calibrate doubling second_window).speech_gate ≡ some 240
unfolding calibrate calibrate_floor derive_speech_gate
second_gate = refl

cycle_lem_example :
    feed_blocks two_windows doubling noisy_then_quiet
      (begin_recalibration (new_controller first_calibration))
    ≡ after_cycle doubling second_window (new_controller first_calibration)
cycle_lem_example =
    cycle_lem two_windows doubling noisy_then_quiet second_window (new_controller first_calibration)
      (omega arith) amounts_to

abbrev one_cycle : List Request
one_cycle = recalibrate ∷ feed 100 ∷ feed 110 ∷ recalibrate ∷ feed 300 ∷ []

abbrev loud_block : Block
loud_block = record { rms = 2600; bytes = 1 ∷ 2 ∷ [] }

pump_block-bounds_example :
    ((pump_block 900
          (some (serve_all two_windows doubling one_cycle (new_controller first_calibration)))
          true
          false
          loud_block
        ≢ none)
      → (true ≡ true) × (150 ≤ 2600))
    × (true ≡ true
        → 2500 ≤ 2600
        → pump_block 900
            (some (serve_all two_windows doubling one_cycle (new_controller first_calibration)))
            true
            false
            loud_block
          ≡ some (1 ∷ 2 ∷ []))
pump_block-bounds_example =
    pump_block-bounds two_windows doubling first_calibration one_cycle 900 true loud_block
      (omega arith) first-IsGated

-- A line is taken for the text of a transcript; a text is its own `str`.
abbrev as_text : Value → String
as_text (str s) = s
as_text _ = "?"

abbrev one_entry_client : Client
one_entry_client = record {
  loads = λ line. some (
      dict (
        field "type" (str "transcript")
          (field "payload" (dict (field "text" (str line) end)) end)));
  str_of = as_text;
  now_ts = "10:00:00";
  speaks = false;
  maxlen = 1;
}

abbrev two_lines : List String
two_lines = "hello" ∷ "again" ∷ []

last_kept :
    (handle_lines one_entry_client two_lines new_store).transcript_log
    ≡ ((record { text = "again"; lang = ""; ts = "10:00:00"; speaker = "unknown" }) ∷ [])
unfolding handle_lines handle_line handle_envelope handle_typed handle_named handle_transcript
    append_log keep_last get string_eq
last_kept = refl

handle_lines_log_example :
    ((handle_lines one_entry_client two_lines new_store).transcript_log
      ≡ keep_last 1 (all_entries one_entry_client two_lines))
    × (length (handle_lines one_entry_client two_lines new_store).transcript_log ≤ 1
        × (length (all_entries one_entry_client two_lines) ≤ 1
            → (handle_lines one_entry_client two_lines new_store).transcript_log
              ≡ all_entries one_entry_client two_lines))
handle_lines_log_example = handle_lines_log one_entry_client two_lines
