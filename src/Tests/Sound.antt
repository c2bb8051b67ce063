-- ===== src/Tests/Sound.antt =====
-- The voice detection of src/audio on small blocks.
use phantom_runtime_lite.Prelude.{
  ◌+◌, ◌≤◌, Bool, true, false, some, List, [], ◌∷◌, ◌++◌, ◌≡◌, ◌↔◌, refl, arith, length, pos, leb_ℤ,
}
use phantom_runtime_lite.Audio.Buffer.{
  Block, concat, Config, VadBuffer, new_buffer, append_segment, process_frame,
}
use phantom_runtime_lite.Audio.Buffer.Invariant.{IsInline, IsManual, IsValid}
use phantom_runtime_lite.Audio.Buffer.Operations.{
  Op, segment, frame, idle, apply_all, reachable-IsValid,
}
use phantom_runtime_lite.Audio.Buffer.Segments.{IsSegment, process_frame-IsSegment}
use phantom_runtime_lite.Audio.Buffer.Limit.{oldest_length, append_within_limit_iff}
use phantom_runtime_lite.Audio.Vad.{Settings, arrived, queue_empty, new_orchestrator, run}
use phantom_runtime_lite.Audio.Vad.Utterance.{spoken, audio_of, utterance_delivered}

abbrev config : Config
config = record {
  sample_rate = 10;
  pre_buffer_blocks = 2;
  min_samples = 2;
  max_samples = 8;
  silence_blocks = 1;
  max_manual_samples = 6;
  tail_padding_samples = 1;
}

abbrev loud : Block
loud = pos 9 ∷ pos 8 ∷ []

abbrev quiet : Block
quiet = pos 0 ∷ []

abbrev calls : List Op
calls = frame quiet true ∷ frame loud false ∷ segment loud ∷ frame quiet true ∷ idle 5 4 ∷ []

reachable-IsValid_example : IsValid config (apply_all config calls new_buffer)
reachable-IsValid_example = reachable-IsValid config calls

-- A buffer in the middle of an utterance.
abbrev speaking : VadBuffer
speaking = record new_buffer { blocks = loud ∷ []; total_samples = 2; has_speech = true }

speaking-IsInline : IsInline config speaking
speaking-IsInline = record { total = refl; pre_fits = omega arith; below_max = λ _. omega arith }

speaking_ends : (process_frame config quiet true speaking).0 ≡ some (loud ++ quiet)
unfolding process_frame
speaking_ends = refl

process_frame-IsSegment_example : IsSegment config quiet true speaking (loud ++ quiet)
process_frame-IsSegment_example =
    process_frame-IsSegment config quiet true speaking refl (loud ++ quiet) speaking-IsInline
      speaking_ends

abbrev recorded : VadBuffer
recorded = record new_buffer { audio_buffer = loud ∷ []; duration = 2; segments = 1 }

recorded-IsManual : IsManual recorded
recorded-IsManual = record { duration = refl; segments = refl }

append_within_limit_iff_example :
    ((append_segment config loud recorded).0.duration ≤ config.max_manual_samples) ↔ (
      recorded.duration + length loud
      ≤ config.max_manual_samples + oldest_length recorded.audio_buffer)
append_within_limit_iff_example = append_within_limit_iff config loud recorded recorded-IsManual

abbrev settings : Settings
settings = record {
  sample_rate = 10;
  block_size = 2;
  min_samples = 2;
  max_samples = 8;
  silence_blocks = 2;
  pre_buffer_blocks = 2;
}

abbrev is_quiet : Block → Bool
is_quiet [] = true
is_quiet (n ∷ _) = leb_ℤ n (pos 0)

utterance_delivered_example :
    (run settings is_quiet
      (arrived 1 loud ∷ (spoken ((3, loud) ∷ []) ++ (queue_empty 9 ∷ [])))
      (new_orchestrator 0)).0
    ≡ (loud ++ concat (audio_of ((3, loud) ∷ []))) ∷ []
utterance_delivered_example =
    utterance_delivered settings is_quiet 0 1 9 loud ((3, loud) ∷ []) refl (refl, tt) (omega arith)
      (omega arith) (omega arith) (omega arith)
