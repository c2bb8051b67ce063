-- ===== src/Client/Bridge.antt =====
-- src/runtime_client/audio_bridge.py: the pump between the microphone and the connection. A block is
-- its loudness (`block_rms`) and its bytes. The debug output is left out.
pub mod Gate
use phantom_runtime_lite.Prelude.{
  ℕ, suc, Bool, true, false, not, Option, none, some, List, [], ◌∷◌, ◌++◌, length, ltb,
  if◌then◌else◌,
}
use phantom_runtime_lite.Client.Calibration.{CalibrationResult, RecalibrationController}

pub record Block : Type 0 where
  pub rms : ℕ
  pub bytes : List ℕ

abbrev or_threshold : ℕ → Option ℕ → ℕ
or_threshold threshold none = threshold
or_threshold threshold (some gate) = gate

-- `_current_speech_gate`
unfoldable pub current_speech_gate : ℕ → Option RecalibrationController → ℕ
current_speech_gate threshold none = threshold
current_speech_gate threshold (some k) = or_threshold threshold k.active_result.speech_gate

-- What a round of `_run_pump` hands to the event loop: `recording` is `_recording_active`, `disabled`
-- the environment's flag.
unfoldable pub pump_block :
    ℕ → Option RecalibrationController → Bool → Bool → Block → Option (List ℕ)
unfolding current_speech_gate
pump_block threshold controller recording disabled b =
    if not recording
    then none
    else if disabled
    then some b.bytes
    else if ltb b.rms (current_speech_gate threshold controller)
    then none
    else some b.bytes

-- The queue to the connection, and how often `_on_block_sent` was called.
pub record Outgoing : Type 0 where
  pub out_queue : List (List ℕ)
  pub blocks_sent : ℕ

-- `_enqueue`, with the callback that main.py gives.
unfoldable pub enqueue : ℕ → List ℕ → Outgoing → Outgoing
enqueue maxsize bytes out = record {
  out_queue =
      if ltb (length out.out_queue) maxsize then out.out_queue ++ (bytes ∷ []) else out.out_queue;
  blocks_sent = suc out.blocks_sent;
}
