-- ===== src/Client/Bridge/Gate.antt =====
-- Which blocks src/runtime_client/audio_bridge.py forwards, with the gate that the re-calibration of
-- src/runtime_client/calibration.py sets while it runs.
use phantom_runtime_lite.Prelude.{
  ℕ, ◌≤◌, Bool, true, false, Option, none, some, List, ltb, ◌≡◌, ◌≢◌, ◌⊎◌, refl, arith, Bool-cases,
  inl, inr,
}
use phantom_runtime_lite.Client.Calibration.{
  Settings, CalibrationResult, CalibrationEngine, RecalibrationController, new_controller,
}
use phantom_runtime_lite.Client.Calibration.Cycles.{Request, serve_all, serve_all-IsGated, IsGated}
use phantom_runtime_lite.Client.Bridge.{Block, current_speech_gate, pump_block}

-- With the gate on and a controller whose active calibration has a gate within the bounds.
gate_bounds :
    (e : CalibrationEngine) (threshold : ℕ) (k : RecalibrationController)
    → IsGated e k.active_result
    → (e.gate_min ≤ current_speech_gate threshold (some k))
      × (current_speech_gate threshold (some k) ≤ e.gate_max)
unfolding current_speech_gate
gate_bounds e threshold k (ok, (gate, (set, bounds))) = rw (set) bounds

still-IsGated :
    (e : CalibrationEngine) (initial r : CalibrationResult)
    → IsGated e initial
    → (r ≡ initial) ⊎ IsGated e r
    → IsGated e r
still-IsGated e initial r gated (inl same) = rw (same) gated
still-IsGated e initial r gated (inr own) = own

-- A block handed on is as loud as the gate at least; one that is not is quieter, or the recording is
-- off.
pumped :
    (threshold : ℕ) (k : Option RecalibrationController) (recording : Bool) (b : Block)
    → ((pump_block threshold k recording false b ≢ none)
        → (recording ≡ true) × (current_speech_gate threshold k ≤ b.rms))
      × (recording ≡ true
          → current_speech_gate threshold k ≤ b.rms
          → pump_block threshold k recording false b ≡ some b.bytes)
unfolding pump_block
pumped threshold k false b = (λ p. absurd (p refl), λ on loud. absurd (cc on))
pumped threshold k true b = elim (Bool-cases (ltb b.rms (current_speech_gate threshold k))) [
  | inl quiet ↦ rw (quiet) (λ p. absurd (p refl), λ on loud. absurd (ground arith))
  | inr loud ↦ rw (loud) (λ p. (refl, ground arith), λ on l. refl)
]

-- Whatever calibration cycles are requested and however they end, while the gate is enabled: a block
-- is forwarded only if the recording is on and it is as loud as the smallest gate, and while the
-- recording is on a block as loud as the largest gate is forwarded. The first calibration is a success
-- of the engine, whose bounds are in order.
pub pump_block-bounds :
    (c : Settings) (e : CalibrationEngine) (initial : CalibrationResult) (rs : List Request)
    (threshold : ℕ) (recording : Bool) (b : Block)
    → e.gate_min ≤ e.gate_max
    → IsGated e initial
    → ((pump_block threshold (some (serve_all c e rs (new_controller initial))) recording false b
          ≢ none)
        → (recording ≡ true) × (e.gate_min ≤ b.rms))
      × (recording ≡ true
          → e.gate_max ≤ b.rms
          → pump_block threshold
              (some (serve_all c e rs (new_controller initial)))
              recording
              false
              b
            ≡ some b.bytes)
pump_block-bounds c e initial rs threshold recording b ordered gated =
    let k = serve_all c e rs (new_controller initial) in
    let (low, high) =
      gate_bounds e threshold k (
        still-IsGated e initial k.active_result gated (serve_all-IsGated c e ordered initial rs)) in
    let (only, all) = pumped threshold (some k) recording b in
    (
      λ p. let (on, loud) = only p in (on, omega (arith, low, loud)),
      λ on loud. all on (omega (arith, high, loud)),
    )
