-- ===== src/Client/Calibration.antt =====
-- src/runtime_client/calibration.py. Loudness is a number of any fixed unit, of which the code only
-- takes percentiles, multiples and comparisons; `np.percentile` at the configured percentile and the
-- product with the multiplier are arguments. A block is given by its `block_rms`.
pub mod Rounds
pub mod Windows
pub mod Cycles
use phantom_runtime_lite.Prelude.{
  ℕ, ◌+◌, min, max, Bool, true, false, not, ◌&&◌, ◌||◌, Option, none, some, List, [], ◌∷◌, ◌++◌,
  length, leb, ltb, if◌then◌else◌,
}

pub record Settings : Type 0 where
  pub window_blocks : ℕ
  pub contamination_threshold : ℕ
  pub max_attempts : ℕ
  pub percentile : List ℕ → ℕ

-- `NoiseFloorSampler`; the settings do not change.
pub record NoiseFloorSampler : Type 0 where
  pub samples : List ℕ
  pub contaminated : Bool

abbrev pub new_sampler : NoiseFloorSampler
new_sampler = record { samples = []; contaminated = false }

pub record ObservationResult : Type 0 where
  pub success : Bool
  pub noise_floor : Option ℕ
  pub sample_count : ℕ
  pub attempts : ℕ

pub record EnvironmentObserver : Type 0 where
  pub attempt : ℕ
  pub sampler : NoiseFloorSampler
  pub result : Option ObservationResult

abbrev pub new_observer : EnvironmentObserver
new_observer = record { attempt = 1; sampler = new_sampler; result = none }

module _ (c : Settings) where
  unfoldable pub is_complete : NoiseFloorSampler → Bool
  is_complete s = leb c.window_blocks (length s.samples)

  -- `NoiseFloorSampler.add_block`
  unfoldable pub sample_block : ℕ → NoiseFloorSampler → NoiseFloorSampler
  unfolding is_complete
  sample_block rms s = if is_complete s then s else record {
    samples = s.samples ++ (rms ∷ []);
    contaminated = s.contaminated || leb c.contamination_threshold rms;
  }

  unfoldable pub noise_floor : NoiseFloorSampler → Option ℕ
  unfolding is_complete
  noise_floor s =
      if not (is_complete s) || s.contaminated then none else some (c.percentile s.samples)

  -- The end of a window: clean, contaminated for the last time, or to be tried again.
  unfoldable pub end_window : EnvironmentObserver → EnvironmentObserver
  unfolding noise_floor
  end_window o =
      if not o.sampler.contaminated
      then record o {
        result = some (record {
          success = true;
          noise_floor = noise_floor o.sampler;
          sample_count = length o.sampler.samples;
          attempts = o.attempt;
        });
      }
      else if leb c.max_attempts o.attempt
      then record o {
        result = some (record {
          success = false;
          noise_floor = none;
          sample_count = length o.sampler.samples;
          attempts = o.attempt;
        });
      }
      else record o { attempt = o.attempt + 1; sampler = new_sampler }

  unfoldable pub observe : ℕ → EnvironmentObserver → EnvironmentObserver
  unfolding sample_block end_window
  observe rms o =
      let o' = record o { sampler = sample_block rms o.sampler } in
      if is_complete o'.sampler then end_window o' else o'

  unfoldable pub observe_unless :
      Option ObservationResult → ℕ → EnvironmentObserver → EnvironmentObserver
  unfolding observe
  observe_unless none rms o = observe rms o
  observe_unless (some result) rms o = o

  -- `EnvironmentObserver.add_block`
  unfoldable pub observe_block : ℕ → EnvironmentObserver → EnvironmentObserver
  unfolding observe_unless
  observe_block rms o = observe_unless o.result rms o

  unfoldable pub observe_blocks : List ℕ → EnvironmentObserver → EnvironmentObserver
  unfolding observe_block
  observe_blocks [] o = o
  observe_blocks (rms ∷ blocks) o = observe_blocks blocks (observe_block rms o)

pub record CalibrationResult : Type 0 where
  pub success : Bool
  pub noise_floor : Option ℕ
  pub speech_gate : Option ℕ
  pub sample_count : ℕ
  pub attempts : ℕ

-- `multiply` is the product with the multiplier.
pub record CalibrationEngine : Type 0 where
  pub multiply : ℕ → ℕ
  pub gate_min : ℕ
  pub gate_max : ℕ

unfoldable pub derive_speech_gate : CalibrationEngine → ℕ → ℕ
derive_speech_gate e floor = max e.gate_min (min (e.multiply floor) e.gate_max)

unfoldable pub calibrate_floor :
    CalibrationEngine → Bool → Option ℕ → ObservationResult → CalibrationResult
unfolding derive_speech_gate
calibrate_floor e true (some floor) r = record {
  success = true;
  noise_floor = some floor;
  speech_gate = some (derive_speech_gate e floor);
  sample_count = r.sample_count;
  attempts = r.attempts;
}
calibrate_floor e _ _ r = record {
  success = false;
  noise_floor = none;
  speech_gate = none;
  sample_count = r.sample_count;
  attempts = r.attempts;
}

unfoldable pub calibrate : CalibrationEngine → ObservationResult → CalibrationResult
unfolding calibrate_floor
calibrate e r = calibrate_floor e r.success r.noise_floor r

pub record RecalibrationController : Type 0 where
  pub active_result : CalibrationResult
  pub last_result : Option CalibrationResult
  pub observer : Option EnvironmentObserver

abbrev pub new_controller : CalibrationResult → RecalibrationController
new_controller initial = record { active_result = initial; last_result = none; observer = none }

-- Also `request_manual_recalibration`.
unfoldable pub begin_recalibration : RecalibrationController → RecalibrationController
begin_recalibration k = record k { observer = some new_observer }

-- The end of a cycle.
unfoldable pub adopt : CalibrationResult → RecalibrationController → RecalibrationController
adopt r k = record k {
  active_result = if r.success then r else k.active_result;
  last_result = some r;
  observer = none;
}

module _ (c : Settings) (e : CalibrationEngine) where
  unfoldable pub end_cycle :
      Option ObservationResult
      → EnvironmentObserver
      → RecalibrationController
      → RecalibrationController
  unfolding adopt calibrate
  end_cycle none o k = record k { observer = some o }
  end_cycle (some r) o k = adopt (calibrate e r) k

  unfoldable pub feed_observer :
      Option EnvironmentObserver → ℕ → RecalibrationController → RecalibrationController
  unfolding end_cycle observe_block
  feed_observer none rms k = k
  feed_observer (some o) rms k = let o' = observe_block c rms o in end_cycle o'.result o' k

  -- `RecalibrationController.add_block`
  unfoldable pub feed_block : ℕ → RecalibrationController → RecalibrationController
  unfolding feed_observer
  feed_block rms k = feed_observer k.observer rms k

  unfoldable pub feed_blocks : List ℕ → RecalibrationController → RecalibrationController
  unfolding feed_block
  feed_blocks [] k = k
  feed_blocks (rms ∷ blocks) k = feed_blocks blocks (feed_block rms k)
