-- ===== src/Client/Calibration/Cycles.antt =====
-- The re-calibration cycles of src/runtime_client/calibration.py and the speech gate they leave.
use phantom_runtime_lite.Prelude.{
  ℕ, ◌-◌, ◌≤◌, ◌<◌, min, max, Bool, true, false, Option, none, some, List, [], ◌∷◌, ◌≡◌, ◌⊎◌, refl,
  sym, ap, ◌∙◌, arith, Bool-cases, Option-cases, inl, inr, if◌then◌else◌,
}
use mathlib.Core.Option.{some-injective}
use phantom_runtime_lite.Client.Calibration.{
  Settings, ObservationResult, EnvironmentObserver, new_observer, observe_block, observe_blocks,
  CalibrationResult, CalibrationEngine, derive_speech_gate, calibrate_floor, calibrate,
  RecalibrationController, new_controller, begin_recalibration, adopt, end_cycle, feed_observer,
  feed_block, feed_blocks,
}
use phantom_runtime_lite.Client.Calibration.Windows.{observed, observe_blocks-observed}
use phantom_runtime_lite.Client.Calibration.Rounds.{blocks_ignored}

-- What the client does with the controller.
pub data Request : Type 0 where
  recalibrate : Request
  feed : ℕ → Request

module _ (c : Settings) (e : CalibrationEngine) where
  abbrev pub serve : Request → RecalibrationController → RecalibrationController
  serve recalibrate k = begin_recalibration k
  serve (feed rms) k = feed_block c e rms k

  abbrev pub serve_all : List Request → RecalibrationController → RecalibrationController
  serve_all [] k = k
  serve_all (r ∷ rs) k = serve_all rs (serve r k)

-- A result whose gate lies within the bounds of the engine.
abbrev pub IsGated : CalibrationEngine → CalibrationResult → Type 0
IsGated e r =
    (r.success ≡ true)
    × ((gate : ℕ) × ((r.speech_gate ≡ some gate) × ((e.gate_min ≤ gate) × (gate ≤ e.gate_max))))

calibrate_floor-IsGated :
    (e : CalibrationEngine) (b : Bool) (floor : Option ℕ) (r : ObservationResult)
    → e.gate_min ≤ e.gate_max
    → (calibrate_floor e b floor r).success ≡ true
    → IsGated e (calibrate_floor e b floor r)
unfolding calibrate_floor derive_speech_gate
calibrate_floor-IsGated e true (some floor) r ordered ok =
    (refl, (max e.gate_min (min (e.multiply floor) e.gate_max), (refl, (omega arith, omega arith))))
calibrate_floor-IsGated e true none r ordered ok = absurd (cc ok)
calibrate_floor-IsGated e false none r ordered ok = absurd (cc ok)
calibrate_floor-IsGated e false (some floor) r ordered ok = absurd (cc ok)

module _ (c : Settings) (e : CalibrationEngine) (ordered : e.gate_min ≤ e.gate_max) where
  adopted :
      (initial : CalibrationResult) (r : ObservationResult) (k : RecalibrationController)
      → (k.active_result ≡ initial) ⊎ IsGated e k.active_result
      → ((adopt (calibrate e r) k).active_result ≡ initial)
        ⊎ IsGated e (adopt (calibrate e r) k).active_result
  unfolding adopt calibrate
  adopted initial r k before = elim (Bool-cases (calibrate e r).success) [
    | inl ok ↦ rw (ok) (inr (calibrate_floor-IsGated e r.success r.noise_floor r ordered ok))
    | inr failed ↦ rw (failed) before
  ]

  ended :
      (initial : CalibrationResult) (o : Option ObservationResult) (ob : EnvironmentObserver)
      (k : RecalibrationController)
      → (k.active_result ≡ initial) ⊎ IsGated e k.active_result
      → ((end_cycle c e o ob k).active_result ≡ initial)
        ⊎ IsGated e (end_cycle c e o ob k).active_result
  unfolding end_cycle
  ended initial none ob k before = before
  ended initial (some r) ob k before = adopted initial r k before

  fed :
      (initial : CalibrationResult) (o : Option EnvironmentObserver) (rms : ℕ)
      (k : RecalibrationController)
      → (k.active_result ≡ initial) ⊎ IsGated e k.active_result
      → ((feed_observer c e o rms k).active_result ≡ initial)
        ⊎ IsGated e (feed_observer c e o rms k).active_result
  unfolding feed_observer
  fed initial none rms k before = before
  fed initial (some o) rms k before =
      ended initial (observe_block c rms o).result (observe_block c rms o) k before

  served :
      (initial : CalibrationResult) (rs : List Request) (k : RecalibrationController)
      → (k.active_result ≡ initial) ⊎ IsGated e k.active_result
      → ((serve_all c e rs k).active_result ≡ initial)
        ⊎ IsGated e (serve_all c e rs k).active_result
  unfolding begin_recalibration feed_block
  served initial [] k before = before
  served initial (recalibrate ∷ rs) k before = served initial rs (begin_recalibration k) before
  served initial (feed rms ∷ rs) k before =
      served initial rs (feed_block c e rms k) (fed initial k.observer rms k before)

  -- Whatever is requested and fed, the active calibration is the initial one or a success whose gate
  -- lies within the bounds of the engine: a failed cycle never takes effect. The bounds are in order.
  pub serve_all-IsGated :
      (initial : CalibrationResult) (rs : List Request)
      → ((serve_all c e rs (new_controller initial)).active_result ≡ initial)
        ⊎ IsGated e (serve_all c e rs (new_controller initial)).active_result
  serve_all-IsGated initial rs = served initial rs (new_controller initial) (inl refl)

-- What a recording is worth: the noise floor of a clean one.
abbrev pub clean_floor : ObservationResult → Option ℕ
clean_floor r = if r.success then r.noise_floor else none

-- The calibration that a floor calls for, with the gate held between its bounds.
abbrev pub result_for : CalibrationEngine → ObservationResult → Option ℕ → CalibrationResult
result_for e r none = record {
  success = false;
  noise_floor = none;
  speech_gate = none;
  sample_count = r.sample_count;
  attempts = r.attempts;
}
result_for e r (some floor) = record {
  success = true;
  noise_floor = some floor;
  speech_gate = some (max e.gate_min (min (e.multiply floor) e.gate_max));
  sample_count = r.sample_count;
  attempts = r.attempts;
}

-- Without a floor, the calibration before stays in effect.
abbrev pub in_effect :
    CalibrationEngine → ObservationResult → Option ℕ → CalibrationResult → CalibrationResult
in_effect e r none before = before
in_effect e r (some floor) before = result_for e r (some floor)

-- The controller after a cycle with this recording.
abbrev pub after_cycle :
    CalibrationEngine → ObservationResult → RecalibrationController → RecalibrationController
after_cycle e r k = record {
  active_result = in_effect e r (clean_floor r) k.active_result;
  last_result = some (result_for e r (clean_floor r));
  observer = none;
}

adopt-calibrate_floor :
    (e : CalibrationEngine) (b : Bool) (floor : Option ℕ) (r : ObservationResult)
    (k : RecalibrationController)
    → adopt (calibrate_floor e b floor r) k ≡ (
        let seen = if b then floor else none in
        record {
          active_result = in_effect e r seen k.active_result;
          last_result = some (result_for e r seen);
          observer = none;
        })
unfolding adopt calibrate_floor derive_speech_gate
adopt-calibrate_floor e true none r k = refl
adopt-calibrate_floor e true (some floor) r k = refl
adopt-calibrate_floor e false none r k = refl
adopt-calibrate_floor e false (some floor) r k = refl

adopt-calibrate :
    (e : CalibrationEngine) (r : ObservationResult) (k : RecalibrationController)
    → adopt (calibrate e r) k ≡ after_cycle e r k
unfolding calibrate
adopt-calibrate e r k = adopt-calibrate_floor e r.success r.noise_floor r k

module _ (c : Settings) (e : CalibrationEngine) where
  idle_feed :
      (blocks : List ℕ) (k : RecalibrationController)
      → k.observer ≡ none
      → feed_blocks c e blocks k ≡ k
  unfolding feed_blocks feed_block feed_observer
  idle_feed [] k idle = refl
  idle_feed (x ∷ blocks) k idle =
      ap (λ o. feed_blocks c e blocks (feed_observer c e o x k)) idle ∙ idle_feed blocks k idle

  cycle_from :
      (blocks : List ℕ) (o : EnvironmentObserver) (r : ObservationResult)
      (k : RecalibrationController)
      → o.result ≡ none
      → k.observer ≡ some o
      → (observe_blocks c blocks o).result ≡ some r
      → feed_blocks c e blocks k ≡ adopt (calibrate e r) k
  unfolding feed_blocks feed_block observe_blocks adopt
  cycle_from [] o r k open_still watching done = absurd (cc)
  cycle_from (x ∷ blocks) o r k open_still watching done =
      let o' = observe_block c x o in
      ap (λ w. feed_blocks c e blocks (feed_observer c e w x k)) watching
      ∙ elim (Option-cases o'.result) [
        | inl waits ↦
            ap (λ s. feed_blocks c e blocks s) (unfold feed_observer end_cycle in rw (waits) refl)
            ∙ cycle_from blocks o' r (record k { observer = some o' }) waits refl done
        | inr (r', ended) ↦
            let same : r' ≡ r =
              (some-injective r' r (
                sym ended
                ∙ ap (λ s. s.result) (sym (blocks_ignored c blocks o' r' ended))
                ∙ done)) in
            ap (λ s. feed_blocks c e blocks s) (unfold feed_observer end_cycle in rw (ended) refl)
            ∙ idle_feed blocks (adopt (calibrate e r') k) refl
            ∙ ap (λ s. adopt (calibrate e s) k) same
      ]

  -- A cycle that is not restarted ends with the calibration of what its recording amounts to, read
  -- window by window, however many blocks follow, and no cycle runs on. A clean recording gives a gate
  -- between the bounds, which takes effect; of any other the last result is a failure, and the
  -- calibration before stays in effect.
  pub cycle_lem :
      (blocks : List ℕ) (r : ObservationResult) (k : RecalibrationController)
      → 0 < c.window_blocks
      → observed c (c.max_attempts - 1) 1 blocks ≡ some r
      → feed_blocks c e blocks (begin_recalibration k) ≡ after_cycle e r k
  unfolding begin_recalibration adopt
  cycle_lem blocks r k some_room amounts =
      cycle_from blocks new_observer r (begin_recalibration k) refl refl
        (observe_blocks-observed c blocks some_room ∙ amounts)
      ∙ adopt-calibrate e r k
