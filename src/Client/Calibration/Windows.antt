-- ===== src/Client/Calibration/Windows.antt =====
-- The observer of src/runtime_client/calibration.py against a reading of the whole recording, window
-- by window.
use phantom_runtime_lite.Prelude.{
  ℕ, zero, suc, ◌+◌, ◌-◌, ◌*◌, ◌≤◌, ◌<◌, true, false, Option, none, some, List, [], length, take,
  drop, length-drop, length-take, take-drop, leb, ltb, if◌then◌else◌, ◌≡◌, ◌≢◌, refl, sym, ap, ◌∙◌,
  arith, Bool-cases, inl, inr,
}
use phantom_runtime_lite.Client.Calibration.{
  Settings, ObservationResult, new_observer, is_complete, noise_floor, end_window, observe_blocks,
}
use phantom_runtime_lite.Client.Calibration.Rounds.{
  dirty, within, blocks-append, blocks_ignored, short_window, whole_window,
}

module _ (c : Settings) where
  abbrev pub clean_result : ℕ → List ℕ → ObservationResult
  clean_result attempt window = record {
    success = true;
    noise_floor = some (c.percentile window);
    sample_count = c.window_blocks;
    attempts = attempt;
  }

  abbrev pub failed_result : ℕ → ObservationResult
  failed_result attempt = record {
    success = false;
    noise_floor = none;
    sample_count = c.window_blocks;
    attempts = attempt;
  }

  -- A window that is not complete yet, a clean one, or one that leaves it to `otherwise`.
  abbrev pub first_window : ℕ → Option ObservationResult → List ℕ → Option ObservationResult
  first_window attempt otherwise blocks =
      if ltb (length blocks) c.window_blocks
      then none
      else if dirty c (take c.window_blocks blocks)
      then otherwise
      else some (clean_result attempt (take c.window_blocks blocks))

  -- What a recording amounts to, with so many further attempts left.
  abbrev pub observed : ℕ → ℕ → List ℕ → Option ObservationResult
  observed zero attempt blocks = first_window attempt (some (failed_result attempt)) blocks
  observed (suc left) attempt blocks =
      first_window attempt (observed left (attempt + 1) (drop c.window_blocks blocks)) blocks

  clean_end :
      (attempt : ℕ) (window : List ℕ)
      → length window ≡ c.window_blocks
      → dirty c window ≡ false
      → (end_window c (within c attempt window)).result ≡ some (clean_result attempt window)
  unfolding end_window noise_floor is_complete
  clean_end attempt window full clean =
      let complete : leb c.window_blocks (length window) ≡ true = (ground arith) in
      rw (clean, complete, full) refl

  failed_end :
      (attempt : ℕ) (window : List ℕ)
      → length window ≡ c.window_blocks
      → dirty c window ≡ true
      → leb c.max_attempts attempt ≡ true
      → (end_window c (within c attempt window)).result ≡ some (failed_result attempt)
  unfolding end_window
  failed_end attempt window full noisy last = rw (noisy, last, full) refl

  retried_end :
      (attempt : ℕ) (window : List ℕ)
      → dirty c window ≡ true
      → leb c.max_attempts attempt ≡ false
      → end_window c (within c attempt window) ≡ within c (attempt + 1) []
  unfolding end_window
  retried_end attempt window noisy more = rw (noisy, more) refl

  -- The first whole window of a recording, and what comes behind it.
  window_first :
      (attempt : ℕ) (blocks : List ℕ)
      → 0 < c.window_blocks
      → c.window_blocks ≤ length blocks
      → observe_blocks c blocks (within c attempt [])
        ≡ observe_blocks c
            (drop c.window_blocks blocks)
            (end_window c (within c attempt (take c.window_blocks blocks)))
  window_first attempt blocks some_room enough =
      let n = c.window_blocks in
      ap (λ l. observe_blocks c l (within c attempt [])) (sym (take-drop n blocks))
      ∙ blocks-append c (take n blocks) (drop n blocks) (within c attempt [])
      ∙ ap (observe_blocks c (drop n blocks)) (
          whole_window c attempt (take n blocks) [] some_room
            (omega (arith, length-take n blocks enough)))

  settled :
      (attempt : ℕ) (blocks : List ℕ) (r : ObservationResult)
      → 0 < c.window_blocks
      → c.window_blocks ≤ length blocks
      → (end_window c (within c attempt (take c.window_blocks blocks))).result ≡ some r
      → (observe_blocks c blocks (within c attempt [])).result ≡ some r
  settled attempt blocks r some_room enough done =
      let o = end_window c (within c attempt (take c.window_blocks blocks)) in
      ap (λ x. x.result)
        (window_first attempt blocks some_room enough
          ∙ blocks_ignored c (drop c.window_blocks blocks) o r done)
      ∙ done

  first_short :
      (attempt : ℕ) (otherwise : Option ObservationResult) (blocks : List ℕ)
      → ltb (length blocks) c.window_blocks ≡ true
      → (observe_blocks c blocks (within c attempt [])).result
        ≡ first_window attempt otherwise blocks
  first_short attempt otherwise blocks short =
      rw (short, short_window c attempt blocks [] (ground arith)) refl

  first_clean :
      (attempt : ℕ) (otherwise : Option ObservationResult) (blocks : List ℕ)
      → 0 < c.window_blocks
      → ltb (length blocks) c.window_blocks ≡ false
      → dirty c (take c.window_blocks blocks) ≡ false
      → (observe_blocks c blocks (within c attempt [])).result
        ≡ first_window attempt otherwise blocks
  first_clean attempt otherwise blocks some_room whole clean =
      let window = take c.window_blocks blocks in
      let enough : c.window_blocks ≤ length blocks = (ground arith) in
      let full = length-take c.window_blocks blocks enough in
      settled attempt blocks (clean_result attempt window) some_room enough
        (clean_end attempt window full clean)
      ∙ rw (whole, clean) refl

  observed_from :
      (left attempt : ℕ) (blocks : List ℕ)
      → 0 < c.window_blocks
      → left ≡ c.max_attempts - attempt
      → (observe_blocks c blocks (within c attempt [])).result ≡ observed left attempt blocks
  observed_from zero attempt blocks some_room count =
      elim (Bool-cases (ltb (length blocks) c.window_blocks)) [
        | inl short ↦ first_short attempt (some (failed_result attempt)) blocks short
        | inr whole ↦ elim (Bool-cases (dirty c (take c.window_blocks blocks))) [
          | inl noisy ↦
              let window = take c.window_blocks blocks in
              let enough : c.window_blocks ≤ length blocks = (ground arith) in
              let full = length-take c.window_blocks blocks enough in
              let last : leb c.max_attempts attempt ≡ true = (ground (arith, count)) in
              settled attempt blocks (failed_result attempt) some_room enough
                (failed_end attempt window full noisy last)
              ∙ rw (whole, noisy) refl
          | inr clean ↦
              first_clean attempt (some (failed_result attempt)) blocks some_room whole clean
        ]
      ]
  observed_from (suc left) attempt blocks some_room count =
      let rest = drop c.window_blocks blocks in
      elim (Bool-cases (ltb (length blocks) c.window_blocks)) [
        | inl short ↦ first_short attempt (observed left (attempt + 1) rest) blocks short
        | inr whole ↦ elim (Bool-cases (dirty c (take c.window_blocks blocks))) [
          | inl noisy ↦
              let window = take c.window_blocks blocks in
              let enough : c.window_blocks ≤ length blocks = (ground arith) in
              let more : leb c.max_attempts attempt ≡ false = (ground (arith, count)) in
              let again =
                window_first attempt blocks some_room enough
                ∙ ap (observe_blocks c rest) (retried_end attempt window noisy more) in
              ap (λ o. o.result) again
              ∙ observed_from left (attempt + 1) rest some_room (omega (arith, count))
              ∙ rw (whole, noisy) refl
          | inr clean ↦
              first_clean attempt (observed left (attempt + 1) rest) blocks some_room whole clean
        ]
      ]

  first_window_some :
      (attempt : ℕ) (otherwise : Option ObservationResult) (blocks : List ℕ)
      → c.window_blocks ≤ length blocks
      → otherwise ≢ none
      → first_window attempt otherwise blocks ≢ none
  first_window_some attempt otherwise blocks enough given =
      let whole : ltb (length blocks) c.window_blocks ≡ false = (ground arith) in
      elim (Bool-cases (dirty c (take c.window_blocks blocks))) [
        | inl noisy ↦ rw (whole, noisy) given
        | inr clean ↦ rw (whole, clean) (λ p. absurd (cc p))
      ]

  observed_some :
      (left attempt : ℕ) (blocks : List ℕ)
      → c.window_blocks * (left + 1) ≤ length blocks
      → observed left attempt blocks ≢ none
  observed_some zero attempt blocks enough =
      first_window_some attempt (some (failed_result attempt)) blocks (omega (arith, enough))
        (λ p. absurd (cc p))
  observed_some (suc left) attempt blocks enough =
      first_window_some attempt (observed left (attempt + 1) (drop c.window_blocks blocks)) blocks
        (omega (arith, enough))
        (observed_some left (attempt + 1) (drop c.window_blocks blocks)
          (rw (length-drop c.window_blocks blocks) (omega (arith, enough))))

  -- What an observer reports, if anything, is what the recording amounts to read window by window: the
  -- first clean window among the allowed attempts succeeds with its percentile and its number, and if
  -- all are contaminated the last attempt fails. Windows have a block at least.
  pub observe_blocks-observed :
      (blocks : List ℕ)
      → 0 < c.window_blocks
      → (observe_blocks c blocks new_observer).result ≡ observed (c.max_attempts - 1) 1 blocks
  observe_blocks-observed blocks some_room =
      observed_from (c.max_attempts - 1) 1 blocks some_room refl

  -- An observation ends: as many blocks as all attempts have together are enough for a result.
  pub observe_blocks-ends :
      (blocks : List ℕ)
      → 0 < c.window_blocks
      → 0 < c.max_attempts
      → c.window_blocks * c.max_attempts ≤ length blocks
      → (observe_blocks c blocks new_observer).result ≢ none
  observe_blocks-ends blocks some_room some_attempt enough =
      let same : c.max_attempts - 1 + 1 ≡ c.max_attempts = (omega arith) in
      rw (observe_blocks-observed blocks some_room)
        (observed_some (c.max_attempts - 1) 1 blocks (rw (same) enough))
