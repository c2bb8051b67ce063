-- ===== src/Client/Calibration/Rounds.antt =====
-- The observer of src/runtime_client/calibration.py within a window.
use phantom_runtime_lite.Prelude.{
  ℕ, ◌+◌, ◌<◌, Bool, true, false, ◌||◌, none, some, List, [], ◌∷◌, ◌++◌, length, length-append,
  append_assoc, append_nil, any, leb, ◌≡◌, refl, sym, ap, ◌∙◌, arith,
}
use phantom_runtime_lite.Client.Calibration.{
  Settings, ObservationResult, EnvironmentObserver, is_complete, sample_block, end_window, observe,
  observe_unless, observe_block, observe_blocks,
}

module _ (c : Settings) where
  abbrev pub dirty : List ℕ → Bool
  dirty = any (λ rms. leb c.contamination_threshold rms)

  -- An observer in the middle of a window.
  abbrev pub within : ℕ → List ℕ → EnvironmentObserver
  within attempt samples = record {
    attempt = attempt;
    sampler = record { samples = samples; contaminated = dirty samples };
    result = none;
  }

  dirty-append :
      (samples : List ℕ) (rms : ℕ)
      → dirty (samples ++ (rms ∷ [])) ≡ (dirty samples || leb c.contamination_threshold rms)
  dirty-append [] rms = ground arith
  dirty-append (x ∷ samples) rms = ground (arith, dirty-append samples rms)

  pub blocks-append :
      (xs ys : List ℕ) (o : EnvironmentObserver)
      → observe_blocks c (xs ++ ys) o ≡ observe_blocks c ys (observe_blocks c xs o)
  unfolding observe_blocks
  blocks-append [] ys o = refl
  blocks-append (x ∷ xs) ys o = blocks-append xs ys (observe_block c x o)

  -- Once there is a result, blocks are ignored.
  pub blocks_ignored :
      (blocks : List ℕ) (o : EnvironmentObserver) (r : ObservationResult)
      → o.result ≡ some r
      → observe_blocks c blocks o ≡ o
  unfolding observe_blocks observe_block observe_unless
  blocks_ignored [] o r done = refl
  blocks_ignored (x ∷ blocks) o r done =
      ap (λ s. observe_blocks c blocks (observe_unless c s x o)) done
      ∙ blocks_ignored blocks o r done

  more_room :
      (attempt rms : ℕ) (samples : List ℕ)
      → length samples + 1 < c.window_blocks
      → observe_block c rms (within attempt samples) ≡ within attempt (samples ++ (rms ∷ []))
  unfolding observe_block observe_unless observe sample_block is_complete
  more_room attempt rms samples room =
      let more = length-append samples (rms ∷ []) in
      let before : leb c.window_blocks (length samples) ≡ false = (ground arith) in
      let after : leb c.window_blocks (length (samples ++ (rms ∷ []))) ≡ false =
        (rw (more) (ground arith)) in
      rw (before, after, dirty-append samples rms) refl

  last_room :
      (attempt rms : ℕ) (samples : List ℕ)
      → length samples + 1 ≡ c.window_blocks
      → observe_block c rms (within attempt samples)
        ≡ end_window c (within attempt (samples ++ (rms ∷ [])))
  unfolding observe_block observe_unless observe sample_block is_complete
  last_room attempt rms samples full =
      let more = length-append samples (rms ∷ []) in
      let before : leb c.window_blocks (length samples) ≡ false = (ground arith) in
      let after : leb c.window_blocks (length (samples ++ (rms ∷ []))) ≡ true =
        (rw (more) (ground arith)) in
      rw (before, after, dirty-append samples rms) refl

  pub short_window :
      (attempt : ℕ) (blocks samples : List ℕ)
      → length samples + length blocks < c.window_blocks
      → observe_blocks c blocks (within attempt samples) ≡ within attempt (samples ++ blocks)
  unfolding observe_blocks
  short_window attempt [] samples short = ap (within attempt) (sym (append_nil samples))
  short_window attempt (x ∷ blocks) samples short =
      let more = length-append samples (x ∷ []) in
      ap (observe_blocks c blocks) (more_room attempt x samples (omega (arith, short)))
      ∙ short_window attempt blocks (samples ++ (x ∷ [])) (rw (more) (omega (arith, short)))
      ∙ ap (within attempt) (append_assoc samples (x ∷ []) blocks)

  pub whole_window :
      (attempt : ℕ) (blocks samples : List ℕ)
      → length samples < c.window_blocks
      → length samples + length blocks ≡ c.window_blocks
      → observe_blocks c blocks (within attempt samples)
        ≡ end_window c (within attempt (samples ++ blocks))
  unfolding observe_blocks
  whole_window attempt [] samples room full = absurd (omega arith)
  whole_window attempt (x ∷ []) samples room full = last_room attempt x samples full
  whole_window attempt (x ∷ y ∷ blocks) samples room full =
      let more = length-append samples (x ∷ []) in
      ap (observe_blocks c (y ∷ blocks)) (more_room attempt x samples (omega (arith, full)))
      ∙ whole_window attempt (y ∷ blocks) (samples ++ (x ∷ [])) (rw (more) (omega (arith, full)))
          (rw (more) (omega (arith, full)))
      ∙ ap (λ l. end_window c (within attempt l)) (append_assoc samples (x ∷ []) (y ∷ blocks))
