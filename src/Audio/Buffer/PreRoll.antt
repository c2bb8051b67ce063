-- ===== src/Audio/Buffer/PreRoll.antt =====
-- The frames before the speech, in `process_frame` of src/audio/vad_buffering.py.
use mathlib.Core.List.{append-nil, append_assoc}
use phantom_runtime_lite.Prelude.{
  ◌+◌, ◌≤◌, ◌<◌, true, false, List, [], ◌∷◌, ◌++◌, ◌-◌, ◌≡◌, refl, arith, length, length-append,
}
use phantom_runtime_lite.Audio.Buffer.{
  Block, concat, Config, VadBuffer, new_buffer, push_max, process_frame,
}
use phantom_runtime_lite.Audio.Buffer.Invariant.{length-concat_snoc}
use phantom_runtime_lite.Audio.Buffer.Operations.{Op, frame, apply, apply_all}

-- The state after the silent frames `gs` alone.
record IsQuiet (gs : List Block) (b : VadBuffer) : Type 0 where
  blocks : b.blocks ≡ gs
  pre_buf : b.pre_buf ≡ gs
  total : b.total_samples ≡ length (concat gs)
  speech : b.has_speech ≡ false

abbrev silent_frames : List Block → List Op
silent_frames [] = []
silent_frames (f ∷ fs) = frame f true ∷ silent_frames fs

module _ (c : Config) where
  push_fits :
      (gs : List Block) (x : Block)
      → length gs < c.pre_buffer_blocks
      → push_max c.pre_buffer_blocks gs x ≡ gs ++ (x ∷ [])
  unfolding push_max
  push_fits gs x h =
      let e : length (gs ++ (x ∷ [])) - c.pre_buffer_blocks ≡ 0 =
        omega (arith, length-append gs (x ∷ [])) in
      rw e

  IsQuiet-step :
      (gs : List Block) (x : Block) (b : VadBuffer)
      → IsQuiet gs b
      → length gs < c.pre_buffer_blocks
      → length (concat gs) + length x < c.max_samples
      → IsQuiet (gs ++ (x ∷ [])) (process_frame c x true b).1
  unfolding process_frame
  IsQuiet-step gs x b q fits room = record {
    blocks = ground arith;
    pre_buf = ground (arith, push_fits gs x fits);
    total = ground (arith, length-concat_snoc gs x);
    speech = ground arith;
  }

  IsQuiet-steps :
      (gs fs : List Block) (b : VadBuffer)
      → IsQuiet gs b
      → length gs + length fs ≤ c.pre_buffer_blocks
      → length (concat gs) + length (concat fs) < c.max_samples
      → IsQuiet (gs ++ fs) (apply_all c (silent_frames fs) b)
  unfolding apply_all apply
  IsQuiet-steps gs [] b q fits room = rw append-nil q
  IsQuiet-steps gs (f ∷ fs) b q fits room =
      let more = length-append f (concat fs) in
      let rest =
        IsQuiet-steps (gs ++ (f ∷ [])) fs (process_frame c f true b).1
          (IsQuiet-step gs f b q (omega arith) (omega (arith, more)))
          (rw length-append (omega arith)) (rw length-concat_snoc (omega (arith, more))) in
      rw append_assoc at rest

  speech_step :
      (gs : List Block) (f : Block) (b : VadBuffer)
      → IsQuiet gs b
      → length (concat gs) + length (concat gs) + length f < c.max_samples
      → 0 < c.silence_blocks
      → (process_frame c f false b).1.blocks ≡ gs ++ (gs ++ (f ∷ []))
  unfolding process_frame
  speech_step gs f b q room silence = ground (arith, append_assoc gs gs (f ∷ []))

  -- The silent frames before the speech enter the audio twice: once as they come, and once more
  -- from the pre-buffer at the first frame with speech. For any silent frames that fit the
  -- pre-buffer, with room for all, they stand twice in front of that frame.
  pre_roll_doubled :
      (fs : List Block) (f : Block)
      → length fs ≤ c.pre_buffer_blocks
      → length (concat fs) + length (concat fs) + length f < c.max_samples
      → 0 < c.silence_blocks
      → (apply c (frame f false) (apply_all c (silent_frames fs) new_buffer)).blocks
        ≡ fs ++ (fs ++ (f ∷ []))
  unfolding apply
  pre_roll_doubled fs f fits room silence =
      speech_step fs f (apply_all c (silent_frames fs) new_buffer)
        (IsQuiet-steps [] fs new_buffer
          (record { blocks = refl; pre_buf = refl; total = refl; speech = refl }) (omega arith)
          (omega arith))
        room silence
