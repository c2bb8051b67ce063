-- ===== src/Audio/Vad/Utterance.antt =====
-- One utterance through the loop of src/audio/vad.py.
use mathlib.Core.List.{append-nil, append_assoc}
use phantom_runtime_lite.Prelude.{
  ℕ, ◌+◌, ◌-◌, ◌≤◌, ◌<◌, Bool, true, false, none, some, List, [], ◌∷◌, ◌++◌, ◌≡◌, ◌≢◌, ◌∙◌, refl,
  arith, All, length, length-append,
}
use phantom_runtime_lite.Audio.Buffer.{
  Block, concat, Config, VadBuffer, new_buffer, process_frame, check_idle_timeout,
}
use phantom_runtime_lite.Audio.Buffer.Invariant.{length-concat_snoc, length-concat_append}
use phantom_runtime_lite.Audio.Vad.{
  Settings, buffer_config, silence_timeout, Orchestrator, new_orchestrator, Round, queue_empty,
  arrived, round, run,
}

-- The state while the blocks `gs` of an utterance have come.
record IsSpeaking (gs : List Block) (b : VadBuffer) : Type 0 where
  blocks : b.blocks ≡ gs
  total : b.total_samples ≡ length (concat gs)
  speech : b.has_speech ≡ true

module _ (c : Config) where
  first_frame :
      (f : Block)
      → length f < c.max_samples
      → 0 < c.silence_blocks
      → ((process_frame c f false new_buffer).0 ≡ none)
        × IsSpeaking (f ∷ []) (process_frame c f false new_buffer).1
  unfolding process_frame
  first_frame f room silence = (
    ground arith,
    record {
      blocks = ground arith;
      total = ground (arith, length-append f []);
      speech = ground arith;
    },
  )

  next_frame :
      (gs : List Block) (f : Block) (b : VadBuffer)
      → IsSpeaking gs b
      → length (concat gs) + length f < c.max_samples
      → 0 < c.silence_blocks
      → ((process_frame c f false b).0 ≡ none)
        × IsSpeaking (gs ++ (f ∷ [])) (process_frame c f false b).1
  unfolding process_frame
  next_frame gs f b q room silence = (
    ground arith,
    record {
      blocks = ground arith;
      total = ground (arith, length-concat_snoc gs f);
      speech = ground arith;
    },
  )

  idle_end :
      (gs : List Block) (b : VadBuffer) (idle timeout : ℕ)
      → IsSpeaking gs b
      → gs ≢ []
      → timeout ≤ idle
      → c.min_samples ≤ length (concat gs)
      → (check_idle_timeout c idle timeout b).0 ≡ some (concat gs)
  unfolding check_idle_timeout
  idle_end [] b idle timeout q some_audio long enough = absurd (some_audio refl)
  idle_end (g ∷ gs) b idle timeout q some_audio long enough = ground arith

room_for_next :
    (gs rest : List Block) (b : Block) (m : ℕ)
    → length (concat (gs ++ (b ∷ rest))) < m
    → length (concat gs) + length b < m
room_for_next gs rest b m h =
    omega (arith, length-concat_append gs (b ∷ rest), length-append b (concat rest))

snoc-ne-nil : (gs : List Block) (b : Block) → gs ++ (b ∷ []) ≢ []
snoc-ne-nil [] b h = cc
snoc-ne-nil (g ∷ gs) b h = cc

-- The blocks of an utterance, with the times at which they arrive.
abbrev pub spoken : List (ℕ × Block) → List Round
spoken [] = []
spoken ((t, b) ∷ bs) = arrived t b ∷ spoken bs

abbrev pub audio_of : List (ℕ × Block) → List Block
audio_of [] = []
audio_of ((t, b) ∷ bs) = b ∷ audio_of bs

-- The time of the last block.
abbrev pub last_time : ℕ → List (ℕ × Block) → ℕ
last_time t [] = t
last_time t ((u, b) ∷ bs) = last_time u bs

module _ (s : Settings) (is_silent : Block → Bool) where
  run_quiet :
      (r : Round) (rs : List Round) (o : Orchestrator)
      → (round s is_silent r o).0 ≡ none
      → (run s is_silent (r ∷ rs) o).0 ≡ (run s is_silent rs (round s is_silent r o).1).0
  run_quiet r rs o h = unfold run in rw h

  run_last :
      (r : Round) (o : Orchestrator) (a : Block)
      → (round s is_silent r o).0 ≡ some a
      → (run s is_silent (r ∷ []) o).0 ≡ a ∷ []
  run_last r o a h = unfold run in rw h

  loud_round :
      (gs : List Block) (u : ℕ) (b : Block) (o : Orchestrator)
      → IsSpeaking gs o.vad_buf
      → is_silent b ≡ false
      → length (concat gs) + length b < s.max_samples
      → 0 < s.silence_blocks
      → let r = round s is_silent (arrived u b) o in
        (r.0 ≡ none) × IsSpeaking (gs ++ (b ∷ [])) r.1.vad_buf × (r.1.last_block_ts ≡ u)
  unfolding round
  loud_round gs u b o q loud space silence =
      let n = next_frame (buffer_config s) gs b o.vad_buf q space silence in
      (rw loud n.0, rw loud n.1, refl)

  rest_of_utterance :
      (gs : List Block) (t now : ℕ) (bs : List (ℕ × Block)) (o : Orchestrator)
      → IsSpeaking gs o.vad_buf
      → o.last_block_ts ≡ t
      → gs ≢ []
      → All (λ x. is_silent x.1 ≡ false) bs
      → length (concat (gs ++ audio_of bs)) < s.max_samples
      → s.min_samples ≤ length (concat (gs ++ audio_of bs))
      → 0 < s.silence_blocks
      → silence_timeout s ≤ now - last_time t bs
      → (run s is_silent (spoken bs ++ (queue_empty now ∷ [])) o).0
        ≡ concat (gs ++ audio_of bs) ∷ []
  rest_of_utterance gs t now [] o q e some_audio loud room enough silence long =
      run_last (queue_empty now) o (concat (gs ++ [])) (
        unfold round in
        (idle_end (buffer_config s) gs o.vad_buf (now - o.last_block_ts) (silence_timeout s) q
            some_audio (rw e long) (rw append-nil at enough)
          ∙ rw append-nil))
  rest_of_utterance gs t now ((u, b) ∷ bs) o q e some_audio loud room enough silence long =
      let space = room_for_next gs (audio_of bs) b s.max_samples room in
      let n = loud_round gs u b o q loud.0 space silence in
      let same = append_assoc gs (b ∷ []) (audio_of bs) in
      run_quiet (arrived u b) (spoken bs ++ (queue_empty now ∷ [])) o n.0
      ∙ (rest_of_utterance (gs ++ (b ∷ [])) u now bs _ n.1 n.2 (snoc-ne-nil gs b) loud.1
            (rw same room) (rw same enough) silence long
          ∙ rw same)

  -- An utterance is handed on once, whole and in order: blocks with speech, shorter in all than the
  -- maximum and at least the minimum, and then no block for the idle threshold. The next empty
  -- queue makes `run` hand on the one segment that is all of them.
  pub utterance_delivered :
      (start t now : ℕ) (b : Block) (bs : List (ℕ × Block))
      → is_silent b ≡ false
      → All (λ x. is_silent x.1 ≡ false) bs
      → length (b ++ concat (audio_of bs)) < s.max_samples
      → s.min_samples ≤ length (b ++ concat (audio_of bs))
      → 0 < s.silence_blocks
      → silence_timeout s ≤ now - last_time t bs
      → (run s is_silent
          (arrived t b ∷ (spoken bs ++ (queue_empty now ∷ [])))
          (new_orchestrator start)).0
        ≡ (b ++ concat (audio_of bs)) ∷ []
  utterance_delivered start t now b bs quiet loud room enough silence long =
      let f =
        first_frame (buffer_config s) b (omega (arith, length-append b (concat (audio_of bs))))
          silence in
      run_quiet (arrived t b) (spoken bs ++ (queue_empty now ∷ [])) (new_orchestrator start)
        (unfold round in rw quiet f.0)
      ∙ rest_of_utterance (b ∷ []) t now bs
          (round s is_silent (arrived t b) (new_orchestrator start)).1
          (unfold round in rw quiet f.1) (unfold round in refl) (λ h. cc) loud room enough silence
          long
