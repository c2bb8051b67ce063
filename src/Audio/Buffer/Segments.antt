-- ===== src/Audio/Buffer/Segments.antt =====
-- The segments that `process_frame` and `check_idle_timeout` hand out.
use mathlib.Core.List.{append-nil}
use phantom_runtime_lite.Prelude.{
  ℕ, ◌+◌, ◌≤◌, ◌<◌, Bool, true, false, none, some, List, [], ◌∷◌, ◌++◌, ◌≡◌, ◌≢◌, refl, ◌⊎◌, arith,
  pos, leb, if◌then◌else◌, length, length-append, replicate, inl, inr,
}
use phantom_runtime_lite.Audio.Buffer.{
  Block, concat, Config, VadBuffer, note_frame, take_frame, flush_if_due, process_frame,
  check_idle_timeout,
}
use phantom_runtime_lite.Audio.Buffer.Invariant.{IsInline, concat-append}

-- The zeros behind so many samples: some if they were cut at the maximum, and none otherwise.
abbrev pub padding : Config → ℕ → Block
padding c n = if leb c.max_samples n then replicate c.tail_padding_samples (pos 0) else []

-- How many silent frames have come in a row.
abbrev pub streak_after : Bool → VadBuffer → ℕ
streak_after true b = b.silence_streak + 1
streak_after false b = 0

-- What a segment `a` is that a frame `flat` completes, `b` being the buffer before it: all blocks held
-- and the frame, in order, with the padding exactly if it was cut at the maximum; else it has the
-- minimal length and enough silent frames came in a row.
pub record IsSegment (c : Config) (flat : Block) (silent : Bool) (b : VadBuffer) (a : Block)
    : Type 0 where
  pub content : a ≡ (concat b.blocks ++ flat) ++ padding c (length (concat b.blocks ++ flat))
  pub due :
      (c.max_samples ≤ length (concat b.blocks ++ flat))
      ⊎ ((c.min_samples ≤ length (concat b.blocks ++ flat))
          × (c.silence_blocks ≤ streak_after silent b))

-- During speech a frame changes nothing but the silence streak until it is appended.
record IsNoted (silent : Bool) (b n : VadBuffer) : Type 0 where
  blocks : n.blocks ≡ b.blocks
  total : n.total_samples ≡ b.total_samples
  speech : n.has_speech ≡ true
  streak : n.silence_streak ≡ streak_after silent b

noted :
    (c : Config) (flat : Block) (silent : Bool) (b : VadBuffer)
    → b.has_speech ≡ true
    → IsNoted silent b (note_frame c flat silent b)
unfolding note_frame
noted c flat true b h = ground arith
noted c flat false b h = ground arith

finalized_by :
    (c : Config) (b : VadBuffer) (a : Block)
    → b.has_speech ≡ true
    → (flush_if_due c b).0 ≡ some a
    → (a ≡ concat b.blocks ++ padding c b.total_samples)
      × ((c.max_samples ≤ b.total_samples)
          ⊎ ((c.min_samples ≤ b.total_samples) × (c.silence_blocks ≤ b.silence_streak)))
unfolding flush_if_due
finalized_by c b a h e = (ground (arith, h, e, append-nil (concat b.blocks)), ground (arith, h, e))

module _ (c : Config) (flat : Block) (silent : Bool) (b : VadBuffer)
    (speech : b.has_speech ≡ true) where
  abbrev after : VadBuffer
  after = take_frame flat (note_frame c flat silent b)

  concat_after : concat after.blocks ≡ concat b.blocks ++ flat
  unfolding take_frame
  concat_after = rw (concat-append, (noted c flat silent b speech).blocks, append-nil)

  total_after : IsInline c b → after.total_samples ≡ length (concat b.blocks ++ flat)
  unfolding take_frame
  total_after i = rw (length-append, (noted c flat silent b speech).total) (omega (arith, i.total))

  speech_after : after.has_speech ≡ true
  unfolding take_frame
  speech_after = (noted c flat silent b speech).speech

  streak_of_after : after.silence_streak ≡ streak_after silent b
  unfolding take_frame
  streak_of_after = (noted c flat silent b speech).streak

  -- During speech, what a frame completes is all the audio held and the frame, in order. It is cut at
  -- the maximal length, and has the padding then and only then, or it is at least of the minimal
  -- length and ends with enough silent frames in a row. The counters of the buffer agree with its
  -- content.
  pub process_frame-IsSegment :
      (a : Block)
      → IsInline c b
      → (process_frame c flat silent b).0 ≡ some a
      → IsSegment c flat silent b a
  process_frame-IsSegment a i e =
      let (made, cause) = finalized_by c after a speech_after (unfold process_frame in e) in
      let total = total_after i in
      record {
        content = rw (made, concat_after, total) refl;
        due = elim cause [
          | inl long ↦ inl (omega (arith, total, long))
          | inr (enough, quiet) ↦
              inr (omega (arith, total, enough), omega (arith, streak_of_after, quiet))
        ];
      }

-- Segments start with speech: without it a frame may empty the buffer and hands out nothing.
silent_start :
    (c : Config) (flat : Block) (b : VadBuffer)
    → b.has_speech ≡ false
    → (process_frame c flat true b).0 ≡ none
unfolding process_frame
silent_start c flat b h = ground arith

empty_block : (bs : List Block) → concat (bs ++ ([] ∷ [])) ≡ concat bs
empty_block bs = rw (concat-append, append-nil)

-- `check_idle_timeout` stands in for the silent frames that the client's gate holds back.
module _ (c : Config) (b : VadBuffer) where
  abbrev silent_end : VadBuffer
  silent_end = take_frame [] (note_frame c [] true b)

  -- An idle time past the threshold has the result of an empty silent frame that makes the streak
  -- long enough: the same segment, or none in both.
  pub idle_as_silence :
      (idle timeout : ℕ)
      → IsInline c b
      → 0 < c.max_samples
      → b.has_speech ≡ true
      → b.blocks ≢ []
      → timeout ≤ idle
      → c.silence_blocks ≤ b.silence_streak + 1
      → (check_idle_timeout c idle timeout b).0 ≡ (process_frame c [] true b).0
  unfolding check_idle_timeout process_frame
  idle_as_silence idle timeout i max speech some_audio long streak =
      let below = i.below_max max in ground (arith, empty_block b.blocks)
