-- ===== src/Audio/Buffer/Limit.antt =====
-- The manual buffer of src/audio/vad_buffering.py: its limit, and what a flush returns.
use phantom_runtime_lite.Prelude.{
  ℕ, ◌+◌, ◌-◌, ◌≤◌, String, Bool, true, false, List, [], ◌∷◌, ◌++◌, ◌≡◌, ◌↔◌, refl, arith, length,
  length-append, Option, some, ltb, if◌then◌else◌,
}
use phantom_runtime_lite.Audio.Buffer.{
  Block, concat, Config, VadBuffer, drop_first, drop_oldest, append_segment, drain_segments, drain,
}
use phantom_runtime_lite.Audio.Buffer.Invariant.{IsManual}

-- The length of the segment that is dropped first, 0 where there is none.
abbrev pub oldest_length : List Block → ℕ
oldest_length [] = 0
oldest_length (x ∷ xs) = length x

drop_first-duration :
    (over : Bool) (xs : List Block) (b : VadBuffer)
    → (drop_first over xs b).0.duration
      ≡ (if over then b.duration - oldest_length xs else b.duration)
unfolding drop_first
drop_first-duration true (x ∷ xs) b = refl
drop_first-duration true [] b = omega arith
drop_first-duration false xs b = refl

oldest-le-all : (xs : List Block) → oldest_length xs ≤ length (concat xs)
oldest-le-all [] = omega arith
oldest-le-all (x ∷ xs) = omega (arith, length-append x (concat xs))

oldest-le : (b : VadBuffer) → IsManual b → oldest_length b.audio_buffer ≤ b.duration
oldest-le b h = rw h.duration (oldest-le-all b.audio_buffer)

-- What a drained buffer is: the audio of `xs` is returned, and the manual part is empty.
pub record IsDrained (xs : List Block) (r : Option Block × VadBuffer) : Type 0 where
  pub audio : r.0 ≡ some (concat xs)
  pub empty : r.1.audio_buffer ≡ []
  pub duration : r.1.duration ≡ 0
  pub segments : r.1.segments ≡ 0

drain_segments-snoc :
    (now : String) (xs : List Block) (a : Block) (b : VadBuffer)
    → IsDrained (xs ++ (a ∷ [])) (drain_segments now (xs ++ (a ∷ [])) b)
unfolding drain_segments
drain_segments-snoc now [] a b = record {
  audio = refl;
  empty = refl;
  duration = refl;
  segments = refl;
}
drain_segments-snoc now (x ∷ xs) a b = record {
  audio = refl;
  empty = refl;
  duration = refl;
  segments = refl;
}

drop_oldest-none :
    (c : Config) (n : ℕ) (b : VadBuffer)
    → b.duration + n ≤ c.max_manual_samples
    → drop_oldest c n b ≡ (b, [])
unfolding drop_oldest
drop_oldest-none c n b h = rw (not_over h)
  where
    not_over :
        b.duration + n ≤ c.max_manual_samples → ltb c.max_manual_samples (b.duration + n) ≡ false
    not_over h = ground arith

module _ (c : Config) (a : Block) (b : VadBuffer) (h : IsManual b) where
  -- After a segment is appended the buffer is within its limit exactly if the new segment fits, or
  -- would fit once the oldest segment is gone: one segment at most is dropped.
  pub append_within_limit_iff :
      ((append_segment c a b).0.duration ≤ c.max_manual_samples)
      ↔ (b.duration + length a ≤ c.max_manual_samples + oldest_length b.audio_buffer)
  unfolding append_segment
  append_within_limit_iff = ground (
    arith,
    drop_first-duration (ltb c.max_manual_samples (b.duration + length a)) b.audio_buffer b,
    oldest-le b h,
  )

  -- Within the limit, a flush after the append returns all the audio that was there and the new
  -- segment behind it, and leaves the buffer empty.
  pub drain-append :
      (now : String)
      → b.duration + length a ≤ c.max_manual_samples
      → IsDrained (b.audio_buffer ++ (a ∷ [])) (drain now (append_segment c a b).0)
  unfolding append_segment drain
  drain-append now fits =
      rw (drop_oldest-none c (length a) b fits) (drain_segments-snoc now b.audio_buffer a _)
