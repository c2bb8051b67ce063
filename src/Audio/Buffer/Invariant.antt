-- ===== src/Audio/Buffer/Invariant.antt =====
-- Counters, gate and contents of the buffer agree after every operation.
use mathlib.Core.List.{append_assoc}
use phantom_runtime_lite.Prelude.{
  ℕ, ◌+◌, ◌≤◌, ◌<◌, String, Bool, true, false, ◌||◌, List, [], ◌∷◌, ◌++◌, ◌≡◌, ◌∙◌, refl, arith,
  length, length-append, length-drop, Bool-cases, inl, inr,
}
use phantom_runtime_lite.Audio.Buffer.{
  Block, concat, Config, VadBuffer, new_buffer, drop_first, drop_oldest, append_segment, drain,
  reset_inline, push_max, note_frame, take_frame, force_due, silence_due, flush_if_due,
  process_frame, check_idle_timeout,
}

-- What the inline accumulation state satisfies.
pub record IsInline (c : Config) (b : VadBuffer) : Type 0 where
  pub total : b.total_samples ≡ length (concat b.blocks)
  pub pre_fits : length b.pre_buf ≤ c.pre_buffer_blocks
  pub below_max : 0 < c.max_samples → b.total_samples < c.max_samples

-- What the manual buffer satisfies.
pub record IsManual (b : VadBuffer) : Type 0 where
  pub duration : b.duration ≡ length (concat b.audio_buffer)
  pub segments : b.segments ≡ length b.audio_buffer

pub record IsValid (c : Config) (b : VadBuffer) : Type 0 where
  pub inline : IsInline c b
  pub manual : IsManual b

pub concat-append : (xs ys : List Block) → concat (xs ++ ys) ≡ concat xs ++ concat ys
concat-append [] ys = refl
concat-append (x ∷ xs) ys = simp (concat-append xs ys, append_assoc)

pub length-concat_snoc :
    (xs : List Block) (x : Block) → length (concat (xs ++ (x ∷ []))) ≡ length (concat xs) + length x
length-concat_snoc xs x = rw (concat-append, length-append) (omega (arith, length-append x []))

pub length-concat_append :
    (xs ys : List Block) → length (concat (xs ++ ys)) ≡ length (concat xs) + length (concat ys)
length-concat_append xs ys = rw (concat-append, length-append)

pub new_buffer-IsValid : (c : Config) → IsValid c new_buffer
new_buffer-IsValid c = record {
  inline = record { total = refl; pre_fits = omega arith; below_max = λ h. h };
  manual = record { duration = refl; segments = refl };
}

drop_first-IsManual :
    (over : Bool) (xs : List Block) (b : VadBuffer)
    → b.audio_buffer ≡ xs
    → IsManual b
    → IsManual (drop_first over xs b).0
unfolding drop_first
drop_first-IsManual true (x ∷ xs) b e h =
    let d : b.duration ≡ length x + length (concat xs) =
      h.duration ∙ (rw e (length-append x (concat xs))) in
    record { duration = omega arith; segments = ground arith }
drop_first-IsManual true [] b e h = h
drop_first-IsManual false xs b e h = h

module _ (c : Config) where
  drop_oldest-IsManual : (dur : ℕ) (b : VadBuffer) → IsManual b → IsManual (drop_oldest c dur b).0
  unfolding drop_oldest
  drop_oldest-IsManual dur b h = drop_first-IsManual _ b.audio_buffer b refl h

  pub append_segment-IsManual :
      (a : Block) (b : VadBuffer) → IsManual b → IsManual (append_segment c a b).0
  append_segment-IsManual a b h =
      let d = drop_oldest-IsManual (length a) b h in
      let kept = (drop_oldest c (length a) b).0.audio_buffer in
      record {
        duration = unfold append_segment in rw (length-concat_snoc kept a) (omega (arith, d));
        segments = unfold append_segment in rw length-append (omega (arith, d));
      }

  pub drain-IsManual : (now : String) (b : VadBuffer) → IsManual b → IsManual (drain now b).1
  unfolding drain
  drain-IsManual now b h = ground arith

  take_frame-total :
      (flat : Block) (b : VadBuffer)
      → b.total_samples ≡ length (concat b.blocks)
      → (take_frame flat b).total_samples ≡ length (concat (take_frame flat b).blocks)
  unfolding take_frame
  take_frame-total flat b h = rw length-concat_snoc (omega arith)

  note_frame-total :
      (flat : Block) (silent : Bool) (b : VadBuffer)
      → b.total_samples ≡ length (concat b.blocks)
      → (note_frame c flat silent b).total_samples
        ≡ length (concat (note_frame c flat silent b).blocks)
  unfolding note_frame
  note_frame-total flat true b h = h
  note_frame-total flat false b h = elim (Bool-cases b.has_speech) [
    | inl e ↦ rw e h
    | inr e ↦ rw (e, length-concat_append b.blocks b.pre_buf) (omega arith)
  ]

  push_max-fits : (n : ℕ) (d : List Block) (x : Block) → length (push_max n d x) ≤ n
  unfolding push_max
  push_max-fits n d x = rw length-drop (omega arith)

  note_frame-fits :
      (flat : Block) (silent : Bool) (b : VadBuffer)
      → length b.pre_buf ≤ c.pre_buffer_blocks
      → length (note_frame c flat silent b).pre_buf ≤ c.pre_buffer_blocks
  note_frame-fits flat true b h =
      unfold note_frame in ground (arith, push_max-fits c.pre_buffer_blocks b.pre_buf flat)
  note_frame-fits flat false b h = unfold note_frame in ground arith

  pub reset_inline-IsInline : (b : VadBuffer) → IsInline c (reset_inline b)
  unfolding reset_inline
  reset_inline-IsInline b = record { total = refl; pre_fits = omega arith; below_max = λ h. h }

  flush_if_due-IsInline :
      (b : VadBuffer)
      → b.total_samples ≡ length (concat b.blocks)
      → length b.pre_buf ≤ c.pre_buffer_blocks
      → IsInline c (flush_if_due c b).1
  unfolding flush_if_due
  flush_if_due-IsInline b t f = elim (Bool-cases (force_due c b || silence_due c b)) [
    | inl e ↦ rw e (reset_inline-IsInline b)
    | inr e ↦ rw e (record { total = t; pre_fits = f; below_max = λ h. ground arith })
  ]

  pub process_frame-IsInline :
      (flat : Block) (silent : Bool) (b : VadBuffer)
      → IsInline c b
      → IsInline c (process_frame c flat silent b).1
  unfolding process_frame
  process_frame-IsInline flat silent b h =
      let noted = note_frame c flat silent b in
      flush_if_due-IsInline (take_frame flat noted)
        (take_frame-total flat noted (note_frame-total flat silent b h.total))
        (note_frame-fits flat silent b h.pre_fits)

  pub check_idle_timeout-IsInline :
      (idle timeout : ℕ) (b : VadBuffer)
      → IsInline c b
      → IsInline c (check_idle_timeout c idle timeout b).1
  unfolding check_idle_timeout
  check_idle_timeout-IsInline idle timeout b h = ground (arith, reset_inline-IsInline b)
