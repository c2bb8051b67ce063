-- ===== src/Audio/Buffer/Operations.antt =====
-- Every operation of `VADBuffer`, in any order, keeps the buffer well formed.
use phantom_runtime_lite.Prelude.{
  ℕ, String, Bool, true, false, not, ◌&&◌, ◌||◌, List, [], ◌∷◌, ◌≡◌, refl, ◌∙◌, arith,
  if◌then◌else◌, Bool-cases, inl, inr,
}
use phantom_runtime_lite.Audio.Buffer.{
  Block, concat, Config, VadBuffer, new_buffer, drop_first, append_segment, request_flush, drain,
  reset_inline, nonempty, finalize_forced, handle_force_flush, note_frame, take_frame, force_due,
  silence_due, flush_if_due, process_frame, check_idle_timeout,
}
use phantom_runtime_lite.Audio.Buffer.Invariant.{
  IsInline, IsManual, IsValid, new_buffer-IsValid, append_segment-IsManual, drain-IsManual,
  process_frame-IsInline, check_idle_timeout-IsInline, reset_inline-IsInline,
}

-- A call of a method, by the thread that makes it, and the two flags that other modules set.
pub data Op : Type 0 where
  segment : Block → Op
  frame : Block → Bool → Op
  idle : ℕ → ℕ → Op
  force : Bool → Bool → Op
  request : Op
  drained : String → Op
  recording : Bool → Op
  inline : Bool → Op

unfoldable pub apply : Config → Op → VadBuffer → VadBuffer
apply c (segment audio) b = (append_segment c audio b).0
apply c (frame flat silent) b = (process_frame c flat silent b).1
apply c (idle sec timeout) b = (check_idle_timeout c sec timeout b).1
apply c (force manual on) b = (handle_force_flush c manual on b).1
apply c request b = request_flush b
apply c (drained now) b = (drain now b).1
apply c (recording on) b = record b { recording_active = on }
apply c (inline on) b = record b { inline_active = on }

unfoldable pub apply_all : Config → List Op → VadBuffer → VadBuffer
apply_all c [] b = b
apply_all c (op ∷ ops) b = apply_all c ops (apply c op b)

-- The inline part of the state, and the manual part.
record SameInline (a b : VadBuffer) : Type 0 where
  blocks : a.blocks ≡ b.blocks
  total : a.total_samples ≡ b.total_samples
  pre_buf : a.pre_buf ≡ b.pre_buf

record SameManual (a b : VadBuffer) : Type 0 where
  audio : a.audio_buffer ≡ b.audio_buffer
  duration : a.duration ≡ b.duration
  segments : a.segments ≡ b.segments

module _ (c : Config) {a b : VadBuffer} where
  IsInline-of_same : SameInline a b → IsInline c b → IsInline c a
  IsInline-of_same s h = record {
    total = rw (s.total, s.blocks) h.total;
    pre_fits = rw s.pre_buf h.pre_fits;
    below_max = λ m. rw s.total (h.below_max m);
  }

IsManual-of_same : {a b : VadBuffer} → SameManual a b → IsManual b → IsManual a
IsManual-of_same s h = record {
  duration = rw (s.duration, s.audio) h.duration;
  segments = rw (s.segments, s.audio) h.segments;
}

drop_first-same :
    (over : Bool) (xs : List Block) (b : VadBuffer) → SameInline (drop_first over xs b).0 b
unfolding drop_first
drop_first-same true (x ∷ xs) b = record { blocks = refl; total = refl; pre_buf = refl }
drop_first-same true [] b = record { blocks = refl; total = refl; pre_buf = refl }
drop_first-same false xs b = record { blocks = refl; total = refl; pre_buf = refl }

append_segment-same :
    (c : Config) (s : Block) (b : VadBuffer) → SameInline (append_segment c s b).0 b
unfolding append_segment
append_segment-same c s b =
    let d = drop_first-same _ b.audio_buffer b in
    record { blocks = d.blocks; total = d.total; pre_buf = d.pre_buf }

drain-same : (now : String) (b : VadBuffer) → SameInline (drain now b).1 b
unfolding drain
drain-same now b = ground arith

note_frame-same :
    (c : Config) (flat : Block) (silent : Bool) (b : VadBuffer)
    → SameManual (note_frame c flat silent b) b
unfolding note_frame
note_frame-same c flat true b = ground arith
note_frame-same c flat false b = ground arith

flush_if_due-same : (c : Config) (b : VadBuffer) → SameManual (flush_if_due c b).1 b
unfolding flush_if_due
flush_if_due-same c b = elim (Bool-cases (force_due c b || silence_due c b)) [
  | inl e ↦ rw e (record { audio = refl; duration = refl; segments = refl })
  | inr e ↦ rw e (record { audio = refl; duration = refl; segments = refl })
]

process_frame-same :
    (c : Config) (flat : Block) (silent : Bool) (b : VadBuffer)
    → SameManual (process_frame c flat silent b).1 b
unfolding process_frame
process_frame-same c flat silent b =
    let n = note_frame-same c flat silent b in
    let f = flush_if_due-same c (take_frame flat (note_frame c flat silent b)) in
    record {
      audio = f.audio ∙ n.audio;
      duration = f.duration ∙ n.duration;
      segments = f.segments ∙ n.segments;
    }

check_idle_timeout-same :
    (c : Config) (s t : ℕ) (b : VadBuffer) → SameManual (check_idle_timeout c s t b).1 b
unfolding check_idle_timeout
check_idle_timeout-same c s t b = ground arith

request_flush-inline : (b : VadBuffer) → SameInline (request_flush b) b
unfolding request_flush
request_flush-inline b = ground arith

request_flush-manual : (b : VadBuffer) → SameManual (request_flush b) b
unfolding request_flush
request_flush-manual b = ground arith

-- A change of the flags alone.
module _ (c : Config) where
  IsValid-of_same : {a b : VadBuffer} → SameInline a b → SameManual a b → IsValid c b → IsValid c a
  IsValid-of_same i m h = record {
    inline = IsInline-of_same c i h.inline;
    manual = IsManual-of_same m h.manual;
  }

  finalize_forced-IsValid :
      (has keep : Bool) (b : VadBuffer) → IsValid c b → IsValid c (finalize_forced c has keep b)
  finalize_forced-IsValid true true b h =
      let r = reset_inline b in
      let m : IsManual r =
        unfold reset_inline in
        record { duration = h.manual.duration; segments = h.manual.segments } in
      unfold finalize_forced in
      record {
        inline =
            IsInline-of_same c (append_segment-same c (concat b.blocks) r)
              (reset_inline-IsInline c b);
        manual = append_segment-IsManual c (concat b.blocks) r m;
      }
  finalize_forced-IsValid true false b h =
      unfold finalize_forced in
      record {
        inline = reset_inline-IsInline c b;
        manual = record { duration = h.manual.duration; segments = h.manual.segments };
      }
  finalize_forced-IsValid false keep b h = unfold finalize_forced in h

  if_IsValid :
      (t : Bool) (x y : Bool × VadBuffer)
      → IsValid c x.1
      → IsValid c y.1
      → IsValid c (if t then x else y).1
  if_IsValid true x y hx hy = hx
  if_IsValid false x y hx hy = hy

  abbrev cleared : VadBuffer → VadBuffer
  cleared b = record b { force_flush_event = false }

  handle_force_flush-IsValid :
      (manual on : Bool) (b : VadBuffer)
      → IsValid c b
      → IsValid c (handle_force_flush c manual on b).1
  unfolding handle_force_flush
  handle_force_flush-IsValid manual on b h =
      let f = finalize_forced c (b.has_speech && nonempty b.blocks) (manual && on) (cleared b) in
      let v =
        finalize_forced-IsValid (b.has_speech && nonempty b.blocks) (manual && on) (cleared b)
          (record {
            inline =
                IsInline-of_same c (record { blocks = refl; total = refl; pre_buf = refl })
                  h.inline;
            manual =
                IsManual-of_same (record { audio = refl; duration = refl; segments = refl })
                  h.manual;
          }) in
      if_IsValid (not b.force_flush_event) (false, b) (true, record f { force_flush_done = true }) h
        (IsValid-of_same (record { blocks = refl; total = refl; pre_buf = refl })
          (record { audio = refl; duration = refl; segments = refl }) v)

  apply-IsValid : (op : Op) (b : VadBuffer) → IsValid c b → IsValid c (apply c op b)
  unfolding apply
  apply-IsValid (segment s) b h = record {
    inline = IsInline-of_same c (append_segment-same c s b) h.inline;
    manual = append_segment-IsManual c s b h.manual;
  }
  apply-IsValid (frame flat silent) b h = record {
    inline = process_frame-IsInline c flat silent b h.inline;
    manual = IsManual-of_same (process_frame-same c flat silent b) h.manual;
  }
  apply-IsValid (idle s t) b h = record {
    inline = check_idle_timeout-IsInline c s t b h.inline;
    manual = IsManual-of_same (check_idle_timeout-same c s t b) h.manual;
  }
  apply-IsValid (force manual on) b h = handle_force_flush-IsValid manual on b h
  apply-IsValid request b h = IsValid-of_same (request_flush-inline b) (request_flush-manual b) h
  apply-IsValid (drained now) b h = record {
    inline = IsInline-of_same c (drain-same now b) h.inline;
    manual = drain-IsManual c now b h.manual;
  }
  apply-IsValid (recording on) b h = record {
    inline = record {
      total = h.inline.total;
      pre_fits = h.inline.pre_fits;
      below_max = h.inline.below_max;
    };
    manual = record { duration = h.manual.duration; segments = h.manual.segments };
  }
  apply-IsValid (inline on) b h = record {
    inline = record {
      total = h.inline.total;
      pre_fits = h.inline.pre_fits;
      below_max = h.inline.below_max;
    };
    manual = record { duration = h.manual.duration; segments = h.manual.segments };
  }

  apply_all-IsValid : (ops : List Op) (b : VadBuffer) → IsValid c b → IsValid c (apply_all c ops b)
  unfolding apply_all
  apply_all-IsValid [] b h = h
  apply_all-IsValid (op ∷ ops) b h = apply_all-IsValid ops (apply c op b) (apply-IsValid op b h)

  -- Whatever methods are called, in any order, the counters of the buffer say what is in it: the
  -- sample count is that of the blocks, the duration and the segment count are those of the manual
  -- buffer, the pre-buffer is within its length, and between calls less than `max_samples` are held.
  pub reachable-IsValid : (ops : List Op) → IsValid c (apply_all c ops new_buffer)
  reachable-IsValid ops = apply_all-IsValid ops new_buffer (new_buffer-IsValid c)
