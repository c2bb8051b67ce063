-- ===== src/Audio/Buffer.antt =====
-- src/audio/vad_buffering.py: `VADBuffer`. A block is a list of samples. Durations are counted in
-- samples, seconds times `sample_rate`; the trace output and the display colours are left out.
pub mod Invariant
pub mod Operations
pub mod Segments
pub mod PreRoll
pub mod Limit
use phantom_runtime_lite.Prelude.{
  ℕ, ◌+◌, ◌-◌, ◌*◌, String, Bool, true, false, not, ◌&&◌, ◌||◌, Option, none, some, List, [], ◌∷◌,
  ◌++◌, ℤ, pos, ltb, leb, length, drop, replicate, if◌then◌else◌,
}

abbrev pub Block : Type 0
Block = List ℤ

-- `np.concatenate`
abbrev pub concat : List Block → Block
concat [] = []
concat (b ∷ bs) = b ++ concat bs

-- The configuration; `max_manual_samples` is `max_manual_buffer_sec * sample_rate`.
pub record Config : Type 0 where
  pub sample_rate : ℕ
  pub pre_buffer_blocks : ℕ
  pub min_samples : ℕ
  pub max_samples : ℕ
  pub silence_blocks : ℕ
  pub max_manual_samples : ℕ
  pub tail_padding_samples : ℕ

pub record VadBuffer : Type 0 where
  pub audio_buffer : List Block
  pub duration : ℕ
  pub segments : ℕ
  pub last_flush_ts : String
  pub force_flush_event : Bool
  pub force_flush_done : Bool
  pub inline_active : Bool
  pub recording_active : Bool
  pub blocks : List Block
  pub total_samples : ℕ
  pub silence_streak : ℕ
  pub has_speech : Bool
  pub pre_buf : List Block

abbrev pub new_buffer : VadBuffer
new_buffer = record {
  audio_buffer = [];
  duration = 0;
  segments = 0;
  last_flush_ts = "—";
  force_flush_event = false;
  force_flush_done = false;
  inline_active = false;
  recording_active = true;
  blocks = [];
  total_samples = 0;
  silence_streak = 0;
  has_speech = false;
  pre_buf = [];
}

-- What `info_fn` and `warn_fn` are told of the manual buffer: lengths in samples.
pub data Notice : Type 0 where
  oldest_dropped : ℕ → Notice
  appended : ℕ → ℕ → ℕ → Notice
  flush_soon : ℕ → ℕ → Notice
  press_g : ℕ → ℕ → Notice

-- Over the limit the oldest segment is dropped, if there is one.
unfoldable pub drop_first : Bool → List Block → VadBuffer → VadBuffer × List Notice
drop_first true (oldest ∷ rest) b = (
  record b {
    audio_buffer = rest;
    duration = b.duration - length oldest;
    segments = b.segments - 1;
  },
  oldest_dropped (length oldest) ∷ [],
)
drop_first _ _ b = (b, [])

unfoldable pub drop_oldest : Config → ℕ → VadBuffer → VadBuffer × List Notice
unfolding drop_first
drop_oldest c dur b = drop_first (ltb c.max_manual_samples (b.duration + dur)) b.audio_buffer b

unfoldable pub append_segment : Config → Block → VadBuffer → VadBuffer × List Notice
unfolding drop_oldest
append_segment c audio b =
    let dur = length audio in
    let (b', dropped) = drop_oldest c dur b in
    let total = b'.duration + dur in
    let seg = b'.segments + 1 in
    (
      record b' {
        audio_buffer = b'.audio_buffer ++ (audio ∷ []);
        duration = total;
        segments = seg;
      },
      dropped
          ++ (appended dur total seg
              ∷ (if leb (20 * c.sample_rate) total then flush_soon total seg else press_g total seg)
              ∷ []),
    )

-- The start of `flush` while the inline loop is active: the wait comes next.
unfoldable pub request_flush : VadBuffer → VadBuffer
request_flush b =
    if b.inline_active then record b { force_flush_done = false; force_flush_event = true } else b

-- The rest of `flush`, under the lock: `now` is the time of day that is written down.
unfoldable pub drain_segments : String → List Block → VadBuffer → Option Block × VadBuffer
drain_segments now [] b = (none, b)
drain_segments now (s ∷ ss) b = (
  some (concat (s ∷ ss)),
  record b { audio_buffer = []; duration = 0; segments = 0; last_flush_ts = now },
)

unfoldable pub drain : String → VadBuffer → Option Block × VadBuffer
unfolding drain_segments
drain now b = drain_segments now b.audio_buffer b

-- `meanwhile` is what the VAD thread does to the buffer during the wait.
unfoldable pub flush : String → (VadBuffer → VadBuffer) → VadBuffer → Option Block × VadBuffer
unfolding request_flush drain
flush now meanwhile b = drain now (if b.inline_active then meanwhile (request_flush b) else b)

unfoldable pub reset_inline : VadBuffer → VadBuffer
reset_inline b = record b {
  blocks = [];
  total_samples = 0;
  silence_streak = 0;
  has_speech = false;
  pre_buf = [];
}

abbrev pub nonempty {ℓ} : {A : Type ℓ} → List A → Bool
nonempty [] = false
nonempty (x ∷ xs) = true

-- The in-progress audio is finalized if there is speech, and kept if the recording is on.
unfoldable pub finalize_forced : Config → Bool → Bool → VadBuffer → VadBuffer
unfolding reset_inline append_segment
finalize_forced c true true b = (append_segment c (concat b.blocks) (reset_inline b)).0
finalize_forced c true false b = reset_inline b
finalize_forced c false keep b = b

unfoldable pub handle_force_flush : Config → Bool → Bool → VadBuffer → Bool × VadBuffer
unfolding finalize_forced
handle_force_flush c manual_flush_enabled recording_is_set b =
    if not b.force_flush_event then (false, b) else (
      true,
      record (finalize_forced c (b.has_speech && nonempty b.blocks)
          (manual_flush_enabled && recording_is_set) (record b { force_flush_event = false })) {
            force_flush_done = true;
          },
    )

-- `deque(maxlen=n).append`
unfoldable pub push_max : ℕ → List Block → Block → List Block
push_max n d x = let d' = d ++ (x ∷ []) in drop (length d' - n) d'

-- The first part of `process_frame`, before the frame itself is appended.
unfoldable pub note_frame : Config → Block → Bool → VadBuffer → VadBuffer
unfolding push_max
note_frame c flat true b = record b {
  silence_streak = b.silence_streak + 1;
  pre_buf = if b.has_speech then b.pre_buf else push_max c.pre_buffer_blocks b.pre_buf flat;
}
note_frame c flat false b = if b.has_speech then record b { silence_streak = 0 } else record b {
  blocks = b.blocks ++ b.pre_buf;
  total_samples = b.total_samples + length (concat b.pre_buf);
  pre_buf = [];
  has_speech = true;
  silence_streak = 0;
}

unfoldable pub take_frame : Block → VadBuffer → VadBuffer
take_frame flat b = record b {
  blocks = b.blocks ++ (flat ∷ []);
  total_samples = b.total_samples + length flat;
}

abbrev pub force_due : Config → VadBuffer → Bool
force_due c b = leb c.max_samples b.total_samples

abbrev pub silence_due : Config → VadBuffer → Bool
silence_due c b =
    b.has_speech && (leb c.silence_blocks b.silence_streak && leb c.min_samples b.total_samples)

-- The flush: with zeros behind a forced one; without speech the audio is thrown away.
unfoldable pub finalize : Config → VadBuffer → Option Block × VadBuffer
unfolding reset_inline
finalize c b = (
  if not b.has_speech
      then none
      else if force_due c b
      then some (concat b.blocks ++ replicate c.tail_padding_samples (pos 0))
      else some (concat b.blocks),
  reset_inline b,
)

unfoldable pub flush_if_due : Config → VadBuffer → Option Block × VadBuffer
unfolding finalize
flush_if_due c b = if force_due c b || silence_due c b then finalize c b else (none, b)

unfoldable pub process_frame : Config → Block → Bool → VadBuffer → Option Block × VadBuffer
unfolding note_frame take_frame flush_if_due
process_frame c flat silent b = flush_if_due c (take_frame flat (note_frame c flat silent b))

unfoldable pub check_idle_timeout : Config → ℕ → ℕ → VadBuffer → Option Block × VadBuffer
unfolding reset_inline
check_idle_timeout c idle silence_timeout b =
    if not b.has_speech || not (nonempty b.blocks)
    then (none, b)
    else if ltb idle silence_timeout
    then (none, b)
    else if ltb b.total_samples c.min_samples
    then (none, b)
    else (some (concat b.blocks), reset_inline b)
