-- ===== src/Audio/Vad.antt =====
-- src/audio/vad.py: `VADOrchestrator`. Times are counted in sample periods, seconds times the
-- sample rate, so that the idle threshold is a whole number of them. Whether a block is silent is a
-- parameter: the code asks numpy for a root mean square in single precision.
pub mod Utterance
use phantom_runtime_lite.Prelude.{
  ℕ, ◌+◌, ◌-◌, ◌*◌, ◌/◌, Bool, true, false, Option, none, some, List, [], ◌∷◌,
}
use phantom_runtime_lite.Audio.Buffer.{
  Block, Config, VadBuffer, new_buffer, process_frame, check_idle_timeout,
}

-- The constructor's arguments that the buffer gets.
pub record Settings : Type 0 where
  pub sample_rate : ℕ
  pub block_size : ℕ
  pub min_samples : ℕ
  pub max_samples : ℕ
  pub silence_blocks : ℕ
  pub pre_buffer_blocks : ℕ

-- 30 seconds of manual buffer, 0.8 seconds of tail padding.
abbrev pub buffer_config : Settings → Config
buffer_config s = record {
  sample_rate = s.sample_rate;
  pre_buffer_blocks = s.pre_buffer_blocks;
  min_samples = s.min_samples;
  max_samples = s.max_samples;
  silence_blocks = s.silence_blocks;
  max_manual_samples = 30 * s.sample_rate;
  tail_padding_samples = s.sample_rate * 4 / 5;
}

abbrev pub silence_timeout : Settings → ℕ
silence_timeout s = s.silence_blocks * s.block_size

pub record Orchestrator : Type 0 where
  pub vad_buf : VadBuffer
  pub last_block_ts : ℕ

abbrev pub new_orchestrator : ℕ → Orchestrator
new_orchestrator now = record { vad_buf = new_buffer; last_block_ts = now }

-- What one round of the loop finds in the queue, and the clock at that time.
pub data Round : Type 0 where
  queue_empty : ℕ → Round
  arrived : ℕ → Block → Round

module _ (s : Settings) (is_silent : Block → Bool) where
  -- One round: the segment that is handed to `on_segment_ready`, if any, and the state behind it.
  unfoldable pub round : Round → Orchestrator → Option Block × Orchestrator
  round (queue_empty now) o =
      let (audio, buf) =
        check_idle_timeout (buffer_config s) (now - o.last_block_ts) (silence_timeout s)
          o.vad_buf in
      (audio, record o { vad_buf = buf })
  round (arrived now block) o =
      let (audio, buf) = process_frame (buffer_config s) block (is_silent block) o.vad_buf in
      (audio, record { vad_buf = buf; last_block_ts = now })

  abbrev ready : Option Block → List Block → List Block
  ready none rest = rest
  ready (some audio) rest = audio ∷ rest

  -- The rounds until shutdown: the segments that are handed on, in order.
  unfoldable pub run : List Round → Orchestrator → List Block × Orchestrator
  run [] o = ([], o)
  run (r ∷ rs) o =
      let (audio, o') = round r o in
      let (segments, last) = run rs o' in (ready audio segments, last)
