-- ===== src/Gateway/Lines.antt =====
-- src/runtime/transport_gateway.py: `_pump_events_from_pipe`, `_enqueue_event` and
-- `_drain_event_queue`. A byte is its number; decoding and the queue's size are arguments.
pub mod Splitting
pub mod Queue
use phantom_runtime_lite.Prelude.{
  ℕ, zero, suc, Bool, true, false, Option, none, some, List, [], ◌∷◌, ◌++◌, length, ltb, ◌==◌,
  nat_eq, if◌then◌else◌,
}

abbrev pub Bytes : Type 0
Bytes = List ℕ

abbrev pub newline : ℕ
newline = 10

-- `if not line: continue`, or the decoded line
abbrev pub emit {ℓ} : {A : Type ℓ} → (Bytes → A) → Bytes → List A
emit decode [] = []
emit decode (c ∷ cs) = decode (c ∷ cs) ∷ []

abbrev pub behind : ℕ → Option (Bytes × Bytes) → Option (Bytes × Bytes)
behind c none = none
behind c (some (line, rest)) = some (c ∷ line, rest)

-- `buf.split(b"\n", 1)` where `b"\n" in buf`
unfoldable pub split_line : Bytes → Option (Bytes × Bytes)
split_line [] = none
split_line (c ∷ cs) =
    let rest = split_line cs in if c == newline then some ([], cs) else behind c rest

module _ {ℓ} {A : Type ℓ} (decode : Bytes → A) where
  -- The body of `while b"\n" in buf`, with the rounds that come after it.
  abbrev pub take_line : (Bytes → List A × Bytes) → Bytes → Option (Bytes × Bytes) → List A × Bytes
  take_line others buf none = ([], buf)
  take_line others buf (some (line, rest)) =
      let (texts, left) = others rest in (emit decode line ++ texts, left)

  -- What is handed to the loop, and the new `buf`. The first argument bounds the rounds.
  unfoldable pub take_lines : ℕ → Bytes → List A × Bytes
  unfolding split_line
  take_lines zero buf = ([], buf)
  take_lines (suc n) buf = take_line (take_lines n) buf (split_line buf)

  -- One round takes a byte at least.
  unfoldable pub receive : Bytes → Bytes → List A × Bytes
  unfolding take_lines
  receive buf chunk = take_lines (length (buf ++ chunk)) (buf ++ chunk)

-- A round of the reader: is the stop event set, and if not, what `os.read` does.
pub data Read : Type 0 where
  stopped : Read
  read_failed : Read
  read : Bytes → Read

module _ {ℓ} {A : Type ℓ} (decode : Bytes → A) where
  -- An empty chunk is the end of the file. The answer is all that is handed to the loop.
  unfoldable pub pump_events : Bytes → List Read → List A
  unfolding receive
  pump_events buf [] = []
  pump_events buf (stopped ∷ rounds) = []
  pump_events buf (read_failed ∷ rounds) = []
  pump_events buf (read [] ∷ rounds) = []
  pump_events buf (read (c ∷ cs) ∷ rounds) =
      let (texts, buf') = receive decode buf (c ∷ cs) in texts ++ pump_events buf' rounds

module _ {ℓ} {A : Type ℓ} where
  -- `_enqueue_event`
  unfoldable pub enqueue_event : ℕ → List A → A → List A
  enqueue_event maxsize queue text =
      if ltb (length queue) maxsize then queue ++ (text ∷ []) else queue

  -- A round of `_drain_event_queue`, which waits on an empty queue.
  unfoldable pub drain_event : List A → List A × List A
  drain_event [] = ([], [])
  drain_event (text ∷ queue) = (text ∷ [], queue)
