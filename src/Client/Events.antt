-- ===== src/Client/Events.antt =====
-- src/runtime_client/typed_event.py: `TypedEventStore`. `json.loads`, `str` and the time of day are
-- arguments; what is shown is kept as the data it is formatted from. The playback of a reply and the
-- trace output are left out.
pub mod Log
use phantom_runtime_lite.Prelude.{
  ℕ, ◌-◌, String, Bool, true, false, not, ◌&&◌, Option, none, some, List, [], ◌∷◌, ◌++◌, ◌==◌,
  string_eq, length, drop, if◌then◌else◌,
}
use phantom_runtime_lite.Value.{Value, str, dict, Fields, end, field}

-- `dict.get`; a name stands once in the dict of a JSON object.
unfoldable pub get : String → Fields → Option Value
get name end = none
get name (field key value fields) =
    let rest = get name fields in if key == name then some value else rest

abbrev pub or_default : Option Value → Value → Value
or_default none default = default
or_default (some value) default = value

abbrev pub get_or : String → Value → Fields → Value
get_or name default payload = or_default (get name payload) default

pub record LogEntry : Type 0 where
  pub text : String
  pub lang : String
  pub ts : String
  pub speaker : String

-- What comes to the console, and the reply that is handed to the speech thread.
pub data Output : Type 0 where
  unparseable : String → Output
  unexpected_shape : String → Output
  transcript_shown : LogEntry → Output
  reply_shown : String → Output
  reply_spoken : String → Output
  status_shown : Value → Value → Output
  latency_shown : Option Value → Option Value → Output
  error_shown : String → Value → Output
  analysis_shown : Value → Output
  other_shown : Value → Fields → Output

pub record TypedEventStore : Type 0 where
  pub transcript_log : List LogEntry
  pub last_status : Option Fields
  pub output : List Output

abbrev pub new_store : TypedEventStore
new_store = record { transcript_log = []; last_status = none; output = [] }

-- What the store takes from Python, and how it is set up: does it speak, how long is the log?
pub record Client : Type 0 where
  pub loads : String → Option Value
  pub str_of : Value → String
  pub now_ts : String
  pub speaks : Bool
  pub maxlen : ℕ

-- `deque(maxlen=n).append`
unfoldable pub keep_last {ℓ} : {A : Type ℓ} → ℕ → List A → List A
keep_last n xs = drop (length xs - n) xs

abbrev pub show : List Output → TypedEventStore → TypedEventStore
show out s = record s { output = s.output ++ out }

module _ (c : Client) where
  abbrev pub text_of : String → String → Fields → String
  text_of name default payload = c.str_of (get_or name (str default) payload)

  -- `str(payload.get("ts", "")) or _now_ts()`
  abbrev pub ts_of : Fields → String
  ts_of payload = let given = text_of "ts" "" payload in if given == "" then c.now_ts else given

  abbrev pub transcript_entry : Fields → LogEntry
  transcript_entry payload = record {
    text = text_of "text" "" payload;
    lang = c.str_of (get_or "lang" (get_or "language" (str "") payload) payload);
    ts = ts_of payload;
    speaker = text_of "speaker" "unknown" payload;
  }

  abbrev pub reply_entry : Fields → LogEntry
  reply_entry payload = record {
    text = text_of "text" "" payload;
    lang = text_of "lang" "" payload;
    ts = ts_of payload;
    speaker = text_of "speaker" "agent" payload;
  }

  unfoldable pub append_log : LogEntry → TypedEventStore → TypedEventStore
  unfolding keep_last
  append_log entry s = record s {
    transcript_log = keep_last c.maxlen (s.transcript_log ++ (entry ∷ []));
  }

  unfoldable pub handle_transcript : Fields → TypedEventStore → TypedEventStore
  unfolding append_log
  handle_transcript payload s =
      let entry = transcript_entry payload in
      show (transcript_shown entry ∷ []) (append_log entry s)

  unfoldable pub handle_reply : Fields → TypedEventStore → TypedEventStore
  unfolding append_log
  handle_reply payload s =
      let entry = reply_entry payload in
      show
        (reply_shown entry.text
          ∷ (if not (entry.text == "") && c.speaks then reply_spoken entry.text ∷ [] else []))
        (append_log entry s)

  unfoldable pub handle_status : Fields → TypedEventStore → TypedEventStore
  handle_status payload s =
      show
        (status_shown (get_or "state" (str "?") payload) (get_or "previous" (str "?") payload) ∷ [])
        (record s { last_status = some payload })

  -- `payload.get("total_ms", payload.get("provider_ms"))`
  abbrev first_given : Option Value → Option Value → Option Value
  first_given (some value) other = some value
  first_given none other = other

  unfoldable pub handle_latency : Fields → TypedEventStore → TypedEventStore
  handle_latency payload s =
      show
        (latency_shown (get "stt_ms" payload)
            (first_given (get "total_ms" payload) (get "provider_ms" payload))
          ∷ [])
        s

  unfoldable pub handle_error : Fields → TypedEventStore → TypedEventStore
  handle_error payload s =
      show (error_shown (text_of "label" "error" payload) (get_or "message" (str "") payload) ∷ [])
        s

  unfoldable pub handle_analysis : Fields → TypedEventStore → TypedEventStore
  handle_analysis payload s = show (analysis_shown (get_or "text" (dict payload) payload) ∷ []) s

  -- The handler of an event type.
  unfoldable pub handle_other : String → Fields → TypedEventStore → TypedEventStore
  unfolding handle_status handle_latency handle_error handle_analysis
  handle_other type payload s =
      if type == "status"
      then handle_status payload s
      else if type == "latency"
      then handle_latency payload s
      else if type == "error"
      then handle_error payload s
      else if type == "analysis"
      then handle_analysis payload s
      else show (other_shown (str type) payload ∷ []) s

  unfoldable pub handle_named : String → Fields → TypedEventStore → TypedEventStore
  unfolding handle_transcript handle_reply handle_other
  handle_named type payload s =
      if type == "transcript"
      then handle_transcript payload s
      else if type == "reply"
      then handle_reply payload s
      else handle_other type payload s

  unfoldable pub handle_typed : Value → Fields → TypedEventStore → TypedEventStore
  unfolding handle_named
  handle_typed (str type) payload s = handle_named type payload s
  handle_typed type payload s = show (other_shown type payload ∷ []) s

  -- A payload that is no dict counts as an empty one.
  abbrev pub payload_of : Value → Fields
  payload_of (dict payload) = payload
  payload_of _ = end

  unfoldable pub handle_envelope : String → Option Value → TypedEventStore → TypedEventStore
  unfolding handle_typed
  handle_envelope line none s = show (unparseable line ∷ []) s
  handle_envelope line (some (dict envelope)) s =
      handle_typed (get_or "type" (str "?") envelope)
        (payload_of (get_or "payload" (dict end) envelope)) s
  handle_envelope line (some _) s = show (unexpected_shape line ∷ []) s

  unfoldable pub handle_line : String → TypedEventStore → TypedEventStore
  unfolding handle_envelope
  handle_line line s = handle_envelope line (c.loads line) s

  unfoldable pub handle_lines : List String → TypedEventStore → TypedEventStore
  unfolding handle_line
  handle_lines [] s = s
  handle_lines (line ∷ rest) s = handle_lines rest (handle_line line s)
