-- ===== src/Verification/Checks.antt =====
-- src/verification/verification_runtime.py: the tables of the event contract and the checks.
use phantom_runtime_lite.Prelude.{
  String, Bool, true, false, not, ◌&&◌, Option, none, some, List, [], ◌∷◌, ◌++◌, ℤ, ltb_ℤ, ◌==◌,
  contains, string_eq, option_eq, if◌then◌else◌,
}
use phantom_runtime_lite.Prelude.Dict.{Dict, lookup, has}
use phantom_runtime_lite.Value.{
  Value, str, FieldType, text, number, boolean, mapping, isinstance, in_unit_interval, is_negative,
  Timestamp, Python,
}
use phantom_runtime_lite.Verification.Data.{
  GapReason, missing_payload, missing_fields, unexpected_type, confidence_out_of_range,
  negative_field, undefined_state, sequence_regression, timestamp_backwards, Result, ok, type_error,
  LastSeen,
}

abbrev pub known_event_types : List String
known_event_types = "transcript" ∷ "reply" ∷ "analysis" ∷ "latency" ∷ "status" ∷ "error" ∷ []

abbrev pub required_fields : Dict String (List String)
required_fields =
    ("transcript", "text" ∷ "language" ∷ "confidence" ∷ "is_final" ∷ [])
    ∷ ("reply", "provider" ∷ "model" ∷ "text" ∷ "finish_reason" ∷ [])
    ∷ ("analysis", "intent" ∷ "summary" ∷ "metadata" ∷ [])
    ∷ ("latency", "stt_ms" ∷ "routing_ms" ∷ "provider_ms" ∷ "total_ms" ∷ [])
    ∷ ("status", "state" ∷ "message" ∷ [])
    ∷ ("error", "code" ∷ "message" ∷ "recoverable" ∷ [])
    ∷ []

abbrev pub field_types : Dict String (Dict String FieldType)
field_types =
    (
      "transcript",
      ("text", text) ∷ ("language", text) ∷ ("confidence", number) ∷ ("is_final", boolean) ∷ [],
    )
    ∷ (
      "reply",
      ("provider", text) ∷ ("model", text) ∷ ("text", text) ∷ ("finish_reason", text) ∷ [],
    )
    ∷ ("analysis", ("intent", text) ∷ ("summary", text) ∷ ("metadata", mapping) ∷ [])
    ∷ (
      "latency",
      ("stt_ms", number)
          ∷ ("routing_ms", number)
          ∷ ("provider_ms", number)
          ∷ ("total_ms", number)
          ∷ [],
    )
    ∷ ("status", ("state", text) ∷ ("message", text) ∷ [])
    ∷ ("error", ("code", text) ∷ ("message", text) ∷ ("recoverable", boolean) ∷ [])
    ∷ []

abbrev pub supported_states : List String
supported_states = "STARTING" ∷ "READY" ∷ "PROCESSING" ∷ "IDLE" ∷ "STOPPED" ∷ []

abbrev pub or_default {ℓ} : {A : Type ℓ} → A → Option A → A
or_default d none = d
or_default d (some a) = a

-- [f for f in fields if f not in payload]
unfoldable pub missing_in : Dict String Value → List String → List String
missing_in payload [] = []
missing_in payload (f ∷ fields) =
    let rest = missing_in payload fields in if has f payload then rest else f ∷ rest

unfoldable pub type_reason : String → FieldType → Option Value → List GapReason
type_reason field expected none = []
type_reason field expected (some value) =
    if isinstance value expected then [] else unexpected_type field expected ∷ []

unfoldable pub type_reasons : Dict String FieldType → Dict String Value → List GapReason
type_reasons [] payload = []
type_reasons ((field, expected) ∷ rest) payload =
    type_reason field expected (lookup field payload) ++ type_reasons rest payload

unfoldable pub confidence_reason : Option Value → List GapReason
confidence_reason none = []
confidence_reason (some value) =
    if isinstance value number && not (in_unit_interval value)
    then confidence_out_of_range ∷ []
    else []

unfoldable pub negative_reason : String → Option Value → List GapReason
negative_reason field none = []
negative_reason field (some value) =
    if isinstance value number && is_negative value then negative_field field ∷ [] else []

unfoldable pub negative_reasons : List String → Dict String Value → List GapReason
negative_reasons [] payload = []
negative_reasons (field ∷ fields) payload =
    negative_reason field (lookup field payload) ++ negative_reasons fields payload

unfoldable pub state_reason : Option Value → List GapReason
state_reason (some (str state)) =
    if contains supported_states state then [] else undefined_state state ∷ []
state_reason _ = []

abbrev pub latency_fields : List String
latency_fields = "stt_ms" ∷ "routing_ms" ∷ "provider_ms" ∷ "total_ms" ∷ []

-- The checks of a value's range, by event type.
unfoldable pub range_reasons : String → Dict String Value → List GapReason
range_reasons event_type payload =
    if event_type == "transcript"
    then confidence_reason (lookup "confidence" payload)
    else if event_type == "latency"
    then negative_reasons latency_fields payload
    else if event_type == "status"
    then state_reason (lookup "state" payload)
    else []

unfoldable pub check_field_values : String → Dict String Value → List GapReason
check_field_values event_type payload =
    type_reasons (or_default [] (lookup event_type field_types)) payload
    ++ range_reasons event_type payload

-- `if missing: reasons.append(...)`
unfoldable pub missing_reason : String → List String → List GapReason
missing_reason event_type [] = []
missing_reason event_type missing = missing_fields missing event_type ∷ []

unfoldable pub check_payload : String → Dict String Value → List GapReason
unfolding missing_reason
check_payload event_type [] = missing_payload event_type ∷ []
check_payload event_type (entry ∷ payload) =
    missing_reason event_type
      (missing_in (entry ∷ payload) (or_default [] (lookup event_type required_fields)))
    ++ check_field_values event_type (entry ∷ payload)

abbrev pub same_awareness : Bool → Bool → Bool
same_awareness true b = b
same_awareness false b = not b

-- `sequence < last_sequence`, where both are there
unfoldable pub sequence_reasons : Option ℤ → Option ℤ → List GapReason
sequence_reasons (some sequence) (some last) =
    if ltb_ℤ sequence last then sequence_regression sequence last ∷ [] else []
sequence_reasons _ _ = []

unfoldable pub timestamp_reasons : Option Timestamp → Option Timestamp → Result (List GapReason)
timestamp_reasons (some t) (some last) =
    if same_awareness t.aware last.aware
    then ok (if ltb_ℤ t.instant last.instant then timestamp_backwards ∷ [] else [])
    else type_error
timestamp_reasons _ _ = ok []

-- `x if x is not None else y`
abbrev pub newest {ℓ} : {A : Type ℓ} → Option A → Option A → Option A
newest none old = old
newest (some a) old = some a

unfoldable pub last_of : LastSeen → Option String → Option ℤ × Option Timestamp
last_of seen session_id = or_default (none, none) (lookup session_id seen)

-- `finish_reason.strip().lower() == "fallback"`
unfoldable pub fallback_reason_of : Python → Option Value → Bool × Option String
fallback_reason_of py (some (str reason)) =
    if py.lower (py.strip reason) == "fallback" then (true, some reason) else (false, none)
fallback_reason_of py _ = (false, none)

unfoldable pub check_fallback : Python → Option String → Dict String Value → Bool × Option String
unfolding fallback_reason_of
check_fallback py event_type payload =
    if event_type == some "reply"
    then fallback_reason_of py (lookup "finish_reason" payload)
    else (false, none)

-- A timestamp that is no text, or that does not parse, is no timestamp.
unfoldable pub parse_timestamp : Python → Value → Option Timestamp
parse_timestamp py (str raw) = py.fromisoformat raw
parse_timestamp py _ = none
