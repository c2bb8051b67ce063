-- ===== src/Adapter.antt =====
-- src/runtime/event_adapter.py: the translation of a raw envelope into a contract event.
pub mod Payload
use phantom_runtime_lite.Prelude.{
  ℕ, suc, ◌+◌, ◌/◌, ◌%◌, zero, String, Bool, true, false, ◌||◌, Option, none, some, List, [], ◌∷◌,
  ℤ, pos, negsuc, ltb, ◌==◌, contains, string_eq, if◌then◌else◌,
}
use Prim.Native.String.{◌++◌ as ◌<>◌}
use phantom_runtime_lite.Prelude.Dict.{Dict, lookup, has, insert}
use phantom_runtime_lite.Value.{Value, null}
use phantom_runtime_lite.Verification.Data.{Event}
use phantom_runtime_lite.Verification.Checks.{or_default}

-- What `_emit_event` puts on the wire, with the metadata that a recorded event may carry.
pub record RawEvent : Type 0 where
  pub version : Option ℤ
  pub type : Option String
  pub timestamp : Value
  pub payload : Option (Dict String Value)
  pub metadata : Option (Dict String Value)

-- `_PAYLOAD_FIELD_MAP`: for each event type the renames, source key first.
abbrev pub payload_field_map : Dict String (Dict String String)
payload_field_map =
    ("transcript", ("text", "text") ∷ ("lang", "language") ∷ [])
    ∷ ("reply", ("text", "text") ∷ [])
    ∷ ("analysis", ("text", "summary") ∷ [])
    ∷ ("latency", ("stt_ms", "stt_ms") ∷ ("gpt_ms", "provider_ms") ∷ ("total_ms", "total_ms") ∷ [])
    ∷ ("status", ("state", "state") ∷ [])
    ∷ ("error", ("message", "message") ∷ [])
    ∷ []

unfoldable pub field_map_of : Option String → Dict String String
field_map_of none = []
field_map_of (some event_type) = or_default [] (lookup event_type payload_field_map)

-- The first loop: `mapped` and `consumed`.
unfoldable pub rename_fields :
    Dict String String
    → Dict String Value
    → Dict String Value
    → List String
    → Dict String Value × List String
rename_fields [] raw mapped consumed = (mapped, consumed)
rename_fields ((src, dst) ∷ renames) raw mapped consumed = elim (lookup src raw) [
  | none ↦ rename_fields renames raw mapped consumed
  | some value ↦ rename_fields renames raw (insert dst value mapped) (src ∷ consumed)
]

-- The second loop: a key that was not consumed and is not there yet is carried through.
unfoldable pub carry_fields :
    Dict String Value → List String → Dict String Value → Dict String Value
carry_fields [] consumed mapped = mapped
carry_fields ((key, value) ∷ raw) consumed mapped =
    carry_fields raw consumed
      (if contains consumed key || has key mapped then mapped else insert key value mapped)

unfoldable pub translate_payload : Option String → Dict String Value → Dict String Value
unfolding rename_fields carry_fields field_map_of
translate_payload event_type raw =
    let (mapped, consumed) = rename_fields (field_map_of event_type) raw [] [] in
    carry_fields raw consumed mapped

-- `str` of an int: the decimal digits, the fuel being above their number.
digits : List String
digits = "0" ∷ "1" ∷ "2" ∷ "3" ∷ "4" ∷ "5" ∷ "6" ∷ "7" ∷ "8" ∷ "9" ∷ []

digit : List String → ℕ → String
digit [] n = ""
digit (d ∷ ds) zero = d
digit (d ∷ ds) (suc n) = digit ds n

decimal : ℕ → ℕ → String
decimal zero n = ""
decimal (suc fuel) n = elim (ltb n 10) [
  | true ↦ digit digits n
  | false ↦ decimal fuel (n / 10) <> digit digits (n % 10)
]

str_int : Option ℤ → String
unfolding decimal digit digits
str_int none = "None"
str_int (some (pos n)) = decimal (n + 1) n
str_int (some (negsuc n)) = "-" <> decimal (n + 2) (n + 1)

-- `_SCHEMA_VERSION_MAP.get(version, str(version))`
unfoldable pub schema_version_of : Option ℤ → String
unfolding str_int
schema_version_of (some (pos (suc zero))) = "1.0"
schema_version_of version = str_int version

-- A session's adapter: its identity, and the number that `itertools.count(1)` yields next.
pub record Adapter : Type 0 where
  pub session_id : String
  pub sequence : ℕ

-- `session_id or str(uuid.uuid4())`
unfoldable pub new_adapter : Option String → String → Adapter
new_adapter none uuid = record { session_id = uuid; sequence = 1 }
new_adapter (some id) uuid = record { session_id = if id == "" then uuid else id; sequence = 1 }

-- `event_id` is the text of the `uuid4()` that the call draws.
unfoldable pub translate : Adapter → String → RawEvent → Event × Adapter
unfolding translate_payload schema_version_of
translate a uuid raw = (
  record {
    schema_version = schema_version_of raw.version;
    event_id = some uuid;
    timestamp = raw.timestamp;
    session_id = some a.session_id;
    sequence = some (pos a.sequence);
    type = raw.type;
    payload = some (translate_payload raw.type (or_default [] raw.payload));
  },
  record a { sequence = a.sequence + 1 },
)
