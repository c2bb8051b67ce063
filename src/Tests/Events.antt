-- ===== src/Tests/Events.antt =====
-- The event pipeline of src/runtime, src/verification, src/trust and src/dashboard on concrete events.
use phantom_runtime_lite.Prelude.{
  String, true, false, Option, none, some, List, [], ◌∷◌, ◌≡◌, ◌↔◌, refl, All, string_eq, option_eq,
  ◌==◌, if◌then◌else◌, pos,
}
use mathlib.Core.Option.{or_else}
use phantom_runtime_lite.Prelude.Dict.{Dict, lookup, insert}
use phantom_runtime_lite.Value.{Value, null, str, Timestamp, Python}
use phantom_runtime_lite.Verification.Data.{Event, type_error}
use phantom_runtime_lite.Verification.Checks.{last_of, timestamp_reasons, parse_timestamp}
use phantom_runtime_lite.Verification.Handle.{check_ordering, handle}
use phantom_runtime_lite.Verification.Awareness.{
  seen_after, awareness, first_aware, differ, handle-seen_after_iff,
}
use phantom_runtime_lite.Verification.Sessions.{
  handle_all, session_events, session_results, session_results_of_mixed,
}
use phantom_runtime_lite.Adapter.{RawEvent, Adapter, field_map_of}
use phantom_runtime_lite.Adapter.Payload.{renamed}
use phantom_runtime_lite.Pipeline.{Orchestrator, Draws, run, run_all}
use phantom_runtime_lite.Pipeline.Sessions.{NoRegression, new_orchestrator, no_sequence_regression}
use phantom_runtime_lite.Pipeline.Levels.{Consistent, run-IsConsistent}
use phantom_runtime_lite.Pipeline.Gaps.{Lacks, ReportsGap, lacking_field_reported}
use phantom_runtime_lite.Pipeline.Clock.{IsAware, Returns, aware_session-Returns}

abbrev noon : Timestamp
noon = record { aware = true; instant = pos 43200 }

abbrev local_noon : Timestamp
local_noon = record { aware = false; instant = pos 43200 }

-- `fromisoformat` knows two texts.
abbrev python : Python
python = record {
  fromisoformat = λ s.
      if s == "2026-01-01T12:00:00Z"
      then some noon
      else if s == "2026-01-01T12:00:00"
      then some local_noon
      else none;
  strip = λ s. s;
  lower = λ s. s;
}

abbrev draws : Draws
draws = record {
  uuid = "e1";
  verified_at = noon;
  trusted_at = noon;
  rendered_at = noon;
  aggregated_at = noon;
}

-- A transcript as the runtime emits it: without confidence and without is_final.
abbrev transcript : RawEvent
transcript = record {
  version = some (pos 1);
  type = some "transcript";
  timestamp = str "2026-01-01T12:00:00Z";
  payload = some (("text", str "hello") ∷ ("lang", str "en") ∷ []);
  metadata = none;
}

abbrev adapter : Adapter
adapter = record { session_id = "s1"; sequence = 1 }

abbrev orchestrator : Orchestrator
orchestrator = new_orchestrator adapter

abbrev session : List (Draws × RawEvent)
session = (draws, transcript) ∷ (draws, transcript) ∷ []

run-IsConsistent_example :
    Consistent draws orchestrator transcript (run python draws orchestrator transcript).0
run-IsConsistent_example = run-IsConsistent python draws orchestrator transcript

no_sequence_regression_example :
    All NoRegression (run_all python (new_orchestrator adapter) session).0
no_sequence_regression_example = no_sequence_regression python adapter session

abbrev event_of : Option String → Value → Event
event_of s t = record {
  schema_version = "1.0";
  event_id = none;
  timestamp = t;
  session_id = s;
  sequence = some (pos 1);
  type = some "status";
  payload = some (("state", str "READY") ∷ ("message", str "up") ∷ []);
}

abbrev mixed : List (Timestamp × Event)
mixed =
    (noon, event_of (some "s1") null)
    ∷ (noon, event_of (some "s2") null)
    ∷ (noon, event_of (some "s1") null)
    ∷ []

session_results_of_mixed_example :
    session_results (some "s1") (handle_all python [] mixed)
    ≡ session_results (some "s1") (handle_all python [] (session_events (some "s1") mixed))
session_results_of_mixed_example = session_results_of_mixed python (some "s1") mixed [] [] refl

abbrev status_payload : Dict String Value
status_payload = ("state", str "READY") ∷ ("message", str "up") ∷ []

transcript-Lacks_is_final : Lacks transcript "transcript" "is_final"
unfolding lookup renamed field_map_of string_eq or_else
transcript-Lacks_is_final = record {
  typed = refl;
  known = refl;
  required = refl;
  absent = refl;
  unwritten = refl;
}

lacking_field_reported_example : ReportsGap (run python draws orchestrator transcript).0
lacking_field_reported_example =
    lacking_field_reported python draws orchestrator transcript "transcript" "is_final"
      transcript-Lacks_is_final

stamp-IsAware : IsAware (parse_timestamp python (str "2026-01-01T12:00:00Z"))
unfolding parse_timestamp string_eq
stamp-IsAware = refl

aware_session-Returns_example : All Returns (run_all python (new_orchestrator adapter) session).0
aware_session-Returns_example =
    aware_session-Returns python adapter session (stamp-IsAware, (stamp-IsAware, tt))

abbrev local_event : Event
local_event = event_of (some "s1") (str "2026-01-01T12:00:00")

-- An event with an offset, and two without: the second of these raises as the first does.
abbrev mixed_stream : List (Timestamp × Event)
mixed_stream = (noon, event_of (some "s1") (str "2026-01-01T12:00:00Z")) ∷ (noon, local_event) ∷ []

handle-seen_after_iff_example :
    ((handle python noon (seen_after python [] mixed_stream) local_event).0 ≡ type_error) ↔ (
      differ
        (awareness (parse_timestamp python local_event.timestamp))
        (first_aware python local_event.session_id mixed_stream)
      ≡ true)
handle-seen_after_iff_example = handle-seen_after_iff python mixed_stream noon local_event

raises_again : (handle python noon (seen_after python [] mixed_stream) local_event).0 ≡ type_error
unfolding handle seen_after string_eq option_eq check_ordering timestamp_reasons parse_timestamp
    last_of lookup insert
raises_again = refl
