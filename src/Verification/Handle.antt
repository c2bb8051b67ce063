-- ===== src/Verification/Handle.antt =====
-- src/verification/verification_runtime.py: `VerificationRuntime.handle`. The state is `_last_seen`;
-- a raised TypeError is `type_error`, and leaves the state as it was.
use phantom_runtime_lite.Prelude.{
  ℕ, ◌-◌, min, String, Bool, true, false, ◌||◌, ℤ, Option, none, some, List, [], ◌∷◌, ◌++◌, leb,
  contains, string_eq, option_eq, if◌then◌else◌,
}
use phantom_runtime_lite.Prelude.Dict.{Dict, insert}
use phantom_runtime_lite.Value.{Value, Timestamp, Python}
use phantom_runtime_lite.Verification.Data.{
  Event, GapReason, Warning, unknown_event_type, gap_warning, fallback_warning, Explanation,
  nothing_found, found, VerificationResult, Result, ok, type_error, LastSeen,
}
use phantom_runtime_lite.Verification.Checks.{
  known_event_types, or_default, check_payload, sequence_reasons, timestamp_reasons, newest,
  last_of, check_fallback, parse_timestamp,
}

-- The end of `_check_ordering`: a raise by the comparison of the timestamps leaves `_last_seen`.
unfoldable pub settle :
    LastSeen
    → Event
    → Option Timestamp
    → Option ℤ × Option Timestamp
    → Result (List GapReason)
    → Result (List GapReason) × LastSeen
settle seen event timestamp last type_error = (type_error, seen)
settle seen event timestamp (last_sequence, last_timestamp) (ok backwards) = (
  ok (sequence_reasons event.sequence last_sequence ++ backwards),
  insert event.session_id (newest event.sequence last_sequence, newest timestamp last_timestamp)
      seen,
)

unfoldable pub check_ordering : Python → LastSeen → Event → Result (List GapReason) × LastSeen
unfolding settle
check_ordering py seen event =
    let timestamp = parse_timestamp py event.timestamp in
    let last = last_of seen event.session_id in
    settle seen event timestamp last (timestamp_reasons timestamp last.1)

unfoldable pub type_warnings : Option String → List Warning
type_warnings none = unknown_event_type none ∷ []
type_warnings (some t) =
    if contains known_event_types t then [] else unknown_event_type (some t) ∷ []

-- The payload is checked where the type is known.
unfoldable pub payload_reasons : Option String → Dict String Value → List GapReason
payload_reasons none payload = []
payload_reasons (some t) payload =
    if contains known_event_types t then check_payload t payload else []

-- `"; ".join(gap_reasons) if gap_reasons else None`, not joined
abbrev pub reason_of : List GapReason → Option (List GapReason)
reason_of [] = none
reason_of (r ∷ rs) = some (r ∷ rs)

abbrev pub is_some {ℓ} : {A : Type ℓ} → Option A → Bool
is_some none = false
is_some (some _) = true

abbrev pub gap_warnings : Option (List GapReason) → List Warning
gap_warnings none = []
gap_warnings (some rs) = gap_warning rs ∷ []

abbrev pub fallback_warnings : Option String → List Warning
fallback_warnings none = []
fallback_warnings (some r) = fallback_warning r ∷ []

-- 1.0, less 0.5 for a gap, less 0.3 for a fallback, clamped; in percent
unfoldable pub reliability : Bool → Bool → ℕ
reliability gap fallback =
    let after_gap = if gap then 100 - 50 else 100 in
    min 100 (if fallback then after_gap - 30 else after_gap)

unfoldable pub build_explanation :
    Option String → Bool → Option (List GapReason) → Bool → Option String → Explanation
build_explanation event_type gap gap_reason fallback fallback_reason =
    if gap || fallback
    then found event_type (if gap then gap_reason else none)
        (if fallback then fallback_reason else none)
    else nothing_found event_type

-- What `handle` builds once all the checks have run.
unfoldable pub build_result :
    Timestamp → Event → List GapReason → Bool × Option String → VerificationResult
unfolding type_warnings reliability build_explanation
build_result now event gap_reasons (fallback_detected, fallback_reason) =
    let gap_reason = reason_of gap_reasons in
    let gap_detected = is_some gap_reason in
    let score = reliability gap_detected fallback_detected in
    record {
      schema_version = "1.0";
      source_event_id = event.event_id;
      session_id = event.session_id;
      timestamp = now;
      gap_detected = gap_detected;
      gap_reason = gap_reason;
      fallback_detected = fallback_detected;
      fallback_reason = fallback_reason;
      reliable = leb 50 score;
      reliability_score = score;
      warnings =
          type_warnings event.type
          ++ (gap_warnings gap_reason ++ fallback_warnings fallback_reason);
      explanation =
          build_explanation event.type gap_detected gap_reason fallback_detected fallback_reason;
    }

unfoldable pub finish :
    Python
    → Timestamp
    → Event
    → Result (List GapReason) × LastSeen
    → Result VerificationResult × LastSeen
unfolding payload_reasons
finish py now event (type_error, seen) = (type_error, seen)
finish py now event (ok ordering, seen) =
    let payload = or_default [] event.payload in
    (
      ok (
          build_result now event (payload_reasons event.type payload ++ ordering)
            (check_fallback py event.type payload)),
      seen,
    )

unfoldable pub handle : Python → Timestamp → LastSeen → Event → Result VerificationResult × LastSeen
unfolding finish
handle py now seen event = finish py now event (check_ordering py seen event)
