-- ===== src/Pipeline/Levels.antt =====
-- The verdict that the chain of src/runtime/pipeline_orchestrator.py reaches for an event.
use phantom_runtime_lite.Prelude.{
  ◌≤◌, String, Bool, ◌&&◌, ◌||◌, Option, none, some, List, [], ◌++◌, ◌≡◌, refl, arith, length,
  length-append, contains, string_eq, if◌then◌else◌, Bool-cases, inl, inr,
}
use phantom_runtime_lite.Value.{Timestamp, Python}
use phantom_runtime_lite.Verification.Data.{
  Event, GapReason, VerificationResult, Result, ok, type_error, LastSeen,
}
use phantom_runtime_lite.Prelude.Dict.{lookup}
use phantom_runtime_lite.Dashboard.{render, aggregate}
use phantom_runtime_lite.Verification.Checks.{known_event_types, or_default, check_fallback}
use phantom_runtime_lite.Verification.Handle
use phantom_runtime_lite.Verification.Handle.{
  build_result, type_warnings, reliability, reason_of, gap_warnings, fallback_warnings, is_some,
}
use phantom_runtime_lite.Trust
use phantom_runtime_lite.Trust.{TrustLevel, trusted, caution, untrusted, TrustResult}
use phantom_runtime_lite.Adapter.{RawEvent, translate}
use phantom_runtime_lite.Pipeline
use phantom_runtime_lite.Pipeline.{Orchestrator, PipelineOutcome, Draws, outcome, run}

abbrev pub expected_level : Bool → Bool → TrustLevel
expected_level gap fallback =
    if gap && fallback then untrusted else if gap || fallback then caution else trusted

-- The verdict on a verification result: its level and its review follow from its two signals.
pub record IsJudged (v : VerificationResult) (t : TrustResult) : Type 0 where
  pub level : t.trust_level ≡ expected_level v.gap_detected v.fallback_detected
  pub review : t.human_review_required ≡ (v.gap_detected && v.fallback_detected)

IsJudged-by_signals :
    (now : Timestamp) (v : VerificationResult)
    → v.reliability_score ≡ reliability v.gap_detected v.fallback_detected
    → length v.warnings ≤ 3
    → IsJudged v (Trust.handle now v)
unfolding Trust.handle reliability
IsJudged-by_signals now v s w = ground arith

length-type_warnings : (t : Option String) → length (type_warnings t) ≤ 1
unfolding type_warnings
length-type_warnings none = omega arith
length-type_warnings (some t) = elim (Bool-cases (contains known_event_types t)) [
  | inl e ↦ rw e (omega arith)
  | inr e ↦ rw e (omega arith)
]

length-gap_warnings : (r : Option (List GapReason)) → length (gap_warnings r) ≤ 1
length-gap_warnings none = omega arith
length-gap_warnings (some rs) = omega arith

length-fallback_warnings : (r : Option String) → length (fallback_warnings r) ≤ 1
length-fallback_warnings none = omega arith
length-fallback_warnings (some r) = omega arith

length-warnings :
    (now : Timestamp) (e : Event) (rs : List GapReason) (f : Bool × Option String)
    → length (build_result now e rs f).warnings ≤ 3
unfolding build_result
length-warnings now e rs (b, f) =
    rw (length-append, length-append)
      (omega (
        arith,
        length-type_warnings e.type,
        length-gap_warnings (reason_of rs),
        length-fallback_warnings f,
      ))

build_result-IsJudged :
    (t now : Timestamp) (e : Event) (rs : List GapReason) (f : Bool × Option String)
    → IsJudged (build_result now e rs f) (Trust.handle t (build_result now e rs f))
unfolding build_result
build_result-IsJudged t now e rs f =
    IsJudged-by_signals t (build_result now e rs f) refl (length-warnings now e rs f)

-- One outcome agrees with itself along the chain: the verdict on the dashboard and in the aggregate
-- is the one that the verification signals call for, under the identity of the event.
pub record IsConsistent (draws : Draws) (o : Orchestrator) (raw : RawEvent) (out : PipelineOutcome)
    : Type 0 where
  pub judged : IsJudged out.verification_result out.trust_result
  pub shown_level :
      out.dashboard_result.trust_level
      ≡ expected_level out.verification_result.gap_detected
          out.verification_result.fallback_detected
  pub shown_gap : out.dashboard_result.gap_detected ≡ out.verification_result.gap_detected
  pub shown_review :
      out.dashboard_result.human_review_required
      ≡ (out.verification_result.gap_detected && out.verification_result.fallback_detected)
  pub shown_line :
      out.dashboard_result.conversation_line
      ≡ lookup "conversation_line" (or_default [] raw.metadata)
  pub shown_transcript :
      out.dashboard_result.transcript ≡ lookup "transcript" (or_default [] raw.metadata)
  pub shown_speaker : out.dashboard_result.speaker ≡ lookup "speaker" (or_default [] raw.metadata)
  pub event_id : out.event_aggregate.source_event_id ≡ some draws.uuid
  pub session_id : out.event_aggregate.session_id ≡ some o.adapter.session_id

abbrev pub Consistent : Draws → Orchestrator → RawEvent → Result PipelineOutcome → Type 0
Consistent draws o raw type_error = Unit
Consistent draws o raw (ok out) = IsConsistent draws o raw out

module _ (py : Python) (draws : Draws) (o : Orchestrator) (raw : RawEvent) where
  abbrev event : Event
  event = (translate o.adapter draws.uuid raw).0

  finished_Consistent :
      (r : Result (List GapReason) × LastSeen)
      → Consistent draws o raw
          (outcome (Pipeline.finish draws raw event) (Handle.finish py draws.verified_at event r).0)
  unfolding Handle.finish Pipeline.finish translate render aggregate
  finished_Consistent (type_error, seen) = tt
  finished_Consistent (ok rs, seen) =
      let reasons = Handle.payload_reasons event.type (or_default [] event.payload) ++ rs in
      let f = check_fallback py event.type (or_default [] event.payload) in
      let j = build_result-IsJudged draws.trusted_at draws.verified_at event reasons f in
      record {
        judged = j;
        shown_level = j.level;
        shown_gap = refl;
        shown_review = j.review;
        shown_line = refl;
        shown_transcript = refl;
        shown_speaker = refl;
        event_id = unfold build_result in refl;
        session_id = unfold build_result in refl;
      }

  -- Every outcome of `run` has the level UNTRUSTED where verification found a gap and a fallback,
  -- CAUTION where it found one of them, TRUSTED otherwise, asks for a human review exactly where it
  -- found both, shows this on the dashboard with the metadata of the event, and carries the event's
  -- identity and the session's.
  pub run-IsConsistent : Consistent draws o raw (run py draws o raw).0
  unfolding run Handle.handle
  run-IsConsistent = finished_Consistent (Handle.check_ordering py o.last_seen event)
