-- ===== src/Pipeline/Gaps.antt =====
-- A contract field that the wire event lacks is reported: src/runtime/event_adapter.py adds none.
use mathlib.Core.Option.{or_else}
use phantom_runtime_lite.Prelude.{
  String, Bool, true, false, Option, none, some, List, [], ◌∷◌, ◌++◌, ◌≡◌, ◌≢◌, refl, arith, All,
  contains, string_eq,
}
use phantom_runtime_lite.Prelude.Dict.{lookup, has}
use phantom_runtime_lite.Value.{Timestamp, Python}
use phantom_runtime_lite.Verification.Data.{Event, GapReason, Result, ok, type_error, LastSeen}
use phantom_runtime_lite.Verification.Checks.{
  or_default, required_fields, check_payload, check_fallback, known_event_types,
}
use phantom_runtime_lite.Verification.Conformance.{check_payload_iff}
use phantom_runtime_lite.Verification.Handle
use phantom_runtime_lite.Verification.Handle.{build_result, payload_reasons}
use phantom_runtime_lite.Adapter.{RawEvent, translate, translate_payload, field_map_of}
use phantom_runtime_lite.Adapter.Payload.{renamed, lookup-translate_payload}
use phantom_runtime_lite.Pipeline
use phantom_runtime_lite.Pipeline.{Orchestrator, PipelineOutcome, Draws, outcome, run}

-- The wire payload has neither the field nor a source that is renamed to it.
pub record Lacks (raw : RawEvent) (t f : String) : Type 0 where
  pub typed : raw.type ≡ some t
  pub known : contains known_event_types t ≡ true
  pub required : contains (or_default [] (lookup t required_fields)) f ≡ true
  pub absent : lookup f (or_default [] raw.payload) ≡ none
  pub unwritten : renamed f (field_map_of (some t)) (or_default [] raw.payload) ≡ none

abbrev pub ReportsGap : Result PipelineOutcome → Type 0
ReportsGap type_error = Unit
ReportsGap (ok out) = out.verification_result.gap_detected ≡ true

translated_absent :
    (raw : RawEvent) (t f : String)
    → Lacks raw t f
    → has f (translate_payload raw.type (or_default [] raw.payload)) ≡ false
unfolding has or_else
translated_absent raw t f h =
    rw
      (
        lookup-translate_payload raw.type (or_default [] raw.payload) f,
        has,
        h.typed,
        h.unwritten,
        h.absent,
      )
      (ground arith)

All-at :
    (P : String → Bool) (fs : List String) (f : String)
    → All (λ g. P g ≡ true) fs
    → contains fs f ≡ true
    → P f ≡ true
All-at P [] f h m = cc
All-at P (g ∷ fs) f h m = ground (arith, All-at P fs f h.1, h.0)

translated_gap :
    (raw : RawEvent) (t f : String)
    → Lacks raw t f
    → check_payload t (translate_payload raw.type (or_default [] raw.payload)) ≢ []
translated_gap raw t f h e =
    let c = (check_payload_iff t (translate_payload raw.type (or_default [] raw.payload))).0 e in
    let there =
      All-at (λ g. has g (translate_payload raw.type (or_default [] raw.payload)))
        (or_default [] (lookup t required_fields)) f c.complete h.required in
    cc (there, translated_absent raw t f h)

detected :
    (now : Timestamp) (e : Event) (xs ys : List GapReason) (f : Bool × Option String)
    → xs ≢ []
    → (build_result now e (xs ++ ys) f).gap_detected ≡ true
unfolding build_result
detected now e [] ys f h = absurd (h refl)
detected now e (x ∷ xs) ys f h = refl

module _ (py : Python) (draws : Draws) (o : Orchestrator) (raw : RawEvent) (t f : String)
    (h : Lacks raw t f) where
  abbrev event : Event
  event = (translate o.adapter draws.uuid raw).0

  payload_gap : payload_reasons event.type (or_default [] event.payload) ≢ []
  unfolding payload_reasons translate
  payload_gap =
      rw h.typed (rw (h.known, payload_reasons) (rw h.typed at (translated_gap raw t f h)))

  finished_gap :
      (r : Result (List GapReason) × LastSeen)
      → ReportsGap
          (outcome (Pipeline.finish draws raw event) (Handle.finish py draws.verified_at event r).0)
  unfolding Handle.finish Pipeline.finish
  finished_gap (type_error, seen) = tt
  finished_gap (ok rs, seen) =
      detected draws.verified_at event (payload_reasons event.type (or_default [] event.payload)) rs
        (check_fallback py event.type (or_default [] event.payload)) payload_gap

  -- If an event of a known type lacks a field that the contract requires, in that its payload neither
  -- has the field nor one that is renamed to it, then the outcome of the run, if it has one, reports
  -- a gap.
  pub lacking_field_reported : ReportsGap (run py draws o raw).0
  unfolding run Handle.handle
  lacking_field_reported = finished_gap (Handle.check_ordering py o.last_seen event)
