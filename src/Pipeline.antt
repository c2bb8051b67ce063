-- ===== src/Pipeline.antt =====
-- src/runtime/pipeline_orchestrator.py: one raw event through adapter, verification, trust, dashboard
-- and aggregator. The adapter and the verification state live as long as the orchestrator.
pub mod Sessions
pub mod Levels
pub mod Gaps
pub mod Clock
use phantom_runtime_lite.Prelude.{String, Option, List, [], ◌∷◌, string_eq}
use phantom_runtime_lite.Prelude.Dict.{lookup}
use phantom_runtime_lite.Value.{Timestamp, Python}
use phantom_runtime_lite.Verification.Data.{
  Event, VerificationResult, Result, ok, type_error, LastSeen,
}
use phantom_runtime_lite.Verification.Checks.{or_default}
use phantom_runtime_lite.Verification.Handle
use phantom_runtime_lite.Trust
use phantom_runtime_lite.Trust.{TrustResult}
use phantom_runtime_lite.Dashboard.{DashboardResult, EventAggregate, render, aggregate}
use phantom_runtime_lite.Adapter.{RawEvent, Adapter, translate}

pub record Orchestrator : Type 0 where
  pub adapter : Adapter
  pub last_seen : LastSeen

pub record PipelineOutcome : Type 0 where
  pub event : Event
  pub verification_result : VerificationResult
  pub trust_result : TrustResult
  pub dashboard_result : DashboardResult
  pub event_aggregate : EventAggregate

-- What one call draws from outside: a `uuid4()` and a reading of the clock for each of its parts.
pub record Draws : Type 0 where
  pub uuid : String
  pub verified_at : Timestamp
  pub trusted_at : Timestamp
  pub rendered_at : Timestamp
  pub aggregated_at : Timestamp

-- The part of `run` behind the verification.
unfoldable pub finish : Draws → RawEvent → Event → VerificationResult → PipelineOutcome
finish draws raw event v =
    let t = Trust.handle draws.trusted_at v in
    let metadata = or_default [] raw.metadata in
    let d =
      render draws.rendered_at v t (lookup "conversation_line" metadata) (lookup "speaker" metadata)
        (lookup "transcript" metadata) in
    record {
      event = event;
      verification_result = v;
      trust_result = t;
      dashboard_result = d;
      event_aggregate = aggregate draws.aggregated_at v t d;
    }

abbrev outcome :
    (VerificationResult → PipelineOutcome) → Result VerificationResult → Result PipelineOutcome
outcome f (ok v) = ok (f v)
outcome f type_error = type_error

-- Where the verification raises, the sequence number of the event is spent.
unfoldable pub run :
    Python → Draws → Orchestrator → RawEvent → Result PipelineOutcome × Orchestrator
unfolding finish
run py draws o raw =
    let (event, adapter) = translate o.adapter draws.uuid raw in
    let (verified, last_seen) = Handle.handle py draws.verified_at o.last_seen event in
    (outcome (finish draws raw event) verified, record { adapter = adapter; last_seen = last_seen })

-- A session: the calls of `run` one after another, a raise ending only its own call.
unfoldable pub run_all :
    Python → Orchestrator → List (Draws × RawEvent) → List (Result PipelineOutcome) × Orchestrator
run_all py o [] = ([], o)
run_all py o ((draws, raw) ∷ rest) =
    let (r, o') = run py draws o raw in let (rs, last) = run_all py o' rest in (r ∷ rs, last)
