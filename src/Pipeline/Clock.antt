-- ===== src/Pipeline/Clock.antt =====
-- A session whose timestamps all carry an offset runs through src/runtime/pipeline_orchestrator.py
-- without a raise.
use phantom_runtime_lite.Prelude.{
  true, Option, none, some, List, [], ◌∷◌, ◌≡◌, ◌≢◌, refl, arith, ℤ, All, ==_refl, string_eq,
  option_eq,
}
use phantom_runtime_lite.Prelude.Dict.{lookup}
use phantom_runtime_lite.Value.{Timestamp, Python}
use phantom_runtime_lite.Verification.Data.{Event, GapReason, Result, ok, type_error}
use phantom_runtime_lite.Verification.Checks.{timestamp_reasons, newest, last_of, parse_timestamp}
use phantom_runtime_lite.Verification.Handle
use phantom_runtime_lite.Verification.Handle.{settle, check_ordering}
use phantom_runtime_lite.Verification.Ordering.{last_of-insert, finish-seen}
use phantom_runtime_lite.Adapter.{RawEvent, Adapter, translate}
use phantom_runtime_lite.Pipeline
use phantom_runtime_lite.Pipeline.{Orchestrator, PipelineOutcome, Draws, outcome, run, run_all}
use phantom_runtime_lite.Pipeline.Sessions.{new_orchestrator}

-- A timestamp that is there carries an offset.
abbrev pub IsAware : Option Timestamp → Type 0
IsAware none = Unit
IsAware (some t) = t.aware ≡ true

abbrev pub Returns : Result PipelineOutcome → Type 0
Returns type_error = ⊥
Returns (ok out) = Unit

abbrev AwareSession : Orchestrator → Type 0
AwareSession o = IsAware (last_of o.last_seen (some o.adapter.session_id)).1

timestamp_returns :
    (t last : Option Timestamp) → IsAware t → IsAware last → timestamp_reasons t last ≢ type_error
unfolding timestamp_reasons
timestamp_returns none last ht hl e = cc
timestamp_returns (some t) none ht hl e = cc
timestamp_returns (some t) (some l) ht hl e = ground arith

IsAware-newest : (t last : Option Timestamp) → IsAware t → IsAware last → IsAware (newest t last)
IsAware-newest none last ht hl = hl
IsAware-newest (some t) last ht hl = ht

module _ (py : Python) (draws : Draws) (o : Orchestrator) (raw : RawEvent) where
  abbrev event : Event
  event = (translate o.adapter draws.uuid raw).0

  abbrev stamp : Option Timestamp
  stamp = parse_timestamp py raw.timestamp

  abbrev last : Option ℤ × Option Timestamp
  last = last_of o.last_seen (some o.adapter.session_id)

  settled-Returns :
      (r : Result (List GapReason))
      → r ≢ type_error
      → IsAware stamp
      → IsAware last.1
      → Returns (
          outcome
            (Pipeline.finish draws raw event)
            (Handle.finish py draws.verified_at event (settle o.last_seen event stamp last r)).0)
        × IsAware (last_of (settle o.last_seen event stamp last r).1 (some o.adapter.session_id)).1
  unfolding settle Handle.finish Pipeline.finish translate
  settled-Returns type_error h ht hl = absurd (h refl)
  settled-Returns (ok rs) h ht hl =
      let s = some o.adapter.session_id in
      (
        tt,
        rw
            (
              last_of-insert s s (newest event.sequence last.0, newest stamp last.1) o.last_seen,
              ==_refl s,
            )
            (IsAware-newest stamp last.1 ht hl),
      )

  run-Returns :
      IsAware stamp
      → AwareSession o
      → Returns (run py draws o raw).0 × AwareSession (run py draws o raw).1
  unfolding run Handle.handle check_ordering translate
  run-Returns ht hl =
      let r =
        settled-Returns (timestamp_reasons stamp last.1) (timestamp_returns stamp last.1 ht hl) ht
          hl in
      (r.0, rw (finish-seen py draws.verified_at event (check_ordering py o.last_seen event)) r.1)

run_all-Returns :
    (py : Python) (o : Orchestrator) (raws : List (Draws × RawEvent))
    → All (λ x. IsAware (parse_timestamp py x.1.timestamp)) raws
    → AwareSession o
    → All Returns (run_all py o raws).0
unfolding run_all
run_all-Returns py o [] h s = tt
run_all-Returns py o ((draws, raw) ∷ raws) h s =
    let r = run-Returns py draws o raw h.0 s in
    (r.0, run_all-Returns py (run py draws o raw).1 raws h.1 r.1)

-- A session in which no event carries a timestamp without an offset runs from start to end without
-- a raise: every event has an outcome.
pub aware_session-Returns :
    (py : Python) (a : Adapter) (raws : List (Draws × RawEvent))
    → All (λ x. IsAware (parse_timestamp py x.1.timestamp)) raws
    → All Returns (run_all py (new_orchestrator a) raws).0
unfolding last_of lookup
aware_session-Returns py a raws h = run_all-Returns py (new_orchestrator a) raws h tt
