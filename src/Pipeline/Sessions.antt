-- ===== src/Pipeline/Sessions.antt =====
-- What the whole chain of src/runtime/pipeline_orchestrator.py promises for a session.
use phantom_runtime_lite.Prelude.{
  ℕ, ◌+◌, String, Bool, true, false, not, Option, none, some, List, [], ◌∷◌, ◌++◌, ◌≡◌, refl, arith,
  ℤ, pos, ◌<ℤ◌, ltb_ℤ-false, All, all, all-append, ==_refl, string_eq, option_eq,
}
use phantom_runtime_lite.Prelude.Dict.{lookup}
use phantom_runtime_lite.Value.{Timestamp, Python}
use phantom_runtime_lite.Verification.Data.{
  Event, GapReason, sequence_regression, Result, ok, type_error, LastSeen,
}
use phantom_runtime_lite.Verification.Checks.{
  or_default, sequence_reasons, timestamp_reasons, newest, last_of, parse_timestamp, check_fallback,
}
use phantom_runtime_lite.Verification.Handle
use phantom_runtime_lite.Verification.Handle.{settle, check_ordering, build_result, payload_reasons}
use phantom_runtime_lite.Verification.Ordering.{
  about_payload, payload_reasons_kind, last_of-insert, finish-seen,
}
use phantom_runtime_lite.Adapter.{RawEvent, Adapter, translate}
use phantom_runtime_lite.Pipeline
use phantom_runtime_lite.Pipeline.{Orchestrator, PipelineOutcome, Draws, outcome, run, run_all}

abbrev is_regression : GapReason → Bool
is_regression (sequence_regression _ _) = true
is_regression _ = false

abbrev in_order : GapReason → Bool
in_order r = not (is_regression r)

-- The gap reasons of a result contain no sequence regression.
abbrev pub NoRegression : Result PipelineOutcome → Type 0
NoRegression type_error = Unit
NoRegression (ok out) = all in_order (or_default [] out.verification_result.gap_reason) ≡ true

-- The last number seen is below the adapter's next one.
abbrev IsBelow : Option ℤ → ℕ → Type 0
IsBelow none n = Unit
IsBelow (some z) n = z <ℤ pos n

abbrev pub IsNumbered : Orchestrator → Type 0
IsNumbered o = IsBelow (last_of o.last_seen (some o.adapter.session_id)).0 o.adapter.sequence

about_payload-in_order :
    (rs : List GapReason) → all about_payload rs ≡ true → all in_order rs ≡ true
about_payload-in_order [] h = refl
about_payload-in_order (sequence_regression _ _ ∷ rs) h = cc
about_payload-in_order (r ∷ rs) h = ground (arith, about_payload-in_order rs)

sequence_in_order :
    (n : ℕ) (last : Option ℤ) → IsBelow last n → sequence_reasons (some (pos n)) last ≡ []
unfolding sequence_reasons
sequence_in_order n none h = refl
sequence_in_order n (some z) h = rw (ltb_ℤ-false z (pos n) h)

timestamp_in_order :
    (t last : Option Timestamp) (rs : List GapReason)
    → timestamp_reasons t last ≡ ok rs
    → all in_order rs ≡ true
unfolding timestamp_reasons
timestamp_in_order none last rs h = ground arith
timestamp_in_order (some t) none rs h = ground arith
timestamp_in_order (some t) (some l) rs h = ground arith

reasons_of_result :
    (now : Timestamp) (e : Event) (rs : List GapReason) (f : Bool × Option String)
    → or_default [] (build_result now e rs f).gap_reason ≡ rs
unfolding build_result
reasons_of_result now e [] f = refl
reasons_of_result now e (r ∷ rs) f = refl

IsBelow-suc : (last : Option ℤ) (n : ℕ) → IsBelow last n → IsBelow last (n + 1)
IsBelow-suc none n h = tt
IsBelow-suc (some z) n h = omega arith

module _ (py : Python) (draws : Draws) (o : Orchestrator) (raw : RawEvent) where
  abbrev event : Event
  event = (translate o.adapter draws.uuid raw).0

  abbrev stamp : Option Timestamp
  stamp = parse_timestamp py event.timestamp

  abbrev last : Option ℤ × Option Timestamp
  last = last_of o.last_seen (some o.adapter.session_id)

  abbrev settled : Result (List GapReason) → Result (List GapReason) × LastSeen
  settled r = settle o.last_seen event stamp last r

  all-in_order :
      (rs : List GapReason)
      → IsNumbered o
      → all in_order rs ≡ true
      → all in_order (
          payload_reasons event.type (or_default [] event.payload)
          ++ (sequence_reasons event.sequence last.0 ++ rs))
        ≡ true
  unfolding translate
  all-in_order rs h good =
      rw
        (
          all-append,
          about_payload-in_order (payload_reasons event.type (or_default [] event.payload))
              (payload_reasons_kind event.type (or_default [] event.payload)),
          sequence_in_order o.adapter.sequence last.0 h,
        )
        good

  settled-NoRegression :
      (r : Result (List GapReason))
      → IsNumbered o
      → ((rs : List GapReason) → r ≡ ok rs → all in_order rs ≡ true)
      → NoRegression (
          outcome
            (Pipeline.finish draws raw event)
            (Handle.finish py draws.verified_at event (settled r)).0)
  unfolding settle Handle.finish Pipeline.finish
  settled-NoRegression type_error h good = tt
  settled-NoRegression (ok rs) h good =
      rw
        (reasons_of_result draws.verified_at event _
          (check_fallback py event.type (or_default [] event.payload)))
        (all-in_order rs h (good rs refl))

  settled-IsBelow :
      (r : Result (List GapReason))
      → IsNumbered o
      → IsBelow (last_of (settled r).1 (some o.adapter.session_id)).0 (o.adapter.sequence + 1)
  unfolding settle translate
  settled-IsBelow type_error h = IsBelow-suc last.0 o.adapter.sequence h
  settled-IsBelow (ok rs) h =
      let s = some o.adapter.session_id in
      rw
        (
          last_of-insert s s (newest event.sequence last.0, newest stamp last.1) o.last_seen,
          ==_refl s,
        )
        (omega arith)

  run-IsNumbered :
      IsNumbered o → NoRegression (run py draws o raw).0 × IsNumbered (run py draws o raw).1
  unfolding run Handle.handle check_ordering translate
  run-IsNumbered h = (
    settled-NoRegression (timestamp_reasons stamp last.1) h (timestamp_in_order stamp last.1),
    rw (finish-seen py draws.verified_at event (settled (timestamp_reasons stamp last.1)))
        (settled-IsBelow (timestamp_reasons stamp last.1) h),
  )

run_all-NoRegression :
    (py : Python) (o : Orchestrator) (raws : List (Draws × RawEvent))
    → IsNumbered o
    → All NoRegression (run_all py o raws).0
unfolding run_all
run_all-NoRegression py o [] h = tt
run_all-NoRegression py o ((draws, raw) ∷ raws) h =
    let s = run-IsNumbered py draws o raw h in
    (s.0, run_all-NoRegression py (run py draws o raw).1 raws s.1)

abbrev pub new_orchestrator : Adapter → Orchestrator
new_orchestrator a = record { adapter = a; last_seen = [] }

-- Whatever raw events come, also if some of them raise, an orchestrator with a fresh verification
-- state never reports a sequence regression: its own numbering is in order.
pub no_sequence_regression :
    (py : Python) (a : Adapter) (raws : List (Draws × RawEvent))
    → All NoRegression (run_all py (new_orchestrator a) raws).0
unfolding last_of lookup
no_sequence_regression py a raws = run_all-NoRegression py (new_orchestrator a) raws tt
