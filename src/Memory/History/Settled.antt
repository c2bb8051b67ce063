-- ===== src/Memory/History/Settled.antt =====
-- What a consistent status history of src/phantom_runtime.py is.
use phantom_runtime_lite.Prelude.{
  ℕ, suc, leb, String, Bool, true, false, not, ◌&&◌, ◌||◌, List, [], ◌∷◌, ◌++◌, ◌==◌, all, length,
  string_eq, if◌then◌else◌, ◌≡◌, refl, ap, ap₂, ◌∙◌, arith, Bool-cases, inl, inr,
}
use phantom_runtime_lite.Memory.History.{
  HistoryEvent, Observed, Violation, check_change, violations_from, verdict_of, consistent,
  inconsistent, unknown, check_observed, status_events, check_consistency, Verdict,
}

-- After the status, there is no other one.
abbrev pub absorbs : String → List Observed → Bool
absorbs s [] = true
absorbs s (e ∷ events) =
    (not (e.status == s) || all (λ f. f.status == s) events) && absorbs s events

no_violation : List Violation → Bool
no_violation [] = true
no_violation (v ∷ vs) = false

no_violation-append :
    (xs ys : List Violation) → no_violation (xs ++ ys) ≡ (no_violation xs && no_violation ys)
unfolding no_violation
no_violation-append [] ys = refl
no_violation-append (v ∷ xs) ys = refl

check_change-no_violation :
    (p : String) (e : Observed)
    → no_violation (check_change p e) ≡ (
        (not (p == "DONE") || e.status == "DONE")
        && (not (p == "CANCELLED") || e.status == "CANCELLED"))
unfolding check_change no_violation
check_change-no_violation p e = elim (Bool-cases (p == "DONE" && not (e.status == "DONE"))) [
  | inl first ↦ rw (first) (ground (arith, first))
  | inr past ↦ elim (Bool-cases (p == "CANCELLED" && not (e.status == "CANCELLED"))) [
    | inl second ↦ rw (past, second) (ground (arith, second))
    | inr done ↦ rw (past, done) (ground (arith, past, done))
  ]
]

-- One step of absorption, for two statuses.
absorbed :
    (p e all_e rest q f all_f rest' : Bool)
    → (((not p || e) && (not q || f))
        && (((not e || all_e) && rest) && ((not f || all_f) && rest')))
      ≡ (((not p || (e && all_e)) && ((not e || all_e) && rest))
          && ((not q || (f && all_f)) && ((not f || all_f) && rest')))
absorbed p e all_e rest q f all_f rest' = ground arith

-- From one status to the next, with all that follow.
violations_lem :
    (p : Observed) (events : List Observed)
    → no_violation (violations_from p.status events)
      ≡ (absorbs "DONE" (p ∷ events) && absorbs "CANCELLED" (p ∷ events))
unfolding violations_from no_violation
violations_lem p [] = ground arith
violations_lem p (e ∷ events) =
    no_violation-append (check_change p.status e) (violations_from e.status events)
    ∙ ap₂ (λ a b. a && b) (check_change-no_violation p.status e) (violations_lem e events)
    ∙ absorbed (p.status == "DONE") (e.status == "DONE") (all (λ f. f.status == "DONE") events)
        (absorbs "DONE" events) (p.status == "CANCELLED") (e.status == "CANCELLED")
        (all (λ f. f.status == "CANCELLED") events) (absorbs "CANCELLED" events)

-- The verdict, from the number of events with a status and whether nothing else comes after DONE and
-- after CANCELLED.
abbrev pub verdict_if : Bool → Bool → Verdict
verdict_if several settled =
    if not several then unknown else if settled then consistent else inconsistent

verdict_lem : (vs : List Violation) → verdict_of vs ≡ verdict_if true (no_violation vs)
unfolding no_violation
verdict_lem [] = refl
verdict_lem (v ∷ vs) = refl

check_observed_lem :
    (events : List Observed)
    → (check_observed events).consistency
      ≡ verdict_if (leb 2 (length events)) (absorbs "DONE" events && absorbs "CANCELLED" events)
unfolding check_observed
check_observed_lem [] = ground arith
check_observed_lem (e ∷ []) = ground arith
check_observed_lem (e ∷ f ∷ events) =
    verdict_lem (violations_from e.status (f ∷ events))
    ∙ ap (verdict_if true) (violations_lem e (f ∷ events))
    ∙ ap
        (λ b.
          verdict_if b (absorbs "DONE" (e ∷ f ∷ events) && absorbs "CANCELLED" (e ∷ f ∷ events)))
        (several (length events))
  where
    several : (n : ℕ) → true ≡ leb 2 (suc (suc n))
    several n = ground arith

-- A history with fewer than two statuses has an unknown verdict. Any other one is consistent exactly if
-- after a DONE every later status is DONE and after a CANCELLED every later one is CANCELLED, though the
-- code compares each status with the one before it only.
pub check_consistency_iff :
    (events : List HistoryEvent)
    → (check_consistency events).consistency
      ≡ verdict_if
          (leb 2 (length (status_events events)))
          (absorbs "DONE" (status_events events) && absorbs "CANCELLED" (status_events events))
unfolding check_consistency
check_consistency_iff events = check_observed_lem (status_events events)
