-- ===== src/Verification/Sessions.antt =====
-- Several sessions through one VerificationRuntime of src/verification/verification_runtime.py.
use phantom_runtime_lite.Prelude.{
  String, true, false, Option, List, [], ◌∷◌, ◌≡◌, ◌≢◌, inl, inr, refl, sym, ap₂, ◌∙◌, arith, ℤ,
  ◌==◌, string_eq, option_eq, if◌then◌else◌, Bool-cases,
}
use phantom_runtime_lite.Value.{Timestamp, Python}
use phantom_runtime_lite.Verification.Data.{
  Event, GapReason, VerificationResult, Result, ok, type_error, LastSeen,
}
use phantom_runtime_lite.Verification.Checks.{newest, last_of, timestamp_reasons, parse_timestamp}
use phantom_runtime_lite.Verification.Handle.{settle, check_ordering, finish, handle}
use phantom_runtime_lite.Verification.Ordering.{last_of-insert, finish-seen, handle-last_of}

-- A mixed stream of events with the clock readings at which they are handled; each result with
-- the session of its event.
unfoldable pub handle_all :
    Python → LastSeen → List (Timestamp × Event) → List (Option String × Result VerificationResult)
handle_all py seen [] = []
handle_all py seen ((now, e) ∷ es) =
    let (r, seen') = handle py now seen e in (e.session_id, r) ∷ handle_all py seen' es

-- The events of one session, and the results of one session.
unfoldable pub session_events : Option String → List (Timestamp × Event) → List (Timestamp × Event)
session_events s [] = []
session_events s ((now, e) ∷ es) =
    let rest = session_events s es in if s == e.session_id then (now, e) ∷ rest else rest

unfoldable pub session_results :
    Option String
    → List (Option String × Result VerificationResult)
    → List (Result VerificationResult)
session_results s [] = []
session_results s ((t, r) ∷ rs) =
    let rest = session_results s rs in if s == t then r ∷ rest else rest

settle-cong :
    (a b : LastSeen) (e : Event) (t : Option Timestamp) (last : Option ℤ × Option Timestamp)
    (r : Result (List GapReason))
    → last_of a e.session_id ≡ last_of b e.session_id
    → ((settle a e t last r).0 ≡ (settle b e t last r).0)
      × (last_of (settle a e t last r).1 e.session_id
          ≡ last_of (settle b e t last r).1 e.session_id)
unfolding settle
settle-cong a b e t last type_error h = (refl, h)
settle-cong a b e t last (ok rs) h =
    let v : Option ℤ × Option Timestamp = (newest e.sequence last.0, newest t last.1) in
    (
      refl,
      ground (
        arith,
        last_of-insert e.session_id e.session_id v a,
        last_of-insert e.session_id e.session_id v b,
      ),
    )

finish-cong :
    (py : Python) (now : Timestamp) (e : Event) (o p : Result (List GapReason) × LastSeen)
    → o.0 ≡ p.0
    → (finish py now e o).0 ≡ (finish py now e p).0
unfolding finish
finish-cong py now e (ok a, s) (ok b, t) h = ground arith
finish-cong py now e (ok a, s) (type_error, t) h = cc
finish-cong py now e (type_error, s) (ok b, t) h = cc
finish-cong py now e (type_error, s) (type_error, t) h = refl

module _ (py : Python) (now : Timestamp) (a b : LastSeen) (e : Event) where
  check_ordering-cong :
      last_of a e.session_id ≡ last_of b e.session_id
      → ((check_ordering py a e).0 ≡ (check_ordering py b e).0)
        × (last_of (check_ordering py a e).1 e.session_id
            ≡ last_of (check_ordering py b e).1 e.session_id)
  unfolding check_ordering
  check_ordering-cong h = rw h (
      settle-cong a b e (parse_timestamp py e.timestamp) (last_of b e.session_id)
        (timestamp_reasons _ _) h)

  handle-cong :
      (s : Option String)
      → s ≡ e.session_id
      → last_of a s ≡ last_of b s
      → ((handle py now a e).0 ≡ (handle py now b e).0)
        × (last_of (handle py now a e).1 s ≡ last_of (handle py now b e).1 s)
  unfolding handle
  handle-cong s q h =
      let c = check_ordering-cong (rw (← q) h) in
      (
        finish-cong py now e (check_ordering py a e) (check_ordering py b e) c.0,
        rw
            (
              q,
              finish-seen py now e (check_ordering py a e),
              finish-seen py now e (check_ordering py b e),
            )
            c.1,
      )

session_results-cons_self :
    (s t : Option String) (r : Result VerificationResult)
    (rs : List (Option String × Result VerificationResult))
    → (s == t) ≡ true
    → session_results s ((t, r) ∷ rs) ≡ r ∷ session_results s rs
unfolding session_results
session_results-cons_self s t r rs h = rw h

session_results-cons_ne :
    (s t : Option String) (r : Result VerificationResult)
    (rs : List (Option String × Result VerificationResult))
    → (s == t) ≡ false
    → session_results s ((t, r) ∷ rs) ≡ session_results s rs
unfolding session_results
session_results-cons_ne s t r rs h = rw h

eq_of_test : (s t : Option String) → (s == t) ≡ true → s ≡ t
eq_of_test s t h = ground arith

ne_of_test : (s t : Option String) → (s == t) ≡ false → s ≢ t
ne_of_test s t h = ground arith

-- What one session is told in a mixed stream is what it is told when its events come alone: the
-- results of session `s` are those of its own events, from any two states that agree on `s`.
pub session_results_of_mixed :
    (py : Python) (s : Option String) (es : List (Timestamp × Event)) (a b : LastSeen)
    → last_of a s ≡ last_of b s
    → session_results s (handle_all py a es)
      ≡ session_results s (handle_all py b (session_events s es))
unfolding handle_all session_events
session_results_of_mixed py s [] a b h = refl
session_results_of_mixed py s ((now, e) ∷ es) a b h = elim (Bool-cases (s == e.session_id)) [
  | inl same ↦
      let c = handle-cong py now a b e s (eq_of_test s e.session_id same) h in
      rw same (
        session_results-cons_self s e.session_id _ _ same
        ∙ (ap₂ ◌∷◌ c.0 (session_results_of_mixed py s es _ _ c.1)
            ∙ sym (session_results-cons_self s e.session_id _ _ same)))
  | inr other ↦ rw other (
      session_results-cons_ne s e.session_id _ _ other
      ∙ session_results_of_mixed py s es _ b
          (handle-last_of py now a e s (ne_of_test s e.session_id other) ∙ h))
]
