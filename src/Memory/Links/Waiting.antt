-- ===== src/Memory/Links/Waiting.antt =====
-- Which decisions and questions of src/phantom_runtime.py wait for a fact, said of their fields.
use mathlib.Core.Path.{subst}
use phantom_runtime_lite.Prelude.{
  String, Bool, true, false, not, ◌&&◌, ◌||◌, Option, none, some, List, [], ◌∷◌, ◌==◌, ==_refl,
  contains, string_eq, option_eq, if◌then◌else◌, ◌≡◌, refl, sym, ap, arith,
}
use phantom_runtime_lite.Memory.Decisions.{Decision, decision_status}
use phantom_runtime_lite.Memory.Questions.{Question}
use phantom_runtime_lite.Memory.Links.{
  Filed, Asked, is_closed_by, question_is_resolved, question_fact_type_matches, is_answered_by,
}

-- A decision without a status counts as open, and so does one whose status is unknown.
abbrev pub counts_as_open : Option String → Bool
counts_as_open none = true
counts_as_open (some s) = not (contains ("IN_PROGRESS" ∷ "BLOCKED" ∷ "DONE" ∷ "CANCELLED" ∷ []) s)

-- An open decision of the subject.
abbrev pub is_open_for : String → Decision Filed → Bool
is_open_for subject d = d.rest.subject_id == some subject && counts_as_open d.status

-- Which fact types a question expects: those it names, or else the usual ones.
abbrev pub expects : List String → String → Bool
expects [] type = contains ("status" ∷ "result" ∷ "schedule" ∷ "options" ∷ []) type
expects (t ∷ ts) type = contains (t ∷ ts) type

-- A question of the subject that has no answer yet and expects a fact of the type.
abbrev pub awaits : String → String → Question Asked → Bool
awaits subject type q =
    (q.rest.subject_id == some subject && not (q.status == "ANSWERED"))
    && expects q.rest.expected_fact_types type

open_known :
    (s : String)
    → (s == "OPEN") ≡ true
    → contains ("IN_PROGRESS" ∷ "BLOCKED" ∷ "DONE" ∷ "CANCELLED" ∷ []) s ≡ false
unfolding string_eq
open_known s h =
    let same : s ≡ "OPEN" = (ground (arith, h)) in
    subst (λ z. contains ("IN_PROGRESS" ∷ "BLOCKED" ∷ "DONE" ∷ "CANCELLED" ∷ []) z ≡ false)
      (sym same) refl

open_if :
    (o others : Bool) (s : String)
    → (s == "OPEN") ≡ o
    → (o ≡ true → others ≡ false)
    → ((if o || others then s else "OPEN") == "OPEN") ≡ not others
open_if true true s h k = absurd (cc (k refl))
open_if true false s h k = h
open_if false true s h k = h
open_if false false s h k = ==_refl {A = String} "OPEN"

status-open : (o : Option String) → (decision_status o == "OPEN") ≡ counts_as_open o
unfolding decision_status
status-open none = ground (arith, ==_refl {A = String} "OPEN")
status-open (some s) =
    open_if (s == "OPEN") (contains ("IN_PROGRESS" ∷ "BLOCKED" ∷ "DONE" ∷ "CANCELLED" ∷ []) s) s
      refl (open_known s)

pub is_closed_by-is_open_for :
    (subject : String) (d : Decision Filed) → is_closed_by subject d ≡ is_open_for subject d
unfolding is_closed_by
is_closed_by-is_open_for subject d =
    ap (λ b. d.rest.subject_id == some subject && b) (status-open d.status)

matches-expects :
    (ts : List String) (type : String) → question_fact_type_matches ts type ≡ expects ts type
unfolding question_fact_type_matches
matches-expects [] type = refl
matches-expects (t ∷ ts) type = refl

pub is_answered_by-awaits :
    (subject type : String) (q : Question Asked)
    → is_answered_by subject type q ≡ awaits subject type q
unfolding is_answered_by question_is_resolved
is_answered_by-awaits subject type q =
    ap (λ b. (q.rest.subject_id == some subject && not (q.status == "ANSWERED")) && b)
      (matches-expects q.rest.expected_fact_types type)
