-- ===== src/Memory/Links/Open.antt =====
-- What stays open after a new fact of src/phantom_runtime.py.
use phantom_runtime_lite.Prelude.{
  ℕ, String, Bool, true, false, not, ◌&&◌, ◌||◌, Option, some, List, [], ◌∷◌, ◌==◌, contains,
  if◌then◌else◌, string_eq, option_eq, ==_refl, All, ◌≡◌, refl, sym, ap, arith, Bool-cases, inl,
  inr,
}
use mathlib.Core.Path.{subst}
use phantom_runtime_lite.Conversation.Text.{Text, Unicode}
use phantom_runtime_lite.Memory.Decisions.{Decision, done_by}
use phantom_runtime_lite.Memory.Questions.{
  Question, question_can_transition, question_valid_statuses,
}
use phantom_runtime_lite.Memory.Links.{Filed, Asked, Files, Drawn, fact_create}
use phantom_runtime_lite.Memory.Links.Waiting.{is_open_for, expects, awaits}
use phantom_runtime_lite.Memory.Links.Loops.{revise}
use phantom_runtime_lite.Memory.Links.Resolved.{
  decision_id, question_id, answered_by_fact, completes, AreNamed, fact_create_lem,
}

module _ {A : Type 0} (id_of : A → String) (p : A → Bool) (f : A → A) where
  -- After one pass that turns each record off none is left.
  revise-none :
      (xs : List A)
      → All (λ x. p x ≡ true → p (f x) ≡ false) xs
      → All (λ x. p x ≡ false) (revise id_of p f xs)
  revise-none [] off = tt
  revise-none (x ∷ xs) (here, off) = elim (Bool-cases (p x)) [
    | inl hit ↦ rw (hit) (here hit, revise-none xs off)
    | inr miss ↦ rw (miss) (miss, revise-none xs off)
  ]

done_closed :
    (subject fact now : String) (d : Decision Filed)
    → is_open_for subject (done_by fact now d) ≡ false
unfolding string_eq
done_closed subject fact now d = elim (Bool-cases (d.rest.subject_id == some subject)) [
  | inl same ↦ rw (same) refl
  | inr other ↦ rw (other) refl
]

answered_valid : contains question_valid_statuses "ANSWERED" ≡ true
unfolding string_eq
answered_valid = refl

may_change :
    (o e n : Bool)
    → (o || (e || false)) ≡ true
    → e ≡ false
    → n ≡ true
    → (e || (((o || (e || false)) && not e) && n)) ≡ true
may_change o e n h1 h2 h3 = ground arith

no_longer : (x e m : Bool) → e ≡ true → ((x && not e) && m) ≡ false
no_longer x e m h = ground arith

open_status :
    (s : String)
    → contains question_valid_statuses s ≡ true
    → (s == "ANSWERED") ≡ false
    → question_can_transition s "ANSWERED" ≡ true
unfolding question_can_transition
open_status s valid waits =
    may_change (s == "OPEN") (s == "ANSWERED") (contains question_valid_statuses "ANSWERED") valid
      waits answered_valid

answered_closed :
    (subject fact type : String) (value : Text) (now : String) (q : Question Asked)
    → contains question_valid_statuses q.status ≡ true
    → awaits subject type q ≡ true
    → awaits subject type (answered_by_fact fact value now q) ≡ false
answered_closed subject fact type value now q valid hit =
    let waits : (q.status == "ANSWERED") ≡ false = (ground arith) in
    let done : String = "ANSWERED" in
    rw (open_status q.status valid waits) (
      no_longer (q.rest.subject_id == some subject) (done == done)
        (expects q.rest.expected_fact_types type) (==_refl done))

closing_each :
    (subject fact now : String) (ds : List (Decision Filed))
    → All (λ d. is_open_for subject d ≡ true → is_open_for subject (done_by fact now d) ≡ false) ds
closing_each subject fact now [] = tt
closing_each subject fact now (d ∷ ds) =
    ((λ hit. done_closed subject fact now d), closing_each subject fact now ds)

answering_each :
    (subject fact type : String) (value : Text) (now : String) (qs : List (Question Asked))
    → All (λ q. contains question_valid_statuses q.status ≡ true) qs
    → All
        (λ q.
          awaits subject type q ≡ true
          → awaits subject type (answered_by_fact fact value now q) ≡ false)
        qs
answering_each subject fact type value now [] valid = tt
answering_each subject fact type value now (q ∷ qs) (here, valid) = (
  answered_closed subject fact type value now q here,
  answering_each subject fact type value now qs valid,
)

all_unless :
    (b : Bool) (p : Decision Filed → Bool) (before after : List (Decision Filed))
    → All (λ d. p d ≡ false) after
    → All (λ d. (b && p d) ≡ false) (if b then after else before)
all_unless true p before after h = h
all_unless false p before after h = whatever before
  where
    whatever : (ds : List (Decision Filed)) → All (λ d. (false && p d) ≡ false) ds
    whatever [] = tt
    whatever (d ∷ ds) = (refl, whatever ds)

-- After a fact that reports completion no decision of its subject is open, and after any fact no
-- question of its subject that expects its type waits for an answer. A decision without a known status
-- counts as open. Ids are not empty and stand once, and the statuses of the questions are valid.
pub fact_create-closes :
    (u : Unicode) (extract : Text → Option Text) (drawn : Drawn) (subject type : String)
    (value : Text) (confidence : ℕ) (source : Text) (files : Files)
    → (subject == "") ≡ false
    → (type == "") ≡ false
    → (drawn.fact_id == "") ≡ false
    → AreNamed files
    → All (λ q. contains question_valid_statuses q.status ≡ true) files.questions
    → All
        (λ d. (completes type value && is_open_for subject d) ≡ false)
        (fact_create u extract drawn subject type value confidence source files).1.decisions
      × All
          (λ q. awaits subject type q ≡ false)
          (fact_create u extract drawn subject type value confidence source files).1.questions
fact_create-closes u extract drawn subject type value confidence source files owned typed made named
      valid =
    let result =
      fact_create_lem u extract drawn subject type value confidence source files owned typed made
        named in
    let fact = drawn.fact_id in
    (
      subst (λ ds. All (λ d. (completes type value && is_open_for subject d) ≡ false) ds)
          (sym (ap (λ r. r.1.decisions) result))
          (all_unless (completes type value) (is_open_for subject) files.decisions _ (
            revise-none decision_id (is_open_for subject) (done_by fact drawn.now) files.decisions
              (closing_each subject fact drawn.now files.decisions))),
      subst (λ qs. All (λ q. awaits subject type q ≡ false) qs)
          (sym (ap (λ r. r.1.questions) result))
          (revise-none question_id (awaits subject type) (answered_by_fact fact value drawn.now)
            files.questions
            (answering_each subject fact type value drawn.now files.questions valid)),
    )
