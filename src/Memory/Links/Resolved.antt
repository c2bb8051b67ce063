-- ===== src/Memory/Links/Resolved.antt =====
-- What a new fact of src/phantom_runtime.py does to the decisions and questions of its subject.
use phantom_runtime_lite.Prelude.{
  ℕ, String, Bool, false, ◌&&◌, Option, some, List, [], ◌∷◌, ◌++◌, ◌==◌, contains, string_eq,
  option_eq, All, if◌then◌else◌, ◌≡◌, refl, ap, ap₂, ◌∙◌, Bool-cases, inl, inr,
}
use mathlib.Core.Path.{fun_ext}
use phantom_runtime_lite.Conversation.Text.{Text, Unicode, text_eq}
use phantom_runtime_lite.Memory.Decisions.{Decision, done_by, mark_first_done, decision_mark_done}
use phantom_runtime_lite.Memory.Questions.{
  Question, AnswerLink, or_none, question_can_transition, answered, with_fact, answer_by_fact,
  on_question, mark_answered,
}
use phantom_runtime_lite.Memory.Links.{
  Filed, Asked, Fact, decision_resolution_fact_types, completion_values, is_closed_by,
  close_decisions, fact_resolve_links, is_answered_by, answer_questions, question_resolve_links,
  Files, Drawn, subject_of, store_fact, fact_create,
}
use phantom_runtime_lite.Memory.Links.Waiting.{
  is_open_for, awaits, is_closed_by-is_open_for, is_answered_by-awaits,
}
use phantom_runtime_lite.Memory.Links.Loops.{
  Distinct, replace_first, replace_each, revise, replace_each-revise,
}

abbrev pub HasId : {B : Type 0} → (B → String) → List B → Type 0
HasId id_of = All (λ x. (id_of x == "") ≡ false)

abbrev pub decision_id : Decision Filed → String
decision_id d = d.id

abbrev pub question_id : Question Asked → String
question_id q = q.id

-- What `_question_mark_answered` makes of its question.
abbrev pub answered_by_fact : String → Text → String → Question Asked → Question Asked
answered_by_fact fact text now q =
    let link : AnswerLink = record {
      source_type = "fact";
      source_id = some fact;
      answer_text = or_none text;
      linked_at = now;
    } in
    with_fact fact now
      (if question_can_transition q.status "ANSWERED" then answered "fact" link now q else q)

answered_id :
    (fact : String) (text : Text) (now : String) (q : Question Asked)
    → (answered_by_fact fact text now q).id ≡ q.id
answered_id fact text now q = elim (Bool-cases (question_can_transition q.status "ANSWERED")) [
  | inl may ↦ rw (may) refl
  | inr cannot ↦ rw (cannot) refl
]

module _ (subject fact now : String) where
  first_done :
      (i : String) (stored : List (Decision Filed))
      → (mark_first_done i fact now stored).0
        ≡ replace_first decision_id i (done_by fact now) stored
  unfolding mark_first_done
  first_done i [] = refl
  first_done i (d ∷ stored) = elim (Bool-cases (d.id == i)) [
    | inl hit ↦ rw (hit) refl
    | inr miss ↦ rw (miss) (ap (λ l. d ∷ l) (first_done i stored))
  ]

  done-first :
      (i : String) (stored : List (Decision Filed))
      → (i == "") ≡ false
      → (fact == "") ≡ false
      → (decision_mark_done i fact now stored).0
        ≡ replace_first decision_id i (done_by fact now) stored
  unfolding decision_mark_done
  done-first i stored named made = rw (named, made) (first_done i stored)

  closed-each :
      (loaded stored : List (Decision Filed))
      → HasId decision_id loaded
      → (fact == "") ≡ false
      → close_decisions subject fact now loaded stored
        ≡ replace_each decision_id (is_closed_by subject) (done_by fact now) loaded stored
  unfolding close_decisions
  closed-each [] stored named made = refl
  closed-each (d ∷ loaded) stored (here, named) made =
      ap
        (λ s.
          close_decisions subject fact now loaded (if is_closed_by subject d then s else stored))
        (done-first d.id stored here made)
      ∙ closed-each loaded
          (if is_closed_by subject d
            then replace_first decision_id d.id (done_by fact now) stored
            else stored)
          named made

  module _ (text : Text) where
    first_answered :
        (i : String) (stored : List (Question Asked))
        → (on_question i (answer_by_fact fact text now) stored).0
          ≡ replace_first question_id i (answered_by_fact fact text now) stored
    unfolding on_question answer_by_fact
    first_answered i [] = refl
    first_answered i (q ∷ stored) = elim (Bool-cases (q.id == i)) [
      | inl hit ↦ rw (hit) refl
      | inr miss ↦ rw (miss) (ap (λ l. q ∷ l) (first_answered i stored))
    ]

    answered-first :
        (i : String) (stored : List (Question Asked))
        → (i == "") ≡ false
        → (fact == "") ≡ false
        → (mark_answered i fact text now stored).0
          ≡ replace_first question_id i (answered_by_fact fact text now) stored
    unfolding mark_answered
    answered-first i stored named made = rw (named, made) (first_answered i stored)

    answered-each :
        (type : String) (loaded stored : List (Question Asked))
        → HasId question_id loaded
        → (fact == "") ≡ false
        → answer_questions subject fact type text now loaded stored
          ≡ replace_each question_id
              (is_answered_by subject type)
              (answered_by_fact fact text now)
              loaded
              stored
    unfolding answer_questions
    answered-each type [] stored named made = refl
    answered-each type (q ∷ loaded) stored (here, named) made =
        ap
          (λ s.
            answer_questions subject fact type text now loaded
              (if is_answered_by subject type q then s else stored))
          (answered-first q.id stored here made)
        ∙ answered-each type loaded
            (if is_answered_by subject type q
              then replace_first question_id q.id (answered_by_fact fact text now) stored
              else stored)
            named made

-- A fact that reports completion.
abbrev pub completes : String → Text → Bool
completes type value =
    contains decision_resolution_fact_types type && contains completion_values value

closed_lem :
    (subject fact type : String) (value : Text) (now : String) (stored : List (Decision Filed))
    → (subject == "") ≡ false
    → (fact == "") ≡ false
    → HasId decision_id stored
    → Distinct decision_id stored
    → fact_resolve_links subject fact type value now stored ≡ (
        if completes type value
        then revise decision_id (is_closed_by subject) (done_by fact now) stored
        else stored)
unfolding fact_resolve_links
closed_lem subject fact type value now stored owned made named distinct =
    elim (Bool-cases (contains decision_resolution_fact_types type)) [
      | inr other ↦ rw (owned, made, other) refl
      | inl status ↦ elim (Bool-cases (contains completion_values value)) [
        | inr unfinished ↦ rw (owned, made, status, unfinished) refl
        | inl finished ↦
            rw (owned, made, status, finished)
              (closed-each subject fact now stored stored named made
                ∙ replace_each-revise decision_id (is_closed_by subject) (done_by fact now) stored
                    (λ d. refl) distinct)
      ]
    ]

answered_lem :
    (subject fact type : String) (value : Text) (now : String) (stored : List (Question Asked))
    → (subject == "") ≡ false
    → (fact == "") ≡ false
    → HasId question_id stored
    → Distinct question_id stored
    → question_resolve_links subject fact type value now stored
      ≡ revise question_id (is_answered_by subject type) (answered_by_fact fact value now) stored
unfolding question_resolve_links
answered_lem subject fact type value now stored owned made named distinct =
    rw (owned, made)
      (answered-each subject fact now value type stored stored named made
        ∙ replace_each-revise question_id (is_answered_by subject type)
            (answered_by_fact fact value now) stored (answered_id fact value now) distinct)

-- Every record has an id, and no two have the same.
abbrev pub AreNamed : Files → Type 0
AreNamed files =
    (HasId decision_id files.decisions × Distinct decision_id files.decisions)
    × (HasId question_id files.questions × Distinct question_id files.questions)

abbrev pub new_fact : Drawn → String → String → Text → ℕ → Text → Fact
new_fact drawn subject type value confidence source = record {
  id = drawn.fact_id;
  subject_id = subject;
  fact_type = type;
  value = value;
  confidence = confidence;
  source = source;
  timestamp = drawn.now;
}

stored_fact :
    (u : Unicode) (extract : Text → Option Text) (drawn : Drawn) (subject type : String)
    (value : Text) (confidence : ℕ) (source : Text) (files : Files)
    → (subject == "") ≡ false
    → (type == "") ≡ false
    → fact_create u extract drawn subject type value confidence source files
      ≡ store_fact drawn (new_fact drawn subject type value confidence source) files
unfolding fact_create subject_of
stored_fact u extract drawn subject type value confidence source files owned typed =
    rw (owned, owned, typed) refl

-- A fact with a subject and a type is appended to the facts; it closes exactly the open decisions of
-- its subject if it reports completion, and none otherwise, and answers exactly the open questions of
-- its subject whose expected types it meets, each once and all others left as they are. Ids are not
-- empty and stand once.
pub fact_create_lem :
    (u : Unicode) (extract : Text → Option Text) (drawn : Drawn) (subject type : String)
    (value : Text) (confidence : ℕ) (source : Text) (files : Files)
    → (subject == "") ≡ false
    → (type == "") ≡ false
    → (drawn.fact_id == "") ≡ false
    → AreNamed files
    → fact_create u extract drawn subject type value confidence source files ≡ (
      drawn.fact_id,
      record files {
        facts = files.facts ++ (new_fact drawn subject type value confidence source ∷ []);
        decisions =
            if completes type value
            then revise decision_id
                (is_open_for subject)
                (done_by drawn.fact_id drawn.now)
                files.decisions
            else files.decisions;
        questions =
            revise question_id
              (awaits subject type)
              (answered_by_fact drawn.fact_id value drawn.now)
              files.questions;
      },
    )
unfolding store_fact
fact_create_lem u extract drawn subject type value confidence source files owned typed made
      ((dn, dd), (qn, qd)) =
    let f = new_fact drawn subject type value confidence source in
    stored_fact u extract drawn subject type value confidence source files owned typed
    ∙ ap₂
        (λ ds qs. (
          drawn.fact_id,
          record files { facts = files.facts ++ (f ∷ []); decisions = ds; questions = qs },
        ))
        (closed_lem subject drawn.fact_id type value drawn.now files.decisions owned made dn dd
          ∙ ap
              (λ p.
                if completes type value
                then revise decision_id p (done_by drawn.fact_id drawn.now) files.decisions
                else files.decisions)
              (fun_ext (is_closed_by-is_open_for subject)))
        (answered_lem subject drawn.fact_id type value drawn.now files.questions owned made qn qd
          ∙ ap
              (λ p.
                revise question_id p (answered_by_fact drawn.fact_id value drawn.now)
                  files.questions)
              (fun_ext (is_answered_by-awaits subject type)))
