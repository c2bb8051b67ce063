-- ===== src/Tests/Filing.antt =====
-- src/phantom_runtime.py: facts with their decisions and questions, buckets and old records.
use phantom_runtime_lite.Prelude.{
  ℕ, String, true, false, Option, none, some, ◌&&◌, [], ◌∷◌, ◌==◌, nat_eq, string_eq, contains, leb,
  All, if◌then◌else◌, ◌≡◌, refl,
}
use phantom_runtime_lite.Prelude.Dict.{lookup}
use phantom_runtime_lite.Conversation.Text.{Text, codes, Unicode, text_eq}
use phantom_runtime_lite.Memory.Records.{Entry, Subject, Memory}
use phantom_runtime_lite.Memory.Decisions.{Decision, done_by}
use phantom_runtime_lite.Memory.Questions.{Question, question_valid_statuses}
use phantom_runtime_lite.Memory.Links.{Filed, Asked, Files, Drawn, fact_create}
use phantom_runtime_lite.Memory.Links.Waiting.{is_open_for, awaits}
use phantom_runtime_lite.Memory.Links.Loops.{revise}
use phantom_runtime_lite.Memory.Links.Resolved.{
  AreNamed, decision_id, question_id, answered_by_fact, completes, new_fact, fact_create_lem,
}
use phantom_runtime_lite.Memory.Links.Open.{fact_create-closes}
use phantom_runtime_lite.Memory.Context.{build_subject_context}
use phantom_runtime_lite.Memory.Context.Filing.{field_of, under, build_subject_context-under}
use phantom_runtime_lite.Memory.Migration.{Stored, question_load}
use phantom_runtime_lite.Memory.Migration.Migrated.{question_load_idem}

abbrev ascii : Unicode
ascii = record { is_space = λ c. c == 32; is_alpha = λ c. leb 65 c; lower = λ t. t }

abbrev no_subject : Text → Option Text
no_subject value = none

abbrev open_for : String → String → Decision Filed
open_for i subject = record {
  id = i;
  decision = codes "ship";
  status = some "OPEN";
  status_history = [];
  resolved_by_fact = none;
  history = [];
  rest = record { subject_id = some subject };
}

abbrev asked_for : String → String → Question Asked
asked_for i subject = record {
  id = i;
  answer = none;
  status = "OPEN";
  status_history = [];
  resolved_by_fact = none;
  resolved_by_decision = none;
  answered_at = none;
  updated_at = "t0";
  resolution_source = none;
  answer_link = none;
  history = [];
  rest = record { subject_id = some subject; expected_fact_types = "status" ∷ [] };
}

abbrev two_subjects : Files
two_subjects = record {
  facts = [];
  decisions = open_for "d1" "s1" ∷ open_for "d2" "s2" ∷ [];
  questions = asked_for "q1" "s1" ∷ asked_for "q2" "s2" ∷ [];
  subjects = [];
}

abbrev drawn_now : Drawn
drawn_now = record { fact_id = "f1"; subject_id = "s9"; now = "t1" }

abbrev subject_1 : String
subject_1 = "s1"

abbrev status_type : String
status_type = "status"

subject_given : (subject_1 == "") ≡ false
unfolding string_eq
subject_given = refl

type_given : (status_type == "") ≡ false
unfolding string_eq
type_given = refl

id_drawn : (drawn_now.fact_id == "") ≡ false
unfolding string_eq
id_drawn = refl

files_named : AreNamed two_subjects
unfolding string_eq
files_named = (((refl, (refl, tt)), (refl, (refl, tt))), ((refl, (refl, tt)), (refl, (refl, tt))))

statuses_known : All (λ q. contains question_valid_statuses q.status ≡ true) two_subjects.questions
unfolding string_eq
statuses_known = (refl, (refl, tt))

fact_create_lem_example :
    fact_create ascii no_subject drawn_now subject_1 status_type
      (codes "done")
      10000
      []
      two_subjects
    ≡ (
      "f1",
      record two_subjects {
        facts = new_fact drawn_now subject_1 status_type (codes "done") 10000 [] ∷ [];
        decisions =
            if completes status_type (codes "done")
            then revise decision_id
                (is_open_for subject_1)
                (done_by "f1" "t1")
                two_subjects.decisions
            else two_subjects.decisions;
        questions =
            revise question_id
              (awaits subject_1 status_type)
              (answered_by_fact "f1" (codes "done") "t1")
              two_subjects.questions;
      },
    )
fact_create_lem_example =
    fact_create_lem ascii no_subject drawn_now subject_1 status_type (codes "done") 10000 []
      two_subjects subject_given type_given id_drawn files_named

fact_create-closes_example :
    All
      (λ d. (completes status_type (codes "done") && is_open_for subject_1 d) ≡ false)
      (fact_create ascii no_subject drawn_now subject_1 status_type
        (codes "done")
        10000
        []
        two_subjects).1.decisions
    × All
        (λ q. awaits subject_1 status_type q ≡ false)
        (fact_create ascii no_subject drawn_now subject_1 status_type
          (codes "done")
          10000
          []
          two_subjects).1.questions
fact_create-closes_example =
    fact_create-closes ascii no_subject drawn_now subject_1 status_type (codes "done") 10000 []
      two_subjects subject_given type_given id_drawn files_named statuses_known

abbrev alone : String → Option String → Subject
alone i target = record { id = i; canonical_name = codes i; merged_into = target; merged_at = none }

abbrev of_subject : String → ℕ → Entry ℕ
of_subject subject n = record { subject_id = some subject; rest = n }

abbrev merged_memory : Memory ℕ ℕ ℕ
merged_memory = record {
  facts = of_subject "a" 1 ∷ of_subject "b" 2 ∷ [];
  questions = of_subject "b" 3 ∷ (record { subject_id = none; rest = 4 }) ∷ [];
  decisions = [];
  subjects = alone "a" (some "b") ∷ alone "b" none ∷ [];
  history = [];
  approvals = [];
}

abbrev key_b : String
key_b = "b"

build_subject_context-under_example :
    (field_of (λ b. b.questions) (lookup key_b (build_subject_context merged_memory))
      ≡ under merged_memory.subjects key_b merged_memory.questions)
    × ((field_of (λ b. b.decisions) (lookup key_b (build_subject_context merged_memory))
          ≡ under merged_memory.subjects key_b merged_memory.decisions)
        × (field_of (λ b. b.facts) (lookup key_b (build_subject_context merged_memory))
            ≡ under merged_memory.subjects key_b merged_memory.facts))
build_subject_context-under_example = build_subject_context-under merged_memory key_b

abbrev old_question : Stored ℕ
old_question = record {
  cluster = none;
  status = none;
  status_history = [];
  answered_at = none;
  updated_at = none;
  resolution_source = none;
  answer_link = none;
  resolved_by_fact = some "f1";
  resolved_by_decision = none;
  answer = none;
  schema_version = some "1.3";
  rest = 7;
}

question_load_idem_example :
    question_load ascii "t2" (question_load ascii "t1" (old_question ∷ [])).0
    ≡ ((question_load ascii "t1" (old_question ∷ [])).0, false)
question_load_idem_example = question_load_idem ascii "t1" "t2" (old_question ∷ [])
