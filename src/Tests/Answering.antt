-- ===== src/Tests/Answering.antt =====
-- src/phantom_runtime.py: the answers of a subject and what is made of them.
use phantom_runtime_lite.Prelude.{
  leb, ◌==◌, nat_eq, ℕ, ◌+◌, String, Option, none, some, List, [], ◌∷◌, map, string_eq, ◌≡◌, refl,
}
use phantom_runtime_lite.Prelude.Dict.{lookup, insert}
use phantom_runtime_lite.Conversation.Text.{codes, Unicode}
use phantom_runtime_lite.Memory.Records.{Entry, Subject, Memory}
use phantom_runtime_lite.Memory.Registry.{resolve_merge}
use phantom_runtime_lite.Memory.Decisions.{Decision}
use phantom_runtime_lite.Memory.Questions.{AnswerLink, Question}
use phantom_runtime_lite.Memory.Lifecycle.{
  count_if, resolved, open_decisions, pending_questions, subject_lifecycle,
}
use phantom_runtime_lite.Memory.Answers.{Known, Acting, Wording}
use phantom_runtime_lite.Memory.Answers.Linked.{is_linked, is_unlinked}
use phantom_runtime_lite.Memory.Answers.Contexts.{
  Records, context_from_bucket, build_subject_answer_timeline,
}
use phantom_runtime_lite.Memory.Answers.Gathered.{open_question_count_lem}
use phantom_runtime_lite.Memory.Answers.Statuses.{collect_status_signals, status_priority}
use phantom_runtime_lite.Memory.Answers.Statuses.Best.{build_status_entry}
use phantom_runtime_lite.Memory.Answers.Advice.{recommendation_type, answer_question}
use phantom_runtime_lite.Memory.Answers.Advice.Recommended.{advice, recommendation_type_lem}

abbrev asked_at : String → String → Option String → Option AnswerLink → Entry (Question Wording)
asked_at i status answered_at link = record {
  subject_id = some "s1";
  rest = record {
    id = i;
    answer = none;
    status = status;
    status_history = [];
    resolved_by_fact = none;
    resolved_by_decision = none;
    answered_at = answered_at;
    updated_at = "t0";
    resolution_source = none;
    answer_link = link;
    history = [];
    rest = record { question = codes "when?"; timestamp = "t0" };
  };
}

abbrev from_fact : String → AnswerLink
from_fact at = record {
  source_type = "fact";
  source_id = some "f1";
  answer_text = none;
  linked_at = at;
}

abbrev answered_twice : List (Entry (Question Wording))
answered_twice =
    asked_at "q1" "ANSWERED" (some "t1") (some (from_fact "t1"))
    ∷ asked_at "q2" "ANSWERED" (some "t2") none
    ∷ asked_at "q3" "ANSWERED" (some "t3") (some (from_fact "t3"))
    ∷ []

abbrev known : Entry Known
known = record {
  subject_id = some "s1";
  rest = record { id = "f1"; value = some (codes "noon"); timestamp = "t1" };
}

abbrev subject_1 : Subject
subject_1 = record {
  id = "s1";
  canonical_name = codes "launch";
  merged_into = none;
  merged_at = none;
}

abbrev records_1 : Records
records_1 = record {
  subject = some subject_1;
  questions = answered_twice;
  decisions = [];
  facts = known ∷ [];
}

abbrev memory_1 : Memory Known (Question Wording) (Decision Acting)
memory_1 = record {
  facts = known ∷ [];
  questions = answered_twice;
  decisions = [];
  subjects = subject_1 ∷ [];
  history = [];
  approvals = [];
}

abbrev no_mentions : String → ℕ
no_mentions i = 0

abbrev name_1 : String
name_1 = "s1"

open_question_count_lem_example :
    ((context_from_bucket no_mentions name_1 records_1).answered_question_count
      ≡ count_if is_linked records_1.questions)
    × ((context_from_bucket no_mentions name_1 records_1).open_question_count
        ≡ pending_questions records_1 + count_if is_unlinked records_1.questions)
open_question_count_lem_example = open_question_count_lem no_mentions name_1 records_1

recommendation_type_lem_example :
    recommendation_type (context_from_bucket no_mentions name_1 records_1)
    ≡ advice
        (subject_lifecycle records_1)
        (open_decisions records_1)
        (count_if is_unlinked records_1.questions)
recommendation_type_lem_example = recommendation_type_lem no_mentions name_1 records_1

-- A resolved subject whose answered question has no link.
still_to_answer :
    recommendation_type (context_from_bucket no_mentions name_1 records_1) ≡ answer_question
unfolding recommendation_type context_from_bucket string_eq nat_eq
still_to_answer = refl

yet_resolved : subject_lifecycle records_1 ≡ resolved
unfolding subject_lifecycle string_eq nat_eq
yet_resolved = refl

-- The newest answer comes first.
newest_first :
    map (λ t. t.entry.question_id) (build_subject_answer_timeline no_mentions "s1" 5 memory_1)
    ≡ "q3" ∷ "q1" ∷ []
unfolding build_subject_answer_timeline string_eq nat_eq lookup insert resolve_merge
newest_first = refl

abbrev plain : Unicode
plain = record { is_space = λ c. c == 32; is_alpha = λ c. leb 65 c; lower = λ t. t }

abbrev stuck_facts : List (Entry Known)
stuck_facts =
    (record {
      subject_id = some "s1";
      rest = record { id = "f1"; value = some (codes "on hold"); timestamp = "t1" };
    })
    ∷ (record {
      subject_id = some "s1";
      rest = record { id = "f2"; value = some (codes "planned"); timestamp = "t1" };
    })
    ∷ []

-- The signal of higher priority decides.
blocked_status :
    (build_status_entry
      (context_from_bucket no_mentions name_1 records_1)
      (collect_status_signals plain stuck_facts [])).status
    ≡ "BLOCKED"
unfolding build_status_entry collect_status_signals status_priority string_eq nat_eq
blocked_status = refl
