-- ===== src/Memory/Links.antt =====
-- src/phantom_runtime.py: how a new fact closes decisions and questions: `_fact_resolve_links`,
-- `_question_resolve_links`, `_fact_create`, and the subjects it is filed under (`_subject_find`,
-- `_subject_create`, `_subject_get_or_create`). The pattern of `_subject_extract` is an argument, and a
-- confidence is given in ten thousandths, to which the code rounds it.
pub mod Loops
pub mod Waiting
pub mod Resolved
pub mod Open
pub mod Subjects
use phantom_runtime_lite.Prelude.{
  ℕ, String, Bool, not, ◌&&◌, ◌||◌, Option, none, some, List, [], ◌∷◌, ◌++◌, ◌==◌, contains,
  string_eq, option_eq, if◌then◌else◌,
}
use phantom_runtime_lite.Conversation.Text.{Text, codes, Unicode, text_eq, strip}
use phantom_runtime_lite.Memory.Records.{Subject}
use phantom_runtime_lite.Memory.Decisions.{Decision, decision_status, decision_mark_done}
use phantom_runtime_lite.Memory.Questions.{Question, mark_answered}

-- The fields of a decision and of a question that these functions read besides.
pub record Filed : Type 0 where
  pub subject_id : Option String

pub record Asked : Type 0 where
  pub subject_id : Option String
  pub expected_fact_types : List String

pub record Fact : Type 0 where
  pub id : String
  pub subject_id : String
  pub fact_type : String
  pub value : Text
  pub confidence : ℕ
  pub source : Text
  pub timestamp : String

abbrev pub decision_resolution_fact_types : List String
decision_resolution_fact_types = "status" ∷ []

abbrev pub question_resolution_fact_types : List String
question_resolution_fact_types = "status" ∷ "result" ∷ "schedule" ∷ "options" ∷ []

abbrev pub completion_values : List Text
completion_values =
    codes "完了"
    ∷ codes "done"
    ∷ codes "DONE"
    ∷ codes "completed"
    ∷ codes "実施済み"
    ∷ codes "対応済み"
    ∷ codes "finished"
    ∷ codes "resolved"
    ∷ []

-- The decisions that a fact of a subject closes.
unfoldable pub is_closed_by : String → Decision Filed → Bool
unfolding decision_status
is_closed_by subject d = d.rest.subject_id == some subject && decision_status d.status == "OPEN"

-- The loop over the loaded decisions, each of which is looked up again in the stored ones.
unfoldable pub close_decisions :
    String → String → String → List (Decision Filed) → List (Decision Filed) → List (Decision Filed)
unfolding is_closed_by decision_mark_done
close_decisions subject fact now [] stored = stored
close_decisions subject fact now (d ∷ loaded) stored =
    close_decisions subject fact now loaded
      (if is_closed_by subject d then (decision_mark_done d.id fact now stored).0 else stored)

unfoldable pub fact_resolve_links :
    String → String → String → Text → String → List (Decision Filed) → List (Decision Filed)
unfolding close_decisions
fact_resolve_links subject fact type value now stored =
    if subject == "" || fact == ""
    then stored
    else if not (contains decision_resolution_fact_types type)
    then stored
    else if not (contains completion_values value)
    then stored
    else close_decisions subject fact now stored stored

-- A stored question has a status, so the fallback for old records is not reached.
unfoldable pub question_is_resolved : {B : Type 0} → Question B → Bool
question_is_resolved q = q.status == "ANSWERED"

unfoldable pub question_fact_type_matches : List String → String → Bool
question_fact_type_matches [] type = contains question_resolution_fact_types type
question_fact_type_matches (t ∷ ts) type = contains (t ∷ ts) type

unfoldable pub is_answered_by : String → String → Question Asked → Bool
unfolding question_is_resolved question_fact_type_matches
is_answered_by subject type q =
    (q.rest.subject_id == some subject && not (question_is_resolved q))
    && question_fact_type_matches q.rest.expected_fact_types type

unfoldable pub answer_questions :
    String
    → String
    → String
    → Text
    → String
    → List (Question Asked)
    → List (Question Asked)
    → List (Question Asked)
unfolding is_answered_by mark_answered
answer_questions subject fact type value now [] stored = stored
answer_questions subject fact type value now (q ∷ loaded) stored =
    answer_questions subject fact type value now loaded (
      if is_answered_by subject type q
      then (mark_answered q.id fact value now stored).0
      else stored)

unfoldable pub question_resolve_links :
    String → String → String → Text → String → List (Question Asked) → List (Question Asked)
unfolding answer_questions
question_resolve_links subject fact type value now stored =
    if subject == "" || fact == ""
    then stored
    else answer_questions subject fact type value now stored stored

-- `_subject_find` past its guard, for the stripped name.
unfoldable pub find_named : Text → List Subject → Option Subject
find_named name [] = none
find_named name (s ∷ subjects) =
    let later = find_named name subjects in if s.canonical_name == name then some s else later

unfoldable pub subject_find : Unicode → Text → List Subject → Option Subject
unfolding find_named
subject_find u name subjects =
    if strip u name == [] then none else find_named (strip u name) subjects

-- `_subject_create`: the new id is an argument.
unfoldable pub subject_create : Unicode → String → Text → List Subject → String × List Subject
subject_create u new_id name subjects = if strip u name == [] then ("", subjects) else (
  new_id,
  subjects
      ++ ((record {
        id = new_id;
        canonical_name = strip u name;
        merged_into = none;
        merged_at = none;
      })
          ∷ []),
)

unfoldable pub create_unless :
    Unicode → String → Text → List Subject → Option Subject → String × List Subject
unfolding subject_create
create_unless u new_id name subjects (some existing) = (existing.id, subjects)
create_unless u new_id name subjects none = subject_create u new_id name subjects

unfoldable pub subject_get_or_create :
    Unicode → String → Text → List Subject → String × List Subject
unfolding create_unless subject_find
subject_get_or_create u new_id name subjects =
    if strip u name == []
    then ("", subjects)
    else create_unless u new_id name subjects (subject_find u name subjects)

-- The memory files that a new fact touches.
pub record Files : Type 0 where
  pub facts : List Fact
  pub decisions : List (Decision Filed)
  pub questions : List (Question Asked)
  pub subjects : List Subject

-- The ids and times that the call draws.
pub record Drawn : Type 0 where
  pub fact_id : String
  pub subject_id : String
  pub now : String

unfoldable pub subject_from : Unicode → String → Option Text → List Subject → String × List Subject
unfolding subject_get_or_create
subject_from u new_id none subjects = ("", subjects)
subject_from u new_id (some name) subjects = subject_get_or_create u new_id name subjects

-- The subject given, or the one that the value names.
unfoldable pub subject_of :
    Unicode → (Text → Option Text) → String → String → Text → List Subject → String × List Subject
unfolding subject_from
subject_of u extract new_id subject value subjects =
    if subject == "" then subject_from u new_id (extract value) subjects else (subject, subjects)

-- A fact with a subject is stored, then it closes decisions and answers questions.
unfoldable pub store_fact : Drawn → Fact → Files → String × Files
unfolding fact_resolve_links question_resolve_links
store_fact drawn f files = (
  f.id,
  record files {
    facts = files.facts ++ (f ∷ []);
    decisions = fact_resolve_links f.subject_id f.id f.fact_type f.value drawn.now files.decisions;
    questions =
        question_resolve_links f.subject_id f.id f.fact_type f.value drawn.now files.questions;
  },
)

unfoldable pub fact_create :
    Unicode
    → (Text → Option Text)
    → Drawn
    → String
    → String
    → Text
    → ℕ
    → Text
    → Files
    → String × Files
unfolding subject_of store_fact
fact_create u extract drawn subject type value confidence source files =
    let (owner, subjects) = subject_of u extract drawn.subject_id subject value files.subjects in
    let files' = record files { subjects = subjects } in
    if owner == "" || type == ""
    then ("", files')
    else store_fact drawn
        (record {
          id = drawn.fact_id;
          subject_id = owner;
          fact_type = type;
          value = value;
          confidence = confidence;
          source = source;
          timestamp = drawn.now;
        })
        files'
