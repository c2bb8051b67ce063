-- ===== src/Memory/Answers.antt =====
-- src/phantom_runtime.py: the answers of a subject: `_a26_make_answer_entry` and the sorting of its
-- entries. A confidence, which is 1.0 in the links modelled, is left out.
pub mod Ordered
pub mod Linked
pub mod Contexts
pub mod Gathered
pub mod Counted
pub mod Timeline
pub mod Advice
pub mod Overview
pub mod Statuses
use phantom_runtime_lite.Prelude.{
  ltb, nat_eq, String, Bool, true, false, not, ◌&&◌, ◌||◌, Option, none, some, List, [], ◌∷◌, ◌++◌,
  ◌==◌, contains, string_eq, if◌then◌else◌,
}
use phantom_runtime_lite.Conversation.Text.{Text, codes}
use phantom_runtime_lite.Memory.Records.{Entry}
use phantom_runtime_lite.Memory.Decisions.{Decision}
use phantom_runtime_lite.Memory.Questions.{AnswerLink, Question, question_valid_statuses}
use phantom_runtime_lite.Memory.Context.{or_empty}

-- What the answers read of a fact, a decision and a question.
pub record Known : Type 0 where
  pub id : String
  pub value : Option Text
  pub timestamp : String

pub record Acting : Type 0 where
  pub action : Option Text
  pub timestamp : String

pub record Wording : Type 0 where
  pub question : Text
  pub timestamp : String

pub record AnswerEntry : Type 0 where
  pub question_id : String
  pub question_text : Text
  pub status : String
  pub source_type : Option String
  pub source_id : Option String
  pub answer_text : Option Text
  pub linked_at : Option String
  pub source_value : Option Text
  pub asked_at : String
  pub answered_at : Option String

-- Python's `<` of texts, as lists of code points
unfoldable pub text_before : Text → Text → Bool
text_before s [] = false
text_before [] (d ∷ t) = true
text_before (c ∷ s) (d ∷ t) = let later = text_before s t in ltb c d || (c == d && later)

unfoldable pub string_before : String → String → Bool
unfolding text_before
string_before a b = text_before (codes a) (codes b)

unfoldable pub question_status : {B : Type 0} → Question B → String
question_status q = if contains question_valid_statuses q.status then q.status else "OPEN"

unfoldable pub value_of : String → List (Entry Known) → Option Text
value_of i [] = none
value_of i (f ∷ facts) =
    let later = value_of i facts in if f.rest.id == i then f.rest.value else later

unfoldable pub action_of : String → List (Entry (Decision Acting)) → Option Text
action_of i [] = none
action_of i (d ∷ decisions) =
    let later = action_of i decisions in if d.rest.id == i then d.rest.rest.action else later

-- `source_id` is the empty text if it is missing.
unfoldable pub resolve_source_value :
    String → String → List (Entry Known) → List (Entry (Decision Acting)) → Option Text
unfolding value_of action_of
resolve_source_value type i facts decisions =
    if type == "fact" && not (i == "")
    then value_of i facts
    else if type == "decision" && not (i == "")
    then action_of i decisions
    else none

abbrev pub unanswered_entry : Question Wording → AnswerEntry
unanswered_entry q = record {
  question_id = q.id;
  question_text = q.rest.question;
  status = "OPEN";
  source_type = none;
  source_id = none;
  answer_text = none;
  linked_at = none;
  source_value = none;
  asked_at = q.rest.timestamp;
  answered_at = none;
}

module _ (facts : List (Entry Known)) (decisions : List (Entry (Decision Acting))) where
  unfoldable pub answered_entry : AnswerLink → Question Wording → AnswerEntry
  unfolding resolve_source_value
  answered_entry link q = record {
    question_id = q.id;
    question_text = q.rest.question;
    status = "ANSWERED";
    source_type = some link.source_type;
    source_id = link.source_id;
    answer_text = link.answer_text;
    linked_at = some link.linked_at;
    source_value = resolve_source_value link.source_type (or_empty link.source_id) facts decisions;
    asked_at = q.rest.timestamp;
    answered_at = q.answered_at;
  }

  unfoldable pub linked_entry : Option AnswerLink → Question Wording → AnswerEntry
  unfolding answered_entry question_status
  linked_entry none q = unanswered_entry q
  linked_entry (some link) q =
      if question_status q == "OPEN" then unanswered_entry q else answered_entry link q

  unfoldable pub make_answer_entry : Entry (Question Wording) → AnswerEntry
  unfolding linked_entry
  make_answer_entry q = linked_entry q.rest.answer_link q.rest

-- `sort(key, reverse=True)`, where entries of equal keys keep their order.
module _ {A : Type 0} (precedes : A → A → Bool) where
  unfoldable pub put_sorted : A → List A → List A
  put_sorted x [] = x ∷ []
  put_sorted x (y ∷ ys) =
      let later = put_sorted x ys in if precedes x y then y ∷ later else x ∷ y ∷ ys

  unfoldable pub sort_reverse : List A → List A
  unfolding put_sorted
  sort_reverse [] = []
  sort_reverse (x ∷ xs) = put_sorted x (sort_reverse xs)

unfoldable pub keep_if : {A : Type 0} → (A → Bool) → List A → List A
keep_if p [] = []
keep_if p (x ∷ xs) = let rest = keep_if p xs in if p x then x ∷ rest else rest

abbrev pub has_status : String → AnswerEntry → Bool
has_status s e = e.status == s

abbrev pub asked_before : AnswerEntry → AnswerEntry → Bool
asked_before a b = string_before a.asked_at b.asked_at

abbrev pub linked_before : AnswerEntry → AnswerEntry → Bool
linked_before a b = string_before (or_empty a.linked_at) (or_empty b.linked_at)

unfoldable pub sort_answer_entries : List AnswerEntry → List AnswerEntry
unfolding sort_reverse keep_if string_before
sort_answer_entries entries =
    sort_reverse asked_before (keep_if (has_status "OPEN") entries)
    ++ sort_reverse linked_before (keep_if (has_status "ANSWERED") entries)
