-- ===== src/Memory/Questions.antt =====
-- src/phantom_runtime.py: the statuses of questions: `_question_can_transition`, the three functions
-- `_question_mark_answered...` and `memory_add_question`, whose subject is looked up before and whose
-- cluster is assigned after. The trigger of a history item, which names the function, is left out. A stored question has the fields that loading gives to old records.
pub mod Answers
pub mod Recent
use phantom_runtime_lite.Prelude.{
  ℕ, String, Bool, true, false, not, ◌&&◌, ◌||◌, Option, none, some, List, [], ◌∷◌, ◌++◌, ◌==◌,
  contains, string_eq, if◌then◌else◌,
}
use phantom_runtime_lite.Conversation.Text.{Text, Unicode, text_eq, strip}
use phantom_runtime_lite.Memory.Decisions.{StatusChange, last_entries}

-- `_question_build_answer_link` with confidence 1.0.
pub record AnswerLink : Type 0 where
  pub source_type : String
  pub source_id : Option String
  pub answer_text : Option Text
  pub linked_at : String

-- An item of a question's `history`: the fact that resolves it.
pub record FactLink : Type 0 where
  pub new_value : String
  pub at : String

-- The fields that the functions read or write, and the others.
pub record Question (B : Type 0) : Type 0 where
  pub id : String
  pub answer : Option Text
  pub status : String
  pub status_history : List StatusChange
  pub resolved_by_fact : Option String
  pub resolved_by_decision : Option String
  pub answered_at : Option String
  pub updated_at : String
  pub resolution_source : Option String
  pub answer_link : Option AnswerLink
  pub history : List FactLink
  pub rest : B

abbrev pub question_valid_statuses : List String
question_valid_statuses = "OPEN" ∷ "ANSWERED" ∷ []

-- ANSWERED is the one terminal status.
unfoldable pub question_can_transition : String → String → Bool
question_can_transition current new =
    current == new
    || (contains question_valid_statuses current
        && not (current == "ANSWERED")
        && contains question_valid_statuses new)

-- `answer_text or None`
abbrev pub or_none : Text → Option Text
or_none [] = none
or_none (c ∷ t) = some (c ∷ t)

-- The answer without the space around it; `none` where it is absent or blank.
abbrev pub direct_answer : Unicode → Option Text → Option Text
direct_answer u none = none
direct_answer u (some text) = or_none (strip u text)

module _ {B : Type 0} where
  -- The status fields after an answer from a source.
  abbrev pub answered : String → AnswerLink → String → Question B → Question B
  answered source link now q =
      let change : StatusChange = record {
        source = some q.status;
        target = "ANSWERED";
        at = now;
      } in
      record q {
        status = "ANSWERED";
        answered_at = some now;
        updated_at = now;
        resolution_source = some source;
        answer_link = some link;
        status_history = q.status_history ++ (change ∷ []);
      }

  abbrev pub with_fact : String → String → Question B → Question B
  with_fact fact now q = record q {
    resolved_by_fact = some fact;
    history = q.history ++ ((record { new_value = fact; at = now }) ∷ []);
  }

  -- What a function does with a question of the id: `none` goes on to the next one.
  unfoldable pub answer_by_fact : String → Text → String → Question B → Option (Question B × Bool)
  unfolding question_can_transition
  answer_by_fact fact text now q =
      let link : AnswerLink = (record {
        source_type = "fact";
        source_id = some fact;
        answer_text = or_none text;
        linked_at = now;
      }) in
      some (
        with_fact fact now
            (if question_can_transition q.status "ANSWERED" then answered "fact" link now q else q),
        true,
      )

  unfoldable pub answer_by_decision : String → String → Question B → Option (Question B × Bool)
  unfolding question_can_transition
  answer_by_decision decision now q =
      let link : AnswerLink = (record {
        source_type = "decision";
        source_id = some decision;
        answer_text = none;
        linked_at = now;
      }) in
      if q.status == "ANSWERED"
      then some (q, true)
      else if question_can_transition q.status "ANSWERED"
      then some
          (record (answered "decision" link now q) { resolved_by_decision = some decision }, true)
      else none

  abbrev pub answer_with : Option Text → String → Question B → Option (Question B × Bool)
  answer_with none now q = some (q, false)
  answer_with (some text) now q =
      let link : AnswerLink = (record {
        source_type = "direct";
        source_id = none;
        answer_text = some text;
        linked_at = now;
      }) in
      if q.status == "ANSWERED"
      then some (q, true)
      else if question_can_transition q.status "ANSWERED"
      then some (answered "answer" link now q, true)
      else none

  abbrev pub pick :
      Option (Question B × Bool)
      → Question B
      → List (Question B)
      → List (Question B) × Bool
      → List (Question B) × Bool
  pick none q entries tail = (q ∷ tail.0, tail.1)
  pick (some (r, done)) q entries tail = (r ∷ entries, done)

  -- The loop over the entries that the three functions share.
  unfoldable pub on_question :
      String
      → (Question B → Option (Question B × Bool))
      → List (Question B)
      → List (Question B) × Bool
  on_question i f [] = ([], false)
  on_question i f (q ∷ entries) =
      let tail = on_question i f entries in
      if q.id == i then pick (f q) q entries tail else (q ∷ tail.0, tail.1)

  unfoldable pub mark_answered :
      String → String → Text → String → List (Question B) → List (Question B) × Bool
  unfolding on_question answer_by_fact
  mark_answered i fact text now entries =
      if i == "" || fact == ""
      then (entries, false)
      else on_question i (answer_by_fact fact text now) entries

  unfoldable pub mark_answered_by_decision :
      String → String → String → List (Question B) → List (Question B) × Bool
  unfolding on_question answer_by_decision
  mark_answered_by_decision i decision now entries =
      if i == "" || decision == ""
      then (entries, false)
      else on_question i (answer_by_decision decision now) entries

  unfoldable pub mark_answered_by_answer :
      Unicode → String → String → List (Question B) → List (Question B) × Bool
  unfolding on_question question_can_transition
  mark_answered_by_answer u i now entries =
      if i == ""
      then (entries, false)
      else on_question i (λ q. answer_with (direct_answer u q.answer) now q) entries

  abbrev pub created_with : Bool → String → String → Text → B → Question B
  created_with has_answer i now answer rest =
      let status = if has_answer then "ANSWERED" else "OPEN" in
      record {
        id = i;
        answer = some answer;
        status = status;
        status_history = (record { source = none; target = status; at = now }) ∷ [];
        resolved_by_fact = none;
        resolved_by_decision = none;
        answered_at = if has_answer then some now else none;
        updated_at = now;
        resolution_source = if has_answer then some "answer" else none;
        answer_link = none;
        history = [];
        rest = rest;
      }

  unfoldable pub add_question :
      Unicode → String → String → Text → B → List (Question B) → List (Question B)
  unfolding last_entries
  add_question u i now answer rest entries =
      last_entries 100
        (entries ++ (created_with (not (strip u answer == [])) i now answer rest ∷ []))
