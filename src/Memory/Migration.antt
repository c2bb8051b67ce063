-- ===== src/Memory/Migration.antt =====
-- src/phantom_runtime.py: `_question_load`, which brings old question records up to date, and
-- `_question_migrate_answer_link`. A key that an old record may lack is an option, whose value may
-- be an option again. The trigger of a history item is left out, and so are the ids that loading gives to
-- records without one, and entries that are no records.
pub mod Migrated
use phantom_runtime_lite.Prelude.{
  ℕ, String, Bool, true, false, not, ◌||◌, Option, none, some, List, [], ◌∷◌, ◌==◌, string_eq,
  if◌then◌else◌,
}
use phantom_runtime_lite.Conversation.Text.{Text, Unicode, text_eq, strip}
use phantom_runtime_lite.Memory.Registry.{truthy}
use phantom_runtime_lite.Memory.Decisions.{StatusChange}
use phantom_runtime_lite.Memory.Questions.{AnswerLink}

pub record Cluster : Type 0 where
  pub cluster_id : Option String
  pub canonical_key : Option String
  pub language : String
  pub normalized_question : Text
  pub similarity_score : Option ℕ

pub record Stored (B : Type 0) : Type 0 where
  pub cluster : Option Cluster
  pub status : Option String
  pub status_history : List StatusChange
  pub answered_at : Option String
  pub updated_at : Option String
  pub resolution_source : Option String
  pub answer_link : Option (Option AnswerLink)
  pub resolved_by_fact : Option String
  pub resolved_by_decision : Option String
  pub answer : Option Text
  pub schema_version : Option String
  pub rest : B

abbrev pub new_cluster : Cluster
new_cluster = record {
  cluster_id = none;
  canonical_key = none;
  language = "unknown";
  normalized_question = [];
  similarity_score = none;
}

abbrev pub is_present : {A : Type 0} → Option A → Bool
is_present none = false
is_present (some a) = true

-- `a or b` of texts that may be missing
abbrev pub or_else : Option String → Option String → Option String
or_else (some a) other = some a
or_else none other = other

abbrev pub or_now : Option String → String → String
or_now (some at) now = at
or_now none now = now

abbrev pub is_answer : Unicode → Option Text → Bool
is_answer u none = false
is_answer u (some text) = not (strip u text == [])

abbrev pub or_blank : Option Text → Text
or_blank none = []
or_blank (some text) = text

module _ {B : Type 0} where
  unfoldable pub migrate_cluster : Stored B → Stored B × Bool
  migrate_cluster e =
      if is_present e.cluster then (e, false) else (record e { cluster = some new_cluster }, true)

  -- How the question was resolved, if it was.
  unfoldable pub source_of : Unicode → Stored B → Option String
  unfolding truthy
  source_of u e =
      if is_present (truthy e.resolved_by_fact)
      then some "fact"
      else if is_present (truthy e.resolved_by_decision)
      then some "decision"
      else if is_answer u e.answer
      then some "answer"
      else none

  unfoldable pub with_status : String → Option String → Stored B → Stored B
  with_status now source e =
      let initial = if is_present source then "ANSWERED" else "OPEN" in
      record e {
        status = some initial;
        status_history = (record { source = none; target = initial; at = now }) ∷ [];
        answered_at = none;
        updated_at = some now;
        resolution_source = source;
        schema_version = some "1.4";
      }

  unfoldable pub migrate_status : Unicode → String → Stored B → Stored B × Bool
  unfolding with_status source_of
  migrate_status u now e =
      if is_present e.status then (e, false) else (with_status now (source_of u e) e, true)

  -- `_question_migrate_answer_link`
  unfoldable pub link_from : Option String → String → Stored B → Option AnswerLink
  unfolding truthy
  link_from none now e = none
  link_from (some source) now e =
      let at = or_now (or_else (truthy e.answered_at) (truthy e.updated_at)) now in
      if source == "fact"
      then some (record {
        source_type = "fact";
        source_id = e.resolved_by_fact;
        answer_text = none;
        linked_at = at;
      })
      else if source == "decision"
      then some (record {
        source_type = "decision";
        source_id = e.resolved_by_decision;
        answer_text = none;
        linked_at = at;
      })
      else if source == "answer"
      then some (record {
        source_type = "direct";
        source_id = none;
        answer_text = some (or_blank e.answer);
        linked_at = at;
      })
      else none

  unfoldable pub migrate_answer_link : String → Stored B → Stored B × Bool
  unfolding link_from
  migrate_answer_link now e = if is_present e.answer_link then (e, false) else (
    record e {
      answer_link = some (link_from e.resolution_source now e);
      schema_version = some "1.5";
    },
    true,
  )

  -- The body of the loop of `_question_load`: the entry, and whether it changed.
  unfoldable pub migrate_question : Unicode → String → Stored B → Stored B × Bool
  unfolding migrate_cluster migrate_status migrate_answer_link
  migrate_question u now e =
      let (e1, changed1) = migrate_cluster e in
      let (e2, changed2) = migrate_status u now e1 in
      let (e3, changed3) = migrate_answer_link now e2 in (e3, changed1 || (changed2 || changed3))

  -- The entries, and whether they are saved.
  unfoldable pub question_load : Unicode → String → List (Stored B) → List (Stored B) × Bool
  unfolding migrate_question
  question_load u now [] = ([], false)
  question_load u now (e ∷ entries) =
      let (e', changed) = migrate_question u now e in
      let (rest, more) = question_load u now entries in (e' ∷ rest, changed || more)
