-- ===== src/Memory/Merge.antt =====
-- src/phantom_runtime.py: `_subject_merge_execute`, `_merge_history_append` and
-- `_subject_merge_transaction`. What the clock and the id generator answer are arguments.
pub mod Moves
use phantom_runtime_lite.Prelude.{
  ℕ, String, Bool, true, false, ◌&&◌, ◌||◌, Option, none, some, List, [], ◌∷◌, ◌++◌, ◌==◌,
  string_eq, if◌then◌else◌,
}
use phantom_runtime_lite.Conversation.Text.{Text, Unicode}
use phantom_runtime_lite.Memory.Records.{Entry, Subject, MergeRecord, Memory, migrate_subject}
use phantom_runtime_lite.Memory.Names.{merge_confidence, merge_recommendation}
use phantom_runtime_lite.Memory.Registry.{MergeError, entry_of, merge_validate, name_or_id}

-- The first entry with the id is marked; the flag says whether there was one.
unfoldable pub mark_merged : String → String → String → List Subject → List Subject × Bool
mark_merged source target now [] = ([], false)
mark_merged source target now (s ∷ subjects) =
    let tail = mark_merged source target now subjects in
    if s.id == source
    then (record s { merged_into = some target; merged_at = some now } ∷ subjects, true)
    else (s ∷ tail.0, tail.1)

unfoldable pub merge_execute : String → String → String → List Subject → List Subject × Bool
unfolding mark_merged
merge_execute source target now subjects =
    if source == "" || target == ""
    then (subjects, false)
    else mark_merged source target now subjects

-- `_name_map.get(id, id)`
abbrev pub name_of : List Subject → String → Text
name_of subjects i = name_or_id (entry_of subjects i) i

pub record TransactionResult : Type 0 where
  pub success : Bool
  pub migrated_facts : ℕ
  pub migrated_questions : ℕ
  pub migrated_decisions : ℕ
  pub validation_errors : List MergeError
  pub history_id : Option String

abbrev pub none_left : List MergeError → Bool
none_left [] = true
none_left (x ∷ xs) = false

unfoldable pub history_append :
    Unicode → String → String → String → String → List Subject → List MergeRecord → List MergeRecord
unfolding merge_confidence merge_recommendation entry_of
history_append u now new_id source target subjects records =
    let source_name = name_of subjects source in
    let target_name = name_of subjects target in
    records
    ++ (record {
      id = new_id;
      source_subject_id = source;
      source_name = source_name;
      target_subject_id = target;
      target_name = target_name;
      confidence = merge_confidence u source_name target_name;
      recommendation = merge_recommendation u source_name target_name;
      merged_at = now;
    }
        ∷ [])

module _ {F Q D : Type 0} (u : Unicode) (now new_id source target : String) where
  -- The five steps in the code's order, and the audit record.
  unfoldable pub merge_transaction : Memory F Q D → Memory F Q D × TransactionResult
  unfolding migrate_subject merge_execute merge_validate history_append
  merge_transaction m =
      let facts : List (Entry F) × ℕ = (migrate_subject source target m.facts) in
      let questions : List (Entry Q) × ℕ = (migrate_subject source target m.questions) in
      let decisions : List (Entry D) × ℕ = (migrate_subject source target m.decisions) in
      let merged : List Subject × Bool = (merge_execute source target now m.subjects) in
      let errors = merge_validate (merged.0) in
      let success = merged.1 && none_left errors in
      let history = history_append u now new_id source target m.subjects m.history in
      (
        record m {
          facts = facts.0;
          questions = questions.0;
          decisions = decisions.0;
          subjects = merged.0;
          history = if success then history else m.history;
        },
        record {
          success = success;
          migrated_facts = facts.1;
          migrated_questions = questions.1;
          migrated_decisions = decisions.1;
          validation_errors = errors;
          history_id = if success then some new_id else none;
        },
      )
