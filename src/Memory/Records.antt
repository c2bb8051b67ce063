-- ===== src/Memory/Records.antt =====
-- src/phantom_runtime.py: the records of the memory files and their moves from subject to subject.
-- The files are lists in a state; reading and writing them does not fail here.
use phantom_runtime_lite.Prelude.{
  ℕ, suc, String, ◌||◌, Option, some, List, [], ◌∷◌, ◌==◌, string_eq, option_eq, if◌then◌else◌,
}
use phantom_runtime_lite.Conversation.Text.{Text}

-- A fact, question or decision: the subject it belongs to, and the fields a merge leaves alone.
pub record Entry (B : Type 0) : Type 0 where
  pub subject_id : Option String
  pub rest : B

-- Of the registry's fields, those that a merge reads or writes.
pub record Subject : Type 0 where
  pub id : String
  pub canonical_name : Text
  pub merged_into : Option String
  pub merged_at : Option String

pub data Recommendation : Type 0 where
  approve review ignore : Recommendation

pub record MergeRecord : Type 0 where
  pub id : String
  pub source_subject_id : String
  pub source_name : Text
  pub target_subject_id : String
  pub target_name : Text
  pub confidence : ℕ
  pub recommendation : Recommendation
  pub merged_at : String

pub data Status : Type 0 where
  pending running approved failed : Status

pub record Approval : Type 0 where
  pub id : String
  pub source_subject_id : String
  pub source_name : Text
  pub target_subject_id : String
  pub target_name : Text
  pub confidence : ℕ
  pub recommendation : Recommendation
  pub status : Status
  pub created_at : String
  pub approved_at : String

pub record Memory (F Q D : Type 0) : Type 0 where
  pub facts : List (Entry F)
  pub questions : List (Entry Q)
  pub decisions : List (Entry D)
  pub subjects : List Subject
  pub history : List MergeRecord
  pub approvals : List Approval

module _ {B : Type 0} (source target : String) where
  -- The loop of `_fact_migrate_subject`, `_question_migrate_subject`, `_decision_migrate_subject`.
  unfoldable pub reassign : List (Entry B) → List (Entry B) × ℕ
  reassign [] = ([], 0)
  reassign (e ∷ es) =
      let tail = reassign es in
      if e.subject_id == some source
      then (record { subject_id = some target; rest = e.rest } ∷ tail.0, suc (tail.1))
      else (e ∷ tail.0, tail.1)

  unfoldable pub migrate_subject : List (Entry B) → List (Entry B) × ℕ
  unfolding reassign
  migrate_subject es = if source == "" || target == "" then (es, 0) else reassign es
