-- ===== src/Memory/Lifecycle.antt =====
-- src/phantom_runtime.py: `_subject_status`, `_subject_lifecycle`, `_subject_is_merged`,
-- `_subject_is_compressible` and `_subject_priority_score` of a bucket.
pub mod Compressible
use phantom_runtime_lite.Prelude.{
  ℕ, suc, ◌+◌, ◌*◌, String, Bool, true, false, not, ◌&&◌, ◌||◌, Option, none, some, List, [], ◌∷◌,
  ◌==◌, nat_eq, string_eq, length, ltb, any, if◌then◌else◌,
}
use phantom_runtime_lite.Memory.Records.{Entry, Subject}
use phantom_runtime_lite.Memory.Decisions.{Decision, decision_status}
use phantom_runtime_lite.Memory.Questions.{Question}
use phantom_runtime_lite.Memory.Links.{question_is_resolved}
use phantom_runtime_lite.Memory.Context.{Bucket}

pub data Stage : Type 0 where
  new_subject : Stage
  active : Stage
  resolved : Stage

pub data SubjectStatus : Type 0 where
  status_resolved : SubjectStatus
  status_open : SubjectStatus

-- `sum(1 for x in xs if p(x))`
unfoldable pub count_if : {A : Type 0} → (A → Bool) → List A → ℕ
count_if p [] = 0
count_if p (x ∷ xs) = let rest = count_if p xs in if p x then suc rest else rest

abbrev pub is_open : {A : Type 0} → Entry (Decision A) → Bool
is_open d = decision_status d.rest.status == "OPEN"

abbrev pub is_pending : {B : Type 0} → Entry (Question B) → Bool
is_pending q = not (question_is_resolved q.rest)

abbrev pub is_resolved : SubjectStatus → Bool
is_resolved status_resolved = true
is_resolved status_open = false

abbrev pub is_resolved_stage : Stage → Bool
is_resolved_stage resolved = true
is_resolved_stage _ = false

-- `bool(x)` of a text that may be missing
abbrev pub is_given : Option String → Bool
is_given none = false
is_given (some s) = not (s == "")

unfoldable pub subject_is_merged : Option Subject → Bool
subject_is_merged none = false
subject_is_merged (some s) = is_given s.merged_into || is_given s.merged_at

module _ {F A B : Type 0} where
  unfoldable pub open_decisions : Bucket F (Question B) (Decision A) → ℕ
  unfolding count_if decision_status
  open_decisions b = count_if is_open b.decisions

  unfoldable pub pending_questions : Bucket F (Question B) (Decision A) → ℕ
  unfolding count_if question_is_resolved
  pending_questions b = count_if is_pending b.questions

  unfoldable pub subject_status : Bucket F (Question B) (Decision A) → SubjectStatus
  unfolding open_decisions pending_questions
  subject_status b =
      if open_decisions b == 0 && pending_questions b == 0 then status_resolved else status_open

  unfoldable pub subject_lifecycle : Bucket F (Question B) (Decision A) → Stage
  unfolding subject_status
  subject_lifecycle b =
      if (length b.facts == 0 && length b.decisions == 0) && ltb 0 (length b.questions)
      then new_subject
      else if ltb 0 (open_decisions b) || ltb 0 (pending_questions b)
      then active
      else if is_resolved (subject_status b)
      then resolved
      else active

  unfoldable pub subject_is_compressible : Bucket F (Question B) (Decision A) → Bool
  unfolding subject_is_merged subject_lifecycle
  subject_is_compressible b =
      if subject_is_merged b.subject
      then true
      else if not (is_resolved (subject_status b))
      then false
      else if not (is_resolved_stage (subject_lifecycle b))
      then false
      else if any is_open b.decisions
      then false
      else if any is_pending b.questions
      then false
      else true

  -- `mention_count` is the registry's count for the subject, 0 if it has none.
  unfoldable pub subject_priority_score : ℕ → Bucket F (Question B) (Decision A) → ℕ
  unfolding open_decisions pending_questions
  subject_priority_score mention_count b =
      open_decisions b * 100 + pending_questions b * 10 + mention_count
