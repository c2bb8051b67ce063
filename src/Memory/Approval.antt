-- ===== src/Memory/Approval.antt =====
-- src/phantom_runtime.py: the approval queue of merges and the automatic merge. The transaction does
-- not raise here, so the branch for an exception is left out.
pub mod Lifecycle
pub mod Queue
pub mod Auto
use phantom_runtime_lite.Prelude.{
  ℕ, suc, String, Bool, true, false, not, ◌&&◌, ◌||◌, Option, none, some, List, [], ◌∷◌, ◌++◌, ◌==◌,
  leb, length, contains, string_eq, if◌then◌else◌,
}
use phantom_runtime_lite.Conversation.Text.{Text, Unicode, text_eq}
use phantom_runtime_lite.Memory.Records.{
  Subject, Recommendation, Approval, Status, pending, running, approved, failed, Memory,
}
use phantom_runtime_lite.Memory.Names.{MergePlan, merge_plan, merge_candidates}
use phantom_runtime_lite.Memory.Registry.{resolve_merge}
use phantom_runtime_lite.Memory.Merge.{merge_transaction, TransactionResult}

abbrev pub is_pending : Status → Bool
is_pending pending = true
is_pending _ = false

unfoldable pub is_same_request : String → String → Approval → Bool
is_same_request source target r =
    r.source_subject_id == source && r.target_subject_id == target && is_pending r.status

-- The first pending record for the pair.
unfoldable pub open_request : String → String → List Approval → Option Approval
unfolding is_same_request
open_request source target [] = none
open_request source target (r ∷ records) =
    let later = open_request source target records in
    if is_same_request source target r then some r else later

-- `next((r for r in records if r["id"] == id), None)`
unfoldable pub find_approval : String → List Approval → Option Approval
find_approval i [] = none
find_approval i (r ∷ records) =
    let later = find_approval i records in if r.id == i then some r else later

abbrev pub appended : List Approval → Approval → Option Approval → List Approval × String
appended records new (some r) = (records, r.id)
appended records new none = (records ++ (new ∷ []), new.id)

unfoldable pub approval_create :
    String
    → String
    → String
    → Text
    → String
    → Text
    → ℕ
    → Recommendation
    → List Approval
    → List Approval × String
unfolding open_request
approval_create now new_id source source_name target target_name confidence recommendation records =
    appended records
      record {
        id = new_id;
        source_subject_id = source;
        source_name = source_name;
        target_subject_id = target;
        target_name = target_name;
        confidence = confidence;
        recommendation = recommendation;
        status = pending;
        created_at = now;
        approved_at = "";
      }
      (open_request source target records)

-- The record with a new status; `approved_at` is written with the approval.
abbrev pub with_status : Status → String → Approval → Approval
with_status approved now r = record r { status = approved; approved_at = now }
with_status s now r = record r { status = s }

-- The first record with the id.
unfoldable pub set_status : String → Status → String → List Approval → List Approval
set_status i s now [] = []
set_status i s now (r ∷ records) =
    let later = set_status i s now records in
    if r.id == i then with_status s now r ∷ records else r ∷ later

abbrev pub outcome_of : Bool → Status
outcome_of true = approved
outcome_of false = failed

-- What the clock answers before and after the transaction, and the id of the audit record.
pub record Stamps : Type 0 where
  pub now : String
  pub later : String
  pub history_id : String

module _ {F Q D : Type 0} (u : Unicode) (stamps : Stamps) where
  -- PENDING to RUNNING, the transaction, then RUNNING to APPROVED or FAILED.
  unfoldable pub run_approval :
      String → Approval → Memory F Q D → Memory F Q D × Option TransactionResult
  unfolding set_status merge_transaction
  run_approval i a m =
      let started : Memory F Q D = (record m {
        approvals = set_status i running stamps.now m.approvals;
      }) in
      let done : Memory F Q D × TransactionResult =
        (merge_transaction u stamps.now stamps.history_id a.source_subject_id a.target_subject_id
          started) in
      (
        record (done.0) {
          approvals = set_status i (outcome_of (done.1.success)) stamps.later (done.0.approvals);
        },
        some (done.1),
      )

  -- `none` is the answer for an approval that is unknown or not pending.
  abbrev pub run_if_pending :
      String → Option Approval → Memory F Q D → Memory F Q D × Option TransactionResult
  run_if_pending i none m = (m, none)
  run_if_pending i (some a) m = if is_pending a.status then run_approval i a m else (m, none)

  unfoldable pub approval_execute : String → Memory F Q D → Memory F Q D × Option TransactionResult
  unfolding find_approval run_approval
  approval_execute i m = run_if_pending i (find_approval i m.approvals) m

-- `name_to_id.get(name)`: the map keeps the later of two subjects with a name.
unfoldable pub id_of : List Subject → Text → Option String
id_of [] name = none
id_of (s ∷ subjects) name = elim (id_of subjects name) [
  | some i ↦ some i
  | none ↦
      if not (s.id == "") && not (s.canonical_name == []) && name == s.canonical_name
      then some s.id
      else none
]

pub record AutoMerge : Type 0 where
  pub enabled : Bool
  pub detected : ℕ
  pub eligible : ℕ
  pub executed : ℕ
  pub failures : ℕ

abbrev pub threshold : ℕ
threshold = 95

unfoldable pub eligible_of : List MergePlan → List MergePlan
eligible_of [] = []
eligible_of (p ∷ plan) =
    let eligible = eligible_of plan in if leb threshold p.confidence then p ∷ eligible else eligible

abbrev pub counted : Option TransactionResult → AutoMerge → AutoMerge
counted none a = record a { failures = suc a.failures }
counted (some r) a =
    if r.success
    then record a { executed = suc a.executed }
    else record a { failures = suc a.failures }

-- AUTO_MERGE_EXECUTE_APPROVED is `execute`. Each plan has an id for its approval and its stamps.
module _ {F Q D : Type 0} (u : Unicode) (ids : ℕ → String) (stamps : ℕ → Stamps)
    (execute : Bool) where
  unfoldable pub merge_eligible :
      ℕ → MergePlan → String → String → Memory F Q D × AutoMerge → Memory F Q D × AutoMerge
  unfolding approval_create approval_execute
  merge_eligible n p source target (m, a) =
      let created : List Approval × String =
        (approval_create (stamps n).now (ids n) source p.source target p.target p.confidence
          p.recommendation m.approvals) in
      let queued : Memory F Q D = (record m { approvals = created.0 }) in
      let done : Memory F Q D × Option TransactionResult =
        (approval_execute u (stamps n) (created.1) queued) in
      if execute then (done.0, counted (done.1) a) else (queued, a)

  -- One round of the loop: both names must have an id, and the source must not be merged yet. The
  -- names are those of the registry before the loop.
  abbrev pub merge_planned :
      ℕ
      → MergePlan
      → Option String
      → Option String
      → Memory F Q D × AutoMerge
      → Memory F Q D × AutoMerge
  merge_planned n p (some source) (some target) (m, a) =
      if resolve_merge m.subjects source == source
      then merge_eligible n p source target (m, a)
      else (m, a)
  merge_planned n p _ _ (m, a) = (m, a)

  unfoldable pub merge_all :
      ℕ → List Subject → List MergePlan → Memory F Q D × AutoMerge → Memory F Q D × AutoMerge
  unfolding merge_eligible resolve_merge id_of
  merge_all n subjects [] m = m
  merge_all n subjects (p ∷ plan) m =
      merge_all (suc n) subjects plan
        (merge_planned n p (id_of subjects p.source) (id_of subjects p.target) m)

  unfoldable pub auto_merge_candidates : Bool → Memory F Q D → Memory F Q D × AutoMerge
  unfolding merge_all merge_candidates merge_plan eligible_of
  auto_merge_candidates enabled m =
      let eligible = eligible_of (merge_plan u m.subjects) in
      let found : AutoMerge = record {
        enabled = enabled;
        detected = length (merge_candidates u m.subjects);
        eligible = length eligible;
        executed = 0;
        failures = 0;
      } in
      if enabled then merge_all 0 m.subjects eligible (m, found) else (m, found)
