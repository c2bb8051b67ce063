-- ===== src/Memory/Approval/Auto.antt =====
-- The approval queue of src/phantom_runtime.py under `_subject_auto_merge_candidates`.
use phantom_runtime_lite.Prelude.{
  ℕ, suc, String, Bool, true, false, Option, none, some, List, [], ◌∷◌, ◌==◌, string_eq,
  if◌then◌else◌, length,
}
use phantom_runtime_lite.Conversation.Text.{Unicode}
use phantom_runtime_lite.Memory.Records.{Subject, Approval, Memory}
use phantom_runtime_lite.Memory.Names.{MergePlan, merge_plan, merge_candidates}
use phantom_runtime_lite.Memory.Registry.{resolve_merge}
use phantom_runtime_lite.Memory.Merge.{TransactionResult}
use phantom_runtime_lite.Memory.Approval.{
  approval_create, approval_execute, Stamps, id_of, AutoMerge, eligible_of, counted, merge_eligible,
  merge_planned, merge_all, auto_merge_candidates,
}
use phantom_runtime_lite.Memory.Approval.Queue.{
  OnePending, approval_create-OnePending, execute-OnePending,
}

module _ {F Q D : Type 0} (u : Unicode) (ids : ℕ → String) (stamps : ℕ → Stamps)
    (execute : Bool) where
  if_OnePending :
      (b : Bool) (x y : Memory F Q D × AutoMerge)
      → OnePending ((x.0).approvals)
      → OnePending ((y.0).approvals)
      → OnePending (((if b then x else y).0).approvals)
  if_OnePending true x y p q = p
  if_OnePending false x y p q = q

  eligible-OnePending :
      (n : ℕ) (p : MergePlan) (source target : String) (m : Memory F Q D) (a : AutoMerge)
      → OnePending m.approvals
      → OnePending ((merge_eligible u ids stamps execute n p source target (m, a)).0.approvals)
  unfolding merge_eligible
  eligible-OnePending n p source target m a one =
      let created : List Approval × String =
        (approval_create (stamps n).now (ids n) source p.source target p.target p.confidence
          p.recommendation m.approvals) in
      let queued : Memory F Q D = (record m { approvals = created.0 }) in
      let done : Memory F Q D × Option TransactionResult =
        (approval_execute u (stamps n) (created.1) queued) in
      let one' : OnePending (created.0) =
        (approval_create-OnePending (stamps n).now (ids n) source p.source target p.target
          p.confidence p.recommendation m.approvals one) in
      if_OnePending execute (done.0, counted (done.1) a) (queued, a)
        (execute-OnePending u (stamps n) (created.1) queued one') one'

  planned-OnePending :
      (n : ℕ) (p : MergePlan) (s t : Option String) (m : Memory F Q D) (a : AutoMerge)
      → OnePending m.approvals
      → OnePending ((merge_planned u ids stamps execute n p s t (m, a)).0.approvals)
  planned-OnePending n p (some source) (some target) m a one =
      if_OnePending (resolve_merge m.subjects source == source)
        (merge_eligible u ids stamps execute n p source target (m, a)) (m, a)
        (eligible-OnePending n p source target m a one) one
  planned-OnePending n p (some source) none m a one = one
  planned-OnePending n p none t m a one = one

  all-OnePending :
      (n : ℕ) (subjects : List Subject) (plan : List MergePlan) (m : Memory F Q D) (a : AutoMerge)
      → OnePending m.approvals
      → OnePending ((merge_all u ids stamps execute n subjects plan (m, a)).0.approvals)
  unfolding merge_all
  all-OnePending n subjects [] m a one = one
  all-OnePending n subjects (p ∷ plan) m a one =
      let next : Memory F Q D × AutoMerge =
        (merge_planned u ids stamps execute n p (id_of subjects p.source) (id_of subjects p.target)
          (m, a)) in
      all-OnePending (suc n) subjects plan (next.0) (next.1)
        (planned-OnePending n p (id_of subjects p.source) (id_of subjects p.target) m a one)

  -- The automatic merge, enabled or not, executing or only queueing, leaves no pair of subjects with
  -- two pending approvals if there was none.
  auto_merge-OnePending :
      (enabled : Bool) (m : Memory F Q D)
      → OnePending m.approvals
      → OnePending ((auto_merge_candidates u ids stamps execute enabled m).0.approvals)
  unfolding auto_merge_candidates
  auto_merge-OnePending true m one =
      all-OnePending 0 m.subjects (eligible_of (merge_plan u m.subjects)) m
        record {
          enabled = true;
          detected = length (merge_candidates u m.subjects);
          eligible = length (eligible_of (merge_plan u m.subjects));
          executed = 0;
          failures = 0;
        }
        one
  auto_merge-OnePending false m one = one
