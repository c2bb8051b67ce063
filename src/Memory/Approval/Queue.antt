-- ===== src/Memory/Approval/Queue.antt =====
-- The approval queue of src/phantom_runtime.py over a whole history of requests and executions.
use phantom_runtime_lite.Prelude.{
  ℕ, ◌+◌, ◌≤◌, String, true, false, Option, none, some, List, [], ◌∷◌, ◌++◌, ◌==◌, string_eq,
  if◌then◌else◌, ◌≡◌, refl, sym, ◌∙◌, arith, Bool-cases, Option-cases, inl, inr,
}
use mathlib.Core.Option.{none-ne-some}
use mathlib.Core.Path.{subst}
use phantom_runtime_lite.Conversation.Text.{Text, Unicode}
use phantom_runtime_lite.Memory.Records.{
  Approval, Recommendation, Status, pending, running, approved, failed, Memory,
}
use phantom_runtime_lite.Memory.Merge.{merge_transaction, TransactionResult}
use phantom_runtime_lite.Memory.Approval.Lifecycle.{outcome-not_pending}
use phantom_runtime_lite.Memory.Approval.{
  is_pending, is_same_request, open_request, find_approval, appended, approval_create, with_status,
  set_status, outcome_of, Stamps, run_approval, approval_execute,
}

-- The pending records for a pair of subjects.
unfoldable pub open_count : String → String → List Approval → ℕ
unfolding is_same_request
open_count source target [] = 0
open_count source target (r ∷ records) =
    (if is_same_request source target r then 1 else 0) + open_count source target records

closed_one :
    (source target : String) (s : Status) (now : String) (r : Approval)
    → is_pending s ≡ false
    → is_same_request source target (with_status s now r) ≡ false
unfolding is_same_request
closed_one source target pending now r h = absurd (cc)
closed_one source target running now r h = ground arith
closed_one source target approved now r h = ground arith
closed_one source target failed now r h = ground arith

set_status-open_count :
    (source target i : String) (s : Status) (now : String) (records : List Approval)
    → is_pending s ≡ false
    → open_count source target (set_status i s now records) ≤ open_count source target records
unfolding set_status open_count
set_status-open_count source target i s now [] h = omega arith
set_status-open_count source target i s now (r ∷ records) h = elim (Bool-cases (r.id == i)) [
  | inl hit ↦ rw (hit, closed_one source target s now r h) (omega arith)
  | inr miss ↦ rw (miss) (omega (arith, set_status-open_count source target i s now records h))
]

open_count-append :
    (source target : String) (records more : List Approval)
    → open_count source target (records ++ more)
      ≡ open_count source target records + open_count source target more
unfolding open_count
open_count-append source target [] more = omega arith
open_count-append source target (r ∷ records) more =
    omega (arith, open_count-append source target records more)

open_request-none :
    (source target : String) (records : List Approval)
    → open_request source target records ≡ none
    → open_count source target records ≡ 0
unfolding open_request open_count
open_request-none source target [] h = refl
open_request-none source target (r ∷ records) h =
    elim (Bool-cases (is_same_request source target r)) [
      | inl same ↦ absurd (none-ne-some r (sym h ∙ rw (same) refl))
      | inr other ↦
          let deeper : open_request source target records ≡ none = (sym (rw (other) refl) ∙ h) in
          rw (other) (omega (arith, open_request-none source target records deeper))
    ]

appended-open_count :
    (source target : String) (records : List Approval) (new : Approval) (o : Option Approval)
    → (is_same_request source target new ≡ true → o ≡ none → open_count source target records ≡ 0)
    → open_count source target records ≤ 1
    → open_count source target ((appended records new o).0) ≤ 1
unfolding open_count
appended-open_count source target records new (some r) h one = one
appended-open_count source target records new none h one =
    let total = open_count-append source target records (new ∷ []) in
    elim (Bool-cases (is_same_request source target new)) [
      | inl same ↦ rw (total, same) (omega (arith, h same refl))
      | inr other ↦ rw (total, other) (omega (arith, one))
    ]

same_pair :
    (source target : String) (r : Approval)
    → is_same_request source target r ≡ true
    → (source ≡ r.source_subject_id) × (target ≡ r.target_subject_id)
unfolding is_same_request
same_pair source target r h = (ground arith, ground arith)

-- At most one pending record for each pair of subjects.
abbrev pub OnePending : List Approval → Type 0
OnePending records = (source target : String) → open_count source target records ≤ 1

pub approval_create-OnePending :
    (now new_id a : String) (a_name : Text) (b : String) (b_name : Text) (n : ℕ)
    (rec : Recommendation) (records : List Approval)
    → OnePending records
    → OnePending ((approval_create now new_id a a_name b b_name n rec records).0)
unfolding approval_create
approval_create-OnePending now new_id a a_name b b_name n rec records one source target =
    let new : Approval = (record {
      id = new_id;
      source_subject_id = a;
      source_name = a_name;
      target_subject_id = b;
      target_name = b_name;
      confidence = n;
      recommendation = rec;
      status = pending;
      created_at = now;
      approved_at = "";
    }) in
    appended-open_count source target records new (open_request a b records)
      (λ same none.
        (let pair = same_pair source target new same in
          subst (λ s. open_count s target records ≡ 0) (sym (pair.0))
            (subst (λ t. open_count a t records ≡ 0) (sym (pair.1))
              (open_request-none a b records none))))
      (one source target)

-- What is asked of the queue: a new approval, or the execution of one.
pub data Request : Type 0 where
  create : String → String → String → Text → String → Text → ℕ → Recommendation → Request
  execute : Stamps → String → Request

module _ {F Q D : Type 0} (u : Unicode) where
  run-OnePending :
      (stamps : Stamps) (i : String) (a : Approval) (m : Memory F Q D) (source target : String)
      → open_count source target m.approvals ≤ 1
      → open_count source target ((run_approval u stamps i a m).0.approvals) ≤ 1
  unfolding run_approval merge_transaction
  run-OnePending stamps i a m source target one =
      let started : Memory F Q D = (record m {
        approvals = set_status i running stamps.now m.approvals;
      }) in
      let done : Memory F Q D × TransactionResult =
        (merge_transaction u stamps.now stamps.history_id a.source_subject_id a.target_subject_id
          started) in
      let first = set_status-open_count source target i running stamps.now m.approvals refl in
      let second =
        set_status-open_count source target i (outcome_of (done.1.success)) stamps.later
          (set_status i running stamps.now m.approvals) (outcome-not_pending (done.1.success)) in
      omega (arith, one, first, second)

  pub execute-OnePending :
      (stamps : Stamps) (i : String) (m : Memory F Q D)
      → OnePending m.approvals
      → OnePending ((approval_execute u stamps i m).0.approvals)
  unfolding approval_execute
  execute-OnePending stamps i m one source target =
      elim (Option-cases (find_approval i m.approvals)) [
        | inl absent ↦ rw (absent) (one source target)
        | inr (a, found) ↦ elim (Bool-cases (is_pending a.status)) [
          | inl waits ↦
              rw (found, waits) (run-OnePending stamps i a m source target (one source target))
          | inr busy ↦ rw (found, busy) (one source target)
        ]
      ]

  abbrev pub serve : Memory F Q D → Request → Memory F Q D
  serve m (create now new_id a a_name b b_name n rec) = record m {
    approvals = (approval_create now new_id a a_name b b_name n rec m.approvals).0;
  }
  serve m (execute stamps i) = (approval_execute u stamps i m).0

  abbrev pub serve_all : Memory F Q D → List Request → Memory F Q D
  serve_all m [] = m
  serve_all m (r ∷ requests) = serve_all (serve m r) requests
