-- ===== src/Memory/Approval/Lifecycle.antt =====
-- The life of an approval record of src/phantom_runtime.py: PENDING, RUNNING, then APPROVED or FAILED.
use phantom_runtime_lite.Prelude.{
  String, Bool, true, false, Option, none, some, List, [], ◌∷◌, ◌==◌, string_eq, if◌then◌else◌, ◌≡◌,
  ◌≢◌, refl, sym, ap, ◌∙◌, arith, Bool-cases, Option-cases, inl, inr,
}
use mathlib.Core.Option.{some-injective}
use phantom_runtime_lite.Conversation.Text.{Unicode}
use phantom_runtime_lite.Memory.Records.{
  Approval, Status, pending, running, approved, failed, Memory,
}
use phantom_runtime_lite.Memory.Merge.{merge_transaction, TransactionResult}
use phantom_runtime_lite.Memory.Approval.{
  is_pending, find_approval, with_status, set_status, outcome_of, Stamps, run_approval,
  run_if_pending, approval_execute,
}

with_status_id : (s : Status) (now : String) (r : Approval) → (with_status s now r).id ≡ r.id
with_status_id pending now r = refl
with_status_id running now r = refl
with_status_id approved now r = refl
with_status_id failed now r = refl

with_status_status : (s : Status) (now : String) (r : Approval) → (with_status s now r).status ≡ s
with_status_status pending now r = refl
with_status_status running now r = refl
with_status_status approved now r = refl
with_status_status failed now r = refl

other_id : (k i j : String) → (k == i) ≡ true → j ≢ i → (k == j) ≡ false
other_id k i j hit differ = ground arith

-- The first record with an id, after its status was set.
find-set_status :
    (i : String) (s : Status) (now : String) (records : List Approval) (a : Approval)
    → find_approval i records ≡ some a
    → find_approval i (set_status i s now records) ≡ some (with_status s now a)
unfolding find_approval set_status
find-set_status i s now [] a found = absurd (cc)
find-set_status i s now (r ∷ records) a found = elim (Bool-cases (r.id == i)) [
  | inl hit ↦
      let kept : ((with_status s now r).id == i) ≡ true = (rw (with_status_id s now r) hit) in
      let same : r ≡ a = (some-injective r a (sym (rw (hit) refl) ∙ found)) in
      rw (hit, kept) (ap (λ x. some (with_status s now x)) same)
  | inr miss ↦
      let deeper : find_approval i records ≡ some a = (sym (rw (miss) refl) ∙ found) in
      rw (miss, miss) (find-set_status i s now records a deeper)
]

-- The records of the other ids are not touched.
find-set_status_other :
    (i j : String) (s : Status) (now : String) (records : List Approval)
    → j ≢ i
    → find_approval j (set_status i s now records) ≡ find_approval j records
unfolding find_approval set_status
find-set_status_other i j s now [] differ = refl
find-set_status_other i j s now (r ∷ records) differ = elim (Bool-cases (r.id == i)) [
  | inl hit ↦
      let kept : ((with_status s now r).id == j) ≡ false =
        (rw (with_status_id s now r) (other_id r.id i j hit differ)) in
      rw (hit, kept, other_id r.id i j hit differ) refl
  | inr miss ↦
      rw (miss)
        (ap (λ o. if r.id == j then some r else o) (find-set_status_other i j s now records differ))
]

module _ {F Q D : Type 0} (u : Unicode) (stamps : Stamps) (i : String) where
  run-settled :
      (a : Approval) (m : Memory F Q D)
      → find_approval i m.approvals ≡ some a
      → (r : TransactionResult) × (((run_approval u stamps i a m).1 ≡ some r)
          × ((b : Approval) × ((find_approval i ((run_approval u stamps i a m).0.approvals)
                  ≡ some b)
                × (b.status ≡ outcome_of r.success))))
  unfolding run_approval merge_transaction
  run-settled a m found =
      let started : Memory F Q D = (record m {
        approvals = set_status i running stamps.now m.approvals;
      }) in
      let done : Memory F Q D × TransactionResult =
        (merge_transaction u stamps.now stamps.history_id a.source_subject_id a.target_subject_id
          started) in
      let b =
        with_status (outcome_of (done.1.success)) stamps.later (with_status running stamps.now a) in
      (
        done.1,
        (
          refl,
          (
            b,
            (
              find-set_status i (outcome_of (done.1.success)) stamps.later
                  (set_status i running stamps.now m.approvals) (with_status running stamps.now a)
                  (find-set_status i running stamps.now m.approvals a found),
              with_status_status (outcome_of (done.1.success)) stamps.later
                  (with_status running stamps.now a),
            ),
          ),
        ),
      )

  -- A pending approval that is executed ends APPROVED if its transaction succeeds, and FAILED if not.
  pub execute-settled :
      (m : Memory F Q D) (a : Approval)
      → find_approval i m.approvals ≡ some a
      → a.status ≡ pending
      → (r : TransactionResult) × (((approval_execute u stamps i m).1 ≡ some r)
          × ((b : Approval) × ((find_approval i ((approval_execute u stamps i m).0.approvals)
                  ≡ some b)
                × (b.status ≡ outcome_of r.success))))
  unfolding approval_execute
  execute-settled m a found waits = rw (found, waits) (run-settled a m found)

  not_pending :
      (m : Memory F Q D) (o : Option Approval)
      → ((a : Approval) → o ≡ some a → is_pending a.status ≡ false)
      → run_if_pending u stamps i o m ≡ (m, none)
  not_pending m none h = refl
  not_pending m (some a) h = rw (h a refl) refl

pub outcome-not_pending : (b : Bool) → is_pending (outcome_of b) ≡ false
outcome-not_pending true = refl
outcome-not_pending false = refl

-- An approval is executed at most once: whatever the state, a second call with its id changes nothing
-- and answers that there was no success.
execute_twice :
    {F Q D : Type 0} (u : Unicode) (stamps later : Stamps) (i : String) (m : Memory F Q D)
    → approval_execute u later i (approval_execute u stamps i m).0
      ≡ ((approval_execute u stamps i m).0, none)
unfolding approval_execute
execute_twice u stamps later i m = elim (Option-cases (find_approval i m.approvals)) [
  | inl absent ↦ rw (absent, absent) refl
  | inr (a, found) ↦ elim (Bool-cases (is_pending a.status)) [
    | inl waits ↦
        let settled = run-settled u stamps i a m found in
        let closed : is_pending (settled.1.1.0.status) ≡ false =
          (ap is_pending (settled.1.1.1.1) ∙ outcome-not_pending (settled.0.success)) in
        rw (found, waits, settled.1.1.1.0, closed) refl
    | inr busy ↦ rw (found, busy, found, busy) refl
  ]
]
