-- ===== src/Memory/Lifecycle/Compressible.antt =====
-- When a bucket of src/phantom_runtime.py may be compressed.
use phantom_runtime_lite.Prelude.{
  Bool, true, false, not, ◌&&◌, ◌||◌, List, [], ◌∷◌, ◌==◌, nat_eq, length, ltb, any, if◌then◌else◌,
  ◌≡◌, refl, arith, Bool-cases, inl, inr,
}
use phantom_runtime_lite.Memory.Decisions.{Decision}
use phantom_runtime_lite.Memory.Questions.{Question}
use phantom_runtime_lite.Memory.Context.{Bucket}
use phantom_runtime_lite.Memory.Lifecycle.{
  new_subject, active, resolved, status_resolved, status_open, count_if, is_open, is_pending,
  is_resolved, is_resolved_stage, open_decisions, pending_questions, subject_status,
  subject_lifecycle, subject_is_merged, subject_is_compressible,
}

count_if-zero : {A : Type 0} (p : A → Bool) (xs : List A) → (count_if p xs == 0) ≡ not (any p xs)
unfolding count_if
count_if-zero p [] = ground arith
count_if-zero p (x ∷ xs) = elim (Bool-cases (p x)) [
  | inl hit ↦ rw (hit) (ground arith)
  | inr miss ↦ rw (miss) (count_if-zero p xs)
]

count_if-some : {A : Type 0} (p : A → Bool) (xs : List A) → ltb 0 (count_if p xs) ≡ any p xs
unfolding count_if
count_if-some p [] = ground arith
count_if-some p (x ∷ xs) = elim (Bool-cases (p x)) [
  | inl hit ↦ rw (hit) (ground arith)
  | inr miss ↦ rw (miss) (count_if-some p xs)
]

-- All is said of the tests alone.
decided :
    (m o q fresh : Bool)
    → (if m
        then true
        else if not (is_resolved (if not o && not q then status_resolved else status_open))
        then false
        else if not (
            is_resolved_stage (
              if fresh
              then new_subject
              else if o || q
              then active
              else if is_resolved (if not o && not q then status_resolved else status_open)
              then resolved
              else active))
        then false
        else if o
        then false
        else if q
        then false
        else true)
      ≡ (m || ((not o && not q) && not fresh))
decided true o q fresh = refl
decided false true q fresh = refl
decided false false true fresh = refl
decided false false false true = refl
decided false false false false = refl

-- A subject may be compressed exactly if it was merged into another, or it has neither an open
-- decision nor a pending question and is not one of which only questions are known: the last two of
-- the four rules follow from the first two.
subject_is_compressible_iff :
    {F A B : Type 0} (b : Bucket F (Question B) (Decision A))
    → subject_is_compressible b ≡ (
        subject_is_merged b.subject
        || ((not (any is_open b.decisions) && not (any is_pending b.questions))
            && not
                ((length b.facts == 0 && length b.decisions == 0) && ltb 0 (length b.questions))))
unfolding subject_is_compressible subject_lifecycle subject_status open_decisions pending_questions
subject_is_compressible_iff b =
    rw
      (
        count_if-zero is_open b.decisions,
        count_if-zero is_pending b.questions,
        count_if-some is_open b.decisions,
        count_if-some is_pending b.questions,
      )
      (decided (subject_is_merged b.subject) (any is_open b.decisions) (any is_pending b.questions)
        ((length b.facts == 0 && length b.decisions == 0) && ltb 0 (length b.questions)))
