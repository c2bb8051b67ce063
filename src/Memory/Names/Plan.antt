-- ===== src/Memory/Names/Plan.antt =====
-- What `_subject_merge_plan` of src/phantom_runtime.py proposes.
use phantom_runtime_lite.Prelude.{
  Bool, true, false, ◌||◌, List, [], ◌∷◌, All, ltb, length, ◌==◌, if◌then◌else◌, ◌≡◌, ◌≢◌, ◌∙◌, ◌≤◌,
  inl, inr, refl, sym, arith, Bool-cases,
}
use phantom_runtime_lite.Conversation.Text.{Text, Unicode, text_eq}
use phantom_runtime_lite.Conversation.Speaker.{starts_with}
use phantom_runtime_lite.Memory.Records.{Subject}
use phantom_runtime_lite.Memory.Names.{
  ends_with, merge_confidence, merge_recommendation, recommend, is_approve, MergePlan, planned,
  plan_of, merge_candidates, merge_plan, text_leb,
}

-- What a proposal says: the names differ in case only, with the highest confidence, and the target is
-- no shorter than the source.
abbrev pub IsSound : Unicode → MergePlan → Type 0
IsSound u p =
    (u.lower p.source ≡ u.lower p.target)
    × (p.confidence ≡ 100)
    × (length p.source ≤ length p.target)

not_alike :
    (prefix suffix : Bool)
    → is_approve (recommend (if prefix then 70 else if suffix then 60 else 0)) ≢ true
not_alike true suffix h = absurd (cc)
not_alike false true h = absurd (cc)
not_alike false false h = absurd (cc)

approved-same :
    (u : Unicode) (a b : Text)
    → is_approve (merge_recommendation u a b) ≡ true
    → (u.lower a ≡ u.lower b) × (merge_confidence u a b ≡ 100)
unfolding merge_recommendation merge_confidence
approved-same u a b h = elim (Bool-cases (u.lower a == u.lower b)) [
  | inl same ↦ ((ground arith), (rw (same) refl))
  | inr differ ↦ absurd (
      not_alike (starts_with (u.lower a) (u.lower b) || starts_with (u.lower b) (u.lower a))
        (ends_with (u.lower a) (u.lower b) || ends_with (u.lower b) (u.lower a))
        (sym (rw (differ) refl) ∙ h))
]

planned-IsSound :
    (u : Unicode) (a b : Text)
    → u.lower a ≡ u.lower b
    → merge_confidence u a b ≡ 100
    → IsSound u (planned u a b)
unfolding planned
planned-IsSound u a b same full = elim (Bool-cases (ltb (length b) (length a))) [
  | inl longer ↦ rw (longer) (sym same, full, (ground arith))
  | inr no_longer ↦ elim (Bool-cases (ltb (length a) (length b))) [
    | inl shorter ↦ rw (no_longer, shorter) (same, full, (ground arith))
    | inr even ↦ elim (Bool-cases (text_leb a b)) [
      | inl first ↦ rw (no_longer, even, first) (sym same, full, (ground arith))
      | inr second ↦ rw (no_longer, even, second) (same, full, (ground arith))
    ]
  ]
]

plan_of-IsSound : (u : Unicode) (pairs : List (Text × Text)) → All (IsSound u) (plan_of u pairs)
unfolding plan_of
plan_of-IsSound u [] = tt
plan_of-IsSound u (p ∷ pairs) =
    let rest = plan_of-IsSound u pairs in
    elim (Bool-cases (is_approve (merge_recommendation u (p.0) (p.1)))) [
      | inl taken ↦
          let same = approved-same u (p.0) (p.1) taken in
          rw (taken) (planned-IsSound u (p.0) (p.1) (same.0) (same.1), rest)
      | inr passed ↦ rw (passed) rest
    ]

-- The plan proposes only pairs of names that are equal in lower case, with confidence 100; the
-- target's name is no shorter than the source's.
pub merge_plan-IsSound :
    (u : Unicode) (subjects : List Subject) → All (IsSound u) (merge_plan u subjects)
unfolding merge_plan
merge_plan-IsSound u subjects = plan_of-IsSound u (merge_candidates u subjects)
