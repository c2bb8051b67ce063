-- ===== src/Memory/Registry/Validated.antt =====
-- Registries that `_subject_merge_validate` of src/phantom_runtime.py lets pass.
use phantom_runtime_lite.Prelude.{
  ℕ, zero, suc, ◌≤◌, ◌<◌, String, Bool, true, false, not, ◌&&◌, Option, none, some, List, [], ◌∷◌,
  ◌++◌, contains, ◌==◌, string_eq, if◌then◌else◌, ◌≡◌, ◌≢◌, ◌⊎◌, inl, inr, refl, sym, ap, ◌∙◌,
  arith, Bool-cases, Option-cases,
}
use mathlib.Core.Path.{subst}
use mathlib.Core.Option.{none-ne-some, some-injective}
use phantom_runtime_lite.Conversation.Text.{Text}
use phantom_runtime_lite.Memory.Records.{Subject}
use phantom_runtime_lite.Memory.Registry.{
  MergeError, self_reference, missing_target, error_of, is_some, later_or, merged_of, next_of,
  resolve_merge, walk, Walk, fine, too_deep, circular, merge_validate, check_all, check_target,
  truthy, entry_of, name_or_id,
}
use phantom_runtime_lite.Memory.Registry.Chains.{Chain, IsEnd, resolve_merge-Chain}

append_none : (xs ys : List MergeError) → xs ++ ys ≡ [] → (xs ≡ []) × (ys ≡ [])
append_none [] ys h = (refl, h)
append_none (x ∷ xs) ys h = absurd (cc)

later_or_cases :
    (o : Option Subject) (t : Subject) (i : String) (s : Subject)
    → later_or o t i ≡ some s
    → (o ≡ some s) ⊎ ((i ≡ t.id) × (t ≡ s))
later_or_cases (some e) t i s h = inl h
later_or_cases none t i s h = elim (Bool-cases (not (t.id == "") && (i == t.id))) [
  | inl chosen ↦
      let same : (if not (t.id == "") && (i == t.id) then some t else none) ≡ some t =
        (rw (chosen) refl) in
      inr ((ground arith), some-injective t s (sym same ∙ h))
  | inr passed ↦ absurd (none-ne-some s (sym (rw (passed) refl) ∙ h))
]

checked_fine :
    (self known : Bool) (name : Text) (target : String) (w : Walk)
    → (if self
        then self_reference name ∷ []
        else if not known
        then missing_target name target ∷ []
        else error_of name w)
      ≡ []
    → w ≡ fine
checked_fine true known name target w h = absurd (cc)
checked_fine false false name target w h = absurd (cc)
checked_fine false true name target fine h = refl
checked_fine false true name target too_deep h = absurd (cc)
checked_fine false true name target (circular names) h = absurd (cc)

short_or_ten : (k : ℕ) → k ≤ 10 → (k < 10) ⊎ (k ≡ 10)
short_or_ten k h = ground arith

circular_or_fine :
    (b : Bool) (names : List Text) (w : Walk)
    → (if b then circular names else w) ≡ fine
    → (b ≡ false) × (w ≡ fine)
circular_or_fine true names w h = absurd (cc)
circular_or_fine false names w h = (refl, h)

module _ (subjects : List Subject) where
  walk_unseen :
      (n : ℕ) (visited : List String) (names : List Text) (a : String)
      → walk subjects (suc n) visited names (some a) ≡ fine
      → contains visited a ≡ false
  unfolding walk
  walk_unseen n visited names a h = ground arith

  walk_on :
      (n : ℕ) (visited : List String) (names : List Text) (a x : String)
      → next_of subjects a ≡ some x
      → walk subjects (suc n) visited names (some a) ≡ fine
      → walk subjects n
          (visited ++ (a ∷ []))
          (names ++ (name_or_id (entry_of subjects a) a ∷ []))
          (some x)
        ≡ fine
  unfolding walk
  walk_on n visited names a x m h =
      subst
        (λ o.
          walk subjects n (visited ++ (a ∷ [])) (names ++ (name_or_id (entry_of subjects a) a ∷ []))
            o
          ≡ fine)
        m
        (circular_or_fine (contains visited a) (names ++ (name_or_id (entry_of subjects a) a ∷ []))
          (walk subjects n (visited ++ (a ∷ []))
            (names ++ (name_or_id (entry_of subjects a) a ∷ [])) (next_of subjects a))
          h).1

  walk_fine :
      (n : ℕ) (visited : List String) (names : List Text) (a : String)
      → walk subjects n visited names (some a) ≡ fine
      → (k : ℕ) × ((e : String) × (Chain subjects k a e × (IsEnd subjects e × k < n)))
  unfolding walk
  walk_fine zero visited names a h = absurd (cc)
  walk_fine (suc n) visited names a h = elim (Option-cases (next_of subjects a)) [
    | inl stop ↦ (0, (a, (refl, (stop, omega arith))))
    | inr (x, m) ↦
        (let seen : contains visited a ≡ false = walk_unseen n visited names a h in
          let deeper : walk subjects n (visited ++ (a ∷ []))
                (names ++ (name_or_id (entry_of subjects a) a ∷ [])) (some x)
              ≡ fine =
            (walk_on n visited names a x m h) in
          let rest =
            walk_fine n (visited ++ (a ∷ [])) (names ++ (name_or_id (entry_of subjects a) a ∷ [])) x
              deeper in
          (
            suc (rest.0),
            (rest.1.0, ((x, (m, rest.1.1.0)), (rest.1.1.1.0, omega (arith, rest.1.1.1.1)))),
          ))
  ]

  check_member :
      (entries : List Subject) (i : String) (s : Subject)
      → entry_of entries i ≡ some s
      → check_all subjects entries ≡ []
      → (i ≡ s.id) × (check_target subjects s (truthy s.merged_into) ≡ [])
  unfolding entry_of check_all
  check_member [] i s found h = absurd (cc)
  check_member (t ∷ entries) i s found h =
      let both =
        append_none (check_target subjects t (truthy t.merged_into)) (check_all subjects entries)
          h in
      elim (later_or_cases (entry_of entries i) t i s found) [
        | inl later ↦ check_member entries i s later (both.1)
        | inr (same_id, same) ↦
            subst (λ r. (i ≡ r.id) × (check_target subjects r (truthy r.merged_into) ≡ [])) same
              (same_id, both.0)
      ]

  entry_merged :
      (o : Option Subject) (x : String)
      → merged_of o ≡ some x
      → (s : Subject) × ((o ≡ some s) × (truthy s.merged_into ≡ some x))
  entry_merged none x m = absurd (none-ne-some x m)
  entry_merged (some s) x m = (s, (refl, m))

  target_walk :
      (s : Subject) (x : String)
      → check_target subjects s (some x) ≡ []
      → walk subjects 10 (s.id ∷ []) (s.canonical_name ∷ []) (some x) ≡ fine
  unfolding check_target
  target_walk s x h =
      checked_fine (s.id == x) (is_some (entry_of subjects x)) s.canonical_name x
        (walk subjects 10 (s.id ∷ []) (s.canonical_name ∷ []) (some x)) h

  validated_hop :
      (i x : String)
      → next_of subjects i ≡ some x
      → merge_validate subjects ≡ []
      → (k : ℕ) × ((e : String) × (Chain subjects k x e × (IsEnd subjects e × k < 10)))
  unfolding merge_validate next_of
  validated_hop i x m h =
      let found = entry_merged (entry_of subjects i) x m in
      let checked = check_member subjects i (found.0) (found.1.0) h in
      let passed : check_target subjects (found.0) (some x) ≡ [] =
        (subst (λ o. check_target subjects (found.0) o ≡ []) (found.1.1) (checked.1)) in
      walk_fine 10 (found.0.id ∷ []) (found.0.canonical_name ∷ []) x
        (target_walk (found.0) x passed)

  validated-Chain :
      (i : String)
      → merge_validate subjects ≡ []
      → (k : ℕ) × ((e : String) × (Chain subjects k i e × (IsEnd subjects e × k ≤ 10)))
  validated-Chain i h = elim (Option-cases (next_of subjects i)) [
    | inl stop ↦ (0, (i, (refl, (stop, omega arith))))
    | inr (x, m) ↦
        (let rest = validated_hop i x m h in
          (
            suc (rest.0),
            (rest.1.0, ((x, (m, rest.1.1.0)), (rest.1.1.1.0, omega (arith, rest.1.1.1.1)))),
          ))
  ]

  -- In a registry that passes validation, every subject is resolved to one that is merged no further,
  -- but for those at the head of a chain of exactly ten hops, which are resolved to themselves.
  pub validated-resolve_merge :
      (i : String)
      → i ≢ ""
      → merge_validate subjects ≡ []
      → IsEnd subjects (resolve_merge subjects i)
        ⊎ ((e : String) × (Chain subjects 10 i e
              × (IsEnd subjects e × resolve_merge subjects i ≡ i)))
  validated-resolve_merge i full h =
      let found = validated-Chain i h in
      let answers =
        resolve_merge-Chain subjects (found.0) i (found.1.0) full (found.1.1.0) (found.1.1.1.0) in
      elim (short_or_ten (found.0) (found.1.1.1.1)) [
        | inl short ↦ inl (ap (next_of subjects) (answers.0 short) ∙ found.1.1.1.0)
        | inr ten ↦ inr (
          found.1.0,
          (
            subst (λ k. Chain subjects k i (found.1.0)) ten (found.1.1.0),
            (found.1.1.1.0, answers.1 (omega (arith, ten))),
          ),
        )
      ]
