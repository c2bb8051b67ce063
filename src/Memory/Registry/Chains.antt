-- ===== src/Memory/Registry/Chains.antt =====
-- Chains of merged subjects: what `_subject_resolve_merge` of src/phantom_runtime.py answers for
-- them.
use phantom_runtime_lite.Prelude.{
  ℕ, zero, suc, ◌≤◌, ◌<◌, String, false, none, some, List, [], ◌∷◌, contains, ◌==◌, string_eq, ◌≡◌,
  ◌≢◌, ◌⊎◌, inl, inr, refl, sym, ap, ◌∙◌, arith, Bool-cases, Option-cases, All,
}
use mathlib.Core.Option.{none-ne-some, some-injective}
use phantom_runtime_lite.Memory.Records.{Subject}
use phantom_runtime_lite.Memory.Registry.{next_of, follow, resolve_merge}

module _ (subjects : List Subject) where
  -- The subject `a` is merged to `e` in `k` hops.
  abbrev pub Chain : ℕ → String → String → Type 0
  Chain zero a e = a ≡ e
  Chain (suc k) a e = (b : String) × (next_of subjects a ≡ some b × Chain k b e)

  -- A subject that is merged no further.
  abbrev pub IsEnd : String → Type 0
  IsEnd a = next_of subjects a ≡ none

  same_length : (j k : ℕ) (a b e : String) → a ≡ b → Chain j a e → Chain k b e → IsEnd e → j ≡ k
  same_length zero zero a b e p c d end = refl
  same_length zero (suc k) a b e p c (x, (n, d)) end =
      absurd (none-ne-some x (sym end ∙ ap (next_of subjects) (sym c ∙ p) ∙ n))
  same_length (suc j) zero a b e p (x, (n, c)) d end =
      absurd (none-ne-some x (sym end ∙ ap (next_of subjects) (sym d ∙ sym p) ∙ n))
  same_length (suc j) (suc k) a b e p (x, (n, c)) (y, (m, d)) end =
      ap suc
        (same_length j k x y e (some-injective x y (sym n ∙ ap (next_of subjects) p ∙ m)) c d end)

  -- From every element, a chain longer than `k` leads to `e`.
  abbrev Behind : ℕ → String → List String → Type 0
  Behind k e = All (λ v. (m : ℕ) × (Chain m v e × k < m))

  weaken :
      (k : ℕ) (e : String) (visited : List String) → Behind (suc k) e visited → Behind k e visited
  weaken k e [] b = tt
  weaken k e (v ∷ visited) ((m, (c, h)), b) = ((m, (c, omega arith)), weaken k e visited b)

  fresh_next :
      (k : ℕ) (e next : String) (visited : List String)
      → Chain k next e
      → IsEnd e
      → Behind k e visited
      → contains visited next ≡ false
  fresh_next k e next [] c end b = refl
  fresh_next k e next (v ∷ visited) c end ((m, (d, h)), b) =
      let rest = fresh_next k e next visited c end b in
      let differ : next ≢ v = (λ p. absurd (omega (arith, same_length k m next v e p c d end))) in
      ground (arith, rest, differ)

  follow-Chain :
      (n : ℕ) (original : String) (visited : List String) (k : ℕ) (a e : String)
      → Chain k a e
      → IsEnd e
      → Behind k e visited
      → (k < n → follow subjects n original visited a ≡ e)
        × (n ≤ k → follow subjects n original visited a ≡ original)
  unfolding follow
  follow-Chain zero original visited k a e c end b = ((λ h. absurd (omega arith)), (λ _. refl))
  follow-Chain (suc n) original visited zero a e c end b =
      (let stop : next_of subjects a ≡ none = (ap (next_of subjects) c ∙ end) in
        ((λ _. rw (stop, follow) c), (λ h. absurd (omega arith))))
  follow-Chain (suc n) original visited (suc k) a e (x, (m, c)) end b =
      let ahead : Behind k e (a ∷ visited) =
        ((suc k, ((x, (m, c)), omega arith)), weaken k e visited b) in
      let rest = follow-Chain n original (a ∷ visited) k x e c end ahead in
      let unseen = fresh_next k e x visited c end (weaken k e visited b) in
      (
        (λ h. rw (m, unseen, follow) (rest.0 (omega arith))),
        (λ h. rw (m, unseen, follow) (rest.1 (omega arith))),
      )

  -- A chain of fewer than ten hops is followed to its end. Of a longer one, one of exactly ten hops
  -- included, the answer is the subject it starts from.
  pub resolve_merge-Chain :
      (k : ℕ) (i e : String)
      → i ≢ ""
      → Chain k i e
      → IsEnd e
      → (k < 10 → resolve_merge subjects i ≡ e) × (10 ≤ k → resolve_merge subjects i ≡ i)
  unfolding resolve_merge
  resolve_merge-Chain k i e full c end =
      let answer = follow-Chain 10 i [] k i e c end tt in
      let full' : (i == "") ≡ false = (ground arith) in
      ((λ h. rw (full') (answer.0 h)), (λ h. rw (full') (answer.1 h)))

  follow_result :
      (n : ℕ) (original : String) (visited : List String) (a : String)
      → (follow subjects n original visited a ≡ original)
        ⊎ IsEnd (follow subjects n original visited a)
  unfolding follow
  follow_result zero original visited a = inl refl
  follow_result (suc n) original visited a = elim (Option-cases (next_of subjects a)) [
    | inl stop ↦ inr (rw (stop, follow) stop)
    | inr (x, m) ↦
        let rest = follow_result n original (a ∷ visited) x in
        elim (Bool-cases (contains visited x)) [
          | inl seen ↦ inl (rw (m, seen, follow) refl)
          | inr unseen ↦ rw (m, unseen, follow) rest
        ]
  ]

  resolve_result :
      (i : String)
      → (resolve_merge subjects i ≡ i)
        ⊎ ((k : String) × (resolve_merge subjects i ≡ k × (i ≢ "" × IsEnd k)))
  unfolding resolve_merge
  resolve_result i = elim (Bool-cases (i == "")) [
    | inl empty ↦ inl (rw (empty) refl)
    | inr full ↦ elim (follow_result 10 i [] i) [
      | inl same ↦ inl (rw (full) same)
      | inr end ↦ inr (follow subjects 10 i [] i, (rw (full) refl, ((ground arith), end)))
    ]
  ]

  resolve_end : (i : String) → IsEnd i → resolve_merge subjects i ≡ i
  unfolding resolve_merge
  resolve_end i end = elim (Bool-cases (i == "")) [
    | inl empty ↦ rw (empty) refl
    | inr full ↦ rw (full, end, follow) refl
  ]

  -- In any registry, circular ones included, resolving an answer again changes nothing.
  pub resolve_merge_idem :
      (i : String) → resolve_merge subjects (resolve_merge subjects i) ≡ resolve_merge subjects i
  resolve_merge_idem i = elim (resolve_result i) [
    | inl same ↦ ap (resolve_merge subjects) same
    | inr (k, (answer, (_, end))) ↦
        ap (resolve_merge subjects) answer ∙ resolve_end k end ∙ sym answer
  ]
