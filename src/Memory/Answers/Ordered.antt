-- ===== src/Memory/Answers/Ordered.antt =====
-- The sorting of src/phantom_runtime.py, by Python's stable `sort`.
use phantom_runtime_lite.Prelude.{
  ℕ, suc, ◌+◌, Bool, true, false, List, [], ◌∷◌, ◌++◌, string_eq, All, if◌then◌else◌, ◌≡◌, refl, ap,
  ◌∙◌, arith, Bool-cases, inl, inr,
}
use phantom_runtime_lite.Memory.Lifecycle.{count_if}
use phantom_runtime_lite.Memory.Answers.{put_sorted, sort_reverse}

-- No element stands before one that is greater.
abbrev pub IsDescending : {A : Type 0} → (A → A → Bool) → List A → Type 0
IsDescending precedes [] = Unit
IsDescending precedes (x ∷ xs) = All (λ y. precedes x y ≡ false) xs × IsDescending precedes xs

-- A strict order whose complement is transitive.
pub record IsOrder {A : Type 0} (precedes : A → A → Bool) : Type 0 where
  pub asym : (a b : A) → precedes a b ≡ true → precedes b a ≡ false
  pub trans : (a b c : A) → precedes a b ≡ false → precedes b c ≡ false → precedes a c ≡ false

pub count_if-append :
    {A : Type 0} (p : A → Bool) (xs ys : List A)
    → count_if p (xs ++ ys) ≡ count_if p xs + count_if p ys
unfolding count_if
count_if-append p [] ys = omega arith
count_if-append p (x ∷ xs) ys = elim (Bool-cases (p x)) [
  | inl hit ↦ rw (hit) (omega (arith, count_if-append p xs ys))
  | inr miss ↦ rw (miss) (count_if-append p xs ys)
]

-- Two elements counted in either order.
counted_twice :
    (a b : Bool) (n : ℕ)
    → (if a then suc (if b then suc n else n) else (if b then suc n else n))
      ≡ (if b then suc (if a then suc n else n) else (if a then suc n else n))
counted_twice true true n = refl
counted_twice true false n = refl
counted_twice false true n = refl
counted_twice false false n = refl

module _ {A : Type 0} (precedes : A → A → Bool) where
  count_if-put_sorted :
      (p : A → Bool) (x : A) (xs : List A)
      → count_if p (put_sorted precedes x xs) ≡ count_if p (x ∷ xs)
  unfolding put_sorted count_if
  count_if-put_sorted p x [] = refl
  count_if-put_sorted p x (y ∷ ys) = elim (Bool-cases (precedes x y)) [
    | inl less ↦ rw (less) (
        ap (λ n. if p y then suc n else n) (count_if-put_sorted p x ys)
        ∙ counted_twice (p y) (p x) (count_if p ys))
    | inr more ↦ rw (more) refl
  ]

  -- Sorting keeps every element as often as it was there.
  pub count_if-sort_reverse :
      (p : A → Bool) (xs : List A) → count_if p (sort_reverse precedes xs) ≡ count_if p xs
  unfolding sort_reverse count_if
  count_if-sort_reverse p [] = refl
  count_if-sort_reverse p (x ∷ xs) =
      count_if-put_sorted p x (sort_reverse precedes xs)
      ∙ ap (λ n. if p x then suc n else n) (count_if-sort_reverse p xs)

  put_sorted-All :
      (P : A → Type 0) (x : A) (xs : List A) → P x → All P xs → All P (put_sorted precedes x xs)
  unfolding put_sorted
  put_sorted-All P x [] px pxs = (px, pxs)
  put_sorted-All P x (y ∷ ys) px pxs = elim (Bool-cases (precedes x y)) [
    | inl less ↦ rw (less) (pxs.0, put_sorted-All P x ys px (pxs.1))
    | inr more ↦ rw (more) (px, pxs)
  ]

  pub sort_reverse-All :
      (P : A → Type 0) (xs : List A) → All P xs → All P (sort_reverse precedes xs)
  unfolding sort_reverse
  sort_reverse-All P [] pxs = pxs
  sort_reverse-All P (x ∷ xs) pxs =
      put_sorted-All P x (sort_reverse precedes xs) (pxs.0) (sort_reverse-All P xs (pxs.1))

  module _ (order : IsOrder precedes) where
    above_all :
        (x y : A) (ys : List A)
        → precedes x y ≡ false
        → All (λ z. precedes y z ≡ false) ys
        → All (λ z. precedes x z ≡ false) ys
    above_all x y [] h rest = rest
    above_all x y (z ∷ zs) h rest = (order.trans x y z h (rest.0), above_all x y zs h (rest.1))

    put_sorted-IsDescending :
        (x : A) (xs : List A)
        → IsDescending precedes xs
        → IsDescending precedes (put_sorted precedes x xs)
    unfolding put_sorted
    put_sorted-IsDescending x [] h = (tt, tt)
    put_sorted-IsDescending x (y ∷ ys) h = elim (Bool-cases (precedes x y)) [
      | inl less ↦ rw (less) (
        put_sorted-All (λ z. precedes y z ≡ false) x ys (order.asym x y less) (h.0),
        put_sorted-IsDescending x ys (h.1),
      )
      | inr more ↦ rw (more) ((more, above_all x y ys more (h.0)), h)
    ]

    pub sort_reverse-IsDescending : (xs : List A) → IsDescending precedes (sort_reverse precedes xs)
    unfolding sort_reverse
    sort_reverse-IsDescending [] = tt
    sort_reverse-IsDescending (x ∷ xs) =
        put_sorted-IsDescending x (sort_reverse precedes xs) (sort_reverse-IsDescending xs)
