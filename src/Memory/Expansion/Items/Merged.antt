-- ===== src/Memory/Expansion/Items/Merged.antt =====
-- What src/phantom_runtime.py keeps of an entity that was found more than once.
use phantom_runtime_lite.Prelude.{
  ℕ, min, max, Option, none, some, List, [], ◌∷◌, ◌==◌, nat_eq, if◌then◌else◌, ◌≡◌, refl, sym, ap,
  ◌∙◌, arith, Bool-cases, inl, inr,
}
use phantom_runtime_lite.Prelude.Dict.{Dict, lookup, insert, lookup-insert}
use phantom_runtime_lite.Memory.Expansion.Items.{
  Key, key_eq, Weighted, merge_record, merged_with, collect,
}

-- A choice between values that may be missing.
abbrev pub choose : (ℕ → ℕ → ℕ) → Option ℕ → Option ℕ → Option ℕ
choose f none b = b
choose f (some a) none = some a
choose f (some a) (some b) = some (f a b)

abbrev pub read : (Weighted → ℕ) → Option Weighted → Option ℕ
read g none = none
read g (some r) = some (g r)

abbrev pub distance_of : Weighted → ℕ
distance_of r = r.item.distance

abbrev pub weight_in : Weighted → ℕ
weight_in r = r.weight

-- The choice among all records of an entity, if there is one.
unfoldable pub chosen : (ℕ → ℕ → ℕ) → (Weighted → ℕ) → Key → List Weighted → Option ℕ
chosen f g k [] = none
chosen f g k (r ∷ records) =
    let rest = chosen f g k records in
    if k == r.item.entity then choose f (some (g r)) rest else rest

merge-distance :
    (kept r : Weighted)
    → (merge_record kept r).item.distance ≡ min kept.item.distance r.item.distance
unfolding merge_record
merge-distance kept r = ground arith

merge-weight : (kept r : Weighted) → (merge_record kept r).weight ≡ max kept.weight r.weight
unfolding merge_record
merge-weight kept r = ground arith

min_assoc : (a b c : ℕ) → min (min a b) c ≡ min a (min b c)
min_assoc a b c = omega arith

max_assoc : (a b c : ℕ) → max (max a b) c ≡ max a (max b c)
max_assoc a b c = omega arith

choose-none : (f : ℕ → ℕ → ℕ) (o : Option ℕ) → choose f o none ≡ o
choose-none f none = refl
choose-none f (some a) = refl

none-choose : (f : ℕ → ℕ → ℕ) (o : Option ℕ) → choose f none o ≡ o
none-choose f o = refl

module _ (f : ℕ → ℕ → ℕ) (g : Weighted → ℕ) (assoc : (a b c : ℕ) → f (f a b) c ≡ f a (f b c))
    (merges : (kept r : Weighted) → g (merge_record kept r) ≡ f (g kept) (g r)) where
  choose-merged_with :
      (o : Option Weighted) (r : Weighted) (rest : Option ℕ)
      → choose f (some (g (merged_with o r))) rest
        ≡ choose f (read g o) (choose f (some (g r)) rest)
  choose-merged_with none r rest = refl
  choose-merged_with (some kept) r none = ap some (merges kept r)
  choose-merged_with (some kept) r (some c) =
      ap (λ n. some (f n c)) (merges kept r) ∙ ap some (assoc (g kept) (g r) c)

  collect-chosen :
      (k : Key) (records : List Weighted) (by_key : Dict Key Weighted)
      → read g (lookup k (collect records by_key))
        ≡ choose f (read g (lookup k by_key)) (chosen f g k records)
  unfolding collect chosen
  collect-chosen k [] by_key = sym (choose-none f (read g (lookup k by_key)))
  collect-chosen k (r ∷ records) by_key =
      let e = r.item.entity in
      let kept = merged_with (lookup e by_key) r in
      let rest = chosen f g k records in
      collect-chosen k records (insert e kept by_key)
      ∙ ap (λ o. choose f (read g o) rest) (lookup-insert k e kept by_key)
      ∙ elim (Bool-cases (k == e)) [
        | inl hit ↦
            let same : k ≡ e = (ground (arith, hit)) in
            rw (hit) (
              choose-merged_with (lookup e by_key) r rest
              ∙ ap (λ j. choose f (read g (lookup j by_key)) (choose f (some (g r)) rest))
                  (sym same))
        | inr miss ↦ rw (miss) refl
      ]

-- Of an entity that was found more than once, the least distance and the greatest weight are kept, and
-- an entity that was not found is not there.
pub collect_lem :
    (k : Key) (records : List Weighted)
    → (read distance_of (lookup k (collect records [])) ≡ chosen min distance_of k records)
      × (read weight_in (lookup k (collect records [])) ≡ chosen max weight_in k records)
unfolding lookup
collect_lem k records = (
  collect-chosen min distance_of min_assoc merge-distance k records []
      ∙ none-choose min (chosen min distance_of k records),
  collect-chosen max weight_in max_assoc merge-weight k records []
      ∙ none-choose max (chosen max weight_in k records),
)
