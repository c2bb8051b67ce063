-- ===== src/Memory/Expansion/Mutual.antt =====
-- The search of src/phantom_runtime.py in the graph that it builds: who is found from whom.
use mathlib.Core.Path.{subst}
use phantom_runtime_lite.Prelude.{
  ℕ, suc, ◌≤◌, String, Bool, true, false, Option, none, some, List, [], ◌∷◌, ◌==◌, string_eq, ◌≡◌,
  sym, ap, ◌∙◌, arith, Option-cases, inl, inr,
}
use phantom_runtime_lite.Prelude.Dict.{lookup}
use phantom_runtime_lite.Conversation.Text.{Unicode}
use phantom_runtime_lite.Memory.Records.{Memory}
use phantom_runtime_lite.Memory.Decisions.{Decision}
use phantom_runtime_lite.Memory.Questions.{Question}
use phantom_runtime_lite.Memory.Answers.{Known, Acting, Wording}
use phantom_runtime_lite.Memory.Graph.{SubjectEdge, related_to, weight_of, build_subject_graph}
use phantom_runtime_lite.Memory.Graph.Symmetric.{IsSymmetric, build_subject_graph-IsSymmetric}
use phantom_runtime_lite.Memory.Expansion.{Found, collect_related_subjects}
use phantom_runtime_lite.Memory.Expansion.Walks.{Route, here, onward, linked, At}
use phantom_runtime_lite.Memory.Expansion.Nearest.{collect_related_subjects-IsNearest}

abbrev is_there : Option ℕ → Bool
is_there none = false
is_there (some w) = true

-- An edge leads from one subject to another exactly if its key has a weight.
linked-weight_of :
    (i j : String) (graph : List SubjectEdge)
    → linked graph i j ≡ is_there (weight_of i j related_to graph)
unfolding weight_of
linked-weight_of i j [] = ground arith
linked-weight_of i j (e ∷ graph) = ground (arith, linked-weight_of i j graph)

module _ (graph : List SubjectEdge) where
  leads_back :
      (i j : String) → IsSymmetric graph → linked graph i j ≡ true → linked graph j i ≡ true
  unfolding IsSymmetric
  leads_back i j mirrored l =
      linked-weight_of j i graph
      ∙ ap is_there (mirrored j i related_to)
      ∙ sym (linked-weight_of i j graph)
      ∙ l

  -- A step in front of a walk.
  outset :
      (i j k : String) (n : ℕ)
      → (j == "") ≡ false
      → linked graph i j ≡ true
      → Route graph j n k
      → Route graph i (suc n) k
  outset i j k n given l here = onward here j given l
  outset i j k n given l (onward {n = m} {i = h} walk _ given' l') =
      onward (outset i j h m given l walk) k given' l'

  end_given : (a b : String) (n : ℕ) → (a == "") ≡ false → Route graph a n b → (b == "") ≡ false
  end_given a b n given here = given
  end_given a b n given (onward walk _ given' l) = given'

  backward :
      (a b : String) (n : ℕ)
      → IsSymmetric graph
      → (a == "") ≡ false
      → Route graph a n b
      → Route graph b n a
  backward a b n mirrored given here = here
  backward a b n mirrored given (onward {n = m} {i = h} walk _ given' l) =
      outset b h a m (end_given a h m given walk) (leads_back h b mirrored l)
        (backward a h m mirrored given walk)

-- The distance at which a subject was found, if it was.
abbrev pub distance_in : Option Found → Option ℕ
distance_in none = none
distance_in (some x) = some x.distance

unique : (o : Option Found) (x y : Found) → o ≡ some x → o ≡ some y → x ≡ y
unique o x y h k = cc

module _ (graph : List SubjectEdge) (mirrored : IsSymmetric graph) where
  -- Who is found is found from there too, and no further away.
  found_back :
      (a b : String) (depth : ℕ) (x : Found)
      → (a == "") ≡ false
      → At b x (collect_related_subjects graph a depth)
      → (y : Found) × At a y (collect_related_subjects graph b depth) × (y.distance ≤ x.distance)
  found_back a b depth x given at =
      let (walk, near) = (collect_related_subjects-IsNearest graph a depth).sound b x at in
      (collect_related_subjects-IsNearest graph b depth).complete x.distance a
        (backward graph a b x.distance mirrored given walk) near

  distance_of_found :
      (a b : String) (depth : ℕ) (x : Found)
      → (a == "") ≡ false
      → (b == "") ≡ false
      → At b x (collect_related_subjects graph a depth)
      → distance_in (lookup a (collect_related_subjects graph b depth)) ≡ some x.distance
  distance_of_found a b depth x a_given b_given at =
      let (y, there, near) = found_back a b depth x a_given at in
      let (z, back, nearer) = found_back b a depth y b_given there in
      let same : z ≡ x = unique (lookup b (collect_related_subjects graph a depth)) z x back at in
      let close : x.distance ≤ y.distance = subst (λ f. f.distance ≤ y.distance) same nearer in
      let equal : y.distance ≡ x.distance = omega (arith, near, close) in
      ap distance_in there ∙ ap some equal

  distance-mutual :
      (a b : String) (depth : ℕ)
      → (a == "") ≡ false
      → (b == "") ≡ false
      → distance_in (lookup b (collect_related_subjects graph a depth))
        ≡ distance_in (lookup a (collect_related_subjects graph b depth))
  distance-mutual a b depth a_given b_given =
      elim (Option-cases (lookup b (collect_related_subjects graph a depth))) [
        | inr (x, at) ↦ ap distance_in at ∙ sym (distance_of_found a b depth x a_given b_given at)
        | inl missing ↦ elim (Option-cases (lookup a (collect_related_subjects graph b depth))) [
          | inl absent ↦ ap distance_in missing ∙ sym (ap distance_in absent)
          | inr (y, there) ↦
              distance_of_found b a depth y b_given a_given there ∙ sym (ap distance_in there)
        ]
      ]

-- In the graph that the memory gives, one subject is found from another exactly if the other is found
-- from it, at the same distance, whatever the depth of the search, for two subjects with an id.
pub collect_related_subjects-build_subject_graph :
    (u : Unicode) (round4 : ℕ → ℕ → ℕ) (mentions : String → ℕ)
    (m : Memory Known (Question Wording) (Decision Acting)) (a b : String) (depth : ℕ)
    → (a == "") ≡ false
    → (b == "") ≡ false
    → (let graph = build_subject_graph u round4 mentions m in
        distance_in (lookup b (collect_related_subjects graph a depth))
        ≡ distance_in (lookup a (collect_related_subjects graph b depth)))
collect_related_subjects-build_subject_graph u round4 mentions m =
    distance-mutual (build_subject_graph u round4 mentions m)
      (build_subject_graph-IsSymmetric u round4 mentions m)
