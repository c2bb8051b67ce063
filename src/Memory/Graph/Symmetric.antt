-- ===== src/Memory/Graph/Symmetric.antt =====
-- The edges of the subject graph of src/phantom_runtime.py come in pairs.
use phantom_runtime_lite.Prelude.{
  ℕ, String, Bool, true, false, not, ◌&&◌, Option, none, some, List, [], ◌∷◌, ◌++◌, ◌==◌, string_eq,
  if◌then◌else◌, ◌≡◌, refl, sym, ap, ◌∙◌, arith, Bool-cases, inl, inr,
}
use phantom_runtime_lite.Conversation.Text.{Unicode}
use phantom_runtime_lite.Memory.Records.{Memory}
use phantom_runtime_lite.Memory.Decisions.{Decision}
use phantom_runtime_lite.Memory.Questions.{Question}
use phantom_runtime_lite.Memory.Answers.{Known, Acting, Wording}
use phantom_runtime_lite.Memory.Answers.Contexts.{by_priority, build_all_subject_answer_contexts}
use phantom_runtime_lite.Memory.Graph.{
  SubjectNode, SubjectEdge, Relation, merge_candidate, related_to, same_relation, has_key,
  weight_of, add_unless, add_edge, add_both, link_names, link_facts, link, link_to, link_all,
  build_subject_graph, nodes_of,
}

abbrev earlier_or : Option ℕ → Option ℕ → Option ℕ
earlier_or none later = later
earlier_or (some w) later = some w

weight_of-append :
    (s t : String) (r : Relation) (xs ys : List SubjectEdge)
    → weight_of s t r (xs ++ ys) ≡ earlier_or (weight_of s t r xs) (weight_of s t r ys)
unfolding weight_of
weight_of-append s t r [] ys = refl
weight_of-append s t r (e ∷ xs) ys = elim (Bool-cases (has_key s t r e)) [
  | inl hit ↦ rw hit
  | inr miss ↦ rw miss (weight_of-append s t r xs ys)
]

abbrev key_is : String → String → Relation → String → String → Relation → Bool
key_is a b q s t r = a == s && b == t && same_relation q r

earlier_or-none : (o : Option ℕ) → earlier_or o none ≡ o
earlier_or-none none = refl
earlier_or-none (some w) = refl

relation_eq : (q r : Relation) → same_relation q r ≡ true → q ≡ r
relation_eq merge_candidate merge_candidate h = refl
relation_eq merge_candidate related_to h = cc
relation_eq related_to merge_candidate h = cc
relation_eq related_to related_to h = refl

same_key :
    (a b : String) (q : Relation) (s t : String) (r : Relation) (edges : List SubjectEdge)
    → key_is a b q s t r ≡ true
    → weight_of s t r edges ≡ weight_of a b q edges
same_key a b q s t r edges h =
    let source : a ≡ s = (ground (arith, h)) in
    let target : b ≡ t = (ground (arith, h)) in
    let kind : q ≡ r = relation_eq q r (ground (arith, h)) in cc

weight_of-add_unless :
    (s t : String) (r : Relation) (a b : String) (q : Relation) (w : ℕ) (edges : List SubjectEdge)
    (seen : Option ℕ)
    → weight_of a b q edges ≡ seen
    → weight_of s t r (add_unless seen a b q w edges)
      ≡ earlier_or (weight_of s t r edges) (if key_is a b q s t r then some w else none)
unfolding weight_of
weight_of-add_unless s t r a b q w edges none h =
    weight_of-append s t r edges
      ((record { source = a; target = b; relation = q; weight = w }) ∷ [])
weight_of-add_unless s t r a b q w edges (some v) h = elim (Bool-cases (key_is a b q s t r)) [
  | inl hit ↦
      let same : weight_of s t r edges ≡ some v = same_key a b q s t r edges hit ∙ h in
      rw (hit, same) refl
  | inr miss ↦ rw (miss) (sym (earlier_or-none (weight_of s t r edges)))
]

-- What an added edge changes: only its own key, and only if that was free.
weight_of-add_edge :
    (s t : String) (r : Relation) (a b : String) (q : Relation) (w : ℕ) (edges : List SubjectEdge)
    → weight_of s t r (add_edge a b q w edges)
      ≡ earlier_or
          (weight_of s t r edges)
          (if not (a == b) && key_is a b q s t r then some w else none)
unfolding add_edge
weight_of-add_edge s t r a b q w edges = elim (Bool-cases (a == b)) [
  | inl same ↦ rw (same) (sym (earlier_or-none (weight_of s t r edges)))
  | inr other ↦ rw (other) (weight_of-add_unless s t r a b q w edges (weight_of a b q edges) refl)
]

unfoldable pub IsSymmetric : List SubjectEdge → Type 0
IsSymmetric edges = (s t : String) (r : Relation) → weight_of s t r edges ≡ weight_of t s r edges

==_comm : (a b : String) → (a == b) ≡ (b == a)
==_comm a b = ground arith

-- The two keys change places.
exchanged :
    (o : Option ℕ) (n m a_s bt bs at r : Bool) (w : ℕ)
    → n ≡ m
    → earlier_or
        (earlier_or o (if not n && (a_s && bt && r) then some w else none))
        (if not m && (bs && at && r) then some w else none)
      ≡ earlier_or
          (earlier_or o (if not n && (at && bs && r) then some w else none))
          (if not m && (bt && a_s && r) then some w else none)
exchanged o n m a_s bt bs at r w h = ground (arith, h)

weight_of-add_both :
    (s t : String) (r : Relation) (a b : String) (q : Relation) (w : ℕ) (edges : List SubjectEdge)
    → weight_of s t r (add_both a b q w edges)
      ≡ earlier_or
          (earlier_or
            (weight_of s t r edges)
            (if not (a == b) && key_is a b q s t r then some w else none))
          (if not (b == a) && key_is b a q s t r then some w else none)
unfolding add_both
weight_of-add_both s t r a b q w edges =
    weight_of-add_edge s t r b a q w (add_edge a b q w edges)
    ∙ ap (λ o. earlier_or o (if not (b == a) && key_is b a q s t r then some w else none))
        (weight_of-add_edge s t r a b q w edges)

add_both-IsSymmetric :
    (a b : String) (q : Relation) (w : ℕ) (edges : List SubjectEdge)
    → IsSymmetric edges
    → IsSymmetric (add_both a b q w edges)
unfolding IsSymmetric
add_both-IsSymmetric a b q w edges h s t r =
    weight_of-add_both s t r a b q w edges
    ∙ exchanged (weight_of s t r edges) (a == b) (b == a) (a == s) (b == t) (b == s) (a == t)
        (same_relation q r) w (==_comm a b)
    ∙ ap
        (λ o.
          earlier_or (earlier_or o (if not (a == b) && key_is a b q t s r then some w else none))
            (if not (b == a) && key_is b a q t s r then some w else none))
        (h s t r)
    ∙ sym (weight_of-add_both t s r a b q w edges)

if-IsSymmetric :
    (b : Bool) (x y : List SubjectEdge)
    → IsSymmetric x
    → IsSymmetric y
    → IsSymmetric (if b then x else y)
if-IsSymmetric true x y hx hy = hx
if-IsSymmetric false x y hx hy = hy

nil-IsSymmetric : IsSymmetric []
unfolding IsSymmetric weight_of
nil-IsSymmetric s t r = refl

module _ (u : Unicode) (round4 : ℕ → ℕ → ℕ) where
  link-IsSymmetric :
      (a b : SubjectNode) (edges : List SubjectEdge)
      → IsSymmetric edges
      → IsSymmetric (link u round4 a b edges)
  unfolding link link_names link_facts
  link-IsSymmetric a b edges h =
      let named : IsSymmetric (link_names u round4 a b edges) =
        if-IsSymmetric _ _ _ (add_both-IsSymmetric _ _ _ _ edges h) h in
      if-IsSymmetric _ _ _ h (
        if-IsSymmetric _ _ _ (add_both-IsSymmetric _ _ _ _ (link_names u round4 a b edges) named)
          named)

  link_to-IsSymmetric :
      (a : SubjectNode) (nodes : List SubjectNode) (edges : List SubjectEdge)
      → IsSymmetric edges
      → IsSymmetric (link_to u round4 a nodes edges)
  unfolding link_to
  link_to-IsSymmetric a [] edges h = h
  link_to-IsSymmetric a (b ∷ nodes) edges h =
      link_to-IsSymmetric a nodes (link u round4 a b edges) (link-IsSymmetric a b edges h)

  link_all-IsSymmetric :
      (nodes : List SubjectNode) (edges : List SubjectEdge)
      → IsSymmetric edges
      → IsSymmetric (link_all u round4 nodes edges)
  unfolding link_all
  link_all-IsSymmetric [] edges h = h
  link_all-IsSymmetric (a ∷ nodes) edges h =
      link_all-IsSymmetric nodes (link_to u round4 a nodes edges)
        (link_to-IsSymmetric a nodes edges h)

  -- In the subject graph every edge has its counterpart in the other direction, of the same relation
  -- and the same weight.
  pub build_subject_graph-IsSymmetric :
      (mentions : String → ℕ) (m : Memory Known (Question Wording) (Decision Acting))
      → IsSymmetric (build_subject_graph u round4 mentions m)
  unfolding build_subject_graph
  build_subject_graph-IsSymmetric mentions m =
      link_all-IsSymmetric
        (nodes_of u round4 (build_all_subject_answer_contexts mentions none by_priority false m)) []
        nil-IsSymmetric
