-- ===== src/Memory/Expansion/Walks.antt =====
-- The search of src/phantom_runtime.py for the subjects around a subject, against walks in the graph.
use mathlib.Core.Path.{subst}
use phantom_runtime_lite.Prelude.{
  ℕ, suc, String, Bool, true, false, ◌&&◌, ◌||◌, none, some, List, [], ◌∷◌, ◌++◌, ◌==◌, ==_refl,
  contains, any, string_eq, ◌≡◌, ◌⊎◌, refl, sym, arith, Bool-cases, inl, inr,
}
use phantom_runtime_lite.Prelude.Dict.{Dict, lookup, insert, lookup-insert}
use phantom_runtime_lite.Memory.Answers.{keep_if}
use phantom_runtime_lite.Memory.Graph.{
  SubjectEdge, Relation, merge_candidate, related_to, same_relation,
}
use phantom_runtime_lite.Memory.Expansion.{Found, Search, edges_from, add_if_new, discover}

-- Some edge with this target.
abbrev pub leads_to : String → List SubjectEdge → Bool
leads_to j edges = any (λ e. e.target == j) edges

abbrev is_related : Relation → Bool
is_related related_to = true
is_related merge_candidate = false

related_lem : (r : Relation) → same_relation r related_to ≡ is_related r
related_lem related_to = refl
related_lem merge_candidate = refl

-- A RELATED_TO edge leads from the one subject to the other.
abbrev pub linked : List SubjectEdge → String → String → Bool
linked graph i j = any (λ e. (e.source == i && e.target == j) && is_related e.relation) graph

pub leads_to-edges_from :
    (i j : String) (graph : List SubjectEdge) → leads_to j (edges_from i graph) ≡ linked graph i j
unfolding edges_from keep_if
leads_to-edges_from i j [] = refl
leads_to-edges_from i j (e ∷ graph) =
    ground (arith, related_lem e.relation, leads_to-edges_from i j graph)

-- A walk of so many RELATED_TO edges from the seed, along subjects with an id.
pub data Route (graph : List SubjectEdge) (seed : String) : ℕ → String → Type 0 where
  here : Route graph seed 0 seed
  onward :
      {n : ℕ} {i : String}
      → Route graph seed n i
      → (j : String) → (j == "") ≡ false
      → linked graph i j ≡ true
      → Route graph seed (suc n) j

abbrev pub At : String → Found → Dict String Found → Type 0
At i x found = lookup i found ≡ some x

pub At-insert :
    (i t : String) (x v : Found) (found : Dict String Found)
    → lookup t found ≡ none
    → At i x found
    → At i x (insert t v found)
At-insert i t x v found new h = ground (arith, lookup-insert i t v found, h, new)

pub At-of_insert :
    (i t : String) (x v : Found) (found : Dict String Found)
    → At i x (insert t v found)
    → ((i ≡ t) × (v ≡ x)) ⊎ At i x found
At-of_insert i t x v found h = elim (Bool-cases (i == t)) [
  | inl same ↦ inl (ground (arith, same), ground (arith, same, lookup-insert i t v found, h))
  | inr other ↦ inr (ground (arith, other, lookup-insert i t v found, h))
]

contains-append_one :
    (xs : List String) (a i : String) → contains (xs ++ (a ∷ [])) i ≡ (contains xs i || i == a)
contains-append_one [] a i = ground arith
contains-append_one (x ∷ xs) a i = ground (arith, contains-append_one xs a i)

pub contains_added :
    (xs : List String) (a i : String) → contains xs i ≡ true → contains (xs ++ (a ∷ [])) i ≡ true
contains_added xs a i h = ground (arith, contains-append_one xs a i, h)

pub contains_last : (xs : List String) (a : String) → contains (xs ++ (a ∷ [])) a ≡ true
contains_last xs a = ground (arith, contains-append_one xs a a, ==_refl a)

pub contains_one_of :
    (xs : List String) (a i : String)
    → contains (xs ++ (a ∷ [])) i ≡ true
    → (contains xs i ≡ true) ⊎ (i ≡ a)
contains_one_of xs a i h = ground (arith, contains-append_one xs a i, h)

-- What has been found stays found.
unfoldable pub Grows : Dict String Found → Dict String Found → Type 0
Grows old new = (i : String) (x : Found) → At i x old → At i x new

pub Grows-trans : (a b c : Dict String Found) → Grows a b → Grows b c → Grows a c
unfolding Grows
Grows-trans a b c f g i x h = g i x (f i x h)

-- Every target that has an id was found.
unfoldable pub Covers : List SubjectEdge → Dict String Found → Type 0
Covers edges found =
    (j : String) → (j == "") ≡ false → leads_to j edges ≡ true → (x : Found) × At j x found

pub Grows-refl : (found : Dict String Found) → Grows found found
unfolding Grows
Grows-refl found i x h = h

pub Grows-insert :
    (t : String) (v : Found) (found : Dict String Found)
    → lookup t found ≡ none
    → Grows found (insert t v found)
unfolding Grows
Grows-insert t v found new i x h = At-insert i t x v found new h

pub At-inserted : (t : String) (v : Found) (found : Dict String Found) → At t v (insert t v found)
At-inserted t v found = ground (arith, lookup-insert t t v found, ==_refl t)

pub Covers-one :
    (e : SubjectEdge) (found : Dict String Found)
    → ((e.target == "") ≡ false → (x : Found) × At e.target x found)
    → Covers (e ∷ []) found
unfolding Covers
Covers-one e found h j given l =
    let same : e.target ≡ j = (ground (arith, l)) in
    subst (λ k. (x : Found) × At k x found) same
      (h (subst (λ k. (k == "") ≡ false) (sym same) given))

pub Covers-nil : (found : Dict String Found) → Covers [] found
unfolding Covers
Covers-nil found j given l = cc

pub Covers-cons :
    (e : SubjectEdge) (edges : List SubjectEdge) (found : Dict String Found)
    → Covers (e ∷ []) found
    → Covers edges found
    → Covers (e ∷ edges) found
unfolding Covers
Covers-cons e edges found first rest j given l = elim (Bool-cases (e.target == j)) [
  | inl hit ↦ first j given (ground (arith, hit))
  | inr miss ↦ rest j given (ground (arith, miss, l))
]

pub Covers-grown :
    (edges : List SubjectEdge) (a b : Dict String Found)
    → Grows a b
    → Covers edges a
    → Covers edges b
unfolding Covers Grows
Covers-grown edges a b grows h j given l = let (x, at) = h j given l in (x, grows j x at)

pub leads_first :
    (e : SubjectEdge) (edges : List SubjectEdge) → leads_to e.target (e ∷ edges) ≡ true
leads_first e edges = ground (arith, ==_refl e.target)

pub leads_later :
    (j : String) (e : SubjectEdge) (edges : List SubjectEdge)
    → leads_to j edges ≡ true
    → leads_to j (e ∷ edges) ≡ true
leads_later j e edges l = ground (arith, l)

pub contains_head : (a : String) (xs : List String) → contains (a ∷ xs) a ≡ true
contains_head a xs = ground (arith, ==_refl a)

pub contains_tail :
    (a : String) (xs : List String) (i : String) → contains xs i ≡ true → contains (a ∷ xs) i ≡ true
contains_tail a xs i h = ground (arith, h)

pub contains_split :
    (a : String) (xs : List String) (i : String)
    → contains (a ∷ xs) i ≡ true
    → (i ≡ a) ⊎ (contains xs i ≡ true)
contains_split a xs i h = ground (arith, h)

pub discover_empty :
    (d : ℕ) (e : SubjectEdge) (s : Search) → (e.target == "") ≡ true → discover d e s ≡ s
unfolding discover
discover_empty d e s h = rw (h) refl

pub discover_new :
    (d : ℕ) (e : SubjectEdge) (s : Search)
    → (e.target == "") ≡ false
    → lookup e.target s.found ≡ none
    → discover d e s ≡ add_if_new d e none s
unfolding discover
discover_new d e s h new = rw (h, new) refl

pub discover_old :
    (d : ℕ) (e : SubjectEdge) (s : Search) (x : Found)
    → (e.target == "") ≡ false
    → At e.target x s.found
    → discover d e s ≡ s
unfolding discover
discover_old d e s x h there = rw (h, there) refl
