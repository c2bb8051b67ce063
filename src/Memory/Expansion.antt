-- ===== src/Memory/Expansion.antt =====
-- src/phantom_runtime.py: the subjects around a subject: `_a34_collect_related_subjects` and the two
-- bounds. The items found with them are in `Items`.
pub mod Walks
pub mod Rounds
pub mod Nearest
pub mod Mutual
pub mod Items
use phantom_runtime_lite.Prelude.{
  ℕ, zero, suc, max, min, String, Bool, ◌&&◌, Option, none, some, List, [], ◌∷◌, ◌++◌, ◌==◌,
  string_eq, nat_eq, if◌then◌else◌,
}
use phantom_runtime_lite.Prelude.Dict.{Dict, lookup, insert}
use phantom_runtime_lite.Memory.Answers.{keep_if}
use phantom_runtime_lite.Memory.Graph.{SubjectEdge, related_to, same_relation}

abbrev pub max_depth : ℕ
max_depth = 2

abbrev pub max_limit : ℕ
max_limit = 200

-- The depth and the limit given as numbers: a negative one counts as 0, which is clamped to 1 as well.
unfoldable pub clamp_depth : ℕ → ℕ
clamp_depth depth = max 1 (min max_depth depth)

unfoldable pub clamp_limit : ℕ → ℕ
clamp_limit limit = max 1 (min max_limit limit)

-- How far a subject is from the seed, and the edge by which it was found.
pub record Found : Type 0 where
  pub distance : ℕ
  pub edge : Option SubjectEdge

-- `adj.get(sid, [])`
abbrev pub leaves : String → SubjectEdge → Bool
leaves i e = same_relation e.relation related_to && e.source == i

unfoldable pub edges_from : String → List SubjectEdge → List SubjectEdge
unfolding keep_if
edges_from i graph = keep_if (leaves i) graph

-- What has been found, and the next frontier.
pub record Search : Type 0 where
  pub found : Dict String Found
  pub next : List String

abbrev pub add_if_new : ℕ → SubjectEdge → Option Found → Search → Search
add_if_new dist e (some old) s = s
add_if_new dist e none s = record {
  found = insert e.target (record { distance = dist; edge = some e }) s.found;
  next = s.next ++ (e.target ∷ []);
}

unfoldable pub discover : ℕ → SubjectEdge → Search → Search
unfolding lookup insert
discover dist e s = if e.target == "" then s else add_if_new dist e (lookup e.target s.found) s

unfoldable pub scan : ℕ → List SubjectEdge → Search → Search
unfolding discover
scan dist [] s = s
scan dist (e ∷ edges) s = scan dist edges (discover dist e s)

module _ (graph : List SubjectEdge) where
  unfoldable pub visit : ℕ → List String → Search → Search
  unfolding scan edges_from
  visit dist [] s = s
  visit dist (i ∷ frontier) s = visit dist frontier (scan dist (edges_from i graph) s)

  -- So many rounds of the loop over the distances, the next of which is `suc dist`.
  unfoldable pub rounds : ℕ → ℕ → List String → Dict String Found → Dict String Found
  unfolding visit
  rounds zero dist frontier found = found
  rounds (suc n) dist frontier found =
      let s = visit (suc dist) frontier (record { found = found; next = [] }) in
      rounds n (suc dist) s.next s.found

  unfoldable pub collect_related_subjects : String → ℕ → Dict String Found
  unfolding rounds
  collect_related_subjects seed depth =
      rounds depth 0 (seed ∷ []) ((seed, record { distance = 0; edge = none }) ∷ [])
