-- ===== src/Memory/Registry.antt =====
-- src/phantom_runtime.py: the chains of merged subjects, `_subject_resolve_merge` and
-- `_subject_merge_validate`.
pub mod Chains
pub mod Validated
use phantom_runtime_lite.Prelude.{
  ℕ, zero, suc, String, Bool, true, false, not, ◌&&◌, ◌||◌, Option, none, some, List, [], ◌∷◌, ◌++◌,
  contains, ◌==◌, string_eq, if◌then◌else◌,
}
use phantom_runtime_lite.Conversation.Text.{Text, codes}
use phantom_runtime_lite.Memory.Records.{Subject}

-- `id_map.get(id)`: of two entries with an id, the map keeps the later; an empty id has none.
abbrev pub later_or : Option Subject → Subject → String → Option Subject
later_or (some e) s i = some e
later_or none s i = if not (s.id == "") && (i == s.id) then some s else none

unfoldable pub entry_of : List Subject → String → Option Subject
entry_of [] i = none
entry_of (s ∷ subjects) i = later_or (entry_of subjects i) s i

-- An empty text counts as none.
unfoldable pub truthy : Option String → Option String
truthy none = none
truthy (some s) = if s == "" then none else some s

abbrev pub merged_of : Option Subject → Option String
merged_of none = none
merged_of (some s) = truthy s.merged_into

unfoldable pub next_of : List Subject → String → Option String
unfolding entry_of truthy
next_of subjects i = merged_of (entry_of subjects i)

module _ (subjects : List Subject) where
  -- The loop of `_subject_resolve_merge`, with the hops it has left: `next` is where the current
  -- entry was merged to.
  unfoldable pub follow : ℕ → String → List String → String → String
  unfolding next_of
  follow zero original visited current = original
  follow (suc hops) original visited current = elim (next_of subjects current) [
    | none ↦ current
    | some next ↦
        let rest = follow hops original (current ∷ visited) next in
        if contains visited next then original else rest
  ]

  unfoldable pub resolve_merge : String → String
  unfolding follow
  resolve_merge i = if i == "" then i else follow 10 i [] i

abbrev pub name_or_id : Option Subject → String → Text
name_or_id none i = codes i
name_or_id (some s) i = s.canonical_name

pub data Walk : Type 0 where
  fine too_deep : Walk
  circular : List Text → Walk

-- The errors of `_subject_merge_validate`, before they are printed.
pub data MergeError : Type 0 where
  self_reference : Text → MergeError
  missing_target : Text → String → MergeError
  circular_merge : List Text → MergeError
  chain_too_deep : Text → MergeError

abbrev pub error_of : Text → Walk → List MergeError
error_of name fine = []
error_of name too_deep = chain_too_deep name ∷ []
error_of name (circular names) = circular_merge names ∷ []

abbrev pub is_some : Option Subject → Bool
is_some none = false
is_some (some s) = true

module _ (subjects : List Subject) where
  -- The `while` loop of `_subject_merge_validate`, with the steps up to depth 10 it has left.
  unfoldable pub walk : ℕ → List String → List Text → Option String → Walk
  unfolding next_of
  walk depth visited names none = fine
  walk zero visited names (some current) = too_deep
  walk (suc depth) visited names (some current) =
      let chain = names ++ (name_or_id (entry_of subjects current) current ∷ []) in
      let rest = walk depth (visited ++ (current ∷ [])) chain (next_of subjects current) in
      if contains visited current then circular chain else rest

  -- The body of the `for` loop for an entry merged to `target`.
  unfoldable pub check_target : Subject → Option String → List MergeError
  unfolding walk entry_of
  check_target s none = []
  check_target s (some target) =
      if s.id == target
      then self_reference s.canonical_name ∷ []
      else if not (is_some (entry_of subjects target))
      then missing_target s.canonical_name target ∷ []
      else error_of s.canonical_name (walk 10 (s.id ∷ []) (s.canonical_name ∷ []) (some target))

  unfoldable pub check_all : List Subject → List MergeError
  unfolding check_target
  check_all [] = []
  check_all (s ∷ rest) = check_target s (truthy s.merged_into) ++ check_all rest

unfoldable pub merge_validate : List Subject → List MergeError
unfolding check_all
merge_validate subjects = check_all subjects subjects
