-- ===== src/Memory/Names.antt =====
-- src/phantom_runtime.py: which subjects' names are alike: `_subject_merge_confidence`,
-- `_subject_merge_recommendation`, `_subject_merge_candidates` and `_subject_merge_plan`.
pub mod Plan
use phantom_runtime_lite.Prelude.{
  ℕ, Bool, true, false, not, ◌&&◌, ◌||◌, Option, none, some, List, [], ◌∷◌, ◌++◌, map, length, leb,
  ltb, contains, ◌==◌, nat_eq, Eq, if◌then◌else◌, ◌≡◌, ◌↔◌, refl, arith,
}
use phantom_runtime_lite.Conversation.Text.{Text, Unicode, text_eq, strip}
use phantom_runtime_lite.Conversation.Speaker.{starts_with}
use phantom_runtime_lite.Memory.Records.{Recommendation, approve, review, ignore, Subject}

unfoldable pub ends_with : Text → Text → Bool
ends_with [] t = t == []
ends_with (c ∷ s) t = let rest = ends_with s t in (c ∷ s) == t || rest

-- `a <= b` of two texts.
unfoldable pub text_leb : Text → Text → Bool
text_leb [] b = true
text_leb (c ∷ a) [] = false
text_leb (c ∷ a) (d ∷ b) = let rest = text_leb a b in if c == d then rest else ltb c d

unfoldable pub merge_confidence : Unicode → Text → Text → ℕ
unfolding starts_with ends_with
merge_confidence u name_a name_b =
    let a = u.lower name_a in
    let b = u.lower name_b in
    if a == b
    then 100
    else if starts_with a b || starts_with b a
    then 70
    else if ends_with a b || ends_with b a
    then 60
    else 0

abbrev pub recommend : ℕ → Recommendation
recommend confidence =
    if leb 90 confidence then approve else if leb 60 confidence then review else ignore

unfoldable pub merge_recommendation : Unicode → Text → Text → Recommendation
merge_recommendation u a b = recommend (merge_confidence u a b)

unfoldable pub is_candidate : Unicode → Text → Text → Bool
unfolding starts_with ends_with
is_candidate u name_a name_b =
    let a = u.lower name_a in
    let b = u.lower name_b in
    a == b || starts_with a b || starts_with b a || ends_with a b || ends_with b a

abbrev pub in_order : Text → Text → Text × Text
in_order a b = if text_leb a b then (a, b) else (b, a)

pair_dec : Discrete (Text × Text)
pair_dec = hlevel (text_eq.dec)

instance unfoldable pub pair_eq : Eq (Text × Text)
unfolding pair_dec
pair_eq = record { dec = pair_dec }

-- The inner loop for one `a`; the pairs found so far are in `candidates`, which `seen` repeats.
unfoldable pub pairs_with : Unicode → Text → List Text → List (Text × Text) → List (Text × Text)
unfolding is_candidate text_leb pair_eq
pairs_with u a [] candidates = candidates
pairs_with u a (b ∷ names) candidates =
    let key = in_order a b in
    let taken = is_candidate u a b && not (contains candidates key) in
    pairs_with u a names (if taken then candidates ++ (key ∷ []) else candidates)

unfoldable pub pairs_of : Unicode → List Text → List (Text × Text) → List (Text × Text)
unfolding pairs_with
pairs_of u [] candidates = candidates
pairs_of u (a ∷ names) candidates = pairs_of u names (pairs_with u a names candidates)

-- The names that are not blank, stripped.
unfoldable pub names_of : Unicode → List Subject → List Text
names_of u [] = []
names_of u (s ∷ subjects) =
    let name = strip u s.canonical_name in
    let names = names_of u subjects in if name == [] then names else name ∷ names

unfoldable pub merge_candidates : Unicode → List Subject → List (Text × Text)
unfolding names_of pairs_of
merge_candidates u subjects = pairs_of u (names_of u subjects) []

pub record MergePlan : Type 0 where
  pub source : Text
  pub target : Text
  pub confidence : ℕ
  pub recommendation : Recommendation

abbrev merge_into : Text → Text → ℕ → MergePlan
merge_into a b c = record { source = a; target = b; confidence = c; recommendation = approve }

-- Rule 1 and 2: the longer name, or the smaller of two equally long ones, is the target.
unfoldable pub planned : Unicode → Text → Text → MergePlan
unfolding text_leb merge_confidence
planned u a b =
    let confidence = merge_confidence u a b in
    let smaller = if text_leb a b then a else b in
    let larger = if text_leb a b then b else a in
    if ltb (length b) (length a)
    then merge_into b a confidence
    else if ltb (length a) (length b)
    then merge_into a b confidence
    else merge_into larger smaller confidence

abbrev pub is_approve : Recommendation → Bool
is_approve approve = true
is_approve _ = false

unfoldable pub plan_of : Unicode → List (Text × Text) → List MergePlan
unfolding planned merge_recommendation
plan_of u [] = []
plan_of u (p ∷ candidates) =
    let plan = plan_of u candidates in
    if is_approve (merge_recommendation u (p.0) (p.1)) then planned u (p.0) (p.1) ∷ plan else plan

unfoldable pub merge_plan : Unicode → List Subject → List MergePlan
unfolding merge_candidates plan_of
merge_plan u subjects = plan_of u (merge_candidates u subjects)
