-- ===== src/Memory/Answers/Advice/Activity.antt =====
-- The time that src/phantom_runtime.py takes for the latest activity of a subject.
use mathlib.Core.Path.{subst, sym}
use phantom_runtime_lite.Prelude.{
  String, true, false, List, [], ◌∷◌, string_eq, All, ◌≡◌, refl, Bool-cases, inl, inr,
}
use phantom_runtime_lite.Memory.Answers.{string_before}
use phantom_runtime_lite.Memory.Answers.Linked.{string_before-asym, string_before_trans}
use phantom_runtime_lite.Memory.Answers.Timeline.{string_before_irrefl}
use phantom_runtime_lite.Memory.Answers.Contexts.{AnswerContext}
use phantom_runtime_lite.Memory.Answers.Advice.{
  latest_from, latest_of, latest_activity_at, candidates_of,
}

abbrev IsNotAfter : String → String → Type 0
IsNotAfter latest t = string_before latest t ≡ false

latest_from-later :
    (best t : String) (times : List String)
    → string_before best t ≡ true
    → latest_from best (t ∷ times) ≡ latest_from t times
unfolding latest_from
latest_from-later best t times later = rw (later) refl

latest_from-earlier :
    (best t : String) (times : List String)
    → string_before best t ≡ false
    → latest_from best (t ∷ times) ≡ latest_from best times
unfolding latest_from
latest_from-earlier best t times earlier = rw (earlier) refl

latest_from-nil : (best : String) → string_before (latest_from best []) best ≡ false
unfolding latest_from
latest_from-nil best = string_before_irrefl best

IsAbove : String → String → List String → Type 0
IsAbove latest best times = IsNotAfter latest best × All (IsNotAfter latest) times

latest_from-IsAbove :
    (best : String) (times : List String) → IsAbove (latest_from best times) best times
unfolding IsAbove
latest_from-IsAbove best [] = (latest_from-nil best, tt)
latest_from-IsAbove best (t ∷ times) = elim (Bool-cases (string_before best t)) [
  | inl later ↦
      let (above, rest) = latest_from-IsAbove t times in
      subst (λ l. IsAbove l best (t ∷ times)) (sym (latest_from-later best t times later))
        (
          string_before_trans (latest_from t times) t best above (string_before-asym best t later),
          (above, rest),
        )
  | inr earlier ↦
      let (above, rest) = latest_from-IsAbove best times in
      subst (λ l. IsAbove l best (t ∷ times)) (sym (latest_from-earlier best t times earlier))
        (above, (string_before_trans (latest_from best times) best t above earlier, rest))
]

-- No time of an entry of the context is later than its latest activity.
pub latest_activity_at_bounds :
    (context : AnswerContext)
    → All (IsNotAfter (latest_activity_at context)) (candidates_of context.answer_entries)
unfolding latest_activity_at latest_of IsAbove
latest_activity_at_bounds context = go (candidates_of context.answer_entries)
  where
    go : (times : List String) → All (IsNotAfter (latest_of times)) times
    go [] = tt
    go (t ∷ times) = latest_from-IsAbove t times
