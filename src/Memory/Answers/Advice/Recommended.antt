-- ===== src/Memory/Answers/Advice/Recommended.antt =====
-- Which recommendation src/phantom_runtime.py gives for a subject, from its records.
use phantom_runtime_lite.Prelude.{
  ℕ, zero, suc, ◌+◌, String, Bool, true, false, ◌&&◌, ◌||◌, ◌==◌, ltb, nat_eq, length,
  if◌then◌else◌, ◌≡◌, refl, ap, arith,
}
use phantom_runtime_lite.Memory.Lifecycle.{
  Stage, new_subject, active, resolved, status_resolved, status_open, is_resolved, count_if,
  open_decisions, pending_questions, subject_lifecycle,
}
use phantom_runtime_lite.Memory.Answers.Linked.{is_unlinked}
use phantom_runtime_lite.Memory.Answers.Contexts.{Records, same_stage, context_from_bucket}
use phantom_runtime_lite.Memory.Answers.Gathered.{open_question_count_lem}
use phantom_runtime_lite.Memory.Answers.Advice.{
  RecommendationType, collect_information, follow_up_decision, answer_question, monitor,
  recommendation_type,
}

-- What is recommended for a subject at a stage, by the open decisions and the questions that are
-- ANSWERED without a link.
abbrev pub advice : Stage → ℕ → ℕ → RecommendationType
advice new_subject decisions unlinked = collect_information
advice active decisions unlinked = if ltb 0 decisions then follow_up_decision else answer_question
advice resolved decisions unlinked = if ltb 0 unlinked then answer_question else monitor

-- The stage, from the tests of its lifecycle.
abbrev stage_of : Bool → ℕ → ℕ → Stage
stage_of fresh d q =
    if fresh
    then new_subject
    else if ltb 0 d || ltb 0 q
    then active
    else if is_resolved (if d == 0 && q == 0 then status_resolved else status_open)
    then resolved
    else active

advised :
    (fresh : Bool) (d q u n : ℕ)
    → n ≡ q + u
    → (if same_stage (stage_of fresh d q) new_subject
        then collect_information
        else if ltb 0 d
        then follow_up_decision
        else if ltb 0 n
        then answer_question
        else monitor)
      ≡ advice (stage_of fresh d q) d u
unfolding same_stage nat_eq
advised true d q u n h = refl
advised false zero zero u n h =
    let same : n ≡ u = (omega (arith, h)) in
    ap (λ k. if ltb 0 k then answer_question else monitor) same
advised false zero (suc q) u n h = ground (arith, h)
advised false (suc d) q u n h = ground (arith, h)

-- A new subject is to collect information; an active one is to follow up its decisions, or without an
-- open decision to answer its questions; a resolved one is to be monitored, except that it is to answer
-- a question if there is one that is ANSWERED without a link.
pub recommendation_type_lem :
    (mentions : String → ℕ) (i : String) (b : Records)
    → recommendation_type (context_from_bucket mentions i b)
      ≡ advice (subject_lifecycle b) (open_decisions b) (count_if is_unlinked b.questions)
unfolding recommendation_type context_from_bucket subject_lifecycle
recommendation_type_lem mentions i b =
    advised ((length b.facts == 0 && length b.decisions == 0) && ltb 0 (length b.questions))
      (open_decisions b) (pending_questions b) (count_if is_unlinked b.questions)
      (context_from_bucket mentions i b).open_question_count
      ((open_question_count_lem mentions i b).1)
