-- ===== src/Memory/Answers/Advice.antt =====
-- src/phantom_runtime.py: what is made of an answer context: `_a28_build_priority_entry`, the
-- recommendations of `build_recommendation_list` and `_a30_build_subject_dashboard_entry`.
pub mod Recommended
pub mod Activity
use phantom_runtime_lite.Prelude.{
  ℕ, ◌+◌, ◌*◌, String, Bool, false, ◌&&◌, ◌||◌, Option, none, some, List, [], ◌∷◌, ◌++◌, ◌==◌, map,
  take, ltb, leb, nat_eq, if◌then◌else◌,
}
use phantom_runtime_lite.Conversation.Text.{Text}
use phantom_runtime_lite.Memory.Records.{Memory}
use phantom_runtime_lite.Memory.Decisions.{Decision}
use phantom_runtime_lite.Memory.Questions.{Question}
use phantom_runtime_lite.Memory.Lifecycle.{Stage, new_subject}
use phantom_runtime_lite.Memory.Answers.{
  Known, Acting, Wording, AnswerEntry, text_before, string_before, sort_reverse, keep_if,
  has_status, linked_before,
}
use phantom_runtime_lite.Memory.Answers.Contexts.{
  AnswerContext, TimelineEntry, by_priority, same_stage, to_timeline_entry,
  build_all_subject_answer_contexts,
}

abbrev pub time_given : Option String → List String
time_given none = []
time_given (some t) = t ∷ []

abbrev pub times_of : AnswerEntry → List String
times_of e = time_given e.linked_at ++ (time_given e.answered_at ++ (e.asked_at ∷ []))

unfoldable pub candidates_of : List AnswerEntry → List String
candidates_of [] = []
candidates_of (e ∷ entries) = times_of e ++ candidates_of entries

-- `max` of a list with this first element
unfoldable pub latest_from : String → List String → String
unfolding string_before
latest_from best [] = best
latest_from best (t ∷ times) = latest_from (if string_before best t then t else best) times

unfoldable pub latest_of : List String → String
unfolding latest_from
latest_of [] = ""
latest_of (t ∷ times) = latest_from t times

unfoldable pub latest_activity_at : AnswerContext → String
unfolding latest_of candidates_of
latest_activity_at context = latest_of (candidates_of context.answer_entries)

-- The fields of a priority entry that the context does not have.
pub record PriorityEntry : Type 0 where
  pub context : AnswerContext
  pub latest_activity_at : String
  pub rank_score : ℕ

unfoldable pub build_priority_entry : AnswerContext → PriorityEntry
unfolding latest_activity_at
build_priority_entry context = record {
  context = context;
  latest_activity_at = latest_activity_at context;
  rank_score =
      context.priority_score + context.open_question_count * 50 + context.open_decision_count * 100;
}

pub data RecommendationType : Type 0 where
  collect_information follow_up_decision answer_question monitor : RecommendationType

pub data Priority : Type 0 where
  high medium low : Priority

unfoldable pub recommendation_type : AnswerContext → RecommendationType
unfolding same_stage
recommendation_type context =
    if same_stage context.lifecycle new_subject
    then collect_information
    else if ltb 0 context.open_decision_count
    then follow_up_decision
    else if ltb 0 context.open_question_count
    then answer_question
    else monitor

pub record RecommendationEntry : Type 0 where
  pub subject_id : String
  pub subject_name : Text
  pub lifecycle : Stage
  pub priority_score : ℕ
  pub open_question_count : ℕ
  pub open_decision_count : ℕ
  pub recommendation_type : RecommendationType
  pub priority : Priority

-- The reason is a text for each type.
unfoldable pub build_recommendation_entry : AnswerContext → RecommendationEntry
unfolding recommendation_type
build_recommendation_entry context = record {
  subject_id = context.subject_id;
  subject_name = context.subject_name;
  lifecycle = context.lifecycle;
  priority_score = context.priority_score;
  open_question_count = context.open_question_count;
  open_decision_count = context.open_decision_count;
  recommendation_type = recommendation_type context;
  priority =
      if leb 100 context.priority_score
      then high
      else if leb 10 context.priority_score
      then medium
      else low;
}

-- The order of the keys, the other way round for an ascending sort.
unfoldable pub recommended_after : RecommendationEntry → RecommendationEntry → Bool
unfolding text_before
recommended_after a b =
    ltb a.priority_score b.priority_score
    || (b.priority_score == a.priority_score && text_before b.subject_name a.subject_name)

unfoldable pub sort_recommendations : List RecommendationEntry → List RecommendationEntry
unfolding sort_reverse recommended_after
sort_recommendations entries = sort_reverse recommended_after entries

unfoldable pub build_recommendation_list :
    (String → ℕ)
    → Option Stage
    → ℕ
    → Memory Known (Question Wording) (Decision Acting)
    → List RecommendationEntry
unfolding build_all_subject_answer_contexts build_recommendation_entry sort_recommendations
build_recommendation_list mentions filter limit m = take limit (
    sort_recommendations (
      map build_recommendation_entry
        (build_all_subject_answer_contexts mentions filter by_priority false m)))

abbrev pub first_of : List RecommendationEntry → Option RecommendationEntry
first_of [] = none
first_of (e ∷ entries) = some e

unfoldable pub get_top_recommendation :
    (String → ℕ) → Memory Known (Question Wording) (Decision Acting) → Option RecommendationEntry
unfolding build_recommendation_list
get_top_recommendation mentions m = first_of (build_recommendation_list mentions none 1 m)

abbrev pub first_answer : AnswerContext → List AnswerEntry → Option TimelineEntry
first_answer context [] = none
first_answer context (e ∷ entries) = some (to_timeline_entry context e)

pub record DashboardEntry : Type 0 where
  pub context : AnswerContext
  pub rank_score : ℕ
  pub recommendation_type : RecommendationType
  pub priority : Priority
  pub latest_answer : Option TimelineEntry
  pub latest_activity_at : String

unfoldable pub build_subject_dashboard_entry : AnswerContext → DashboardEntry
unfolding build_priority_entry build_recommendation_entry sort_reverse keep_if string_before
build_subject_dashboard_entry context =
    let priority_entry = build_priority_entry context in
    let rec_entry = build_recommendation_entry context in
    record {
      context = context;
      rank_score = priority_entry.rank_score;
      recommendation_type = rec_entry.recommendation_type;
      priority = rec_entry.priority;
      latest_answer =
          first_answer context
            (sort_reverse linked_before (keep_if (has_status "ANSWERED") context.answer_entries));
      latest_activity_at = priority_entry.latest_activity_at;
    }
