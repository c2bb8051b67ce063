-- ===== src/Memory/Answers/Contexts.antt =====
-- src/phantom_runtime.py: the answer contexts of subjects (`_a26_build_subject_answer_context_from_bucket`,
-- `build_subject_answer_context`, `build_all_subject_answer_contexts`), the timelines made of them and
-- their priority entries. The time at which a context is built is left out, and the mention count of a
-- subject is an argument.
use phantom_runtime_lite.Prelude.{
  ℕ, String, Bool, true, false, not, ◌&&◌, ◌||◌, Option, none, some, List, [], ◌∷◌, ◌++◌, ◌==◌, map,
  length, take, ltb, nat_eq, string_eq, if◌then◌else◌,
}
use phantom_runtime_lite.Prelude.Dict.{Dict, lookup}
use phantom_runtime_lite.Conversation.Text.{Text, text_eq}
use phantom_runtime_lite.Memory.Records.{Entry, Subject, Memory}
use phantom_runtime_lite.Memory.Decisions.{Decision, decision_status}
use phantom_runtime_lite.Memory.Questions.{Question}
use phantom_runtime_lite.Memory.Context.{Bucket, or_empty, build_subject_context}
use phantom_runtime_lite.Memory.Lifecycle.{
  Stage, new_subject, active, resolved, count_if, is_open, subject_lifecycle,
  subject_priority_score,
}
use phantom_runtime_lite.Memory.Answers.{
  Known, Acting, Wording, AnswerEntry, text_before, string_before, make_answer_entry,
  sort_answer_entries, sort_reverse, keep_if, has_status,
}

pub record AnswerContext : Type 0 where
  pub subject_id : String
  pub subject_name : Text
  pub lifecycle : Stage
  pub priority_score : ℕ
  pub open_question_count : ℕ
  pub answered_question_count : ℕ
  pub open_decision_count : ℕ
  pub done_decision_count : ℕ
  pub fact_count : ℕ
  pub answer_entries : List AnswerEntry
  pub facts : List (Entry Known)
  pub decisions : List (Entry (Decision Acting))

abbrev pub Records : Type 0
Records = Bucket Known (Question Wording) (Decision Acting)

abbrev pub is_done : Entry (Decision Acting) → Bool
is_done d = decision_status d.rest.status == "DONE"

abbrev pub canonical_name_of : Option Subject → Text
canonical_name_of none = []
canonical_name_of (some s) = s.canonical_name

unfoldable pub same_stage : Stage → Stage → Bool
same_stage new_subject new_subject = true
same_stage active active = true
same_stage resolved resolved = true
same_stage _ _ = false

unfoldable pub lifecycle_order : Stage → ℕ
lifecycle_order active = 0
lifecycle_order new_subject = 1
lifecycle_order resolved = 2

-- What contexts are sorted by.
pub data SortBy : Type 0 where
  by_priority by_lifecycle by_name : SortBy

unfoldable pub context_before : SortBy → AnswerContext → AnswerContext → Bool
unfolding text_before lifecycle_order
context_before by_lifecycle a b =
    ltb (lifecycle_order a.lifecycle) (lifecycle_order b.lifecycle)
    || (lifecycle_order a.lifecycle == lifecycle_order b.lifecycle
        && ltb b.priority_score a.priority_score)
context_before by_name a b = text_before a.subject_name b.subject_name
context_before by_priority a b =
    ltb b.priority_score a.priority_score
    || (a.priority_score == b.priority_score && text_before a.subject_name b.subject_name)

unfoldable pub sort_contexts : SortBy → List AnswerContext → List AnswerContext
unfolding sort_reverse context_before
sort_contexts sort_by contexts = sort_reverse (λ a b. context_before sort_by b a) contexts

module _ (mentions : String → ℕ) where
  unfoldable pub context_from_bucket : String → Records → AnswerContext
  unfolding make_answer_entry sort_answer_entries count_if subject_lifecycle subject_priority_score
  context_from_bucket i b =
      let entries = sort_answer_entries (map (make_answer_entry b.facts b.decisions) b.questions) in
      record {
        subject_id = i;
        subject_name = canonical_name_of b.subject;
        lifecycle = subject_lifecycle b;
        priority_score = subject_priority_score (mentions i) b;
        open_question_count = count_if (has_status "OPEN") entries;
        answered_question_count = count_if (has_status "ANSWERED") entries;
        open_decision_count = count_if is_open b.decisions;
        done_decision_count = count_if is_done b.decisions;
        fact_count = length b.facts;
        answer_entries = entries;
        facts = b.facts;
        decisions = b.decisions;
      }

  abbrev pub context_if_found : String → Option Records → Option AnswerContext
  context_if_found i none = none
  context_if_found i (some b) = some (context_from_bucket i b)

  unfoldable pub build_subject_answer_context :
      String → Memory Known (Question Wording) (Decision Acting) → Option AnswerContext
  unfolding build_subject_context context_from_bucket
  build_subject_answer_context i m =
      if i == "" then none else context_if_found i (lookup i (build_subject_context m))

  abbrev pub passes : Option Stage → AnswerContext → Bool
  passes none context = true
  passes (some stage) context = same_stage context.lifecycle stage

  unfoldable pub contexts_of : Option Stage → Bool → Dict String Records → List AnswerContext
  unfolding context_from_bucket same_stage
  contexts_of filter include_unassigned [] = []
  contexts_of filter include_unassigned ((i, b) ∷ buckets) =
      let rest = contexts_of filter include_unassigned buckets in
      let context = context_from_bucket i b in
      if i == "_unassigned" && not include_unassigned
      then rest
      else if passes filter context
      then context ∷ rest
      else rest

  unfoldable pub build_all_subject_answer_contexts :
      Option Stage
      → SortBy
      → Bool
      → Memory Known (Question Wording) (Decision Acting)
      → List AnswerContext
  unfolding contexts_of sort_contexts
  build_all_subject_answer_contexts filter sort_by include_unassigned m =
      sort_contexts sort_by (contexts_of filter include_unassigned (build_subject_context m))

-- An answer with the subject it is about.
pub record TimelineEntry : Type 0 where
  pub subject_id : String
  pub subject_name : Text
  pub lifecycle : Stage
  pub entry : AnswerEntry

unfoldable pub to_timeline_entry : AnswerContext → AnswerEntry → TimelineEntry
to_timeline_entry context e = record {
  subject_id = context.subject_id;
  subject_name = context.subject_name;
  lifecycle = context.lifecycle;
  entry = e;
}

unfoldable pub timeline_of : AnswerContext → List TimelineEntry
unfolding keep_if to_timeline_entry
timeline_of context =
    map (to_timeline_entry context) (keep_if (has_status "ANSWERED") context.answer_entries)

unfoldable pub timelines_of : List AnswerContext → List TimelineEntry
unfolding timeline_of
timelines_of [] = []
timelines_of (context ∷ contexts) = timeline_of context ++ timelines_of contexts

-- `<` of pairs whose second parts compare as `later` says
abbrev pub then_by : String → String → Bool → Bool
then_by a b later = string_before a b || (a == b && later)

unfoldable pub timeline_before : TimelineEntry → TimelineEntry → Bool
unfolding string_before
timeline_before a b = then_by (or_empty a.entry.linked_at) (or_empty b.entry.linked_at) (
    then_by (or_empty a.entry.answered_at) (or_empty b.entry.answered_at)
      (string_before a.entry.asked_at b.entry.asked_at))

unfoldable pub sort_timeline : List TimelineEntry → List TimelineEntry
unfolding sort_reverse timeline_before
sort_timeline entries = sort_reverse timeline_before entries

abbrev pub timeline_if_found : ℕ → Option AnswerContext → List TimelineEntry
timeline_if_found limit none = []
timeline_if_found limit (some context) = take limit (sort_timeline (timeline_of context))

unfoldable pub build_subject_answer_timeline :
    (String → ℕ)
    → String
    → ℕ
    → Memory Known (Question Wording) (Decision Acting)
    → List TimelineEntry
unfolding build_subject_answer_context sort_timeline timeline_of
build_subject_answer_timeline mentions i limit m =
    timeline_if_found limit (build_subject_answer_context mentions i m)

unfoldable pub build_global_answer_timeline :
    (String → ℕ) → ℕ → Memory Known (Question Wording) (Decision Acting) → List TimelineEntry
unfolding build_all_subject_answer_contexts sort_timeline timelines_of
build_global_answer_timeline mentions limit m = take limit (
    sort_timeline
      (timelines_of (build_all_subject_answer_contexts mentions none by_priority false m)))
