-- ===== src/Memory/Answers/Overview.antt =====
-- src/phantom_runtime.py: `build_context_dashboard` and `get_dashboard_summary`.
use phantom_runtime_lite.Prelude.{
  ℕ, suc, ◌+◌, String, Bool, false, ◌&&◌, ◌||◌, Option, none, some, List, [], ◌∷◌, ◌==◌, map,
  length, take, ltb, nat_eq, ◌≡◌, refl, arith, if◌then◌else◌,
}
use phantom_runtime_lite.Memory.Records.{Memory}
use phantom_runtime_lite.Memory.Decisions.{Decision}
use phantom_runtime_lite.Memory.Questions.{Question}
use phantom_runtime_lite.Memory.Lifecycle.{Stage, new_subject, active, resolved, count_if}
use phantom_runtime_lite.Memory.Answers.{Known, Acting, Wording, text_before, sort_reverse}
use phantom_runtime_lite.Memory.Answers.Contexts.{
  by_priority, same_stage, build_all_subject_answer_contexts,
}
use phantom_runtime_lite.Memory.Answers.Advice.{DashboardEntry, build_subject_dashboard_entry}

-- The order of the keys, the other way round for an ascending sort.
unfoldable pub dashboard_after : DashboardEntry → DashboardEntry → Bool
unfolding text_before
dashboard_after a b =
    ltb a.rank_score b.rank_score
    || (b.rank_score == a.rank_score && text_before b.context.subject_name a.context.subject_name)

unfoldable pub sort_dashboard : List DashboardEntry → List DashboardEntry
unfolding sort_reverse dashboard_after
sort_dashboard entries = sort_reverse dashboard_after entries

unfoldable pub dashboard_entries :
    (String → ℕ)
    → Option Stage
    → Memory Known (Question Wording) (Decision Acting)
    → List DashboardEntry
unfolding build_all_subject_answer_contexts build_subject_dashboard_entry sort_dashboard
dashboard_entries mentions filter m = sort_dashboard (
    map build_subject_dashboard_entry
      (build_all_subject_answer_contexts mentions filter by_priority false m))

unfoldable pub build_context_dashboard :
    (String → ℕ)
    → Option Stage
    → ℕ
    → Memory Known (Question Wording) (Decision Acting)
    → List DashboardEntry
unfolding dashboard_entries
build_context_dashboard mentions filter limit m = take limit (dashboard_entries mentions filter m)

pub record DashboardSummary : Type 0 where
  pub subject_count : ℕ
  pub active_count : ℕ
  pub new_count : ℕ
  pub resolved_count : ℕ
  pub open_question_count : ℕ
  pub open_decision_count : ℕ
  pub top_subject : Option DashboardEntry

-- `sum(f(e) for e in entries)`
unfoldable pub sum_of : (DashboardEntry → ℕ) → List DashboardEntry → ℕ
sum_of f [] = 0
sum_of f (e ∷ entries) = f e + sum_of f entries

abbrev pub top_of : List DashboardEntry → Option DashboardEntry
top_of [] = none
top_of (e ∷ entries) = some e

unfoldable pub is_at : Stage → DashboardEntry → Bool
unfolding same_stage
is_at stage e = same_stage e.context.lifecycle stage

unfoldable pub summary_of : List DashboardEntry → DashboardSummary
unfolding count_if is_at sum_of
summary_of entries = record {
  subject_count = length entries;
  active_count = count_if (is_at active) entries;
  new_count = count_if (is_at new_subject) entries;
  resolved_count = count_if (is_at resolved) entries;
  open_question_count = sum_of (λ e. e.context.open_question_count) entries;
  open_decision_count = sum_of (λ e. e.context.open_decision_count) entries;
  top_subject = top_of entries;
}

unfoldable pub get_dashboard_summary :
    (String → ℕ) → Memory Known (Question Wording) (Decision Acting) → DashboardSummary
unfolding dashboard_entries summary_of
get_dashboard_summary mentions m = summary_of (dashboard_entries mentions none m)

staged :
    (s : Stage) (n a w r : ℕ)
    → n ≡ a + w + r
    → suc n
      ≡ (if same_stage s active then suc a else a)
        + (if same_stage s new_subject then suc w else w)
        + (if same_stage s resolved then suc r else r)
unfolding same_stage
staged new_subject n a w r h = omega (arith, h)
staged active n a w r h = omega (arith, h)
staged resolved n a w r h = omega (arith, h)

all_staged :
    (entries : List DashboardEntry)
    → length entries
      ≡ count_if (is_at active) entries
        + count_if (is_at new_subject) entries
        + count_if (is_at resolved) entries
unfolding count_if is_at
all_staged [] = omega arith
all_staged (e ∷ entries) =
    staged e.context.lifecycle (length entries) (count_if (is_at active) entries)
      (count_if (is_at new_subject) entries) (count_if (is_at resolved) entries)
      (all_staged entries)

top-take : (entries : List DashboardEntry) → top_of entries ≡ top_of (take 1 entries)
top-take [] = refl
top-take (e ∷ entries) = refl

-- The summary counts every subject at exactly one stage, and its top subject is the first one of a
-- dashboard of one entry.
pub get_dashboard_summary_lem :
    (mentions : String → ℕ) (m : Memory Known (Question Wording) (Decision Acting))
    → let summary = get_dashboard_summary mentions m in
      (summary.subject_count ≡ summary.active_count + summary.new_count + summary.resolved_count)
      × (summary.top_subject ≡ top_of (build_context_dashboard mentions none 1 m))
unfolding get_dashboard_summary summary_of build_context_dashboard
get_dashboard_summary_lem mentions m =
    (all_staged (dashboard_entries mentions none m), top-take (dashboard_entries mentions none m))
