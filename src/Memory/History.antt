-- ===== src/Memory/History.antt =====
-- src/phantom_runtime.py: the status history of a subject: `_build_subject_timeline` with its events,
-- whose titles and source records are left out, and `_b29_check_consistency`.
pub mod Settled
use phantom_runtime_lite.Prelude.{
  ℕ, String, Bool, true, false, not, ◌&&◌, ◌||◌, Option, none, some, List, [], ◌∷◌, ◌++◌, ◌==◌, map,
  contains, length, nat_eq, string_eq, if◌then◌else◌,
}
use phantom_runtime_lite.Prelude.Dict.{Dict, lookup}
use phantom_runtime_lite.Conversation.Text.{Text, Unicode}
use phantom_runtime_lite.Memory.Records.{Entry}
use phantom_runtime_lite.Memory.Decisions.{Decision, decision_valid_statuses}
use phantom_runtime_lite.Memory.Answers.{Known, Acting, string_before, sort_reverse}
use phantom_runtime_lite.Memory.Answers.Contexts.{AnswerContext}
use phantom_runtime_lite.Memory.Answers.Statuses.{
  text_contains, text_or_empty, raw_status, blocked_ja, blocked_en, planned_ja, planned_en,
  active_ja, active_en, done_ja, done_en, cancelled_ja, cancelled_en,
}

pub record HistoryEvent : Type 0 where
  pub is_decision : Bool
  pub event_id : String
  pub timestamp : String
  pub status_hint : Option String

unfoldable pub fact_status_hint : Unicode → Text → Option String
unfolding text_contains
fact_status_hint u v =
    if text_contains u v cancelled_ja || text_contains u v cancelled_en
    then some "CANCELLED"
    else if text_contains u v done_ja || text_contains u v done_en
    then some "DONE"
    else if text_contains u v blocked_ja || text_contains u v blocked_en
    then some "BLOCKED"
    else if text_contains u v active_ja || text_contains u v active_en
    then some "ACTIVE"
    else if text_contains u v planned_ja || text_contains u v planned_en
    then some "PLANNED"
    else none

-- The known statuses are the valid ones of decisions.
unfoldable pub decision_status_hint : String → Option String
decision_status_hint status = if contains decision_valid_statuses status then some status else none

unfoldable pub fact_event : Unicode → Entry Known → HistoryEvent
unfolding fact_status_hint
fact_event u f = record {
  is_decision = false;
  event_id = f.rest.id;
  timestamp = f.rest.timestamp;
  status_hint = fact_status_hint u (text_or_empty f.rest.value);
}

unfoldable pub decision_event : Entry (Decision Acting) → HistoryEvent
unfolding decision_status_hint
decision_event d = record {
  is_decision = true;
  event_id = d.rest.id;
  timestamp = d.rest.rest.timestamp;
  status_hint = decision_status_hint (raw_status d.rest.status);
}

-- The order of the keys, the other way round for an ascending sort.
unfoldable pub happens_after : HistoryEvent → HistoryEvent → Bool
unfolding string_before
happens_after a b =
    string_before b.timestamp a.timestamp
    || (b.timestamp == a.timestamp && b.is_decision && not a.is_decision)

unfoldable pub subject_timeline : Unicode → AnswerContext → List HistoryEvent
unfolding fact_event decision_event sort_reverse happens_after
subject_timeline u context =
    sort_reverse happens_after
      (map (fact_event u) context.facts ++ map decision_event context.decisions)

abbrev pub normalize_map : Dict String String
normalize_map =
    ("OPEN", "PLANNED")
    ∷ ("IN_PROGRESS", "ACTIVE")
    ∷ ("BLOCKED", "BLOCKED")
    ∷ ("DONE", "DONE")
    ∷ ("CANCELLED", "CANCELLED")
    ∷ []

abbrev pub given_or : String → Option String → String
given_or status none = status
given_or status (some s) = s

unfoldable pub normalize_status : String → String
unfolding lookup
normalize_status status = given_or status (lookup status normalize_map)

-- An event with a hint: its time and its normalized status.
pub record Observed : Type 0 where
  pub timestamp : String
  pub status : String

abbrev pub observed_if : HistoryEvent → Option String → List Observed → List Observed
observed_if e none rest = rest
observed_if e (some s) rest =
    (record { timestamp = e.timestamp; status = normalize_status s }) ∷ rest

unfoldable pub status_events : List HistoryEvent → List Observed
unfolding normalize_status
status_events [] = []
status_events (e ∷ events) = observed_if e e.status_hint (status_events events)

pub data Rule : Type 0 where
  rule4 rule5 : Rule

pub record Violation : Type 0 where
  pub rule : Rule
  pub previous_status : String
  pub current_status : String
  pub timestamp : String

abbrev pub violation_of : Rule → String → Observed → List Violation
violation_of rule previous e =
    (record {
      rule = rule;
      previous_status = previous;
      current_status = e.status;
      timestamp = e.timestamp;
    })
    ∷ []

unfoldable pub check_change : String → Observed → List Violation
check_change previous e =
    if previous == "DONE" && not (e.status == "DONE")
    then violation_of rule4 previous e
    else if previous == "CANCELLED" && not (e.status == "CANCELLED")
    then violation_of rule5 previous e
    else []

-- The loop, which goes on from the status of the event just seen.
unfoldable pub violations_from : String → List Observed → List Violation
unfolding check_change
violations_from previous [] = []
violations_from previous (e ∷ events) = check_change previous e ++ violations_from e.status events

unfoldable pub last_status : Observed → List Observed → String
last_status e [] = e.status
last_status e (f ∷ events) = last_status f events

pub data Verdict : Type 0 where
  consistent inconsistent unknown : Verdict

pub record Consistency : Type 0 where
  pub consistency : Verdict
  pub latest_status : Option String
  pub event_count : ℕ
  pub violations : List Violation

abbrev pub verdict_of : List Violation → Verdict
verdict_of [] = consistent
verdict_of (v ∷ vs) = inconsistent

unfoldable pub check_observed : List Observed → Consistency
unfolding violations_from last_status
check_observed [] = record {
  consistency = unknown;
  latest_status = none;
  event_count = 0;
  violations = [];
}
check_observed (e ∷ []) = record {
  consistency = unknown;
  latest_status = some e.status;
  event_count = 1;
  violations = [];
}
check_observed (e ∷ f ∷ events) =
    let violations = violations_from e.status (f ∷ events) in
    record {
      consistency = verdict_of violations;
      latest_status = some (last_status f events);
      event_count = length (e ∷ f ∷ events);
      violations = violations;
    }

unfoldable pub check_consistency : List HistoryEvent → Consistency
unfolding check_observed status_events
check_consistency events = check_observed (status_events events)

unfoldable pub build_subject_consistency : Unicode → Option AnswerContext → Option Consistency
unfolding subject_timeline check_consistency
build_subject_consistency u none = none
build_subject_consistency u (some context) =
    let events = subject_timeline u context in
    if length events == 0 then none else some (check_consistency events)
