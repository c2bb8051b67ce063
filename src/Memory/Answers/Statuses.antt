-- ===== src/Memory/Answers/Statuses.antt =====
-- src/phantom_runtime.py: the status extracted from the facts and decisions of a subject
-- (`_b27_collect_status_signals`, `_b27_build_status_entry`). A confidence is a whole number of hundredths,
-- and the time of the extraction is left out.
pub mod Best
use phantom_runtime_lite.Prelude.{
  ℕ, String, Bool, true, false, ◌&&◌, ◌||◌, Option, none, some, List, [], ◌∷◌, ◌++◌, ◌==◌, any,
  nat_eq, string_eq, if◌then◌else◌,
}
use phantom_runtime_lite.Prelude.Dict.{Dict, lookup}
use phantom_runtime_lite.Conversation.Text.{Text, codes, Unicode}
use phantom_runtime_lite.Memory.Records.{Entry}
use phantom_runtime_lite.Memory.Decisions.{Decision}
use phantom_runtime_lite.Memory.Answers.{Known, Acting}

abbrev pub status_priority_of : Dict String ℕ
status_priority_of =
    ("CANCELLED", 6)
    ∷ ("DONE", 5)
    ∷ ("BLOCKED", 4)
    ∷ ("ACTIVE", 3)
    ∷ ("PLANNED", 2)
    ∷ ("UNKNOWN", 1)
    ∷ []

abbrev pub or_zero : Option ℕ → ℕ
or_zero none = 0
or_zero (some n) = n

unfoldable pub status_priority : String → ℕ
unfolding lookup
status_priority s = or_zero (lookup s status_priority_of)

abbrev pub blocked_ja : List Text
blocked_ja = codes "ブロック" ∷ codes "保留" ∷ codes "停止" ∷ []

abbrev pub blocked_en : List Text
blocked_en = codes "blocked" ∷ codes "waiting for approval" ∷ codes "on hold" ∷ codes "stalled" ∷ []

abbrev pub planned_ja : List Text
planned_ja = codes "予定" ∷ codes "計画" ∷ codes "導入予定" ∷ []

abbrev pub planned_en : List Text
planned_en = codes "planned" ∷ codes "planning" ∷ codes "scheduled" ∷ codes "intend to" ∷ []

abbrev pub active_ja : List Text
active_ja =
    codes "進行中"
    ∷ codes "実施中"
    ∷ codes "対応中"
    ∷ codes "作業中"
    ∷ codes "検討中"
    ∷ codes "確認中"
    ∷ codes "調査中"
    ∷ []

abbrev pub active_en : List Text
active_en = codes "in progress" ∷ codes "underway" ∷ []

abbrev pub done_ja : List Text
done_ja = codes "完了" ∷ codes "終了" ∷ codes "対応済" ∷ codes "解決" ∷ codes "クローズ" ∷ codes "実施済" ∷ []

abbrev pub done_en : List Text
done_en = codes "completed" ∷ codes "done" ∷ []

abbrev pub cancelled_ja : List Text
cancelled_ja = codes "キャンセル" ∷ codes "中止" ∷ codes "廃止" ∷ []

abbrev pub cancelled_en : List Text
cancelled_en = codes "cancelled" ∷ codes "canceled" ∷ []

-- Python's `in` of texts
unfoldable pub begins_with : Text → Text → Bool
begins_with [] t = true
begins_with (c ∷ s) [] = false
begins_with (c ∷ s) (d ∷ t) = let rest = begins_with s t in c == d && rest

unfoldable pub occurs_in : Text → Text → Bool
unfolding begins_with
occurs_in s [] = begins_with s []
occurs_in s (d ∷ t) = let later = occurs_in s t in begins_with s (d ∷ t) || later

unfoldable pub text_contains : Unicode → Text → List Text → Bool
unfolding occurs_in
text_contains u text keywords = any (λ kw. occurs_in kw (u.lower text)) keywords

-- A status, the rule that gave it and the kind of record that it was found in.
pub record Signal : Type 0 where
  pub status : String
  pub rule : String
  pub source : String

abbrev pub signal : String → String → String → Signal
signal status rule source = record { status = status; rule = rule; source = source }

-- `if test: signals.append(s)`
abbrev pub signal_if : Bool → Signal → List Signal
signal_if test s = if test then s ∷ [] else []

-- `str(fact.get("value", ""))` of a fact that has a value or lacks the key. The text `None` of an empty
-- value holds no keyword either.
abbrev pub text_or_empty : Option Text → Text
text_or_empty none = []
text_or_empty (some t) = t

unfoldable pub fact_signals : Unicode → Text → List Signal
unfolding text_contains
fact_signals u v =
    signal_if (text_contains u v blocked_ja) (signal "BLOCKED" "BLOCKED_FACT_JA" "fact")
    ++ signal_if (text_contains u v blocked_en) (signal "BLOCKED" "BLOCKED_FACT_EN" "fact")
    ++ signal_if (text_contains u v planned_ja) (signal "PLANNED" "PLANNED_FACT_JA" "fact")
    ++ signal_if (text_contains u v planned_en) (signal "PLANNED" "PLANNED_FACT_EN" "fact")
    ++ signal_if (text_contains u v active_ja) (signal "ACTIVE" "ACTIVE_FACT_JA" "fact")
    ++ signal_if (text_contains u v active_en) (signal "ACTIVE" "ACTIVE_FACT_EN" "fact")
    ++ signal_if (text_contains u v done_ja) (signal "DONE" "DONE_FACT_JA" "fact")
    ++ signal_if (text_contains u v done_en) (signal "DONE" "DONE_FACT_EN" "fact")
    ++ signal_if (text_contains u v cancelled_ja) (signal "CANCELLED" "CANCELLED_FACT_JA" "fact")
    ++ signal_if (text_contains u v cancelled_en) (signal "CANCELLED" "CANCELLED_FACT_EN" "fact")

abbrev pub raw_status : Option String → String
raw_status none = ""
raw_status (some s) = s

unfoldable pub decision_signals : String → List Signal
decision_signals s =
    if s == "BLOCKED"
    then signal "BLOCKED" "BLOCKED_DECISION" "decision" ∷ []
    else if s == "IN_PROGRESS"
    then signal "ACTIVE" "ACTIVE_DECISION" "decision" ∷ []
    else if s == "OPEN"
    then signal "PLANNED" "PLANNED_DECISION" "decision" ∷ []
    else if s == "DONE"
    then signal "DONE" "DONE_DECISION" "decision" ∷ []
    else if s == "CANCELLED"
    then signal "CANCELLED" "CANCELLED_DECISION" "decision" ∷ []
    else []

module _ (u : Unicode) where
  unfoldable pub signals_of_facts : List (Entry Known) → List Signal
  unfolding fact_signals
  signals_of_facts [] = []
  signals_of_facts (f ∷ facts) =
      fact_signals u (text_or_empty f.rest.value) ++ signals_of_facts facts

  unfoldable pub signals_of_decisions : List (Entry (Decision Acting)) → List Signal
  unfolding decision_signals
  signals_of_decisions [] = []
  signals_of_decisions (d ∷ decisions) =
      decision_signals (raw_status d.rest.status) ++ signals_of_decisions decisions

  unfoldable pub collect_status_signals :
      List (Entry Known) → List (Entry (Decision Acting)) → List Signal
  unfolding signals_of_facts signals_of_decisions
  collect_status_signals facts decisions = signals_of_facts facts ++ signals_of_decisions decisions
