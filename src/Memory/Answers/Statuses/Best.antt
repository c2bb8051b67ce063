-- ===== src/Memory/Answers/Statuses/Best.antt =====
-- The status that src/phantom_runtime.py chooses among the signals of a subject.
use phantom_runtime_lite.Prelude.{
  ℕ, ◌+◌, ◌*◌, ◌≤◌, min, String, Bool, true, ◌||◌, List, [], ◌∷◌, ◌==◌, map, contains, length, ltb,
  All, nat_eq, string_eq, if◌then◌else◌, ◌≡◌, arith, Bool-cases, inl, inr,
}
use phantom_runtime_lite.Conversation.Text.{Text}
use phantom_runtime_lite.Memory.Lifecycle.{Stage, active}
use phantom_runtime_lite.Memory.Answers.{keep_if}
use phantom_runtime_lite.Memory.Answers.Contexts.{AnswerContext, same_stage}
use phantom_runtime_lite.Memory.Answers.Statuses.{Signal, status_priority}

-- `list(dict.fromkeys(xs))`, with the keys that are there already
unfoldable pub fromkeys : List String → List String → List String
fromkeys seen [] = []
fromkeys seen (x ∷ xs) =
    let old = fromkeys seen xs in
    let new = fromkeys (x ∷ seen) xs in if contains seen x then old else x ∷ new

-- `max(signals, key=...)` of a list with this first signal
unfoldable pub best_from : Signal → List Signal → Signal
best_from best [] = best
best_from best (s ∷ signals) =
    best_from (if ltb (status_priority best.status) (status_priority s.status) then s else best)
      signals

pub record StatusEntry : Type 0 where
  pub subject_id : String
  pub subject_name : Text
  pub lifecycle : Stage
  pub status : String
  pub confidence : ℕ
  pub evidence_count : ℕ
  pub matched_rules : List String
  pub source_types : List String

unfoldable pub build_status_entry : AnswerContext → List Signal → StatusEntry
unfolding best_from fromkeys keep_if same_stage
build_status_entry context [] = record {
  subject_id = context.subject_id;
  subject_name = context.subject_name;
  lifecycle = context.lifecycle;
  status = if same_stage context.lifecycle active then "ACTIVE" else "UNKNOWN";
  confidence = 0;
  evidence_count = 0;
  matched_rules = [];
  source_types = [];
}
build_status_entry context (s ∷ signals) =
    let best_status = (best_from s signals).status in
    let best_signals = keep_if (λ t. t.status == best_status) (s ∷ signals) in
    let rules = fromkeys [] (map (λ t. t.rule) best_signals) in
    record {
      subject_id = context.subject_id;
      subject_name = context.subject_name;
      lifecycle = context.lifecycle;
      status = best_status;
      confidence = min (30 + 13 * length rules) 95;
      evidence_count = length rules;
      matched_rules = rules;
      source_types = fromkeys [] (map (λ t. t.source) best_signals);
    }

-- The status is among theirs, and none of theirs has a higher priority.
pub record IsBest (signals : List Signal) (best : String) : Type 0 where
  pub found : contains (map (λ s. s.status) signals) best ≡ true
  pub highest : All (λ s. status_priority s.status ≤ status_priority best) signals

found_later : (a b c : Bool) → (b || c) ≡ true → (a || (b || c)) ≡ true
found_later a b c h = ground (arith, h)

found_between : (a b c : Bool) → (a || c) ≡ true → (a || (b || c)) ≡ true
found_between a b c h = ground (arith, h)

-- A signal that another one is as good as may be added before it or behind it.
IsBest-before :
    (best s : Signal) (signals : List Signal) (w : String)
    → status_priority best.status ≤ status_priority s.status
    → IsBest (s ∷ signals) w
    → IsBest (best ∷ s ∷ signals) w
IsBest-before best s signals w less h = record {
  found =
      found_later (w == best.status) (w == s.status) (contains (map (λ t. t.status) signals) w)
        (h.found);
  highest = (omega (arith, less, h.highest.0), h.highest);
}

IsBest-between :
    (best s : Signal) (signals : List Signal) (w : String)
    → status_priority s.status ≤ status_priority best.status
    → IsBest (best ∷ signals) w
    → IsBest (best ∷ s ∷ signals) w
IsBest-between best s signals w less h = record {
  found =
      found_between (w == best.status) (w == s.status) (contains (map (λ t. t.status) signals) w)
        (h.found);
  highest = (h.highest.0, (omega (arith, less, h.highest.0), h.highest.1));
}

best_from-IsBest :
    (best : Signal) (signals : List Signal)
    → IsBest (best ∷ signals) (best_from best signals).status
unfolding best_from
best_from-IsBest best [] = record { found = ground arith; highest = (omega arith, tt) }
best_from-IsBest best (s ∷ signals) =
    elim (Bool-cases (ltb (status_priority best.status) (status_priority s.status))) [
      | inl less ↦
          rw (less, best_from)
            (IsBest-before best s signals (best_from s signals).status (ground (arith, less))
              (best_from-IsBest s signals))
      | inr more ↦
          rw (more, best_from)
            (IsBest-between best s signals (best_from best signals).status (ground (arith, more))
              (best_from-IsBest best signals))
    ]

-- The status of a subject that has signals is one of theirs, and no signal has one of higher priority.
pub build_status_entry-IsBest :
    (context : AnswerContext) (s : Signal) (signals : List Signal)
    → IsBest (s ∷ signals) (build_status_entry context (s ∷ signals)).status
unfolding build_status_entry
build_status_entry-IsBest context s signals = best_from-IsBest s signals
