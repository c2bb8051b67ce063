-- ===== src/Memory/Decisions.antt =====
-- src/phantom_runtime.py: the statuses of decisions: `_decision_can_transition`,
-- `_decision_update_status`, `_memory_apply_status_transition`, `_decision_mark_done`,
-- `memory_update_decision_status` and `memory_add_decision`, whose subject and owner are looked up
-- before.
pub mod Statuses
pub mod Writers
pub mod Recent
use phantom_runtime_lite.Prelude.{
  ℕ, suc, ◌-◌, String, Bool, true, false, not, ◌&&◌, ◌||◌, Option, none, some, List, [], ◌∷◌, ◌++◌,
  ◌==◌, contains, length, ltb, drop, string_eq, if◌then◌else◌,
}
use phantom_runtime_lite.Conversation.Text.{Text, Unicode, text_eq, strip}

-- An item of a `status_history`.
pub record StatusChange : Type 0 where
  pub source : Option String
  pub target : String
  pub at : String

-- An item of a decision's `history`: the old status and the time.
pub record Resolution : Type 0 where
  pub old_value : String
  pub at : String

-- The fields that change, and the others.
pub record Decision (B : Type 0) : Type 0 where
  pub id : String
  pub decision : Text
  pub status : Option String
  pub status_history : List StatusChange
  pub resolved_by_fact : Option String
  pub history : List Resolution
  pub rest : B

abbrev pub decision_valid_statuses : List String
decision_valid_statuses = "OPEN" ∷ "IN_PROGRESS" ∷ "BLOCKED" ∷ "DONE" ∷ "CANCELLED" ∷ []

abbrev pub terminal_statuses : List String
terminal_statuses = "DONE" ∷ "CANCELLED" ∷ []

unfoldable pub decision_can_transition : String → String → Bool
decision_can_transition current new =
    contains decision_valid_statuses current
    && not (contains terminal_statuses current)
    && contains decision_valid_statuses new

abbrev pub or_open : Option String → String
or_open none = "OPEN"
or_open (some s) = s

-- `_decision_status` of an entry with this status field.
unfoldable pub decision_status : Option String → String
decision_status s = if contains decision_valid_statuses (or_open s) then or_open s else "OPEN"

abbrev pub max_decisions : ℕ
max_decisions = 100

-- `entries[-n:]` where there are more than n.
unfoldable pub last_entries {ℓ} : {A : Type ℓ} → ℕ → List A → List A
last_entries n entries =
    if ltb n (length entries) then drop (length entries - n) entries else entries

abbrev pub key_of : Unicode → Text → Text
key_of u text = strip u (u.lower text)

module _ {B : Type 0} where
  -- `_decision_update_status`; `now` is the clock.
  unfoldable pub decision_update_status : String → String → Decision B → Decision B × Bool
  unfolding decision_status decision_can_transition
  decision_update_status new now d =
      let current = decision_status d.status in
      let change : StatusChange = record { source = some current; target = new; at = now } in
      if not (current == new) && decision_can_transition current new
      then (
        record d { status = some new; status_history = d.status_history ++ (change ∷ []) },
        true,
      )
      else (d, false)

  abbrev pub done_by : String → String → Decision B → Decision B
  done_by fact now d =
      let item : Resolution = record { old_value = or_open d.status; at = now } in
      record d {
        status = some "DONE";
        resolved_by_fact = some fact;
        history = d.history ++ (item ∷ []);
      }

  -- The loop of `_decision_mark_done`.
  unfoldable pub mark_first_done :
      String → String → String → List (Decision B) → List (Decision B) × Bool
  mark_first_done i fact now [] = ([], false)
  mark_first_done i fact now (d ∷ entries) =
      let tail = mark_first_done i fact now entries in
      if d.id == i then (done_by fact now d ∷ entries, true) else (d ∷ tail.0, tail.1)

  unfoldable pub decision_mark_done :
      String → String → String → List (Decision B) → List (Decision B) × Bool
  unfolding mark_first_done
  decision_mark_done i fact now entries =
      if i == "" || fact == "" then (entries, false) else mark_first_done i fact now entries

  abbrev pub given : String → Decision B → Decision B
  given status d = record d { status = some status }

  -- The most recent entry with the text is given the status; the flag says whether there was one.
  unfoldable pub update_last :
      Unicode → Text → String → List (Decision B) → List (Decision B) × Bool
  update_last u key status [] = ([], false)
  update_last u key status (d ∷ entries) =
      let tail = update_last u key status entries in
      if tail.1
      then (d ∷ tail.0, true)
      else if key_of u d.decision == key
      then (given status d ∷ entries, true)
      else (d ∷ entries, false)

  unfoldable pub update_decision_status :
      Unicode → Text → String → List (Decision B) → List (Decision B)
  unfolding update_last
  update_decision_status u text status entries =
      if contains decision_valid_statuses status
      then (update_last u (key_of u text) status entries).0
      else entries

  unfoldable pub add_decision : String → String → Text → B → List (Decision B) → List (Decision B)
  unfolding last_entries
  add_decision i now text rest entries =
      let created : StatusChange = record { source = none; target = "OPEN"; at = now } in
      let new : Decision B = record {
        id = i;
        decision = text;
        status = some "OPEN";
        status_history = created ∷ [];
        resolved_by_fact = none;
        history = [];
        rest = rest;
      } in
      last_entries max_decisions (entries ++ (new ∷ []))

  -- The loop of `_memory_apply_status_transition`, with the number of decisions updated.
  unfoldable pub transition_open : String → String → List (Decision B) → List (Decision B) × ℕ
  unfolding decision_update_status decision_status
  transition_open new now [] = ([], 0)
  transition_open new now (d ∷ entries) =
      let (rest, updated) = transition_open new now entries in
      let (d', changed) = decision_update_status new now d in
      if decision_status d.status == "OPEN"
      then (d' ∷ rest, if changed then suc updated else updated)
      else (d ∷ rest, updated)

  -- `transition` is what `_memory_detect_status_transitions` finds in the text.
  unfoldable pub apply_status_transition :
      Option String → String → List (Decision B) → List (Decision B) × ℕ
  unfolding transition_open
  apply_status_transition none now entries = (entries, 0)
  apply_status_transition (some transition) now entries = transition_open transition now entries
