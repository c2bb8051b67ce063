-- ===== src/Tests/Keeping.antt =====
-- Questions and decisions of src/phantom_runtime.py.
use phantom_runtime_lite.Prelude.{
  ℕ, String, true, none, some, List, [], ◌∷◌, ◌≡◌, refl, leb, ◌==◌, nat_eq, string_eq, contains,
  All,
}
use phantom_runtime_lite.Conversation.Text.{
  Text, codes, Unicode, text_eq, strip_by, drop_while, drop_end, keep_end,
}
use phantom_runtime_lite.Memory.Decisions.{
  Decision, decision_valid_statuses, terminal_statuses, decision_status, key_of,
}
use phantom_runtime_lite.Memory.Decisions.Statuses.{last_with}
use phantom_runtime_lite.Memory.Decisions.Writers.{
  Write, transition, mark_done, set_status, create, IsLogged, write_all, write_all-IsLogged,
}
use phantom_runtime_lite.Memory.Questions.{Question}
use phantom_runtime_lite.Memory.Questions.Answers.{find_question}

abbrev ascii : Unicode
ascii = record { is_space = λ c. c == 32; is_alpha = λ c. leb 65 c; lower = λ t. t }

abbrev decision_in : String → Decision ℕ
decision_in status = record {
  id = "d1";
  decision = codes "buy";
  status = some status;
  status_history = record { source = none; target = status; at = "t" } ∷ [];
  resolved_by_fact = none;
  history = [];
  rest = 0;
}

abbrev writes : List (Write ℕ)
writes =
    create "d2" "t0" (codes "sell") 0
    ∷ transition (some "BLOCKED") "t1"
    ∷ mark_done "d1" "f1" "t2"
    ∷ set_status (codes "sell") "CANCELLED"
    ∷ []

open-IsLogged : IsLogged (decision_in "OPEN")
unfolding string_eq
open-IsLogged = record { status = refl; items = (refl, tt) }

write_all-IsLogged_example : All IsLogged (write_all ascii writes (decision_in "OPEN" ∷ []))
write_all-IsLogged_example =
    write_all-IsLogged ascii writes (decision_in "OPEN" ∷ []) (open-IsLogged, tt)

cancelled : contains terminal_statuses (decision_status (some "CANCELLED")) ≡ true
unfolding decision_status string_eq
cancelled = refl

abbrev decisions : List (Decision ℕ)
decisions = decision_in "DONE" ∷ []

abbrev buy : Text
buy = codes "buy"

open_is_valid : contains decision_valid_statuses "OPEN" ≡ true
unfolding string_eq
open_is_valid = refl

found_done : last_with ascii (key_of ascii buy) decisions ≡ some (decision_in "DONE")
unfolding last_with strip_by drop_while drop_end keep_end nat_eq text_eq
found_done = refl

abbrev question_in : String → Question ℕ
question_in status = record {
  id = "q1";
  answer = some (codes "yes");
  status = status;
  status_history = [];
  resolved_by_fact = none;
  resolved_by_decision = none;
  answered_at = none;
  updated_at = "t";
  resolution_source = none;
  answer_link = none;
  history = [];
  rest = 0;
}

abbrev questions : List (Question ℕ)
questions = question_in "ANSWERED" ∷ question_in "OPEN" ∷ []

abbrev first_question : String
first_question = "q1"

found_question : find_question first_question questions ≡ some (question_in "ANSWERED")
unfolding find_question string_eq
found_question = refl
