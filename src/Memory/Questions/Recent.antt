-- ===== src/Memory/Questions/Recent.antt =====
-- `memory_add_question` of src/phantom_runtime.py keeps the most recent questions.
use phantom_runtime_lite.Prelude.{
  String, Bool, true, false, not, List, [], ◌==◌, ◌≡◌, refl, arith, if◌then◌else◌,
}
use phantom_runtime_lite.Conversation.Text.{Text, Unicode, text_eq, strip}
use phantom_runtime_lite.Memory.Decisions.Recent.{IsRecent, last_entries-IsRecent}
use phantom_runtime_lite.Memory.Questions.{Question, created_with, add_question}

abbrev text_of : Bool → String
text_of b = if b then "ANSWERED" else "OPEN"

status_of : (b : Bool) → text_of (not b) ≡ (if b then "OPEN" else "ANSWERED")
status_of true = refl
status_of false = refl

-- A new question is ANSWERED exactly if its answer is not blank, stands last, and the list is the most
-- recent hundred entries: no entry is dropped while there is room.
pub add_question-IsRecent :
    {B : Type 0} (u : Unicode) (i now : String) (answer : Text) (rest : B)
    (entries : List (Question B))
    → (new : Question B) × ((new.id ≡ i)
        × ((new.status ≡ (if strip u answer == [] then "OPEN" else "ANSWERED"))
            × IsRecent 100 entries (add_question u i now answer rest entries) new))
unfolding add_question
add_question-IsRecent {B = B} u i now answer rest entries =
    let new : Question B = (created_with (not (strip u answer == [])) i now answer rest) in
    (
      new,
      (
        refl,
        (status_of (strip u answer == []), last_entries-IsRecent 100 entries new (omega arith)),
      ),
    )
