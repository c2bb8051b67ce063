-- ===== src/Memory/Answers/Linked.antt =====
-- The answer entries of src/phantom_runtime.py: which questions count as answered, and how the entries
-- are arranged.
use phantom_runtime_lite.Prelude.{
  String, Bool, true, false, not, ◌&&◌, Option, none, some, List, [], ◌∷◌, ◌++◌, ◌==◌, nat_eq,
  string_eq, All, ◌≡◌, refl, arith, Bool-cases, inl, inr,
}
use phantom_runtime_lite.Conversation.Text.{Text, codes}
use phantom_runtime_lite.Memory.Records.{Entry}
use phantom_runtime_lite.Memory.Context.{or_empty}
use phantom_runtime_lite.Memory.Decisions.{Decision}
use phantom_runtime_lite.Memory.Questions.{AnswerLink, Question}
use phantom_runtime_lite.Memory.Answers.{
  Known, Acting, Wording, AnswerEntry, text_before, string_before, question_status, linked_entry,
  make_answer_entry, sort_answer_entries, sort_reverse, keep_if, has_status, asked_before,
  linked_before,
}
use phantom_runtime_lite.Memory.Answers.Ordered.{
  IsDescending, IsOrder, sort_reverse-All, sort_reverse-IsDescending,
}

pub text_before-asym : (s t : Text) → text_before s t ≡ true → text_before t s ≡ false
unfolding text_before
text_before-asym s [] h = absurd (ground (arith, h))
text_before-asym [] (d ∷ t) h = refl
text_before-asym (c ∷ s) (d ∷ t) h = elim (Bool-cases (text_before s t)) [
  | inl less ↦ ground (arith, h, less, text_before-asym s t less)
  | inr more ↦ ground (arith, h, more)
]

text_before_trans :
    (s t u : Text) → text_before s t ≡ false → text_before t u ≡ false → text_before s u ≡ false
unfolding text_before
text_before_trans s t [] h g = refl
text_before_trans s [] (e ∷ u) h g = absurd (ground (arith, g))
text_before_trans [] (d ∷ t) (e ∷ u) h g = absurd (ground (arith, h))
text_before_trans (c ∷ s) (d ∷ t) (e ∷ u) h g = elim (Bool-cases (text_before s t)) [
  | inl less ↦ ground (arith, h, g, less)
  | inr more ↦ elim (Bool-cases (text_before t u)) [
    | inl less ↦ ground (arith, h, g, more, less)
    | inr more' ↦ ground (arith, h, g, more, more', text_before_trans s t u more more')
  ]
]

pub string_before-asym : (a b : String) → string_before a b ≡ true → string_before b a ≡ false
unfolding string_before
string_before-asym a b = text_before-asym (codes a) (codes b)

pub string_before_trans :
    (a b c : String)
    → string_before a b ≡ false
    → string_before b c ≡ false
    → string_before a c ≡ false
unfolding string_before
string_before_trans a b c = text_before_trans (codes a) (codes b) (codes c)

asked-IsOrder : IsOrder asked_before
asked-IsOrder = record {
  asym = λ a b. string_before-asym a.asked_at b.asked_at;
  trans = λ a b c. string_before_trans a.asked_at b.asked_at c.asked_at;
}

linked-IsOrder : IsOrder linked_before
linked-IsOrder = record {
  asym = λ a b. string_before-asym (or_empty a.linked_at) (or_empty b.linked_at);
  trans = λ a b c.
      string_before_trans (or_empty a.linked_at) (or_empty b.linked_at) (or_empty c.linked_at);
}

abbrev pub is_given_link : Option AnswerLink → Bool
is_given_link none = false
is_given_link (some link) = true

-- A question that is answered and has a link, and one that is answered without one.
abbrev pub is_linked : Entry (Question Wording) → Bool
is_linked q = q.rest.status == "ANSWERED" && is_given_link q.rest.answer_link

abbrev pub is_unlinked : Entry (Question Wording) → Bool
is_unlinked q = q.rest.status == "ANSWERED" && not (is_given_link q.rest.answer_link)

-- The status of an entry.
abbrev pub status_if : Bool → String
status_if true = "ANSWERED"
status_if false = "OPEN"

linked_entry-status :
    (facts : List (Entry Known)) (decisions : List (Entry (Decision Acting)))
    (link : Option AnswerLink) (q : Question Wording)
    → (linked_entry facts decisions link q).status
      ≡ status_if (q.status == "ANSWERED" && is_given_link link)
unfolding linked_entry question_status
linked_entry-status facts decisions none q = elim (Bool-cases (q.status == "ANSWERED")) [
  | inl same ↦ rw (same) refl
  | inr other ↦ rw (other) refl
]
linked_entry-status facts decisions (some link) q = ground arith

pub make_answer_entry-status :
    (facts : List (Entry Known)) (decisions : List (Entry (Decision Acting)))
    (q : Entry (Question Wording))
    → (make_answer_entry facts decisions q).status ≡ status_if (is_linked q)
unfolding make_answer_entry
make_answer_entry-status facts decisions q =
    linked_entry-status facts decisions q.rest.answer_link q.rest

-- Open entries first, by the time they were asked, then answered ones, by the time of the link, the
-- newest first.
pub record IsArranged (entries : List AnswerEntry) : Type 0 where
  pub opens : List AnswerEntry
  pub answers : List AnswerEntry
  pub split : entries ≡ opens ++ answers
  pub are_open : All (λ e. e.status ≡ "OPEN") opens
  pub newest_asked : IsDescending asked_before opens
  pub are_answered : All (λ e. e.status ≡ "ANSWERED") answers
  pub newest_linked : IsDescending linked_before answers

kept-status :
    (s : String) (entries : List AnswerEntry)
    → All (λ e. e.status ≡ s) (keep_if (has_status s) entries)
unfolding keep_if
kept-status s [] = tt
kept-status s (e ∷ entries) = elim (Bool-cases (e.status == s)) [
  | inl hit ↦ rw (hit) (ground (arith, hit), kept-status s entries)
  | inr miss ↦ rw (miss) (kept-status s entries)
]

pub sort_answer_entries-IsArranged :
    (entries : List AnswerEntry) → IsArranged (sort_answer_entries entries)
unfolding sort_answer_entries
sort_answer_entries-IsArranged entries =
    let opens = keep_if (has_status "OPEN") entries in
    let answers = keep_if (has_status "ANSWERED") entries in
    record {
      opens = sort_reverse asked_before opens;
      answers = sort_reverse linked_before answers;
      split = refl;
      are_open =
          sort_reverse-All asked_before (λ e. e.status ≡ "OPEN") opens (kept-status "OPEN" entries);
      newest_asked = sort_reverse-IsDescending asked_before asked-IsOrder opens;
      are_answered =
          sort_reverse-All linked_before (λ e. e.status ≡ "ANSWERED") answers
            (kept-status "ANSWERED" entries);
      newest_linked = sort_reverse-IsDescending linked_before linked-IsOrder answers;
    }
