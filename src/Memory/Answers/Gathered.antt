-- ===== src/Memory/Answers/Gathered.antt =====
-- What an answer context of src/phantom_runtime.py holds, and how its counts go with those of the
-- subject's lifecycle.
use phantom_runtime_lite.Prelude.{
  ℕ, suc, ◌+◌, String, Bool, true, false, not, ◌&&◌, Option, List, [], ◌∷◌, ◌==◌, map, string_eq,
  if◌then◌else◌, All, ◌≡◌, refl, sym, ap, ap₂, ◌∙◌, arith,
}
use phantom_runtime_lite.Conversation.Text.{Text, text_eq}
use phantom_runtime_lite.Memory.Records.{Entry}
use phantom_runtime_lite.Memory.Decisions.{Decision}
use phantom_runtime_lite.Memory.Questions.{Question, created_with}
use phantom_runtime_lite.Memory.Lifecycle.{count_if, is_pending, pending_questions}
use phantom_runtime_lite.Memory.Links.{question_is_resolved}
use phantom_runtime_lite.Memory.Answers.{
  Known, Acting, Wording, AnswerEntry, make_answer_entry, sort_answer_entries, sort_reverse,
  keep_if, has_status, asked_before, linked_before,
}
use phantom_runtime_lite.Memory.Answers.Ordered.{count_if-append, count_if-sort_reverse}
use phantom_runtime_lite.Memory.Answers.Linked.{
  status_if, is_linked, is_unlinked, is_given_link, make_answer_entry-status, IsArranged,
  sort_answer_entries-IsArranged,
}
use phantom_runtime_lite.Memory.Answers.Contexts.{Records, context_from_bucket}

abbrev HasStatus : AnswerEntry → Type 0
HasStatus e = (answered : Bool) × (e.status ≡ status_if answered)

is_open_text : (b : Bool) → (status_if b == "OPEN") ≡ not b
unfolding string_eq
is_open_text true = refl
is_open_text false = refl

is_answered_text : (b : Bool) → (status_if b == "ANSWERED") ≡ b
unfolding string_eq
is_answered_text true = refl
is_answered_text false = refl

has_status_if :
    (s : String) (e : AnswerEntry) (b answered : Bool)
    → (status_if answered == s) ≡ b
    → e.status ≡ status_if answered
    → has_status s e ≡ b
has_status_if s e b answered test status = ap (λ t. t == s) status ∙ test

added_left : (c : Bool) (n m : ℕ) → (if c then suc n else n) + m ≡ (if c then 1 else 0) + (n + m)
added_left c n m = ground arith

added_right : (c : Bool) (n m : ℕ) → n + (if c then suc m else m) ≡ (if c then 1 else 0) + (n + m)
added_right c n m = ground arith

-- An entry of either status is kept in exactly one of the two lists.
kept_once :
    (p : AnswerEntry → Bool) (e : AnswerEntry) (entries : List AnswerEntry) (answered : Bool)
    → e.status ≡ status_if answered
    → count_if p (keep_if (has_status "OPEN") (e ∷ entries))
        + count_if p (keep_if (has_status "ANSWERED") (e ∷ entries))
      ≡ count_if p (e ∷ [])
        + (count_if p (keep_if (has_status "OPEN") entries)
            + count_if p (keep_if (has_status "ANSWERED") entries))
unfolding keep_if count_if
kept_once p e entries true status =
    rw (has_status_if "OPEN" e false true (is_open_text true) status) (
      rw (has_status_if "ANSWERED" e true true (is_answered_text true) status) (
        added_right (p e) (count_if p (keep_if (has_status "OPEN") entries))
          (count_if p (keep_if (has_status "ANSWERED") entries))))
kept_once p e entries false status =
    rw (has_status_if "OPEN" e true false (is_open_text false) status) (
      rw (has_status_if "ANSWERED" e false false (is_answered_text false) status) (
        added_left (p e) (count_if p (keep_if (has_status "OPEN") entries))
          (count_if p (keep_if (has_status "ANSWERED") entries))))

count_if-kept :
    (p : AnswerEntry → Bool) (entries : List AnswerEntry)
    → All HasStatus entries
    → count_if p (keep_if (has_status "OPEN") entries)
        + count_if p (keep_if (has_status "ANSWERED") entries)
      ≡ count_if p entries
unfolding count_if keep_if
count_if-kept p [] h = omega arith
count_if-kept p (e ∷ entries) h =
    kept_once p e entries (h.0.0) (h.0.1)
    ∙ ap (λ n. count_if p (e ∷ []) + n) (count_if-kept p entries (h.1))
    ∙ sym (count_if-append p (e ∷ []) entries)

count_if-sort_answer_entries :
    (p : AnswerEntry → Bool) (entries : List AnswerEntry)
    → All HasStatus entries
    → count_if p (sort_answer_entries entries) ≡ count_if p entries
unfolding sort_answer_entries
count_if-sort_answer_entries p entries h =
    count_if-append p (sort_reverse asked_before (keep_if (has_status "OPEN") entries))
      (sort_reverse linked_before (keep_if (has_status "ANSWERED") entries))
    ∙ ap₂ (λ n k. n + k)
        (count_if-sort_reverse asked_before p (keep_if (has_status "OPEN") entries))
        (count_if-sort_reverse linked_before p (keep_if (has_status "ANSWERED") entries))
    ∙ count_if-kept p entries h

open_step :
    (a given : Bool) (n k m : ℕ)
    → n ≡ k + m
    → (if not (a && given) then suc n else n)
      ≡ (if not a then suc k else k) + (if a && not given then suc m else m)
open_step true true n k m h = h
open_step true false n k m h = omega (arith, h)
open_step false given n k m h = omega (arith, h)

module _ (facts : List (Entry Known)) (decisions : List (Entry (Decision Acting))) where
  made-HasStatus :
      (qs : List (Entry (Question Wording)))
      → All HasStatus (map (make_answer_entry facts decisions) qs)
  made-HasStatus [] = tt
  made-HasStatus (q ∷ qs) =
      ((is_linked q, make_answer_entry-status facts decisions q), made-HasStatus qs)

  open_made :
      (q : Entry (Question Wording))
      → has_status "OPEN" (make_answer_entry facts decisions q) ≡ not (is_linked q)
  open_made q =
      ap (λ s. s == "OPEN") (make_answer_entry-status facts decisions q)
      ∙ is_open_text (is_linked q)

  answered_made :
      (q : Entry (Question Wording))
      → has_status "ANSWERED" (make_answer_entry facts decisions q) ≡ is_linked q
  answered_made q =
      ap (λ s. s == "ANSWERED") (make_answer_entry-status facts decisions q)
      ∙ is_answered_text (is_linked q)

  open_count :
      (qs : List (Entry (Question Wording)))
      → count_if (has_status "OPEN") (map (make_answer_entry facts decisions) qs)
        ≡ count_if is_pending qs + count_if is_unlinked qs
  unfolding count_if question_is_resolved
  open_count [] = omega arith
  open_count (q ∷ qs) = rw (open_made q) (
      open_step (q.rest.status == "ANSWERED") (is_given_link q.rest.answer_link)
        (count_if (has_status "OPEN") (map (make_answer_entry facts decisions) qs))
        (count_if is_pending qs) (count_if is_unlinked qs) (open_count qs))

  answered_count :
      (qs : List (Entry (Question Wording)))
      → count_if (has_status "ANSWERED") (map (make_answer_entry facts decisions) qs)
        ≡ count_if is_linked qs
  unfolding count_if
  answered_count [] = refl
  answered_count (q ∷ qs) =
      rw (answered_made q) (ap (λ n. if is_linked q then suc n else n) (answered_count qs))

-- A context has one entry for each question of the bucket, as it was made: the open ones first, the
-- last asked first, then the answered ones, the last linked first.
pub context_from_bucket-IsArranged :
    (mentions : String → ℕ) (i : String) (b : Records)
    → IsArranged (context_from_bucket mentions i b).answer_entries
      × ((p : AnswerEntry → Bool)
          → count_if p (context_from_bucket mentions i b).answer_entries
            ≡ count_if p (map (make_answer_entry b.facts b.decisions) b.questions))
unfolding context_from_bucket
context_from_bucket-IsArranged mentions i b =
    let made = map (make_answer_entry b.facts b.decisions) b.questions in
    (
      sort_answer_entries-IsArranged made,
      λ p. count_if-sort_answer_entries p made (made-HasStatus b.facts b.decisions b.questions),
    )

-- A context counts as answered exactly the ANSWERED questions with a link. As open it counts, besides
-- the questions that keep the subject active, those that are ANSWERED without a link.
pub open_question_count_lem :
    (mentions : String → ℕ) (i : String) (b : Records)
    → ((context_from_bucket mentions i b).answered_question_count ≡ count_if is_linked b.questions)
      × ((context_from_bucket mentions i b).open_question_count
          ≡ pending_questions b + count_if is_unlinked b.questions)
unfolding context_from_bucket pending_questions
open_question_count_lem mentions i b =
    let made = map (make_answer_entry b.facts b.decisions) b.questions in
    let statuses = made-HasStatus b.facts b.decisions b.questions in
    (
      count_if-sort_answer_entries (has_status "ANSWERED") made statuses
          ∙ answered_count b.facts b.decisions b.questions,
      count_if-sort_answer_entries (has_status "OPEN") made statuses
          ∙ open_count b.facts b.decisions b.questions,
    )

-- A question that is stored with its answer is ANSWERED, and its entry is nevertheless OPEN.
pub created-unlinked :
    (facts : List (Entry Known)) (decisions : List (Entry (Decision Acting))) (i now : String)
    (answer : Text) (rest : Wording) (subject : Option String)
    → let q : Entry (Question Wording) = (record {
      subject_id = subject;
      rest = created_with true i now answer rest;
    }) in
      (question_is_resolved q.rest ≡ true) × ((make_answer_entry facts decisions q).status ≡ "OPEN")
unfolding question_is_resolved string_eq
created-unlinked facts decisions i now answer rest subject = (
  refl,
  make_answer_entry-status facts decisions
      (record { subject_id = subject; rest = created_with true i now answer rest }),
)
