-- ===== src/Memory/Questions/Answers.antt =====
-- Questions of src/phantom_runtime.py that have their answer.
use phantom_runtime_lite.Prelude.{
  suc, String, Bool, true, false, ◌||◌, Option, none, some, List, [], ◌∷◌, ◌++◌, ◌==◌, string_eq,
  if◌then◌else◌, ◌≡◌, ◌≢◌, refl, sym, ap, ◌∙◌, arith, Bool-cases, Option-cases, inl, inr, length,
  length-append,
}
use mathlib.Core.Option.{some-injective}
use phantom_runtime_lite.Conversation.Text.{Text, Unicode, text_eq}
use phantom_runtime_lite.Memory.Decisions.{StatusChange}
use phantom_runtime_lite.Memory.Questions.{
  Question, AnswerLink, question_can_transition, answered, with_fact, answer_by_fact,
  answer_by_decision, direct_answer, answer_with, on_question, mark_answered,
  mark_answered_by_decision, mark_answered_by_answer, or_none,
}

is_answered : (s : String) → s ≡ "ANSWERED" → (s == "ANSWERED") ≡ true
is_answered s h = ground arith

may_answer_again : (s : String) → s ≡ "ANSWERED" → question_can_transition s "ANSWERED" ≡ true
unfolding question_can_transition
may_answer_again s h = rw (is_answered s h) refl

longer : (xs : List StatusChange) (c : StatusChange) → length (xs ++ (c ∷ [])) ≡ suc (length xs)
longer xs c = omega (arith, length-append xs (c ∷ []))

no_empty : (s : String) → s ≢ "" → (s == "") ≡ false
no_empty s h = ground arith

module _ {B : Type 0} where
  -- A question that has its answer is left as it is.
  abbrev Keeps : (Question B → Option (Question B × Bool)) → Type 0
  Keeps f =
      (q : Question B)
      → q.status ≡ "ANSWERED"
      → (r : Question B) (done : Bool) → f q ≡ some (r, done)
      → r ≡ q

  -- Every answered question of the one list stands unchanged at its place in the other.
  abbrev pub AnsweredKept : List (Question B) → List (Question B) → Type 0
  AnsweredKept [] [] = Unit
  AnsweredKept (q ∷ before) (r ∷ after) =
      (q.status ≡ "ANSWERED" → r ≡ q) × AnsweredKept before after
  AnsweredKept _ _ = ⊥

  same-AnsweredKept : (entries : List (Question B)) → AnsweredKept entries entries
  same-AnsweredKept [] = tt
  same-AnsweredKept (q ∷ entries) = ((λ _. refl), same-AnsweredKept entries)

  on_question-AnsweredKept :
      (i : String) (f : Question B → Option (Question B × Bool)) (entries : List (Question B))
      → Keeps f
      → AnsweredKept entries ((on_question i f entries).0)
  unfolding on_question
  on_question-AnsweredKept i f [] k = tt
  on_question-AnsweredKept i f (q ∷ entries) k =
      let rest = on_question-AnsweredKept i f entries k in
      elim (Bool-cases (q.id == i)) [
        | inl hit ↦ elim (Option-cases (f q)) [
          | inl nothing ↦ rw (hit, nothing) ((λ _. refl), rest)
          | inr ((r, done), found) ↦
              rw (hit, found) ((λ a. k q a r done found), same-AnsweredKept entries)
        ]
        | inr miss ↦ rw (miss) ((λ _. refl), rest)
      ]

  if_AnsweredKept :
      (b : Bool) (entries : List (Question B)) (done : List (Question B) × Bool)
      → AnsweredKept entries (done.0)
      → AnsweredKept entries ((if b then (entries, false) else done).0)
  if_AnsweredKept true entries done k = same-AnsweredKept entries
  if_AnsweredKept false entries done k = k

  answer_by_decision-Keeps : (decision now : String) → Keeps (answer_by_decision decision now)
  unfolding answer_by_decision
  answer_by_decision-Keeps decision now q a r done found =
      let known : (q.status == "ANSWERED") ≡ true = (is_answered q.status a) in
      let same : (q, true) ≡ (r, done) =
        (some-injective (q, true) (r, done) (sym (rw (known) refl) ∙ found)) in
      ap (λ p. p.0) (sym same)

  answer_with_keeps :
      (o : Option Text) (now : String) (q : Question B)
      → q.status ≡ "ANSWERED"
      → (r : Question B) (done : Bool) → answer_with o now q ≡ some (r, done)
      → r ≡ q
  answer_with_keeps none now q a r done found =
      ap (λ p. p.0) (sym (some-injective (q, false) (r, done) found))
  answer_with_keeps (some text) now q a r done found =
      let known : (q.status == "ANSWERED") ≡ true = (is_answered q.status a) in
      let same : (q, true) ≡ (r, done) =
        (some-injective (q, true) (r, done) (sym (rw (known) refl) ∙ found)) in
      ap (λ p. p.0) (sym same)

  answer_with-Keeps :
      (u : Unicode) (now : String) → Keeps (λ q. answer_with (direct_answer u q.answer) now q)
  answer_with-Keeps u now q a r done found =
      answer_with_keeps (direct_answer u q.answer) now q a r done found

  -- A decision, and an answer in the record, leave every question that has its answer as it is.
  pub mark_answered-AnsweredKept :
      (u : Unicode) (i decision now : String) (entries : List (Question B))
      → AnsweredKept entries (mark_answered_by_decision i decision now entries).0
        × AnsweredKept entries (mark_answered_by_answer u i now entries).0
  unfolding mark_answered_by_decision mark_answered_by_answer
  mark_answered-AnsweredKept u i decision now entries = (
    if_AnsweredKept (i == "" || decision == "") entries
        (on_question i (answer_by_decision decision now) entries)
        (on_question-AnsweredKept i (answer_by_decision decision now) entries
          (answer_by_decision-Keeps decision now)),
    if_AnsweredKept (i == "") entries
        (on_question i (λ q. answer_with (direct_answer u q.answer) now q) entries)
        (on_question-AnsweredKept i (λ q. answer_with (direct_answer u q.answer) now q) entries
          (answer_with-Keeps u now)),
  )

  -- The first question with the id.
  unfoldable pub find_question : String → List (Question B) → Option (Question B)
  find_question i [] = none
  find_question i (q ∷ entries) =
      let later = find_question i entries in if q.id == i then some q else later

  find-on_question :
      (i : String) (f : Question B → Option (Question B × Bool)) (entries : List (Question B))
      (q r : Question B) (done : Bool)
      → find_question i entries ≡ some q
      → f q ≡ some (r, done)
      → r.id ≡ q.id
      → find_question i ((on_question i f entries).0) ≡ some r
  unfolding find_question on_question
  find-on_question i f [] q r done found e same_id = absurd (cc)
  find-on_question i f (x ∷ entries) q r done found e same_id = elim (Bool-cases (x.id == i)) [
    | inl hit ↦
        let same : x ≡ q = (some-injective x q (sym (rw (hit) refl) ∙ found)) in
        let fx : f x ≡ some (r, done) = (ap f same ∙ e) in
        let kept : (r.id == i) ≡ true = (rw (same_id ∙ ap (λ y. y.id) (sym same)) hit) in
        rw (hit, fx, kept) refl
    | inr miss ↦
        let deeper : find_question i entries ≡ some q = (sym (rw (miss) refl) ∙ found) in
        rw (miss, miss) (find-on_question i f entries q r done deeper e same_id)
  ]

  -- A fact answers an answered question again: the source of its answer becomes the fact, the time of
  -- the answer is replaced, and the status history gets one more item.
  pub mark_answered-again :
      (i fact now : String) (text : Text) (entries : List (Question B)) (q : Question B)
      → i ≢ ""
      → fact ≢ ""
      → find_question i entries ≡ some q
      → q.status ≡ "ANSWERED"
      → (r : Question B) × ((find_question i ((mark_answered i fact text now entries).0) ≡ some r)
          × ((r.resolution_source ≡ some "fact")
              × ((r.answered_at ≡ some now)
                  × (length r.status_history ≡ suc (length q.status_history)))))
  unfolding mark_answered find_question
  mark_answered-again i fact now text entries q full full' found a =
      let link : AnswerLink = (record {
        source_type = "fact";
        source_id = some fact;
        answer_text = or_none text;
        linked_at = now;
      }) in
      let r : Question B = (with_fact fact now (answered "fact" link now q)) in
      let done : answer_by_fact fact text now q ≡ some (r, true) =
        (unfold answer_by_fact in rw (may_answer_again q.status a) refl) in
      let again =
        find-on_question i (answer_by_fact fact text now) entries q r true found done refl in
      (
        r,
        (
          rw (no_empty i full, no_empty fact full') again,
          (
            refl,
            (
              refl,
              longer q.status_history
                  (record { source = some q.status; target = "ANSWERED"; at = now }),
            ),
          ),
        ),
      )
