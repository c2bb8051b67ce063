-- ===== src/Memory/Migration/Migrated.antt =====
-- What loading makes of the question records of src/phantom_runtime.py.
use phantom_runtime_lite.Prelude.{
  String, Bool, true, false, ◌||◌, Option, none, some, List, [], ◌∷◌, string_eq, if◌then◌else◌, ◌≡◌,
  refl, ap, ap₂, ◌∙◌, Bool-cases, inl, inr,
}
use phantom_runtime_lite.Conversation.Text.{Unicode}
use phantom_runtime_lite.Memory.Registry.{truthy}
use phantom_runtime_lite.Memory.Questions.{AnswerLink}
use phantom_runtime_lite.Memory.Migration.{
  Stored, is_present, is_answer, migrate_cluster, source_of, with_status, migrate_status, link_from,
  migrate_answer_link, migrate_question, question_load,
}

abbrev pub is_linked : Option (Option AnswerLink) → Bool
is_linked none = false
is_linked (some link) = is_present link

module _ {B : Type 0} where
  -- Every key that loading looks for is there.
  abbrev pub IsCurrent : Stored B → Type 0
  IsCurrent e =
      (is_present e.cluster ≡ true)
      × ((is_present e.status ≡ true) × (is_present e.answer_link ≡ true))

  current_unchanged :
      (u : Unicode) (now : String) (e : Stored B)
      → IsCurrent e
      → migrate_question u now e ≡ (e, false)
  unfolding migrate_question migrate_cluster migrate_status migrate_answer_link
  current_unchanged u now e (c, (s, l)) = rw (c, s, l) refl

  cluster_there : (e : Stored B) → is_present (migrate_cluster e).0.cluster ≡ true
  unfolding migrate_cluster
  cluster_there e = elim (Bool-cases (is_present e.cluster)) [
    | inl there ↦ rw (there) there
    | inr missing ↦ rw (missing) refl
  ]

  status_there :
      (u : Unicode) (now : String) (e : Stored B)
      → is_present e.cluster ≡ true
      → (is_present (migrate_status u now e).0.cluster ≡ true)
        × (is_present (migrate_status u now e).0.status ≡ true)
  unfolding migrate_status with_status
  status_there u now e c = elim (Bool-cases (is_present e.status)) [
    | inl there ↦ rw (there) (c, there)
    | inr missing ↦ rw (missing) (c, refl)
  ]

  link_there :
      (now : String) (e : Stored B)
      → is_present e.cluster ≡ true
      → is_present e.status ≡ true
      → IsCurrent (migrate_answer_link now e).0
  unfolding migrate_answer_link
  link_there now e c s = elim (Bool-cases (is_present e.answer_link)) [
    | inl there ↦ rw (there) (c, (s, there))
    | inr missing ↦ rw (missing) (c, (s, refl))
  ]

  migrate-IsCurrent :
      (u : Unicode) (now : String) (e : Stored B) → IsCurrent (migrate_question u now e).0
  unfolding migrate_question
  migrate-IsCurrent u now e =
      let e1 = (migrate_cluster e).0 in
      let (c, s) = status_there u now e1 (cluster_there e) in
      link_there now (migrate_status u now e1).0 c s

  -- Loading is done once: what it has brought up to date it leaves alone the next time, and does not
  -- save again.
  pub question_load_idem :
      (u : Unicode) (now later : String) (entries : List (Stored B))
      → question_load u later (question_load u now entries).0
        ≡ ((question_load u now entries).0, false)
  unfolding question_load
  question_load_idem u now later [] = refl
  question_load_idem u now later (e ∷ entries) =
      let rest = question_load_idem u now later entries in
      let here =
        current_unchanged u later (migrate_question u now e).0 (migrate-IsCurrent u now e) in
      ap₂ (λ m r. (m.0 ∷ r.0, m.1 || r.1)) here rest

  source-linked :
      (u : Unicode) (now : String) (e later : Stored B)
      → is_present (link_from (source_of u e) now later) ≡ is_present (source_of u e)
  unfolding source_of link_from string_eq
  source-linked u now e later = elim (Bool-cases (is_present (truthy e.resolved_by_fact))) [
    | inl fact ↦ rw (fact) refl
    | inr no_fact ↦ elim (Bool-cases (is_present (truthy e.resolved_by_decision))) [
      | inl decision ↦ rw (no_fact, decision) refl
      | inr no_decision ↦ elim (Bool-cases (is_answer u e.answer)) [
        | inl answer ↦ rw (no_fact, no_decision, answer) refl
        | inr open_still ↦ rw (no_fact, no_decision, open_still) refl
      ]
    ]
  ]

  same_source : (u : Unicode) (e : Stored B) → source_of u (migrate_cluster e).0 ≡ source_of u e
  unfolding source_of migrate_cluster
  same_source u e = elim (Bool-cases (is_present e.cluster)) [
    | inl there ↦ rw (there) refl
    | inr missing ↦ rw (missing) refl
  ]

  old_cluster :
      (e : Stored B)
      → ((migrate_cluster e).0.status ≡ e.status)
        × ((migrate_cluster e).0.answer_link ≡ e.answer_link)
  unfolding migrate_cluster
  old_cluster e = elim (Bool-cases (is_present e.cluster)) [
    | inl there ↦ rw (there) (refl, refl)
    | inr missing ↦ rw (missing) (refl, refl)
  ]

  -- A record from before the statuses gets the status ANSWERED and a link to its answer where it names
  -- a fact, a decision or an answer that is not blank, and the status OPEN and no link otherwise.
  pub migrate_question-linked :
      (u : Unicode) (now : String) (e : Stored B)
      → is_present e.status ≡ false
      → is_present e.answer_link ≡ false
      → ((migrate_question u now e).0.status
          ≡ some (if is_present (source_of u e) then "ANSWERED" else "OPEN"))
        × (is_linked (migrate_question u now e).0.answer_link ≡ is_present (source_of u e))
  unfolding migrate_question migrate_status migrate_answer_link with_status
  migrate_question-linked u now e old unlinked =
      let e1 = (migrate_cluster e).0 in
      let (s, l) = old_cluster e in
      let old' : is_present e1.status ≡ false = (ap is_present s ∙ old) in
      let unlinked' : is_present e1.answer_link ≡ false = (ap is_present l ∙ unlinked) in
      rw (old', unlinked')
        (
          ap (λ o. some (if is_present o then "ANSWERED" else "OPEN")) (same_source u e),
          source-linked u now e1 (with_status now (source_of u e1) e1)
              ∙ ap is_present (same_source u e),
        )
