-- ===== src/Memory/Links/Subjects.antt =====
-- The subjects that src/phantom_runtime.py finds or creates by their names.
use phantom_runtime_lite.Prelude.{
  String, none, some, List, [], ◌∷◌, ◌++◌, ◌==◌, ==_refl, ◌≡◌, refl, sym, ◌∙◌, Bool-cases,
  Option-cases, inl, inr,
}
use phantom_runtime_lite.Conversation.Text.{Text, Unicode, text_eq, strip}
use phantom_runtime_lite.Memory.Records.{Subject}
use phantom_runtime_lite.Memory.Links.{
  find_named, subject_find, subject_create, create_unless, subject_get_or_create,
}

find_named-append :
    (name : Text) (subjects : List Subject) (new : Subject)
    → find_named name subjects ≡ none
    → new.canonical_name ≡ name
    → find_named name (subjects ++ (new ∷ [])) ≡ some new
unfolding find_named
find_named-append name [] new absent named = rw (named, ==_refl name) refl
find_named-append name (s ∷ subjects) new absent named =
    elim (Bool-cases (s.canonical_name == name)) [
      | inl hit ↦ let found : some s ≡ none = (sym (rw (hit) refl) ∙ absent) in absurd (cc found)
      | inr miss ↦
          let later : find_named name subjects ≡ none = (sym (rw (miss) refl) ∙ absent) in
          rw (miss) (find_named-append name subjects new later named)
    ]

-- A name is given one subject: once it was looked up, and created if it was missing, every later call
-- with the same name, up to the space around it, answers the same id and creates nothing.
pub subject_get_or_create_again :
    (u : Unicode) (new_id later_id : String) (name again : Text) (subjects : List Subject)
    → strip u again ≡ strip u name
    → subject_get_or_create u later_id again (subject_get_or_create u new_id name subjects).1
      ≡ subject_get_or_create u new_id name subjects
unfolding subject_get_or_create subject_find
subject_get_or_create_again u new_id later_id name again subjects same =
    elim (Bool-cases (strip u name == [])) [
      | inl blank ↦ rw (same, blank) refl
      | inr named ↦ elim (Option-cases (find_named (strip u name) subjects)) [
        | inl absent ↦
            let new : Subject = (record {
              id = new_id;
              canonical_name = strip u name;
              merged_into = none;
              merged_at = none;
            }) in
            unfold create_unless in
            unfold subject_create in
            rw
              (
                same,
                named,
                absent,
                named,
                find_named-append (strip u name) subjects new absent refl,
              )
              refl
        | inr (existing, found) ↦ unfold create_unless in rw (same, named, found, found) refl
      ]
    ]
