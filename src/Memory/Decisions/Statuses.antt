-- ===== src/Memory/Decisions/Statuses.antt =====
-- The status history of a decision of src/phantom_runtime.py, and the update that passes it by.
use phantom_runtime_lite.Prelude.{
  String, Bool, true, false, not, ◌&&◌, Option, none, some, List, [], ◌∷◌, ◌++◌, ◌==◌, contains,
  string_eq, if◌then◌else◌, ◌≡◌, refl, sym, ap, ◌∙◌, arith, Bool-cases, Option-cases, inl, inr,
}
use mathlib.Core.Path.{subst}
use mathlib.Core.Option.{none-ne-some, some-injective}
use phantom_runtime_lite.Conversation.Text.{Text, Unicode, text_eq}
use phantom_runtime_lite.Memory.Decisions.{
  StatusChange, Decision, decision_valid_statuses, terminal_statuses, decision_can_transition,
  decision_status, decision_update_status, key_of, given, update_last, update_decision_status,
}

-- A creation may give any valid status; a change is one that `decision_can_transition` lets pass, to
-- another status.
abbrev IsAllowed : Option String → String → Type 0
IsAllowed none to = contains decision_valid_statuses to ≡ true
IsAllowed (some from) to = (not (from == to) && decision_can_transition from to) ≡ true

-- The changes lead from one status to the other, each one allowed and from where the last one led.
abbrev pub Leads : Option String → List StatusChange → Option String → Type 0
Leads from [] to = from ≡ to
Leads from (c ∷ changes) to =
    (c.source ≡ from) × (IsAllowed from c.target × Leads (some c.target) changes to)

Leads-on :
    (from : Option String) (changes : List StatusChange) (cur : String) (c : StatusChange)
    → Leads from changes (some cur)
    → c.source ≡ some cur
    → IsAllowed (some cur) c.target
    → Leads from (changes ++ (c ∷ [])) (some c.target)
Leads-on from [] cur c l source a =
    (source ∙ sym l, (subst (λ o. IsAllowed o c.target) (sym l) a, refl))
Leads-on from (d ∷ changes) cur c (s, (b, l)) source a =
    (s, (b, Leads-on (some d.target) changes cur c l source a))

last_holds : (e v t n : Bool) → (not e && ((v && not t) && n)) ≡ true → n ≡ true
last_holds e v t n h = ground arith

stopped : (e v t n : Bool) → t ≡ true → (not e && ((v && not t) && n)) ≡ false
stopped e v t n h = ground arith

new_valid :
    (from new : String)
    → (not (from == new) && decision_can_transition from new) ≡ true
    → contains decision_valid_statuses new ≡ true
unfolding decision_can_transition
new_valid from new a =
    last_holds (from == new) (contains decision_valid_statuses from)
      (contains terminal_statuses from) (contains decision_valid_statuses new) a

refused_from_terminal :
    (from new : String)
    → contains terminal_statuses from ≡ true
    → (not (from == new) && decision_can_transition from new) ≡ false
unfolding decision_can_transition
refused_from_terminal from new t =
    stopped (from == new) (contains decision_valid_statuses from) (contains terminal_statuses from)
      (contains decision_valid_statuses new) t

known_status :
    (o : Option String) (s : String)
    → o ≡ some s
    → contains decision_valid_statuses s ≡ true
    → decision_status o ≡ s
unfolding decision_status
known_status o s e valid = rw (e, valid) refl

module _ {B : Type 0} where
  -- The status of the decision is valid and its history accounts for it.
  pub record IsRecorded (d : Decision B) : Type 0 where
    pub current : String
    pub status : d.status ≡ some current
    pub valid : contains decision_valid_statuses current ≡ true
    pub history : Leads none d.status_history (some current)

  unfoldable pub update_all : List (String × String) → Decision B → Decision B
  update_all [] d = d
  update_all ((new, now) ∷ updates) d = update_all updates (decision_update_status new now d).0

  update-IsRecorded :
      (new now : String) (d : Decision B)
      → IsRecorded d
      → IsRecorded ((decision_update_status new now d).0)
  unfolding decision_update_status
  update-IsRecorded new now d r =
      let known = known_status d.status r.current r.status r.valid in
      elim (Bool-cases (not (r.current == new) && decision_can_transition r.current new)) [
        | inl allowed ↦
            rw (known, allowed)
              (record {
                current = new;
                status = refl;
                valid = new_valid r.current new allowed;
                history =
                    Leads-on none d.status_history r.current
                      (record { source = some r.current; target = new; at = now }) r.history refl
                      allowed;
              })
        | inr refused ↦ rw (known, refused) r
      ]

  -- As long as a status is changed by `_decision_update_status` only, the history stays a chain of
  -- allowed changes that leads from the creation to the status.
  update_all-IsRecorded :
      (updates : List (String × String)) (d : Decision B)
      → IsRecorded d
      → IsRecorded (update_all updates d)
  unfolding update_all
  update_all-IsRecorded [] d r = r
  update_all-IsRecorded ((new, now) ∷ updates) d r =
      update_all-IsRecorded updates (decision_update_status new now d).0
        (update-IsRecorded new now d r)

  update_refused :
      (new now : String) (d : Decision B)
      → contains terminal_statuses (decision_status d.status) ≡ true
      → (decision_update_status new now d).0 ≡ d
  unfolding decision_update_status
  update_refused new now d t = rw (refused_from_terminal (decision_status d.status) new t) refl

  -- A decision that is done or cancelled is left as it is by all of these updates.
  pub update_all_terminal :
      (updates : List (String × String)) (d : Decision B)
      → contains terminal_statuses (decision_status d.status) ≡ true
      → update_all updates d ≡ d
  unfolding update_all
  update_all_terminal [] d t = refl
  update_all_terminal ((new, now) ∷ updates) d t =
      let kept : (decision_update_status new now d).0 ≡ d = (update_refused new now d t) in
      rw (kept) (update_all_terminal updates d t)

  -- The most recent decision with the key.
  unfoldable pub last_with : Unicode → Text → List (Decision B) → Option (Decision B)
  last_with u key [] = none
  last_with u key (d ∷ entries) = elim (last_with u key entries) [
    | some e ↦ some e
    | none ↦ if key_of u d.decision == key then some d else none
  ]

  last_with-cons :
      (u : Unicode) (key : Text) (d : Decision B) (entries : List (Decision B))
      → last_with u key entries ≡ none
      → last_with u key (d ∷ entries) ≡ (if key_of u d.decision == key then some d else none)
  unfolding last_with
  last_with-cons u key d entries absent = rw (absent) refl

  last_with-later :
      (u : Unicode) (key : Text) (d e : Decision B) (entries : List (Decision B))
      → last_with u key entries ≡ some e
      → last_with u key (d ∷ entries) ≡ some e
  unfolding last_with
  last_with-later u key d e entries later = rw (later) refl

  no_update :
      (u : Unicode) (key : Text) (status : String) (entries : List (Decision B))
      → last_with u key entries ≡ none
      → (update_last u key status entries).1 ≡ false
  unfolding update_last
  no_update u key status [] absent = refl
  no_update u key status (e ∷ entries) absent = elim (Option-cases (last_with u key entries)) [
    | inl none_later ↦ elim (Bool-cases (key_of u e.decision == key)) [
      | inl hit ↦
          absurd (
            none-ne-some e (sym absent ∙ last_with-cons u key e entries none_later ∙ rw (hit) refl))
      | inr miss ↦ rw (no_update u key status entries none_later, miss) refl
    ]
    | inr (f, later) ↦
        absurd (none-ne-some f (sym absent ∙ last_with-later u key e f entries later))
  ]

  update_last-last_with :
      (u : Unicode) (key : Text) (status : String) (entries : List (Decision B)) (d : Decision B)
      → last_with u key entries ≡ some d
      → ((update_last u key status entries).1 ≡ true)
        × (last_with u key (update_last u key status entries).0 ≡ some (given status d))
  unfolding update_last
  update_last-last_with u key status [] d found =
      absurd (none-ne-some d (unfold last_with in found))
  update_last-last_with u key status (e ∷ entries) d found =
      elim (Option-cases (last_with u key entries)) [
        | inl absent ↦
            let here = last_with-cons u key e entries absent in
            elim (Bool-cases (key_of u e.decision == key)) [
              | inl hit ↦
                  let same : e ≡ d = (some-injective e d (sym (here ∙ rw (hit) refl) ∙ found)) in
                  let after : last_with u key (given status e ∷ entries) ≡ some (given status e) =
                    (last_with-cons u key (given status e) entries absent ∙ rw (hit) refl) in
                  rw (no_update u key status entries absent, hit)
                    (refl, after ∙ ap (λ x. some (given status x)) same)
              | inr miss ↦ absurd (none-ne-some d (sym (here ∙ rw (miss) refl) ∙ found))
            ]
        | inr (f, later) ↦
            let same : f ≡ d =
              (some-injective f d (sym (last_with-later u key e f entries later) ∙ found)) in
            let rest = update_last-last_with u key status entries d (later ∙ ap some same) in
            rw (rest.0) (
              refl,
              last_with-later u key e (given status d) (update_last u key status entries).0 rest.1,
            )
      ]

  -- `memory_update_decision_status` gives the most recent decision with the text any valid status and
  -- leaves its history, also where the decision was done or cancelled: the guard is not asked.
  pub update_decision_status_unguarded :
      (u : Unicode) (text : Text) (status : String) (entries : List (Decision B)) (d : Decision B)
      → contains decision_valid_statuses status ≡ true
      → last_with u (key_of u text) entries ≡ some d
      → last_with u (key_of u text) (update_decision_status u text status entries)
        ≡ some (given status d)
  unfolding update_decision_status
  update_decision_status_unguarded u text status entries d valid found =
      rw (valid) ((update_last-last_with u (key_of u text) status entries d found).1)
