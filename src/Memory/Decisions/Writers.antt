-- ===== src/Memory/Decisions/Writers.antt =====
-- All that writes the status of decisions in src/phantom_runtime.py: what their histories record.
use phantom_runtime_lite.Prelude.{
  ℕ, zero, suc, ◌-◌, String, Bool, true, false, not, ◌&&◌, ◌||◌, Option, none, some, List, [], ◌∷◌,
  ◌++◌, ◌==◌, contains, length, ltb, drop, string_eq, All, if◌then◌else◌, ◌≡◌, refl, arith,
  Bool-cases, inl, inr,
}
use phantom_runtime_lite.Conversation.Text.{Text, Unicode, text_eq}
use phantom_runtime_lite.Memory.Decisions.{
  Decision, decision_valid_statuses, decision_can_transition, decision_status,
  decision_update_status, done_by, mark_first_done, decision_mark_done, key_of, update_last,
  update_decision_status, last_entries, max_decisions, add_decision, transition_open,
  apply_status_transition,
}

-- The calls that write decisions.
pub data Write (B : Type 0) : Type 0 where
  transition : Option String → String → Write B
  mark_done : String → String → String → Write B
  set_status : Text → String → Write B
  create : String → String → Text → B → Write B

abbrev is_status : String → Bool
is_status s = contains ("OPEN" ∷ "IN_PROGRESS" ∷ "BLOCKED" ∷ "DONE" ∷ "CANCELLED" ∷ []) s

-- A creation, or a change from a status that is not final to another one.
abbrev is_recordable : Option String → String → Bool
is_recordable none to = is_status to
is_recordable (some from) to =
    contains ("OPEN" ∷ "IN_PROGRESS" ∷ "BLOCKED" ∷ []) from && (is_status to && not (from == to))

abbrev is_known : Option String → Bool
is_known none = false
is_known (some s) = is_status s

-- The status is a known one, and every item of the history records such a creation or change.
pub record IsLogged {B : Type 0} (d : Decision B) : Type 0 where
  pub status : is_known d.status ≡ true
  pub items : All (λ c. is_recordable c.source c.target ≡ true) d.status_history

All-append_one :
    {A : Type 0} (P : A → Type 0) (xs : List A) (x : A) → All P xs → P x → All P (xs ++ (x ∷ []))
All-append_one P [] x h p = (p, tt)
All-append_one P (y ∷ xs) x (here, h) p = (here, All-append_one P xs x h p)

drop-All : {A : Type 0} (P : A → Type 0) (n : ℕ) (xs : List A) → All P xs → All P (drop n xs)
drop-All P zero xs h = h
drop-All P (suc n) [] h = h
drop-All P (suc n) (x ∷ xs) (here, h) = drop-All P n xs h

allowed :
    (from new : String)
    → (not (from == new) && decision_can_transition from new) ≡ true
    → is_recordable (some from) new ≡ true
unfolding decision_can_transition
allowed from new h = ground (arith, h)

target_known : (from new : String) → is_recordable (some from) new ≡ true → is_status new ≡ true
target_known from new h = ground (arith, h)

module _ {B : Type 0} where
  update-IsLogged :
      (new now : String) (d : Decision B)
      → IsLogged d
      → IsLogged (decision_update_status new now d).0
  unfolding decision_update_status
  update-IsLogged new now d h =
      let from = decision_status d.status in
      elim (Bool-cases (not (from == new) && decision_can_transition from new)) [
        | inr refused ↦ rw (refused) h
        | inl may ↦
            let item = allowed from new may in
            rw (may) (record {
              status = target_known from new item;
              items =
                  All-append_one (λ c. is_recordable c.source c.target ≡ true) d.status_history
                    (record { source = some from; target = new; at = now }) h.items item;
            })
      ]

  one_of :
      (b : Bool) (d' d : Decision B) (rest : List (Decision B)) (n m : ℕ)
      → IsLogged d'
      → IsLogged d
      → All IsLogged rest
      → (let result : List (Decision B) × ℕ = (if b then (d' ∷ rest, n) else (d ∷ rest, m)) in
          All IsLogged result.0)
  one_of true d' d rest n m h' h hs = (h', hs)
  one_of false d' d rest n m h' h hs = (h, hs)

  transition_open-IsLogged :
      (new now : String) (entries : List (Decision B))
      → All IsLogged entries
      → All IsLogged (transition_open new now entries).0
  unfolding transition_open
  transition_open-IsLogged new now [] h = tt
  transition_open-IsLogged new now (d ∷ entries) (here, h) =
      one_of (decision_status d.status == "OPEN") (decision_update_status new now d).0 d
        (transition_open new now entries).0 _ _ (update-IsLogged new now d here) here
        (transition_open-IsLogged new now entries h)

  apply-IsLogged :
      (o : Option String) (now : String) (entries : List (Decision B))
      → All IsLogged entries
      → All IsLogged (apply_status_transition o now entries).0
  unfolding apply_status_transition
  apply-IsLogged none now entries h = h
  apply-IsLogged (some new) now entries h = transition_open-IsLogged new now entries h

  done_by-IsLogged :
      (fact now : String) (d : Decision B) → IsLogged d → IsLogged (done_by fact now d)
  unfolding string_eq
  done_by-IsLogged fact now d h = record { status = refl; items = h.items }

  mark_first_done-IsLogged :
      (i fact now : String) (entries : List (Decision B))
      → All IsLogged entries
      → All IsLogged (mark_first_done i fact now entries).0
  unfolding mark_first_done
  mark_first_done-IsLogged i fact now [] h = tt
  mark_first_done-IsLogged i fact now (d ∷ entries) (here, h) = elim (Bool-cases (d.id == i)) [
    | inl hit ↦ rw (hit) (done_by-IsLogged fact now d here, h)
    | inr miss ↦ rw (miss) (here, mark_first_done-IsLogged i fact now entries h)
  ]

  mark_done-IsLogged :
      (i fact now : String) (entries : List (Decision B))
      → All IsLogged entries
      → All IsLogged (decision_mark_done i fact now entries).0
  unfolding decision_mark_done
  mark_done-IsLogged i fact now entries h = elim (Bool-cases (i == "" || fact == "")) [
    | inl lacking ↦ rw (lacking) h
    | inr named ↦ rw (named) (mark_first_done-IsLogged i fact now entries h)
  ]

  update_last-IsLogged :
      (u : Unicode) (key : Text) (status : String) (entries : List (Decision B))
      → is_status status ≡ true
      → All IsLogged entries
      → All IsLogged (update_last u key status entries).0
  unfolding update_last
  update_last-IsLogged u key status [] valid h = tt
  update_last-IsLogged u key status (d ∷ entries) valid (here, h) =
      elim (Bool-cases (update_last u key status entries).1) [
        | inl later ↦ rw (later) (here, update_last-IsLogged u key status entries valid h)
        | inr last ↦ elim (Bool-cases (key_of u d.decision == key)) [
          | inl hit ↦ rw (last, hit) (record { status = valid; items = here.items }, h)
          | inr miss ↦ rw (last, miss) (here, h)
        ]
      ]

  set_status-IsLogged :
      (u : Unicode) (text : Text) (status : String) (entries : List (Decision B))
      → All IsLogged entries
      → All IsLogged (update_decision_status u text status entries)
  unfolding update_decision_status
  set_status-IsLogged u text status entries h =
      elim (Bool-cases (contains decision_valid_statuses status)) [
        | inl valid ↦ rw (valid) (update_last-IsLogged u (key_of u text) status entries valid h)
        | inr unknown ↦ rw (unknown) h
      ]

  last_entries-IsLogged :
      (n : ℕ) (entries : List (Decision B))
      → All IsLogged entries
      → All IsLogged (last_entries n entries)
  unfolding last_entries
  last_entries-IsLogged n entries h = elim (Bool-cases (ltb n (length entries))) [
    | inl over ↦ rw (over) (drop-All IsLogged (length entries - n) entries h)
    | inr within ↦ rw (within) h
  ]

  add-IsLogged :
      (i now : String) (text : Text) (rest : B) (entries : List (Decision B))
      → All IsLogged entries
      → All IsLogged (add_decision i now text rest entries)
  unfolding add_decision string_eq
  add-IsLogged i now text rest entries h =
      last_entries-IsLogged max_decisions _
        (All-append_one IsLogged entries _ h (record { status = refl; items = (refl, tt) }))

  unfoldable pub write : Unicode → Write B → List (Decision B) → List (Decision B)
  write u (transition o now) entries = (apply_status_transition o now entries).0
  write u (mark_done i fact now) entries = (decision_mark_done i fact now entries).0
  write u (set_status text status) entries = update_decision_status u text status entries
  write u (create i now text rest) entries = add_decision i now text rest entries

  unfoldable pub write_all : Unicode → List (Write B) → List (Decision B) → List (Decision B)
  unfolding write
  write_all u [] entries = entries
  write_all u (w ∷ ws) entries = write_all u ws (write u w entries)

  write-IsLogged :
      (u : Unicode) (w : Write B) (entries : List (Decision B))
      → All IsLogged entries
      → All IsLogged (write u w entries)
  unfolding write
  write-IsLogged u (transition o now) entries h = apply-IsLogged o now entries h
  write-IsLogged u (mark_done i fact now) entries h = mark_done-IsLogged i fact now entries h
  write-IsLogged u (set_status text status) entries h = set_status-IsLogged u text status entries h
  write-IsLogged u (create i now text rest) entries h = add-IsLogged i now text rest entries h

  -- Whatever calls write the decisions, in any order: if it was so at first, every decision has one of
  -- the five statuses, and every item of a status history is a creation with such a status or a change
  -- to a different one from OPEN, IN_PROGRESS or BLOCKED. None ever records that DONE or CANCELLED was
  -- left; two of the calls change a status without an item.
  pub write_all-IsLogged :
      (u : Unicode) (ws : List (Write B)) (entries : List (Decision B))
      → All IsLogged entries
      → All IsLogged (write_all u ws entries)
  unfolding write_all
  write_all-IsLogged u [] entries h = h
  write_all-IsLogged u (w ∷ ws) entries h =
      write_all-IsLogged u ws (write u w entries) (write-IsLogged u w entries h)
