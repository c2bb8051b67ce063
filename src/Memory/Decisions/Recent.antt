-- ===== src/Memory/Decisions/Recent.antt =====
-- The bounded lists of src/phantom_runtime.py: `memory_add_decision` and `memory_add_question` keep the
-- most recent entries.
use phantom_runtime_lite.Prelude.{
  ℕ, zero, suc, ◌+◌, ◌-◌, ◌≤◌, ◌<◌, String, true, false, List, [], ◌∷◌, ◌++◌, string_eq, ltb,
  length, take, drop, length-append, length-drop, ◌≡◌, refl, ap, arith, Bool-cases, inl, inr, some,
  none,
}
use phantom_runtime_lite.Conversation.Text.{Text, text_eq}
use phantom_runtime_lite.Memory.Decisions.{Decision, last_entries, add_decision}
use phantom_runtime_lite.Memory.Decisions.Statuses.{IsRecorded}

-- The list is the end of the old one, with the new entry behind it, and not longer than `n`.
pub record IsRecent {A : Type 0} (n : ℕ) (before after : List A) (new : A) : Type 0 where
  pub dropped : List A
  pub kept : List A
  pub split : before ≡ dropped ++ kept
  pub result : after ≡ kept ++ (new ∷ [])
  pub bounded : length after ≤ n
  pub full : length before < n → kept ≡ before

too_long : (n len total : ℕ) → total ≡ len + 1 → len < n → ltb n total ≡ true → ⊥
too_long n len total t room over = ground arith

not_over : (n total : ℕ) → ltb n total ≡ false → total ≤ n
not_over n total h = ground arith

module _ {A : Type 0} where
  take-drop : (k : ℕ) (xs : List A) → xs ≡ take k xs ++ drop k xs
  take-drop zero xs = refl
  take-drop (suc k) [] = refl
  take-drop (suc k) (x ∷ xs) = ap (λ ys. x ∷ ys) (take-drop k xs)

  drop-append : (k : ℕ) (xs ys : List A) → k ≤ length xs → drop k (xs ++ ys) ≡ drop k xs ++ ys
  drop-append zero xs ys h = refl
  drop-append (suc k) [] ys h = absurd (omega arith)
  drop-append (suc k) (x ∷ xs) ys h = drop-append k xs ys (omega arith)

  pub last_entries-IsRecent :
      (n : ℕ) (xs : List A) (new : A)
      → 0 < n
      → IsRecent n xs (last_entries n (xs ++ (new ∷ []))) new
  unfolding last_entries
  last_entries-IsRecent n xs new h =
      let total = length-append xs (new ∷ []) in
      elim (Bool-cases (ltb n (length (xs ++ (new ∷ []))))) [
        | inl over ↦
            let k = length (xs ++ (new ∷ [])) - n in
            let fits : k ≤ length xs = (omega (arith, total)) in
            rw (over) (record {
              dropped = take k xs;
              kept = drop k xs;
              split = take-drop k xs;
              result = drop-append k xs (new ∷ []) fits;
              bounded = omega (arith, length-drop k (xs ++ (new ∷ [])));
              full = λ room.
                  absurd (too_long n (length xs) (length (xs ++ (new ∷ []))) total room over);
            })
        | inr within ↦ rw (within) (record {
          dropped = [];
          kept = xs;
          split = refl;
          result = refl;
          bounded = not_over n (length (xs ++ (new ∷ []))) within;
          full = λ _. refl;
        })
      ]

-- A new decision is OPEN with a history that says so, stands last, and the list is the most recent
-- hundred entries: no entry is dropped while there is room.
pub add_decision-IsRecent :
    {B : Type 0} (i now : String) (text : Text) (rest : B) (entries : List (Decision B))
    → (new : Decision B) × ((new.id ≡ i)
        × (IsRecorded new × IsRecent 100 entries (add_decision i now text rest entries) new))
unfolding add_decision string_eq
add_decision-IsRecent {B = B} i now text rest entries =
    let new : Decision B = (record {
      id = i;
      decision = text;
      status = some "OPEN";
      status_history = record { source = none; target = "OPEN"; at = now } ∷ [];
      resolved_by_fact = none;
      history = [];
      rest = rest;
    }) in
    (
      new,
      (
        refl,
        (
          record { current = "OPEN"; status = refl; valid = refl; history = (refl, (refl, refl)) },
          last_entries-IsRecent 100 entries new (omega arith),
        ),
      ),
    )
