-- ===== src/Gateway/Lines/Splitting.antt =====
-- The lines that the reader of src/runtime/transport_gateway.py hands on.
use phantom_runtime_lite.Prelude.{
  ℕ, zero, suc, ◌≤◌, ◌<◌, Bool, true, false, Option, none, some, List, [], ◌∷◌, ◌++◌, map, length,
  ◌==◌, nat_eq, if◌then◌else◌, All, all, not, ◌≡◌, ◌≢◌, refl, sym, ap, ◌∙◌, arith, Bool-cases,
  Option-cases, inl, inr, append_assoc, append_nil,
}
use mathlib.Core.Path.{subst}
use phantom_runtime_lite.Gateway.Lines.{
  Bytes, newline, emit, behind, split_line, take_lines, receive, Read, stopped, read_failed, read,
  pump_events,
}

abbrev onto_first : ℕ → List Bytes × Bytes → List Bytes × Bytes
onto_first c ([], left) = ([], c ∷ left)
onto_first c (line ∷ rest, left) = ((c ∷ line) ∷ rest, left)

-- The lines that a newline ends, and what stands behind the last one.
abbrev pub lines : Bytes → List Bytes × Bytes
lines [] = ([], [])
lines (c ∷ cs) = let r = lines cs in if c == newline then ([] ∷ r.0, r.1) else onto_first c r

-- The texts of the lines that are not empty.
abbrev pub texts {ℓ} : {A : Type ℓ} → (Bytes → A) → List Bytes → List A
texts decode [] = []
texts decode (line ∷ ls) = emit decode line ++ texts decode ls

texts-append {ℓ} :
    {A : Type ℓ} (decode : Bytes → A) (ks ls : List Bytes)
    → texts decode (ks ++ ls) ≡ texts decode ks ++ texts decode ls
texts-append decode [] ls = refl
texts-append decode (k ∷ ks) ls =
    ap (λ l. emit decode k ++ l) (texts-append decode ks ls)
    ∙ sym (append_assoc (emit decode k) (texts decode ks) (texts decode ls))

-- The first split, seen from the reference.
abbrev Split : Bytes → Option (Bytes × Bytes) → Type 0
Split buf none = lines buf ≡ ([], buf)
Split buf (some (line, rest)) =
    (lines buf ≡ (line ∷ (lines rest).0, (lines rest).1)) × (length rest < length buf)

behind-Split :
    (c : ℕ) (cs : Bytes) (o : Option (Bytes × Bytes))
    → (c == newline) ≡ false
    → Split cs o
    → Split (c ∷ cs) (behind c o)
behind-Split c cs none other h = rw (other, h) refl
behind-Split c cs (some (line, rest)) other (h, less) = (rw (other, h) refl, omega arith)

split_line-Split : (buf : Bytes) → Split buf (split_line buf)
unfolding split_line
split_line-Split [] = refl
split_line-Split (c ∷ cs) = elim (Bool-cases (c == newline)) [
  | inl hit ↦ rw (hit) (rw (hit) refl, omega arith)
  | inr miss ↦ rw (miss) (behind-Split c cs (split_line cs) miss (split_line-Split cs))
]

module _ {ℓ} {A : Type ℓ} (decode : Bytes → A) where
  take_lines-lines :
      (n : ℕ) (buf : Bytes)
      → length buf ≤ n
      → take_lines decode n buf ≡ (texts decode (lines buf).0, (lines buf).1)
  unfolding take_lines
  take_lines-lines zero [] enough = refl
  take_lines-lines zero (c ∷ cs) enough = absurd (omega arith)
  take_lines-lines (suc n) buf enough = elim (Option-cases (split_line buf)) [
    | inl ends ↦
        let whole : Split buf none = (subst (Split buf) ends (split_line-Split buf)) in
        rw (ends, whole) refl
    | inr ((line, rest), found) ↦
        let (first, less) : Split buf (some (line, rest)) =
          (subst (Split buf) found (split_line-Split buf)) in
        let deeper = take_lines-lines n rest (omega (arith, less, enough)) in
        rw (found, first, deeper) refl
  ]

  receive-lines :
      (buf chunk : Bytes)
      → receive decode buf chunk ≡ (texts decode (lines (buf ++ chunk)).0, (lines (buf ++ chunk)).1)
  unfolding receive
  receive-lines buf chunk = take_lines-lines (length (buf ++ chunk)) (buf ++ chunk) (omega arith)

-- Lines that come in two parts.
abbrev resume : List Bytes × Bytes → Bytes → List Bytes × Bytes
resume (ls, left) b = let r = lines (left ++ b) in (ls ++ r.0, r.1)

onto_first-resume :
    (c : ℕ) (r : List Bytes × Bytes) (b : Bytes)
    → (c == newline) ≡ false
    → onto_first c (resume r b) ≡ resume (onto_first c r) b
onto_first-resume c ([], left) b other = rw (other) refl
onto_first-resume c (l ∷ ls, left) b other = refl

pub lines-append : (a b : Bytes) → lines (a ++ b) ≡ resume (lines a) b
lines-append [] b = refl
lines-append (c ∷ cs) b = elim (Bool-cases (c == newline)) [
  | inl hit ↦ rw (hit, lines-append cs b) refl
  | inr miss ↦ rw (miss, lines-append cs b) (onto_first-resume c (lines cs) b miss)
]

onto_first-left :
    (c : ℕ) (r : List Bytes × Bytes)
    → (c == newline) ≡ false
    → lines r.1 ≡ ([], r.1)
    → lines (onto_first c r).1 ≡ ([], (onto_first c r).1)
onto_first-left c ([], left) other h = rw (other, h) refl
onto_first-left c (l ∷ ls, left) other h = h

-- No newline stays behind.
lines-left : (a : Bytes) → lines (lines a).1 ≡ ([], (lines a).1)
lines-left [] = refl
lines-left (c ∷ cs) = elim (Bool-cases (c == newline)) [
  | inl hit ↦ rw (hit) (lines-left cs)
  | inr miss ↦ rw (miss) (onto_first-left c (lines cs) miss (lines-left cs))
]

-- What is read before the reader stops.
abbrev pub received : List Read → Bytes
received [] = []
received (stopped ∷ rounds) = []
received (read_failed ∷ rounds) = []
received (read [] ∷ rounds) = []
received (read (c ∷ cs) ∷ rounds) = (c ∷ cs) ++ received rounds

module _ {ℓ} {A : Type ℓ} (decode : Bytes → A) where
  no_more : (a : Bytes) → [] ≡ texts decode (lines ((lines a).1 ++ [])).0
  no_more a = rw (append_nil (lines a).1, lines-left a) refl

  pump-left :
      (a : Bytes) (rounds : List Read)
      → pump_events decode (lines a).1 rounds
        ≡ texts decode (lines ((lines a).1 ++ received rounds)).0
  unfolding pump_events
  pump-left a [] = no_more a
  pump-left a (stopped ∷ rounds) = no_more a
  pump-left a (read_failed ∷ rounds) = no_more a
  pump-left a (read [] ∷ rounds) = no_more a
  pump-left a (read (c ∷ cs) ∷ rounds) =
      let left = (lines a).1 in
      let chunk : Bytes = c ∷ cs in
      let more = pump-left (left ++ chunk) rounds in
      let joined = append_assoc left chunk (received rounds) in
      rw
        (
          receive-lines decode left chunk,
          more,
          sym joined,
          lines-append (left ++ chunk) (received rounds),
        )
        (sym (
          texts-append decode (lines (left ++ chunk)).0
            (lines ((lines (left ++ chunk)).1 ++ received rounds)).0))

  pub pump_events-lines :
      (rounds : List Read) → pump_events decode [] rounds ≡ texts decode (lines (received rounds)).0
  pump_events-lines rounds = pump-left [] rounds

-- A line without a newline, followed by one.
abbrev pub print_lines : List Bytes → Bytes
print_lines [] = []
print_lines (line ∷ ls) = line ++ (newline ∷ print_lines ls)

abbrev pub no_newline : Bytes → Bool
no_newline = all (λ c. not (c == newline))

abbrev pub IsEvent : Bytes → Type 0
IsEvent line = (line ≢ []) × (no_newline line ≡ true)

lines-line :
    (line rest : Bytes)
    → no_newline line ≡ true
    → lines (line ++ (newline ∷ rest)) ≡ (line ∷ (lines rest).0, (lines rest).1)
unfolding nat_eq
lines-line [] rest clean = refl
lines-line (c ∷ cs) rest clean =
    let miss : (c == newline) ≡ false = (ground arith) in
    let later : no_newline cs ≡ true = (ground arith) in rw (miss, lines-line cs rest later) refl

lines-print : (ls : List Bytes) → All IsEvent ls → lines (print_lines ls) ≡ (ls, [])
lines-print [] events = refl
lines-print (l ∷ ls) (event, events) =
    rw (lines-line l (print_lines ls) event.1, lines-print ls events) refl

texts-events {ℓ} :
    {A : Type ℓ} (decode : Bytes → A) (ls : List Bytes)
    → All IsEvent ls
    → texts decode ls ≡ map decode ls
texts-events decode [] events = refl
texts-events decode ([] ∷ ls) (event, events) = absurd (event.0 refl)
texts-events decode ((c ∷ cs) ∷ ls) (event, events) =
    ap (λ l. decode (c ∷ cs) ∷ l) (texts-events decode ls events)

-- Events that the child writes one to a line come out of the reader as they were written, once and in
-- order, however the pipe cuts them into chunks: for lines that are not empty and hold no newline.
pub pump_events-print {ℓ} :
    {A : Type ℓ} (decode : Bytes → A) (ls : List Bytes) (rounds : List Read)
    → All IsEvent ls
    → received rounds ≡ print_lines ls
    → pump_events decode [] rounds ≡ map decode ls
pump_events-print decode ls rounds events same =
    pump_events-lines decode rounds
    ∙ rw (same, lines-print ls events) (texts-events decode ls events)
