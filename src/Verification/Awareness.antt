-- ===== src/Verification/Awareness.antt =====
-- The UTC offsets of the timestamps of a session, in src/verification/verification_runtime.py.
use mathlib.Core.Option.{or_else}
use phantom_runtime_lite.Prelude.{
  String, Bool, true, false, not, Option, none, some, List, [], ◌∷◌, ◌==◌, ==_refl, string_eq,
  option_eq, if◌then◌else◌, ◌≡◌, ◌≢◌, ◌↔◌, refl, sym, ap, ◌∙◌, arith, ℤ, Bool-cases, inl, inr,
}
use phantom_runtime_lite.Prelude.Dict.{insert, lookup}
use phantom_runtime_lite.Value.{Timestamp, Python}
use phantom_runtime_lite.Verification.Data.{Event, type_error, LastSeen}
use phantom_runtime_lite.Verification.Checks.{
  newest, last_of, timestamp_reasons, parse_timestamp, same_awareness,
}
use phantom_runtime_lite.Verification.Handle.{settle, check_ordering, handle}
use phantom_runtime_lite.Verification.Ordering.{
  mixed_awareness, handle_raises_iff, last_of-insert, finish-seen, handle-last_of,
}

-- What is known after a stream of events, raises included, each handled at its clock reading.
unfoldable pub seen_after : Python → LastSeen → List (Timestamp × Event) → LastSeen
seen_after py seen [] = seen
seen_after py seen ((now, e) ∷ es) = seen_after py (handle py now seen e).1 es

abbrev pub awareness : Option Timestamp → Option Bool
awareness none = none
awareness (some t) = some t.aware

-- Whether the first timestamp of a session in the stream has an offset, if there is a timestamp.
unfoldable pub first_aware : Python → Option String → List (Timestamp × Event) → Option Bool
first_aware py s [] = none
first_aware py s ((now, e) ∷ es) =
    or_else (if s == e.session_id then awareness (parse_timestamp py e.timestamp) else none)
      (first_aware py s es)

-- One has an offset and the other has none.
abbrev pub differ : Option Bool → Option Bool → Bool
differ (some true) (some false) = true
differ (some false) (some true) = true
differ _ _ = false

mixed-differ :
    (t last : Option Timestamp) → mixed_awareness t last ≡ differ (awareness t) (awareness last)
mixed-differ none last = refl
mixed-differ (some t) none = differ_none t.aware
  where
    differ_none : (a : Bool) → false ≡ differ (some a) none
    differ_none true = refl
    differ_none false = refl
mixed-differ (some t) (some last) = differ_bools t.aware last.aware
  where
    differ_bools : (a b : Bool) → not (same_awareness a b) ≡ differ (some a) (some b)
    differ_bools true true = refl
    differ_bools true false = refl
    differ_bools false true = refl
    differ_bools false false = refl

same_aware : (a b : Bool) → same_awareness a b ≡ true → a ≡ b
same_aware true true h = refl
same_aware true false h = cc
same_aware false true h = cc
same_aware false false h = refl

or_else-none : (o : Option Bool) → or_else o none ≡ o
unfolding or_else
or_else-none none = refl
or_else-none (some a) = refl

or_else_assoc : (a b c : Option Bool) → or_else (or_else a b) c ≡ or_else a (or_else b c)
unfolding or_else
or_else_assoc none b c = refl
or_else_assoc (some a) b c = refl

abbrev known : LastSeen → Option String → Option Bool
known seen s = awareness (last_of seen s).1

known-insert :
    (s : Option String) (v : Option ℤ × Option Timestamp) (seen : LastSeen)
    → known (insert s v seen) s ≡ awareness v.1
known-insert s v seen =
    let found : last_of (insert s v seen) s ≡ v =
      (last_of-insert s s v seen ∙ rw (==_refl s) refl) in
    ap (λ w. awareness w.1) found

-- What the timestamp of an event adds for its session, also where it raises.
known-settle :
    (seen : LastSeen) (e : Event) (t : Option Timestamp) (q : Option ℤ) (old : Option Timestamp)
    → last_of seen e.session_id ≡ (q, old)
    → known (settle seen e t (q, old) (timestamp_reasons t old)).1 e.session_id
      ≡ or_else (awareness old) (awareness t)
unfolding settle timestamp_reasons or_else
known-settle seen e none q old h =
    known-insert e.session_id (newest e.sequence q, old) seen ∙ sym (or_else-none (awareness old))
known-settle seen e (some t) q none h = known-insert e.session_id (newest e.sequence q, some t) seen
known-settle seen e (some t) q (some l) h = elim (Bool-cases (same_awareness t.aware l.aware)) [
  | inl same ↦ rw (same) (
      known-insert e.session_id (newest e.sequence q, some t) seen
      ∙ ap some (same_aware t.aware l.aware same))
  | inr mixed ↦ rw (mixed) (ap (λ w. awareness w.1) h)
]

module _ (py : Python) where
  known-handle :
      (now : Timestamp) (seen : LastSeen) (e : Event) (s : Option String)
      → known (handle py now seen e).1 s
        ≡ or_else
            (known seen s)
            (if s == e.session_id then awareness (parse_timestamp py e.timestamp) else none)
  unfolding handle check_ordering
  known-handle now seen e s = elim (Bool-cases (s == e.session_id)) [
    | inl hit ↦
        let same : s ≡ e.session_id = (ground (arith, hit)) in
        let t = parse_timestamp py e.timestamp in
        let last = last_of seen e.session_id in
        rw (hit) (
          ap (λ w. known (handle py now seen e).1 w) same
          ∙ ap (λ w. known w e.session_id) (finish-seen py now e (check_ordering py seen e))
          ∙ known-settle seen e t last.0 last.1 refl
          ∙ ap (λ w. or_else (known seen w) (awareness t)) (sym same))
    | inr other ↦
        let differs : s ≢ e.session_id = (λ h. ground (arith, other, h)) in
        rw (other) (
          ap (λ w. awareness w.1) (handle-last_of py now seen e s differs)
          ∙ sym (or_else-none (known seen s)))
  ]

  known-seen_after :
      (es : List (Timestamp × Event)) (seen : LastSeen) (s : Option String)
      → known (seen_after py seen es) s ≡ or_else (known seen s) (first_aware py s es)
  unfolding seen_after first_aware
  known-seen_after [] seen s = sym (or_else-none (known seen s))
  known-seen_after ((now, e) ∷ es) seen s =
      known-seen_after es (handle py now seen e).1 s
      ∙ ap (λ o. or_else o (first_aware py s es)) (known-handle now seen e s)
      ∙ or_else_assoc (known seen s) _ (first_aware py s es)

  -- A session keeps to the first timestamp that can be read: after any stream of events, raises included,
  -- an event raises exactly if its timestamp can be read and so could an earlier one of its session, and
  -- of these two, its own and the first of its session, one alone has a UTC offset.
  pub handle-seen_after_iff :
      (es : List (Timestamp × Event)) (now : Timestamp) (e : Event)
      → ((handle py now (seen_after py [] es) e).0 ≡ type_error) ↔ (
          differ (awareness (parse_timestamp py e.timestamp)) (first_aware py e.session_id es)
          ≡ true)
  unfolding last_of lookup or_else
  handle-seen_after_iff es now e =
      let seen = seen_after py [] es in
      let t = parse_timestamp py e.timestamp in
      let raises = handle_raises_iff py now seen e in
      let first =
        mixed-differ t (last_of seen e.session_id).1
        ∙ ap (differ (awareness t)) (known-seen_after es [] e.session_id) in
      (λ h. sym first ∙ raises.0 h, λ h. raises.1 (first ∙ h))
