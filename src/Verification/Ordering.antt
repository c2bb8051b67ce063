-- ===== src/Verification/Ordering.antt =====
-- The ordering rule of src/verification/verification_runtime.py across a stream of events.
use phantom_runtime_lite.Prelude.{
  String, Bool, true, false, not, Option, none, some, List, [], ◌∷◌, ◌≡◌, ◌≢◌, ◌↔◌, refl, arith, ℤ,
  all, all-append, ◌==◌, contains, string_eq, option_eq, if◌then◌else◌,
}
use phantom_runtime_lite.Prelude.Dict.{Dict, lookup, insert, lookup-insert}
use phantom_runtime_lite.Value.{Value, str, FieldType, Timestamp, Python}
use phantom_runtime_lite.Verification.Data.{
  Event, GapReason, undefined_state, sequence_regression, timestamp_backwards, Result, ok,
  type_error, LastSeen,
}
use phantom_runtime_lite.Verification.Checks.{
  or_default, missing_in, missing_reason, type_reasons, type_reason, confidence_reason,
  negative_reasons, negative_reason, state_reason, check_field_values, check_payload,
  timestamp_reasons, newest, last_of, parse_timestamp, same_awareness, known_event_types,
  supported_states, field_types, range_reasons, latency_fields,
}
use phantom_runtime_lite.Verification.Handle.{
  settle, check_ordering, payload_reasons, finish, handle,
}

-- The two ordering reasons, told apart from those about the payload.
abbrev pub is_ordering : GapReason → Bool
is_ordering (sequence_regression _ _) = true
is_ordering timestamp_backwards = true
is_ordering _ = false

abbrev pub about_payload : GapReason → Bool
about_payload r = not (is_ordering r)

if_kind :
    (b : Bool) (xs ys : List GapReason)
    → all about_payload xs ≡ true
    → all about_payload ys ≡ true
    → all about_payload (if b then xs else ys) ≡ true
if_kind true xs ys hx hy = hx
if_kind false xs ys hx hy = hy

type_reason_kind :
    (f : String) (t : FieldType) (v : Option Value) → all about_payload (type_reason f t v) ≡ true
unfolding type_reason
type_reason_kind f t v = ground arith

negative_reason_kind :
    (f : String) (v : Option Value) → all about_payload (negative_reason f v) ≡ true
unfolding negative_reason
negative_reason_kind f v = ground arith

type_reasons_kind :
    (ts : Dict String FieldType) (p : Dict String Value)
    → all about_payload (type_reasons ts p) ≡ true
unfolding type_reasons
type_reasons_kind [] p = refl
type_reasons_kind ((f, t) ∷ ts) p =
    rw (all-append, type_reason_kind f t (lookup f p)) (type_reasons_kind ts p)

negative_reasons_kind :
    (fs : List String) (p : Dict String Value) → all about_payload (negative_reasons fs p) ≡ true
unfolding negative_reasons
negative_reasons_kind [] p = refl
negative_reasons_kind (f ∷ fs) p =
    rw (all-append, negative_reason_kind f (lookup f p)) (negative_reasons_kind fs p)

confidence_reason_kind : (v : Option Value) → all about_payload (confidence_reason v) ≡ true
unfolding confidence_reason
confidence_reason_kind v = ground arith

state_reason_kind : (v : Option Value) → all about_payload (state_reason v) ≡ true
unfolding state_reason
state_reason_kind none = refl
state_reason_kind (some (str s)) =
    if_kind (contains supported_states s) [] (undefined_state s ∷ []) refl refl
state_reason_kind (some _) = refl

range_reasons_kind :
    (t : String) (p : Dict String Value) → all about_payload (range_reasons t p) ≡ true
unfolding range_reasons
range_reasons_kind t p = ground (
  arith,
  confidence_reason_kind (lookup "confidence" p),
  negative_reasons_kind latency_fields p,
  state_reason_kind (lookup "state" p),
)

check_field_values_kind :
    (t : String) (p : Dict String Value) → all about_payload (check_field_values t p) ≡ true
unfolding check_field_values
check_field_values_kind t p =
    rw (all-append, type_reasons_kind (or_default [] (lookup t field_types)) p)
      (range_reasons_kind t p)

missing_reason_kind :
    (t : String) (fs : List String) → all about_payload (missing_reason t fs) ≡ true
unfolding missing_reason
missing_reason_kind t fs = ground arith

-- The checks of a payload report nothing about ordering.
pub check_payload_kind :
    (t : String) (p : Dict String Value) → all about_payload (check_payload t p) ≡ true
unfolding check_payload
check_payload_kind t [] = refl
check_payload_kind t (e ∷ p) =
    rw (all-append, missing_reason_kind t (missing_in (e ∷ p) _))
      (check_field_values_kind t (e ∷ p))

pub payload_reasons_kind :
    (t : Option String) (p : Dict String Value) → all about_payload (payload_reasons t p) ≡ true
unfolding payload_reasons
payload_reasons_kind none p = refl
payload_reasons_kind (some t) p =
    if_kind (contains known_event_types t) (check_payload t p) [] (check_payload_kind t p) refl

-- Whether an event of this state raises: both timestamps are there, and one alone has an offset.
abbrev pub mixed_awareness : Option Timestamp → Option Timestamp → Bool
mixed_awareness (some t) (some last) = not (same_awareness t.aware last.aware)
mixed_awareness _ _ = false

raises_iff :
    (t last : Option Timestamp)
    → (timestamp_reasons t last ≡ type_error) ↔ (mixed_awareness t last ≡ true)
unfolding timestamp_reasons
raises_iff none last = (λ h. cc, λ h. cc)
raises_iff (some t) none = (λ h. cc, λ h. cc)
raises_iff (some t) (some last) = ground arith

finish_raises :
    (py : Python) (now : Timestamp) (e : Event) (o : Result (List GapReason) × LastSeen)
    → ((finish py now e o).0 ≡ type_error) ↔ (o.0 ≡ type_error)
unfolding finish
finish_raises py now e (ok rs, seen) = (λ h. cc, λ h. cc)
finish_raises py now e (type_error, seen) = (λ h. refl, λ h. refl)

settle_raises :
    (seen : LastSeen) (e : Event) (t : Option Timestamp) (last : Option ℤ × Option Timestamp)
    (r : Result (List GapReason))
    → ((settle seen e t last r).0 ≡ type_error) ↔ (r ≡ type_error)
unfolding settle
settle_raises seen e t last (ok rs) = (λ h. cc, λ h. cc)
settle_raises seen e t last type_error = (λ h. refl, λ h. refl)

-- `handle` raises exactly if the event has a timestamp and so has what was last seen of its session, and
-- one of the two alone has a UTC offset.
pub handle_raises_iff :
    (py : Python) (now : Timestamp) (seen : LastSeen) (e : Event)
    → ((handle py now seen e).0 ≡ type_error)
      ↔ (mixed_awareness (parse_timestamp py e.timestamp) (last_of seen e.session_id).1 ≡ true)
unfolding handle check_ordering
handle_raises_iff py now seen e =
    let t = parse_timestamp py e.timestamp in
    let last = last_of seen e.session_id in
    let f = finish_raises py now e (check_ordering py seen e) in
    let s = settle_raises seen e t last (timestamp_reasons t last.1) in
    let r = raises_iff t last.1 in (λ h. r.0 (s.0 (f.0 h)), λ h. f.1 (s.1 (r.1 h)))

pub last_of-insert :
    (s s' : Option String) (v : Option ℤ × Option Timestamp) (seen : LastSeen)
    → last_of (insert s v seen) s' ≡ (if s' == s then v else last_of seen s')
unfolding last_of
last_of-insert s s' v seen = ground (arith, lookup-insert s' s v seen)

last_of-settle :
    (seen : LastSeen) (e : Event) (t : Option Timestamp) (last : Option ℤ × Option Timestamp)
    (r : Result (List GapReason)) (s : Option String)
    → s ≢ e.session_id
    → last_of (settle seen e t last r).1 s ≡ last_of seen s
unfolding settle
last_of-settle seen e t last type_error s h = refl
last_of-settle seen e t last (ok rs) s h =
    ground (arith, last_of-insert e.session_id s (newest e.sequence last.0, newest t last.1) seen)

pub finish-seen :
    (py : Python) (now : Timestamp) (e : Event) (o : Result (List GapReason) × LastSeen)
    → (finish py now e o).1 ≡ o.1
unfolding finish
finish-seen py now e (ok rs, seen) = refl
finish-seen py now e (type_error, seen) = refl

-- An event of one session leaves what is known of every other session.
pub handle-last_of :
    (py : Python) (now : Timestamp) (seen : LastSeen) (e : Event) (s : Option String)
    → s ≢ e.session_id
    → last_of (handle py now seen e).1 s ≡ last_of seen s
unfolding handle check_ordering
handle-last_of py now seen e s h =
    rw (finish-seen py now e (check_ordering py seen e))
      (last_of-settle seen e _ (last_of seen e.session_id) (timestamp_reasons _ _) s h)
