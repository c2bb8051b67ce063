-- ===== src/Verification/Conformance.antt =====
-- The payload checks of src/verification/verification_runtime.py against the event contract: what a
-- payload of each type has to be for no gap to be reported.
use phantom_runtime_lite.Prelude.{
  String, Bool, true, false, Option, none, some, List, [], ◌∷◌, ◌++◌, ◌≡◌, ◌≢◌, ◌↔◌, refl, arith,
  All, contains, string_eq, if◌then◌else◌, Bool-cases, inl, inr,
}
use phantom_runtime_lite.Prelude.Dict.{Dict, lookup, has}
use phantom_runtime_lite.Value.{
  Value, str, FieldType, number, isinstance, in_unit_interval, is_negative,
}
use phantom_runtime_lite.Verification.Data.{GapReason, undefined_state}
use phantom_runtime_lite.Verification.Checks.{
  or_default, required_fields, field_types, supported_states, latency_fields, missing_in,
  missing_reason, type_reason, type_reasons, confidence_reason, negative_reason, negative_reasons,
  state_reason, range_reasons, check_field_values, check_payload,
}

abbrev pub IsTyped : FieldType → Option Value → Type 0
IsTyped t none = Unit
IsTyped t (some v) = isinstance v t ≡ true

abbrev pub IsUnit : Option Value → Type 0
IsUnit none = Unit
IsUnit (some v) = isinstance v number ≡ true → in_unit_interval v ≡ true

abbrev pub IsNonNegative : Option Value → Type 0
IsNonNegative none = Unit
IsNonNegative (some v) = isinstance v number ≡ true → is_negative v ≡ false

abbrev pub IsSupported : Option Value → Type 0
IsSupported (some (str s)) = contains supported_states s ≡ true
IsSupported _ = Unit

-- A payload as the contract wants it for its event type: it is not empty, has the required fields,
-- each declared field that is there has its type, a confidence lies in [0.0, 1.0], no latency is
-- negative, and a state is one of the five.
pub record Conforms (t : String) (p : Dict String Value) : Type 0 where
  pub filled : p ≢ []
  pub complete : All (λ f. has f p ≡ true) (or_default [] (lookup t required_fields))
  pub typed : All (λ f. IsTyped f.1 (lookup f.0 p)) (or_default [] (lookup t field_types))
  pub confidence : t ≡ "transcript" → IsUnit (lookup "confidence" p)
  pub latency : t ≡ "latency" → All (λ f. IsNonNegative (lookup f p)) latency_fields
  pub state : t ≡ "status" → IsSupported (lookup "state" p)

append_nil_iff : (xs ys : List GapReason) → (xs ++ ys ≡ []) ↔ ((xs ≡ []) × (ys ≡ []))
append_nil_iff [] ys = (λ h. (refl, h), λ h. h.1)
append_nil_iff (x ∷ xs) ys = (λ h. cc, λ h. cc)

missing_iff :
    (t : String) (p : Dict String Value) (fs : List String)
    → (missing_reason t (missing_in p fs) ≡ []) ↔ All (λ f. has f p ≡ true) fs
unfolding missing_in missing_reason
missing_iff t p [] = (λ h. tt, λ h. refl)
missing_iff t p (f ∷ fs) = elim (Bool-cases (has f p)) [
  | inl e ↦ let i = missing_iff t p fs in (λ h. (e, i.0 (rw e at h)), λ h. rw e (i.1 h.1))
  | inr e ↦ (λ h. absurd (nonempty (rw e at h)), λ h. absurd (contradiction e h.0))
]
  where
    nonempty : missing_reason t (f ∷ missing_in p fs) ≡ [] → ⊥
    nonempty h = cc

    contradiction : has f p ≡ false → has f p ≡ true → ⊥
    contradiction a b = cc

type_iff : (f : String) (t : FieldType) (v : Option Value) → (type_reason f t v ≡ []) ↔ IsTyped t v
unfolding type_reason
type_iff f t none = (λ h. tt, λ h. refl)
type_iff f t (some v) = ground arith

types_iff :
    (ts : Dict String FieldType) (p : Dict String Value)
    → (type_reasons ts p ≡ []) ↔ All (λ f. IsTyped f.1 (lookup f.0 p)) ts
unfolding type_reasons
types_iff [] p = (λ h. tt, λ h. refl)
types_iff ((f, t) ∷ ts) p =
    let a = append_nil_iff (type_reason f t (lookup f p)) (type_reasons ts p) in
    let i = type_iff f t (lookup f p) in
    let r = types_iff ts p in (λ h. (i.0 (a.0 h).0, r.0 (a.0 h).1), λ h. a.1 (i.1 h.0, r.1 h.1))

confidence_iff : (v : Option Value) → (confidence_reason v ≡ []) ↔ IsUnit v
unfolding confidence_reason
confidence_iff none = (λ h. tt, λ h. refl)
confidence_iff (some v) = ground arith

negative_iff : (f : String) (v : Option Value) → (negative_reason f v ≡ []) ↔ IsNonNegative v
unfolding negative_reason
negative_iff f none = (λ h. tt, λ h. refl)
negative_iff f (some v) = ground arith

negatives_iff :
    (fs : List String) (p : Dict String Value)
    → (negative_reasons fs p ≡ []) ↔ All (λ f. IsNonNegative (lookup f p)) fs
unfolding negative_reasons
negatives_iff [] p = (λ h. tt, λ h. refl)
negatives_iff (f ∷ fs) p =
    let a = append_nil_iff (negative_reason f (lookup f p)) (negative_reasons fs p) in
    let i = negative_iff f (lookup f p) in
    let r = negatives_iff fs p in (λ h. (i.0 (a.0 h).0, r.0 (a.0 h).1), λ h. a.1 (i.1 h.0, r.1 h.1))

state_iff : (v : Option Value) → (state_reason v ≡ []) ↔ IsSupported v
unfolding state_reason
state_iff none = (λ h. tt, λ h. refl)
state_iff (some (str s)) = supported (contains supported_states s)
  where
    supported : (b : Bool) → ((if b then [] else undefined_state s ∷ []) ≡ []) ↔ (b ≡ true)
    supported true = (λ h. refl, λ h. refl)
    supported false = (λ h. cc, λ h. cc)
state_iff (some _) = (λ h. tt, λ h. refl)

module _ (t : String) (p : Dict String Value) where
  abbrev InRange : Type 0
  InRange =
      (t ≡ "transcript" → IsUnit (lookup "confidence" p))
      × (t ≡ "latency" → All (λ f. IsNonNegative (lookup f p)) latency_fields)
      × (t ≡ "status" → IsSupported (lookup "state" p))

  in_range : range_reasons t p ≡ [] → InRange
  unfolding range_reasons string_eq
  in_range h = (
    λ e. (confidence_iff (lookup "confidence" p)).0 (rw e at h),
    λ e. (negatives_iff latency_fields p).0 (rw e at h),
    λ e. (state_iff (lookup "state" p)).0 (rw e at h),
  )

  of_in_range : InRange → range_reasons t p ≡ []
  unfolding range_reasons
  of_in_range h =
      let c : t ≡ "transcript" → confidence_reason (lookup "confidence" p) ≡ [] =
        λ e. (confidence_iff (lookup "confidence" p)).1 (h.0 e) in
      let l : t ≡ "latency" → negative_reasons latency_fields p ≡ [] =
        λ e. (negatives_iff latency_fields p).1 (h.1 e) in
      let s : t ≡ "status" → state_reason (lookup "state" p) ≡ [] =
        λ e. (state_iff (lookup "state" p)).1 (h.2 e) in
      ground arith

check_payload_nonempty :
    (t : String) (e : String × Value) (p : Dict String Value)
    → (check_payload t (e ∷ p) ≡ []) ↔ (
        (missing_reason t (missing_in (e ∷ p) (or_default [] (lookup t required_fields))) ≡ [])
        × (type_reasons (or_default [] (lookup t field_types)) (e ∷ p) ≡ [])
        × (range_reasons t (e ∷ p) ≡ []))
unfolding check_payload check_field_values
check_payload_nonempty t e p =
    let required = or_default [] (lookup t required_fields) in
    let types = type_reasons (or_default [] (lookup t field_types)) (e ∷ p) in
    let range = range_reasons t (e ∷ p) in
    let a = append_nil_iff (missing_reason t (missing_in (e ∷ p) required)) (types ++ range) in
    let b = append_nil_iff types range in
    (λ h. ((a.0 h).0, (b.0 (a.0 h).1).0, (b.0 (a.0 h).1).1), λ h. a.1 (h.0, b.1 (h.1, h.2)))

pub check_payload_iff :
    (t : String) (p : Dict String Value) → (check_payload t p ≡ []) ↔ Conforms t p
unfolding check_payload
check_payload_iff t [] = (λ h. cc, λ h. absurd (h.filled refl))
check_payload_iff t (e ∷ p) =
    let n = check_payload_nonempty t e p in
    let m = missing_iff t (e ∷ p) (or_default [] (lookup t required_fields)) in
    let y = types_iff (or_default [] (lookup t field_types)) (e ∷ p) in
    (
      λ h.
          let r = in_range t (e ∷ p) (n.0 h).2 in
          record {
            filled = λ q. cc;
            complete = m.0 (n.0 h).0;
            typed = y.0 (n.0 h).1;
            confidence = r.0;
            latency = r.1;
            state = r.2;
          },
      λ h.
          n.1
            (m.1 h.complete, y.1 h.typed, of_in_range t (e ∷ p) (h.confidence, h.latency, h.state)),
    )
