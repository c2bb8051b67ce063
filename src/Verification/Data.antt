-- ===== src/Verification/Data.antt =====
-- src/verification/verification_result.py, and the RuntimeEvent envelope that
-- src/verification/verification_runtime.py reads. A message is kept as the data that its text is
-- formatted from, and a score as a percentage.
use phantom_runtime_lite.Prelude.{ℕ, String, Bool, Option, List, ℤ}
use phantom_runtime_lite.Prelude.Dict.{Dict}
use phantom_runtime_lite.Value.{Value, FieldType, Timestamp}

-- A RuntimeEvent envelope; a key that is absent is `none` (`null` for the untyped timestamp).
pub record Event : Type 0 where
  pub schema_version : String
  pub event_id : Option String
  pub timestamp : Value
  pub session_id : Option String
  pub sequence : Option ℤ
  pub type : Option String
  pub payload : Option (Dict String Value)

pub data GapReason : Type 0 where
  missing_payload : String → GapReason
  missing_fields : List String → String → GapReason
  unexpected_type : String → FieldType → GapReason
  confidence_out_of_range : GapReason
  negative_field : String → GapReason
  undefined_state : String → GapReason
  sequence_regression : ℤ → ℤ → GapReason
  timestamp_backwards : GapReason

pub data Warning : Type 0 where
  unknown_event_type : Option String → Warning
  gap_warning : List GapReason → Warning
  fallback_warning : String → Warning

pub data Explanation : Type 0 where
  nothing_found : Option String → Explanation
  found : Option String → Option (List GapReason) → Option String → Explanation

pub record VerificationResult : Type 0 where
  pub schema_version : String
  pub source_event_id : Option String
  pub session_id : Option String
  pub timestamp : Timestamp
  pub gap_detected : Bool
  pub gap_reason : Option (List GapReason)
  pub fallback_detected : Bool
  pub fallback_reason : Option String
  pub reliable : Bool
  pub reliability_score : ℕ
  pub warnings : List Warning
  pub explanation : Explanation

-- `a < b` on datetimes raises TypeError where one has an offset and the other has none.
pub data Result {ℓ} (A : Type ℓ) : Type ℓ where
  ok : A → Result A
  type_error : Result A

-- `_last_seen`
abbrev pub LastSeen : Type 0
LastSeen = Dict (Option String) (Option ℤ × Option Timestamp)
