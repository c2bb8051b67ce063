-- ===== src/Dashboard.antt =====
-- src/dashboard and src/aggregator: the display view of a result pair, and the aggregate of three.
use phantom_runtime_lite.Prelude.{ℕ, String, Bool, Option, List}
use phantom_runtime_lite.Value.{Value, Timestamp}
use phantom_runtime_lite.Verification.Data.{GapReason, Warning, VerificationResult}
use phantom_runtime_lite.Trust.{TrustLevel, ReviewReason, Factor, TrustResult}

pub record DashboardResult : Type 0 where
  pub schema_version : String
  pub source_event_id : Option String
  pub session_id : Option String
  pub timestamp : Timestamp
  pub gap_detected : Bool
  pub gap_reason : Option (List GapReason)
  pub fallback_detected : Bool
  pub reliability_score : ℕ
  pub reliable : Bool
  pub warnings : List Warning
  pub trust_score : ℕ
  pub trust_level : TrustLevel
  pub human_review_required : Bool
  pub review_reason : Option ReviewReason
  pub contributing_factors : List Factor
  pub conversation_line : Option Value
  pub speaker : Option Value
  pub transcript : Option Value

unfoldable pub render :
    Timestamp
    → VerificationResult
    → TrustResult
    → Option Value
    → Option Value
    → Option Value
    → DashboardResult
render now v t conversation_line speaker transcript = record {
  schema_version = "1.0";
  source_event_id = v.source_event_id;
  session_id = v.session_id;
  timestamp = now;
  gap_detected = v.gap_detected;
  gap_reason = v.gap_reason;
  fallback_detected = v.fallback_detected;
  reliability_score = v.reliability_score;
  reliable = v.reliable;
  warnings = v.warnings;
  trust_score = t.trust_score;
  trust_level = t.trust_level;
  human_review_required = t.human_review_required;
  review_reason = t.review_reason;
  contributing_factors = t.contributing_factors;
  conversation_line = conversation_line;
  speaker = speaker;
  transcript = transcript;
}

pub record EventAggregate : Type 0 where
  pub schema_version : String
  pub source_event_id : Option String
  pub session_id : Option String
  pub timestamp : Timestamp
  pub verification_result : VerificationResult
  pub trust_result : TrustResult
  pub dashboard_result : DashboardResult

unfoldable pub aggregate :
    Timestamp → VerificationResult → TrustResult → DashboardResult → EventAggregate
aggregate now v t d = record {
  schema_version = "1.0";
  source_event_id = d.source_event_id;
  session_id = d.session_id;
  timestamp = now;
  verification_result = v;
  trust_result = t;
  dashboard_result = d;
}
