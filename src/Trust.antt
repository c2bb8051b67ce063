-- ===== src/Trust.antt =====
-- src/trust/trust_runtime.py and trust_result.py: the Trust Runtime. A trust score is kept in half
-- percents, so that half of a reliability percentage is a whole number of them; review reasons and
-- factors are kept as the data that their texts are formatted from.
pub mod Policy
use phantom_runtime_lite.Prelude.{
  ℕ, ◌+◌, ◌-◌, ◌*◌, min, String, Bool, true, false, not, ◌&&◌, Option, none, some, List, [], ◌∷◌,
  ◌++◌, leb, length, if◌then◌else◌,
}
use phantom_runtime_lite.Value.{Timestamp}
use phantom_runtime_lite.Verification.Data.{GapReason, Warning, VerificationResult}

pub data TrustLevel : Type 0 where
  trusted caution untrusted : TrustLevel

pub data Factor : Type 0 where
  gap_factor : Option (List GapReason) → Factor
  fallback_factor : Option String → Factor
  unreliable_factor : Factor
  warnings_factor : ℕ → Factor
  no_factor : Factor

pub data ReviewReason : Type 0 where
  level_reason : TrustLevel → ℕ → ReviewReason
  gap_and_fallback_reason : ReviewReason

pub data TrustExplanation : Type 0 where
  classified : TrustLevel → ℕ → List Factor → TrustExplanation

pub record TrustResult : Type 0 where
  pub schema_version : String
  pub source_event_id : Option String
  pub session_id : Option String
  pub timestamp : Timestamp
  pub trust_score : ℕ
  pub trust_level : TrustLevel
  pub human_review_required : Bool
  pub review_reason : Option ReviewReason
  pub contributing_factors : List Factor
  pub explanation : TrustExplanation

-- 0.05 for each warning, 0.15 at most
unfoldable pub warning_penalty : ℕ → ℕ
warning_penalty n = min (10 * n) 30

-- r * 0.5 + 0.5, less 0.2 for a gap, 0.2 for a fallback and the penalty for the warnings, clamped
-- to [0, 1]. The sum stops at 0 as the clamp does, and nothing is added after a penalty.
unfoldable pub policy_score : VerificationResult → ℕ
unfolding warning_penalty
policy_score r =
    let base = r.reliability_score + 100 in
    let after_gap = if r.gap_detected then base - 40 else base in
    let after_fallback = if r.fallback_detected then after_gap - 40 else after_gap in
    min 200 (after_fallback - warning_penalty (length r.warnings))

abbrev when : Bool → Factor → List Factor
when b f = if b then f ∷ [] else []

abbrev warning_factors : List Warning → List Factor
warning_factors [] = []
warning_factors (w ∷ ws) = warnings_factor (length (w ∷ ws)) ∷ []

abbrev or_no_factor : List Factor → List Factor
or_no_factor [] = no_factor ∷ []
or_no_factor (f ∷ fs) = f ∷ fs

unfoldable pub policy_factors : VerificationResult → List Factor
policy_factors r = or_no_factor (
    when r.gap_detected (gap_factor r.gap_reason)
    ++ (when r.fallback_detected (fallback_factor r.fallback_reason)
        ++ (when (not r.reliable) unreliable_factor ++ warning_factors r.warnings)))

unfoldable pub classify_trust_level : ℕ → TrustLevel
classify_trust_level score =
    if leb 150 score then trusted else if leb 80 score then caution else untrusted

unfoldable pub recommend_review : VerificationResult → ℕ → TrustLevel → Bool × Option ReviewReason
recommend_review r score untrusted = (true, some (level_reason untrusted score))
recommend_review r score level =
    if r.gap_detected && r.fallback_detected
    then (true, some gap_and_fallback_reason)
    else (false, none)

unfoldable pub handle : Timestamp → VerificationResult → TrustResult
unfolding policy_score policy_factors classify_trust_level recommend_review
handle now r =
    let score = policy_score r in
    let factors = policy_factors r in
    let level = classify_trust_level score in
    let (review, reason) = recommend_review r score level in
    record {
      schema_version = "1.0";
      source_event_id = r.source_event_id;
      session_id = r.session_id;
      timestamp = now;
      trust_score = score;
      trust_level = level;
      human_review_required = review;
      review_reason = reason;
      contributing_factors = factors;
      explanation = classified level score factors;
    }
