-- ===== src/Trust/Policy.antt =====
-- What the Trust Policy of src/trust/trust_runtime.py promises.
use phantom_runtime_lite.Prelude.{ℕ, ◌≤◌, ◌<◌, ◌≡◌, ◌↔◌, ◌⊎◌, true, arith, length}
use phantom_runtime_lite.Verification.Data.{VerificationResult}
use phantom_runtime_lite.Trust.{policy_score, warning_penalty, handle}
use phantom_runtime_lite.Value.{Timestamp}

-- `b` reports at least what `a` reports.
pub record ReportsMore (a b : VerificationResult) : Type 0 where
  pub less_reliable : b.reliability_score ≤ a.reliability_score
  pub gap : a.gap_detected ≡ true → b.gap_detected ≡ true
  pub fallback : a.fallback_detected ≡ true → b.fallback_detected ≡ true
  pub more_warnings : length a.warnings ≤ length b.warnings

penalty_mono : (m n : ℕ) → m ≤ n → warning_penalty m ≤ warning_penalty n
unfolding warning_penalty
penalty_mono m n h = omega arith

-- A result that is less reliable, keeps every gap and fallback signal and has at least as many
-- warnings never gets a higher trust score.
policy_score_antitone :
    (a b : VerificationResult) → ReportsMore a b → policy_score b ≤ policy_score a
unfolding policy_score
policy_score_antitone a b h = ground (arith, penalty_mono (length a.warnings) (length b.warnings))

-- A review is asked for exactly if the trust score is below 0.4 or both a gap and a fallback were reported.
pub review_required_iff :
    (now : Timestamp) (r : VerificationResult)
    → ((handle now r).human_review_required ≡ true)
      ↔ ((policy_score r < 80) ⊎ ((r.gap_detected ≡ true) × (r.fallback_detected ≡ true)))
unfolding handle
review_required_iff now r = ground arith
