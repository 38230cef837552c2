-- ===== src/Checks/SecurityPolicy.antt =====
-- domain/checks.rs: `SecurityPolicyResult`.
use gh_report.Prelude.{Option, none, some, [], ◌∷◌, Text}
use gh_report.Checks.Score.{IndeterminateReason, ExclusionReason, ScoreCategory, exclusion_of}

-- `SecurityPolicyPath::new`: the path is not empty
pub record SecurityPolicyPath : Type 0 where
  pub raw : Text

unfoldable pub new_path : Text → Option SecurityPolicyPath
new_path [] = none
new_path (c ∷ raw) = some (record { raw = c ∷ raw })

pub data SecurityPolicyResult : Type 0 where
  enabled_by_setting : Text → SecurityPolicyResult
  enabled_by_file : SecurityPolicyPath → Text → SecurityPolicyResult
  absent : Text → SecurityPolicyResult
  unobservable : IndeterminateReason → Text → SecurityPolicyResult
  not_applicable : Text → SecurityPolicyResult

pub data SecurityPolicyStatus : Type 0 where
  pass fail unknown not_applicable : SecurityPolicyStatus

pub data SecurityPolicyEvidence : Type 0 where
  setting file absent permission_denied transient_error collection_error not_applicable :
      SecurityPolicyEvidence

unfoldable pub status : SecurityPolicyResult → SecurityPolicyStatus
status (enabled_by_setting timestamp) = SecurityPolicyStatus.pass
status (enabled_by_file path timestamp) = SecurityPolicyStatus.pass
status (SecurityPolicyResult.absent timestamp) = SecurityPolicyStatus.fail
status (unobservable reason timestamp) = SecurityPolicyStatus.unknown
status (SecurityPolicyResult.not_applicable timestamp) = SecurityPolicyStatus.not_applicable

abbrev evidence_of_reason : IndeterminateReason → SecurityPolicyEvidence
evidence_of_reason IndeterminateReason.permission_denied = SecurityPolicyEvidence.permission_denied
evidence_of_reason IndeterminateReason.permission_suspected =
    SecurityPolicyEvidence.permission_denied
evidence_of_reason IndeterminateReason.transient = transient_error
evidence_of_reason IndeterminateReason.rate_limited = collection_error
evidence_of_reason IndeterminateReason.invalid = collection_error
evidence_of_reason IndeterminateReason.pending = collection_error

unfoldable pub evidence : SecurityPolicyResult → SecurityPolicyEvidence
evidence (enabled_by_setting timestamp) = setting
evidence (enabled_by_file path timestamp) = file
evidence (SecurityPolicyResult.absent timestamp) = SecurityPolicyEvidence.absent
evidence (unobservable reason timestamp) = evidence_of_reason reason
evidence (SecurityPolicyResult.not_applicable timestamp) = SecurityPolicyEvidence.not_applicable

unfoldable pub path : SecurityPolicyResult → Option Text
path (enabled_by_file p timestamp) = some p.raw
path (enabled_by_setting timestamp) = none
path (SecurityPolicyResult.absent timestamp) = none
path (unobservable reason timestamp) = none
path (SecurityPolicyResult.not_applicable timestamp) = none

unfoldable pub timestamp_of : SecurityPolicyResult → Text
timestamp_of (enabled_by_setting timestamp) = timestamp
timestamp_of (enabled_by_file p timestamp) = timestamp
timestamp_of (SecurityPolicyResult.absent timestamp) = timestamp
timestamp_of (unobservable reason timestamp) = timestamp
timestamp_of (SecurityPolicyResult.not_applicable timestamp) = timestamp

-- `From<SecurityPolicyStatus> for ScoreCategory`
unfoldable pub score_of_status : SecurityPolicyStatus → ScoreCategory
score_of_status SecurityPolicyStatus.pass = ScoreCategory.pass
score_of_status SecurityPolicyStatus.fail = ScoreCategory.fail
score_of_status SecurityPolicyStatus.unknown = ScoreCategory.excluded ExclusionReason.unknown
score_of_status SecurityPolicyStatus.not_applicable =
    ScoreCategory.excluded ExclusionReason.not_applicable

-- `From<&SecurityPolicyResult> for ScoreCategory`
unfoldable pub score : SecurityPolicyResult → ScoreCategory
unfolding score_of_status status exclusion_of
score (unobservable reason timestamp) = ScoreCategory.excluded (exclusion_of reason)
score r = score_of_status (status r)
