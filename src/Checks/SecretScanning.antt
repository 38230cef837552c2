-- ===== src/Checks/SecretScanning.antt =====
-- domain/checks.rs: `SecretScanningResult` with its metadata and probe facts.
use gh_report.Prelude.{
  ℕ, Bool, true, false, Option, none, some, Text, codes, is_some, if◌then◌else◌,
}
use gh_report.Checks.Score.{ExclusionReason, ScoreCategory}

pub data SecretScanningFailureReason : Type 0 where
  permission_denied permission_suspected rate_limited transient unavailable insufficient_evidence
        conflict invalid pending :
      SecretScanningFailureReason

pub data ProbeSource : Type 0 where
  org_summary per_repo_endpoint : ProbeSource

-- an `Option ℕ` is an HTTP status (u16)
pub data MetadataUnavailable : Type 0 where
  missing malformed : Option ℕ → MetadataUnavailable
  failure : SecretScanningFailureReason → Option ℕ → MetadataUnavailable

unfoldable pub metadata_failure_reason : MetadataUnavailable → SecretScanningFailureReason
metadata_failure_reason (missing http_status) = insufficient_evidence
metadata_failure_reason (malformed http_status) = invalid
metadata_failure_reason (failure reason http_status) = reason

pub data SecretScanningAlerts : Type 0 where
  observable : ProbeSource → Bool → Option ℕ → SecretScanningAlerts
  unobservable : ProbeSource → SecretScanningFailureReason → Option ℕ → SecretScanningAlerts

pub data EnabledProvenance : Type 0 where
  metadata : Option ℕ → SecretScanningAlerts → EnabledProvenance
  fallback : MetadataUnavailable → Bool → Option ℕ → EnabledProvenance

pub data DisabledObservation : Type 0 where
  no_mismatch : ProbeSource → Option ℕ → DisabledObservation
  status_mismatch : ProbeSource → Option ℕ → DisabledObservation
  probe_failed : ProbeSource → SecretScanningFailureReason → Option ℕ → DisabledObservation

pub data UnobservableProbe : Type 0 where
  failed : ProbeSource → SecretScanningFailureReason → Option ℕ → UnobservableProbe
  org_summary_observed : Bool → Option ℕ → UnobservableProbe

-- each ends with the timestamp
pub data SecretScanningResult : Type 0 where
  enabled : EnabledProvenance → Text → SecretScanningResult
  disabled : Option ℕ → DisabledObservation → Text → SecretScanningResult
  unobservable : MetadataUnavailable → UnobservableProbe → Text → SecretScanningResult

pub data SecretScanningStatus : Type 0 where
  enabled disabled permission_denied unknown : SecretScanningStatus

-- `PermissionDenied | PermissionSuspected`
abbrev pub is_permission : SecretScanningFailureReason → Bool
is_permission SecretScanningFailureReason.permission_denied = true
is_permission permission_suspected = true
is_permission _ = false

abbrev metadata_permission : MetadataUnavailable → Bool
metadata_permission (failure reason http_status) = is_permission reason
metadata_permission (missing http_status) = false
metadata_permission (malformed http_status) = false

abbrev probe_permission : UnobservableProbe → Bool
probe_permission (failed source reason http_status) = is_permission reason
probe_permission (org_summary_observed has_open_alerts http_status) = false

unfoldable pub status : SecretScanningResult → SecretScanningStatus
status (SecretScanningResult.enabled provenance timestamp) = SecretScanningStatus.enabled
status (SecretScanningResult.disabled http_status observation timestamp) =
    SecretScanningStatus.disabled
status (SecretScanningResult.unobservable m probe timestamp) =
    if metadata_permission m
    then SecretScanningStatus.permission_denied
    else if probe_permission probe
    then SecretScanningStatus.permission_denied
    else SecretScanningStatus.unknown

unfoldable pub timestamp_of : SecretScanningResult → Text
timestamp_of (SecretScanningResult.enabled provenance timestamp) = timestamp
timestamp_of (SecretScanningResult.disabled http_status observation timestamp) = timestamp
timestamp_of (SecretScanningResult.unobservable m probe timestamp) = timestamp

unfoldable pub with_timestamp : SecretScanningResult → Text → SecretScanningResult
with_timestamp (SecretScanningResult.enabled provenance _) t =
    SecretScanningResult.enabled provenance t
with_timestamp (SecretScanningResult.disabled http_status observation _) t =
    SecretScanningResult.disabled http_status observation t
with_timestamp (SecretScanningResult.unobservable m probe _) t =
    SecretScanningResult.unobservable m probe t

abbrev provenance_alerts : EnabledProvenance → Option Bool
provenance_alerts (metadata http_status (observable source has_open_alerts s)) =
    some has_open_alerts
provenance_alerts (metadata http_status (SecretScanningAlerts.unobservable source reason s)) = none
provenance_alerts (fallback m has_open_alerts http_status) = some has_open_alerts

unfoldable pub has_open_alerts : SecretScanningResult → Option Bool
has_open_alerts (SecretScanningResult.enabled provenance timestamp) = provenance_alerts provenance
has_open_alerts (SecretScanningResult.disabled http_status observation timestamp) = none
has_open_alerts (SecretScanningResult.unobservable m probe timestamp) = none

unfoldable pub alerts_observable : SecretScanningResult → Bool
unfolding has_open_alerts
alerts_observable r = is_some (has_open_alerts r)

abbrev is_mismatch : DisabledObservation → Bool
is_mismatch (status_mismatch source http_status) = true
is_mismatch (no_mismatch source http_status) = false
is_mismatch (probe_failed source reason http_status) = false

unfoldable pub has_status_mismatch : SecretScanningResult → Bool
has_status_mismatch (SecretScanningResult.disabled http_status observation timestamp) =
    is_mismatch observation
has_status_mismatch (SecretScanningResult.enabled provenance timestamp) = false
has_status_mismatch (SecretScanningResult.unobservable m probe timestamp) = false

abbrev provenance_failure : EnabledProvenance → Option SecretScanningFailureReason
provenance_failure (metadata http_status (SecretScanningAlerts.unobservable source reason s)) =
    some reason
provenance_failure (metadata http_status (observable source has_open_alerts s)) = none
provenance_failure (fallback m has_open_alerts http_status) = none

abbrev observation_failure : DisabledObservation → Option SecretScanningFailureReason
observation_failure (probe_failed source reason http_status) = some reason
observation_failure (no_mismatch source http_status) = none
observation_failure (status_mismatch source http_status) = none

abbrev probe_failure : MetadataUnavailable → UnobservableProbe → SecretScanningFailureReason
probe_failure m (failed source reason http_status) = reason
probe_failure m (org_summary_observed has_open_alerts http_status) = metadata_failure_reason m

unfoldable pub failure_reason : SecretScanningResult → Option SecretScanningFailureReason
unfolding metadata_failure_reason
failure_reason (SecretScanningResult.enabled provenance timestamp) = provenance_failure provenance
failure_reason (SecretScanningResult.disabled http_status observation timestamp) =
    observation_failure observation
failure_reason (SecretScanningResult.unobservable m probe timestamp) = some (probe_failure m probe)

abbrev reason_word : Option SecretScanningFailureReason → Option Text
reason_word none = none
reason_word (some SecretScanningFailureReason.permission_denied) = some (codes "permission_denied")
reason_word (some permission_suspected) = some (codes "permission_denied")
reason_word (some rate_limited) = some (codes "rate_limited")
reason_word (some transient) = some (codes "transient_error")
reason_word (some unavailable) = some (codes "alerts_unavailable")
reason_word (some insufficient_evidence) = some (codes "insufficient_evidence")
reason_word (some conflict) = some (codes "conflict")
reason_word (some invalid) = some (codes "collection_error")
reason_word (some pending) = some (codes "pending")

unfoldable pub reason_of : SecretScanningResult → Option Text
unfolding has_status_mismatch failure_reason
reason_of r =
    if has_status_mismatch r then some (codes "status_mismatch") else reason_word (failure_reason r)

-- `SecretScanningResult::unobservable`
unfoldable pub unobservable_for : SecretScanningFailureReason → Text → SecretScanningResult
unobservable_for reason timestamp =
    SecretScanningResult.unobservable (failure reason none) (failed per_repo_endpoint reason none)
      timestamp

abbrev pub unknown_exclusion : Option SecretScanningFailureReason → ExclusionReason
unknown_exclusion (some rate_limited) = ExclusionReason.other
unknown_exclusion (some transient) = ExclusionReason.other
unknown_exclusion (some invalid) = ExclusionReason.other
unknown_exclusion (some pending) = ExclusionReason.other
unknown_exclusion _ = ExclusionReason.unknown

abbrev pub score_with : SecretScanningStatus → Option SecretScanningFailureReason → ScoreCategory
score_with SecretScanningStatus.enabled reason = ScoreCategory.pass
score_with SecretScanningStatus.disabled reason = ScoreCategory.fail
score_with SecretScanningStatus.permission_denied reason =
    ScoreCategory.excluded ExclusionReason.permission_denied
score_with SecretScanningStatus.unknown reason = ScoreCategory.excluded (unknown_exclusion reason)

-- `From<&SecretScanningResult> for ScoreCategory`
unfoldable pub score : SecretScanningResult → ScoreCategory
unfolding status failure_reason
score r = score_with (status r) (failure_reason r)
