-- ===== src/Scanning/Repositories.antt =====
-- collector/ghas_scanning.rs: the secret-scanning check of one repository.
use gh_report.Prelude.{
  ℕ, ltb, Bool, true, false, not, ◌&&◌, ◌||◌, Option, none, some, List, [], ◌∷◌, Text, codes,
  if◌then◌else◌, text_eq, is_empty,
}
use gh_report.OrderedMap
use gh_report.Repository.{Repository}
use gh_report.Org.{CollectionStatus, RepoAlertSummary, OrgAlertSummary}
use gh_report.Api.{Json, ApiOutcome, is_ok, status_code, payload_of, is_code}
use gh_report.Api
use gh_report.Scanning.{scope_key}
use gh_report.Checks.SecretScanning.{
  SecretScanningFailureReason, org_summary, per_repo_endpoint, MetadataUnavailable, missing,
  malformed, failure, SecretScanningAlerts, DisabledObservation, UnobservableProbe,
  SecretScanningResult, rate_limited, transient, unavailable, conflict, invalid, metadata, fallback,
  no_mismatch, status_mismatch, probe_failed, org_summary_observed, observable,
}

pub data RepoMetadata : Type 0 where
  enabled disabled : Option ℕ → RepoMetadata
  not_available : MetadataUnavailable → RepoMetadata

module _ {V : Type 0} where
  unfoldable pub failure_reason : ApiOutcome V → SecretScanningFailureReason
  unfolding status_code Api.is_retryable
  failure_reason outcome =
      let code = status_code outcome in
      if is_code 401 code || is_code 403 code
      then SecretScanningFailureReason.permission_denied
      else if is_code 404 code
      then unavailable
      else if is_code 429 code
      then rate_limited
      else if Api.is_retryable outcome
      then transient
      else invalid

module _ (J : Json) where
  open J use {Value, get, as_str, as_array, is_object, is_null}

  abbrev metadata_of_status : Option Text → Option ℕ → RepoMetadata
  unfolding text_eq
  metadata_of_status none code = not_available (malformed code)
  metadata_of_status (some s) code =
      if text_eq s (codes "enabled")
      then enabled code
      else if text_eq s (codes "disabled")
      then disabled code
      else not_available (malformed code)

  abbrev field : Value → Text → Option Value
  field node name = elim (get node name) [
    | none ↦ none
    | some value ↦ if is_null value then none else some value
  ]

  -- the loop over the names of the fields, of which the last is `status`
  abbrev descend : List Text → Value → Option ℕ → RepoMetadata
  unfolding metadata_of_status
  descend [] node code = metadata_of_status (as_str node) code
  descend (name ∷ names) node code = elim (field node name) [
    | none ↦ not_available (missing code)
    | some value ↦
        if not (is_empty names) && not (is_object value)
        then not_available (malformed code)
        else descend names value code
  ]

  abbrev metadata_of_data : Option Value → Option ℕ → RepoMetadata
  unfolding descend
  metadata_of_data none code = not_available (malformed code)
  metadata_of_data (some node) code =
      if is_object node
      then descend (codes "security_and_analysis" ∷ codes "secret_scanning" ∷ codes "status" ∷ [])
          node code
      else not_available (malformed code)

  unfoldable pub extract_repo_metadata : ApiOutcome Value → RepoMetadata
  unfolding metadata_of_data is_ok status_code failure_reason payload_of
  extract_repo_metadata outcome =
      if not (is_ok outcome)
      then not_available (failure (failure_reason outcome) (status_code outcome))
      else metadata_of_data (payload_of outcome) (status_code outcome)

  abbrev probe_items : ApiOutcome Value → Option (List Value) → SecretScanningAlerts
  unfolding is_ok status_code failure_reason Api.is_truncated
  probe_items outcome items =
      if not (is_ok outcome)
      then SecretScanningAlerts.unobservable per_repo_endpoint (failure_reason outcome)
          (status_code outcome)
      else if Api.is_truncated outcome
      then SecretScanningAlerts.unobservable per_repo_endpoint invalid (status_code outcome)
      else elim items [
        | some alerts ↦ observable per_repo_endpoint (not (is_empty alerts)) (status_code outcome)
        | none ↦ SecretScanningAlerts.unobservable per_repo_endpoint invalid (status_code outcome)
      ]

  abbrev array_in : Option Value → Option (List Value)
  array_in none = none
  array_in (some v) = as_array v

  unfoldable pub endpoint_probe : ApiOutcome Value → SecretScanningAlerts
  unfolding probe_items payload_of
  endpoint_probe outcome = probe_items outcome (array_in (payload_of outcome))

abbrev reason_is : Text → Option Text → Bool
unfolding text_eq
reason_is word none = false
reason_is word (some reason) = text_eq reason word

abbrev unavailable_reason : Option Text → SecretScanningFailureReason
unfolding reason_is
unavailable_reason reason =
    if reason_is (codes "malformed_response") reason
      || (reason_is (codes "malformed_alert_item") reason
          || reason_is (codes "alert_correlation_unidentifiable") reason)
    then invalid
    else if reason_is (codes "alert_coordinate_conflict") reason
        || reason_is (codes "repository_alias_collision") reason
    then conflict
    else if reason_is (codes "rate_limited") reason
    then rate_limited
    else unavailable

abbrev pub has_open : Option RepoAlertSummary → Bool
has_open none = false
has_open (some s) = ltb 0 s.open_alert_count

unfoldable pub probe_of_status :
    CollectionStatus → Repository → OrgAlertSummary → SecretScanningAlerts
unfolding unavailable_reason
probe_of_status CollectionStatus.success repo s =
    observable org_summary (has_open (OrderedMap.get (scope_key repo) s.per_repo)) s.http_status
probe_of_status CollectionStatus.permission_denied repo s =
    SecretScanningAlerts.unobservable org_summary SecretScanningFailureReason.permission_denied
      s.http_status
probe_of_status CollectionStatus.transient_error repo s =
    SecretScanningAlerts.unobservable org_summary transient s.http_status
probe_of_status CollectionStatus.not_collected repo s =
    SecretScanningAlerts.unobservable org_summary (unavailable_reason s.collection_reason)
      s.http_status
probe_of_status CollectionStatus.unavailable repo s =
    SecretScanningAlerts.unobservable org_summary (unavailable_reason s.collection_reason)
      s.http_status

unfoldable pub org_probe : Repository → OrgAlertSummary → SecretScanningAlerts
unfolding probe_of_status
org_probe repo summary = probe_of_status summary.collection_status repo summary

abbrev disabled_observation : SecretScanningAlerts → DisabledObservation
disabled_observation (observable source false code) = no_mismatch source code
disabled_observation (observable source true code) = status_mismatch source code
disabled_observation (SecretScanningAlerts.unobservable source reason code) =
    probe_failed source reason code

unfoldable pub from_observations : RepoMetadata → SecretScanningAlerts → Text → SecretScanningResult
from_observations (enabled code) alerts timestamp =
    SecretScanningResult.enabled (metadata code alerts) timestamp
from_observations (disabled code) probe timestamp =
    SecretScanningResult.disabled code (disabled_observation probe) timestamp
from_observations (not_available m) (observable per_repo_endpoint flag code) timestamp =
    SecretScanningResult.enabled (fallback m flag code) timestamp
from_observations (not_available m) (observable org_summary flag code) timestamp =
    SecretScanningResult.unobservable m (org_summary_observed flag code) timestamp
from_observations (not_available m) (SecretScanningAlerts.unobservable source reason code)
      timestamp =
    SecretScanningResult.unobservable m (UnobservableProbe.failed source reason code) timestamp

-- `SecretScanningResult::unobservable`
unfoldable pub unobservable_with : SecretScanningFailureReason → Text → SecretScanningResult
unobservable_with reason timestamp =
    SecretScanningResult.unobservable (failure reason none)
      (UnobservableProbe.failed per_repo_endpoint reason none) timestamp

module _ (J : Json) where
  -- the name test is a library's; the details and the alerts are the answers to the two requests,
  -- of which the second is made only without a summary
  unfoldable pub evaluate :
      Bool
      → ApiOutcome J.Value
      → ApiOutcome J.Value
      → Repository
      → Text
      → Option OrgAlertSummary
      → SecretScanningResult
  unfolding from_observations org_probe endpoint_probe extract_repo_metadata unobservable_with
  evaluate safe_name details alerts repo run_timestamp none =
      if not safe_name
      then unobservable_with invalid run_timestamp
      else from_observations (extract_repo_metadata J details) (endpoint_probe J alerts)
          run_timestamp
  evaluate safe_name details alerts repo run_timestamp (some summary) =
      if not safe_name
      then unobservable_with invalid run_timestamp
      else from_observations (extract_repo_metadata J details) (org_probe repo summary)
          run_timestamp
