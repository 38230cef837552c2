-- ===== src/PolicyCheck/Updates.antt =====
-- collector/dependabot.rs: the check of Dependabot's security updates.
use gh_report.Prelude.{Bool, not, Option, none, some, Text, codes, if◌then◌else◌, text_eq, ◌>>=◌}
use gh_report.Api.{Json, ApiOutcome, is_ok, status_code, payload_of, is_code}
use gh_report.Api
use gh_report.Checks.Dependabot.{DependabotResult, DependabotStatus}

abbrev status_of_word : Text → Option DependabotStatus
unfolding text_eq
status_of_word word =
    if text_eq word (codes "enabled")
    then some DependabotStatus.enabled
    else if text_eq word (codes "paused")
    then some DependabotStatus.paused
    else if text_eq word (codes "disabled")
    then some DependabotStatus.disabled
    else none

abbrev dependabot_result : DependabotStatus → Text → Option Text → DependabotResult
dependabot_result status timestamp reason = record {
  status = status;
  reason = reason;
  timestamp = timestamp;
}

module _ (J : Json) where
  open J use {Value, get, as_str}

  unfoldable pub extract_status : Value → Option DependabotStatus
  unfolding status_of_word
  extract_status value = do
    sa ← get value (codes "security_and_analysis")
    ds ← get sa (codes "dependabot_security_updates")
    v ← get ds (codes "status")
    word ← as_str v
    status_of_word word

  abbrev reported_status : ApiOutcome Value → Option DependabotStatus
  unfolding extract_status payload_of is_ok
  reported_status details =
      if is_ok details then (do value ← payload_of details; extract_status value) else none

  unfoldable pub evaluate_updates : Bool → ApiOutcome Value → Text → DependabotResult
  unfolding reported_status status_code Api.is_retryable
  evaluate_updates safe_name details timestamp =
      if not safe_name
      then dependabot_result DependabotStatus.unknown timestamp (some (codes "invalid_repo_name"))
      else elim (reported_status details) [
        | some status ↦ dependabot_result status timestamp none
        | none ↦
            if is_code 403 (status_code details)
            then dependabot_result DependabotStatus.unknown timestamp
                (some (codes "permission_denied"))
            else if Api.is_retryable details
            then dependabot_result DependabotStatus.unknown timestamp
                (some (codes "transient_error"))
            else dependabot_result DependabotStatus.unknown timestamp
                (some (codes "insufficient_evidence"))
      ]
