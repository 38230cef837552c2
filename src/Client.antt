-- ===== src/Client.antt =====
-- github/client.rs: what a request to the API can come to, and how a run of attempts is reported.
pub mod Bodies
pub mod Transport
pub mod Paginate
pub mod Run
pub mod Categories
pub mod PageSteps
pub mod Pages
pub mod Retries
pub mod Bounds
pub mod Truncation
use gh_report.Prelude.{
  zero, suc, ℕ, ◌+◌, ◌≤◌, min, Bool, true, false, not, ◌&&◌, Option, none, some, List, [], ◌∷◌,
  ◌++◌, Text, codes, if◌then◌else◌, leb, length,
}
use gh_report.Metrics.{saturating_add}
use gh_report.Api.{ApiOutcome}

pub data PreDispatchFailure : Type 0 where
  halted_before_dispatch budget_acquire_cancelled : PreDispatchFailure
  credential_refresh_failed : Text → PreDispatchFailure

pub data MalformedPayloadKind : Type 0 where
  invalid_json empty_body not_an_array invalid_utf8 : MalformedPayloadKind

pub data RequestFailureKind : Type 0 where
  credential_refresh_failed : Text → RequestFailureKind
  -- error, timeout
  transport : Text → Bool → RequestFailureKind
  -- status code, error, retryable
  http : ℕ → Text → Bool → RequestFailureKind
  body_read : Option ℕ → Text → RequestFailureKind
  malformed_payload : ℕ → MalformedPayloadKind → Text → RequestFailureKind

unfoldable pub failure_status : RequestFailureKind → Option ℕ
failure_status (RequestFailureKind.credential_refresh_failed cause) = none
failure_status (transport error timeout) = none
failure_status (http code error retryable) = some code
failure_status (malformed_payload code kind error) = some code
failure_status (body_read code error) = code

unfoldable pub is_retryable_kind : RequestFailureKind → Bool
is_retryable_kind (transport error timeout) = true
is_retryable_kind (http code error retryable) = retryable
is_retryable_kind (RequestFailureKind.credential_refresh_failed cause) = false
is_retryable_kind (body_read code error) = false
is_retryable_kind (malformed_payload code kind error) = false

pub data RequestClassification : Type 0 where
  success : ℕ → Bool → RequestClassification
  malformed_payload : ℕ → MalformedPayloadKind → RequestClassification
  body_read : Option ℕ → RequestClassification
  http_error : Option ℕ → RequestClassification
  transport_error credential_refresh_failed budget_acquire_cancelled halted_before_dispatch :
      RequestClassification

module _ (V : Type 0) where
  pub record Payload : Type 0 where
    pub status : ℕ
    pub body : Option V
    pub headers : Option (List (Text × Text))
    pub truncated : Bool

  pub data AttemptResult : Type 0 where
    success : Payload → AttemptResult
    failure : RequestFailureKind → AttemptResult

  -- the attempts are a `NonZeroU32`
  pub data RunResult : Type 0 where
    never_dispatched : PreDispatchFailure → RunResult
    success : Payload → ℕ → RunResult
    failed : RequestFailureKind → ℕ → RunResult

  pub record RequestRun : Type 0 where
    pub result : RunResult
    pub halt_triggered : Bool

-- `NonZeroU32::new(attempt.saturating_add(1)).unwrap_or(NonZeroU32::MIN)`: never zero
abbrev pub attempts_after : ℕ → ℕ
attempts_after attempt = saturating_add attempt 1

module _ {V : Type 0} where
  unfoldable pub is_retryable : AttemptResult V → Bool
  unfolding is_retryable_kind
  is_retryable (AttemptResult.success p) = false
  is_retryable (AttemptResult.failure f) = is_retryable_kind f

  unfoldable pub attempt_status : AttemptResult V → Option ℕ
  unfolding failure_status
  attempt_status (AttemptResult.success p) = some p.status
  attempt_status (AttemptResult.failure f) = failure_status f

  unfoldable pub failure_outcome : RequestFailureKind → ApiOutcome V
  failure_outcome (RequestFailureKind.credential_refresh_failed cause) =
      ApiOutcome.failure none (codes "credential refresh failed: " ++ cause) false
  failure_outcome (transport error timeout) =
      ApiOutcome.failure none (if timeout then codes "timeout" else error) true
  failure_outcome (http code error retryable) = ApiOutcome.failure (some code) error retryable
  failure_outcome (body_read code error) =
      ApiOutcome.failure code (codes "body read error: " ++ error) false
  failure_outcome (malformed_payload code kind error) = ApiOutcome.failure (some code) error false

  abbrev payload_outcome : Payload V → ApiOutcome V
  payload_outcome p = ApiOutcome.success p.status p.body p.headers p.truncated

  unfoldable pub into_api_outcome : AttemptResult V → ApiOutcome V
  unfolding failure_outcome
  into_api_outcome (AttemptResult.success p) = payload_outcome p
  into_api_outcome (AttemptResult.failure f) = failure_outcome f

  unfoldable pub never_dispatched_run : PreDispatchFailure → RequestRun V
  never_dispatched_run cause = record {
    result = RunResult.never_dispatched cause;
    halt_triggered = false;
  }

  abbrev run_result : AttemptResult V → ℕ → RunResult V
  run_result (AttemptResult.success p) n = RunResult.success p n
  run_result (AttemptResult.failure f) n = RunResult.failed f n

  unfoldable pub from_attempt : AttemptResult V → ℕ → Bool → RequestRun V
  from_attempt result attempt halted = record {
    result = run_result result (attempts_after attempt);
    halt_triggered = halted;
  }

  abbrev success_result : RunResult V → Bool
  success_result (RunResult.success p n) = true
  success_result (RunResult.never_dispatched cause) = false
  success_result (RunResult.failed f n) = false

  unfoldable pub is_success : RequestRun V → Bool
  is_success run = success_result run.result

  abbrev truncated_result : RunResult V → Bool
  truncated_result (RunResult.success p n) = p.truncated
  truncated_result (RunResult.never_dispatched cause) = false
  truncated_result (RunResult.failed f n) = false

  unfoldable pub is_truncated : RequestRun V → Bool
  is_truncated run = truncated_result run.result

  abbrev retryable_result : RunResult V → Bool
  unfolding is_retryable_kind
  retryable_result (RunResult.failed f n) = is_retryable_kind f
  retryable_result (RunResult.never_dispatched cause) = false
  retryable_result (RunResult.success p n) = false

  unfoldable pub is_retries_exhausted : RequestRun V → Bool
  unfolding is_retryable_kind
  is_retries_exhausted run = not run.halt_triggered && retryable_result run.result

  abbrev attempts_result : RunResult V → ℕ
  attempts_result (RunResult.never_dispatched cause) = 0
  attempts_result (RunResult.success p n) = n
  attempts_result (RunResult.failed f n) = n

  unfoldable pub attempts_of : RequestRun V → ℕ
  attempts_of run = attempts_result run.result

  abbrev status_result : RunResult V → Option ℕ
  unfolding failure_status
  status_result (RunResult.never_dispatched cause) = none
  status_result (RunResult.success p n) = some p.status
  status_result (RunResult.failed f n) = failure_status f

  unfoldable pub run_status : RequestRun V → Option ℕ
  unfolding failure_status
  run_status run = status_result run.result

  abbrev kind_result : RunResult V → Option RequestFailureKind
  kind_result (RunResult.failed f n) = some f
  kind_result (RunResult.never_dispatched cause) = none
  kind_result (RunResult.success p n) = none

  unfoldable pub failure_kind : RequestRun V → Option RequestFailureKind
  failure_kind run = kind_result run.result

abbrev classify_cause : PreDispatchFailure → RequestClassification
classify_cause PreDispatchFailure.halted_before_dispatch =
    RequestClassification.halted_before_dispatch
classify_cause (PreDispatchFailure.credential_refresh_failed cause) =
    RequestClassification.credential_refresh_failed
classify_cause PreDispatchFailure.budget_acquire_cancelled =
    RequestClassification.budget_acquire_cancelled

abbrev classify_failure : RequestFailureKind → RequestClassification
classify_failure (RequestFailureKind.credential_refresh_failed cause) =
    RequestClassification.credential_refresh_failed
classify_failure (transport error timeout) = transport_error
classify_failure (http code error retryable) = http_error (some code)
classify_failure (RequestFailureKind.body_read code error) = RequestClassification.body_read code
classify_failure (RequestFailureKind.malformed_payload code kind error) =
    RequestClassification.malformed_payload code kind

abbrev pub cause_category : PreDispatchFailure → Text
cause_category PreDispatchFailure.halted_before_dispatch = codes "halted_before_dispatch"
cause_category (PreDispatchFailure.credential_refresh_failed cause) =
    codes "credential_refresh_failed"
cause_category PreDispatchFailure.budget_acquire_cancelled = codes "budget_acquire_cancelled"

abbrev pub failure_category : RequestFailureKind → Text
failure_category (RequestFailureKind.credential_refresh_failed cause) =
    codes "credential_refresh_failed"
failure_category (transport error timeout) = codes "transport_error"
failure_category (http code error retryable) = codes "http_error"
failure_category (RequestFailureKind.body_read code error) = codes "body_read_error"
failure_category (RequestFailureKind.malformed_payload code kind error) = codes "malformed_payload"

module _ {V : Type 0} where
  abbrev classify_result : RunResult V → RequestClassification
  classify_result (RunResult.never_dispatched cause) = classify_cause cause
  classify_result (RunResult.success p n) = RequestClassification.success p.status p.truncated
  classify_result (RunResult.failed f n) = classify_failure f

  unfoldable pub classification : RequestRun V → RequestClassification
  classification run = classify_result run.result

  unfoldable pub category_result : RunResult V → Bool → Text
  unfolding is_retryable_kind
  category_result (RunResult.never_dispatched cause) halted = cause_category cause
  category_result (RunResult.success p n) halted = codes "success"
  category_result (RunResult.failed f n) halted =
      if halted
      then codes "rate_limit_halt"
      else if is_retryable_kind f
      then codes "retry_exhausted"
      else failure_category f

  unfoldable pub terminal_category : RequestRun V → Text
  unfolding category_result
  terminal_category run = category_result run.result run.halt_triggered

  abbrev cause_outcome : PreDispatchFailure → ApiOutcome V
  cause_outcome PreDispatchFailure.halted_before_dispatch =
      ApiOutcome.failure none (codes "rate limit halt: remaining < 50") false
  cause_outcome (PreDispatchFailure.credential_refresh_failed cause) =
      ApiOutcome.failure none (codes "credential refresh failed: " ++ cause) false
  cause_outcome PreDispatchFailure.budget_acquire_cancelled =
      ApiOutcome.failure none (codes "budget acquire cancelled") false

  abbrev result_outcome : RunResult V → ApiOutcome V
  unfolding failure_outcome
  result_outcome (RunResult.never_dispatched cause) = cause_outcome cause
  result_outcome (RunResult.success p n) = payload_outcome p
  result_outcome (RunResult.failed f n) = failure_outcome f

  unfoldable pub outcome : RequestRun V → ApiOutcome V
  unfolding failure_outcome
  outcome run = result_outcome run.result
