-- ===== src/WritePolicy.antt =====
-- app/write_policy.rs and `persist_error_variant` of error.rs: what a failed durable write leads
-- to. `PersistenceError` is a type of a storage library: it is a parameter, seen through the
-- variant that the program's exhaustive matches tell apart.
pub mod Policy
pub mod Retry
use gh_report.Prelude.{ℕ, zero, suc, ◌+◌, Bool, true, false, Option, none, some, List, Text, codes}

-- the variants of `PersistenceError` as the matches name them; a conflict carries the expected and
-- the actual sequence number (u64)
pub data Variant : Type 0 where
  indeterminate lock_failed atomic_write_failed load_failed torn_write_recovery : Variant
  fenced_conflict : Option ℕ → Option ℕ → Variant
  backend_unavailable invariant_violation poisoned_state io : Variant

pub data WritePolicyCategory : Type 0 where
  reconciliation_required conflict transient structural unrecoverable : WritePolicyCategory

pub data WriteResponse : Type 0 where
  fatal bounded_retry http_non2xx : WriteResponse

pub data Level : Type 0 where
  warn error : Level

-- `BOUNDED_RETRY_ATTEMPTS`
abbrev pub bounded_retry_attempts : ℕ
bounded_retry_attempts = 3

-- `WritePolicyCategory::classify`
unfoldable pub classify_variant : Variant → WritePolicyCategory
classify_variant indeterminate = reconciliation_required
classify_variant (fenced_conflict expected actual) = conflict
classify_variant backend_unavailable = transient
classify_variant invariant_violation = structural
classify_variant poisoned_state = unrecoverable
classify_variant torn_write_recovery = unrecoverable
classify_variant lock_failed = unrecoverable
classify_variant atomic_write_failed = unrecoverable
classify_variant load_failed = unrecoverable
classify_variant io = unrecoverable

-- `WritePolicyCategory::response`
unfoldable pub response_of : WritePolicyCategory → WriteResponse
response_of conflict = fatal
response_of structural = fatal
response_of unrecoverable = fatal
response_of reconciliation_required = fatal
response_of transient = bounded_retry

unfoldable pub severity_for : WritePolicyCategory → Level
severity_for conflict = warn
severity_for transient = error
severity_for reconciliation_required = error
severity_for structural = error
severity_for unrecoverable = error

-- the level that `log_write_failure` logs at
unfoldable pub logged_level : WriteResponse → Level
logged_level fatal = error
logged_level bounded_retry = warn
logged_level http_non2xx = warn

unfoldable pub conflict_seq_fields : Variant → Option ℕ × Option ℕ
conflict_seq_fields (fenced_conflict expected actual) = (expected, actual)
conflict_seq_fields indeterminate = (none, none)
conflict_seq_fields lock_failed = (none, none)
conflict_seq_fields atomic_write_failed = (none, none)
conflict_seq_fields load_failed = (none, none)
conflict_seq_fields torn_write_recovery = (none, none)
conflict_seq_fields backend_unavailable = (none, none)
conflict_seq_fields invariant_violation = (none, none)
conflict_seq_fields poisoned_state = (none, none)
conflict_seq_fields io = (none, none)

unfoldable pub persist_error_variant : Variant → Text
persist_error_variant indeterminate = codes "Indeterminate"
persist_error_variant lock_failed = codes "LockFailed"
persist_error_variant atomic_write_failed = codes "AtomicWriteFailed"
persist_error_variant load_failed = codes "LoadFailed"
persist_error_variant torn_write_recovery = codes "TornWriteRecovery"
persist_error_variant (fenced_conflict expected actual) = codes "FencedConflict"
persist_error_variant backend_unavailable = codes "BackendUnavailable"
persist_error_variant invariant_violation = codes "InvariantViolation"
persist_error_variant poisoned_state = codes "PoisonedState"
persist_error_variant io = codes "Io"

pub record WriteFailure (E : Type 0) : Type 0 where
  pub category : WritePolicyCategory
  pub response : WriteResponse
  pub cause : E
  pub attempt : ℕ  -- u8

pub data RetryStep (E : Type 0) : Type 0 where
  succeeded : RetryStep E
  retryable terminal : WriteFailure E → RetryStep E

module _ {E : Type 0} (variant : E → Variant) where
  -- `WriteFailure::classify`
  abbrev pub classify : E → WriteFailure E
  classify e = record {
    category = classify_variant (variant e);
    response = response_of (classify_variant (variant e));
    cause = e;
    attempt = 1;
  }

  -- the failure observed on an attempt
  abbrev pub failure_at : E → ℕ → WriteFailure E
  failure_at e attempt = record (classify e) { attempt = attempt }

  abbrev dispatch : WriteResponse → WriteFailure E → RetryStep E
  dispatch bounded_retry f = retryable f
  dispatch fatal f = terminal f
  dispatch http_non2xx f = terminal f

  -- a write's result is `none` for `Ok(())`
  abbrev pub classify_attempt : Option E → ℕ → RetryStep E
  classify_attempt none attempt = succeeded
  classify_attempt (some e) attempt = let f = failure_at e attempt in dispatch f.response f

  -- the operation is a closure that changes its captured state
  module _ {S : Type 0} (op : S → Option E × S) where
    -- `for retry in 0..BOUNDED_RETRY_ATTEMPTS`, over the rounds left and the retry's number
    unfoldable pub retry_loop : ℕ → ℕ → WriteFailure E → S → Option (WriteFailure E) × S
    retry_loop zero retry failure s = (some failure, s)
    retry_loop (suc rounds) retry failure s =
        let (result, s') = op s in
        elim (classify_attempt result (retry + 2)) [
          | succeeded ↦ (none, s')
          | terminal f ↦ (some f, s')
          | retryable f ↦ retry_loop rounds (retry + 1) f s'
        ]

    unfoldable pub write_with_policy : S → Option (WriteFailure E) × S
    write_with_policy s =
        let (result, s') = op s in
        elim (classify_attempt result 1) [
          | succeeded ↦ (none, s')
          | terminal f ↦ (some f, s')
          | retryable f ↦ retry_loop bounded_retry_attempts 0 f s'
        ]
