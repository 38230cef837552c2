-- ===== src/Client/Run.antt =====
-- github/client.rs: the attempts of a request.
use gh_report.Prelude.{
  ℕ, zero, suc, ◌+◌, ◌%◌, ◌^◌, Bool, true, false, not, ◌&&◌, Option, none, some, Text, codes,
  if◌then◌else◌, ltb,
}
use gh_report.Metrics.{saturating_sub}
use gh_report.Api.{ApiOutcome, is_code}
use gh_report.Client.{
  RequestRun, AttemptResult, RequestFailureKind, PreDispatchFailure, http, is_retryable,
  attempt_status, never_dispatched_run, from_attempt, outcome,
}
use gh_report.Client.Transport.{
  Environment, Config, Action, is_halted, ensure_credential, note_rate_limit_halt, request_single,
}
use gh_report.Client.Paginate.{request_paginated}

module _ {W V : Type 0} (E : Environment W V) (cfg : Config) where
  open E use {should_halt, acquire, sleep_backoff}

  unfoldable pub attempt_once : Text → Bool → ℕ → Action E (AttemptResult V)
  unfolding request_paginated request_single
  attempt_once path paginate timeout_secs =
      if paginate
      then request_paginated E cfg path timeout_secs
      else request_single E cfg path timeout_secs

  -- what one round of the loop does once its attempt has a result
  pub data Round : Type 0 where
    finished : RequestRun V → Round
    -- whether the stale token was retried by now
    again : Bool → Round

  abbrev refreshed : ℕ → Option Text → Round
  unfolding from_attempt
  refreshed attempt none = again true
  refreshed attempt (some cause) = finished (
      from_attempt (AttemptResult.failure (RequestFailureKind.credential_refresh_failed cause))
        attempt false)

  -- `attempts - 1 - attempt` attempts are left
  unfoldable pub after_attempt : ℕ → ℕ → Bool → AttemptResult V → Action E Round
  unfolding note_rate_limit_halt attempt_status is_retryable ensure_credential from_attempt
      refreshed
  after_attempt left attempt stale result s =
      if should_halt s.world
      then (finished (from_attempt result attempt true), note_rate_limit_halt E s)
      else if is_code 401 (attempt_status result) && (not stale && ltb 0 left)
      then (let (e, s') = ensure_credential E cfg s in (refreshed attempt e, s'))
      else if is_retryable result && ltb 0 left
      then (
        again stale,
        record s {
          rate_limit_warnings =
              if is_code 429 (attempt_status result)
              then (s.rate_limit_warnings + 1) % 2 ^ 32
              else s.rate_limit_warnings;
          world = sleep_backoff attempt s.world;
        },
      )
      else (finished (from_attempt result attempt false), s)

  -- the loop on the attempts that are left; `none` where it falls through
  unfoldable pub attempt_loop : Text → Bool → ℕ → ℕ → ℕ → Bool → Action E (Option (RequestRun V))
  unfolding attempt_once after_attempt
  attempt_loop path paginate timeout_secs zero attempt stale s = (none, s)
  attempt_loop path paginate timeout_secs (suc left) attempt stale s =
      let (result, s1) = attempt_once path paginate timeout_secs s in
      let (round, s2) = after_attempt left attempt stale result s1 in
      elim round [
        | finished run ↦ (some run, s2)
        | again stale' ↦ attempt_loop path paginate timeout_secs left (attempt + 1) stale' s2
      ]

  -- the run that the code builds behind the loop
  unfoldable pub fallen_through : ℕ → Option (RequestRun V) → RequestRun V
  unfolding from_attempt
  fallen_through attempts (some run) = run
  fallen_through attempts none =
      from_attempt (AttemptResult.failure (http 401 (codes "unauthorized") false))
        (saturating_sub attempts 1) false

  abbrev u32_add : ℕ → ℕ → ℕ
  u32_add a b = (a + b) % 2 ^ 32

  -- `retries + 1` wraps around in a release build
  unfoldable pub request_inner : Text → Bool → ℕ → ℕ → Action E (RequestRun V)
  unfolding is_halted ensure_credential attempt_loop never_dispatched_run fallen_through
  request_inner path paginate retries timeout_secs s =
      let (halted, s1) = is_halted E s in
      if halted
      then (never_dispatched_run PreDispatchFailure.halted_before_dispatch, s1)
      else (let (cause, s2) = ensure_credential E cfg s1 in
          elim cause [
            | some e ↦ (never_dispatched_run (PreDispatchFailure.credential_refresh_failed e), s2)
            | none ↦
                let (ok, w) = acquire s2.world in
                let s3 = record s2 { world = w } in
                if not ok
                then (never_dispatched_run PreDispatchFailure.budget_acquire_cancelled, s3)
                else (let attempts = u32_add retries 1 in
                    let (run, s4) = attempt_loop path paginate timeout_secs attempts 0 false s3 in
                    (fallen_through attempts run, s4))
          ])

  unfoldable pub request_run : Text → Bool → ℕ → ℕ → Action E (RequestRun V)
  unfolding request_inner
  request_run = request_inner

  unfoldable pub request : Text → Bool → ℕ → ℕ → Action E (ApiOutcome V)
  unfolding request_run outcome
  request path paginate retries timeout_secs s =
      let (run, s') = request_run path paginate retries timeout_secs s in (outcome run, s')
