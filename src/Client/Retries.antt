-- ===== src/Client/Retries.antt =====
-- How many attempts a request makes, and what is reported of them.
use gh_report.Prelude.{
  false≢true, ℕ, zero, suc, ◌+◌, ◌%◌, ◌^◌, ◌≤◌, ◌<◌, ◌≡◌, ◌⊎◌, refl, ◌∙◌, Bool, true, false, not,
  ◌&&◌, Option, some, Text, ltb, arith, Bool-cases, inl, inr, Option-cases,
}
use mathlib.Core.Path.{subst}
use gh_report.Metrics.{u32_max, saturating_add}
use gh_report.Api.{is_code}
use gh_report.Client.{
  RequestRun, RequestFailureKind, attempt_status, AttemptResult, is_retryable, attempts_of,
  from_attempt, is_retries_exhausted, never_dispatched_run, PreDispatchFailure,
}
use gh_report.Client.Transport.{Environment, ClientState, Config, is_halted, ensure_credential}
use gh_report.Client.Run.{
  attempt_once, Round, finished, again, after_attempt, attempt_loop, request_inner, fallen_through,
}

module _ {V : Type 0} where
  -- a run that ends at an attempt with `left` more to come
  record EndsAt (attempt left : ℕ) (run : RequestRun V) : Type 0 where
    counted : attempts_of run ≡ saturating_add attempt 1
    spent : is_retries_exhausted run ≡ true → left ≡ 0

  from_attempt-EndsAt :
      (result : AttemptResult V) (attempt left : ℕ) (halted : Bool)
      → (is_retryable result ≡ true → (left ≡ 0) ⊎ (halted ≡ true))
      → EndsAt attempt left (from_attempt result attempt halted)
  unfolding from_attempt attempts_of is_retries_exhausted is_retryable
  from_attempt-EndsAt (AttemptResult.success p) attempt left halted h = record {
    counted = refl;
    spent = λ e. ground arith;
  }
  from_attempt-EndsAt (AttemptResult.failure f) attempt left halted h = record {
    counted = refl;
    spent = λ e. ground (arith, h);
  }

refresh_final :
    (V : Type 0) (cause : Text)
    → is_retryable {V = V}
        (AttemptResult.failure (RequestFailureKind.credential_refresh_failed cause))
      ≡ true
    → ⊥
unfolding is_retryable
refresh_final V cause h = false≢true h

module _ {W V : Type 0} (E : Environment W V) (cfg : Config) where
  abbrev RoundEnds : ℕ → ℕ → Round E cfg → Type 0
  RoundEnds attempt left (finished run) = EndsAt attempt left run
  RoundEnds attempt left (again stale) = (left ≡ 0) → ⊥

  after_attempt-RoundEnds :
      (left attempt : ℕ) (stale : Bool) (result : AttemptResult V) (s : ClientState W)
      → RoundEnds attempt left (after_attempt E cfg left attempt stale result s).0
  unfolding after_attempt
  after_attempt-RoundEnds left attempt stale result s = elim (Bool-cases (E.should_halt s.world)) [
    | inl halt ↦ rw halt (from_attempt-EndsAt result attempt left true (λ e. inr refl))
    | inr calm ↦
        rw calm
          (elim (Bool-cases (is_code 401 (attempt_status result) && (not stale && ltb 0 left))) [
            | inl old ↦ rw old (elim (Option-cases (ensure_credential E cfg s).0) [
              | inl e ↦ rw e (ground (arith, old))
              | inr (cause, e) ↦ rw e (
                  from_attempt-EndsAt
                    (AttemptResult.failure (RequestFailureKind.credential_refresh_failed cause))
                    attempt left false (λ r. absurd (refresh_final V cause r)))
            ])
            | inr usual ↦ rw usual (elim (Bool-cases (is_retryable result && ltb 0 left)) [
              | inl more ↦ rw more (ground (arith, more))
              | inr last ↦
                  rw last
                    (from_attempt-EndsAt result attempt left false (λ r. ground (arith, last)))
            ])
          ])
  ]

  Round-cases :
      (r : Round E cfg)
      → ((run : RequestRun V) × (r ≡ finished run)) ⊎ ((stale : Bool) × (r ≡ again stale))
  Round-cases (finished run) = inl (run, refl)
  Round-cases (again stale) = inr (stale, refl)

  -- a run that ends after one of `left` further attempts
  record EndsWithin (attempt left : ℕ) (run : RequestRun V) : Type 0 where
    lower : suc attempt ≤ attempts_of run
    upper : attempts_of run ≤ attempt + left
    spent : is_retries_exhausted run ≡ true → attempts_of run ≡ attempt + left

  EndsAt-EndsWithin :
      (attempt left : ℕ) (run : RequestRun V)
      → attempt + suc left ≤ u32_max
      → EndsAt attempt left run
      → EndsWithin attempt (suc left) run
  EndsAt-EndsWithin attempt left run h e =
      let n : attempts_of run ≡ attempt + 1 = e.counted ∙ (ground arith) in
      record {
        lower = ground (arith, n);
        upper = ground (arith, n);
        spent = λ r. ground (arith, n, e.spent r);
      }

  EndsWithin-later :
      (attempt left : ℕ) (run : RequestRun V)
      → EndsWithin (attempt + 1) left run
      → EndsWithin attempt (suc left) run
  EndsWithin-later attempt left run e = record {
    lower = let l = e.lower in omega arith;
    upper = let u = e.upper in omega arith;
    spent = λ r. let t = e.spent r in omega arith;
  }

  abbrev LoopEnds : ℕ → ℕ → Option (RequestRun V) → Type 0
  LoopEnds attempt left result =
      (run : RequestRun V) × (result ≡ some run) × EndsWithin attempt left run

  attempt_loop-EndsWithin :
      (path : Text) (paginate : Bool) (timeout : ℕ) (left attempt : ℕ) (stale : Bool)
      (s : ClientState W)
      → 0 < left
      → attempt + left ≤ u32_max
      → LoopEnds attempt left (attempt_loop E cfg path paginate timeout left attempt stale s).0
  unfolding attempt_loop
  attempt_loop-EndsWithin path paginate timeout zero attempt stale s pos h = absurd (omega arith)
  attempt_loop-EndsWithin path paginate timeout (suc left) attempt stale s pos h =
      let (result, s1) = attempt_once E cfg path paginate timeout s in
      let s2 = (after_attempt E cfg left attempt stale result s1).1 in
      let ends = after_attempt-RoundEnds left attempt stale result s1 in
      elim (Round-cases (after_attempt E cfg left attempt stale result s1).0) [
        | inl (run, e) ↦
            rw (attempt_loop, e)
              (
                run,
                refl,
                EndsAt-EndsWithin attempt left run h (subst (RoundEnds attempt left) e ends),
              )
        | inr (stale', e) ↦
            let (run, eq, within) =
              attempt_loop-EndsWithin path paginate timeout left (attempt + 1) stale' s2
                (let n = subst (RoundEnds attempt left) e ends in omega (arith, n)) (omega arith) in
            rw (attempt_loop, e) (run, eq, EndsWithin-later attempt left run within)
      ]

  -- what the loop made of the attempts of a request
  pub record Attempted (path : Text) (paginate : Bool) (retries timeout : ℕ) (run : RequestRun V)
      : Type 0 where
    pub start : ClientState W
    pub looped : (attempt_loop E cfg path paginate timeout (retries + 1) 0 false start).0 ≡ some run
    pub lower : 1 ≤ attempts_of run
    pub upper : attempts_of run ≤ retries + 1
    pub spent : is_retries_exhausted run ≡ true → attempts_of run ≡ retries + 1

  loop-Attempted :
      (path : Text) (paginate : Bool) (retries timeout : ℕ) (start : ClientState W)
      → retries < u32_max
      → Attempted path paginate retries timeout (
          fallen_through E cfg
            (retries + 1)
            (attempt_loop E cfg path paginate timeout (retries + 1) 0 false start).0)
  unfolding fallen_through
  loop-Attempted path paginate retries timeout start h =
      let (run, e, within) =
        attempt_loop-EndsWithin path paginate timeout (retries + 1) 0 false start (omega arith)
          (omega arith) in
      rw e (record {
        start = start;
        looped = e;
        lower = within.lower;
        upper = let u = within.upper in omega arith;
        spent = λ x. let t = within.spent x in omega arith;
      })

  -- For any behaviour of the network, the clock and the budget: when the retry count does not
  -- wrap around, a request is either never dispatched, with its cause reported, or its run is the
  -- one at which its loop of attempts ended, never the one that the code builds behind the loop.
  -- It made at least one attempt and at most one more than the retries, and it reports exhausted
  -- retries only after all of them.
  pub request_inner_attempts :
      (path : Text) (paginate : Bool) (retries timeout : ℕ) (s : ClientState W)
      → retries < u32_max
      → let run = (request_inner E cfg path paginate retries timeout s).0 in
        ((cause : PreDispatchFailure) × (run ≡ never_dispatched_run cause))
        ⊎ Attempted path paginate retries timeout run
  unfolding request_inner
  request_inner_attempts path paginate retries timeout s h =
      let (halted, s1) = is_halted E s in
      let (cause, s2) = ensure_credential E cfg s1 in
      let (ok, w) = E.acquire s2.world in
      let wraps : (retries + 1) % 2 ^ 32 ≡ retries + 1 = ground arith in
      elim (Bool-cases halted) [
        | inl stop ↦ rw stop (inl (PreDispatchFailure.halted_before_dispatch, refl))
        | inr go ↦ rw go (elim (Option-cases cause) [
          | inr (text, e) ↦ rw e (inl (PreDispatchFailure.credential_refresh_failed text, refl))
          | inl e ↦ rw e (elim (Bool-cases ok) [
            | inr denied ↦ rw denied (inl (PreDispatchFailure.budget_acquire_cancelled, refl))
            | inl granted ↦
                rw (granted, wraps)
                  (inr (loop-Attempted path paginate retries timeout (record s2 { world = w }) h))
          ])
        ])
      ]
