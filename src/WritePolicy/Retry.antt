-- ===== src/WritePolicy/Retry.antt =====
-- The bounded retry against a step relation over its attempts.
use gh_report.Prelude.{
  ℕ, zero, suc, ◌+◌, ◌≤◌, ◌<◌, ◌≡◌, ◌≢◌, ◌↔◌, ◌⊎◌, inl, inr, refl, Option, none, some, arith, ap,
}
use native.Mathlib.Nat.{le_refl}
use gh_report.WritePolicy.{
  Variant, WriteFailure, WriteResponse, bounded_retry, fatal, http_non2xx, classify_variant,
  response_of, bounded_retry_attempts, succeeded, retryable, terminal, failure_at, classify_attempt,
  retry_loop, write_with_policy,
}

-- the attempts that are ever made
abbrev pub max_attempts : ℕ
max_attempts = suc bounded_retry_attempts

WriteResponse-cases : (r : WriteResponse) → (r ≡ bounded_retry) ⊎ ((r ≡ fatal) ⊎ (r ≡ http_non2xx))
WriteResponse-cases bounded_retry = inl refl
WriteResponse-cases fatal = inr (inl refl)
WriteResponse-cases http_non2xx = inr (inr refl)

module _ {E : Type 0} (variant : E → Variant) {S : Type 0} (op : S → Option E × S) where
  abbrev pub Retried : E → Type 0
  Retried e = response_of (classify_variant (variant e)) ≡ bounded_retry

  -- the attempts from a number on, in the state before them, with the outcome and the state after
  pub data Trace : ℕ → S → Option (WriteFailure E) → S → Type 0 where
    -- an attempt that succeeds ends the run
    success : {n : ℕ} {s s' : S} → op s ≡ (none, s') → Trace n s none s'
    -- a failure that is not retried ends the run at once, and so does the last attempt's
    stop :
        {n : ℕ} {s s' : S} {f : WriteFailure E} (e : E)
        → op s ≡ (some e, s')
        → (¬ Retried e) ⊎ (n ≡ max_attempts)
        → f ≡ failure_at variant e n
        → Trace n s (some f) s'
    -- a retried failure is forgotten
    again :
        {n : ℕ} {s s' s'' : S} {r : Option (WriteFailure E)} (e : E)
        → op s ≡ (some e, s')
        → Retried e
        → n < max_attempts
        → Trace (suc n) s' r s''
        → Trace n s r s''

  abbrev Loop : Type 0
  Loop = WriteFailure E → S → Option (WriteFailure E) × S

  -- one attempt, and what the code does with its result
  abbrev attempt : ℕ → Option E → S → Loop → Option (WriteFailure E) × S
  attempt n result s' continue = elim (classify_attempt variant result n) [
    | succeeded ↦ (none, s')
    | terminal f ↦ (some f, s')
    | retryable f ↦ continue f s'
  ]

  attempt-Retried :
      (n : ℕ) (e : E) (t : S) (continue : Loop)
      → Retried e
      → attempt n (some e) t continue ≡ continue (failure_at variant e n) t
  attempt-Retried n e t continue h = ground arith

  attempt_stopped :
      (n : ℕ) (e : E) (t : S) (continue : Loop)
      → ¬ Retried e
      → attempt n (some e) t continue ≡ (some (failure_at variant e n), t)
  attempt_stopped n e t continue h = ground arith

  attempt_of-Trace :
      (n : ℕ) (s : S) (continue : Loop) (r : Option E) (t : S)
      → op s ≡ (r, t)
      → ((e : E)
          → op s ≡ (some e, t)
          → Retried e
          → Trace n s
              (continue (failure_at variant e n) t).0
              (continue (failure_at variant e n) t).1)
      → Trace n s (attempt n r t continue).0 (attempt n r t continue).1
  attempt_of-Trace n s continue none t ho k = success ho
  attempt_of-Trace n s continue (some e) t ho k =
      elim (WriteResponse-cases (response_of (classify_variant (variant e)))) [
        | inl retried ↦ rw (attempt-Retried n e t continue retried) (k e ho retried)
        | inr other ↦
            let never : ¬ Retried e = λ h. ground arith in
            rw (attempt_stopped n e t continue never) (stop e ho (inl never) refl)
      ]

  -- the loop, behind a retried failure on the attempt before
  loop-Trace :
      (rounds retry n : ℕ) (e : E) (s s' : S)
      → n ≡ retry + 1
      → op s ≡ (some e, s')
      → Retried e
      → rounds + retry ≡ bounded_retry_attempts
      → let out = retry_loop variant op rounds retry (failure_at variant e n) s' in
        Trace n s out.0 out.1
  unfolding retry_loop
  loop-Trace zero retry n e s s' hn ho hr h =
      let last : n ≡ max_attempts = omega arith in stop e ho (inr last) refl
  loop-Trace (suc rounds) retry n e s s' hn ho hr h =
      let hs : suc n ≡ retry + 2 = omega arith in
      again e ho hr (omega arith) (
        rw hs (
          attempt_of-Trace (retry + 2) s' (λ f t. retry_loop variant op rounds (retry + 1) f t)
            (op s').0 (op s').1 refl
            (λ e' ho' hr'.
              loop-Trace rounds (retry + 1) (retry + 2) e' s' (op s').1 (omega arith) ho' hr'
                (omega arith))))

  policy-Trace :
      (s : S) → Trace 1 s (write_with_policy variant op s).0 (write_with_policy variant op s).1
  unfolding write_with_policy
  policy-Trace s =
      attempt_of-Trace 1 s (λ f t. retry_loop variant op bounded_retry_attempts 0 f t) (op s).0
        (op s).1 refl
        (λ e ho hr.
          loop-Trace bounded_retry_attempts 0 1 e s (op s).1 (omega arith) ho hr (omega arith))

  not_both :
      {n : ℕ} (e e' : E)
      → (¬ Retried e) ⊎ (n ≡ max_attempts)
      → Retried e'
      → n < max_attempts
      → e ≡ e'
      → ⊥
  not_both e e' (inl never) hr l same = never (rw same hr)
  not_both e e' (inr last) hr l same = omega arith

  Trace_unique :
      {n : ℕ} {s t t' : S} {r r' : Option (WriteFailure E)}
      → Trace n s r t
      → Trace n s r' t'
      → (r ≡ r') × (t ≡ t')
  Trace_unique (success h) (success k) = (refl, cc)
  Trace_unique (success h) (stop e k c p) = absurd (cc)
  Trace_unique (success h) (again e k c l y) = absurd (cc)
  Trace_unique (stop e h c p) (success k) = absurd (cc)
  Trace_unique (stop e h c p) (stop e' k c' p') = let same : e ≡ e' = cc in (rw (p, p', same), cc)
  Trace_unique (stop e h c p) (again e' k c' l y) =
      let same : e ≡ e' = cc in absurd (not_both e e' c c' l same)
  Trace_unique (again e' k c' l y) (success h) = absurd (cc)
  Trace_unique (again e' k c' l y) (stop e h c p) =
      let same : e ≡ e' = cc in absurd (not_both e e' c c' l same)
  Trace_unique (again {s' = u} e h c l x) (again {s' = v} e' k c' l' y) =
      let same : u ≡ v = cc in Trace_unique x (rw (← same) at y)

  -- a failure in a trace is numbered from the first attempt on, and is retried only if it is the
  -- last
  Trace-failure :
      {n : ℕ} {s t : S} {r : Option (WriteFailure E)}
      → Trace n s r t
      → n ≤ max_attempts
      → (f : WriteFailure E) → r ≡ some f
      → (n ≤ f.attempt)
        × (f.attempt ≤ max_attempts)
        × (f ≡ failure_at variant f.cause f.attempt)
        × (Retried f.cause → f.attempt ≡ max_attempts)
  Trace-failure (success h) b f p = absurd (cc)
  Trace-failure {n = n} (stop {f = g} e h c q) b f p =
      let ef : f ≡ failure_at variant e n = cc in rw ef (le_refl n, b, refl, λ hr. last e c hr)
    where
      last : (e : E) → (¬ Retried e) ⊎ (n ≡ max_attempts) → Retried e → n ≡ max_attempts
      last e (inl never) hr = absurd (never hr)
      last e (inr eq) hr = eq
  Trace-failure (again e h c l x) b f p =
      let (lo, hi, shape, last) = Trace-failure x l f p in (omega arith, hi, shape, last)

-- A run of the bounded retry is exactly a trace of at most four attempts: a success or a failure
-- that is not retried ends it at once, a retried failure leads to the next attempt. So no later
-- success hides a failure that is not retried.
pub write_with_policy-iff-Trace :
    {E : Type 0} (variant : E → Variant) {S : Type 0} (op : S → Option E × S) (s t : S)
    (r : Option (WriteFailure E))
    → (write_with_policy variant op s ≡ (r, t)) ↔ Trace variant op 1 s r t
write_with_policy-iff-Trace variant op s t r =
    let run = policy-Trace variant op s in
    (
      λ h. let er = ap (λ x. x.0) h in let et = ap (λ x. x.1) h in rw (er, et) at run,
      λ tr. let (er, et) = Trace_unique variant op run tr in λ i. (er i, et i),
    )

-- A reported failure carries the category and response of its error and the number of attempts
-- made, from one to four; it is a retried one only after all four.
pub write_with_policy_failure :
    {E : Type 0} (variant : E → Variant) {S : Type 0} (op : S → Option E × S) (s t : S)
    (f : WriteFailure E)
    → write_with_policy variant op s ≡ (some f, t)
    → (1 ≤ f.attempt)
      × (f.attempt ≤ max_attempts)
      × (f ≡ failure_at variant f.cause f.attempt)
      × ((f.attempt ≡ max_attempts) ⊎ (f.response ≢ bounded_retry))
write_with_policy_failure variant op s t f h =
    let tr = (write_with_policy-iff-Trace variant op s t (some f)).0 h in
    let (lo, hi, shape, last) = Trace-failure variant op tr (omega arith) f refl in
    let er : f.response ≡ response_of (classify_variant (variant f.cause)) =
      ap (λ g. g.response) shape in
    (
      lo,
      hi,
      shape,
      elim (WriteResponse-cases f.response) [
        | inl retried ↦ inl (last (cc))
        | inr other ↦ inr (λ h. ground arith)
      ],
    )
