-- ===== src/Client/Categories.antt =====
-- What is reported of a run: its outcome for the collectors, and its category for the log.
use gh_report.Prelude.{
  ℕ, ◌≡◌, ◌↔◌, inl, inr, refl, Bool, true, false, Option, none, some, Text, codes, text_eq, arith,
  Bool-cases, false≢true, sym, text_eq_iff, ◌∙◌,
}
use gh_report.Api.{ApiOutcome, is_ok, status_code}
use gh_report.Api
use gh_report.Client.{
  cause_category, failure_category, RequestRun, RunResult, PreDispatchFailure, RequestFailureKind,
  is_retryable_kind, is_retries_exhausted, terminal_category, category_result, outcome, is_success,
  is_truncated, run_status, failure_kind, failure_status, failure_outcome,
}

unfoldable pub retried : Option RequestFailureKind → Bool
unfolding is_retryable_kind
retried none = false
retried (some f) = is_retryable_kind f

abbrev pub Reports : {V : Type 0} → ApiOutcome V → Bool → Option ℕ → Bool → Bool → Type 0
Reports o ok status cut again =
    (is_ok o ≡ ok)
    × (status_code o ≡ status)
    × (Api.is_truncated o ≡ cut)
    × (Api.is_retryable o ≡ again)

failure_outcome-Reports :
    (V : Type 0) (f : RequestFailureKind)
    → Reports (failure_outcome {V = V} f) false (failure_status f) false (is_retryable_kind f)
unfolding failure_outcome failure_status is_retryable_kind is_ok status_code Api.is_truncated
    Api.is_retryable
failure_outcome-Reports V (RequestFailureKind.credential_refresh_failed cause) =
    (refl, refl, refl, refl)
failure_outcome-Reports V (RequestFailureKind.transport error timeout) = (refl, refl, refl, refl)
failure_outcome-Reports V (RequestFailureKind.http code error retryable) = (refl, refl, refl, refl)
failure_outcome-Reports V (RequestFailureKind.body_read code error) = (refl, refl, refl, refl)
failure_outcome-Reports V (RequestFailureKind.malformed_payload code kind error) =
    (refl, refl, refl, refl)

abbrev exhausted_text : Text
exhausted_text = codes "retry_exhausted"

other_text : (s : Text) → text_eq s exhausted_text ≡ false → s ≡ exhausted_text → ⊥
other_text s n e = false≢true (sym n ∙ (text_eq_iff s exhausted_text).1 e)

cause_category-other : (c : PreDispatchFailure) → cause_category c ≡ exhausted_text → ⊥
unfolding text_eq
cause_category-other PreDispatchFailure.halted_before_dispatch = other_text _ refl
cause_category-other (PreDispatchFailure.credential_refresh_failed cause) = other_text _ refl
cause_category-other PreDispatchFailure.budget_acquire_cancelled = other_text _ refl

failure_category-other : (f : RequestFailureKind) → failure_category f ≡ exhausted_text → ⊥
unfolding text_eq
failure_category-other (RequestFailureKind.credential_refresh_failed cause) = other_text _ refl
failure_category-other (RequestFailureKind.transport error timeout) = other_text _ refl
failure_category-other (RequestFailureKind.http code error retryable) = other_text _ refl
failure_category-other (RequestFailureKind.body_read code error) = other_text _ refl
failure_category-other (RequestFailureKind.malformed_payload code kind error) = other_text _ refl

module _ {V : Type 0} where
  result-Reports :
      (r : RunResult V) (halted : Bool)
      → let run : RequestRun V = record { result = r; halt_triggered = halted } in
        Reports
          (outcome run)
          (is_success run)
          (run_status run)
          (is_truncated run)
          (retried (failure_kind run))
  unfolding outcome is_success run_status is_truncated failure_kind is_ok status_code
      Api.is_truncated Api.is_retryable retried
  result-Reports (RunResult.never_dispatched PreDispatchFailure.halted_before_dispatch) halted =
      (refl, refl, refl, refl)
  result-Reports (RunResult.never_dispatched (PreDispatchFailure.credential_refresh_failed cause))
        halted =
      (refl, refl, refl, refl)
  result-Reports (RunResult.never_dispatched PreDispatchFailure.budget_acquire_cancelled) halted =
      (refl, refl, refl, refl)
  result-Reports (RunResult.success p n) halted = (refl, refl, refl, refl)
  result-Reports (RunResult.failed f n) halted = failure_outcome-Reports V f

  exhausted_iff :
      (r : RunResult V) (halted : Bool)
      → (category_result r halted ≡ exhausted_text)
        ↔ (is_retries_exhausted (record { result = r; halt_triggered = halted }) ≡ true)
  unfolding category_result is_retries_exhausted text_eq
  exhausted_iff (RunResult.never_dispatched c) halted =
      (λ e. absurd (cause_category-other c e), λ e. ground arith)
  exhausted_iff (RunResult.success p n) halted =
      (λ e. absurd (other_text _ refl e), λ e. ground arith)
  exhausted_iff (RunResult.failed f n) true = (λ e. absurd (other_text _ refl e), λ e. ground arith)
  exhausted_iff (RunResult.failed f n) false = elim (Bool-cases (is_retryable_kind f)) [
    | inl again ↦ rw again (λ _. refl, λ _. refl)
    | inr last ↦ rw last (λ e. absurd (failure_category-other f e), λ e. absurd (false≢true e))
  ]

  -- What the collectors receive agrees with the run: the outcome is a success exactly when the run
  -- is one, has its status code and its mark of truncation, and is retryable exactly when the
  -- failure that ended the run is; and the log speaks of exhausted retries for exactly the runs
  -- that exhausted them.
  pub outcome_agrees :
      (run : RequestRun V)
      → Reports
          (outcome run)
          (is_success run)
          (run_status run)
          (is_truncated run)
          (retried (failure_kind run))
        × ((terminal_category run ≡ codes "retry_exhausted") ↔ (is_retries_exhausted run ≡ true))
  unfolding terminal_category
  outcome_agrees run =
      (result-Reports run.result run.halt_triggered, exhausted_iff run.result run.halt_triggered)
