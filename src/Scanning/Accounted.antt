-- ===== src/Scanning/Accounted.antt =====
-- What the answer of the alerts' request is, where the summary of its alerts is a success.
use gh_report.Prelude.{
  ℕ, ◌%◌, ◌^◌, ◌≡◌, ◌↔◌, ◌⊎◌, inl, inr, refl, ap, ◌∙◌, sym, Bool, true, false, not, ◌&&◌, Option,
  none, some, List, [], Text, ltb, arith, any, Bool-cases, Option-cases, false≢true,
}
use mathlib.Core.Path.{subst}
use gh_report.OrderedMap.{OrderedMap, get-insert}
use gh_report.OrderedMap
use gh_report.Repository.{Repository}
use gh_report.Org.{OrgAlertSummary}
use gh_report.Api.{Json, ApiOutcome, status_code, is_code, is_ok}
use gh_report.Api
use gh_report.Client.{
  PreDispatchFailure, RequestFailureKind, failure_outcome, RequestRun, RunResult, classification,
  outcome,
}
use gh_report.Checks.SecretScanning.{org_summary, observable}
use gh_report.Scanning.{
  Clock, failure_of_status, build_failure_summary, malformed_summary, evaluate_org_alert_outcome,
  classified_org_outcome, is_malformed, scope_key,
}
use gh_report.Scanning.Collect.{
  Scope, process_alerts, evaluate_run, summarise, initial_summary, run_time, known_scope_of,
  collect_org_alerts,
}
use gh_report.Scanning.Steps.{
  is_success, alert_count, has_open_lem, is_ambiguous, count_of, counted, process_alerts-Steps,
}
use gh_report.Scanning.Repositories.{org_probe, has_open}
use gh_report.Scanning.Probes.{neither, probe-Probed}

module _ (C : Clock) (J : Json) where
  open J use {Value}

  -- the answer is the whole list of the open alerts
  pub record Complete (run : RequestRun Value) (code : Option ℕ) (items : List Value) : Type 0 where
    pub payload : Value
    pub parsed : J.as_array payload ≡ some items
    pub status : ℕ
    pub headers : Option (List (Text × Text))
    pub answer : outcome run ≡ ApiOutcome.success status (some payload) headers false
    pub status_lem : code ≡ some status

  failure_fails :
      (code : Option ℕ) (retryable : Bool) → is_success (failure_of_status code retryable).0 ≡ false
  failure_fails code retryable = ground arith

  build_Fails :
      (result : ApiOutcome Value)
      → is_success (build_failure_summary result).collection_status ≡ false
  unfolding build_failure_summary
  build_Fails result = failure_fails (status_code result) (Api.is_retryable result)

  malformed_Fails :
      (result : ApiOutcome Value) → is_success (malformed_summary result).collection_status ≡ false
  unfolding malformed_summary
  malformed_Fails result = build_Fails result

  not_malformed :
      (r : RunResult Value) (halted : Bool)
      → let run : RequestRun Value = record { result = r; halt_triggered = halted } in
        is_ok (outcome run) ≡ true → is_malformed (classification run) ≡ false
  unfolding outcome classification is_ok failure_outcome
  not_malformed (RunResult.never_dispatched PreDispatchFailure.halted_before_dispatch) halted h =
      refl
  not_malformed (RunResult.never_dispatched (PreDispatchFailure.credential_refresh_failed c)) halted
        h =
      refl
  not_malformed (RunResult.never_dispatched PreDispatchFailure.budget_acquire_cancelled) halted h =
      refl
  not_malformed (RunResult.success p n) halted h = refl
  not_malformed (RunResult.failed (RequestFailureKind.credential_refresh_failed c) n) halted h =
      refl
  not_malformed (RunResult.failed (RequestFailureKind.transport e t) n) halted h = refl
  not_malformed (RunResult.failed (RequestFailureKind.http code e r) n) halted h = refl
  not_malformed (RunResult.failed (RequestFailureKind.body_read code e) n) halted h = refl
  not_malformed (RunResult.failed (RequestFailureKind.malformed_payload code k e) n) halted h =
      absurd (false≢true h)

  evaluated_array :
      (status : ℕ) (payload : Value) (headers : Option (List (Text × Text))) (items : List Value)
      → J.as_array payload ≡ some items
      → evaluate_org_alert_outcome J (ApiOutcome.success status (some payload) headers false)
        ≡ inr items
  unfolding evaluate_org_alert_outcome
  evaluated_array status payload headers items e = rw (evaluate_org_alert_outcome, e) refl

  evaluated_other :
      (status : ℕ) (payload : Value) (headers : Option (List (Text × Text)))
      → J.as_array payload ≡ none
      → let result = ApiOutcome.success status (some payload) headers false in
        evaluate_org_alert_outcome J result ≡ inl (malformed_summary result)
  unfolding evaluate_org_alert_outcome
  evaluated_other status payload headers e = rw (evaluate_org_alert_outcome, e) refl

  module _ (run : RequestRun Value) (repositories : List Repository) (run_timestamp : Text) where
    abbrev scope_of : Scope
    scope_of = known_scope_of repositories ([], false)

    initial_lem :
        (collision : Bool) (code : Option ℕ) (repo : Repository)
        → let s = initial_summary C J collision code in
          (is_success s.collection_status ≡ not collision)
          × (s.http_status ≡ code)
          × (counted C J repo s ≡ 0)
    unfolding alert_count OrderedMap.get
    initial_lem true code repo = (refl, refl, refl)
    initial_lem false code repo = (refl, refl, refl)

    abbrev accounted : Option ℕ → List Value → OrgAlertSummary
    accounted code items =
        process_alerts C J scope_of.0 (run_time C J run_timestamp) items
          (initial_summary C J scope_of.1 code)

    collect-Complete :
        (code : Option ℕ) (items : List Value)
        → Complete run code items
        → collect_org_alerts C J run repositories run_timestamp ≡ accounted code items
    unfolding collect_org_alerts classified_org_outcome evaluate_run summarise status_code is_ok
    collect-Complete code items c =
        let well = not_malformed run.result run.halt_triggered (rw c.answer refl) in
        rw
          (
            well,
            c.answer,
            evaluated_array c.status c.payload c.headers items c.parsed,
            c.status_lem,
          )
          refl

    abbrev Fails : OrgAlertSummary → Type 0
    Fails s = is_success s.collection_status ≡ false

    evaluate-Fails :
        (result : ApiOutcome Value)
        → Fails (evaluate_run C J scope_of (run_time C J run_timestamp) (inr result))
          ⊎ ((payload : Value) × (items : List Value) × (status : ℕ) × (headers : Option
                (List (Text × Text)))
              × (J.as_array payload ≡ some items)
              × (result ≡ ApiOutcome.success status (some payload) headers false))
    unfolding evaluate_run summarise evaluate_org_alert_outcome
    evaluate-Fails (ApiOutcome.failure code error retryable) =
        inl (build_Fails (ApiOutcome.failure code error retryable))
    evaluate-Fails (ApiOutcome.success code payload headers true) =
        inl (build_Fails (ApiOutcome.success code payload headers true))
    evaluate-Fails (ApiOutcome.success code none headers false) =
        inl (malformed_Fails (ApiOutcome.success code none headers false))
    evaluate-Fails (ApiOutcome.success code (some v) headers false) =
        elim (Option-cases (J.as_array v)) [
          | inl e ↦ inl (
              rw (evaluated_other code v headers e)
                (malformed_Fails (ApiOutcome.success code (some v) headers false)))
          | inr (items, e) ↦ inr (v, items, code, headers, e, refl)
        ]

    success-Complete :
        is_success (collect_org_alerts C J run repositories run_timestamp).collection_status ≡ true
        → (items : List Value) × (code : Option ℕ) × Complete run code items
    unfolding collect_org_alerts classified_org_outcome evaluate_run
    success-Complete h = elim (Bool-cases (is_malformed (classification run))) [
      | inl bad ↦ absurd (false≢true (sym (malformed_Fails (outcome run)) ∙ (simp bad at h)))
      | inr well ↦ elim (evaluate-Fails (outcome run)) [
        | inl fails ↦ absurd (false≢true (sym fails ∙ (simp well at h)))
        | inr (payload, items, status, headers, parsed, answer) ↦ (
          items,
          some status,
          record {
            payload = payload;
            parsed = parsed;
            status = status;
            headers = headers;
            answer = answer;
            status_lem = refl;
          },
        )
      ]
    ]

    accounted_lem :
        (code : Option ℕ) (items : List Value) (repo : Repository)
        → let s = accounted code items in
          (is_success s.collection_status
            ≡ (not scope_of.1 && not (any (is_ambiguous C J scope_of.0) items)))
          × (s.http_status ≡ code)
          × (has_open (OrderedMap.get (scope_key repo) s.per_repo)
              ≡ ltb 0 (count_of C J scope_of.0 repo items % 2 ^ 64))
    accounted_lem code items repo =
        let (fine, same, none_yet) = initial_lem scope_of.1 code repo in
        let steps =
          process_alerts-Steps C J scope_of.0 repo (run_time C J run_timestamp) items
            (initial_summary C J scope_of.1 code) in
        let n = steps.count_lem (omega (arith, none_yet)) in
        (
          steps.status_lem ∙ ap (λ f. f && not (any (is_ambiguous C J scope_of.0) items)) fine,
          steps.http_lem ∙ same,
          has_open_lem (OrderedMap.get (scope_key repo) (accounted code items).per_repo)
              ∙ (ground (arith, n, none_yet)),
        )

    abbrev Accounts : Repository → Bool → List Value → Type 0
    Accounts repo flag items =
        (scope_of.1 ≡ false)
        × (any (is_ambiguous C J scope_of.0) items ≡ false)
        × (flag ≡ ltb 0 (count_of C J scope_of.0 repo items % 2 ^ 64))

    accounted_iff :
        (repo : Repository) (flag : Bool) (sent code : Option ℕ) (items : List Value)
        → (org_probe repo (accounted sent items) ≡ observable org_summary flag code)
          ↔ (Accounts repo flag items × (sent ≡ code))
    unfolding org_probe
    accounted_iff repo flag sent code items =
        let s = accounted sent items in
        let (status, http, count) = accounted_lem sent items repo in
        let probed = probe-Probed s.collection_status repo s flag code in
        (
          λ e.
              let (fine, has, same) = probed.0 e in
              let (apart, certain) = (neither _ _).0 (sym status ∙ fine) in
              ((apart, certain, sym has ∙ count), sym http ∙ same),
          λ ((apart, certain, counted), same).
              probed.1
                (status ∙ (neither _ _).1 (apart, certain), count ∙ sym counted, http ∙ same),
        )

    pub observed_iff_counted :
        (repo : Repository) (flag : Bool) (code : Option ℕ)
        → (org_probe repo (collect_org_alerts C J run repositories run_timestamp)
            ≡ observable org_summary flag code)
          ↔ ((items : List Value) × Complete run code items
              × (scope_of.1 ≡ false)
              × (any (is_ambiguous C J scope_of.0) items ≡ false)
              × (flag ≡ ltb 0 (count_of C J scope_of.0 repo items % 2 ^ 64)))
    unfolding org_probe
    observed_iff_counted repo flag code =
        let collected = collect_org_alerts C J run repositories run_timestamp in
        let Observes =
          λ (s : OrgAlertSummary). org_probe repo s ≡ observable org_summary flag code in
        (
          λ e.
              let fine =
                ((probe-Probed collected.collection_status repo collected flag code).0 e).0 in
              let (items, sent, complete) = success-Complete fine in
              let same = collect-Complete sent items complete in
              let ((apart, certain, counted), known) =
                (accounted_iff repo flag sent code items).0 (subst Observes same e) in
              (items, subst (λ c. Complete run c items) known complete, apart, certain, counted),
          λ (items, complete, apart, certain, counted).
              subst Observes (sym (collect-Complete code items complete))
                ((accounted_iff repo flag code code items).1 ((apart, certain, counted), refl)),
        )
