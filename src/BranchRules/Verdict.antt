-- ===== src/BranchRules/Verdict.antt =====
-- What the two endpoints establish together.
use gh_report.Prelude.{
  ℕ, ◌≤◌, ◌≡◌, ◌↔◌, ◌⊎◌, inl, inr, true, false, Option, some, ◌++◌, Text, or_else,
}
use gh_report.Checks.Score.{IndeterminateReason}
use gh_report.Checks.Merging.{Blocked}
use gh_report.Checks.BranchProtection.{
  HistoryProtectionGap, unobservable, is_observed, is_protected, gap_of,
}
use gh_report.Api
use gh_report.Api.{Json, ApiOutcome}
use gh_report.BranchRules.{
  AdminAccess, admin, EndpointEvidence, EndpointFailure, failure_in, signals_in, precedence,
  reason_precedence, classify_endpoint, parse_rulesets, parse_legacy, evaluate_outcomes,
  classify_evidence,
}
use gh_report.BranchRules.Endpoints.{endpoint_absent}
use gh_report.BranchRules.Joint.{
  joint_unobserved, joint_protected, joint_reason, confirmed_absence, one_failed,
}

-- what each endpoint's answer is classified as
abbrev pub by_rulesets : (J : Json) → ApiOutcome J.Value → Text → AdminAccess → EndpointEvidence
by_rulesets J o branch access = classify_endpoint J o (λ v. parse_rulesets J v branch) access

abbrev pub by_legacy : (J : Json) → ApiOutcome J.Value → AdminAccess → EndpointEvidence
by_legacy J o access = classify_endpoint J o (parse_legacy J) access

module _ (J : Json) (rulesets legacy : ApiOutcome J.Value) (branch : Text) (access : AdminAccess)
    (timestamp : Text) where
  abbrev R : EndpointEvidence
  R = by_rulesets J rulesets branch access

  abbrev L : EndpointEvidence
  L = by_legacy J legacy access

  abbrev code : Option ℕ
  code = or_else (Api.status_code rulesets) (Api.status_code legacy)

  -- The branch's protection is left unobserved exactly when the rulesets endpoint or the
  -- legacy-protection endpoint could not be classified: one usable answer never hides the failure
  -- of the other.
  pub unobserved_iff_failure :
      (is_observed (evaluate_outcomes J rulesets legacy branch access timestamp) ≡ false)
      ↔ (one_failed R L ≡ true)
  unfolding evaluate_outcomes classify_evidence
  unobserved_iff_failure = joint_unobserved R L code branch timestamp

  -- The branch is reported protected exactly when both endpoints were classified and, among the
  -- signals of both, some source blocks force pushes and some source blocks deletions.
  pub protected_iff_Blocked :
      (is_protected (evaluate_outcomes J rulesets legacy branch access timestamp) ≡ true) ↔ (
        (one_failed R L ≡ false)
        × Blocked (λ s. s.force_push_blocked) (signals_in R ++ signals_in L)
        × Blocked (λ s. s.deletion_blocked) (signals_in R ++ signals_in L))
  unfolding evaluate_outcomes classify_evidence
  protected_iff_Blocked = joint_protected R L code branch timestamp

  -- Where an endpoint failed, the reason and the status reported for the unobservable branch are
  -- those of the failure of one of the two endpoints, and no failure of the two has a reason of
  -- higher precedence, a lesser number.
  pub reported_reason_least :
      (reason : IndeterminateReason) (http_status : Option ℕ) (g : EndpointFailure)
      → evaluate_outcomes J rulesets legacy branch access timestamp
        ≡ unobservable branch reason http_status timestamp
      → (failure_in R ≡ some g) ⊎ (failure_in L ≡ some g)
      → ((f : EndpointFailure) × ((failure_in R ≡ some f) ⊎ (failure_in L ≡ some f))
          × (f.reason ≡ reason)
          × (f.http_status ≡ http_status))
        × (reason_precedence reason ≤ precedence g)
  unfolding evaluate_outcomes classify_evidence
  reported_reason_least reason http_status g e h =
      joint_reason R L code branch timestamp reason http_status g e h

  -- Where the result says that the absence of protection was confirmed by an authority, the caller
  -- is an admin of the repository and the status behind it is 404.
  pub confirmed_absence_needs_admin :
      (http_status : Option ℕ)
      → gap_of (evaluate_outcomes J rulesets legacy branch access timestamp)
        ≡ some (HistoryProtectionGap.absent true http_status)
      → (access ≡ admin) × (http_status ≡ some 404)
  unfolding evaluate_outcomes classify_evidence
  confirmed_absence_needs_admin http_status e =
      elim (confirmed_absence R L code branch timestamp http_status e) [
        | inl er ↦ endpoint_absent J rulesets (λ v. parse_rulesets J v branch) access http_status er
        | inr el ↦ endpoint_absent J legacy (parse_legacy J) access http_status el
      ]
