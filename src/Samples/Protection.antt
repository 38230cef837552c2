-- ===== src/Samples/Protection.antt =====
-- The theorems on the branch-protection check, on endpoints that answer 404.
use gh_report.Prelude.{
  ◌⊎◌, ℕ, ◌≤◌, ◌≡◌, ◌↔◌, inl, refl, true, false, Option, none, some, [], ◌∷◌, ◌++◌, Text, codes,
}
use gh_report.Samples.{now}
use gh_report.Checks.Score.{IndeterminateReason}
use gh_report.Checks.History.{merge}
use gh_report.Checks.Merging.{Blocked}
use gh_report.Checks.BranchProtection.{
  HistoryProtectionGap, unobservable, is_observed, is_protected, gap_of,
}
use gh_report.Api.{Json, ApiOutcome}
use gh_report.BranchRules.{
  admin, EndpointFailure, failure_in, signals_in, classify_failure, classify_endpoint,
  classify_evidence, evaluate_outcomes, precedence, reason_precedence, combine,
  build_protection_result, first_failure,
}
use gh_report.BranchRules.Joint.{one_failed}
use gh_report.BranchRules.Verdict.{
  by_rulesets, by_legacy, unobserved_iff_failure, protected_iff_Blocked, reported_reason_least,
  confirmed_absence_needs_admin,
}

abbrev missing : Option ℕ
missing = some 404

-- JSON values that are texts: each is an array of itself, and has itself under every key
abbrev Texts : Json
Texts = record {
  Value = Text;
  get = λ v key. some v;
  as_array = λ v. some (v ∷ []);
  as_str = λ v. some v;
  as_bool = λ v. none;
  is_object = λ v. false;
  as_u64 = λ v. none;
  is_null = λ v. false;
}

abbrev deletion : Text
deletion = codes "deletion"

abbrev not_found : ApiOutcome Text
not_found = ApiOutcome.failure missing (codes "Not Found") false

abbrev forbidden : ApiOutcome Text
forbidden = ApiOutcome.failure (some 403) (codes "Forbidden") false

abbrev limited : ApiOutcome Text
limited = ApiOutcome.failure (some 429) (codes "Too Many Requests") true

abbrev main' : Text
main' = codes "main"

unobserved_iff_failure_example :
    (is_observed (evaluate_outcomes Texts not_found forbidden main' admin now) ≡ false) ↔ (
      one_failed (by_rulesets Texts not_found main' admin) (by_legacy Texts forbidden admin) ≡ true)
unobserved_iff_failure_example = unobserved_iff_failure Texts not_found forbidden main' admin now

protected_iff_Blocked_example :
    (is_protected (evaluate_outcomes Texts not_found forbidden main' admin now) ≡ true) ↔ (
      (one_failed (by_rulesets Texts not_found main' admin) (by_legacy Texts forbidden admin)
        ≡ false)
      × Blocked
          (λ s. s.force_push_blocked)
          (signals_in (by_rulesets Texts not_found main' admin)
            ++ signals_in (by_legacy Texts forbidden admin))
      × Blocked
          (λ s. s.deletion_blocked)
          (signals_in (by_rulesets Texts not_found main' admin)
            ++ signals_in (by_legacy Texts forbidden admin)))
protected_iff_Blocked_example = protected_iff_Blocked Texts not_found forbidden main' admin now

abbrev limit_failure : EndpointFailure
limit_failure = record { reason = IndeterminateReason.rate_limited; http_status = some 429 }

denied_first :
    evaluate_outcomes Texts limited forbidden main' admin now
    ≡ unobservable main' IndeterminateReason.permission_denied (some 403) now
unfolding evaluate_outcomes classify_evidence classify_endpoint classify_failure combine
    first_failure reason_precedence build_protection_result
denied_first = refl

limited_failure : failure_in (by_rulesets Texts limited main' admin) ≡ some limit_failure
unfolding classify_endpoint classify_failure
limited_failure = refl

reported_reason_least_example :
    ((f : EndpointFailure) × ((failure_in (by_rulesets Texts limited main' admin) ≡ some f)
        ⊎ (failure_in (by_legacy Texts forbidden admin) ≡ some f))
      × (f.reason ≡ IndeterminateReason.permission_denied)
      × (f.http_status ≡ some 403))
    × (reason_precedence IndeterminateReason.permission_denied ≤ precedence limit_failure)
reported_reason_least_example =
    reported_reason_least Texts limited forbidden main' admin now
      IndeterminateReason.permission_denied (some 403) limit_failure denied_first
      (inl limited_failure)

nothing_there :
    gap_of (evaluate_outcomes Texts not_found not_found main' admin now)
    ≡ some (HistoryProtectionGap.absent true missing)
unfolding evaluate_outcomes classify_evidence classify_endpoint classify_failure combine
    first_failure build_protection_result gap_of merge
nothing_there = refl

confirmed_absence_needs_admin_example : (admin ≡ admin) × (missing ≡ some 404)
confirmed_absence_needs_admin_example =
    confirmed_absence_needs_admin Texts not_found not_found main' admin now missing nothing_there
