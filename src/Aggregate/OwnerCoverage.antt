-- ===== src/Aggregate/OwnerCoverage.antt =====
-- The rates of an owner against the classification that the drill-down shows.
use gh_report.Prelude.{
  ℕ, ◌+◌, ◌≡◌, refl, min, Bool, true, false, List, arith, if◌then◌else◌, ◌==◌, Text, text_eq,
  text_cmp, codes, some,
}
use gh_report.Metrics.{u32_max, saturating_add, RateMetric}
use gh_report.OrderedMap
use gh_report.Evidence.{RepositoryEvidence}
use gh_report.Aggregate.Counts.{count_statuses}
use gh_report.Aggregate.Owners.{
  ControlCounts, control_coverage, classify_owner, owner_default, build_per_control_coverage,
  OwnerCounts,
}
use gh_report.Aggregate.Population.{
  CoverageControl, DenominatorMembership, UnmeasuredReason, eligible, excluded, classify, is_met,
}
use gh_report.Aggregate.Tallies.{count, count_statuses-get, Counts}
use gh_report.Aggregate.Measures.{
  Measures, coverage_metric-Measures, is_unmet, mets, unmets, failure_of,
}

-- left out of the denominator for want of a measurement, and not because the control does not apply
abbrev pub is_failure : DenominatorMembership → Bool
is_failure (eligible o) = false
is_failure (excluded UnmeasuredReason.permission_denied) = true
is_failure (excluded UnmeasuredReason.unknown) = true
is_failure (excluded UnmeasuredReason.not_applicable) = false

abbrev pub failures : CoverageControl → List RepositoryEvidence → ℕ
failures c = count (λ r. is_failure (classify c r))

abbrev counts_of : CoverageControl → OwnerCounts → ControlCounts
counts_of CoverageControl.security_policy o = o.sp
counts_of CoverageControl.secret_scanning o = o.secret
counts_of CoverageControl.dependabot o = o.db
counts_of CoverageControl.codeowners o = o.co
counts_of CoverageControl.branch_protection o = o.bp

abbrev failed : CoverageControl → OwnerCounts → ℕ
failed c o =
    let t = (counts_of c o).tally in
    saturating_add t.permission_denied (saturating_add t.unknown t.other)

owner_passes :
    (c : CoverageControl)
    → Counts classify_owner (λ o. (counts_of c o).pass) (λ r. is_met (classify c r))
unfolding classify_owner classify
owner_passes CoverageControl.security_policy r o h = ground arith
owner_passes CoverageControl.secret_scanning r o h = ground arith
owner_passes CoverageControl.dependabot r o h = ground arith
owner_passes CoverageControl.codeowners r o h = ground arith
owner_passes CoverageControl.branch_protection r o h = ground arith

owner_fails :
    (c : CoverageControl)
    → Counts classify_owner (λ o. (counts_of c o).fail) (λ r. is_unmet (classify c r))
unfolding classify_owner classify
owner_fails CoverageControl.security_policy r o h = ground arith
owner_fails CoverageControl.secret_scanning r o h = ground arith
owner_fails CoverageControl.dependabot r o h = ground arith
owner_fails CoverageControl.codeowners r o h = ground arith
owner_fails CoverageControl.branch_protection r o h = ground arith

owner_failures_counted :
    (c : CoverageControl) → Counts classify_owner (λ o. failed c o) (λ r. is_failure (classify c r))
unfolding classify_owner classify
owner_failures_counted CoverageControl.security_policy r o h = ground arith
owner_failures_counted CoverageControl.secret_scanning r o h = ground arith
owner_failures_counted CoverageControl.dependabot r o h = ground arith
owner_failures_counted CoverageControl.codeowners r o h = ground arith
owner_failures_counted CoverageControl.branch_protection r o h = ground arith

-- the key of a control's rate in `per_control_coverage`
abbrev pub control_key : CoverageControl → Text
control_key CoverageControl.security_policy = codes "security_policy"
control_key CoverageControl.secret_scanning = codes "secret_scanning"
control_key CoverageControl.dependabot = codes "dependabot_security_updates"
control_key CoverageControl.codeowners = codes "codeowners"
control_key CoverageControl.branch_protection = codes "branch_protection"

owner_rate : CoverageControl → List RepositoryEvidence → RateMetric
owner_rate c repos =
    control_coverage (counts_of c (count_statuses classify_owner owner_default repos))

owner_rate_stored :
    (c : CoverageControl) (repos : List RepositoryEvidence)
    → OrderedMap.get (control_key c) (build_per_control_coverage repos).per_control_coverage
      ≡ some (owner_rate c repos)
unfolding build_per_control_coverage owner_rate OrderedMap.get OrderedMap.insert text_cmp text_eq
owner_rate_stored CoverageControl.security_policy repos = refl
owner_rate_stored CoverageControl.secret_scanning repos = refl
owner_rate_stored CoverageControl.dependabot repos = refl
owner_rate_stored CoverageControl.codeowners repos = refl
owner_rate_stored CoverageControl.branch_protection repos = refl

start_zero :
    (c : CoverageControl)
    → ((counts_of c owner_default).pass ≡ 0)
      × ((counts_of c owner_default).fail ≡ 0)
      × (failed c owner_default ≡ 0)
start_zero CoverageControl.security_policy = (refl, refl, refl)
start_zero CoverageControl.secret_scanning = (refl, refl, refl)
start_zero CoverageControl.dependabot = (refl, refl, refl)
start_zero CoverageControl.codeowners = (refl, refl, refl)
start_zero CoverageControl.branch_protection = (refl, refl, refl)

owner_rate-Measures :
    (c : CoverageControl) (repos : List RepositoryEvidence)
    → Measures (owner_rate c repos) (mets c repos) (unmets c repos) (failures c repos)
unfolding owner_rate control_coverage
owner_rate-Measures c repos =
    let o = count_statuses classify_owner owner_default repos in
    let t = (counts_of c o).tally in
    coverage_metric-Measures (counts_of c o).pass (counts_of c o).fail t _ _ _
      (count_statuses-get classify_owner (λ o. (counts_of c o).pass) _ (owner_passes c) repos
        owner_default (start_zero c).0)
      (count_statuses-get classify_owner (λ o. (counts_of c o).fail) _ (owner_fails c) repos
        owner_default (start_zero c).1)
      (failure_of t (failed c o) _
        (count_statuses-get classify_owner (failed c) _ (owner_failures_counted c) repos
          owner_default (start_zero c).2)
        (ground arith))

-- An owner's rates stand under the five control keys. Each is computed by scores, and counts the
-- owner's repositories as the drill-down classifies them by status: met over measured, where an
-- owner with nothing measured has one failure if some measurement failed, and no rate if the
-- control applies to none of the repositories.
pub owner_coverage-classify :
    (repos : List RepositoryEvidence) (c : CoverageControl)
    → (rate : RateMetric) × (OrderedMap.get
          (control_key c)
          (build_per_control_coverage repos).per_control_coverage
        ≡ some rate)
      × (rate.numerator ≡ min u32_max (mets c repos))
      × (rate.denominator ≡ (
          if mets c repos + unmets c repos + failures c repos == 0
          then 0
          else if mets c repos + unmets c repos == 0
          then 1
          else min u32_max (mets c repos + unmets c repos)))
owner_coverage-classify repos c =
    let m = owner_rate-Measures c repos in
    (owner_rate c repos, owner_rate_stored c repos, m.numerator_lem, m.denominator_lem)
