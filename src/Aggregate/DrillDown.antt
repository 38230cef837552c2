-- ===== src/Aggregate/DrillDown.antt =====
-- The coverage figures against the list of repositories that a drill-down shows behind them.
use gh_report.Prelude.{
  ◌+◌, ◌≡◌, refl, ap, ◌∙◌, sym, min, Bool, List, map, keep, length, is_empty, arith, if◌then◌else◌,
  ◌==◌, Text,
}
use gh_report.Metrics.{u32_max, saturating_add}
use gh_report.Metrics.Owners.{is_active}
use gh_report.Evidence.{RepositoryEvidence}
use gh_report.Aggregate.{
  aggregate_metrics, coverage_inputs, count_branch_protection_exclusion_reasons, is_public_repo,
}
use gh_report.Aggregate.Counts.{
  count_policy_statuses, count_secret_scanning_statuses, count_dependabot_statuses,
  count_branch_protection_statuses, count_codeowners_statuses, classify_policy, policy_default,
  classify_scanning, scanning_default, classify_dependabot, dependabot_default, classify_branch,
  branch_default, classify_codeowners, codeowners_default,
}
use gh_report.Aggregate.Coverage.{
  tally_default, codeowners_extras, dependabot_extras, secret_scanning_extras,
  security_policy_coverage, security_policy_extras, secret_scanning_coverage, dependabot_coverage,
  branch_protection_coverage, branch_protection_extras, codeowners_coverage, build_coverage_metrics,
  classify_branch_exclusion, exclusion_tally_from_policy, exclusion_tally_from_secret_scanning,
  exclusion_tally_from_dependabot, exclusion_tally_from_codeowners,
}
use gh_report.Aggregate.Population.{
  CoverageControl, DenominatorMembership, classify, coverage, in_population, is_met, is_eligible,
  control_denominator_population, denominator_repo_count, denominator_met_count,
}
use gh_report.Aggregate.Tallies.{
  count, length-keep, count-add, count-not, is_empty-length, length-map, count-map,
  count_statuses-get,
}
use gh_report.Aggregate.Measures.{
  is_unmet, mets, unmets, excludeds, MeasuresControl, membership_bits, control-Measures, failure_of,
  policy_passes, policy_fails, policy_unmeasured, scanning_passes, scanning_fails,
  scanning_unmeasured, dependabot_passes, dependabot_fails, dependabot_unmeasured, branch_passes,
  branch_fails, codeowners_passes, codeowners_fails, codeowners_unmeasured, branch_unmeasured,
}

policy_counted :
    (pop active : List RepositoryEvidence)
    → MeasuresControl
        (security_policy_coverage (coverage_inputs pop active))
        CoverageControl.security_policy
        pop
unfolding security_policy_coverage coverage_inputs count_policy_statuses
policy_counted pop active =
    let tally = exclusion_tally_from_policy (count_policy_statuses pop) in
    control-Measures classify_policy policy_default CoverageControl.security_policy _ _
      policy_passes policy_fails pop (security_policy_extras (coverage_inputs pop active)) tally
      refl refl
      (failure_of tally (count_policy_statuses pop).unknown _
        (count_statuses-get classify_policy (λ c. c.unknown) _ policy_unmeasured pop policy_default
          refl)
        (ground arith))

scanning_counted :
    (pop active : List RepositoryEvidence)
    → MeasuresControl
        (secret_scanning_coverage (coverage_inputs pop active))
        CoverageControl.secret_scanning
        active
unfolding secret_scanning_coverage coverage_inputs count_secret_scanning_statuses
scanning_counted pop active =
    let counts = count_secret_scanning_statuses active in
    let tally = exclusion_tally_from_secret_scanning counts in
    control-Measures classify_scanning scanning_default CoverageControl.secret_scanning _ _
      scanning_passes scanning_fails active (secret_scanning_extras (coverage_inputs pop active))
      tally refl refl
      (failure_of tally (saturating_add counts.permission_denied counts.unknown) _
        (count_statuses-get classify_scanning (λ c. saturating_add c.permission_denied c.unknown) _
          scanning_unmeasured active scanning_default refl)
        (ground arith))

dependabot_counted :
    (pop active : List RepositoryEvidence)
    → MeasuresControl
        (dependabot_coverage (coverage_inputs pop active))
        CoverageControl.dependabot
        active
unfolding dependabot_coverage coverage_inputs count_dependabot_statuses
dependabot_counted pop active =
    let tally = exclusion_tally_from_dependabot (count_dependabot_statuses active) in
    control-Measures classify_dependabot dependabot_default CoverageControl.dependabot _ _
      dependabot_passes dependabot_fails active (dependabot_extras (coverage_inputs pop active))
      tally refl refl
      (failure_of tally (count_dependabot_statuses active).unknown _
        (count_statuses-get classify_dependabot (λ c. c.unknown) _ dependabot_unmeasured active
          dependabot_default refl)
        (ground arith))

branch_counted :
    (pop active : List RepositoryEvidence)
    → MeasuresControl
        (branch_protection_coverage (coverage_inputs pop active))
        CoverageControl.branch_protection
        active
unfolding branch_protection_coverage coverage_inputs count_branch_protection_statuses
    count_branch_protection_exclusion_reasons
branch_counted pop active =
    let t = count_branch_protection_exclusion_reasons active in
    control-Measures classify_branch branch_default CoverageControl.branch_protection _ _
      branch_passes branch_fails active (branch_protection_extras (coverage_inputs pop active)) t
      refl refl
      (failure_of t (saturating_add t.permission_denied (saturating_add t.unknown t.other)) _
        (count_statuses-get classify_branch_exclusion
          (λ c. saturating_add c.permission_denied (saturating_add c.unknown c.other)) _
          branch_unmeasured active tally_default refl)
        (ground arith))

codeowners_counted :
    (pop active : List RepositoryEvidence)
    → MeasuresControl
        (codeowners_coverage (coverage_inputs pop active))
        CoverageControl.codeowners
        active
unfolding codeowners_coverage coverage_inputs count_codeowners_statuses
codeowners_counted pop active =
    let tally = exclusion_tally_from_codeowners (count_codeowners_statuses active) in
    control-Measures classify_codeowners codeowners_default CoverageControl.codeowners _ _
      codeowners_passes codeowners_fails active (codeowners_extras (coverage_inputs pop active))
      tally refl refl
      (failure_of tally (count_codeowners_statuses active).unknown _
        (count_statuses-get classify_codeowners (λ c. c.unknown) _ codeowners_unmeasured active
          codeowners_default refl)
        (ground arith))

aggregated :
    (lower : Text → Text) (repos : List RepositoryEvidence) (c : CoverageControl)
    → MeasuresControl (coverage c (aggregate_metrics lower repos)) c (keep (in_population c) repos)
unfolding aggregate_metrics build_coverage_metrics in_population is_public_repo
aggregated lower repos CoverageControl.security_policy =
    policy_counted (keep is_public_repo repos) (keep is_active repos)
aggregated lower repos CoverageControl.secret_scanning =
    scanning_counted (keep is_public_repo repos) (keep is_active repos)
aggregated lower repos CoverageControl.dependabot =
    dependabot_counted (keep is_public_repo repos) (keep is_active repos)
aggregated lower repos CoverageControl.codeowners =
    codeowners_counted (keep is_public_repo repos) (keep is_active repos)
aggregated lower repos CoverageControl.branch_protection =
    branch_counted (keep is_public_repo repos) (keep is_active repos)

tag : CoverageControl → RepositoryEvidence → RepositoryEvidence × DenominatorMembership
tag c r = (r, classify c r)

tagged :
    (p : DenominatorMembership → Bool) (c : CoverageControl) (inside : List RepositoryEvidence)
    → min (length (keep (λ x. p x.1) (map (tag c) inside))) u32_max
      ≡ min u32_max (count (λ r. p (classify c r)) inside)
unfolding tag
tagged p c inside =
    omega
      (arith, length-keep (λ x. p x.1) (map (tag c) inside), count-map (λ x. p x.1) (tag c) inside)

record PopulationCounts (c : CoverageControl) (repos : List RepositoryEvidence) : Type 0 where
  met_lem :
      denominator_met_count (control_denominator_population c repos)
      ≡ min u32_max (mets c (keep (in_population c) repos))
  repo_lem :
      denominator_repo_count (control_denominator_population c repos)
      ≡ min u32_max
          (mets c (keep (in_population c) repos) + unmets c (keep (in_population c) repos))
  empty_lem : is_empty (control_denominator_population c repos) ≡ (
      mets c (keep (in_population c) repos)
        + unmets c (keep (in_population c) repos)
        + excludeds c (keep (in_population c) repos)
      == 0)

population_counts :
    (c : CoverageControl) (repos : List RepositoryEvidence) → PopulationCounts c repos
unfolding control_denominator_population denominator_met_count denominator_repo_count tag
population_counts c repos =
    let inside = keep (in_population c) repos in
    let split =
      count-add (λ r. is_met (classify c r)) (λ r. is_unmet (classify c r))
        (λ r. is_eligible (classify c r)) (λ r. membership_bits (classify c r)) inside in
    record {
      met_lem = tagged is_met c inside;
      repo_lem = omega (arith, tagged is_eligible c inside, split);
      empty_lem =
          is_empty-length (map (tag c) inside)
          ∙ ap (λ n. n == 0)
              (omega (
                arith,
                length-map (tag c) inside,
                split,
                count-not (λ r. is_eligible (classify c r)) inside,
              ));
    }

-- The drill-down of a control shows the repositories behind its coverage: the numerator is the
-- number of those that meet the control, and the denominator the number of those that were
-- measured, except that a population in which nothing could be measured counts as one failure.
pub drill_down-coverage :
    (to_lowercase : Text → Text) (repositories : List RepositoryEvidence) (c : CoverageControl)
    → (let rate = coverage c (aggregate_metrics to_lowercase repositories) in
        let population = control_denominator_population c repositories in
        (rate.numerator ≡ denominator_met_count population)
        × (rate.denominator ≡ (
            if is_empty population
            then 0
            else if denominator_repo_count population == 0
            then 1
            else denominator_repo_count population)))
drill_down-coverage lower repos c =
    let rate = aggregated lower repos c in
    let counts = population_counts c repos in
    (
      rate.numerator_lem ∙ sym counts.met_lem,
      ground (arith, rate.denominator_lem, counts.repo_lem, counts.empty_lem),
    )
