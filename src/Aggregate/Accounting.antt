-- ===== src/Aggregate/Accounting.antt =====
-- Every repository of a population is accounted for by the aggregated figures.
use gh_report.Prelude.{
  ◌+◌, ◌<◌, ◌≡◌, refl, min, false, List, [], ◌∷◌, map, keep, length, arith, if◌then◌else◌, ◌==◌,
  Text,
}
use gh_report.Metrics.{u32_max, saturating_add, CollectionHealthCheckKind}
use gh_report.Metrics.Owners.{is_active}
use gh_report.Evidence.{RepositoryEvidence}
use gh_report.Aggregate.{
  aggregate_metrics, coverage_inputs, is_public_repo, count_branch_protection_exclusion_reasons,
}
use gh_report.Aggregate.Counts.{
  count_policy_statuses, classify_policy, policy_default, count_secret_scanning_statuses,
  classify_scanning, scanning_default, count_dependabot_statuses, classify_dependabot,
  dependabot_default, count_codeowners_statuses, classify_codeowners, codeowners_default,
}
use gh_report.Aggregate.Coverage.{
  ExclusionTally, push_counts, tally_default, classify_branch_exclusion,
}
use gh_report.Aggregate.Population.{
  CoverageControl, DenominatorMembership, classify, is_eligible, in_population,
  control_denominator_population, denominator_repo_count,
}
use gh_report.Aggregate.Tallies.{
  count, length-keep, count-not, length-map, count-map, count_statuses-get, Counts,
}
use gh_report.Aggregate.Measures.{
  excludeds, policy_unmeasured, scanning_unmeasured, dependabot_unmeasured, branch_unmeasured,
  codeowners_unmeasured,
}
use gh_report.Aggregate.Exclusions.{kind_of, rank, listed, listed-push_counts, tally_sum}

listed_for :
    (k : CollectionHealthCheckKind) (sp ss db bp co : ExclusionTally)
    → listed k (
        push_counts co CollectionHealthCheckKind.codeowners (
          push_counts bp CollectionHealthCheckKind.branch_protection (
            push_counts db CollectionHealthCheckKind.dependabot (
              push_counts ss CollectionHealthCheckKind.secret_scanning
                (push_counts sp CollectionHealthCheckKind.security_policy [])))))
      ≡ (if 4 == rank k then tally_sum sp else 0)
        + (if 1 == rank k then tally_sum ss else 0)
        + (if 2 == rank k then tally_sum db else 0)
        + (if 0 == rank k then tally_sum bp else 0)
        + (if 3 == rank k then tally_sum co else 0)
listed_for k sp ss db bp co =
    let a = push_counts sp CollectionHealthCheckKind.security_policy [] in
    let b = push_counts ss CollectionHealthCheckKind.secret_scanning a in
    let c = push_counts db CollectionHealthCheckKind.dependabot b in
    let d = push_counts bp CollectionHealthCheckKind.branch_protection c in
    omega (
      arith,
      listed-push_counts k CollectionHealthCheckKind.security_policy sp [],
      listed-push_counts k CollectionHealthCheckKind.secret_scanning ss a,
      listed-push_counts k CollectionHealthCheckKind.dependabot db b,
      listed-push_counts k CollectionHealthCheckKind.branch_protection bp c,
      listed-push_counts k CollectionHealthCheckKind.codeowners co d,
    )

policy_excluded :
    (repos : List RepositoryEvidence)
    → (count_policy_statuses repos).unknown
      ≡ min u32_max (excludeds CoverageControl.security_policy repos)
unfolding count_policy_statuses
policy_excluded repos =
    count_statuses-get classify_policy (λ c. c.unknown) _ policy_unmeasured repos policy_default
      refl

scanning_excluded :
    (repos : List RepositoryEvidence)
    → (let c = count_secret_scanning_statuses repos in saturating_add c.permission_denied c.unknown)
      ≡ min u32_max (excludeds CoverageControl.secret_scanning repos)
unfolding count_secret_scanning_statuses
scanning_excluded repos =
    count_statuses-get classify_scanning (λ c. saturating_add c.permission_denied c.unknown) _
      scanning_unmeasured repos scanning_default refl

dependabot_excluded :
    (repos : List RepositoryEvidence)
    → (count_dependabot_statuses repos).unknown
      ≡ min u32_max (excludeds CoverageControl.dependabot repos)
unfolding count_dependabot_statuses
dependabot_excluded repos =
    count_statuses-get classify_dependabot (λ c. c.unknown) _ dependabot_unmeasured repos
      dependabot_default refl

codeowners_excluded :
    (repos : List RepositoryEvidence)
    → (count_codeowners_statuses repos).unknown
      ≡ min u32_max (excludeds CoverageControl.codeowners repos)
unfolding count_codeowners_statuses
codeowners_excluded repos =
    count_statuses-get classify_codeowners (λ c. c.unknown) _ codeowners_unmeasured repos
      codeowners_default refl

branch_excluded :
    (repos : List RepositoryEvidence)
    → (let t = count_branch_protection_exclusion_reasons repos in
        saturating_add t.permission_denied (saturating_add t.unknown t.other))
      ≡ min u32_max (excludeds CoverageControl.branch_protection repos)
unfolding count_branch_protection_exclusion_reasons
branch_excluded repos =
    count_statuses-get classify_branch_exclusion
      (λ c. saturating_add c.permission_denied (saturating_add c.unknown c.other)) _
      branch_unmeasured repos tally_default refl

never_applicable : Counts classify_branch_exclusion (λ t. t.not_applicable) (λ r. false)
unfolding classify_branch_exclusion
never_applicable r c h = ground arith

count-never {ℓ} : {A : Type ℓ} (xs : List A) → count (λ x. false) xs ≡ 0
count-never [] = refl
count-never (x ∷ xs) = omega (arith, count-never xs)

branch_applicable :
    (repos : List RepositoryEvidence)
    → (count_branch_protection_exclusion_reasons repos).not_applicable ≡ 0
unfolding count_branch_protection_exclusion_reasons
branch_applicable repos = omega (
  arith,
  count_statuses-get classify_branch_exclusion (λ t. t.not_applicable) (λ r. false) never_applicable
      repos tally_default refl,
  count-never repos,
)

-- the exclusions listed under a control's kind are those of its population
listed_excluded :
    (lower : Text → Text) (repos : List RepositoryEvidence) (c : CoverageControl)
    → excludeds c (keep (in_population c) repos) < u32_max
    → listed (kind_of c) (aggregate_metrics lower repos).score_exclusion_counts
      ≡ excludeds c (keep (in_population c) repos)
unfolding aggregate_metrics coverage_inputs in_population is_public_repo
listed_excluded lower repos CoverageControl.security_policy h = omega (
  arith,
  listed_for CollectionHealthCheckKind.security_policy _ _ _ _ _,
  policy_excluded (keep is_public_repo repos),
)
listed_excluded lower repos CoverageControl.secret_scanning h = omega (
  arith,
  listed_for CollectionHealthCheckKind.secret_scanning _ _ _ _ _,
  scanning_excluded (keep is_active repos),
)
listed_excluded lower repos CoverageControl.dependabot h = omega (
  arith,
  listed_for CollectionHealthCheckKind.dependabot _ _ _ _ _,
  dependabot_excluded (keep is_active repos),
)
listed_excluded lower repos CoverageControl.codeowners h = omega (
  arith,
  listed_for CollectionHealthCheckKind.codeowners _ _ _ _ _,
  codeowners_excluded (keep is_active repos),
)
listed_excluded lower repos CoverageControl.branch_protection h = omega (
  arith,
  listed_for CollectionHealthCheckKind.branch_protection _ _ _ _ _,
  branch_excluded (keep is_active repos),
  branch_applicable (keep is_active repos),
)

tag : CoverageControl → RepositoryEvidence → RepositoryEvidence × DenominatorMembership
tag c r = (r, classify c r)

-- While a population is below the bound of a 32-bit counter, each of its repositories is either
-- measured, and so in the denominator that the drill-down counts, or listed under the control's
-- kind among the exclusions, and none is both.
pub exclusions_account_for :
    (to_lowercase : Text → Text) (repositories : List RepositoryEvidence) (c : CoverageControl)
    → length (control_denominator_population c repositories) < u32_max
    → listed (kind_of c) (aggregate_metrics to_lowercase repositories).score_exclusion_counts
        + denominator_repo_count (control_denominator_population c repositories)
      ≡ length (control_denominator_population c repositories)
unfolding control_denominator_population denominator_repo_count tag
exclusions_account_for lower repos c h =
    let inside = keep (in_population c) repos in
    let eligible_bits = length-keep (λ x. is_eligible x.1) (map (tag c) inside) in
    let mapped = count-map (λ x. is_eligible x.1) (tag c) inside in
    let whole = count-not (λ r. is_eligible (classify c r)) inside in
    let size = length-map (tag c) inside in
    omega (
      arith,
      eligible_bits,
      mapped,
      whole,
      size,
      listed_excluded lower repos c (omega (arith, whole, size)),
    )
