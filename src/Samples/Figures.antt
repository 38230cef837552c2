-- ===== src/Samples/Figures.antt =====
-- The theorems on the aggregation, on three repositories of which one could not be measured.
use gh_report.Prelude.{
  ◌+◌, ◌<◌, ◌≡◌, min, refl, some, List, [], ◌∷◌, Text, codes, length, arith, if◌then◌else◌, ◌==◌,
  keep, is_empty,
}
use gh_report.OrderedMap
use gh_report.Evidence.{RepositoryEvidence}
use gh_report.Metrics.{u32_max, saturating_add, RateMetric}
use gh_report.Metrics.Owners.{build_owner_repo_map, is_active}
use gh_report.Metrics.Grouping.{owner_entry-mentions, entry_of, mentions}
use gh_report.Aggregate.{aggregate_metrics}
use gh_report.Aggregate.Counts.{build_collection_statistics}
use gh_report.Aggregate.Population.{
  CoverageControl, coverage, control_denominator_population, denominator_repo_count,
  denominator_met_count, in_population, classify,
}
use gh_report.Aggregate.Owners.{build_per_control_coverage}
use gh_report.Aggregate.Measures.{mets, unmets}
use gh_report.Aggregate.DrillDown.{drill_down-coverage}
use gh_report.Aggregate.Accounting.{exclusions_account_for}
use gh_report.Aggregate.Exclusions.{listed, kind_of}
use gh_report.Aggregate.Statistics.{shown_as, statistics_partition}
use gh_report.Aggregate.Tallies.{count}
use gh_report.Repository.{public, internal, private}
use gh_report.Aggregate.Alerts.{prevalence_partition}
use gh_report.Aggregate.OwnerCoverage.{owner_coverage-classify, control_key, failures}
use gh_report.Checks.Codeowners.{CodeownersResult, CodeownersContent}
use gh_report.Samples.{now, alpha, alpha_denied, beta}

abbrev collected : List RepositoryEvidence
collected = alpha ∷ alpha_denied ∷ beta ∷ []

-- names that are in lower case already
abbrev lower_case : Text → Text
lower_case s = s

abbrev scanning : CoverageControl
scanning = CoverageControl.secret_scanning

scanned : denominator_met_count (control_denominator_population scanning collected) ≡ 2
unfolding control_denominator_population denominator_met_count in_population classify
scanned = refl

drill_down-coverage_example :
    (let rate = coverage scanning (aggregate_metrics lower_case collected) in
      let population = control_denominator_population scanning collected in
      (rate.numerator ≡ denominator_met_count population)
      × (rate.denominator ≡ (
          if is_empty population
          then 0
          else if denominator_repo_count population == 0
          then 1
          else denominator_repo_count population)))
drill_down-coverage_example = drill_down-coverage lower_case collected scanning

all_in : length (control_denominator_population scanning collected) < u32_max
unfolding control_denominator_population in_population
all_in = omega arith

exclusions_account_for_example :
    listed (kind_of scanning) (aggregate_metrics lower_case collected).score_exclusion_counts
      + denominator_repo_count (control_denominator_population scanning collected)
    ≡ length (control_denominator_population scanning collected)
exclusions_account_for_example = exclusions_account_for lower_case collected scanning all_in

statistics_partition_example :
    (let s = build_collection_statistics collected in
      (s.public_repos ≡ min u32_max (count (shown_as public) collected))
      × (s.internal_repos ≡ min u32_max (count (shown_as internal) collected))
      × (s.private_repos ≡ min u32_max (count (shown_as private) collected))
      × (s.archived_repos ≡ min u32_max (count (λ r. r.repository.archived) collected))
      × (s.total_repos
          ≡ saturating_add s.public_repos (saturating_add s.internal_repos s.private_repos))
      × (saturating_add s.total_repos s.archived_repos ≡ min u32_max (length collected)))
statistics_partition_example = statistics_partition collected

prevalence_partition_example :
    (let m = aggregate_metrics lower_case collected in
      let rate = m.open_secret_alert_prevalence in
      let counts = m.secret_alert_counts in
      (saturating_add rate.numerator counts.repos_without_open_alerts ≡ rate.denominator)
      × (saturating_add rate.denominator counts.unobservable
          ≡ min u32_max (length (keep is_active collected))))
prevalence_partition_example = prevalence_partition lower_case collected

owner_coverage-classify_example :
    (rate : RateMetric) × (OrderedMap.get
        (control_key scanning)
        (build_per_control_coverage collected).per_control_coverage
      ≡ some rate)
    × (rate.numerator ≡ min u32_max (mets scanning collected))
    × (rate.denominator ≡ (
        if mets scanning collected + unmets scanning collected + failures scanning collected == 0
        then 0
        else if mets scanning collected + unmets scanning collected == 0
        then 1
        else min u32_max (mets scanning collected + unmets scanning collected)))
owner_coverage-classify_example = owner_coverage-classify collected scanning

-- a repository that the team owns
abbrev owned : RepositoryEvidence
owned = record beta {
  checks = record beta.checks {
    codeowners =
        CodeownersResult.conforming
          (CodeownersContent.parsed
            (record { entries = []; unique_owners = codes "@org/core" ∷ []; skipped_lines = 0 }))
          now;
  };
}

owner_entry-mentions_example :
    OrderedMap.get (codes "@org/core") (build_owner_repo_map lower_case (alpha ∷ owned ∷ []))
    ≡ entry_of (mentions lower_case (codes "@org/core") (alpha ∷ owned ∷ []))
owner_entry-mentions_example =
    owner_entry-mentions lower_case (codes "@org/core") (alpha ∷ owned ∷ [])
