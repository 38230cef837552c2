-- ===== src/Aggregate/Health.antt =====
-- aggregate/metrics.rs: the collection-health taxonomy.
use gh_report.Prelude.{
  ℕ, Bool, true, false, List, [], ◌∷◌, ◌++◌, if◌then◌else◌, ltb, leb, ◌==◌, ◌&&◌, ◌||◌, sort_by,
}
use gh_report.Metrics.{saturating_add, CollectionHealthCheckKind, CollectionHealthCount}
use gh_report.Evidence.{RepositoryEvidence}
use gh_report.Checks.Score.{IndeterminateReason, CollectionFailureReason}
use gh_report.Checks.SecretScanning
use gh_report.Checks.SecretScanning.{SecretScanningStatus}
use gh_report.Checks.BranchProtection.{BranchProtectionResult, HistoryProtectionGap}
use gh_report.Aggregate.Counts.{count_statuses}

pub record CollectionHealthTaxonomyCounts : Type 0 where
  pub secret_scanning_permission_denied : ℕ
  pub branch_protection_permission_suspected : ℕ
  pub branch_protection_not_found_absent : ℕ
  pub branch_protection_permission_denied : ℕ
  pub branch_protection_transient : ℕ
  pub branch_protection_rate_limited : ℕ
  pub branch_protection_invalid : ℕ

abbrev pub taxonomy_default : CollectionHealthTaxonomyCounts
taxonomy_default = record {
  secret_scanning_permission_denied = 0;
  branch_protection_permission_suspected = 0;
  branch_protection_not_found_absent = 0;
  branch_protection_permission_denied = 0;
  branch_protection_transient = 0;
  branch_protection_rate_limited = 0;
  branch_protection_invalid = 0;
}

abbrev count_reason :
    IndeterminateReason → CollectionHealthTaxonomyCounts → CollectionHealthTaxonomyCounts
count_reason IndeterminateReason.permission_denied c = record c {
  branch_protection_permission_denied = saturating_add c.branch_protection_permission_denied 1;
}
count_reason IndeterminateReason.permission_suspected c = record c {
  branch_protection_permission_suspected =
      saturating_add c.branch_protection_permission_suspected 1;
}
count_reason IndeterminateReason.transient c = record c {
  branch_protection_transient = saturating_add c.branch_protection_transient 1;
}
count_reason IndeterminateReason.rate_limited c = record c {
  branch_protection_rate_limited = saturating_add c.branch_protection_rate_limited 1;
}
count_reason IndeterminateReason.invalid c = record c {
  branch_protection_invalid = saturating_add c.branch_protection_invalid 1;
}
count_reason IndeterminateReason.pending c = c

abbrev count_branch :
    BranchProtectionResult → CollectionHealthTaxonomyCounts → CollectionHealthTaxonomyCounts
count_branch (BranchProtectionResult.unobservable branch reason http_status timestamp) c =
    count_reason reason c
count_branch
      (BranchProtectionResult.unprotected branch
        (HistoryProtectionGap.absent true status)
        timestamp)
      c =
    record c {
      branch_protection_not_found_absent = saturating_add c.branch_protection_not_found_absent 1;
    }
count_branch (BranchProtectionResult.unprotected branch gap timestamp) c = c
count_branch (BranchProtectionResult.protected branch timestamp) c = c

abbrev is_denied : SecretScanningStatus → Bool
is_denied SecretScanningStatus.permission_denied = true
is_denied _ = false

unfoldable pub classify_health :
    RepositoryEvidence → CollectionHealthTaxonomyCounts → CollectionHealthTaxonomyCounts
unfolding SecretScanning.status
classify_health repo c = count_branch repo.checks.branch_protection (
    if is_denied (SecretScanning.status repo.checks.secret_scanning)
    then record c {
      secret_scanning_permission_denied = saturating_add c.secret_scanning_permission_denied 1;
    }
    else c)

unfoldable pub count_collection_health_reasons :
    List RepositoryEvidence → CollectionHealthTaxonomyCounts
unfolding count_statuses classify_health
count_collection_health_reasons = count_statuses classify_health taxonomy_default

abbrev push_collection_health_count :
    List CollectionHealthCount
    → CollectionHealthCheckKind
    → CollectionFailureReason
    → ℕ
    → List CollectionHealthCount
push_collection_health_count counts kind why n =
    if ltb 0 n then counts ++ record { check_kind = kind; reason = why; count = n } ∷ [] else counts

-- the discriminants, by which the derived orders compare
abbrev kind_rank : CollectionHealthCheckKind → ℕ
kind_rank CollectionHealthCheckKind.branch_protection = 0
kind_rank CollectionHealthCheckKind.secret_scanning = 1
kind_rank CollectionHealthCheckKind.dependabot = 2
kind_rank CollectionHealthCheckKind.codeowners = 3
kind_rank CollectionHealthCheckKind.security_policy = 4
kind_rank CollectionHealthCheckKind.inventory = 5
kind_rank CollectionHealthCheckKind.rulesets = 6

abbrev reason_rank : CollectionFailureReason → ℕ
reason_rank CollectionFailureReason.permission_denied = 0
reason_rank CollectionFailureReason.permission_suspected = 1
reason_rank CollectionFailureReason.not_found_absent = 2
reason_rank CollectionFailureReason.transient = 3
reason_rank CollectionFailureReason.rate_limited = 4
reason_rank CollectionFailureReason.invalid = 5

abbrev health_leb : CollectionHealthCount → CollectionHealthCount → Bool
health_leb a b =
    ltb (kind_rank a.check_kind) (kind_rank b.check_kind)
    || (kind_rank a.check_kind == kind_rank b.check_kind
        && leb (reason_rank a.reason) (reason_rank b.reason))

unfoldable pub into_counts : CollectionHealthTaxonomyCounts → List CollectionHealthCount
unfolding sort_by
into_counts t =
    let scanning = CollectionHealthCheckKind.secret_scanning in
    let branch = CollectionHealthCheckKind.branch_protection in
    let c1 =
      push_collection_health_count [] scanning CollectionFailureReason.permission_denied
        t.secret_scanning_permission_denied in
    let c2 =
      push_collection_health_count c1 branch CollectionFailureReason.permission_suspected
        t.branch_protection_permission_suspected in
    let c3 =
      push_collection_health_count c2 branch CollectionFailureReason.not_found_absent
        t.branch_protection_not_found_absent in
    let c4 =
      push_collection_health_count c3 branch CollectionFailureReason.permission_denied
        t.branch_protection_permission_denied in
    let c5 =
      push_collection_health_count c4 branch CollectionFailureReason.transient
        t.branch_protection_transient in
    let c6 =
      push_collection_health_count c5 branch CollectionFailureReason.rate_limited
        t.branch_protection_rate_limited in
    let c7 =
      push_collection_health_count c6 branch CollectionFailureReason.invalid
        t.branch_protection_invalid in
    sort_by health_leb c7
