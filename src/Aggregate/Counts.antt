-- ===== src/Aggregate/Counts.antt =====
-- aggregate/metrics.rs: the counts of each check's statuses over a list of evidence. A counter of
-- 32 bits stops at its bound.
use gh_report.Prelude.{
  ℕ, min, Bool, true, false, ◌&&◌, none, some, List, [], ◌∷◌, keep, length, if◌then◌else◌, is_some,
}
use gh_report.Metrics.{
  u32_max, saturating_add, PolicyCounts, SecretScanningCounts, DependabotCounts,
  BranchProtectionCounts, CodeownersCounts, SecretAlertCounts, CollectionStatistics,
}
use gh_report.Metrics.Owners.{is_active}
use gh_report.Repository.{Visibility, visibility_eq, public, internal, private}
use gh_report.Evidence.{RepositoryEvidence}
use gh_report.Checks.SecurityPolicy
use gh_report.Checks.SecurityPolicy.{SecurityPolicyStatus, SecurityPolicyEvidence}
use gh_report.Checks.SecretScanning
use gh_report.Checks.SecretScanning.{SecretScanningStatus}
use gh_report.Checks.Dependabot.{DependabotStatus}
use gh_report.Checks.BranchProtection.{BranchProtectionResult}
use gh_report.Checks.Codeowners
use gh_report.Checks.Codeowners.{CodeownersStatus}

unfoldable pub count_as_u32 : ℕ → ℕ
count_as_u32 n = min n u32_max

abbrev pub has_visibility : Visibility → RepositoryEvidence → Bool
has_visibility v r = visibility_eq r.repository.visibility v

unfoldable pub count_by_visibility : List RepositoryEvidence → Visibility → ℕ
unfolding count_as_u32
count_by_visibility active v = count_as_u32 (length (keep (has_visibility v) active))

unfoldable pub build_collection_statistics : List RepositoryEvidence → CollectionStatistics
unfolding count_by_visibility count_as_u32
build_collection_statistics repositories =
    let active = keep is_active repositories in
    record {
      total_repos = count_as_u32 (length active);
      public_repos = count_by_visibility active public;
      internal_repos = count_by_visibility active internal;
      private_repos = count_by_visibility active private;
      archived_repos = count_as_u32 (length (keep (λ r. r.repository.archived) repositories));
    }

module _ {ℓ} {T : Type ℓ} where
  -- the loop of `count_statuses` and of the two counters that write it out
  unfoldable pub count_statuses : (RepositoryEvidence → T → T) → T → List RepositoryEvidence → T
  count_statuses classify counts [] = counts
  count_statuses classify counts (repo ∷ repos) =
      count_statuses classify (classify repo counts) repos

abbrev is_setting : SecurityPolicyEvidence → Bool
is_setting SecurityPolicyEvidence.setting = true
is_setting _ = false

abbrev pub policy_default : PolicyCounts
policy_default = record { via_setting = 0; via_file = 0; unknown = 0; missing = 0 }

-- in a release build, where `debug_assert!` is no code
unfoldable pub classify_policy : RepositoryEvidence → PolicyCounts → PolicyCounts
unfolding SecurityPolicy.status SecurityPolicy.evidence
classify_policy repo c = elim (SecurityPolicy.status repo.checks.security_policy) [
  | SecurityPolicyStatus.pass ↦
      if is_setting (SecurityPolicy.evidence repo.checks.security_policy)
      then record c { via_setting = saturating_add c.via_setting 1 }
      else record c { via_file = saturating_add c.via_file 1 }
  | SecurityPolicyStatus.fail ↦ record c { missing = saturating_add c.missing 1 }
  | SecurityPolicyStatus.unknown ↦ record c { unknown = saturating_add c.unknown 1 }
  | SecurityPolicyStatus.not_applicable ↦ record c { unknown = saturating_add c.unknown 1 }
]

unfoldable pub count_policy_statuses : List RepositoryEvidence → PolicyCounts
unfolding count_statuses classify_policy
count_policy_statuses = count_statuses classify_policy policy_default

abbrev pub scanning_default : SecretScanningCounts
scanning_default = record { enabled = 0; disabled = 0; permission_denied = 0; unknown = 0 }

unfoldable pub classify_scanning : RepositoryEvidence → SecretScanningCounts → SecretScanningCounts
unfolding SecretScanning.status
classify_scanning repo c = elim (SecretScanning.status repo.checks.secret_scanning) [
  | SecretScanningStatus.enabled ↦ record c { enabled = saturating_add c.enabled 1 }
  | SecretScanningStatus.disabled ↦ record c { disabled = saturating_add c.disabled 1 }
  | SecretScanningStatus.permission_denied ↦ record c {
    permission_denied = saturating_add c.permission_denied 1;
  }
  | SecretScanningStatus.unknown ↦ record c { unknown = saturating_add c.unknown 1 }
]

unfoldable pub count_secret_scanning_statuses : List RepositoryEvidence → SecretScanningCounts
unfolding count_statuses classify_scanning
count_secret_scanning_statuses = count_statuses classify_scanning scanning_default

abbrev pub dependabot_default : DependabotCounts
dependabot_default = record { enabled = 0; paused = 0; disabled = 0; unknown = 0 }

abbrev pub classify_dependabot : RepositoryEvidence → DependabotCounts → DependabotCounts
classify_dependabot repo c = elim repo.checks.dependabot_security_updates.status [
  | DependabotStatus.enabled ↦ record c { enabled = saturating_add c.enabled 1 }
  | DependabotStatus.paused ↦ record c { paused = saturating_add c.paused 1 }
  | DependabotStatus.disabled ↦ record c { disabled = saturating_add c.disabled 1 }
  | DependabotStatus.unknown ↦ record c { unknown = saturating_add c.unknown 1 }
]

unfoldable pub count_dependabot_statuses : List RepositoryEvidence → DependabotCounts
unfolding count_statuses
count_dependabot_statuses = count_statuses classify_dependabot dependabot_default

abbrev pub branch_default : BranchProtectionCounts
branch_default = record { pass = 0; fail = 0; unknown = 0 }

abbrev pub classify_branch : RepositoryEvidence → BranchProtectionCounts → BranchProtectionCounts
classify_branch repo c = elim repo.checks.branch_protection [
  | BranchProtectionResult.protected branch timestamp ↦ record c { pass = saturating_add c.pass 1 }
  | BranchProtectionResult.unprotected branch gap timestamp ↦ record c {
    fail = saturating_add c.fail 1;
  }
  | BranchProtectionResult.unobservable branch reason http_status timestamp ↦ record c {
    unknown = saturating_add c.unknown 1;
  }
]

unfoldable pub count_branch_protection_statuses : List RepositoryEvidence → BranchProtectionCounts
unfolding count_statuses
count_branch_protection_statuses = count_statuses classify_branch branch_default

abbrev pub codeowners_default : CodeownersCounts
codeowners_default = record {
  conforming = 0;
  non_conforming = 0;
  absent = 0;
  unknown = 0;
  truncated = 0;
}

abbrev count_location : CodeownersStatus → CodeownersCounts → CodeownersCounts
count_location CodeownersStatus.conforming c = record c {
  conforming = saturating_add c.conforming 1;
}
count_location CodeownersStatus.non_conforming c = record c {
  non_conforming = saturating_add c.non_conforming 1;
}
count_location CodeownersStatus.absent c = record c { absent = saturating_add c.absent 1 }
count_location CodeownersStatus.unknown c = record c { unknown = saturating_add c.unknown 1 }

unfoldable pub classify_codeowners : RepositoryEvidence → CodeownersCounts → CodeownersCounts
unfolding Codeowners.status Codeowners.truncation
classify_codeowners repo counts =
    let c = count_location (Codeowners.status repo.checks.codeowners) counts in
    if is_some (Codeowners.truncation repo.checks.codeowners)
    then record c { truncated = saturating_add c.truncated 1 }
    else c

unfoldable pub count_codeowners_statuses : List RepositoryEvidence → CodeownersCounts
unfolding count_statuses classify_codeowners
count_codeowners_statuses = count_statuses classify_codeowners codeowners_default

abbrev pub is_enabled : SecretScanningStatus → Bool
is_enabled SecretScanningStatus.enabled = true
is_enabled _ = false

abbrev pub alerts_default : SecretAlertCounts
alerts_default = record {
  repos_with_open_alerts = 0;
  repos_without_open_alerts = 0;
  unobservable = 0;
}

unfoldable pub classify_alerts : RepositoryEvidence → SecretAlertCounts → SecretAlertCounts
unfolding SecretScanning.status SecretScanning.alerts_observable SecretScanning.has_open_alerts
classify_alerts repo c =
    let ss = repo.checks.secret_scanning in
    if SecretScanning.alerts_observable ss && is_enabled (SecretScanning.status ss)
    then elim (SecretScanning.has_open_alerts ss) [
      | some true ↦ record c { repos_with_open_alerts = saturating_add c.repos_with_open_alerts 1 }
      | some false ↦ record c {
        repos_without_open_alerts = saturating_add c.repos_without_open_alerts 1;
      }
      | none ↦ record c { unobservable = saturating_add c.unobservable 1 }
    ]
    else record c { unobservable = saturating_add c.unobservable 1 }

unfoldable pub count_secret_alert_observability : List RepositoryEvidence → SecretAlertCounts
unfolding count_statuses classify_alerts
count_secret_alert_observability = count_statuses classify_alerts alerts_default

unfoldable pub alert_observable_enabled : RepositoryEvidence → Bool
unfolding SecretScanning.status SecretScanning.alerts_observable SecretScanning.has_open_alerts
alert_observable_enabled r =
    let ss = r.checks.secret_scanning in
    is_enabled (SecretScanning.status ss)
    && (SecretScanning.alerts_observable ss && is_some (SecretScanning.has_open_alerts ss))

unfoldable pub count_alert_observable_enabled : List RepositoryEvidence → ℕ
unfolding count_as_u32 alert_observable_enabled
count_alert_observable_enabled active = count_as_u32 (length (keep alert_observable_enabled active))
