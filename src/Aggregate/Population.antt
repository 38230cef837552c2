-- ===== src/Aggregate/Population.antt =====
-- aggregate/metrics.rs: the repositories behind a control's coverage, one by one.
use gh_report.Prelude.{ℕ, Bool, true, false, List, [], ◌∷◌, map, keep, length, Text, codes}
use gh_report.Metrics.{AggregatedMetrics, RateMetric}
use gh_report.Metrics.Owners.{is_active}
use gh_report.Repository.{is_public}
use gh_report.Evidence.{RepositoryEvidence}
use gh_report.Checks.Score.{IndeterminateReason}
use gh_report.Checks.SecurityPolicy
use gh_report.Checks.SecurityPolicy.{SecurityPolicyStatus}
use gh_report.Checks.SecretScanning
use gh_report.Checks.SecretScanning.{SecretScanningStatus}
use gh_report.Checks.Dependabot.{DependabotStatus}
use gh_report.Checks.BranchProtection.{BranchProtectionResult}
use gh_report.Checks.Codeowners
use gh_report.Checks.Codeowners.{CodeownersStatus}
use gh_report.Aggregate.Counts.{count_as_u32}

pub data CoverageControl : Type 0 where
  security_policy secret_scanning dependabot codeowners branch_protection : CoverageControl

pub data UnmeasuredReason : Type 0 where
  permission_denied unknown not_applicable : UnmeasuredReason

pub data ControlOutcome : Type 0 where
  met unmet : ControlOutcome

pub data DenominatorMembership : Type 0 where
  eligible : ControlOutcome → DenominatorMembership
  excluded : UnmeasuredReason → DenominatorMembership

-- `CoverageControl::ALL`
abbrev pub all_controls : List CoverageControl
all_controls = security_policy ∷ secret_scanning ∷ dependabot ∷ codeowners ∷ branch_protection ∷ []

abbrev pub coverage : CoverageControl → AggregatedMetrics → RateMetric
coverage security_policy m = m.security_policy_coverage
coverage secret_scanning m = m.secret_scanning_coverage
coverage dependabot m = m.dependabot_security_updates_coverage
coverage codeowners m = m.codeowners_coverage
coverage branch_protection m = m.branch_protection_coverage

unfoldable pub population_description : CoverageControl → Text
population_description security_policy = codes "every public repository, archived included"
population_description _ = codes "every non-archived repository"

unfoldable pub in_population : CoverageControl → RepositoryEvidence → Bool
unfolding is_public
in_population security_policy repo = is_public repo.repository
in_population _ repo = is_active repo

abbrev pub policy_membership : SecurityPolicyStatus → DenominatorMembership
policy_membership SecurityPolicyStatus.pass = eligible met
policy_membership SecurityPolicyStatus.fail = eligible unmet
policy_membership SecurityPolicyStatus.unknown = excluded UnmeasuredReason.unknown
policy_membership SecurityPolicyStatus.not_applicable = excluded UnmeasuredReason.not_applicable

abbrev pub scanning_membership : SecretScanningStatus → DenominatorMembership
scanning_membership SecretScanningStatus.enabled = eligible met
scanning_membership SecretScanningStatus.disabled = eligible unmet
scanning_membership SecretScanningStatus.permission_denied =
    excluded UnmeasuredReason.permission_denied
scanning_membership SecretScanningStatus.unknown = excluded UnmeasuredReason.unknown

abbrev pub dependabot_membership : DependabotStatus → DenominatorMembership
dependabot_membership DependabotStatus.enabled = eligible met
dependabot_membership DependabotStatus.paused = eligible unmet
dependabot_membership DependabotStatus.disabled = eligible unmet
dependabot_membership DependabotStatus.unknown = excluded UnmeasuredReason.unknown

abbrev pub codeowners_membership : CodeownersStatus → DenominatorMembership
codeowners_membership CodeownersStatus.conforming = eligible met
codeowners_membership CodeownersStatus.non_conforming = eligible met
codeowners_membership CodeownersStatus.absent = eligible unmet
codeowners_membership CodeownersStatus.unknown = excluded UnmeasuredReason.unknown

abbrev pub unmeasured : IndeterminateReason → UnmeasuredReason
unmeasured IndeterminateReason.permission_denied = UnmeasuredReason.permission_denied
unmeasured IndeterminateReason.permission_suspected = UnmeasuredReason.permission_denied
unmeasured IndeterminateReason.transient = UnmeasuredReason.unknown
unmeasured IndeterminateReason.rate_limited = UnmeasuredReason.unknown
unmeasured IndeterminateReason.invalid = UnmeasuredReason.unknown
unmeasured IndeterminateReason.pending = UnmeasuredReason.unknown

abbrev pub branch_membership : BranchProtectionResult → DenominatorMembership
branch_membership (BranchProtectionResult.protected branch timestamp) = eligible met
branch_membership (BranchProtectionResult.unprotected branch gap timestamp) = eligible unmet
branch_membership (BranchProtectionResult.unobservable branch reason http_status timestamp) =
    excluded (unmeasured reason)

unfoldable pub classify : CoverageControl → RepositoryEvidence → DenominatorMembership
unfolding SecurityPolicy.status SecretScanning.status Codeowners.status
classify security_policy repo =
    policy_membership (SecurityPolicy.status repo.checks.security_policy)
classify secret_scanning repo =
    scanning_membership (SecretScanning.status repo.checks.secret_scanning)
classify dependabot repo = dependabot_membership repo.checks.dependabot_security_updates.status
classify codeowners repo = codeowners_membership (Codeowners.status repo.checks.codeowners)
classify branch_protection repo = branch_membership repo.checks.branch_protection

unfoldable pub control_denominator_population :
    CoverageControl → List RepositoryEvidence → List (RepositoryEvidence × DenominatorMembership)
unfolding in_population classify
control_denominator_population control repositories =
    map (λ repo. (repo, classify control repo)) (keep (in_population control) repositories)

abbrev pub is_eligible : DenominatorMembership → Bool
is_eligible (eligible o) = true
is_eligible (excluded r) = false

abbrev pub is_met : DenominatorMembership → Bool
is_met (eligible met) = true
is_met (eligible unmet) = false
is_met (excluded r) = false

unfoldable pub denominator_repo_count : List (RepositoryEvidence × DenominatorMembership) → ℕ
unfolding count_as_u32
denominator_repo_count population = count_as_u32 (length (keep (λ p. is_eligible p.1) population))

unfoldable pub denominator_met_count : List (RepositoryEvidence × DenominatorMembership) → ℕ
unfolding count_as_u32
denominator_met_count population = count_as_u32 (length (keep (λ p. is_met p.1) population))
