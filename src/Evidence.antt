-- ===== src/Evidence.antt =====
-- domain/evidence.rs: the evidence of one repository, and of the organisation.
pub mod ReadState
pub mod Coverage
pub mod Wire
pub mod Written
use gh_report.Prelude.{ℕ, Bool, true, false, not, ◌&&◌, Option, List, Text}
use gh_report.Checks.{RepositoryChecks}
use gh_report.Checks.SecurityPolicy
use gh_report.Checks.SecurityPolicy.{SecurityPolicyStatus}
use gh_report.Checks.SecretScanning
use gh_report.Checks.SecretScanning.{SecretScanningStatus}
use gh_report.Checks.Dependabot.{DependabotStatus}
use gh_report.Checks.BranchProtection
use gh_report.Checks.Codeowners
use gh_report.Checks.Codeowners.{CodeownersStatus}
use gh_report.Repository.{Repository}
use gh_report.Org.{AuthMode, TokenTier, Capability, OrgAlertSummary}
use Coverage.{CollectionCoverage}

pub record LastCommitInfo : Type 0 where
  pub committer_login : Option Text
  pub committer_name : Option Text
  pub commit_date : Option Text

pub record RepositoryEvidence : Type 0 where
  pub repository : Repository
  pub checks : RepositoryChecks
  pub last_commit : Option LastCommitInfo
  pub repo_details_not_modified : Bool

abbrev pub policy_known : SecurityPolicyStatus → Bool
policy_known SecurityPolicyStatus.unknown = false
policy_known _ = true

abbrev pub scanning_known : SecretScanningStatus → Bool
scanning_known SecretScanningStatus.unknown = false
scanning_known _ = true

abbrev pub dependabot_known : DependabotStatus → Bool
dependabot_known DependabotStatus.unknown = false
dependabot_known _ = true

abbrev pub codeowners_known : CodeownersStatus → Bool
codeowners_known CodeownersStatus.unknown = false
codeowners_known _ = true

-- `RepositoryEvidence::is_complete`
unfoldable pub is_complete : RepositoryEvidence → Bool
is_complete e =
    policy_known (SecurityPolicy.status e.checks.security_policy)
    && (scanning_known (SecretScanning.status e.checks.secret_scanning)
        && (dependabot_known e.checks.dependabot_security_updates.status
            && (BranchProtection.is_observed e.checks.branch_protection
                && codeowners_known (Codeowners.status e.checks.codeowners))))

pub record AssessmentMetadata : Type 0 where
  pub date : Text
  pub organization : Text
  pub schema_version : Text
  pub run_timestamp : Text
  pub run_id : Text
  pub token_tier : TokenTier
  pub token_scopes : Text
  pub auth_mode : AuthMode
  pub rate_limit_warnings : ℕ  -- u32
  pub unavailable_capabilities : List Capability
  pub inventory_fetched_at : Option Text
  pub warm_start : Bool
  pub coverage : CollectionCoverage

pub record OrgStateSnapshot : Type 0 where
  pub archived_repos : ℕ  -- u32
  pub assessment_metadata : AssessmentMetadata
  pub alert_summary : OrgAlertSummary
