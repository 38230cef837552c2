-- ===== src/Samples.antt =====
-- Concrete inputs that exercise the code, and the theorems on them.
mod Patterns
mod Results
mod Reading
mod Events
mod Writing
mod Protection
mod Hooks
mod Quota
mod Addresses
mod Links
mod Figures
mod Requests
mod Alerts
mod Rosters
use gh_report.Prelude.{ℕ, Bool, true, false, Option, none, some, List, [], ◌∷◌, Text, codes}
use gh_report.Repository
use gh_report.Repository.{Repository}
use gh_report.Checks.{RepositoryChecks}
use gh_report.Checks.SecurityPolicy
use gh_report.Checks.SecurityPolicy.{SecurityPolicyResult}
use gh_report.Checks.SecretScanning
use gh_report.Checks.SecretScanning.{SecretScanningResult}
use gh_report.Checks.Dependabot.{DependabotResult, DependabotStatus}
use gh_report.Checks.BranchProtection
use gh_report.Checks.BranchProtection.{BranchProtectionResult}
use gh_report.Checks.Codeowners
use gh_report.Checks.Codeowners.{CodeownersResult}
use gh_report.Org.{
  CollectionStatus, AuthMode, TokenTier, OrgAlertSummary, TeamRosterStatus, TeamRoster,
}
use gh_report.Evidence.{RepositoryEvidence, AssessmentMetadata, OrgStateSnapshot}
use gh_report.Evidence.Coverage.{CollectionCoverage}

abbrev pub now : Text
now = codes "2026-01-02T03:04:05Z"

-- a repository of the inventory, by its id and name
abbrev pub repo : Text → Text → Repository
repo id name = record {
  id = id;
  node_id = none;
  name = name;
  visibility = Repository.Visibility.private;
  language = none;
  default_branch = codes "main";
  archived = false;
  inventory_key = id;
  updated_at = none;
  has_issues = true;
  pushed_at = none;
  created_at = none;
  description = some name;
  fork = false;
  is_empty = false;
  html_url = none;
  topics = [];
  license_spdx = none;
}

-- checks that are all settled, with secret scanning denied
abbrev pub denied_scanning : SecretScanningResult
denied_scanning =
    SecretScanningResult.unobservable
      (SecretScanning.MetadataUnavailable.failure
        SecretScanning.SecretScanningFailureReason.permission_denied (some 403))
      (SecretScanning.UnobservableProbe.failed SecretScanning.ProbeSource.per_repo_endpoint
        SecretScanning.SecretScanningFailureReason.permission_denied (some 403))
      now

abbrev pub enabled_scanning : SecretScanningResult
enabled_scanning =
    SecretScanningResult.enabled
      (SecretScanning.EnabledProvenance.metadata (some 200) (
        SecretScanning.SecretScanningAlerts.observable SecretScanning.ProbeSource.org_summary true
          (some 200)))
      now

abbrev pub settled : SecretScanningResult → RepositoryChecks
settled scanning = record {
  security_policy = SecurityPolicyResult.enabled_by_setting now;
  secret_scanning = scanning;
  dependabot_security_updates = record {
    status = DependabotStatus.enabled;
    reason = none;
    timestamp = now;
  };
  branch_protection = BranchProtectionResult.protected (codes "main") now;
  codeowners =
      CodeownersResult.conforming
        (Codeowners.CodeownersContent.truncated Codeowners.CodeownersTruncationReason.invalid_utf8)
        now;
}

abbrev pub evidence_of : Text → Text → SecretScanningResult → RepositoryEvidence
evidence_of id name scanning = record {
  repository = repo id name;
  checks = settled scanning;
  last_commit = none;
  repo_details_not_modified = false;
}

abbrev pub alpha : RepositoryEvidence
alpha = evidence_of (codes "1") (codes "alpha") enabled_scanning

abbrev pub alpha_denied : RepositoryEvidence
alpha_denied = evidence_of (codes "1") (codes "alpha") denied_scanning

abbrev pub beta : RepositoryEvidence
beta = evidence_of (codes "2") (codes "beta") enabled_scanning

-- a roster of the team `core`
abbrev pub roster : TeamRosterStatus → TeamRoster
roster status = record {
  canonical_owner = codes "@org/core";
  team_slug = codes "core";
  status = status;
  members = [];
  fetched_at = some now;
}

abbrev pub org_snapshot : CollectionStatus → OrgStateSnapshot
org_snapshot status = record {
  archived_repos = 3;
  assessment_metadata = record {
    date = codes "2026-01-02";
    organization = codes "org";
    schema_version = codes "1";
    run_timestamp = now;
    run_id = codes "run";
    token_tier = TokenTier.full;
    token_scopes = codes "repo";
    auth_mode = AuthMode.github_app;
    rate_limit_warnings = 0;
    unavailable_capabilities = [];
    inventory_fetched_at = none;
    warm_start = false;
    coverage = CollectionCoverage.known 2 5000;
  };
  alert_summary = record {
    collection_status = status;
    collection_reason = none;
    http_status = some 200;
    per_repo = [];
    open_secret_alert_age_buckets = [];
    total_open_secret_alerts = 0;
    oldest_open_secret_alert_created_at = none;
    newest_open_secret_alert_created_at = none;
  };
}
