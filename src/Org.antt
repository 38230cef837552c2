-- ===== src/Org.antt =====
-- domain/status.rs, domain/auth.rs and domain/metrics.rs: the organisation's side of a collection.
use gh_report.Prelude.{ℕ, Bool, Option, List, Text}

pub data CollectionStatus : Type 0 where
  success not_collected permission_denied transient_error unavailable : CollectionStatus

pub data AuthMode : Type 0 where
  pat github_app gh_cli_fallback unknown : AuthMode

pub data TokenTier : Type 0 where
  full limited unknown : TokenTier

pub data Capability : Type 0 where
  org_secret_scanning_alerts private_branch_protection_read : Capability

pub record RepoAlertSummary : Type 0 where
  pub open_alert_count : ℕ  -- u64
  pub oldest_open_alert_created_at : Option Text
  pub newest_open_alert_created_at : Option Text

-- a `HashMap` is the list of its entries
pub record OrgAlertSummary : Type 0 where
  pub collection_status : CollectionStatus
  pub collection_reason : Option Text
  pub http_status : Option ℕ  -- u16
  pub per_repo : List (Text × RepoAlertSummary)
  pub open_secret_alert_age_buckets : List (Text × ℕ)
  pub total_open_secret_alerts : ℕ  -- u64
  pub oldest_open_secret_alert_created_at : Option Text
  pub newest_open_secret_alert_created_at : Option Text

pub data TeamMemberRole : Type 0 where
  maintainer member unknown : TeamMemberRole

pub record TeamMember : Type 0 where
  pub login : Text
  pub role : TeamMemberRole
  pub in_org : Option Bool

pub data TeamRosterStatus : Type 0 where
  complete deleted permission_denied transient_error : TeamRosterStatus

pub record TeamRoster : Type 0 where
  pub canonical_owner : Text
  pub team_slug : Text
  pub status : TeamRosterStatus
  pub members : List TeamMember
  pub fetched_at : Option Text
