-- ===== src/Metrics.antt =====
-- domain/metrics.rs: rates, counts and per-owner metrics, the records that the aggregation fills.
pub mod Owners
pub mod Grouping
use gh_report.Prelude.{
  ℕ, ◌+◌, ◌-◌, min, Bool, true, false, ◌||◌, Option, none, some, List, [], ◌∷◌, Text, codes,
  text_eq, ltb, if◌then◌else◌,
}
use gh_report.OrderedMap.{OrderedMap}
use gh_report.OrderedMap
use gh_report.Checks.Score.{ExclusionReason, CollectionFailureReason}
use gh_report.Org.{TeamRoster, CollectionStatus}

-- `u32::MAX` and `u32::saturating_add`, `saturating_sub`
abbrev pub u32_max : ℕ
u32_max = 4294967295

abbrev pub saturating_add : ℕ → ℕ → ℕ
saturating_add a b = min u32_max (a + b)

abbrev pub saturating_sub : ℕ → ℕ → ℕ
saturating_sub a b = a - b

-- the `f64` expression that `RateMetric::new` computes from its two numbers, unevaluated
pub data Percentage : Type 0 where
  tenths_of_percent : ℕ → ℕ → Percentage

-- a `HashMap` by its entries in key order; the values that the program puts in are counts
pub record RateMetric : Type 0 where
  pub numerator : ℕ
  pub denominator : ℕ
  pub rate : Option Percentage
  pub extra : OrderedMap ℕ

unfoldable pub new_rate : ℕ → ℕ → RateMetric
new_rate n d = record {
  numerator = n;
  denominator = d;
  rate = if ltb 0 d then some (tenths_of_percent n d) else none;
  extra = [];
}

abbrev is_reserved : Text → Bool
is_reserved key =
    text_eq key (codes "numerator")
    || (text_eq key (codes "denominator") || text_eq key (codes "rate"))

unfoldable pub with_extra : Text → ℕ → RateMetric → RateMetric
with_extra key value m =
    if is_reserved key then m else record m { extra = OrderedMap.insert key value m.extra }

pub record PolicyCounts : Type 0 where
  pub via_setting : ℕ
  pub via_file : ℕ
  pub unknown : ℕ
  pub missing : ℕ

pub record SecretScanningCounts : Type 0 where
  pub enabled : ℕ
  pub disabled : ℕ
  pub permission_denied : ℕ
  pub unknown : ℕ

pub record DependabotCounts : Type 0 where
  pub enabled : ℕ
  pub paused : ℕ
  pub disabled : ℕ
  pub unknown : ℕ

pub record BranchProtectionCounts : Type 0 where
  pub pass : ℕ
  pub fail : ℕ
  pub unknown : ℕ

pub record CodeownersCounts : Type 0 where
  pub conforming : ℕ
  pub non_conforming : ℕ
  pub absent : ℕ
  pub unknown : ℕ
  pub truncated : ℕ

pub record SecretAlertCounts : Type 0 where
  pub repos_with_open_alerts : ℕ
  pub repos_without_open_alerts : ℕ
  pub unobservable : ℕ

pub data CollectionHealthCheckKind : Type 0 where
  branch_protection secret_scanning dependabot codeowners security_policy inventory rulesets :
      CollectionHealthCheckKind

pub record CollectionHealthCount : Type 0 where
  pub check_kind : CollectionHealthCheckKind
  pub reason : CollectionFailureReason
  pub count : ℕ

pub record ScoreExclusionCount : Type 0 where
  pub check_kind : CollectionHealthCheckKind
  pub reason : ExclusionReason
  pub count : ℕ

pub data OwnerType : Type 0 where
  team ambiguous_team_shaped user : OwnerType

pub record OwnerMetrics : Type 0 where
  pub owner : Text
  pub display_name : Text
  pub owner_type : OwnerType
  pub total_repos : ℕ
  pub per_control_coverage : OrderedMap RateMetric
  pub score_exclusion_counts : List ScoreExclusionCount
  pub in_org : Option Bool

pub record AggregatedMetrics : Type 0 where
  pub security_policy_coverage : RateMetric
  pub policy_counts : PolicyCounts
  pub secret_scanning_coverage : RateMetric
  pub secret_scanning_counts : SecretScanningCounts
  pub dependabot_security_updates_coverage : RateMetric
  pub dependabot_security_updates_counts : DependabotCounts
  pub open_secret_alert_prevalence : RateMetric
  pub secret_alert_counts : SecretAlertCounts
  pub branch_protection_coverage : RateMetric
  pub branch_protection_counts : BranchProtectionCounts
  pub codeowners_coverage : RateMetric
  pub codeowners_counts : CodeownersCounts
  pub owner_metrics : List OwnerMetrics
  pub collection_health_counts : List CollectionHealthCount
  pub score_exclusion_counts : List ScoreExclusionCount
  pub team_rosters : List TeamRoster

pub record CollectionStatistics : Type 0 where
  pub total_repos : ℕ
  pub public_repos : ℕ
  pub internal_repos : ℕ
  pub private_repos : ℕ
  pub archived_repos : ℕ

pub record SecretScanningObservability : Type 0 where
  pub collection_status : CollectionStatus
  pub collection_reason : Option Text
  pub total_open_secret_alerts : ℕ
  pub open_secret_alert_age_buckets : OrderedMap ℕ
  pub oldest_open_secret_alert_created_at : Option Text
  pub newest_open_secret_alert_created_at : Option Text
  pub status_mismatch_count : ℕ
  pub observable_enabled_repositories : ℕ
  pub unobservable_repositories : ℕ
