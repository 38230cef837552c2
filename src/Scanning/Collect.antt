-- ===== src/Scanning/Collect.antt =====
-- collector/ghas_scanning.rs: from the alerts of a list to their summary.
use gh_report.Prelude.{
  ℕ, ◌+◌, ◌/◌, ◌%◌, ◌^◌, ◌⊎◌, inl, inr, Bool, true, false, not, ◌||◌, Option, none, some, List, [],
  ◌∷◌, Text, codes, if◌then◌else◌, text_eq, ◌>>=◌,
}
use gh_report.OrderedMap.{OrderedMap}
use gh_report.OrderedMap
use gh_report.Repository.{Repository}
use gh_report.Org.{CollectionStatus, RepoAlertSummary, OrgAlertSummary}
use gh_report.Api.{Json, ApiOutcome, status_code}
use gh_report.Client.{RequestRun}
use gh_report.Scanning.{
  Clock, scope_key, unknown_age_bucket, label_of, track_timestamp, empty_summary,
  classified_org_outcome, evaluate_org_alert_outcome, AlertCorrelation, matched, out_of_scope,
  conflicting, unidentifiable, correlate_alert,
}

unfoldable pub scope_other : Repository → Option Repository → Bool
unfolding text_eq
scope_other repo none = false
scope_other repo (some existing) = not (text_eq existing.id repo.id)

-- the repositories by their ids and node ids, and whether two of them share one
abbrev pub Scope : Type 0
Scope = OrderedMap Repository × Bool

unfoldable pub add_scope : Text → Repository → Scope → Scope
unfolding scope_other
add_scope key repo (scope, collision) =
    (OrderedMap.insert key repo scope, collision || scope_other repo (OrderedMap.get key scope))

unfoldable pub add_node : Option Text → Repository → Scope → Scope
unfolding add_scope
add_node none repo s = s
add_node (some node_id) repo s = add_scope node_id repo s

unfoldable pub known_scope_of : List Repository → Scope → Scope
unfolding add_scope add_node
known_scope_of [] s = s
known_scope_of (repo ∷ repos) s =
    known_scope_of repos (add_node repo.node_id repo (add_scope (scope_key repo) repo s))

abbrev or_zero : Option ℕ → ℕ
or_zero none = 0
or_zero (some n) = n

abbrev pub or_default : Option RepoAlertSummary → RepoAlertSummary
or_default none = record {
  open_alert_count = 0;
  oldest_open_alert_created_at = none;
  newest_open_alert_created_at = none;
}
or_default (some s) = s

-- the counters are u64
abbrev pub next_u64 : ℕ → ℕ
next_u64 n = (n + 1) % 2 ^ 64

module _ (C : Clock) where
  open C use {Timestamp, parse_iso8601, elapsed_secs, strftime}

  unfoldable pub age_bucket : Text → Timestamp → Option Text
  age_bucket created_at now = elim (parse_iso8601 created_at) [
    | none ↦ none
    | some created ↦ some (label_of (elapsed_secs now created / 86400))
  ]

  unfoldable pub normalize_iso8601 : Text → Option Text
  normalize_iso8601 value = elim (parse_iso8601 value) [ none ↦ none | some t ↦ some (strftime t) ]

  abbrev bump : Text → OrderedMap ℕ → OrderedMap ℕ
  bump key buckets = OrderedMap.insert key (next_u64 (or_zero (OrderedMap.get key buckets))) buckets

  unfoldable pub track_repository : Option Text → RepoAlertSummary → RepoAlertSummary
  unfolding track_timestamp
  track_repository none s = s
  track_repository (some t) s = record s {
    oldest_open_alert_created_at = track_timestamp s.oldest_open_alert_created_at t true;
    newest_open_alert_created_at = track_timestamp s.newest_open_alert_created_at t false;
  }

  unfoldable pub track_summary : Option Text → OrgAlertSummary → OrgAlertSummary
  unfolding track_timestamp
  track_summary none s = s
  track_summary (some t) s = record s {
    oldest_open_secret_alert_created_at =
        track_timestamp s.oldest_open_secret_alert_created_at t true;
    newest_open_secret_alert_created_at =
        track_timestamp s.newest_open_secret_alert_created_at t false;
  }

  unfoldable pub normalised : Option Text → Option Text
  unfolding normalize_iso8601
  normalised none = none
  normalised (some created_at) = normalize_iso8601 created_at

  abbrev bucket_of : Option Text → Timestamp → Text
  unfolding age_bucket
  bucket_of none now = unknown_age_bucket
  bucket_of (some created_at) now = elim (age_bucket created_at now) [
    | none ↦ unknown_age_bucket
    | some label ↦ label
  ]

  -- an alert of a repository of the inventory, with its time of creation
  unfoldable pub count_alert :
      Repository → Option Text → Timestamp → OrgAlertSummary → OrgAlertSummary
  unfolding track_repository track_summary normalised bucket_of
  count_alert repo created_at now summary =
      let key = scope_key repo in
      let old = or_default (OrderedMap.get key summary.per_repo) in
      let t = normalised created_at in
      let tracked = track_summary t summary in
      record tracked {
        per_repo =
            OrderedMap.insert key
              (track_repository t (record old { open_alert_count = next_u64 old.open_alert_count }))
              summary.per_repo;
        total_open_secret_alerts = next_u64 summary.total_open_secret_alerts;
        open_secret_alert_age_buckets =
            bump (bucket_of created_at now) summary.open_secret_alert_age_buckets;
      }

  abbrev pub degrade : Text → OrgAlertSummary → OrgAlertSummary
  degrade reason summary = record summary {
    collection_status = CollectionStatus.unavailable;
    collection_reason = some reason;
  }

  module _ (J : Json) where
    open J use {Value, get, as_str}

    abbrev pub created_at_of : Value → Option Text
    created_at_of alert = do v ← get alert (codes "created_at"); as_str v

    unfoldable pub process_correlated :
        AlertCorrelation J → Value → Timestamp → OrgAlertSummary → OrgAlertSummary
    unfolding count_alert
    process_correlated (matched repo) alert now summary =
        count_alert repo (created_at_of alert) now summary
    process_correlated out_of_scope alert now summary = summary
    process_correlated conflicting alert now summary =
        degrade (codes "alert_coordinate_conflict") summary
    process_correlated unidentifiable alert now summary =
        degrade (codes "alert_correlation_unidentifiable") summary

    unfoldable pub process_alert :
        OrderedMap Repository → Timestamp → Value → OrgAlertSummary → OrgAlertSummary
    unfolding process_correlated correlate_alert
    process_alert known_scope now alert summary =
        process_correlated (correlate_alert J known_scope alert) alert now summary

    unfoldable pub process_alerts :
        OrderedMap Repository → Timestamp → List Value → OrgAlertSummary → OrgAlertSummary
    unfolding process_alert
    process_alerts known_scope now [] summary = summary
    process_alerts known_scope now (alert ∷ alerts) summary =
        process_alerts known_scope now alerts (process_alert known_scope now alert summary)

    abbrev pub initial_summary : Bool → Option ℕ → OrgAlertSummary
    initial_summary collision code =
        if collision
        then empty_summary CollectionStatus.unavailable (some (codes "repository_alias_collision"))
            code
        else empty_summary CollectionStatus.success none code

    abbrev pub run_time : Text → Timestamp
    run_time run_timestamp = elim (C.parse_iso8601 run_timestamp) [ none ↦ C.now | some t ↦ t ]

    unfoldable pub summarise :
        Scope → Timestamp → Option ℕ → OrgAlertSummary ⊎ List Value → OrgAlertSummary
    unfolding process_alerts
    summarise scope now code (inl summary) = summary
    summarise (known_scope, collision) now code (inr items) =
        process_alerts known_scope now items (initial_summary collision code)

    unfoldable pub evaluate_run :
        Scope → Timestamp → OrgAlertSummary ⊎ ApiOutcome Value → OrgAlertSummary
    unfolding summarise evaluate_org_alert_outcome status_code
    evaluate_run scope now (inl summary) = summary
    evaluate_run scope now (inr result) =
        summarise scope now (status_code result) (evaluate_org_alert_outcome J result)

    -- the run is that of the paginated request for the organisation's open alerts
    unfoldable pub collect_org_alerts : RequestRun Value → List Repository → Text → OrgAlertSummary
    unfolding evaluate_run known_scope_of classified_org_outcome
    collect_org_alerts run repositories run_timestamp =
        evaluate_run (known_scope_of repositories ([], false)) (run_time run_timestamp)
          (classified_org_outcome run)
