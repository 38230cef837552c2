-- ===== src/Scanning.antt =====
-- collector/ghas_scanning.rs: the summary of an organisation's open secret-scanning alerts.
pub mod Collect
pub mod Repositories
pub mod Steps
pub mod Probes
pub mod Inventory
pub mod AlertKeys
pub mod Correlated
pub mod Accounted
pub mod AllClear
use gh_report.Prelude.{
  ℕ, ◌+◌, ◌/◌, ◌%◌, ◌^◌, ◌≡◌, ◌⊎◌, inl, inr, Bool, true, false, not, ◌&&◌, ◌||◌, Option, none, some,
  List, [], ◌∷◌, ◌++◌, Text, codes, if◌then◌else◌, leb, ltb, ◌==◌, text_eq, text_cmp, Ordering,
  or_else, ◌>>=◌, is_some, is_empty, to_string, keep,
}
use gh_report.OrderedMap.{OrderedMap}
use gh_report.OrderedMap
use gh_report.Repository.{Repository}
use gh_report.Org.{CollectionStatus, RepoAlertSummary, OrgAlertSummary}
use gh_report.Aggregate.{empty_age_buckets}
use gh_report.Api.{Json, ApiOutcome, status_code, is_code}
use gh_report.Api
use gh_report.Client.{RequestRun, RequestClassification, classification, outcome}

-- the time library
pub record Clock : Type 1 where
  pub Timestamp : Type 0
  pub parse_iso8601 : Text → Option Timestamp
  -- the seconds from the second to the first, 0 where there are none
  pub elapsed_secs : Timestamp → Timestamp → ℕ
  -- in UTC, without fractional seconds
  pub strftime : Timestamp → Text
  pub now : Timestamp

abbrev pub scope_key : Repository → Text
scope_key repo = repo.id

abbrev pub unknown_age_bucket : Text
unknown_age_bucket = codes "unknown"

abbrev pub label_of : ℕ → Text
label_of days =
    if leb days 7
    then codes "0_7_days"
    else if leb days 30
    then codes "8_30_days"
    else if leb days 90
    then codes "31_90_days"
    else codes "91_plus_days"

unfoldable pub is_less : Text → Text → Bool
unfolding text_cmp
is_less s t = elim (text_cmp s t) [ Ordering.lt ↦ true | Ordering.eq ↦ false | Ordering.gt ↦ false ]

unfoldable pub track_timestamp : Option Text → Text → Bool → Option Text
unfolding is_less
track_timestamp none candidate keep_oldest = some candidate
track_timestamp (some existing) candidate keep_oldest =
    if keep_oldest && is_less candidate existing || (not keep_oldest && is_less existing candidate)
    then some candidate
    else some existing

abbrev pub failure_of_status : Option ℕ → Bool → CollectionStatus × Text
failure_of_status code retryable =
    if is_code 401 code || is_code 403 code
    then (CollectionStatus.permission_denied, codes "permission_denied")
    else if is_code 429 code
    then (CollectionStatus.unavailable, codes "rate_limited")
    else if is_code 404 code
    then (CollectionStatus.unavailable, codes "alerts_unavailable")
    else if retryable
    then (CollectionStatus.transient_error, codes "transient_error")
    else (CollectionStatus.unavailable, codes "alerts_unavailable")

abbrev pub empty_summary : CollectionStatus → Option Text → Option ℕ → OrgAlertSummary
empty_summary status reason code = record {
  collection_status = status;
  collection_reason = reason;
  http_status = code;
  per_repo = [];
  open_secret_alert_age_buckets = empty_age_buckets;
  total_open_secret_alerts = 0;
  oldest_open_secret_alert_created_at = none;
  newest_open_secret_alert_created_at = none;
}

abbrev pub is_malformed : RequestClassification → Bool
is_malformed (RequestClassification.malformed_payload code kind) = true
is_malformed _ = false

module _ {V : Type 0} where
  unfoldable pub build_failure_summary : ApiOutcome V → OrgAlertSummary
  unfolding status_code Api.is_retryable
  build_failure_summary result =
      let (status, reason) = failure_of_status (status_code result) (Api.is_retryable result) in
      empty_summary status (some reason) (status_code result)

  unfoldable pub malformed_summary : ApiOutcome V → OrgAlertSummary
  unfolding build_failure_summary
  malformed_summary result = record (build_failure_summary result) {
    collection_reason = some (codes "malformed_response");
  }

  -- the summary of a failed run, or its outcome
  unfoldable pub classified_org_outcome : RequestRun V → OrgAlertSummary ⊎ ApiOutcome V
  unfolding malformed_summary classification outcome
  classified_org_outcome run =
      if is_malformed (classification run)
      then inl (malformed_summary (outcome run))
      else inr (outcome run)

module _ (J : Json) where
  open J use {Value, get, as_array, as_str, as_u64, is_object}

  abbrev pub array_of : Option Value → Option (List Value)
  array_of none = none
  array_of (some v) = as_array v

  unfoldable pub evaluate_org_alert_outcome : ApiOutcome Value → OrgAlertSummary ⊎ List Value
  unfolding build_failure_summary malformed_summary
  evaluate_org_alert_outcome (ApiOutcome.failure code error retryable) =
      inl (build_failure_summary {V = Value} (ApiOutcome.failure code error retryable))
  evaluate_org_alert_outcome (ApiOutcome.success code payload headers true) =
      inl (build_failure_summary {V = Value} (ApiOutcome.success code payload headers true))
  evaluate_org_alert_outcome (ApiOutcome.success code payload headers false) =
      elim (array_of payload) [
        | some items ↦ inr items
        | none ↦ inl (malformed_summary (ApiOutcome.success code payload headers false))
      ]

  pub data AlertCorrelation : Type 0 where
    matched : Repository → AlertCorrelation
    out_of_scope conflicting unidentifiable : AlertCorrelation

  abbrev pub not_empty : Option Text → Option Text
  not_empty none = none
  not_empty (some []) = none
  not_empty (some (c ∷ s)) = some (c ∷ s)

  -- an id is a number or a text
  unfoldable pub id_text : Value → Option Text
  unfolding to_string
  id_text v = or_else (do n ← as_u64 v; some (to_string n)) (as_str v)

  abbrev pub lookup : OrderedMap Repository → Option Text → Option Repository
  lookup scope key = do k ← key; OrderedMap.get k scope

  unfoldable pub correlate :
      Option Text → Option Text → Option Repository → Option Repository → AlertCorrelation
  unfolding text_eq
  correlate num_id node_id (some by_id) (some by_node) =
      if text_eq by_id.id by_node.id then matched by_id else conflicting
  correlate num_id node_id (some by_id) none = matched by_id
  correlate num_id node_id none (some by_node) = matched by_node
  correlate num_id node_id none none =
      if is_some num_id || is_some node_id then out_of_scope else unidentifiable

  unfoldable pub correlate_alert : OrderedMap Repository → Value → AlertCorrelation
  unfolding correlate id_text
  correlate_alert known_scope alert = elim (get alert (codes "repository")) [
    | none ↦ unidentifiable
    | some repository ↦
        if is_object repository
        then (let num_id = not_empty (do v ← get repository (codes "id"); id_text v) in
            let node_id = not_empty (do v ← get repository (codes "node_id"); as_str v) in
            correlate num_id node_id (lookup known_scope num_id) (lookup known_scope node_id))
        else unidentifiable
  ]
