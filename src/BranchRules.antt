-- ===== src/BranchRules.antt =====
-- collector/branch_protection.rs: the outcome of the branch-protection check, from the answers of
-- the rulesets, legacy-protection and repository endpoints.
pub mod Endpoints
pub mod Payloads
pub mod Joint
pub mod Verdict
use gh_report.Prelude.{
  ℕ, Bool, true, false, not, Option, none, some, List, [], ◌∷◌, ◌++◌, map, filter_map, Text, codes,
  text_eq, leb, ◌==◌, if◌then◌else◌, ◌>>=◌, or_else, keep,
}
use gh_report.Checks.Score.{
  IndeterminateReason, permission_suspected, transient, rate_limited, invalid, pending,
}
use gh_report.Checks.History.{HistorySignals, merge}
use gh_report.Checks.BranchProtection.{
  HistoryProtectionGap, BranchProtectionResult, unprotected, unobservable, from_history_signals,
}
use gh_report.RefMatching
use gh_report.Api
use gh_report.Api.{Json, ApiOutcome}

-- the caller's `administration:read` signal
pub data AdminAccess : Type 0 where
  admin not_admin unknown : AdminAccess

pub data ConfirmedAbsence : Type 0 where
  no_controls authority_confirmed_not_found : ConfirmedAbsence

abbrev pub confirmed_not_found : ConfirmedAbsence → Bool
confirmed_not_found no_controls = false
confirmed_not_found authority_confirmed_not_found = true

pub record EndpointFailure : Type 0 where
  pub reason : IndeterminateReason
  pub http_status : Option ℕ  -- u16

unfoldable pub reason_precedence : IndeterminateReason → ℕ
reason_precedence IndeterminateReason.permission_denied = 0
reason_precedence rate_limited = 1
reason_precedence permission_suspected = 2
reason_precedence transient = 3
reason_precedence invalid = 4
reason_precedence pending = 5

-- `EndpointFailure::precedence`
abbrev pub precedence : EndpointFailure → ℕ
precedence f = reason_precedence f.reason

pub data EndpointEvidence : Type 0 where
  observed : List HistorySignals → EndpointEvidence
  confirmed_absent : Option ℕ → EndpointEvidence
  indeterminate : EndpointFailure → EndpointEvidence

pub data ProtectionEvidence : Type 0 where
  complete : HistorySignals → ProtectionEvidence
  incomplete : EndpointFailure → ProtectionEvidence
  absent_controls : ConfirmedAbsence → Option ℕ → ProtectionEvidence

-- the tests on a failed call's status, in their order
unfoldable pub classify_failure : Option ℕ → AdminAccess → Bool → EndpointEvidence
classify_failure none access retryable =
    indeterminate (record { reason = if retryable then transient else invalid; http_status = none })
classify_failure (some code) access retryable =
    if code == 403
    then indeterminate
        (record { reason = IndeterminateReason.permission_denied; http_status = some code })
    else if code == 429
    then indeterminate (record { reason = rate_limited; http_status = some code })
    else if code == 404
    then elim access [
      | admin ↦ confirmed_absent (some code)
      | not_admin ↦
          indeterminate (record { reason = permission_suspected; http_status = some code })
      | unknown ↦ indeterminate (record { reason = permission_suspected; http_status = some code })
    ]
    else indeterminate
        (record { reason = if retryable then transient else invalid; http_status = some code })

abbrev pub failure_in : EndpointEvidence → Option EndpointFailure
failure_in (indeterminate f) = some f
failure_in (observed signals) = none
failure_in (confirmed_absent http_status) = none

abbrev pub signals_in : EndpointEvidence → List HistorySignals
signals_in (observed signals) = signals
signals_in (confirmed_absent http_status) = []
signals_in (indeterminate f) = []

-- `filter_map(…).min_by_key(precedence)` over the two endpoints: the first of the least
unfoldable pub first_failure :
    Option EndpointFailure → Option EndpointFailure → Option EndpointFailure
first_failure none b = b
first_failure (some f) none = some f
first_failure (some f) (some g) = some (if leb (precedence f) (precedence g) then f else g)

abbrev pub absence : EndpointEvidence → EndpointEvidence → Option ℕ → ProtectionEvidence
absence (confirmed_absent h) legacy code = absent_controls authority_confirmed_not_found h
absence rulesets (confirmed_absent h) code = absent_controls authority_confirmed_not_found h
absence rulesets legacy code = absent_controls no_controls code

-- the body of `classify_evidence` behind the two classifications; the last argument is the status
-- code that stands for observed absence
unfoldable pub combine : EndpointEvidence → EndpointEvidence → Option ℕ → ProtectionEvidence
unfolding first_failure
combine rulesets legacy code = elim (first_failure (failure_in rulesets) (failure_in legacy)) [
  | some f ↦ incomplete f
  | none ↦ elim (merge (signals_in rulesets ++ signals_in legacy)) [
    | some signals ↦ complete signals
    | none ↦ absence rulesets legacy code
  ]
]

unfoldable pub build_protection_result : ProtectionEvidence → Text → Text → BranchProtectionResult
build_protection_result (incomplete f) branch timestamp =
    unobservable branch f.reason f.http_status timestamp
build_protection_result (absent_controls a http_status) branch timestamp =
    unprotected branch (HistoryProtectionGap.absent (confirmed_not_found a) http_status) timestamp
build_protection_result (complete signals) branch timestamp =
    from_history_signals branch signals.force_push_blocked signals.deletion_blocked timestamp

module _ (J : Json) where
  open J use {Value, get, as_array, as_str, as_bool, is_object}

  -- `rule.get("type")…unwrap_or("")`
  unfoldable pub rule_type : Value → Text
  rule_type rule = elim (do t ← get rule (codes "type"); as_str t) [ none ↦ [] | some s ↦ s ]

  -- the loop over a ruleset's rules
  unfoldable pub scan_rules : List Value → HistorySignals → HistorySignals
  scan_rules [] signals = signals
  scan_rules (rule ∷ rules) signals =
      let kind = rule_type rule in
      scan_rules rules (record {
        force_push_blocked =
            if text_eq kind (codes "non_fast_forward")
            then some true
            else signals.force_push_blocked;
        deletion_blocked =
            if text_eq kind (codes "deletion") then some true else signals.deletion_blocked;
      })

  unfoldable pub summarize_ruleset : Value → HistorySignals
  summarize_ruleset entry =
      let start : HistorySignals = record {
        force_push_blocked = some false;
        deletion_blocked = some false;
      } in
      elim (do rules ← get entry (codes "rules"); as_array rules) [
        | none ↦ start
        | some rules ↦ scan_rules rules start
      ]

  -- one of the legacy switches, in "blocked" polarity
  unfoldable pub legacy_signal : Value → Text → Option Bool
  legacy_signal protection key = do
    field ← get protection key
    enabled ← get field (codes "enabled")
    allowed ← as_bool enabled
    some (not allowed)

  unfoldable pub summarize_legacy_protection : Value → HistorySignals
  summarize_legacy_protection protection = record {
    force_push_blocked = legacy_signal protection (codes "allow_force_pushes");
    deletion_blocked = legacy_signal protection (codes "allow_deletions");
  }

  unfoldable pub extract_patterns : Value → Text → List Text
  extract_patterns entry key =
      elim (do
        c ← get entry (codes "conditions")
        r ← get c (codes "ref_name")
        p ← get r key
        as_array p) [ none ↦ [] | some items ↦ filter_map as_str items ]

  unfoldable pub ruleset_applies : Value → Text → Bool
  ruleset_applies entry default_branch =
      RefMatching.ruleset_applies_to_branch
        (do t ← get entry (codes "target"); s ← as_str t; RefMatching.parse_target s)
        (do e ← get entry (codes "enforcement"); s ← as_str e; RefMatching.parse_enforcement s)
        (extract_patterns entry (codes "include")) (extract_patterns entry (codes "exclude"))
        default_branch default_branch

  -- `ProtectionEndpoint::parse_payload`, one function for each endpoint
  unfoldable pub parse_rulesets : Option Value → Text → Option (List HistorySignals)
  parse_rulesets payload default_branch = do
    body ← payload
    rulesets ← as_array body
    some (map summarize_ruleset (keep (λ r. ruleset_applies r default_branch) rulesets))

  unfoldable pub parse_legacy : Option Value → Option (List HistorySignals)
  parse_legacy payload = do
    body ← payload
    if is_object body then some (summarize_legacy_protection body ∷ []) else none

  unfoldable pub repo_admin_signal : ApiOutcome Value → AdminAccess
  repo_admin_signal details =
      if not (Api.is_ok details)
      then unknown
      else elim (do
        body ← Api.payload_of details
        p ← get body (codes "permissions")
        a ← get p (codes "admin")
        as_bool a) [ none ↦ unknown | some yes' ↦ if yes' then admin else not_admin ]

  -- the two arms of `classify_endpoint`, over the payload's reading
  unfoldable pub classify_endpoint :
      ApiOutcome Value
      → (Option Value → Option (List HistorySignals))
      → AdminAccess
      → EndpointEvidence
  classify_endpoint (ApiOutcome.success code payload headers truncated) parse access =
      elim (parse payload) [
        | none ↦ indeterminate (record { reason = invalid; http_status = some code })
        | some signals ↦ observed signals
      ]
  classify_endpoint (ApiOutcome.failure code error retryable) parse access =
      classify_failure code access retryable

  unfoldable pub classify_evidence :
      ApiOutcome Value → ApiOutcome Value → Text → AdminAccess → ProtectionEvidence
  classify_evidence rulesets legacy default_branch access =
      combine (classify_endpoint rulesets (λ v. parse_rulesets v default_branch) access)
        (classify_endpoint legacy parse_legacy access)
        (or_else (Api.status_code rulesets) (Api.status_code legacy))

  unfoldable pub evaluate_outcomes :
      ApiOutcome Value → ApiOutcome Value → Text → AdminAccess → Text → BranchProtectionResult
  unfolding classify_evidence
  evaluate_outcomes rulesets legacy default_branch access timestamp =
      build_protection_result (classify_evidence rulesets legacy default_branch access)
        default_branch timestamp

  -- `evaluate`: whether the repository's name passed `sanitize_path_segment`, the answers of the
  -- rulesets, legacy and repository endpoints, the default branch and the run's timestamp
  unfoldable pub evaluate :
      Bool
      → ApiOutcome Value
      → ApiOutcome Value
      → ApiOutcome Value
      → Text
      → Text
      → BranchProtectionResult
  unfolding evaluate_outcomes
  evaluate name_ok rulesets legacy details default_branch timestamp =
      if name_ok
      then evaluate_outcomes rulesets legacy default_branch (repo_admin_signal details) timestamp
      else unobservable default_branch invalid none timestamp
