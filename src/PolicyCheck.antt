-- ===== src/PolicyCheck.antt =====
-- collector/security_policy.rs: from the answers to the outcome of the security-policy check.
pub mod Readings
pub mod Absence
pub mod Updates
use gh_report.Prelude.{
  ℕ, ◌≡◌, Bool, true, false, not, ◌&&◌, ◌||◌, Option, none, some, List, [], ◌∷◌, Text, codes,
  if◌then◌else◌, ltb, ◌==◌, text_eq, is_some, ◌>>=◌,
}
use gh_report.Repository.{Repository, is_public}
use gh_report.Api.{Json, ApiOutcome, is_ok, status_code, payload_of, is_code}
use gh_report.Api
use gh_report.Checks.Score.{IndeterminateReason, invalid, rate_limited, transient}
use gh_report.Checks.SecurityPolicy.{
  SecurityPolicyResult, SecurityPolicyStatus, SecurityPolicyEvidence, SecurityPolicyPath, new_path,
  enabled_by_setting, enabled_by_file, unobservable,
}
use gh_report.Checks.Dependabot.{DependabotResult, DependabotStatus}

abbrev pub security_policy_paths : List Text
security_policy_paths =
    codes "SECURITY.md" ∷ codes ".github/SECURITY.md" ∷ codes "docs/SECURITY.md" ∷ []

abbrev by_file : Option SecurityPolicyPath → Text → SecurityPolicyResult
by_file none timestamp = unobservable invalid timestamp
by_file (some path) timestamp = enabled_by_file path timestamp

abbrev by_evidence : SecurityPolicyEvidence → Text → SecurityPolicyResult
by_evidence SecurityPolicyEvidence.permission_denied timestamp =
    unobservable IndeterminateReason.permission_denied timestamp
by_evidence SecurityPolicyEvidence.transient_error timestamp = unobservable transient timestamp
by_evidence _ timestamp = unobservable invalid timestamp

unfoldable pub build_result :
    SecurityPolicyStatus → SecurityPolicyEvidence → Option Text → Text → SecurityPolicyResult
unfolding new_path
build_result SecurityPolicyStatus.pass SecurityPolicyEvidence.setting path timestamp =
    enabled_by_setting timestamp
build_result SecurityPolicyStatus.pass SecurityPolicyEvidence.file (some path) timestamp =
    by_file (new_path path) timestamp
build_result SecurityPolicyStatus.fail SecurityPolicyEvidence.absent path timestamp =
    SecurityPolicyResult.absent timestamp
build_result SecurityPolicyStatus.not_applicable evidence path timestamp =
    SecurityPolicyResult.not_applicable timestamp
build_result status evidence path timestamp = by_evidence evidence timestamp

abbrev is_denied : Option ℕ → Bool
is_denied code = is_code 401 code || is_code 403 code

abbrev priority : IndeterminateReason → ℕ
priority IndeterminateReason.permission_denied = 0
priority IndeterminateReason.permission_suspected = 1
priority IndeterminateReason.rate_limited = 2
priority IndeterminateReason.transient = 3
priority IndeterminateReason.invalid = 4
priority IndeterminateReason.pending = 5

unfoldable pub record_policy_failure :
    Option IndeterminateReason → IndeterminateReason → Option IndeterminateReason
record_policy_failure none next = some next
record_policy_failure (some previous) next =
    if ltb (priority next) (priority previous) then some next else some previous

-- what the answers so far have shown
pub record Seen : Type 0 where
  pub permission_denied : Bool
  pub retryable_error : Bool
  pub other_failure : Option IndeterminateReason

abbrev is_rate_limited : Option IndeterminateReason → Bool
is_rate_limited (some IndeterminateReason.rate_limited) = true
is_rate_limited _ = false

module _ (J : Json) where
  open J use {Value, get, as_array, as_str, as_bool, is_object, is_null}

  abbrev pub text_is : Text → Option Text → Bool
  unfolding text_eq
  text_is word none = false
  text_is word (some s) = text_eq s word

  abbrev pub type_of : Value → Option Text
  type_of value = do v ← get value (codes "type"); as_str v

  abbrev valid_contents : Option Value → Bool
  unfolding text_is
  valid_contents none = false
  valid_contents (some value) =
      is_some (as_array value)
      || (text_is (codes "file") (type_of value)
          || (text_is (codes "dir") (type_of value)
              || (text_is (codes "submodule") (type_of value)
                  || text_is (codes "symlink") (type_of value))))

  abbrev pub flag_or_absent : Option Value → Bool
  flag_or_absent none = true
  flag_or_absent (some v) = is_some (as_bool v) || is_null v

  abbrev valid_details : Option Value → Bool
  valid_details none = false
  valid_details (some value) =
      is_object value && flag_or_absent (get value (codes "is_security_policy_enabled"))

  abbrev valid_answer : Bool → Option Value → Bool
  unfolding valid_contents
  valid_answer true value = valid_contents value
  valid_answer false value = valid_details value

  unfoldable pub policy_failure : ApiOutcome Value → Bool → Option IndeterminateReason
  unfolding is_ok status_code payload_of valid_answer Api.is_retryable
  policy_failure outcome contents =
      let code = status_code outcome in
      if is_ok outcome
      then (if valid_answer contents (payload_of outcome) then none else some invalid)
      else if is_denied code
      then some IndeterminateReason.permission_denied
      else if contents && is_code 404 code
      then none
      else if is_code 429 code
      then some rate_limited
      else if Api.is_retryable outcome
      then some transient
      else some invalid

  unfoldable pub is_retryable_error : ApiOutcome Value → Bool
  unfolding status_code Api.is_retryable
  is_retryable_error outcome = Api.is_retryable outcome && not (is_code 429 (status_code outcome))

  abbrev record_failure :
      Option IndeterminateReason → Option IndeterminateReason → Option IndeterminateReason
  unfolding record_policy_failure
  record_failure current none = current
  record_failure current (some reason) = record_policy_failure current reason

  unfoldable pub see : ApiOutcome Value → Seen → Seen
  unfolding record_failure policy_failure is_retryable_error status_code
  see content seen = record {
    permission_denied = seen.permission_denied || is_denied (status_code content);
    retryable_error = seen.retryable_error || is_retryable_error content;
    other_failure = record_failure seen.other_failure (policy_failure content true);
  }

  unfoldable pub is_file : ApiOutcome Value → Bool
  unfolding is_ok payload_of text_is
  is_file content =
      is_ok content && text_is (codes "file") (do value ← payload_of content; type_of value)

  -- the request for a path is answered by `contents`
  unfoldable pub check_policy_files :
      List Text → (Text → ApiOutcome Value) → Text → Seen → Option SecurityPolicyResult × Seen
  unfolding is_file see build_result
  check_policy_files [] contents timestamp seen = (none, seen)
  check_policy_files (path ∷ paths) contents timestamp seen = elim (is_file (contents path)) [
    | true ↦ (
      some (
          build_result SecurityPolicyStatus.pass SecurityPolicyEvidence.file (some path) timestamp),
      seen,
    )
    | false ↦ check_policy_files paths contents timestamp (see (contents path) seen)
  ]

  abbrev pub is_true : Option Bool → Bool
  is_true none = false
  is_true (some b) = b

  unfoldable pub is_set : ApiOutcome Value → Bool
  unfolding is_ok payload_of
  is_set details =
      is_ok details
      && is_true (do
        value ← payload_of details
        v ← get value (codes "is_security_policy_enabled")
        as_bool v)

  unfoldable pub seen_in_details : ApiOutcome Value → Seen
  unfolding policy_failure is_retryable_error status_code
  seen_in_details details = record {
    permission_denied = is_denied (status_code details);
    retryable_error = is_retryable_error details;
    other_failure = policy_failure details false;
  }

  abbrev by_failure : Option IndeterminateReason → Text → SecurityPolicyResult
  unfolding build_result
  by_failure (some reason) timestamp = unobservable reason timestamp
  by_failure none timestamp =
      build_result SecurityPolicyStatus.fail SecurityPolicyEvidence.absent none timestamp

  unfoldable pub conclude : Option SecurityPolicyResult × Seen → Text → SecurityPolicyResult
  unfolding build_result by_failure
  conclude (some result, seen) timestamp = result
  conclude (none, seen) timestamp =
      if seen.permission_denied
      then build_result SecurityPolicyStatus.unknown SecurityPolicyEvidence.permission_denied none
          timestamp
      else if seen.retryable_error && not (is_rate_limited seen.other_failure)
      then build_result SecurityPolicyStatus.unknown SecurityPolicyEvidence.transient_error none
          timestamp
      else by_failure seen.other_failure timestamp

  -- the test of the name is a library's; the details and the contents answer the requests
  unfoldable pub evaluate :
      Bool → Repository → ApiOutcome Value → (Text → ApiOutcome Value) → Text → SecurityPolicyResult
  unfolding is_public is_set seen_in_details check_policy_files conclude build_result
  evaluate safe_name repo details contents timestamp =
      if not safe_name
      then build_result SecurityPolicyStatus.unknown SecurityPolicyEvidence.collection_error none
          timestamp
      else if not (is_public repo)
      then build_result SecurityPolicyStatus.not_applicable SecurityPolicyEvidence.not_applicable
          none timestamp
      else if is_set details
      then build_result SecurityPolicyStatus.pass SecurityPolicyEvidence.setting none timestamp
      else conclude
          (check_policy_files security_policy_paths contents timestamp (seen_in_details details))
          timestamp
