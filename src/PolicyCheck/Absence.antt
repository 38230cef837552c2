-- ===== src/PolicyCheck/Absence.antt =====
-- When a repository fails the security-policy check.
use gh_report.Prelude.{
  ◌≡◌, ◌↔◌, inl, inr, refl, sym, ◌∙◌, ap, Bool, true, false, not, ◌&&◌, ◌||◌, Option, none, some,
  List, [], ◌∷◌, Text, codes, ltb, arith, Bool-cases, is_some, false≢true, all,
}
use gh_report.PolicyCheck.Readings.{
  is_clean, shows_no_file, DetailsWithout, NoFile, details_iff, NoFile-iff,
}
use gh_report.Repository.{Repository, is_public, public}
use gh_report.Api.{Json, ApiOutcome}
use gh_report.Checks.Score.{IndeterminateReason}
use gh_report.Checks.SecurityPolicy.{
  SecurityPolicyStatus, SecurityPolicyEvidence, SecurityPolicyPath, new_path, status,
}
use gh_report.PolicyCheck.{
  security_policy_paths, build_result, by_file, record_policy_failure, record_failure, Seen,
  policy_failure, see, is_file, check_policy_files, is_set, seen_in_details, conclude, by_failure,
  evaluate, priority,
}

abbrev is_fail : SecurityPolicyStatus → Bool
is_fail SecurityPolicyStatus.fail = true
is_fail _ = false

module _ (J : Json) where
  open J use {Value}

  abbrev nothing_seen : Seen → Bool
  nothing_seen s =
      not s.permission_denied && (not s.retryable_error && not (is_some s.other_failure))

  record_failure_none :
      (current next : Option IndeterminateReason)
      → is_some (record_failure J current next) ≡ (is_some current || is_some next)
  unfolding record_failure record_policy_failure
  record_failure_none none none = refl
  record_failure_none none (some next) = refl
  record_failure_none (some current) none = refl
  record_failure_none (some current) (some next) =
      elim (Bool-cases (ltb (priority next) (priority current))) [
        | inl less ↦ rw less refl
        | inr more ↦ rw more refl
      ]

  nothing_seen-see :
      (content : ApiOutcome Value) (seen : Seen)
      → nothing_seen (see J content seen) ≡ (nothing_seen seen && is_clean J true content)
  unfolding see is_clean
  nothing_seen-see content seen =
      ground (arith, record_failure_none seen.other_failure (policy_failure J content true))

  concluded :
      (denied again : Bool) (other : Option IndeterminateReason) (timestamp : Text)
      → let seen : Seen = record {
        permission_denied = denied;
        retryable_error = again;
        other_failure = other;
      } in
        is_fail (status (conclude J (none, seen) timestamp)) ≡ nothing_seen seen
  unfolding conclude build_result by_failure status
  concluded true again other timestamp = refl
  concluded false true none timestamp = refl
  concluded false true (some IndeterminateReason.permission_denied) timestamp = refl
  concluded false true (some IndeterminateReason.permission_suspected) timestamp = refl
  concluded false true (some IndeterminateReason.transient) timestamp = refl
  concluded false true (some IndeterminateReason.rate_limited) timestamp = refl
  concluded false true (some IndeterminateReason.invalid) timestamp = refl
  concluded false true (some IndeterminateReason.pending) timestamp = refl
  concluded false false none timestamp = refl
  concluded false false (some reason) timestamp = refl

  found_passes :
      (path : Option SecurityPolicyPath) (timestamp : Text)
      → is_fail (status (by_file path timestamp)) ≡ false
  unfolding status
  found_passes none timestamp = refl
  found_passes (some path) timestamp = refl

  found_fails :
      (path timestamp : Text) (seen : Seen)
      → let result =
          build_result SecurityPolicyStatus.pass SecurityPolicyEvidence.file
            (some path)
            timestamp in
        is_fail (status (conclude J (some result, seen) timestamp)) ≡ false
  unfolding conclude build_result
  found_fails path timestamp seen = found_passes (new_path path) timestamp

  files_lem :
      (paths : List Text) (contents : Text → ApiOutcome Value) (timestamp : Text) (seen : Seen)
      → is_fail (status (conclude J (check_policy_files J paths contents timestamp seen) timestamp))
        ≡ (nothing_seen seen && all (λ path. shows_no_file J (contents path)) paths)
  unfolding check_policy_files shows_no_file
  files_lem [] contents timestamp seen =
      concluded seen.permission_denied seen.retryable_error seen.other_failure timestamp
      ∙ (ground arith)
  files_lem (path ∷ paths) contents timestamp seen = elim (Bool-cases (is_file J (contents path))) [
    | inl found ↦ rw (check_policy_files, found) (found_fails path timestamp seen ∙ (ground arith))
    | inr other ↦
        rw (check_policy_files, other)
          (files_lem paths contents timestamp (see J (contents path) seen)
            ∙ (ground (arith, nothing_seen-see (contents path) seen)))
  ]

  seen_clean :
      (details : ApiOutcome Value)
      → nothing_seen (seen_in_details J details) ≡ is_clean J false details
  unfolding seen_in_details is_clean
  seen_clean details = refl

  evaluate_lem :
      (safe : Bool) (repo : Repository) (details : ApiOutcome Value)
      (contents : Text → ApiOutcome Value) (timestamp : Text)
      → is_fail (status (evaluate J safe repo details contents timestamp)) ≡ (
          safe
          && (is_public repo
              && (not (is_set J details)
                  && (is_clean J false details
                      && all (λ path. shows_no_file J (contents path)) security_policy_paths))))
  unfolding evaluate build_result status
  evaluate_lem safe repo details contents timestamp =
      let looked =
        files_lem security_policy_paths contents timestamp (seen_in_details J details)
        ∙ ap (λ f. f && all (λ path. shows_no_file J (contents path)) security_policy_paths)
            (seen_clean details) in
      elim (Bool-cases safe) [
        | inr unsafe ↦ rw unsafe refl
        | inl fine ↦ rw fine (elim (Bool-cases (is_public repo)) [
          | inr hidden ↦ rw hidden refl
          | inl shown ↦ rw shown (elim (Bool-cases (is_set J details)) [
            | inl set ↦ rw set refl
            | inr unset ↦ rw unset looked
          ])
        ])
      ]

  is_fail_iff : (s : SecurityPolicyStatus) → (s ≡ SecurityPolicyStatus.fail) ↔ (is_fail s ≡ true)
  is_fail_iff SecurityPolicyStatus.pass = (λ e. ap is_fail e, λ e. absurd (false≢true e))
  is_fail_iff SecurityPolicyStatus.fail = (λ e. refl, λ e. refl)
  is_fail_iff SecurityPolicyStatus.unknown = (λ e. ap is_fail e, λ e. absurd (false≢true e))
  is_fail_iff SecurityPolicyStatus.not_applicable = (λ e. ap is_fail e, λ e. absurd (false≢true e))

  -- no path of a policy file has a file
  abbrev pub NoFiles : (Text → ApiOutcome Value) → Type 0
  NoFiles contents =
      NoFile J (contents (codes "SECURITY.md"))
      × NoFile J (contents (codes ".github/SECURITY.md"))
      × NoFile J (contents (codes "docs/SECURITY.md"))

  NoFiles-iff :
      (contents : Text → ApiOutcome Value)
      → (all (λ path. shows_no_file J (contents path)) security_policy_paths ≡ true)
        ↔ NoFiles contents
  NoFiles-iff contents =
      let root = NoFile-iff J (contents (codes "SECURITY.md")) in
      let hidden = NoFile-iff J (contents (codes ".github/SECURITY.md")) in
      let docs = NoFile-iff J (contents (codes "docs/SECURITY.md")) in
      let (split, join) =
        three (shows_no_file J (contents (codes "SECURITY.md")))
          (shows_no_file J (contents (codes ".github/SECURITY.md")))
          (shows_no_file J (contents (codes "docs/SECURITY.md"))) in
      (
        λ h. let (a, b, c) = split h in (root.0 a, hidden.0 b, docs.0 c),
        λ (a, b, c). join (root.1 a, hidden.1 b, docs.1 c),
      )
    where
      three :
          (a b c : Bool)
          → ((a && (b && (c && true))) ≡ true) ↔ ((a ≡ true) × (b ≡ true) × (c ≡ true))
      three a b c = (ground arith, ground arith)

  public_iff : (repo : Repository) → (is_public repo ≡ true) ↔ (repo.visibility ≡ public)
  unfolding is_public
  public_iff repo = (ground arith, ground arith)

  all_true :
      (a b c d e : Bool)
      → ((a && (b && (not c && (d && e)))) ≡ true)
        ↔ ((a ≡ true) × (b ≡ true) × ((c ≡ false) × (d ≡ true)) × (e ≡ true))
  all_true a b c d e = ground arith

  -- A repository fails the security-policy check exactly when its name is usable, it is public, its
  -- details were read and their flag does not say that a policy is set, and each of the three paths
  -- of a policy file was found to have none: it is missing by a 404 that is not retryable, or an
  -- answer that was not denied shows a listing or an entry that is no file. A request that was
  -- denied, limited, interrupted or answered badly never counts as the absence of a policy.
  pub fails_iff_all_read :
      (safe : Bool) (repo : Repository) (details : ApiOutcome Value)
      (contents : Text → ApiOutcome Value) (timestamp : Text)
      → (status (evaluate J safe repo details contents timestamp) ≡ SecurityPolicyStatus.fail)
        ↔ ((safe ≡ true) × (repo.visibility ≡ public) × DetailsWithout J details × NoFiles contents)
  fails_iff_all_read safe repo details contents timestamp =
      let result = evaluate J safe repo details contents timestamp in
      let computed = evaluate_lem safe repo details contents timestamp in
      let (to, from) = is_fail_iff (status result) in
      let (split, join) =
        all_true safe (is_public repo) (is_set J details) (is_clean J false details) _ in
      let shown = public_iff repo in
      let read = details_iff J details in
      let files = NoFiles-iff contents in
      (
        λ e. let (s, p, d, f) = split (sym computed ∙ to e) in (s, shown.0 p, read.0 d, files.0 f),
        λ (s, p, d, f). from (computed ∙ join (s, shown.1 p, read.1 d, files.1 f)),
      )
