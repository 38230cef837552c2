-- ===== src/Evidence/ReadState.antt =====
-- domain/evidence.rs: `RepositoryReadState`, and completeness beside it.
use gh_report.Prelude.{
  ◌≡◌, ◌↔◌, refl, Bool, true, false, ◌&&◌, Option, none, some, List, [], ◌∷◌, Text, codes, text_eq,
  text_eq_iff, arith, any, all, is_some, then_some, ap, and_true, text_eq_refl,
}
use mathlib.Core.Option.{some-injective}
use gh_report.Checks.{RepositoryChecks}
use gh_report.Checks.SecurityPolicy
use gh_report.Checks.SecurityPolicy.{SecurityPolicyStatus}
use gh_report.Checks.SecretScanning
use gh_report.Checks.SecretScanning.{SecretScanningStatus}
use gh_report.Checks.BranchProtection
use gh_report.Checks.Codeowners
use gh_report.Evidence.{RepositoryEvidence, is_complete, dependabot_known, codeowners_known}

pub data RepositoryReadState : Type 0 where
  pending failed observed : RepositoryReadState

-- `PENDING_REASON`
abbrev pub pending_reason : Text
pending_reason = codes "pending"

abbrev pub policy_measured : SecurityPolicyStatus → Bool
policy_measured SecurityPolicyStatus.pass = true
policy_measured SecurityPolicyStatus.fail = true
policy_measured _ = false

abbrev pub scanning_measured : SecretScanningStatus → Bool
scanning_measured SecretScanningStatus.enabled = true
scanning_measured SecretScanningStatus.disabled = true
scanning_measured _ = false

unfoldable pub observed_check_timestamps : RepositoryChecks → List (Option Text)
observed_check_timestamps checks =
    then_some (policy_measured (SecurityPolicy.status checks.security_policy))
      (SecurityPolicy.timestamp_of checks.security_policy)
    ∷ then_some (scanning_measured (SecretScanning.status checks.secret_scanning))
        (SecretScanning.timestamp_of checks.secret_scanning)
    ∷ then_some (dependabot_known checks.dependabot_security_updates.status)
        checks.dependabot_security_updates.timestamp
    ∷ then_some (BranchProtection.is_observed checks.branch_protection)
        (BranchProtection.timestamp_of checks.branch_protection)
    ∷ then_some (codeowners_known (Codeowners.status checks.codeowners))
        (Codeowners.timestamp_of checks.codeowners)
    ∷ []

-- `reason == Some("pending")`
abbrev is_pending_reason : Option Text → Bool
is_pending_reason none = false
is_pending_reason (some r) = text_eq r pending_reason

abbrev read_state : Bool → Bool → RepositoryReadState
read_state true pend = observed
read_state false true = pending
read_state false false = failed

unfoldable pub from_checks : RepositoryChecks → RepositoryReadState
unfolding observed_check_timestamps
from_checks checks = read_state (any is_some (observed_check_timestamps checks)) (
    all is_pending_reason (
      SecretScanning.reason_of checks.secret_scanning
      ∷ checks.dependabot_security_updates.reason
      ∷ then_some (BranchProtection.is_pending checks.branch_protection) pending_reason
      ∷ []))

-- Complete evidence was observed, and evidence that was not observed at all is never complete.
pub complete_observed :
    (e : RepositoryEvidence) → is_complete e ≡ true → from_checks e.checks ≡ observed
unfolding is_complete from_checks
complete_observed e h = ground arith

is_pending_reason_iff : (o : Option Text) → (is_pending_reason o ≡ true) ↔ (o ≡ some pending_reason)
is_pending_reason_iff none = (λ h. cc, λ h. cc)
is_pending_reason_iff (some r) = (
  λ h. ap some ((text_eq_iff r pending_reason).0 h),
  λ h. (text_eq_iff r pending_reason).1 (some-injective r pending_reason h),
)

read_state_pending : (a b : Bool) → read_state a b ≡ pending → (a ≡ false) × (b ≡ true)
read_state_pending a b h = ground arith

then_pending_iff : (b : Bool) → (is_pending_reason (then_some b pending_reason) ≡ true) ↔ (b ≡ true)
then_pending_iff true = (λ h. refl, λ h. text_eq_refl pending_reason)
then_pending_iff false = (λ h. h, λ h. h)

pending_of :
    (m s d b : Bool)
    → m ≡ false
    → s ≡ true
    → d ≡ true
    → b ≡ true
    → read_state m (s && (d && (b && true))) ≡ pending
pending_of m s d b hm hs hd hb = rw (hm, hs, hd, hb)

-- A read is observed exactly when one of the five checks was measured. It is pending exactly when
-- none was measured and secret scanning, Dependabot and branch protection all say pending.
pub from_checks_cases :
    (c : RepositoryChecks)
    → ((from_checks c ≡ observed) ↔ (any is_some (observed_check_timestamps c) ≡ true))
      × ((from_checks c ≡ pending) ↔ (
          (any is_some (observed_check_timestamps c) ≡ false)
          × (SecretScanning.reason_of c.secret_scanning ≡ some pending_reason)
          × (c.dependabot_security_updates.reason ≡ some pending_reason)
          × (BranchProtection.is_pending c.branch_protection ≡ true)))
unfolding from_checks
from_checks_cases c =
    let measured = any is_some (observed_check_timestamps c) in
    let scanning = is_pending_reason (SecretScanning.reason_of c.secret_scanning) in
    let dependabot = is_pending_reason c.dependabot_security_updates.reason in
    let branch =
      is_pending_reason
        (then_some (BranchProtection.is_pending c.branch_protection) pending_reason) in
    (
      (ground arith, ground arith),
      (
        λ h.
            let (none_measured, all_pending) =
              read_state_pending measured (scanning && (dependabot && (branch && true))) h in
            let (hs, r1) = and_true scanning (dependabot && (branch && true)) all_pending in
            let (hd, r2) = and_true dependabot (branch && true) r1 in
            let (hb, _) = and_true branch true r2 in
            (
              none_measured,
              (is_pending_reason_iff (SecretScanning.reason_of c.secret_scanning)).0 hs,
              (is_pending_reason_iff c.dependabot_security_updates.reason).0 hd,
              (then_pending_iff (BranchProtection.is_pending c.branch_protection)).0 hb,
            ),
        λ (hm, hs, hd, hb).
            let es : scanning ≡ true =
              (is_pending_reason_iff (SecretScanning.reason_of c.secret_scanning)).1 hs in
            let ed : dependabot ≡ true =
              (is_pending_reason_iff c.dependabot_security_updates.reason).1 hd in
            let eb : branch ≡ true =
              (then_pending_iff (BranchProtection.is_pending c.branch_protection)).1 hb in
            pending_of measured scanning dependabot branch hm es ed eb,
      ),
    )
