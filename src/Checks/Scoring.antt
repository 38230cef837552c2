-- ===== src/Checks/Scoring.antt =====
-- How statuses and reasons enter the score.
use gh_report.Prelude.{◌≡◌, ◌↔◌, ◌⊎◌, inl, inr, refl, Option, false, arith}
use gh_report.Checks.Score.{ExclusionReason, ScoreCategory, exclusion_of}
use gh_report.Checks.SecurityPolicy
use gh_report.Checks.SecurityPolicy.{SecurityPolicyResult}
use gh_report.Checks.SecretScanning
use gh_report.Checks.SecretScanning.{SecretScanningResult}
use gh_report.Checks.{RepositoryChecks}
use gh_report.Checks.Dependabot
use gh_report.Checks.Dependabot.{DependabotStatus}
use gh_report.Checks.Codeowners
use gh_report.Checks.Codeowners.{CodeownersResult}
use gh_report.Checks.BranchProtection
use gh_report.Checks.BranchProtection.{BranchProtectionResult}

-- left out of the score, for whatever reason
abbrev pub IsExcluded : ScoreCategory → Type 0
IsExcluded c = (e : ExclusionReason) × (c ≡ ScoreCategory.excluded e)

scanning-score_with :
    (s : SecretScanning.SecretScanningStatus)
    (o : Option SecretScanning.SecretScanningFailureReason)
    → IsExcluded (SecretScanning.score_with s o) ↔ (
        (s ≡ SecretScanning.SecretScanningStatus.permission_denied)
        ⊎ (s ≡ SecretScanning.SecretScanningStatus.unknown))
scanning-score_with SecretScanning.SecretScanningStatus.enabled o =
    (λ (e, h). cc, λ h. ground arith)
scanning-score_with SecretScanning.SecretScanningStatus.disabled o =
    (λ (e, h). cc, λ h. ground arith)
scanning-score_with SecretScanning.SecretScanningStatus.permission_denied o =
    (λ h. inl refl, λ h. (ExclusionReason.permission_denied, refl))
scanning-score_with SecretScanning.SecretScanningStatus.unknown o =
    (λ h. inr refl, λ h. (SecretScanning.unknown_exclusion o, refl))

scanning-score_permission :
    (s : SecretScanning.SecretScanningStatus)
    (o : Option SecretScanning.SecretScanningFailureReason)
    → (SecretScanning.score_with s o ≡ ScoreCategory.excluded ExclusionReason.permission_denied)
      ↔ (s ≡ SecretScanning.SecretScanningStatus.permission_denied)
scanning-score_permission s o = (ground arith, ground arith)

policy-score :
    (r : SecurityPolicyResult)
    → IsExcluded (SecurityPolicy.score r) ↔ (
        (SecurityPolicy.status r ≡ SecurityPolicy.SecurityPolicyStatus.unknown)
        ⊎ (SecurityPolicy.status r ≡ SecurityPolicy.SecurityPolicyStatus.not_applicable))
unfolding SecurityPolicy.score
policy-score (SecurityPolicyResult.enabled_by_setting t) = (λ (e, h). cc, λ h. ground arith)
policy-score (SecurityPolicyResult.enabled_by_file p t) = (λ (e, h). cc, λ h. ground arith)
policy-score (SecurityPolicyResult.absent t) = (λ (e, h). cc, λ h. ground arith)
policy-score (SecurityPolicyResult.unobservable r t) = (λ h. inl refl, λ h. (exclusion_of r, refl))
policy-score (SecurityPolicyResult.not_applicable t) =
    (λ h. inr refl, λ h. (ExclusionReason.not_applicable, refl))

codeowners-score :
    (r : CodeownersResult)
    → IsExcluded (Codeowners.score r) ↔ (Codeowners.status r ≡ Codeowners.CodeownersStatus.unknown)
unfolding Codeowners.score
codeowners-score (CodeownersResult.conforming c t) = (λ (e, h). cc, λ h. cc)
codeowners-score (CodeownersResult.non_conforming l c t) = (λ (e, h). cc, λ h. cc)
codeowners-score (CodeownersResult.absent t) = (λ (e, h). cc, λ h. cc)
codeowners-score (CodeownersResult.unobservable r t) = (λ h. refl, λ h. (exclusion_of r, refl))

branch-score :
    (r : BranchProtectionResult)
    → IsExcluded (BranchProtection.score r) ↔ (BranchProtection.is_observed r ≡ false)
unfolding BranchProtection.score BranchProtection.is_observed
branch-score (BranchProtectionResult.protected b t) = (λ (e, h). cc, λ h. cc)
branch-score (BranchProtectionResult.unprotected b g t) = (λ (e, h). cc, λ h. cc)
branch-score (BranchProtectionResult.unobservable b r s t) =
    (λ h. refl, λ h. (exclusion_of r, refl))

dependabot-score :
    (s : DependabotStatus)
    → IsExcluded (Dependabot.score_of_status s) ↔ (s ≡ DependabotStatus.unknown)
unfolding Dependabot.score_of_status
dependabot-score DependabotStatus.enabled = (λ (e, h). cc, λ h. cc)
dependabot-score DependabotStatus.paused = (λ (e, h). cc, λ h. cc)
dependabot-score DependabotStatus.disabled = (λ (e, h). cc, λ h. cc)
dependabot-score DependabotStatus.unknown = (λ h. refl, λ h. (ExclusionReason.unknown, refl))

-- Each of the five checks is left out of the score exactly when its status is indefinite: unknown
-- or not applicable for the security policy, unknown or denied for secret scanning, unknown for
-- Dependabot and CODEOWNERS, unobserved for branch protection. Secret scanning is excluded as
-- denied exactly when its status is.
pub excluded_iff_indefinite :
    (c : RepositoryChecks)
    → (IsExcluded (SecurityPolicy.score c.security_policy) ↔ (
        (SecurityPolicy.status c.security_policy ≡ SecurityPolicy.SecurityPolicyStatus.unknown)
        ⊎ (SecurityPolicy.status c.security_policy
            ≡ SecurityPolicy.SecurityPolicyStatus.not_applicable)))
      × (IsExcluded (SecretScanning.score c.secret_scanning) ↔ (
          (SecretScanning.status c.secret_scanning
            ≡ SecretScanning.SecretScanningStatus.permission_denied)
          ⊎ (SecretScanning.status c.secret_scanning
              ≡ SecretScanning.SecretScanningStatus.unknown)))
      × ((SecretScanning.score c.secret_scanning
            ≡ ScoreCategory.excluded ExclusionReason.permission_denied)
          ↔ (SecretScanning.status c.secret_scanning
              ≡ SecretScanning.SecretScanningStatus.permission_denied))
      × (IsExcluded (Dependabot.score_of_status c.dependabot_security_updates.status)
          ↔ (c.dependabot_security_updates.status ≡ DependabotStatus.unknown))
      × (IsExcluded (BranchProtection.score c.branch_protection)
          ↔ (BranchProtection.is_observed c.branch_protection ≡ false))
      × (IsExcluded (Codeowners.score c.codeowners)
          ↔ (Codeowners.status c.codeowners ≡ Codeowners.CodeownersStatus.unknown))
unfolding SecretScanning.score
excluded_iff_indefinite c =
    let s = c.secret_scanning in
    (
      policy-score c.security_policy,
      scanning-score_with (SecretScanning.status s) (SecretScanning.failure_reason s),
      scanning-score_permission (SecretScanning.status s) (SecretScanning.failure_reason s),
      dependabot-score c.dependabot_security_updates.status,
      branch-score c.branch_protection,
      codeowners-score c.codeowners,
    )
