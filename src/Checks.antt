-- ===== src/Checks.antt =====
-- domain/checks.rs: the results of the five checks of one repository.
pub mod Score
pub mod SecurityPolicy
pub mod SecretScanning
pub mod Dependabot
pub mod History
pub mod BranchProtection
pub mod Codeowners
pub mod Scoring
pub mod Timestamps
pub mod Merging
use gh_report.Prelude.{List, [], ◌∷◌, Text}
use SecurityPolicy.{SecurityPolicyResult}
use SecretScanning.{SecretScanningResult}
use Dependabot.{DependabotResult}
use BranchProtection.{BranchProtectionResult}
use Codeowners.{CodeownersResult}
use BranchProtection

pub record RepositoryChecks : Type 0 where
  pub security_policy : SecurityPolicyResult
  pub secret_scanning : SecretScanningResult
  pub dependabot_security_updates : DependabotResult
  pub branch_protection : BranchProtectionResult
  pub codeowners : CodeownersResult

abbrev pub observed_at : RepositoryChecks → Text
observed_at checks = BranchProtection.timestamp_of checks.branch_protection

pub data CheckType : Type 0 where
  security_policy secret_scanning dependabot branch_protection codeowners : CheckType

-- `CheckType::ALL`
abbrev pub all_check_types : List CheckType
all_check_types =
    CheckType.security_policy ∷ CheckType.secret_scanning ∷ CheckType.dependabot
    ∷ CheckType.branch_protection ∷ CheckType.codeowners ∷ []
