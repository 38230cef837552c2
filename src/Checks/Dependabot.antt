-- ===== src/Checks/Dependabot.antt =====
-- domain/checks.rs: `DependabotResult`.
use gh_report.Prelude.{Option, Text}
use gh_report.Checks.Score.{ExclusionReason, ScoreCategory}

pub data DependabotStatus : Type 0 where
  enabled paused disabled unknown : DependabotStatus

pub record DependabotResult : Type 0 where
  pub status : DependabotStatus
  pub reason : Option Text
  pub timestamp : Text

-- `From<DependabotStatus> for ScoreCategory`
unfoldable pub score_of_status : DependabotStatus → ScoreCategory
score_of_status enabled = ScoreCategory.pass
score_of_status paused = ScoreCategory.fail
score_of_status disabled = ScoreCategory.fail
score_of_status unknown = ScoreCategory.excluded ExclusionReason.unknown
