-- ===== src/Checks/Score.antt =====
-- domain/checks.rs: how a check's outcome enters the score.

-- collection failures that cannot establish absence
pub data IndeterminateReason : Type 0 where
  permission_denied permission_suspected transient rate_limited invalid pending :
      IndeterminateReason

pub data ExclusionReason : Type 0 where
  permission_denied unknown not_applicable other : ExclusionReason

pub data ScoreCategory : Type 0 where
  pass fail : ScoreCategory
  excluded : ExclusionReason → ScoreCategory

-- the inner `match reason` that three conversions share
unfoldable pub exclusion_of : IndeterminateReason → ExclusionReason
exclusion_of IndeterminateReason.permission_denied = ExclusionReason.permission_denied
exclusion_of permission_suspected = ExclusionReason.permission_denied
exclusion_of transient = other
exclusion_of rate_limited = other
exclusion_of invalid = other
exclusion_of pending = other

pub data CollectionFailureReason : Type 0 where
  permission_denied permission_suspected not_found_absent transient rate_limited invalid :
      CollectionFailureReason
