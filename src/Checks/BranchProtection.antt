-- ===== src/Checks/BranchProtection.antt =====
-- domain/checks.rs: `BranchProtectionResult` and `HistoryProtectionGap`.
use gh_report.Prelude.{ℕ, Bool, true, false, Option, none, some, Text}
use gh_report.Checks.Score.{IndeterminateReason, pending, ScoreCategory, exclusion_of}

pub data HistoryProtectionGap : Type 0 where
  -- whether absence was confirmed, and the HTTP status (u16) behind it
  absent : Bool → Option ℕ → HistoryProtectionGap
  neither_blocked force_push_allowed deletion_allowed : HistoryProtectionGap

unfoldable pub is_absent : HistoryProtectionGap → Bool
is_absent (absent confirmed_not_found http_status) = true
is_absent neither_blocked = false
is_absent force_push_allowed = false
is_absent deletion_allowed = false

unfoldable pub gap_http_status : HistoryProtectionGap → Option ℕ
gap_http_status (absent confirmed_not_found http_status) = http_status
gap_http_status neither_blocked = none
gap_http_status force_push_allowed = none
gap_http_status deletion_allowed = none

-- each begins with the default branch and ends with the timestamp
pub data BranchProtectionResult : Type 0 where
  protected : Text → Text → BranchProtectionResult
  unprotected : Text → HistoryProtectionGap → Text → BranchProtectionResult
  unobservable : Text → IndeterminateReason → Option ℕ → Text → BranchProtectionResult

unfoldable pub timestamp_of : BranchProtectionResult → Text
timestamp_of (protected branch timestamp) = timestamp
timestamp_of (unprotected branch gap timestamp) = timestamp
timestamp_of (unobservable branch reason http_status timestamp) = timestamp

unfoldable pub default_branch : BranchProtectionResult → Text
default_branch (protected branch timestamp) = branch
default_branch (unprotected branch gap timestamp) = branch
default_branch (unobservable branch reason http_status timestamp) = branch

unfoldable pub is_protected : BranchProtectionResult → Bool
is_protected (protected branch timestamp) = true
is_protected (unprotected branch gap timestamp) = false
is_protected (unobservable branch reason http_status timestamp) = false

unfoldable pub is_observed : BranchProtectionResult → Bool
is_observed (protected branch timestamp) = true
is_observed (unprotected branch gap timestamp) = true
is_observed (unobservable branch reason http_status timestamp) = false

abbrev is_pending_reason : IndeterminateReason → Bool
is_pending_reason pending = true
is_pending_reason _ = false

unfoldable pub is_pending : BranchProtectionResult → Bool
is_pending (protected branch timestamp) = false
is_pending (unprotected branch gap timestamp) = false
is_pending (unobservable branch reason http_status timestamp) = is_pending_reason reason

unfoldable pub gap_of : BranchProtectionResult → Option HistoryProtectionGap
gap_of (unprotected branch gap timestamp) = some gap
gap_of (protected branch timestamp) = none
gap_of (unobservable branch reason http_status timestamp) = none

unfoldable pub http_status_of : BranchProtectionResult → Option ℕ
unfolding gap_http_status
http_status_of (unobservable branch reason http_status timestamp) = http_status
http_status_of (unprotected branch gap timestamp) = gap_http_status gap
http_status_of (protected branch timestamp) = none

unfoldable pub score : BranchProtectionResult → ScoreCategory
unfolding exclusion_of
score (protected branch timestamp) = ScoreCategory.pass
score (unprotected branch gap timestamp) = ScoreCategory.fail
score (unobservable branch reason http_status timestamp) =
    ScoreCategory.excluded (exclusion_of reason)

-- `unwrap_or(false)`
abbrev pub or_unblocked : Option Bool → Bool
or_unblocked none = false
or_unblocked (some b) = b

abbrev classify_signals : Bool → Bool → Text → Text → BranchProtectionResult
classify_signals true true branch timestamp = protected branch timestamp
classify_signals false true branch timestamp = unprotected branch force_push_allowed timestamp
classify_signals true false branch timestamp = unprotected branch deletion_allowed timestamp
classify_signals false false branch timestamp = unprotected branch neither_blocked timestamp

unfoldable pub from_history_signals :
    Text → Option Bool → Option Bool → Text → BranchProtectionResult
from_history_signals branch force_push_blocked deletion_blocked timestamp =
    classify_signals (or_unblocked force_push_blocked) (or_unblocked deletion_blocked) branch
      timestamp
