-- ===== src/Checks/Codeowners.antt =====
-- domain/checks.rs and domain/codeowners.rs: `CodeownersResult`.
use gh_report.Prelude.{ℕ, Option, none, some, List, Text, codes}
use gh_report.Checks.Score.{IndeterminateReason, ExclusionReason, ScoreCategory, exclusion_of}

pub data CodeownersTruncationReason : Type 0 where
  not_base64_encoded oversized_base64 content_missing decode_failed invalid_utf8 :
      CodeownersTruncationReason

pub record CodeownersEntry : Type 0 where
  pub pattern : Text
  pub owners : List Text

pub record ParsedCodeowners : Type 0 where
  pub entries : List CodeownersEntry
  pub unique_owners : List Text
  pub skipped_lines : ℕ  -- u32

pub data CodeownersContent : Type 0 where
  parsed : ParsedCodeowners → CodeownersContent
  truncated : CodeownersTruncationReason → CodeownersContent
  unparsed : CodeownersContent

pub data CodeownersNonConformingLocation : Type 0 where
  root docs : CodeownersNonConformingLocation

pub data CodeownersResult : Type 0 where
  conforming : CodeownersContent → Text → CodeownersResult
  non_conforming : CodeownersNonConformingLocation → CodeownersContent → Text → CodeownersResult
  absent : Text → CodeownersResult
  unobservable : IndeterminateReason → Text → CodeownersResult

pub data CodeownersStatus : Type 0 where
  conforming non_conforming absent unknown : CodeownersStatus

unfoldable pub status : CodeownersResult → CodeownersStatus
status (CodeownersResult.conforming content timestamp) = CodeownersStatus.conforming
status (CodeownersResult.non_conforming location content timestamp) =
    CodeownersStatus.non_conforming
status (CodeownersResult.absent timestamp) = CodeownersStatus.absent
status (unobservable reason timestamp) = CodeownersStatus.unknown

unfoldable pub path : CodeownersResult → Option Text
path (CodeownersResult.conforming content timestamp) = some (codes ".github/CODEOWNERS")
path (CodeownersResult.non_conforming root content timestamp) = some (codes "CODEOWNERS")
path (CodeownersResult.non_conforming docs content timestamp) = some (codes "docs/CODEOWNERS")
path (CodeownersResult.absent timestamp) = none
path (unobservable reason timestamp) = none

unfoldable pub timestamp_of : CodeownersResult → Text
timestamp_of (CodeownersResult.conforming content timestamp) = timestamp
timestamp_of (CodeownersResult.non_conforming location content timestamp) = timestamp
timestamp_of (CodeownersResult.absent timestamp) = timestamp
timestamp_of (unobservable reason timestamp) = timestamp

unfoldable pub with_timestamp : CodeownersResult → Text → CodeownersResult
with_timestamp (CodeownersResult.conforming content _) t = CodeownersResult.conforming content t
with_timestamp (CodeownersResult.non_conforming location content _) t =
    CodeownersResult.non_conforming location content t
with_timestamp (CodeownersResult.absent _) t = CodeownersResult.absent t
with_timestamp (unobservable reason _) t = unobservable reason t

abbrev parsed_content : CodeownersContent → Option ParsedCodeowners
parsed_content (parsed p) = some p
parsed_content (truncated reason) = none
parsed_content unparsed = none

unfoldable pub parsed_of : CodeownersResult → Option ParsedCodeowners
parsed_of (CodeownersResult.conforming content timestamp) = parsed_content content
parsed_of (CodeownersResult.non_conforming location content timestamp) = parsed_content content
parsed_of (CodeownersResult.absent timestamp) = none
parsed_of (unobservable reason timestamp) = none

abbrev truncation_content : CodeownersContent → Option CodeownersTruncationReason
truncation_content (parsed p) = none
truncation_content (truncated reason) = some reason
truncation_content unparsed = none

unfoldable pub truncation : CodeownersResult → Option CodeownersTruncationReason
truncation (CodeownersResult.conforming content timestamp) = truncation_content content
truncation (CodeownersResult.non_conforming location content timestamp) = truncation_content content
truncation (CodeownersResult.absent timestamp) = none
truncation (unobservable reason timestamp) = none

-- `From<CodeownersStatus> for ScoreCategory`
unfoldable pub score_of_status : CodeownersStatus → ScoreCategory
score_of_status CodeownersStatus.conforming = ScoreCategory.pass
score_of_status CodeownersStatus.non_conforming = ScoreCategory.fail
score_of_status CodeownersStatus.absent = ScoreCategory.fail
score_of_status unknown = ScoreCategory.excluded ExclusionReason.unknown

-- `From<&CodeownersResult> for ScoreCategory`
unfoldable pub score : CodeownersResult → ScoreCategory
unfolding score_of_status status exclusion_of
score (unobservable reason timestamp) = ScoreCategory.excluded (exclusion_of reason)
score r = score_of_status (status r)
