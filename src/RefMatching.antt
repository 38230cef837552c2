-- ===== src/RefMatching.antt =====
-- collector/ref_matching.rs: which refs a GitHub ruleset covers.
pub mod Wire
pub mod Names
pub mod Rulesets
use gh_report.Prelude.{
  ℕ, Bool, true, false, ◌&&◌, ◌||◌, not, Option, none, some, List, [], ◌∷◌, ◌++◌, Text, codes,
  text_eq, strip_prefix, starts_with, any, if◌then◌else◌,
}
use gh_report.PatternMatch

pub data RulesetTarget : Type 0 where
  branch tag push : RulesetTarget

abbrev pub parse_target : Text → Option RulesetTarget
parse_target value =
    if text_eq value (codes "branch")
    then some branch
    else if text_eq value (codes "tag")
    then some tag
    else if text_eq value (codes "push")
    then some push
    else none

abbrev pub display_target : RulesetTarget → Text
display_target branch = codes "branch"
display_target tag = codes "tag"
display_target push = codes "push"

pub data RulesetEnforcement : Type 0 where
  disabled active evaluate : RulesetEnforcement

abbrev pub parse_enforcement : Text → Option RulesetEnforcement
parse_enforcement value =
    if text_eq value (codes "disabled")
    then some disabled
    else if text_eq value (codes "active")
    then some active
    else if text_eq value (codes "evaluate")
    then some evaluate
    else none

abbrev pub display_enforcement : RulesetEnforcement → Text
display_enforcement disabled = codes "disabled"
display_enforcement active = codes "active"
display_enforcement evaluate = codes "evaluate"

abbrev pub heads : Text
heads = codes "refs/heads/"

unfoldable pub normalize_branch_ref : Text → Text
normalize_branch_ref b = if starts_with heads b then b else heads ++ b

-- `branch_ref.strip_prefix("refs/heads/").unwrap_or(&branch_ref)`
unfoldable pub short_name : Text → Text
short_name r = elim (strip_prefix heads r) [ none ↦ r | some s ↦ s ]

-- `FNMATCH_MAX_RECURSION_DEPTH` of config/mod.rs
abbrev pub fnmatch_max_recursion_depth : ℕ
fnmatch_max_recursion_depth = 256

abbrev pub all_refs : Text
all_refs = codes "~ALL"

abbrev pub default_ref : Text
default_ref = codes "~DEFAULT_BRANCH"

unfoldable pub path_pattern_matches : Text → Text → Bool
path_pattern_matches pattern candidate =
    PatternMatch.path_pattern_matches pattern candidate fnmatch_max_recursion_depth

unfoldable pub ref_name_matches : Text → Text → Text → Bool
ref_name_matches pattern b default_branch =
    let branch_ref = normalize_branch_ref b in
    let branch_name = short_name branch_ref in
    if text_eq pattern all_refs
    then true
    else if text_eq pattern default_ref
    then text_eq branch_ref (normalize_branch_ref default_branch)
    else if text_eq pattern branch_ref || text_eq pattern branch_name
    then true
    else path_pattern_matches pattern
        (if starts_with (codes "refs/") pattern then branch_ref else branch_name)

abbrev is_branch_target : Option RulesetTarget → Bool
is_branch_target (some branch) = true
is_branch_target _ = false

-- `matches!(enforcement, None | Some(Active))`
abbrev is_enforced : Option RulesetEnforcement → Bool
is_enforced none = true
is_enforced (some active) = true
is_enforced (some disabled) = false
is_enforced (some evaluate) = false

abbrev pub include_patterns : List Text → List Text
include_patterns [] = all_refs ∷ []
include_patterns (p ∷ ps) = p ∷ ps

unfoldable pub ruleset_applies_to_branch :
    Option RulesetTarget → Option RulesetEnforcement → List Text → List Text → Text → Text → Bool
ruleset_applies_to_branch target enforcement include exclude b default_branch =
    if not (is_branch_target target)
    then false
    else if not (is_enforced enforcement)
    then false
    else any (λ p. ref_name_matches p b default_branch) (include_patterns include)
      && not (any (λ p. ref_name_matches p b default_branch) exclude)
