-- ===== src/Samples/Patterns.antt =====
-- The theorems on the matchers and rulesets, on patterns and branches.
use gh_report.Prelude.{
  ◌+◌, ◌≤◌, ◌≡◌, ◌≢◌, ◌↔◌, ◌⊎◌, refl, true, false, Option, none, some, List, [], ◌∷◌, Text, arith,
  codes, length, any, All, text_eq,
}
use gh_report.PatternMatch.{
  fnmatch_bytes, collapse, fnmatch_segment, split_from, split_slash, match_path_segments,
  path_pattern_matches, max_segment_recursion_depth,
}
use gh_report.PatternMatch.Glob.{Glob, PathGlob}
use gh_report.PatternMatch.Bytes.{fnmatch_bytes-iff-Glob}
use gh_report.PatternMatch.Paths.{path_pattern_matches_sound, path_pattern_matches_complete}
use gh_report.PatternMatch.Plain.{Plain}
use gh_report.RefMatching.{
  RulesetTarget, RulesetEnforcement, all_refs, default_ref, ref_name_matches,
  ruleset_applies_to_branch,
}
use gh_report.RefMatching.Rulesets.{ruleset_applies_to_branch_iff, Covered}

abbrev pattern : Text
pattern = codes "f**x"

abbrev candidate : Text
candidate = codes "fix"

fnmatch_bytes-iff-Glob_example :
    (fnmatch_bytes pattern candidate 0 256 ≡ true)
    ↔ (Glob pattern candidate × (0 + length pattern ≤ 256))
fnmatch_bytes-iff-Glob_example = fnmatch_bytes-iff-Glob pattern candidate 0 256

abbrev deep_pattern : Text
deep_pattern = codes "a/**/b"

abbrev deep_path : Text
deep_path = codes "a/x/b"

deep_matches : path_pattern_matches deep_pattern deep_path 256 ≡ true
unfolding path_pattern_matches match_path_segments split_slash split_from fnmatch_segment
    fnmatch_bytes collapse text_eq
deep_matches = refl

path_pattern_matches_sound_example : PathGlob (split_slash deep_pattern) (split_slash deep_path)
path_pattern_matches_sound_example =
    path_pattern_matches_sound deep_pattern deep_path 256 deep_matches

deep_short : length (split_slash deep_pattern) ≤ max_segment_recursion_depth
unfolding split_slash split_from
deep_short = ground arith

deep_fits : All (λ p. length p ≤ 256) (split_slash deep_pattern)
unfolding split_slash split_from
deep_fits = (ground arith, (ground arith, (ground arith, tt)))

path_pattern_matches_complete_example : path_pattern_matches deep_pattern deep_path 256 ≡ true
path_pattern_matches_complete_example =
    path_pattern_matches_complete deep_pattern deep_path 256 path_pattern_matches_sound_example
      deep_short deep_fits

abbrev plain : Text
plain = codes "ab"

plain-Plain : Plain plain
plain-Plain = ((ground arith, ground arith), ((ground arith, ground arith), tt))

abbrev main' : Text
main' = codes "main"

abbrev release : Text
release = codes "release"

not_all : plain ≢ all_refs
not_all = ground arith

not_default : plain ≢ default_ref
not_default = ground arith

abbrev unset : Option RulesetEnforcement
unset = none

abbrev unscoped : List Text
unscoped = []

ruleset_applies_to_branch_iff_example :
    (ruleset_applies_to_branch (some RulesetTarget.branch) unset unscoped (release ∷ []) main' main'
      ≡ true)
    ↔ ((some RulesetTarget.branch ≡ some RulesetTarget.branch)
        × ((unset ≡ none) ⊎ (unset ≡ some RulesetEnforcement.active))
        × ((unscoped ≡ []) ⊎ Covered unscoped main' main')
        × (any (λ p. ref_name_matches p main' main') (release ∷ []) ≡ false))
ruleset_applies_to_branch_iff_example =
    ruleset_applies_to_branch_iff (some RulesetTarget.branch) unset unscoped (release ∷ []) main'
      main'
