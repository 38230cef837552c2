-- ===== src/RefMatching/Rulesets.antt =====
-- `ruleset_applies_to_branch`.
use gh_report.Prelude.{
  ◌≡◌, ◌↔◌, ◌⊎◌, true, false, Option, none, some, List, [], ◌∷◌, Text, arith, any,
}
use gh_report.RefMatching.Names.{ref_name_matches_reserved}
use gh_report.RefMatching.{
  RulesetTarget, branch, RulesetEnforcement, active, ref_name_matches, ruleset_applies_to_branch,
}

-- some pattern of the list covers the branch
abbrev pub Covered : List Text → Text → Text → Type 0
Covered ps b d = any (λ p. ref_name_matches p b d) ps ≡ true

-- A ruleset applies exactly when it targets branches, is active (a missing or unknown enforcement
-- counts as active), is scoped to the branch by an include (no include at all scopes it to every
-- branch), and no exclude covers the branch.
pub ruleset_applies_to_branch_iff :
    (target : Option RulesetTarget) (enforcement : Option RulesetEnforcement)
    (include exclude : List Text) (b d : Text)
    → (ruleset_applies_to_branch target enforcement include exclude b d ≡ true) ↔ (
        (target ≡ some branch)
        × ((enforcement ≡ none) ⊎ (enforcement ≡ some active))
        × ((include ≡ []) ⊎ Covered include b d)
        × (any (λ p. ref_name_matches p b d) exclude ≡ false))
unfolding ruleset_applies_to_branch
ruleset_applies_to_branch_iff target enforcement [] exclude b d =
    let every = (ref_name_matches_reserved b d).0 in (ground arith, ground arith)
ruleset_applies_to_branch_iff target enforcement (p ∷ ps) exclude b d = (ground arith, ground arith)
