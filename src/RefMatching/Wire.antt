-- ===== src/RefMatching/Wire.antt =====
-- The wire words of `RulesetTarget` and `RulesetEnforcement`.
use gh_report.Prelude.{◌≡◌, ◌↔◌, refl, some, Text, codes, text_eq, text_eq_iff, arith}
use gh_report.RefMatching.{
  RulesetTarget, branch, tag, push, parse_target, display_target, RulesetEnforcement, disabled,
  active, evaluate, parse_enforcement, display_enforcement,
}

parse_target-display_target : (t : RulesetTarget) → parse_target (display_target t) ≡ some t
unfolding text_eq
parse_target-display_target branch = refl
parse_target-display_target tag = refl
parse_target-display_target push = refl

parse_enforcement-display_enforcement :
    (t : RulesetEnforcement) → parse_enforcement (display_enforcement t) ≡ some t
unfolding text_eq
parse_enforcement-display_enforcement disabled = refl
parse_enforcement-display_enforcement active = refl
parse_enforcement-display_enforcement evaluate = refl

display_target_of_parse :
    (v : Text) (t : RulesetTarget) → parse_target v ≡ some t → v ≡ display_target t
display_target_of_parse v t h = ground (
  arith,
  text_eq_iff v (codes "branch"),
  text_eq_iff v (codes "tag"),
  text_eq_iff v (codes "push"),
)

display_enforcement_of_parse :
    (v : Text) (t : RulesetEnforcement) → parse_enforcement v ≡ some t → v ≡ display_enforcement t
display_enforcement_of_parse v t h = ground (
  arith,
  text_eq_iff v (codes "disabled"),
  text_eq_iff v (codes "active"),
  text_eq_iff v (codes "evaluate"),
)

-- A wire word is read as a target exactly when it is the word that the target is displayed as, and
-- likewise for an enforcement: every other text is rejected.
pub wire_words :
    (v : Text) (t : RulesetTarget) (e : RulesetEnforcement)
    → ((parse_target v ≡ some t) ↔ (v ≡ display_target t))
      × ((parse_enforcement v ≡ some e) ↔ (v ≡ display_enforcement e))
wire_words v t e = (
  (display_target_of_parse v t, λ h. rw h (parse_target-display_target t)),
  (display_enforcement_of_parse v e, λ h. rw h (parse_enforcement-display_enforcement e)),
)
