-- ===== src/BranchRules/Payloads.antt =====
-- What the payloads of the two endpoints say of the signals.
use gh_report.Prelude.{
  ◌≡◌, inl, inr, Bool, true, false, Option, none, some, List, [], ◌∷◌, Text, codes, text_eq, ◌∙◌,
  arith, any, if◌then◌else◌, ◌||◌, ◌>>=◌, Option-cases,
}
use gh_report.Api.{Json}
use gh_report.BranchRules.{rule_type, scan_rules, summarize_ruleset}

blocked_or : (t a : Bool) → (if t then some true else some a) ≡ some (a || t)
blocked_or t a = ground arith

or_assoc : (a b c : Bool) → (a || b) || c ≡ a || (b || c)
or_assoc a b c = ground arith

module _ (J : Json) where
  open J use {Value, get, as_array, as_str, as_bool}

  -- some rule of the list is of the given type
  abbrev pub has_rule : Text → List Value → Bool
  has_rule kind rules = any (λ rule. text_eq (rule_type J rule) kind) rules

  -- a signal that starts as allowed or blocked, and is blocked by a rule of its type
  scan_rules_lem :
      (rules : List Value) (a b : Bool)
      → scan_rules J rules (record { force_push_blocked = some a; deletion_blocked = some b })
        ≡ record {
          force_push_blocked = some (a || has_rule (codes "non_fast_forward") rules);
          deletion_blocked = some (b || has_rule (codes "deletion") rules);
        }
  unfolding scan_rules
  scan_rules_lem [] a b = ground arith
  scan_rules_lem (rule ∷ rules) a b =
      rw
        (
          blocked_or (text_eq (rule_type J rule) (codes "non_fast_forward")) a,
          blocked_or (text_eq (rule_type J rule) (codes "deletion")) b,
        )
        (scan_rules_lem rules (a || text_eq (rule_type J rule) (codes "non_fast_forward"))
            (b || text_eq (rule_type J rule) (codes "deletion"))
          ∙ (λ i. record {
            force_push_blocked = some (
                or_assoc a (text_eq (rule_type J rule) (codes "non_fast_forward"))
                  (has_rule (codes "non_fast_forward") rules) i);
            deletion_blocked = some (
                or_assoc b (text_eq (rule_type J rule) (codes "deletion"))
                  (has_rule (codes "deletion") rules) i);
          }))

  unfoldable pub listed_rules : Value → Option (List Value)
  listed_rules entry = do r ← get entry (codes "rules"); as_array r

  summarize_listed :
      (entry : Value) (rules : List Value)
      → listed_rules entry ≡ some rules
      → summarize_ruleset J entry
        ≡ scan_rules J rules
            (record { force_push_blocked = some false; deletion_blocked = some false })
  unfolding summarize_ruleset listed_rules
  summarize_listed entry rules e = ground arith

  summarize_unlisted :
      (entry : Value)
      → listed_rules entry ≡ none
      → summarize_ruleset J entry
        ≡ record { force_push_blocked = some false; deletion_blocked = some false }
  unfolding summarize_ruleset listed_rules
  summarize_unlisted entry e = ground arith

  abbrev pub or_none : Option (List Value) → List Value
  or_none none = []
  or_none (some rules) = rules

  -- A ruleset's summary answers both signals: force pushes are blocked exactly when it has a
  -- `non_fast_forward` rule, deletions exactly when it has a `deletion` rule, and a ruleset without
  -- a readable list of rules blocks neither.
  pub summarize_ruleset_lem :
      (entry : Value)
      → summarize_ruleset J entry ≡ record {
        force_push_blocked =
            some (has_rule (codes "non_fast_forward") (or_none (listed_rules entry)));
        deletion_blocked = some (has_rule (codes "deletion") (or_none (listed_rules entry)));
      }
  summarize_ruleset_lem entry = elim (Option-cases (listed_rules entry)) [
    | inl e ↦ rw (e) (summarize_unlisted entry e)
    | inr (rules, e) ↦ rw (e) (summarize_listed entry rules e ∙ scan_rules_lem rules false false)
  ]
