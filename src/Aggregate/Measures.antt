-- ===== src/Aggregate/Measures.antt =====
-- What a control's coverage rate says of its population, and how each check's counters read it.
use gh_report.Prelude.{
  ℕ, ◌+◌, ◌≡◌, min, Bool, true, false, not, List, [], ◌∷◌, arith, if◌then◌else◌, ltb, ◌==◌, Text,
}
use gh_report.Metrics.{u32_max, saturating_add, RateMetric, new_rate, with_extra}
use gh_report.Evidence.{RepositoryEvidence}
use gh_report.Aggregate.Counts.{
  count_statuses, classify_policy, classify_scanning, classify_dependabot, classify_branch,
  classify_codeowners,
}
use gh_report.Aggregate.Coverage.{
  ExclusionTally, has_measurement_failure, coverage_metric, with_extras, classify_branch_exclusion,
}
use gh_report.Aggregate.Population.{
  CoverageControl, DenominatorMembership, eligible, excluded, met, unmet, classify, is_met,
  is_eligible,
}
use gh_report.Aggregate.Tallies.{bit, count, count_statuses-get, Counts}

abbrev pub is_unmet : DenominatorMembership → Bool
is_unmet (eligible met) = false
is_unmet (eligible unmet) = true
is_unmet (excluded r) = false

abbrev is_excluded : DenominatorMembership → Bool
is_excluded m = not (is_eligible m)

-- what a control's rate says of its population
pub record Measures (m : RateMetric) (a b e : ℕ) : Type 0 where
  pub numerator_lem : m.numerator ≡ min u32_max a
  pub denominator_lem :
      m.denominator ≡ (if a + b + e == 0 then 0 else if a + b == 0 then 1 else min u32_max (a + b))

pub coverage_metric-Measures :
    (p f : ℕ) (t : ExclusionTally) (a b e : ℕ)
    → p ≡ min u32_max a
    → f ≡ min u32_max b
    → has_measurement_failure t ≡ ltb 0 e
    → Measures (coverage_metric p f t) a b e
unfolding coverage_metric new_rate
coverage_metric-Measures p f t a b e hp hf ht = record {
  numerator_lem = ground arith;
  denominator_lem = ground arith;
}

with_extra-Measures :
    (key : Text) (v : ℕ) (m : RateMetric) (a b e : ℕ)
    → Measures m a b e
    → Measures (with_extra key v m) a b e
unfolding with_extra
with_extra-Measures key v m a b e h = record {
  numerator_lem = ground (arith, h.numerator_lem);
  denominator_lem = ground (arith, h.denominator_lem);
}

with_extras-Measures :
    (l : List (Text × ℕ)) (m : RateMetric) (a b e : ℕ)
    → Measures m a b e
    → Measures (with_extras l m) a b e
with_extras-Measures [] m a b e h = h
with_extras-Measures ((key, v) ∷ l) m a b e h =
    with_extras-Measures l (with_extra key v m) a b e (with_extra-Measures key v m a b e h)

-- the three numbers of a control over a population
abbrev pub mets : CoverageControl → List RepositoryEvidence → ℕ
mets c = count (λ r. is_met (classify c r))

abbrev pub unmets : CoverageControl → List RepositoryEvidence → ℕ
unmets c = count (λ r. is_unmet (classify c r))

abbrev pub excludeds : CoverageControl → List RepositoryEvidence → ℕ
excludeds c = count (λ r. is_excluded (classify c r))

-- a rate that measures a control over a population
abbrev pub MeasuresControl : RateMetric → CoverageControl → List RepositoryEvidence → Type 0
MeasuresControl m c repos = Measures m (mets c repos) (unmets c repos) (excludeds c repos)

pub membership_bits :
    (m : DenominatorMembership) → bit (is_met m) + bit (is_unmet m) ≡ bit (is_eligible m)
membership_bits m = ground arith

-- a control whose counts `pass` and `fail` are read off one record of counters
module _ {T : Type 0} (classify_one : RepositoryEvidence → T → T) (start : T) (c : CoverageControl)
    (pass fail : T → ℕ) (passes : Counts classify_one pass (λ r. is_met (classify c r)))
    (fails : Counts classify_one fail (λ r. is_unmet (classify c r))) where
  pub control-Measures :
      (repos : List RepositoryEvidence) (l : List (Text × ℕ)) (t : ExclusionTally)
      → pass start ≡ 0
      → fail start ≡ 0
      → has_measurement_failure t ≡ ltb 0 (excludeds c repos)
      → (let counts = count_statuses classify_one start repos in
          MeasuresControl (with_extras l (coverage_metric (pass counts) (fail counts) t)) c repos)
  control-Measures repos l t p0 f0 h =
      let counts = count_statuses classify_one start repos in
      with_extras-Measures l (coverage_metric (pass counts) (fail counts) t) _ _ _ (
        coverage_metric-Measures (pass counts) (fail counts) t _ _ _
          (count_statuses-get classify_one pass (λ r. is_met (classify c r)) passes repos start p0)
          (count_statuses-get classify_one fail (λ r. is_unmet (classify c r)) fails repos start f0)
          h)

pub failure_of :
    (t : ExclusionTally) (n e : ℕ)
    → n ≡ min u32_max e
    → has_measurement_failure t ≡ ltb 0 n
    → has_measurement_failure t ≡ ltb 0 e
failure_of t n e h k = ground arith

pub policy_passes :
    Counts classify_policy
      (λ c. saturating_add c.via_setting c.via_file)
      (λ r. is_met (classify CoverageControl.security_policy r))
unfolding classify_policy classify
policy_passes r c h = ground arith

pub policy_fails :
    Counts classify_policy
      (λ c. c.missing)
      (λ r. is_unmet (classify CoverageControl.security_policy r))
unfolding classify_policy classify
policy_fails r c h = ground arith

pub policy_unmeasured :
    Counts classify_policy
      (λ c. c.unknown)
      (λ r. is_excluded (classify CoverageControl.security_policy r))
unfolding classify_policy classify
policy_unmeasured r c h = ground arith

pub scanning_passes :
    Counts classify_scanning
      (λ c. c.enabled)
      (λ r. is_met (classify CoverageControl.secret_scanning r))
unfolding classify_scanning classify
scanning_passes r c h = ground arith

pub scanning_fails :
    Counts classify_scanning
      (λ c. c.disabled)
      (λ r. is_unmet (classify CoverageControl.secret_scanning r))
unfolding classify_scanning classify
scanning_fails r c h = ground arith

pub scanning_unmeasured :
    Counts classify_scanning
      (λ c. saturating_add c.permission_denied c.unknown)
      (λ r. is_excluded (classify CoverageControl.secret_scanning r))
unfolding classify_scanning classify
scanning_unmeasured r c h = ground arith

pub dependabot_passes :
    Counts classify_dependabot
      (λ c. c.enabled)
      (λ r. is_met (classify CoverageControl.dependabot r))
unfolding classify
dependabot_passes r c h = ground arith

pub dependabot_fails :
    Counts classify_dependabot
      (λ c. saturating_add c.paused c.disabled)
      (λ r. is_unmet (classify CoverageControl.dependabot r))
unfolding classify
dependabot_fails r c h = ground arith

pub dependabot_unmeasured :
    Counts classify_dependabot
      (λ c. c.unknown)
      (λ r. is_excluded (classify CoverageControl.dependabot r))
unfolding classify
dependabot_unmeasured r c h = ground arith

pub branch_passes :
    Counts classify_branch
      (λ c. c.pass)
      (λ r. is_met (classify CoverageControl.branch_protection r))
unfolding classify
branch_passes r c h = ground arith

pub branch_fails :
    Counts classify_branch
      (λ c. c.fail)
      (λ r. is_unmet (classify CoverageControl.branch_protection r))
unfolding classify
branch_fails r c h = ground arith

pub codeowners_passes :
    Counts classify_codeowners
      (λ c. saturating_add c.conforming c.non_conforming)
      (λ r. is_met (classify CoverageControl.codeowners r))
unfolding classify_codeowners classify
codeowners_passes r c h = ground arith

pub codeowners_fails :
    Counts classify_codeowners
      (λ c. c.absent)
      (λ r. is_unmet (classify CoverageControl.codeowners r))
unfolding classify_codeowners classify
codeowners_fails r c h = ground arith

pub codeowners_unmeasured :
    Counts classify_codeowners
      (λ c. c.unknown)
      (λ r. is_excluded (classify CoverageControl.codeowners r))
unfolding classify_codeowners classify
codeowners_unmeasured r c h = ground arith

pub branch_unmeasured :
    Counts classify_branch_exclusion
      (λ c. saturating_add c.permission_denied (saturating_add c.unknown c.other))
      (λ r. is_excluded (classify CoverageControl.branch_protection r))
unfolding classify_branch_exclusion classify
branch_unmeasured r c h = ground arith
