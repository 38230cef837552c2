-- ===== src/Aggregate/Exclusions.antt =====
-- What the exclusions that a report lists add up to.
use gh_report.Prelude.{
  ℕ, ◌+◌, ◌≡◌, List, [], ◌∷◌, ◌++◌, arith, if◌then◌else◌, ◌==◌, Bool-cases, inl, inr,
}
use gh_report.Metrics.{ScoreExclusionCount, CollectionHealthCheckKind}
use gh_report.Checks.Score.{ExclusionReason}
use gh_report.Aggregate.Coverage.{ExclusionTally, push_count, push_counts}
use gh_report.Aggregate.Population.{CoverageControl}

-- the check kind under which a control's exclusions are listed
abbrev pub kind_of : CoverageControl → CollectionHealthCheckKind
kind_of CoverageControl.security_policy = CollectionHealthCheckKind.security_policy
kind_of CoverageControl.secret_scanning = CollectionHealthCheckKind.secret_scanning
kind_of CoverageControl.dependabot = CollectionHealthCheckKind.dependabot
kind_of CoverageControl.codeowners = CollectionHealthCheckKind.codeowners
kind_of CoverageControl.branch_protection = CollectionHealthCheckKind.branch_protection

abbrev pub rank : CollectionHealthCheckKind → ℕ
rank CollectionHealthCheckKind.branch_protection = 0
rank CollectionHealthCheckKind.secret_scanning = 1
rank CollectionHealthCheckKind.dependabot = 2
rank CollectionHealthCheckKind.codeowners = 3
rank CollectionHealthCheckKind.security_policy = 4
rank CollectionHealthCheckKind.inventory = 5
rank CollectionHealthCheckKind.rulesets = 6

-- how many exclusions are listed under a check kind
abbrev pub listed : CollectionHealthCheckKind → List ScoreExclusionCount → ℕ
listed k [] = 0
listed k (e ∷ es) = (if rank e.check_kind == rank k then e.count else 0) + listed k es

pub listed-append :
    (k : CollectionHealthCheckKind) (xs ys : List ScoreExclusionCount)
    → listed k (xs ++ ys) ≡ listed k xs + listed k ys
listed-append k [] ys = omega arith
listed-append k (x ∷ xs) ys = omega (arith, listed-append k xs ys)

listed-push_count :
    (k j : CollectionHealthCheckKind) (why : ExclusionReason) (n : ℕ)
    (out : List ScoreExclusionCount)
    → listed k (push_count j why n out) ≡ listed k out + (if rank j == rank k then n else 0)
listed-push_count k j why n out =
    ground (arith, listed-append k out (record { check_kind = j; reason = why; count = n } ∷ []))

pub listed-push_counts :
    (k j : CollectionHealthCheckKind) (t : ExclusionTally) (out : List ScoreExclusionCount)
    → listed k (push_counts t j out)
      ≡ listed k out
        + (if rank j == rank k
            then t.permission_denied + t.unknown + t.not_applicable + t.other
            else 0)
unfolding push_counts
listed-push_counts k j t out =
    let step = listed-push_count k j in
    let a = push_count j ExclusionReason.permission_denied t.permission_denied out in
    let b = push_count j ExclusionReason.unknown t.unknown a in
    let c = push_count j ExclusionReason.not_applicable t.not_applicable b in
    let e1 = step ExclusionReason.permission_denied t.permission_denied out in
    let e2 = step ExclusionReason.unknown t.unknown a in
    let e3 = step ExclusionReason.not_applicable t.not_applicable b in
    let e4 = step ExclusionReason.other t.other c in
    elim (Bool-cases (rank j == rank k)) [
      | inl same ↦
          rw same (omega (arith, rw same at e1, rw same at e2, rw same at e3, rw same at e4))
      | inr other ↦
          rw other (omega (arith, rw other at e1, rw other at e2, rw other at e3, rw other at e4))
    ]

-- the exclusions of one control, added up
abbrev pub tally_sum : ExclusionTally → ℕ
tally_sum t = t.permission_denied + t.unknown + t.not_applicable + t.other
