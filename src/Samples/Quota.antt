-- ===== src/Samples/Quota.antt =====
-- The theorems on the budget, on single readings and a short run.
use gh_report.Prelude.{ℕ, ◌≤◌, Option, some, List, [], ◌∷◌, length}
use gh_report.Budget.{max_checkpoints_per_run}
use gh_report.Budget.Milestones.{Attempt, interleave, Consecutive, milestones_bounded}

abbrev report : Option ℕ
report = some 4600

-- two threads that load the same cursor
abbrev race : List Attempt
race =
    (record { calls = 300; ceiling = 1000; seen = 0 })
    ∷ (record { calls = 301; ceiling = 1000; seen = 0 })
    ∷ []

milestones_bounded_example :
    Consecutive 0 (interleave 0 race).0 (interleave 0 race).1
    × (length (interleave 0 race).0 ≤ max_checkpoints_per_run)
milestones_bounded_example = milestones_bounded race
