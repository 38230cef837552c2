-- ===== src/Samples/Results.antt =====
-- The theorems on the check results, on single results.
use gh_report.Prelude.{◌≡◌, ◌↔◌, refl, true, false, none, some, List, [], ◌∷◌, codes}
use gh_report.Samples.{now, denied_scanning, settled}
use gh_report.Checks.{RepositoryChecks}
use gh_report.Checks.BranchProtection
use gh_report.Checks.History.{HistorySignals, merge, merge_loop, merge_optional_blocking_signal}
use gh_report.Checks.Merging.{Blocked, merged_protected}

abbrev legacy_source : HistorySignals
legacy_source = record { force_push_blocked = some true; deletion_blocked = none }

abbrev ruleset_source : HistorySignals
ruleset_source = record { force_push_blocked = some false; deletion_blocked = some true }

abbrev sources : List HistorySignals
sources = legacy_source ∷ ruleset_source ∷ []

abbrev both_blocked : HistorySignals
both_blocked = record { force_push_blocked = some true; deletion_blocked = some true }

sources-merge : merge sources ≡ some both_blocked
unfolding merge merge_optional_blocking_signal merge_loop
sources-merge = refl

merged_protected_example :
    (BranchProtection.is_protected
        (BranchProtection.from_history_signals (codes "main") (some true) (some true) now)
      ≡ true)
    ↔ (Blocked (λ s. s.force_push_blocked) sources × Blocked (λ s. s.deletion_blocked) sources)
merged_protected_example = merged_protected sources both_blocked (codes "main") now sources-merge

abbrev checks : RepositoryChecks
checks = settled denied_scanning
