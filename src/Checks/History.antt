-- ===== src/Checks/History.antt =====
-- domain/checks.rs: `HistorySignals` and how several sources are merged.
use gh_report.Prelude.{Bool, true, false, Option, none, some, List, [], ◌∷◌, if◌then◌else◌}

pub record HistorySignals : Type 0 where
  pub force_push_blocked : Option Bool
  pub deletion_blocked : Option Bool

-- the loop over the signals, with its flag `saw_unblocked`
unfoldable pub merge_loop :
    (HistorySignals → Option Bool) → List HistorySignals → Bool → Option Bool
merge_loop select [] saw_unblocked = if saw_unblocked then some false else none
merge_loop select (signal ∷ signals) saw_unblocked = elim (select signal) [
  | some blocked ↦ elim blocked [ true ↦ some true | false ↦ merge_loop select signals true ]
  | none ↦ merge_loop select signals saw_unblocked
]

unfoldable pub merge_optional_blocking_signal :
    List HistorySignals → (HistorySignals → Option Bool) → Option Bool
unfolding merge_loop
merge_optional_blocking_signal signals select = merge_loop select signals false

unfoldable pub merge : List HistorySignals → Option HistorySignals
unfolding merge_optional_blocking_signal
merge [] = none
merge (s ∷ signals) = some (record {
  force_push_blocked = merge_optional_blocking_signal (s ∷ signals) (λ x. x.force_push_blocked);
  deletion_blocked = merge_optional_blocking_signal (s ∷ signals) (λ x. x.deletion_blocked);
})
