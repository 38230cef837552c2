-- ===== src/Checks/Merging.antt =====
-- What `merge` and `from_history_signals` conclude from several sources.
use gh_report.Prelude.{
  ◌≡◌, ◌↔◌, refl, Bool, true, false, Option, none, some, List, [], ◌∷◌, ◌||◌, arith, any,
  if◌then◌else◌, Text, is_empty,
}
use gh_report.Checks.History.{HistorySignals, merge_loop, merge_optional_blocking_signal, merge}
use gh_report.Checks.BranchProtection.{is_protected, from_history_signals}

abbrev pub says : Bool → Option Bool → Bool
says true (some true) = true
says false (some false) = true
says _ _ = false

-- any block is definitive, and any observed unblock comes before an unobserved signal
abbrev pub verdict : (HistorySignals → Option Bool) → List HistorySignals → Option Bool
verdict select signals =
    if any (λ s. says true (select s)) signals
    then some true
    else if any (λ s. says false (select s)) signals
    then some false
    else none

merge_loop-verdict :
    (select : HistorySignals → Option Bool) (signals : List HistorySignals) (saw : Bool)
    → merge_loop select signals saw ≡ (
        if any (λ s. says true (select s)) signals
        then some true
        else if saw || any (λ s. says false (select s)) signals
        then some false
        else none)
unfolding merge_loop
merge_loop-verdict select [] saw = ground arith
merge_loop-verdict select (s ∷ signals) saw =
    ground (arith, merge_loop-verdict select signals true, merge_loop-verdict select signals saw)

optional-verdict :
    (select : HistorySignals → Option Bool) (signals : List HistorySignals)
    → merge_optional_blocking_signal signals select ≡ verdict select signals
unfolding merge_optional_blocking_signal
optional-verdict select signals = merge_loop-verdict select signals false

abbrev pub merged : List HistorySignals → HistorySignals
merged signals = record {
  force_push_blocked = verdict (λ s. s.force_push_blocked) signals;
  deletion_blocked = verdict (λ s. s.deletion_blocked) signals;
}

-- Several sources are merged, for each of the two signals, into the verdict that any block decides
-- and that an observed unblock decides otherwise; no source at all merges into nothing.
pub merge-verdict :
    (signals : List HistorySignals)
    → merge signals ≡ (if is_empty signals then none else some (merged signals))
unfolding merge
merge-verdict [] = refl
merge-verdict (s ∷ signals) =
    let f = optional-verdict (λ x. x.force_push_blocked) (s ∷ signals) in
    let d = optional-verdict (λ x. x.deletion_blocked) (s ∷ signals) in
    λ i. some (record { force_push_blocked = f i; deletion_blocked = d i })

-- some source says that the signal is blocked
abbrev pub Blocked : (HistorySignals → Option Bool) → List HistorySignals → Type 0
Blocked select signals = any (λ s. says true (select s)) signals ≡ true

-- The branch counts as protected exactly when some source blocks force pushes and some source, the
-- same or another, blocks deletions: an unreadable signal never counts as a block.
pub merged_protected :
    (signals : List HistorySignals) (m : HistorySignals) (branch timestamp : Text)
    → merge signals ≡ some m
    → (is_protected (from_history_signals branch m.force_push_blocked m.deletion_blocked timestamp)
        ≡ true)
      ↔ (Blocked (λ s. s.force_push_blocked) signals × Blocked (λ s. s.deletion_blocked) signals)
unfolding is_protected from_history_signals
merged_protected [] m branch timestamp e = absurd (ne e)
  where
    ne : merge [] ≡ some m → ⊥
    ne h = unfold merge in cc h
merged_protected (s ∷ signals) m branch timestamp e =
    let em : merged (s ∷ signals) ≡ m = cc (merge-verdict (s ∷ signals), e) in
    rw (← em) (ground arith, ground arith)
