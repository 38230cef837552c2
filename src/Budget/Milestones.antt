-- ===== src/Budget/Milestones.antt =====
-- The milestones of one run, under every interleaving of the threads that record calls.
use gh_report.Prelude.{
  ℕ, zero, suc, ◌+◌, ◌-◌, ◌≤◌, ◌<◌, ◌≡◌, ◌≢◌, ◌↔◌, ◌⊎◌, inl, inr, refl, sym, is_some, false≢true,
  ◌∙◌, ==_iff, true, none, some, List, [], ◌∷◌, arith, Option-cases, Bool-cases, ltb, ◌==◌,
  if◌then◌else◌, length,
}
use mathlib.Core.Option.{some-injective}
use gh_report.Budget.{
  Route, BudgetCheckpoints, record_call, Round, finished, emitted, again, cursor_round, nth,
  thresholds, max_checkpoints_per_run, threshold_calls,
}

-- the calls, the ceiling and the cursor that one round of some thread works with
pub record Attempt : Type 0 where
  pub calls : ℕ
  pub ceiling : ℕ
  pub seen : ℕ

abbrev pub noted : Round → ℕ → List ℕ → List ℕ
noted emitted seen cursors = seen ∷ cursors
noted finished seen cursors = cursors
noted again seen cursors = cursors

-- the rounds of all threads, in the order of their compare-exchanges: the cursors that emitted, and
-- the cursor that is left
unfoldable pub interleave : ℕ → List Attempt → List ℕ × ℕ
interleave cursor [] = ([], cursor)
interleave cursor (a ∷ attempts) =
    let (round, cursor') = cursor_round a.calls a.ceiling a.seen cursor in
    let (cursors, last) = interleave cursor' attempts in (noted round a.seen cursors, last)

-- consecutive numbers from the first argument up to the second
abbrev pub Consecutive : ℕ → List ℕ → ℕ → Type 0
Consecutive from [] to = from ≡ to
Consecutive from (x ∷ xs) to = (x ≡ from) × Consecutive (from + 1) xs to

nth_bound : (xs : List ℕ) (i x : ℕ) → nth xs i ≡ some x → i < length xs
nth_bound [] i x h = ground arith
nth_bound (y ∷ xs) zero x h = ground arith
nth_bound (y ∷ xs) (suc i) x h = ground (arith, nth_bound xs i x h)

round_past :
    (calls ceiling seen cursor : ℕ)
    → nth thresholds seen ≡ none
    → cursor_round calls ceiling seen cursor ≡ (finished, cursor)
unfolding cursor_round
round_past calls ceiling seen cursor e = ground arith

round_within :
    (calls ceiling seen cursor permille : ℕ)
    → nth thresholds seen ≡ some permille
    → cursor_round calls ceiling seen cursor ≡ (
        if ltb calls (threshold_calls ceiling permille)
        then (finished, cursor)
        else if cursor == seen
        then (emitted, seen + 1)
        else (again, cursor))
unfolding cursor_round
round_within calls ceiling seen cursor permille e = ground arith

-- what a round does to the cursor
round_cases :
    (calls ceiling seen cursor : ℕ)
    → ((cursor_round calls ceiling seen cursor ≡ (emitted, cursor + 1))
        × (seen ≡ cursor)
        × (cursor < max_checkpoints_per_run))
      ⊎ (cursor_round calls ceiling seen cursor ≡ (finished, cursor))
      ⊎ (cursor_round calls ceiling seen cursor ≡ (again, cursor))
round_cases calls ceiling seen cursor = elim (Option-cases (nth thresholds seen)) [
  | inl e ↦ inr (inl (round_past calls ceiling seen cursor e))
  | inr (permille, e) ↦
      let within = round_within calls ceiling seen cursor permille e in
      elim (Bool-cases (ltb calls (threshold_calls ceiling permille))) [
        | inl l ↦ inr (inl (within ∙ rw l refl))
        | inr l ↦ elim (Bool-cases (cursor == seen)) [
          | inr d ↦ inr (inr (within ∙ rw (l, d) refl))
          | inl d ↦
              let same : cursor ≡ seen = (==_iff cursor seen).0 d in
              let bound = nth_bound thresholds seen permille e in
              inl (within ∙ rw (l, d) (rw same refl), sym same, rw same bound)
        ]
      ]
]

interleave_lem :
    (cursor : ℕ) (attempts : List Attempt)
    → cursor ≤ max_checkpoints_per_run
    → Consecutive cursor (interleave cursor attempts).0 (interleave cursor attempts).1
      × ((interleave cursor attempts).1 ≤ max_checkpoints_per_run)
unfolding interleave
interleave_lem cursor [] h = (refl, h)
interleave_lem cursor (a ∷ attempts) h = elim (round_cases a.calls a.ceiling a.seen cursor) [
  | inl (e, s, b) ↦
      let (c, m) = interleave_lem (cursor + 1) attempts (omega (arith, b)) in rw e ((s, c), m)
  | inr (inl e) ↦ rw e (interleave_lem cursor attempts h)
  | inr (inr e) ↦ rw e (interleave_lem cursor attempts h)
]

length-Consecutive :
    (from : ℕ) (xs : List ℕ) (to : ℕ) → Consecutive from xs to → from + length xs ≡ to
length-Consecutive from [] to h = omega (arith, h)
length-Consecutive from (x ∷ xs) to (e, h) = omega (arith, length-Consecutive (from + 1) xs to h)

-- However the rounds of the threads interleave, and whatever calls, ceilings and stale cursors they
-- work with, a run emits its milestones in order, each threshold at most once, and at most eight in
-- all.
pub milestones_bounded :
    (attempts : List Attempt)
    → Consecutive 0 (interleave 0 attempts).0 (interleave 0 attempts).1
      × (length (interleave 0 attempts).0 ≤ max_checkpoints_per_run)
milestones_bounded attempts =
    let (c, m) = interleave_lem 0 attempts (omega arith) in
    (
      c,
      omega (arith, m, length-Consecutive 0 (interleave 0 attempts).0 (interleave 0 attempts).1 c),
    )

-- a threshold is left, and the calls have reached it
abbrev pub Reached : ℕ → ℕ → ℕ → Type 0
Reached cursor ceiling calls =
    (permille : ℕ) × (nth thresholds cursor ≡ some permille)
    × (threshold_calls ceiling permille ≤ calls)

past_unreached : (p : ℕ) → none ≢ some p
past_unreached p = ground arith

below_unreached : (calls t : ℕ) → ltb calls t ≡ true → t ≤ calls → ⊥
below_unreached calls t l r = ground arith

alone_Reached :
    (calls ceiling cursor : ℕ)
    → ((cursor_round calls ceiling cursor cursor ≡ (emitted, cursor + 1))
        × Reached cursor ceiling calls)
      ⊎ ((cursor_round calls ceiling cursor cursor ≡ (finished, cursor))
          × (Reached cursor ceiling calls → ⊥))
alone_Reached calls ceiling cursor = elim (Option-cases (nth thresholds cursor)) [
  | inl e ↦
      inr (round_past calls ceiling cursor cursor e, λ (p, q, r). past_unreached p (sym e ∙ q))
  | inr (permille, e) ↦
      let within = round_within calls ceiling cursor cursor permille e in
      elim (Bool-cases (ltb calls (threshold_calls ceiling permille))) [
        | inl l ↦ inr (
          within ∙ rw l refl,
          λ (p, q, r).
              below_unreached calls (threshold_calls ceiling permille) l
                (rw (some-injective permille p (sym e ∙ q)) r),
        )
        | inr l ↦
            inl (within ∙ rw (l, (==_iff cursor cursor).1 refl) refl, (permille, e, ground arith))
      ]
]

-- Where no other thread interferes, a call is a milestone exactly when a threshold is left and the
-- calls of this run alone, those after its baseline, have reached it.
pub record_call_iff_Reached :
    (tracker : BudgetCheckpoints) (route : Route) (total ceiling : ℕ)
    → (is_some (record_call tracker route total ceiling).0 ≡ true)
      ↔ Reached tracker.next_threshold ceiling (total - tracker.baseline_calls)
unfolding record_call
record_call_iff_Reached tracker route total ceiling =
    elim (alone_Reached (total - tracker.baseline_calls) ceiling tracker.next_threshold) [
      | inl (e, r) ↦ rw e ((λ h. r), λ h. refl)
      | inr (e, n) ↦ rw e ((λ h. absurd (false≢true h)), λ h. absurd (n h))
    ]
