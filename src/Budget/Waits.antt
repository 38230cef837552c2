-- ===== src/Budget/Waits.antt =====
-- How long an exhausted budget waits, and the size of the next one.
use gh_report.Prelude.{
  ℕ, ◌+◌, ◌-◌, ◌≤◌, ◌<◌, ◌≡◌, ◌⊎◌, inl, inr, refl, Option, none, some, arith, leb, ltb, Bool-cases,
}
use gh_report.Budget.{
  wait, wait_for_reset, api_budget_wait_secs, max_plausible_reset_secs, reset_slack_secs,
  ceiling_from_entitlement, ceiling_buffer, ceiling_floor,
}

-- A reported reset is honoured exactly when it lies ahead by at most a day; the wait then ends five
-- seconds after it. Every other report waits the fallback hour.
pub wait_for_reset_lem :
    (reset : Option ℕ) (now : ℕ)
    → ((t : ℕ) × (reset ≡ some t)
        × (now < t)
        × (t ≤ now + max_plausible_reset_secs)
        × (now + wait (wait_for_reset reset now) ≡ t + reset_slack_secs))
      ⊎ (((reset ≡ none)
            ⊎ ((t : ℕ) × (reset ≡ some t) × ((t ≤ now) ⊎ (now + max_plausible_reset_secs < t))))
          × (wait (wait_for_reset reset now) ≡ api_budget_wait_secs))
unfolding wait wait_for_reset
wait_for_reset_lem none now = inr (inl refl, refl)
wait_for_reset_lem (some t) now = elim (Bool-cases (leb t now)) [
  | inl e ↦ rw e (inr (inr (t, refl, inl (ground arith)), refl))
  | inr e ↦ elim (Bool-cases (ltb max_plausible_reset_secs (t - now))) [
    | inl d ↦ rw (e, d) (inr (inr (t, refl, inr (ground arith)), refl))
    | inr d ↦ rw (e, d) (inl (t, refl, ground arith, ground arith, ground arith))
  ]
]

-- The next ceiling is never zero. It leaves a buffer of a hundred calls of an entitlement that is
-- larger, and is ten where the entitlement is not, even where the entitlement is smaller than that.
pub ceiling_from_entitlement_lem :
    (entitlement : ℕ)
    → (0 < ceiling_from_entitlement entitlement)
      × (((ceiling_buffer < entitlement)
            × (ceiling_from_entitlement entitlement + ceiling_buffer ≡ entitlement))
          ⊎ ((entitlement ≤ ceiling_buffer)
              × (ceiling_from_entitlement entitlement ≡ ceiling_floor)))
unfolding ceiling_from_entitlement
ceiling_from_entitlement_lem entitlement = (ground arith, ground arith)
