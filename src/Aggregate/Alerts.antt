-- ===== src/Aggregate/Alerts.antt =====
-- The prevalence of open secret alerts against the counts beside it.
use gh_report.Prelude.{
  ◌+◌, ◌≡◌, refl, min, Bool, true, false, not, ◌&&◌, List, keep, length, arith, if◌then◌else◌, Text,
  text_eq, some, none,
}
use gh_report.Metrics.{u32_max, saturating_add, new_rate, with_extra}
use gh_report.Metrics.Owners.{is_active}
use gh_report.Evidence.{RepositoryEvidence}
use gh_report.Checks.SecretScanning
use gh_report.Aggregate.{aggregate_metrics, coverage_inputs}
use gh_report.Aggregate.Counts.{
  classify_alerts, alerts_default, alert_observable_enabled, count_secret_alert_observability,
  count_alert_observable_enabled, count_as_u32,
}
use gh_report.Aggregate.Coverage.{build_coverage_metrics, open_secret_alert_prevalence}
use gh_report.Aggregate.Tallies.{bit, length-keep, count-add, count-not, count_statuses-get, Counts}

abbrev answers : Bool → RepositoryEvidence → Bool
answers wanted r =
    alert_observable_enabled r && (elim (SecretScanning.has_open_alerts r.checks.secret_scanning) [
      | none ↦ false
      | some b ↦ if wanted then b else not b
    ])

open_counted : Counts classify_alerts (λ c. c.repos_with_open_alerts) (answers true)
unfolding classify_alerts alert_observable_enabled
open_counted r c h = ground arith

clean_counted : Counts classify_alerts (λ c. c.repos_without_open_alerts) (answers false)
unfolding classify_alerts alert_observable_enabled
clean_counted r c h = ground arith

hidden_counted :
    Counts classify_alerts (λ c. c.unobservable) (λ r. not (alert_observable_enabled r))
unfolding classify_alerts alert_observable_enabled
hidden_counted r c h = ground arith

answers_bits :
    (r : RepositoryEvidence)
    → bit (answers true r) + bit (answers false r) ≡ bit (alert_observable_enabled r)
unfolding alert_observable_enabled
answers_bits r = ground arith

-- The prevalence of open alerts is a share: its numerator and the repositories without open alerts
-- add up to its denominator, and with the unobservable ones to all active repositories. Each
-- counter stops at the 32-bit bound.
pub prevalence_partition :
    (to_lowercase : Text → Text) (repositories : List RepositoryEvidence)
    → (let m = aggregate_metrics to_lowercase repositories in
        let rate = m.open_secret_alert_prevalence in
        let counts = m.secret_alert_counts in
        (saturating_add rate.numerator counts.repos_without_open_alerts ≡ rate.denominator)
        × (saturating_add rate.denominator counts.unobservable
            ≡ min u32_max (length (keep is_active repositories))))
unfolding aggregate_metrics coverage_inputs build_coverage_metrics open_secret_alert_prevalence
    new_rate with_extra count_as_u32 count_secret_alert_observability count_alert_observable_enabled
    text_eq
prevalence_partition lower repos =
    let active = keep is_active repos in
    let opens =
      count_statuses-get classify_alerts (λ c. c.repos_with_open_alerts) _ open_counted active
        alerts_default refl in
    let cleans =
      count_statuses-get classify_alerts (λ c. c.repos_without_open_alerts) _ clean_counted active
        alerts_default refl in
    let hidden =
      count_statuses-get classify_alerts (λ c. c.unobservable) _ hidden_counted active
        alerts_default refl in
    let kept = length-keep alert_observable_enabled active in
    (
      omega (
        arith,
        opens,
        cleans,
        kept,
        count-add (answers true) (answers false) alert_observable_enabled answers_bits active,
      ),
      omega (arith, hidden, kept, count-not alert_observable_enabled active),
    )
