-- ===== src/Scanning/AllClear.antt =====
-- When a repository counts as free of open alerts.
use gh_report.Prelude.{
  ℕ, ◌+◌, ◌%◌, ◌^◌, ◌≡◌, ◌↔◌, inl, inr, refl, sym, ap, ◌∙◌, Bool, true, false, not, Option, List,
  [], ◌∷◌, Text, ltb, arith, any, text_eq, Bool-cases, false≢true, In, In-any, any-In,
}
use mathlib.Core.Path.{subst}
use gh_report.OrderedMap.{OrderedMap}
use gh_report.Repository.{Repository}
use gh_report.Api.{Json}
use gh_report.Client.{RequestRun}
use gh_report.Checks.SecretScanning.{org_summary, observable}
use gh_report.Scanning.{
  Clock, AlertCorrelation, matched, out_of_scope, conflicting, unidentifiable, correlate_alert,
}
use gh_report.Scanning.Collect.{collect_org_alerts}
use gh_report.Scanning.Steps.{is_ambiguous, is_of, count_of}
use gh_report.Scanning.Repositories.{org_probe}
use gh_report.Scanning.Inventory.{inventory, Apart, collision-Apart}
use gh_report.Scanning.AlertKeys.{AlertKey}
use gh_report.Scanning.Correlated.{is_certain, is_owned, Settles, Belongs, alert-Correlates}
use gh_report.Scanning.Accounted.{Complete, observed_iff_counted}

module _ (J : Json) (repositories : List Repository) where
  open J use {Value}

  -- it is certain which repository's the alert is, if any of the inventory's
  abbrev pub Certain : Value → Type 0
  Certain alert = Settles J repositories (AlertKey J alert)

  -- the alert has a key of the repository
  abbrev pub IsOf : Repository → Value → Type 0
  IsOf repo alert = Belongs J repositories (AlertKey J alert) repo

  abbrev pub AllCertain : List Value → Type 0
  AllCertain alerts = (alert : Value) → In alert alerts → Certain alert

  -- so many of the alerts are the repository's
  pub data Tally (repo : Repository) : List Value → ℕ → Type 0 where
    end : Tally repo [] 0
    own :
        {alert : Value} {alerts : List Value} {n : ℕ}
        → IsOf repo alert
        → Tally repo alerts n
        → Tally repo (alert ∷ alerts) (1 + n)
    other :
        {alert : Value} {alerts : List Value} {n : ℕ}
        → (IsOf repo alert → ⊥)
        → Tally repo alerts n
        → Tally repo (alert ∷ alerts) n

  module _ (C : Clock) where
    abbrev scope : OrderedMap Repository
    scope = (inventory repositories).0

    ambiguous_lem :
        (alert : Value)
        → is_ambiguous C J scope alert ≡ not (is_certain J (correlate_alert J scope alert))
    unfolding is_ambiguous is_certain
    ambiguous_lem alert = by_case (correlate_alert J scope alert)
      where
        by_case :
            (c : AlertCorrelation J)
            → (elim c [
              | matched r ↦ false
              | out_of_scope ↦ false
              | conflicting ↦ true
              | unidentifiable ↦ true
            ])
              ≡ not (is_certain J c)
        by_case c = ground arith

    owned_lem :
        (repo : Repository) (alert : Value)
        → is_of C J scope repo alert ≡ is_owned J repo (correlate_alert J scope alert)
    unfolding is_of is_owned
    owned_lem repo alert = by_case (correlate_alert J scope alert)
      where
        by_case :
            (c : AlertCorrelation J)
            → (elim c [
              | matched r ↦ text_eq repo.id r.id
              | out_of_scope ↦ false
              | conflicting ↦ false
              | unidentifiable ↦ false
            ])
              ≡ is_owned J repo c
        by_case (matched r) = refl
        by_case out_of_scope = refl
        by_case conflicting = refl
        by_case unidentifiable = refl

    not-true : (a b : Bool) → a ≡ not b → a ≡ false → b ≡ true
    not-true a b e h = ground arith

    Certain-iff :
        (inventory repositories).1 ≡ false
        → (alert : Value) → (is_ambiguous C J scope alert ≡ false) ↔ Certain alert
    Certain-iff fine alert =
        let known = (alert-Correlates J repositories alert fine).certain in
        (
          λ h. known.0 (not-true _ _ (ambiguous_lem alert) h),
          λ s. ambiguous_lem alert ∙ ap not (known.1 s),
        )

    owned_iff :
        (inventory repositories).1 ≡ false
        → (repo : Repository) (alert : Value) → Certain alert
        → (is_of C J scope repo alert ≡ true) ↔ IsOf repo alert
    owned_iff fine repo alert settled =
        let known = alert-Correlates J repositories alert fine in
        let owned = known.owned repo (known.certain.1 settled) in
        (λ h. owned.0 (sym (owned_lem repo alert) ∙ h), λ b. owned_lem repo alert ∙ owned.1 b)

    AllCertain-iff :
        (inventory repositories).1 ≡ false
        → (alerts : List Value) → (any (is_ambiguous C J scope) alerts ≡ false) ↔ AllCertain alerts
    AllCertain-iff fine alerts = (
      λ h alert i. elim (Bool-cases (is_ambiguous C J scope alert)) [
        | inl doubt ↦ absurd (false≢true (sym h ∙ In-any (is_ambiguous C J scope) i doubt))
        | inr clear ↦ (Certain-iff fine alert).0 clear
      ],
      λ all. elim (Bool-cases (any (is_ambiguous C J scope) alerts)) [
        | inr none ↦ none
        | inl some_doubt ↦
            let (alert, i, doubt) = any-In (is_ambiguous C J scope) alerts some_doubt in
            absurd (false≢true (sym ((Certain-iff fine alert).1 (all alert i)) ∙ doubt))
      ],
    )

    count_of-Tally :
        (inventory repositories).1 ≡ false
        → (repo : Repository) (alerts : List Value) → AllCertain alerts
        → Tally repo alerts (count_of C J scope repo alerts)
    unfolding count_of
    count_of-Tally fine repo [] all = Tally.end
    count_of-Tally fine repo (alert ∷ alerts) all =
        let owned = owned_iff fine repo alert (all alert (In.here refl)) in
        let rest = count_of-Tally fine repo alerts (λ a i. all a (In.there i)) in
        elim (Bool-cases (is_of C J scope repo alert)) [
          | inl mine ↦ rw mine (Tally.own (owned.0 mine) rest)
          | inr theirs ↦
              let same : count_of C J scope repo alerts ≡ 0 + count_of C J scope repo alerts =
                omega arith in
              rw theirs (
                subst (Tally repo (alert ∷ alerts)) same
                  (Tally.other (λ b. false≢true (sym theirs ∙ owned.1 b)) rest))
        ]

    Tally-count_of :
        (inventory repositories).1 ≡ false
        → (repo : Repository) {alerts : List Value} {n : ℕ} → AllCertain alerts
        → Tally repo alerts n
        → n ≡ count_of C J scope repo alerts
    unfolding count_of
    Tally-count_of fine repo all Tally.end = refl
    Tally-count_of fine repo all (Tally.own {alert} mine rest) =
        let is_mine = (owned_iff fine repo alert (all alert (In.here refl))).1 mine in
        let later = Tally-count_of fine repo (λ a i. all a (In.there i)) rest in
        rw is_mine (omega (arith, later))
    Tally-count_of fine repo all (Tally.other {alert} theirs rest) =
        let later = Tally-count_of fine repo (λ a i. all a (In.there i)) rest in
        elim (Bool-cases (is_of C J scope repo alert)) [
          | inl mine ↦
              absurd (theirs ((owned_iff fine repo alert (all alert (In.here refl))).0 mine))
          | inr not_mine ↦ rw not_mine (omega (arith, later))
        ]

    -- From the summary of the organisation's alerts, the alerts of a repository count as observed
    -- exactly when the answer was a complete list, no id or node id stands for two repositories of
    -- the inventory, and each alert names a key, an id or node id that is not empty, and no two of
    -- its keys are those of two repositories; the repository then has open alerts exactly when the
    -- list has one that names a key of its own (counted in 64 bits).
    pub observed_iff_accounted :
        (run : RequestRun Value) (run_timestamp : Text) (repo : Repository) (flag : Bool)
        (code : Option ℕ)
        → (org_probe repo (collect_org_alerts C J run repositories run_timestamp)
            ≡ observable org_summary flag code)
          ↔ ((items : List Value) × Complete C J run code items
              × Apart repositories
              × AllCertain items
              × ((n : ℕ) × Tally repo items n × (flag ≡ ltb 0 (n % 2 ^ 64))))
    observed_iff_accounted run run_timestamp repo flag code =
        let counted = observed_iff_counted C J run repositories run_timestamp repo flag code in
        (
          λ e.
              let (items, complete, fine, certain, flagged) = counted.0 e in
              let all = (AllCertain-iff fine items).0 certain in
              (
                items,
                complete,
                (collision-Apart repositories).0 fine,
                all,
                (count_of C J scope repo items, count_of-Tally fine repo items all, flagged),
              ),
          λ (items, complete, apart, all, (n, tally, flagged)).
              let fine = (collision-Apart repositories).1 apart in
              let same = Tally-count_of fine repo all tally in
              counted.1 (
                items,
                complete,
                fine,
                (AllCertain-iff fine items).1 all,
                flagged ∙ ap (λ m. ltb 0 (m % 2 ^ 64)) same,
              ),
        )
