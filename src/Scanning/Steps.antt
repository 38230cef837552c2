-- ===== src/Scanning/Steps.antt =====
-- What the alerts of a list do to the summary, one by one and together.
use gh_report.Prelude.{
  ℕ, ◌+◌, ◌%◌, ◌^◌, ◌<◌, ◌≡◌, ◌⊎◌, inl, inr, refl, ap, ◌∙◌, sym, Bool, true, false, not, ◌&&◌,
  Option, none, some, List, [], ◌∷◌, Text, if◌then◌else◌, ltb, arith, any, text_eq, text_eq_iff,
  Bool-cases,
}
use gh_report.OrderedMap.{OrderedMap, get-insert}
use gh_report.OrderedMap
use gh_report.Repository.{Repository}
use gh_report.Org.{CollectionStatus, RepoAlertSummary, OrgAlertSummary}
use gh_report.Api.{Json}
use gh_report.Scanning.{
  Clock, AlertCorrelation, matched, out_of_scope, conflicting, unidentifiable, correlate_alert,
  scope_key,
}
use gh_report.Scanning.Collect.{
  process_alert, process_alerts, process_correlated, count_alert, track_summary, track_repository,
  degrade, normalised, or_default, next_u64,
}
use gh_report.Scanning.Repositories.{has_open}

abbrev pub is_success : CollectionStatus → Bool
is_success CollectionStatus.success = true
is_success _ = false

unfoldable pub alert_count : Option RepoAlertSummary → ℕ
alert_count o = (or_default o).open_alert_count

pub has_open_lem : (o : Option RepoAlertSummary) → has_open o ≡ ltb 0 (alert_count o)
unfolding alert_count
has_open_lem none = ground arith
has_open_lem (some s) = refl

module _ (C : Clock) (J : Json) where
  open J use {Value}

  -- the alert is one of the repository
  unfoldable pub is_of : OrderedMap Repository → Repository → Value → Bool
  unfolding text_eq
  is_of scope repo alert = elim (correlate_alert J scope alert) [
    | matched r ↦ text_eq (scope_key repo) r.id
    | out_of_scope ↦ false
    | conflicting ↦ false
    | unidentifiable ↦ false
  ]

  -- it is not certain which repository's the alert is
  unfoldable pub is_ambiguous : OrderedMap Repository → Value → Bool
  is_ambiguous scope alert = elim (correlate_alert J scope alert) [
    | matched r ↦ false
    | out_of_scope ↦ false
    | conflicting ↦ true
    | unidentifiable ↦ true
  ]

  unfoldable pub count_of : OrderedMap Repository → Repository → List Value → ℕ
  unfolding is_of
  count_of scope repo [] = 0
  count_of scope repo (alert ∷ alerts) =
      (if is_of scope repo alert then 1 else 0) + count_of scope repo alerts

  Correlation-cases :
      (c : AlertCorrelation J)
      → ((r : Repository) × (c ≡ matched r))
        ⊎ ((c ≡ out_of_scope) ⊎ ((c ≡ conflicting) ⊎ (c ≡ unidentifiable)))
  Correlation-cases (matched r) = inl (r, refl)
  Correlation-cases out_of_scope = inr (inl refl)
  Correlation-cases conflicting = inr (inr (inl refl))
  Correlation-cases unidentifiable = inr (inr (inr refl))

  abbrev pub counted : Repository → OrgAlertSummary → ℕ
  counted repo s = alert_count (OrderedMap.get (scope_key repo) s.per_repo)

  track_repository_count :
      (t : Option Text) (s : RepoAlertSummary)
      → (track_repository C t s).open_alert_count ≡ s.open_alert_count
  unfolding track_repository
  track_repository_count none s = refl
  track_repository_count (some t) s = refl

  track_summary_kept :
      (t : Option Text) (s : OrgAlertSummary)
      → ((track_summary C t s).collection_status ≡ s.collection_status)
        × ((track_summary C t s).http_status ≡ s.http_status)
  unfolding track_summary
  track_summary_kept none s = (refl, refl)
  track_summary_kept (some t) s = (refl, refl)

  record Step (repo : Repository) (mine ambiguous : Bool) (before after : OrgAlertSummary)
      : Type 0 where
    status_lem :
        is_success after.collection_status ≡ (is_success before.collection_status && not ambiguous)
    http_lem : after.http_status ≡ before.http_status
    count_lem :
        counted repo before < 2 ^ 64
        → counted repo after ≡ (counted repo before + (if mine then 1 else 0)) % 2 ^ 64

  unchanged-Step : (repo : Repository) (s : OrgAlertSummary) → Step repo false false s s
  unchanged-Step repo s = record {
    status_lem = ground arith;
    http_lem = refl;
    count_lem = λ h. ground arith;
  }

  degraded-Step :
      (repo : Repository) (reason : Text) (s : OrgAlertSummary)
      → Step repo false true s (degrade C reason s)
  degraded-Step repo reason s = record {
    status_lem = ground arith;
    http_lem = refl;
    count_lem = λ h. ground arith;
  }

  counted-count_alert :
      (repo r : Repository) (created_at : Option Text) (now : C.Timestamp) (s : OrgAlertSummary)
      → counted repo s < 2 ^ 64
      → counted repo (count_alert C r created_at now s)
        ≡ (counted repo s + (if text_eq (scope_key repo) r.id then 1 else 0)) % 2 ^ 64
  unfolding count_alert alert_count
  counted-count_alert repo r created_at now s h = elim (Bool-cases (text_eq repo.id r.id)) [
    | inl same ↦
        let ids : repo.id ≡ r.id = (text_eq_iff repo.id r.id).0 same in
        rw (get-insert, same)
          (track_repository_count _ _
            ∙ ap (λ k. next_u64 (alert_count (OrderedMap.get k s.per_repo))) (sym ids))
    | inr other ↦ rw (get-insert, other) (ground (arith, h))
  ]

  matched-Step :
      (repo r : Repository) (created_at : Option Text) (now : C.Timestamp) (s : OrgAlertSummary)
      → Step repo (text_eq (scope_key repo) r.id) false s (count_alert C r created_at now s)
  unfolding count_alert
  matched-Step repo r created_at now s =
      let (kept, code) = track_summary_kept (normalised C created_at) s in
      record {
        status_lem = rw kept (ground arith);
        http_lem = code;
        count_lem = counted-count_alert repo r created_at now s;
      }

  process_alert-Step :
      (scope : OrderedMap Repository) (repo : Repository) (now : C.Timestamp) (alert : Value)
      (s : OrgAlertSummary)
      → Step repo
          (is_of scope repo alert)
          (is_ambiguous scope alert)
          s
          (process_alert C J scope now alert s)
  unfolding process_alert process_correlated is_of is_ambiguous
  process_alert-Step scope repo now alert s =
      elim (Correlation-cases (correlate_alert J scope alert)) [
        | inl (r, e) ↦ rw (process_alert, is_of, is_ambiguous, e) (matched-Step repo r _ now s)
        | inr (inl e) ↦ rw (process_alert, is_of, is_ambiguous, e) (unchanged-Step repo s)
        | inr (inr (inl e)) ↦ rw (process_alert, is_of, is_ambiguous, e) (degraded-Step repo _ s)
        | inr (inr (inr e)) ↦ rw (process_alert, is_of, is_ambiguous, e) (degraded-Step repo _ s)
      ]

  pub record Steps (scope : OrderedMap Repository) (repo : Repository) (alerts : List Value)
      (before after : OrgAlertSummary) : Type 0 where
    pub status_lem :
        is_success after.collection_status
        ≡ (is_success before.collection_status && not (any (is_ambiguous scope) alerts))
    pub http_lem : after.http_status ≡ before.http_status
    pub count_lem :
        counted repo before < 2 ^ 64
        → counted repo after ≡ (counted repo before + count_of scope repo alerts) % 2 ^ 64

  pub process_alerts-Steps :
      (scope : OrderedMap Repository) (repo : Repository) (now : C.Timestamp) (alerts : List Value)
      (s : OrgAlertSummary)
      → Steps scope repo alerts s (process_alerts C J scope now alerts s)
  unfolding process_alerts count_of
  process_alerts-Steps scope repo now [] s = record {
    status_lem = ground arith;
    http_lem = refl;
    count_lem = λ h. ground (arith, h);
  }
  process_alerts-Steps scope repo now (alert ∷ alerts) s =
      let first = process_alert-Step scope repo now alert s in
      let later =
        process_alerts-Steps scope repo now alerts (process_alert C J scope now alert s) in
      record {
        status_lem = ground (arith, first.status_lem, later.status_lem);
        http_lem = later.http_lem ∙ first.http_lem;
        count_lem = λ h.
            let one = first.count_lem h in
            ground (arith, one, later.count_lem (ground (arith, one)));
      }
