-- ===== src/Scanning/Probes.antt =====
-- When a summary counts as an observation of a repository's alerts.
use gh_report.Prelude.{
  ℕ, ◌≡◌, ◌↔◌, refl, ap, ◌∙◌, sym, Bool, true, false, not, ◌&&◌, Option, arith, false≢true,
}
use gh_report.OrderedMap.{OrderedMap, get-insert}
use gh_report.OrderedMap
use gh_report.Repository.{Repository}
use gh_report.Org.{CollectionStatus, OrgAlertSummary}
use gh_report.Checks.SecretScanning.{SecretScanningAlerts, org_summary, observable}
use gh_report.Scanning.{scope_key}
use gh_report.Scanning.Steps.{is_success}
use gh_report.Scanning.Repositories.{probe_of_status, has_open}

probe_flag : SecretScanningAlerts → Bool
probe_flag (observable source flag code) = flag
probe_flag (SecretScanningAlerts.unobservable source reason code) = false

probe_code : SecretScanningAlerts → Option ℕ
probe_code (observable source flag code) = code
probe_code (SecretScanningAlerts.unobservable source reason code) = code

is_observable : SecretScanningAlerts → Bool
is_observable (observable source flag code) = true
is_observable (SecretScanningAlerts.unobservable source reason code) = false

pub neither : (a b : Bool) → (not a && not b ≡ true) ↔ ((a ≡ false) × (b ≡ false))
neither true b = ground arith
neither false true = ground arith
neither false false = ground arith

abbrev pub Probed : CollectionStatus → Repository → OrgAlertSummary → Bool → Option ℕ → Type 0
Probed status repo s flag code =
    (probe_of_status status repo s ≡ observable org_summary flag code) ↔ (
      (is_success status ≡ true)
      × (has_open (OrderedMap.get (scope_key repo) s.per_repo) ≡ flag)
      × (s.http_status ≡ code))

unobserved :
    (p : SecretScanningAlerts) (flag : Bool) (code : Option ℕ)
    → is_observable p ≡ false
    → p ≡ observable org_summary flag code
    → ⊥
unfolding is_observable
unobserved p flag code h e = false≢true (sym h ∙ ap is_observable e)

pub probe-Probed :
    (status : CollectionStatus) (repo : Repository) (s : OrgAlertSummary) (flag : Bool)
    (code : Option ℕ)
    → Probed status repo s flag code
unfolding probe_of_status is_observable probe_flag probe_code
probe-Probed CollectionStatus.success repo s flag code =
    (λ e. (refl, ap probe_flag e, ap probe_code e), λ (_, f, c). rw (f, c) refl)
probe-Probed CollectionStatus.not_collected repo s flag code =
    (λ e. absurd (unobserved _ flag code refl e), λ (f, _, _). absurd (false≢true f))
probe-Probed CollectionStatus.permission_denied repo s flag code =
    (λ e. absurd (unobserved _ flag code refl e), λ (f, _, _). absurd (false≢true f))
probe-Probed CollectionStatus.transient_error repo s flag code =
    (λ e. absurd (unobserved _ flag code refl e), λ (f, _, _). absurd (false≢true f))
probe-Probed CollectionStatus.unavailable repo s flag code =
    (λ e. absurd (unobserved _ flag code refl e), λ (f, _, _). absurd (false≢true f))
