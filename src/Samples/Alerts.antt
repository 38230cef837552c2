-- ===== src/Samples/Alerts.antt =====
-- The theorems on the checks of secret scanning and of the security policy: on a list of alerts
-- that is a text of ids, and on a bare repository.
use gh_report.Prelude.{
  ℕ, ◌%◌, ◌^◌, ◌≡◌, ◌↔◌, refl, true, false, none, some, List, [], ◌∷◌, Text, codes, ltb, map,
}
use gh_report.Repository
use gh_report.Repository.{Repository, is_public}
use gh_report.Api.{Json, ApiOutcome}
use gh_report.Checks.SecurityPolicy.{SecurityPolicyStatus, status}
use gh_report.PolicyCheck.{evaluate}
use gh_report.PolicyCheck.Absence.{NoFiles, fails_iff_all_read}
use gh_report.PolicyCheck.Readings.{DetailsWithout}
use gh_report.Client.{RequestRun, RunResult}
use gh_report.Checks.SecretScanning.{org_summary, observable}
use gh_report.Scanning.{Clock}
use gh_report.Scanning.Collect.{collect_org_alerts}
use gh_report.Scanning.Repositories.{org_probe}
use gh_report.Scanning.Accounted.{Complete}
use gh_report.Scanning.Inventory.{Apart}
use gh_report.Scanning.AllClear.{AllCertain, Tally, observed_iff_accounted}
use gh_report.Samples.{repo, now}

-- JSON values that are texts: an array of its letters, with itself under every key
abbrev pub Letters : Json
Letters = record {
  Value = Text;
  get = λ v key. some v;
  as_array = λ v. some (map (λ c. c ∷ []) v);
  as_str = λ v. some v;
  as_bool = λ v. none;
  is_object = λ v. true;
  as_u64 = λ v. none;
  is_null = λ v. false;
}

abbrev stopped : Clock
stopped = record {
  Timestamp = ℕ;
  parse_iso8601 = λ s. some 0;
  elapsed_secs = λ a b. 0;
  strftime = λ t. codes "1970-01-01T00:00:00+00:00";
  now = 0;
}

abbrev inventory : List Repository
inventory = repo (codes "1") (codes "alpha") ∷ repo (codes "2") (codes "beta") ∷ []

-- two alerts of the first repository, and one of a repository outside the inventory
abbrev listed : RequestRun Text
listed = record {
  result =
      RunResult.success
        (record { status = 200; body = some (codes "191"); headers = none; truncated = false }) 1;
  halt_triggered = false;
}

abbrev beta_repo : Repository
beta_repo = repo (codes "2") (codes "beta")

beta_clear :
    org_probe beta_repo (collect_org_alerts stopped Letters listed inventory now)
    ≡ observable org_summary false (some 200)
unfolding org_probe collect_org_alerts gh_report.OrderedMap.get gh_report.OrderedMap.insert
beta_clear = refl

observed_iff_accounted_example :
    (org_probe beta_repo (collect_org_alerts stopped Letters listed inventory now)
      ≡ observable org_summary false (some 200))
    ↔ ((items : List Text) × Complete stopped Letters listed (some 200) items
        × Apart inventory
        × AllCertain Letters inventory items
        × ((n : ℕ) × Tally Letters inventory beta_repo items n × (false ≡ ltb 0 (n % 2 ^ 64))))
observed_iff_accounted_example =
    observed_iff_accounted Letters inventory stopped listed now beta_repo false (some 200)

alpha_alerted :
    org_probe
      (repo (codes "1") (codes "alpha"))
      (collect_org_alerts stopped Letters listed inventory now)
    ≡ observable org_summary true (some 200)
unfolding org_probe collect_org_alerts gh_report.OrderedMap.get gh_report.OrderedMap.insert
alpha_alerted = refl

-- a public repository whose details say nothing of a policy, and that has none of its files
abbrev bare : Repository
bare = record (repo (codes "1") (codes "alpha")) { visibility = Repository.Visibility.public }

-- JSON values under which nothing stands
abbrev Empty : Json
Empty = record {
  Value = Text;
  get = λ v key. none;
  as_array = λ v. none;
  as_str = λ v. none;
  as_bool = λ v. none;
  is_object = λ v. true;
  as_u64 = λ v. none;
  is_null = λ v. false;
}

abbrev details : ApiOutcome Text
details = ApiOutcome.success 200 (some []) none false

abbrev not_there : Text → ApiOutcome Text
not_there path = ApiOutcome.failure (some 404) (codes "Not Found") false

bare_fails : status (evaluate Empty true bare details not_there now) ≡ SecurityPolicyStatus.fail
unfolding evaluate status
bare_fails = refl

fails_iff_all_read_example :
    (status (evaluate Empty true bare details not_there now) ≡ SecurityPolicyStatus.fail) ↔ (
      (true ≡ true)
      × (Repository.Visibility.public ≡ Repository.Visibility.public)
      × DetailsWithout Empty details
      × NoFiles Empty not_there)
fails_iff_all_read_example = fails_iff_all_read Empty true bare details not_there now
