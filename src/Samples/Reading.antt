-- ===== src/Samples/Reading.antt =====
-- The theorems on collection coverage and read states, on single records.
use gh_report.Prelude.{codes, [], ◌∷◌, arith, ℕ, ◌≡◌, ◌⊎◌, refl, Bool, true, Option, none, some}
use gh_report.Samples.{alpha, enabled_scanning, settled}
use gh_report.Checks.{RepositoryChecks}
use gh_report.Checks.SecurityPolicy
use gh_report.Checks.SecretScanning
use gh_report.Checks.BranchProtection
use gh_report.Checks.Codeowners
use gh_report.Evidence.{is_complete}
use gh_report.Evidence.Coverage.{
  known, selected, is_capped, raw_known, deserialize, ok, deserialize_agrees,
}
use gh_report.Evidence.Wire.{Object, text, number, serialize, deserialize_object}
use gh_report.Evidence.Written.{deserialize_object-serialize}

deserialize_object-serialize_example :
    deserialize_object 1000 (serialize 1000 (known 7 5)) ≡ ok (known 7 5)
deserialize_object-serialize_example =
    deserialize_object-serialize 1000 (known 7 5) (omega arith, omega arith, omega arith)

abbrev stored : Object
stored =
    (codes "limit", number 5)
    ∷ (codes "total", number 7)
    ∷ (codes "status", text (codes "known"))
    ∷ []

abbrev five : Option ℕ
five = some 5

abbrev uncapped : Option Bool
uncapped = none

reads_back : deserialize 1000 (raw_known 7 5 five uncapped) ≡ ok (known 7 5)
unfolding deserialize
reads_back = refl

deserialize_agrees_example :
    (known 7 5 ≡ known 7 5)
    × ((five ≡ none) ⊎ (five ≡ selected 1000 (known 7 5)))
    × ((uncapped ≡ none) ⊎ (uncapped ≡ some (is_capped 1000 (known 7 5))))
deserialize_agrees_example = deserialize_agrees 1000 7 5 five uncapped (known 7 5) reads_back

alpha_complete : is_complete alpha ≡ true
unfolding is_complete SecurityPolicy.status SecretScanning.status BranchProtection.is_observed
    Codeowners.status
alpha_complete = refl

abbrev checks : RepositoryChecks
checks = settled enabled_scanning
