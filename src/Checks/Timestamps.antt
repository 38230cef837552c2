-- ===== src/Checks/Timestamps.antt =====
-- Restamping a result changes nothing but its timestamp.
use gh_report.Prelude.{◌≡◌, refl, Text}
use gh_report.Checks.SecretScanning
use gh_report.Checks.SecretScanning.{SecretScanningResult}
use gh_report.Checks.Codeowners
use gh_report.Checks.Codeowners.{CodeownersResult}

-- A restamped secret-scanning result carries the new timestamp, and keeps its status, its alerts,
-- its reason and its score.
pub scanning-with_timestamp :
    (r : SecretScanningResult) (t : Text)
    → let r' = SecretScanning.with_timestamp r t in
      (SecretScanning.timestamp_of r' ≡ t)
      × (SecretScanning.status r' ≡ SecretScanning.status r)
      × (SecretScanning.has_open_alerts r' ≡ SecretScanning.has_open_alerts r)
      × (SecretScanning.reason_of r' ≡ SecretScanning.reason_of r)
      × (SecretScanning.score r' ≡ SecretScanning.score r)
unfolding SecretScanning.with_timestamp SecretScanning.timestamp_of SecretScanning.status
    SecretScanning.has_open_alerts SecretScanning.reason_of SecretScanning.score
scanning-with_timestamp (SecretScanningResult.enabled p _) t = (refl, refl, refl, refl, refl)
scanning-with_timestamp (SecretScanningResult.disabled h o _) t = (refl, refl, refl, refl, refl)
scanning-with_timestamp (SecretScanningResult.unobservable m p _) t = (refl, refl, refl, refl, refl)

-- A restamped CODEOWNERS result carries the new timestamp, and keeps its status, its path, its
-- parsed content, its truncation reason and its score.
pub codeowners-with_timestamp :
    (r : CodeownersResult) (t : Text)
    → let r' = Codeowners.with_timestamp r t in
      (Codeowners.timestamp_of r' ≡ t)
      × (Codeowners.status r' ≡ Codeowners.status r)
      × (Codeowners.path r' ≡ Codeowners.path r)
      × (Codeowners.parsed_of r' ≡ Codeowners.parsed_of r)
      × (Codeowners.truncation r' ≡ Codeowners.truncation r)
      × (Codeowners.score r' ≡ Codeowners.score r)
unfolding Codeowners.with_timestamp Codeowners.timestamp_of Codeowners.status Codeowners.path
    Codeowners.parsed_of Codeowners.truncation Codeowners.score
codeowners-with_timestamp (CodeownersResult.conforming c _) t = (refl, refl, refl, refl, refl, refl)
codeowners-with_timestamp (CodeownersResult.non_conforming Codeowners.root c _) t =
    (refl, refl, refl, refl, refl, refl)
codeowners-with_timestamp (CodeownersResult.non_conforming Codeowners.docs c _) t =
    (refl, refl, refl, refl, refl, refl)
codeowners-with_timestamp (CodeownersResult.absent _) t = (refl, refl, refl, refl, refl, refl)
codeowners-with_timestamp (CodeownersResult.unobservable r _) t =
    (refl, refl, refl, refl, refl, refl)
