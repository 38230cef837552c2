-- ===== src/WritePolicy/Policy.antt =====
-- The classification of failures.
use gh_report.Prelude.{◌≡◌, ◌≢◌, ◌↔◌, ◌⊎◌, none, arith}
use gh_report.WritePolicy.{
  Variant, backend_unavailable, conflict, fatal, bounded_retry, http_non2xx, warn, classify_variant,
  response_of, severity_for, logged_level, conflict_seq_fields,
}

-- Only an unavailable backend is retried: every other failure is fatal, and no failure is answered
-- by an HTTP status.
pub retried_iff_unavailable :
    (v : Variant)
    → ((response_of (classify_variant v) ≡ bounded_retry) ↔ (v ≡ backend_unavailable))
      × ((response_of (classify_variant v) ≡ fatal) ↔ (v ≢ backend_unavailable))
      × (response_of (classify_variant v) ≢ http_non2xx)
unfolding response_of classify_variant
retried_iff_unavailable v =
    ((ground arith, ground arith), (ground arith, ground arith), ground arith)

-- `severity_for` rates exactly the fence conflicts as warnings, and only a conflict has sequence
-- numbers to log. `log_write_failure` logs exactly the unavailable backends as warnings.
pub conflict_severity :
    (v : Variant)
    → ((severity_for (classify_variant v) ≡ warn) ↔ (classify_variant v ≡ conflict))
      × ((classify_variant v ≡ conflict) ⊎ (conflict_seq_fields v ≡ (none, none)))
      × ((logged_level (response_of (classify_variant v)) ≡ warn) ↔ (v ≡ backend_unavailable))
unfolding severity_for classify_variant logged_level response_of conflict_seq_fields
conflict_severity v = ((ground arith, ground arith), ground arith, (ground arith, ground arith))
