-- ===== src/Samples/Writing.antt =====
-- The theorems on failed writes, on a backend that is unavailable at first.
use gh_report.Prelude.{◌≡◌, ◌↔◌, refl, Option, none, some, List, [], ◌∷◌}
use gh_report.WritePolicy.{
  Variant, classify_variant, response_of, WriteFailure, failure_at, write_with_policy, retry_loop,
}
use gh_report.WritePolicy.Retry.{Trace, write_with_policy-iff-Trace}

abbrev clash : Variant
clash = Variant.fenced_conflict (some 3) (some 4)

-- the state is the list of the answers that are left
abbrev answer : List Variant → Option Variant × List Variant
answer [] = (none, [])
answer (v ∷ vs) = (some v, vs)

abbrev same : Variant → Variant
same v = v

abbrev outage : List Variant
outage = Variant.backend_unavailable ∷ Variant.io ∷ []

abbrev failed : WriteFailure Variant
failed = failure_at same Variant.io 2

write_with_policy-iff-Trace_example :
    (write_with_policy same answer outage ≡ (some failed, []))
    ↔ Trace same answer 1 outage (some failed) []
write_with_policy-iff-Trace_example =
    write_with_policy-iff-Trace same answer outage [] (some failed)

outage_fails : write_with_policy same answer outage ≡ (some failed, [])
unfolding write_with_policy retry_loop classify_variant response_of
outage_fails = refl
