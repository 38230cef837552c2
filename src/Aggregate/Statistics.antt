-- ===== src/Aggregate/Statistics.antt =====
-- How the collection statistics divide the repositories.
use gh_report.Prelude.{
  Bool, true, false, not, ◌&&◌, ◌+◌, ◌≡◌, refl, min, List, [], ◌∷◌, keep, length, arith,
}
use gh_report.Metrics.{u32_max, saturating_add}
use gh_report.Metrics.Owners.{is_active}
use gh_report.Repository.{Visibility, visibility_eq, public, internal, private}
use gh_report.Evidence.{RepositoryEvidence}
use gh_report.Aggregate.Counts.{
  count_as_u32, count_by_visibility, build_collection_statistics, has_visibility,
}
use gh_report.Aggregate.Tallies.{bit, count, length-keep, count-not}

visibility_bits :
    (v : Visibility)
    → bit (visibility_eq v public) + bit (visibility_eq v internal) + bit (visibility_eq v private)
      ≡ 1
visibility_bits public = refl
visibility_bits internal = refl
visibility_bits private = refl

by_visibility :
    (active : List RepositoryEvidence)
    → count (has_visibility public) active
        + count (has_visibility internal) active
        + count (has_visibility private) active
      ≡ length active
by_visibility [] = omega arith
by_visibility (r ∷ rs) = omega (arith, visibility_bits r.repository.visibility, by_visibility rs)

-- the visibility counted for, whether the repository is archived, and its visibility
abbrev pub shown : Visibility → Bool → Visibility → Bool
shown public false public = true
shown internal false internal = true
shown private false private = true
shown _ _ _ = false

-- the repository is active, and has the visibility
abbrev pub shown_as : Visibility → RepositoryEvidence → Bool
shown_as v r = shown v r.repository.archived r.repository.visibility

shown_lem :
    (v : Visibility) (archived : Bool) (w : Visibility)
    → shown v archived w ≡ (not archived && visibility_eq w v)
shown_lem v archived w = ground arith

active_shown :
    (v : Visibility) (rs : List RepositoryEvidence)
    → count (has_visibility v) (keep is_active rs) ≡ count (shown_as v) rs
active_shown v [] = refl
active_shown v (r ∷ rs) =
    let first = shown_lem v r.repository.archived r.repository.visibility in
    ground (arith, first, active_shown v rs)

-- The collection statistics count every repository once: as archived, or under its own visibility
-- among the active ones, whose total is the sum of the three. Each counter stops at the 32-bit
-- bound.
pub statistics_partition :
    (repositories : List RepositoryEvidence)
    → (let s = build_collection_statistics repositories in
        (s.public_repos ≡ min u32_max (count (shown_as public) repositories))
        × (s.internal_repos ≡ min u32_max (count (shown_as internal) repositories))
        × (s.private_repos ≡ min u32_max (count (shown_as private) repositories))
        × (s.archived_repos ≡ min u32_max (count (λ r. r.repository.archived) repositories))
        × (s.total_repos
            ≡ saturating_add s.public_repos (saturating_add s.internal_repos s.private_repos))
        × (saturating_add s.total_repos s.archived_repos ≡ min u32_max (length repositories)))
unfolding build_collection_statistics count_by_visibility count_as_u32
statistics_partition repos =
    let active = keep is_active repos in
    let whole = count-not (λ r. r.repository.archived) repos in
    let kept = length-keep is_active repos in
    (
      omega (arith, length-keep (has_visibility public) active, active_shown public repos),
      omega (arith, length-keep (has_visibility internal) active, active_shown internal repos),
      omega (arith, length-keep (has_visibility private) active, active_shown private repos),
      omega (arith, length-keep (λ r. r.repository.archived) repos),
      omega (
        arith,
        by_visibility active,
        length-keep (has_visibility public) active,
        length-keep (has_visibility internal) active,
        length-keep (has_visibility private) active,
      ),
      omega (arith, kept, whole, length-keep (λ r. r.repository.archived) repos),
    )
