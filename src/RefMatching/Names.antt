-- ===== src/RefMatching/Names.antt =====
-- `ref_name_matches`.
use gh_report.Prelude.{
  ◌≡◌, ◌≢◌, ◌↔◌, ◌⊎◌, inl, inr, refl, true, [], ◌∷◌, ◌++◌, Text, arith, text_eq, text_eq_iff,
  starts_with, Bool-cases,
}
use gh_report.PatternMatch.Plain.{Plain, path_pattern_matches-Plain}
use gh_report.RefMatching.{
  heads, normalize_branch_ref, short_name, all_refs, default_ref, path_pattern_matches,
  ref_name_matches, fnmatch_max_recursion_depth,
}

starts_with-append : (p s : Text) → starts_with p (p ++ s) ≡ true
unfolding starts_with
starts_with-append [] s = refl
starts_with-append (a ∷ p) s = ground (arith, starts_with-append p s)

-- A full ref is left as it is, so normalising twice is normalising once.
normalize_branch_ref_idem :
    (b : Text) → normalize_branch_ref (normalize_branch_ref b) ≡ normalize_branch_ref b
unfolding normalize_branch_ref
normalize_branch_ref_idem b = elim (Bool-cases (starts_with heads b)) [
  | inl e ↦ rw e (rw e)
  | inr e ↦ rw e (rw (starts_with-append heads b))
]

-- A short branch name and its full ref are matched alike, on both sides of the comparison.
pub ref_name_matches-normalize :
    (pattern b d : Text)
    → ref_name_matches pattern (normalize_branch_ref b) (normalize_branch_ref d)
      ≡ ref_name_matches pattern b d
unfolding ref_name_matches
ref_name_matches-normalize pattern b d =
    rw (normalize_branch_ref_idem b, normalize_branch_ref_idem d)

module _ (pattern b d : Text) (not_all : pattern ≢ all_refs)
    (not_default : pattern ≢ default_ref) where
  Plain-sound :
      Plain pattern
      → ref_name_matches pattern b d ≡ true
      → (pattern ≡ normalize_branch_ref b) ⊎ (pattern ≡ short_name (normalize_branch_ref b))
  unfolding ref_name_matches path_pattern_matches
  Plain-sound plain h =
      let r = normalize_branch_ref b in
      ground (
        arith,
        text_eq_iff pattern all_refs,
        text_eq_iff pattern default_ref,
        text_eq_iff pattern r,
        text_eq_iff pattern (short_name r),
        path_pattern_matches-Plain pattern r fnmatch_max_recursion_depth plain,
        path_pattern_matches-Plain pattern (short_name r) fnmatch_max_recursion_depth plain,
      )

  named_complete :
      (pattern ≡ normalize_branch_ref b) ⊎ (pattern ≡ short_name (normalize_branch_ref b))
      → ref_name_matches pattern b d ≡ true
  unfolding ref_name_matches
  named_complete h =
      let r = normalize_branch_ref b in
      ground (
        arith,
        text_eq_iff pattern all_refs,
        text_eq_iff pattern default_ref,
        text_eq_iff pattern r,
        text_eq_iff pattern (short_name r),
      )

-- A pattern with no wildcard, other than the two reserved words, covers a branch exactly when it is
-- the branch's full ref or its short name, whatever the default branch and however long the name.
pub ref_name_matches-Plain :
    (pattern b d : Text)
    → pattern ≢ all_refs
    → pattern ≢ default_ref
    → Plain pattern
    → (ref_name_matches pattern b d ≡ true)
      ↔ ((pattern ≡ normalize_branch_ref b) ⊎ (pattern ≡ short_name (normalize_branch_ref b)))
ref_name_matches-Plain pattern b d na nd plain =
    (Plain-sound pattern b d na nd plain, named_complete pattern b d na nd)

-- The two reserved words: `~ALL` covers every branch, `~DEFAULT_BRANCH` exactly the default one.
pub ref_name_matches_reserved :
    (b d : Text)
    → (ref_name_matches all_refs b d ≡ true)
      × ((ref_name_matches default_ref b d ≡ true)
          ↔ (normalize_branch_ref b ≡ normalize_branch_ref d))
unfolding ref_name_matches text_eq
ref_name_matches_reserved b d =
    (refl, text_eq_iff (normalize_branch_ref b) (normalize_branch_ref d))
