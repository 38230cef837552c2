-- ===== src/Webhook/Push.antt =====
-- Which pushes are looked at.
use gh_report.Prelude.{
  ◌≡◌, ◌↔◌, inl, inr, true, false, none, some, [], ◌∷◌, ◌++◌, Text, codes, text_eq_iff,
  strip_prefix, arith, any, Option-cases, false≢true, List, ◌⊎◌, In, In-any, any-In, In-left,
  In-right, In-append-cases,
}
use std.Option.{none≢some}
use mathlib.Core.Option.{some-injective}
use gh_report.Webhook.{PushCommit, PushEvent, is_security_relevant_push, is_watched, touched}

strip_prefix_iff : (p s r : Text) → (strip_prefix p s ≡ some r) ↔ (s ≡ p ++ r)
unfolding strip_prefix
strip_prefix_iff [] s r = (ground arith, ground arith)
strip_prefix_iff (a ∷ p) [] r = (ground arith, ground arith)
strip_prefix_iff (a ∷ p) (b ∷ s) r =
    (ground (arith, strip_prefix_iff p s r), ground (arith, strip_prefix_iff p s r))

abbrev heads : Text
heads = codes "refs/heads/"

unprefixed_irrelevant :
    (e : PushEvent) → strip_prefix heads e.ref_field ≡ none → is_security_relevant_push e ≡ false
unfolding is_security_relevant_push
unprefixed_irrelevant e h = ground arith

prefixed_relevant :
    (e : PushEvent) (r : Text)
    → strip_prefix heads e.ref_field ≡ some r
    → (is_security_relevant_push e ≡ true) ↔ (
        (r ≡ e.repository.default_branch)
        × (any (λ c. any is_watched (touched c)) e.commits ≡ true))
unfolding is_security_relevant_push
prefixed_relevant e r h = (
  ground (arith, text_eq_iff r e.repository.default_branch),
  ground (arith, text_eq_iff r e.repository.default_branch),
)

-- the commit adds, modifies or removes the file
abbrev pub Touches : PushCommit → Text → Type 0
Touches c file = In file c.added ⊎ (In file c.modified ⊎ In file c.removed)

abbrev pub Watched : Text → Type 0
Watched file =
    (file ≡ codes "SECURITY.md")
    ⊎ ((file ≡ codes ".github/SECURITY.md")
        ⊎ ((file ≡ codes "docs/SECURITY.md")
            ⊎ ((file ≡ codes ".github/CODEOWNERS") ⊎ (file ≡ codes "CODEOWNERS"))))

abbrev pub TouchesWatched : List PushCommit → Type 0
TouchesWatched commits =
    (c : PushCommit) × (file : Text) × In c commits × Touches c file × Watched file

Watched-iff : (file : Text) → (is_watched file ≡ true) ↔ Watched file
Watched-iff file =
    let policy = text_eq_iff file (codes "SECURITY.md") in
    let hidden = text_eq_iff file (codes ".github/SECURITY.md") in
    let docs = text_eq_iff file (codes "docs/SECURITY.md") in
    let owners = text_eq_iff file (codes ".github/CODEOWNERS") in
    let root = text_eq_iff file (codes "CODEOWNERS") in
    (
      ground (arith, policy, hidden, docs, owners, root),
      ground (arith, policy, hidden, docs, owners, root),
    )

touched-cases : (c : PushCommit) (file : Text) → In file (touched c) → Touches c file
touched-cases c file i = elim (In-append-cases (c.added ++ c.modified) c.removed i) [
  | inl front ↦ elim (In-append-cases c.added c.modified front) [
    | inl a ↦ inl a
    | inr m ↦ inr (inl m)
  ]
  | inr r ↦ inr (inr r)
]

touched-In : (c : PushCommit) (file : Text) → Touches c file → In file (touched c)
touched-In c file t = elim t [
  | inl a ↦ In-left c.removed (In-left c.modified a)
  | inr late ↦ elim late [
    | inl m ↦ In-left c.removed (In-right c.added m)
    | inr r ↦ In-right (c.added ++ c.modified) r
  ]
]

commits_iff :
    (commits : List PushCommit)
    → (any (λ c. any is_watched (touched c)) commits ≡ true) ↔ TouchesWatched commits
commits_iff commits = (
  λ h.
      let (c, i, watched) = any-In (λ c. any is_watched (touched c)) commits h in
      let (file, j, w) = any-In is_watched (touched c) watched in
      (c, file, i, touched-cases c file j, (Watched-iff file).0 w),
  λ (c, file, i, t, w).
      In-any (λ c. any is_watched (touched c)) i
        (In-any is_watched (touched-In c file t) ((Watched-iff file).1 w)),
)

-- A push is looked at exactly when its ref is the full ref of the payload's default branch and some
-- commit adds, modifies or removes one of the five watched files.
pub relevant_iff_watched :
    (e : PushEvent)
    → (is_security_relevant_push e ≡ true)
      ↔ ((e.ref_field ≡ heads ++ e.repository.default_branch) × TouchesWatched e.commits)
relevant_iff_watched e =
    let (found, there) = commits_iff e.commits in
    let whole = strip_prefix_iff heads e.ref_field e.repository.default_branch in
    elim (Option-cases (strip_prefix heads e.ref_field)) [
      | inl h ↦ (
        (λ y. absurd (false≢true (cc (unprefixed_irrelevant e h, y)))),
        λ (y, w). absurd (none≢some {a = e.repository.default_branch} (cc (h, whole.1 y))),
      )
      | inr (r, h) ↦
          let both = prefixed_relevant e r h in
          (
            (λ y. let (er, w) = both.0 y in (whole.0 (cc (h, er)), found w)),
            λ (y, w).
                both.1 (some-injective r e.repository.default_branch (cc (h, whole.1 y)), there w),
          )
    ]
