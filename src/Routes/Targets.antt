-- ===== src/Routes/Targets.antt =====
-- What of a request target its route depends on.
use gh_report.Prelude.{
  ℕ, ◌≡◌, ◌≢◌, refl, ap, ◌∙◌, sym, none, some, [], ◌∷◌, ◌++◌, Text, codes, All, arith, strip_prefix,
  append-nil,
}
use gh_report.Routes.{
  before, after_scheme, authority_tail, past_scheme, past_slashes, path_for_matching, route_of,
  route_of_target,
}

-- neither `#` nor `?` is among the bytes
abbrev pub Bare : Text → Type 0
Bare = All (λ c. (c ≢ b'#') × (c ≢ b'?'))

before-append : (c : ℕ) (p q : Text) → All (λ x. x ≢ c) p → before c (p ++ q) ≡ p ++ before c q
unfolding before
before-append c [] q h = refl
before-append c (x ∷ p) q (n, h) = ground (arith, before-append c p q h)

before_self : (c : ℕ) (q : Text) → before c (c ∷ q) ≡ []
unfolding before
before_self c q = ground arith

before_other : (c d : ℕ) (q : Text) → d ≢ c → before c (d ∷ q) ≡ d ∷ before c q
unfolding before
before_other c d q n = ground arith

Bare-hash : (p : Text) → Bare p → All (λ x. x ≢ b'#') p
Bare-hash [] h = tt
Bare-hash (x ∷ p) ((n, m), h) = (n, Bare-hash p h)

Bare-question : (p : Text) → Bare p → All (λ x. x ≢ b'?') p
Bare-question [] h = tt
Bare-question (x ∷ p) ((n, m), h) = (m, Bare-question p h)

before-All : (c : ℕ) (p : Text) → All (λ x. x ≢ c) p → before c p ≡ p
unfolding before
before-All c [] h = refl
before-All c (x ∷ p) (n, h) = ground (arith, before-All c p h)

bare_path : Text → Text
bare_path t = before b'?' (before b'#' t)

bare_path-Bare : (p : Text) → Bare p → bare_path p ≡ p
unfolding bare_path
bare_path-Bare p h =
    ap (before b'?') (before-All b'#' p (Bare-hash p h)) ∙ before-All b'?' p (Bare-question p h)

bare_path_query : (p q : Text) → Bare p → bare_path (p ++ b'?' ∷ q) ≡ p
unfolding bare_path
bare_path_query p q h =
    ap (before b'?') (
      before-append b'#' p (b'?' ∷ q) (Bare-hash p h)
      ∙ ap (λ t. p ++ t) (before_other b'#' b'?' q (ground arith)))
    ∙ before-append b'?' p (b'?' ∷ before b'#' q) (Bare-question p h)
    ∙ ap (λ t. p ++ t) (before_self b'?' (before b'#' q))
    ∙ append-nil p

bare_path_fragment : (p q : Text) → Bare p → bare_path (p ++ b'#' ∷ q) ≡ p
unfolding bare_path
bare_path_fragment p q h =
    ap (before b'?') (
      before-append b'#' p (b'#' ∷ q) (Bare-hash p h)
      ∙ ap (λ t. p ++ t) (before_self b'#' q)
      ∙ append-nil p)
    ∙ before-All b'?' p (Bare-question p h)

-- A query or a fragment never changes the route of a target, whatever bytes it holds.
pub query_ignored :
    (p q : Text)
    → Bare p
    → (route_of_target (p ++ b'?' ∷ q) ≡ route_of_target p)
      × (route_of_target (p ++ b'#' ∷ q) ≡ route_of_target p)
unfolding route_of_target path_for_matching bare_path
query_ignored p q h = (
  ap (λ t. route_of (past_slashes (past_scheme t)))
      (bare_path_query p q h ∙ sym (bare_path-Bare p h)),
  ap (λ t. route_of (past_slashes (past_scheme t)))
      (bare_path_fragment p q h ∙ sym (bare_path-Bare p h)),
)

after_scheme_lem :
    (scheme rest : Text)
    → All (λ x. x ≢ b':') scheme
    → after_scheme (scheme ++ b':' ∷ b'/' ∷ b'/' ∷ rest) ≡ some rest
unfolding after_scheme strip_prefix
after_scheme_lem [] rest h = refl
after_scheme_lem (x ∷ scheme) rest (n, h) = ground (arith, after_scheme_lem scheme rest h)

authority_tail_lem :
    (host path : Text)
    → All (λ x. x ≢ b'/') host
    → authority_tail (host ++ b'/' ∷ path) ≡ b'/' ∷ path
unfolding authority_tail
authority_tail_lem [] path h = refl
authority_tail_lem (x ∷ host) path (n, h) = ground (arith, authority_tail_lem host path h)

-- `scheme://host/path`
abbrev pub absolute : Text → Text → Text → Text
absolute scheme host path = scheme ++ (b':' ∷ b'/' ∷ b'/' ∷ (host ++ (b'/' ∷ path)))

past_scheme-some :
    (s rest : Text) → after_scheme s ≡ some rest → past_scheme s ≡ authority_tail rest
unfolding past_scheme
past_scheme-some s rest h = ground arith

past_scheme_lem :
    (scheme host path : Text)
    → All (λ x. x ≢ b':') scheme
    → All (λ x. x ≢ b'/') host
    → past_scheme (absolute scheme host path) ≡ b'/' ∷ path
past_scheme_lem scheme host path hs hh =
    past_scheme-some (absolute scheme host path) (host ++ (b'/' ∷ path))
      (after_scheme_lem scheme (host ++ (b'/' ∷ path)) hs)
    ∙ authority_tail_lem host path hh

past_slashes_lem : (path : Text) → strip_prefix (codes "//") path ≡ none → past_slashes path ≡ path
unfolding past_slashes
past_slashes_lem path h = ground arith

-- The scheme and the authority of an absolute target, credentials included, never change its route:
-- it is the route of the path, as long as the target has no query or fragment, the scheme no colon,
-- the authority no slash, and the path begins with a single slash.
pub origin_ignored :
    (scheme host path : Text)
    → Bare (absolute scheme host path)
    → All (λ x. x ≢ b':') scheme
    → All (λ x. x ≢ b'/') host
    → strip_prefix (codes "//") (b'/' ∷ path) ≡ none
    → route_of_target (absolute scheme host path) ≡ route_of (b'/' ∷ path)
unfolding route_of_target path_for_matching bare_path
origin_ignored scheme host path bare hs hh single =
    ap (λ t. route_of (past_slashes (past_scheme t)))
      (bare_path-Bare (absolute scheme host path) bare)
    ∙ ap (λ t. route_of (past_slashes t)) (past_scheme_lem scheme host path hs hh)
    ∙ ap route_of (past_slashes_lem (b'/' ∷ path) single)
