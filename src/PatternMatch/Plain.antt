-- ===== src/PatternMatch/Plain.antt =====
-- A pattern with no wildcard matches its own text alone.
use gh_report.Prelude.{
  ℕ, ◌≡◌, ◌≢◌, refl, true, false, List, [], ◌∷◌, ◌++◌, append_assoc, Text, arith, All, Bool-cases,
  inl, inr, ◌==◌, ==_iff,
}
use gh_report.PatternMatch.{
  star, question, double_star, split_from, split_slash, path_pattern_matches,
}
use gh_report.PatternMatch.Glob.{
  Glob, done, star_end, star_more, single, literal, PathGlob, end, deep_end, deep_more, segment,
}
use gh_report.PatternMatch.Paths.{path_pattern_matches_sound}

-- no byte is a wildcard
abbrev pub Plain : Text → Type 0
Plain = All (λ c. (c ≢ star) × (c ≢ question))

Plain-append : (p q : Text) → Plain p → Plain q → Plain (p ++ q)
Plain-append [] q hp hq = hq
Plain-append (c ∷ p) q (hc, hp) hq = (hc, Plain-append p q hp hq)

Glob-Plain : (p c : Text) → Plain p → Glob p c → p ≡ c
Glob-Plain [] [] h done = refl
Glob-Plain [] (x ∷ c) h g = elim g [ ]
Glob-Plain (q ∷ p) c ((n, m), h) (star_end e g) = absurd (n e)
Glob-Plain (q ∷ p) (x ∷ c) ((n, m), h) (star_more e g) = absurd (n e)
Glob-Plain (q ∷ p) (x ∷ c) ((n, m), h) (single e g) = absurd (m e)
Glob-Plain (q ∷ p) (x ∷ c) (hq, h) (literal _ _ e g) = cc (e, Glob-Plain p c h g)

not-Plain-double_star : (q : Text) → Plain q → q ≢ double_star
not-Plain-double_star [] h e = cc
not-Plain-double_star (c ∷ q) ((n, _), _) e = n (cc)

PathGlob-Plain : (ps cs : List Text) → All Plain ps → PathGlob ps cs → ps ≡ cs
PathGlob-Plain [] [] h end = refl
PathGlob-Plain [] (x ∷ cs) h g = elim g [ ]
PathGlob-Plain (q ∷ ps) cs (hq, h) (deep_end e g) = absurd (not-Plain-double_star q hq e)
PathGlob-Plain (q ∷ ps) (x ∷ cs) (hq, h) (deep_more e g) = absurd (not-Plain-double_star q hq e)
PathGlob-Plain (q ∷ ps) (x ∷ cs) (hq, h) (segment _ g r) =
    cc (Glob-Plain q x hq g, PathGlob-Plain ps cs h r)

split_from_slash :
    (c : ℕ) (s cur : Text) → (c == b'/') ≡ true → split_from cur (c ∷ s) ≡ cur ∷ split_from [] s
unfolding split_from
split_from_slash c s cur e = ground arith

split_from_other :
    (c : ℕ) (s cur : Text)
    → (c == b'/') ≡ false
    → split_from cur (c ∷ s) ≡ split_from (cur ++ c ∷ []) s
unfolding split_from
split_from_other c s cur e = ground arith

split_from-Plain : (s cur : Text) → Plain cur → Plain s → All Plain (split_from cur s)
split_from-Plain [] cur hc h = unfold split_from in (hc, tt)
split_from-Plain (c ∷ s) cur hc (hx, h) = elim (Bool-cases (c == b'/')) [
  | inl e ↦ rw (split_from_slash c s cur e) (hc, split_from-Plain s [] tt h)
  | inr e ↦
      rw (split_from_other c s cur e)
        (split_from-Plain s (cur ++ c ∷ []) (Plain-append cur (c ∷ []) hc (hx, tt)) h)
]

-- every segment behind a slash
glue : List Text → Text
glue [] = []
glue (p ∷ ps) = b'/' ∷ (p ++ glue ps)

glue-split_from : (s cur : Text) → glue (split_from cur s) ≡ b'/' ∷ (cur ++ s)
unfolding glue
glue-split_from [] cur = unfold split_from in refl
glue-split_from (c ∷ s) cur = elim (Bool-cases (c == b'/')) [
  | inl e ↦ rw (split_from_slash c s cur e, glue-split_from s [], (==_iff c b'/').0 e)
  | inr e ↦ rw (split_from_other c s cur e, glue-split_from s (cur ++ c ∷ []), append_assoc)
]

-- Splitting at slashes loses nothing.
pub split_slash-injective : (s t : Text) → split_slash s ≡ split_slash t → s ≡ t
unfolding split_slash
split_slash-injective s t h = cc (glue-split_from s [], glue-split_from t [], h)

-- A pattern with no wildcard byte matches no other text.
pub path_pattern_matches-Plain :
    (p c : Text) (max : ℕ) → Plain p → path_pattern_matches p c max ≡ true → p ≡ c
unfolding split_slash
path_pattern_matches-Plain p c max h m = split_slash-injective p c (
    PathGlob-Plain (split_slash p) (split_slash c) (split_from-Plain p [] tt h)
      (path_pattern_matches_sound p c max m))
