-- ===== src/PatternMatch/Paths.antt =====
-- `match_path_segments` and `path_pattern_matches` against the relation `PathGlob`.
use gh_report.Prelude.{
  ℕ, ◌+◌, ◌≤◌, ◌≡◌, ◌≢◌, inl, inr, refl, Bool, true, false, false≢true, List, [], ◌∷◌, Text, arith,
  length, any, suffixes, All, Bool-cases, text_eq, text_eq_iff, ltb, if◌then◌else◌, is_empty,
}
use gh_report.PatternMatch.{
  double_star, step_one, fnmatch_segment, max_segment_recursion_depth, match_path_segments,
  split_slash, path_pattern_matches,
}
use gh_report.PatternMatch.Glob.{Glob, PathGlob, end, deep_end, deep_more, segment}
use gh_report.PatternMatch.Collapse.{fnmatch_segment-iff-Glob, length-collapse}

deep_of_any :
    (f : List Text → Bool) (q : Text) (ps : List Text)
    → q ≡ double_star
    → ((s : List Text) → f s ≡ true → PathGlob ps s)
    → (cs : List Text) → any f (suffixes cs) ≡ true
    → PathGlob (q ∷ ps) cs
deep_of_any f q ps e sound [] h = deep_end e (sound [] (ground arith))
deep_of_any f q ps e sound (x ∷ cs) h = elim (Bool-cases (f (x ∷ cs))) [
  | inl now ↦ deep_end e (sound (x ∷ cs) now)
  | inr later ↦ deep_more e (deep_of_any f q ps e sound cs (rw later at h))
]

any_of_deep :
    (f : List Text → Bool) (q : Text) (ps cs : List Text)
    → q ≡ double_star
    → ((s : List Text) → PathGlob ps s → f s ≡ true)
    → PathGlob (q ∷ ps) cs
    → any f (suffixes cs) ≡ true
any_of_deep f q ps [] e complete (deep_end _ g) = rw (complete [] g)
any_of_deep f q ps (x ∷ cs) e complete (deep_end _ g) = rw (complete (x ∷ cs) g)
any_of_deep f q ps (x ∷ cs) e complete (deep_more _ g) =
    ground (arith, any_of_deep f q ps cs e complete g)
any_of_deep f q ps (x ∷ cs) e complete (segment n _ _) = absurd (n e)

-- a last `**` takes whatever is left
deep_all : (q : Text) (cs : List Text) → q ≡ double_star → PathGlob (q ∷ []) cs
deep_all q [] e = deep_end e end
deep_all q (x ∷ cs) e = deep_more e (deep_all q cs e)

segment_of_step :
    (test : Text → Bool) (f : List Text → Bool) (cs : List Text)
    → step_one test f cs ≡ true
    → (x : Text) × (s : List Text) × (cs ≡ x ∷ s) × (test x ≡ true) × (f s ≡ true)
segment_of_step test f [] h = ground arith
segment_of_step test f (x ∷ cs) h = elim (Bool-cases (test x)) [
  | inl e ↦ (x, cs, refl, e, rw e at h)
  | inr e ↦ absurd (false≢true (rw e at h))
]

ne_of_text_eq : (q t : Text) → text_eq q t ≡ false → q ≢ t
ne_of_text_eq q t h e = false≢true (cc (h, (text_eq_iff q t).1 e))

match_path_segments_sound :
    (ps cs : List Text) (depth max : ℕ)
    → match_path_segments ps cs depth max ≡ true
    → PathGlob ps cs
unfolding match_path_segments
match_path_segments_sound [] [] depth max h = end
match_path_segments_sound [] (x ∷ cs) depth max h = ground arith
match_path_segments_sound (q ∷ ps) cs depth max h =
    let rest = λ (s : List Text). match_path_segments ps s (depth + 1) max in
    let later : (s : List Text) → rest s ≡ true → PathGlob ps s =
      λ s hs. match_path_segments_sound ps s (depth + 1) max hs in
    elim (Bool-cases (ltb max_segment_recursion_depth depth)) [
      | inl over ↦ absurd (false≢true (rw over at h))
      | inr under ↦ elim (Bool-cases (text_eq q double_star)) [
        | inl e ↦ deep q ps cs rest ((text_eq_iff q double_star).0 e) later (rw (under, e) at h)
        | inr ne ↦
            let (x, s, ec, eq, hs) =
              segment_of_step (λ part. fnmatch_segment q part max) rest cs (rw (under, ne) at h) in
            rw ec (
              segment (ne_of_text_eq q double_star ne) ((fnmatch_segment-iff-Glob q x max).0 eq).0
                (later s hs))
      ]
    ]
  where
    deep :
        (q : Text) (ps cs : List Text) (f : List Text → Bool)
        → q ≡ double_star
        → ((s : List Text) → f s ≡ true → PathGlob ps s)
        → (if is_empty ps then true else any f (suffixes cs)) ≡ true
        → PathGlob (q ∷ ps) cs
    deep q [] cs f e later h = deep_all q cs e
    deep q (p ∷ ps) cs f e later h = deep_of_any f q (p ∷ ps) e later cs h

-- what a match of a non-empty list of segments is made of
data Head (q : Text) (ps cs : List Text) : Type 0 where
  deeps : q ≡ double_star → Head q ps cs
  one :
      (x : Text) (s : List Text)
      → q ≢ double_star
      → Glob q x
      → cs ≡ x ∷ s
      → PathGlob ps s
      → Head q ps cs

PathGlob-Head : {q : Text} {ps cs : List Text} → PathGlob (q ∷ ps) cs → Head q ps cs
PathGlob-Head (deep_end e g) = deeps e
PathGlob-Head (deep_more e g) = deeps e
PathGlob-Head (segment {x = x} {cs = cs} n g r) = one x cs n g refl r

if_empty : (ps : List Text) (b : Bool) → b ≡ true → (if is_empty ps then true else b) ≡ true
if_empty [] b h = refl
if_empty (p ∷ ps) b h = h

match_path_segments_complete :
    (ps cs : List Text) (depth max : ℕ)
    → PathGlob ps cs
    → depth + length ps ≤ max_segment_recursion_depth
    → All (λ p. length p ≤ max) ps
    → match_path_segments ps cs depth max ≡ true
unfolding match_path_segments
match_path_segments_complete [] [] depth max g h fits = ground arith
match_path_segments_complete [] (x ∷ cs) depth max g h fits = elim g [ ]
match_path_segments_complete (q ∷ ps) cs depth max g h (fit, fits) =
    let rest = λ (s : List Text). match_path_segments ps s (depth + 1) max in
    let under : ltb max_segment_recursion_depth depth ≡ false = ground arith in
    let later : (s : List Text) → PathGlob ps s → rest s ≡ true =
      λ s gs. match_path_segments_complete ps s (depth + 1) max gs (omega arith) fits in
    elim (PathGlob-Head g) [
      | deeps e ↦
          rw (under, (text_eq_iff q double_star).1 e)
            (if_empty ps (any rest (suffixes cs)) (any_of_deep rest q ps cs e later g))
      | one x s n gx ec gs ↦
          let hit : fnmatch_segment q x max ≡ true =
            (fnmatch_segment-iff-Glob q x max).1 (gx, omega (arith, length-collapse q)) in
          elim (Bool-cases (text_eq q double_star)) [
            | inl e ↦ absurd (n ((text_eq_iff q double_star).0 e))
            | inr ne ↦ rw (under, ne, ec, hit) (later s gs)
          ]
    ]

-- Every match that the path matcher reports is a match of the pattern, segment by segment,
-- whatever the recursion bound is.
pub path_pattern_matches_sound :
    (pattern candidate : Text) (max : ℕ)
    → path_pattern_matches pattern candidate max ≡ true
    → PathGlob (split_slash pattern) (split_slash candidate)
unfolding path_pattern_matches
path_pattern_matches_sound pattern candidate max =
    match_path_segments_sound (split_slash pattern) (split_slash candidate) 0 max

-- A pattern of at most 64 segments, none longer than the recursion bound, misses no candidate that
-- it matches.
pub path_pattern_matches_complete :
    (pattern candidate : Text) (max : ℕ)
    → PathGlob (split_slash pattern) (split_slash candidate)
    → length (split_slash pattern) ≤ max_segment_recursion_depth
    → All (λ p. length p ≤ max) (split_slash pattern)
    → path_pattern_matches pattern candidate max ≡ true
unfolding path_pattern_matches
path_pattern_matches_complete pattern candidate max g h fits =
    match_path_segments_complete (split_slash pattern) (split_slash candidate) 0 max g (omega arith)
      fits
