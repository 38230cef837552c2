-- ===== src/PatternMatch/Glob.antt =====
-- What a wildcard pattern of pattern_match.rs means, apart from the matcher: a relation between the
-- bytes of a pattern and of a segment, and one between a pattern's segments and a path's.
use gh_report.Prelude.{ℕ, ◌≡◌, ◌≢◌, List, [], ◌∷◌, Text}
use gh_report.PatternMatch.{star, question, double_star}

-- `*` stands for any bytes, `?` for one byte, any other byte for itself
pub data Glob : Text → Text → Type 0 where
  done : Glob [] []
  star_end : {q : ℕ} {p c : Text} → q ≡ star → Glob p c → Glob (q ∷ p) c
  star_more : {q x : ℕ} {p c : Text} → q ≡ star → Glob (q ∷ p) c → Glob (q ∷ p) (x ∷ c)
  single : {q x : ℕ} {p c : Text} → q ≡ question → Glob p c → Glob (q ∷ p) (x ∷ c)
  literal :
      {q x : ℕ} {p c : Text} → q ≢ star → q ≢ question → x ≡ q → Glob p c → Glob (q ∷ p) (x ∷ c)

-- `**` stands for any segments, any other segment for one that it matches
pub data PathGlob : List Text → List Text → Type 0 where
  end : PathGlob [] []
  deep_end :
      {q : Text} {ps cs : List Text} → q ≡ double_star → PathGlob ps cs → PathGlob (q ∷ ps) cs
  deep_more :
      {q x : Text} {ps cs : List Text}
      → q ≡ double_star
      → PathGlob (q ∷ ps) cs
      → PathGlob (q ∷ ps) (x ∷ cs)
  segment :
      {q x : Text} {ps cs : List Text}
      → q ≢ double_star
      → Glob q x
      → PathGlob ps cs
      → PathGlob (q ∷ ps) (x ∷ cs)
