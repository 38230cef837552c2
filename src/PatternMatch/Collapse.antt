-- ===== src/PatternMatch/Collapse.antt =====
-- Collapsing consecutive stars in `fnmatch_segment` keeps what the pattern matches.
use gh_report.Prelude.{
  ℕ, ◌≤◌, ◌≡◌, ◌↔◌, inl, inr, refl, Bool, true, false, ◌&&◌, [], ◌∷◌, ◌++◌, append_assoc,
  append-nil, sym, Text, arith, length, Bool-cases, and_true, ◌==◌, ==_iff, if◌then◌else◌,
}
use gh_report.PatternMatch.{star, collapse, ends_in_star, fnmatch_segment}
use gh_report.PatternMatch.Glob.{Glob, star_end, star_more, single, literal}
use gh_report.PatternMatch.Bytes.{fnmatch_bytes-iff-Glob}

-- the loop without its accumulator: whether the byte before was a star, and the bytes to come
squeeze : Bool → Text → Text
squeeze last [] = []
squeeze last (b ∷ raw) =
    let rest = squeeze (b == star) raw in if b == star && last then rest else b ∷ rest

ends_in_star-append : (out : Text) (b : ℕ) → ends_in_star (out ++ b ∷ []) ≡ (b == star)
ends_in_star-append [] b = refl
ends_in_star-append (a ∷ []) b = refl
ends_in_star-append (a ∷ c ∷ out) b = ends_in_star-append (c ∷ out) b

collapse-squeeze : (raw out : Text) → collapse out raw ≡ out ++ squeeze (ends_in_star out) raw
unfolding collapse squeeze
collapse-squeeze [] out = sym (append-nil out)
collapse-squeeze (b ∷ raw) out = elim (Bool-cases (b == star && ends_in_star out)) [
  | inl e ↦
      let (eb, eo) = and_true (b == star) (ends_in_star out) e in
      rw e (rw (collapse-squeeze raw out, eb, eo))
  | inr e ↦
      rw e (rw (collapse-squeeze raw (out ++ b ∷ []), ends_in_star-append out b, append_assoc))
]

cons_map :
    (b : ℕ) (p p' : Text)
    → ((c : Text) → Glob p c → Glob p' c)
    → (c : Text) → Glob (b ∷ p) c
    → Glob (b ∷ p') c
cons_map b p p' f c (star_end e g) = star_end e (f c g)
cons_map b p p' f (x ∷ c) (star_more e g) = star_more e (cons_map b p p' f c g)
cons_map b p p' f (x ∷ c) (single e g) = single e (f c g)
cons_map b p p' f (x ∷ c) (literal n m e g) = literal n m e (f c g)

star-star : (b : ℕ) (p c : Text) → b ≡ star → Glob (star ∷ b ∷ p) c → Glob (star ∷ p) c
star-star b p c e (star_end _ g) = rw (← e) g
star-star b p (x ∷ c) e (star_more _ g) = star_more refl (star-star b p c e g)
star-star b p (x ∷ c) e (single q g) = ground arith
star-star b p (x ∷ c) e (literal n _ _ g) = absurd (n refl)

squeeze_sound :
    (p : Text)
    → ((c : Text) → Glob (squeeze false p) c → Glob p c)
      × ((c : Text) → Glob (star ∷ squeeze true p) c → Glob (star ∷ p) c)
unfolding squeeze
squeeze_sound [] = (λ c g. g, λ c g. g)
squeeze_sound (b ∷ p) =
    let (plain, starred) = squeeze_sound p in
    elim (Bool-cases (b == star)) [
      | inl e ↦ let eb = (==_iff b star).0 e in rw eb (starred, λ c g. star_end refl (starred c g))
      | inr e ↦ rw e (
        cons_map b (squeeze false p) p plain,
        cons_map star (b ∷ squeeze false p) (b ∷ p) (cons_map b (squeeze false p) p plain),
      )
    ]

squeeze_complete :
    (p : Text)
    → ((c : Text) → Glob p c → Glob (squeeze false p) c)
      × ((c : Text) → Glob (star ∷ p) c → Glob (star ∷ squeeze true p) c)
unfolding squeeze
squeeze_complete [] = (λ c g. g, λ c g. g)
squeeze_complete (b ∷ p) =
    let (plain, starred) = squeeze_complete p in
    elim (Bool-cases (b == star)) [
      | inl e ↦
          let eb = (==_iff b star).0 e in
          rw eb (starred, λ c g. starred c (star-star star p c refl g))
      | inr e ↦ rw e (
        cons_map b p (squeeze false p) plain,
        cons_map star (b ∷ p) (b ∷ squeeze false p) (cons_map b p (squeeze false p) plain),
      )
    ]

length-squeeze : (last : Bool) (p : Text) → length (squeeze last p) ≤ length p
unfolding squeeze
length-squeeze last [] = omega arith
length-squeeze last (b ∷ p) = ground (arith, length-squeeze (b == star) p)

pub length-collapse : (p : Text) → length (collapse [] p) ≤ length p
length-collapse p = rw (collapse-squeeze p []) (length-squeeze false p)

-- A segment matches exactly when the pattern with all its stars does and the collapsed pattern is
-- no longer than the recursion bound.
pub fnmatch_segment-iff-Glob :
    (p c : Text) (max : ℕ)
    → (fnmatch_segment p c max ≡ true) ↔ (Glob p c × (length (collapse [] p) ≤ max))
unfolding fnmatch_segment
fnmatch_segment-iff-Glob p c max = (
  λ h.
      let (g, bound) = (fnmatch_bytes-iff-Glob (collapse [] p) c 0 max).0 h in
      ((squeeze_sound p).0 c (rw (collapse-squeeze p []) at g), omega arith),
  λ h.
      (fnmatch_bytes-iff-Glob (collapse [] p) c 0 max).1
        (rw (collapse-squeeze p []) ((squeeze_complete p).0 c h.0), omega (arith, h.1)),
)
