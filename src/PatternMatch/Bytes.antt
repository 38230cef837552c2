-- ===== src/PatternMatch/Bytes.antt =====
-- `fnmatch_bytes` and `fnmatch_segment` decide the relation `Glob`, up to their depth bound.
use gh_report.Prelude.{
  ℕ, ◌+◌, ◌≤◌, ◌≡◌, ◌≢◌, ◌↔◌, inl, inr, refl, Bool, true, false, [], ◌∷◌, Text, arith, length, any,
  suffixes, any_witness, false≢true, Bool-cases, ltb, ◌==◌, ==_iff,
}
use gh_report.PatternMatch.{star, question, fnmatch_bytes, step_one}
use gh_report.PatternMatch.Glob.{Glob, done, star_end, star_more, single, literal}

star_of_any :
    (f : Text → Bool) (q : ℕ) (p : Text)
    → q ≡ star
    → ((s : Text) → f s ≡ true → Glob p s)
    → (c : Text) → any f (suffixes c) ≡ true
    → Glob (q ∷ p) c
star_of_any f q p e sound [] h = star_end e (sound [] (ground arith))
star_of_any f q p e sound (x ∷ c) h = elim (Bool-cases (f (x ∷ c))) [
  | inl now ↦ star_end e (sound (x ∷ c) now)
  | inr later ↦ star_more e (star_of_any f q p e sound c (rw later at h))
]

any_of_star :
    (f : Text → Bool) (q : ℕ) (p c : Text)
    → q ≡ star
    → ((s : Text) → Glob p s → f s ≡ true)
    → Glob (q ∷ p) c
    → any f (suffixes c) ≡ true
any_of_star f q p [] e complete (star_end _ g) = rw (complete [] g)
any_of_star f q p (x ∷ c) e complete (star_end _ g) = rw (complete (x ∷ c) g)
any_of_star f q p (x ∷ c) e complete (star_more _ g) =
    ground (arith, any_of_star f q p c e complete g)
any_of_star f q p (x ∷ c) e complete (single e' g) = ground arith
any_of_star f q p (x ∷ c) e complete (literal n _ _ g) = absurd (n e)

-- a first byte that is no star takes one byte of the candidate
one_of_step :
    (test : ℕ → Bool) (f : Text → Bool) (c : Text)
    → step_one test f c ≡ true
    → (x : ℕ) × (s : Text) × (c ≡ x ∷ s) × (test x ≡ true) × (f s ≡ true)
one_of_step test f [] h = ground arith
one_of_step test f (x ∷ c) h = elim (Bool-cases (test x)) [
  | inl e ↦ (x, c, refl, e, rw e at h)
  | inr e ↦ absurd (false≢true (rw e at h))
]

-- Every match of the depth-bounded matcher is a match of the pattern, and the depth never passes
-- the bound: each byte of the pattern costs one level.
pub fnmatch_bytes_sound :
    (p c : Text) (depth max : ℕ)
    → fnmatch_bytes p c depth max ≡ true
    → Glob p c × (depth + length p ≤ max)
unfolding fnmatch_bytes
fnmatch_bytes_sound [] [] depth max h = (done, ground arith)
fnmatch_bytes_sound [] (x ∷ c) depth max h = ground arith
fnmatch_bytes_sound (q ∷ p) c depth max h =
    let rest = λ (s : Text). fnmatch_bytes p s (depth + 1) max in
    elim (Bool-cases (ltb max depth)) [
      | inl over ↦ absurd (false≢true (rw over at h))
      | inr under ↦ elim (Bool-cases (q == star)) [
        | inl e ↦
            let found : any rest (suffixes c) ≡ true = rw (under, e) at h in
            let (s, fs) = any_witness rest (suffixes c) found in
            (
              star_of_any rest q p ((==_iff q star).0 e)
                  (λ t ft. (fnmatch_bytes_sound p t (depth + 1) max ft).0) c found,
              omega (arith, (fnmatch_bytes_sound p s (depth + 1) max fs).1),
            )
        | inr ne ↦ elim (Bool-cases (q == question)) [
          | inl e ↦
              let (x, s, ec, _, fs) = one_of_step (λ _. true) rest c (rw (under, ne, e) at h) in
              let (g, bound) = fnmatch_bytes_sound p s (depth + 1) max fs in
              (rw ec (single ((==_iff q question).0 e) g), omega arith)
          | inr nq ↦
              let (x, s, ec, eq, fs) = one_of_step (λ y. y == q) rest c (rw (under, ne, nq) at h) in
              let (g, bound) = fnmatch_bytes_sound p s (depth + 1) max fs in
              (rw ec (literal (ground arith) (ground arith) ((==_iff x q).0 eq) g), omega arith)
        ]
      ]
    ]

-- what a match of a non-empty pattern is made of
data Head (q : ℕ) (p c : Text) : Type 0 where
  stars : q ≡ star → Head q p c
  asks : (x : ℕ) (s : Text) → q ≡ question → c ≡ x ∷ s → Glob p s → Head q p c
  names : (x : ℕ) (s : Text) → q ≢ star → q ≢ question → x ≡ q → c ≡ x ∷ s → Glob p s → Head q p c

Glob-Head : {q : ℕ} {p c : Text} → Glob (q ∷ p) c → Head q p c
Glob-Head (star_end e g) = stars e
Glob-Head (star_more e g) = stars e
Glob-Head (single {x = x} {c = c} e g) = asks x c e refl g
Glob-Head (literal {x = x} {c = c} n m e g) = names x c n m e refl g

step_one-true :
    (test : ℕ → Bool) (f : Text → Bool) (c : Text) (x : ℕ) (s : Text)
    → c ≡ x ∷ s
    → test x ≡ true
    → f s ≡ true
    → step_one test f c ≡ true
step_one-true test f c x s ec et ef = rw (ec, et) ef

pub fnmatch_bytes_complete :
    (p c : Text) (depth max : ℕ)
    → Glob p c
    → depth + length p ≤ max
    → fnmatch_bytes p c depth max ≡ true
unfolding fnmatch_bytes
fnmatch_bytes_complete [] [] depth max g h = ground arith
fnmatch_bytes_complete [] (x ∷ c) depth max g h = elim g [ ]
fnmatch_bytes_complete (q ∷ p) c depth max g h =
    let rest = λ (s : Text). fnmatch_bytes p s (depth + 1) max in
    let under : ltb max depth ≡ false = ground arith in
    let later : (s : Text) → Glob p s → rest s ≡ true =
      λ s gs. fnmatch_bytes_complete p s (depth + 1) max gs (omega arith) in
    elim (Glob-Head g) [
      | stars e ↦ rw (under, (==_iff q star).1 e) (any_of_star rest q p c e later g)
      | asks x s e ec gs ↦
          let ne : (q == star) ≡ false = ground arith in
          rw (under, ne, (==_iff q question).1 e)
            (step_one-true (λ _. true) rest c x s ec refl (later s gs))
      | names x s n m e ec gs ↦
          let ne : (q == star) ≡ false = ground arith in
          let nq : (q == question) ≡ false = ground arith in
          rw (under, ne, nq)
            (step_one-true (λ y. y == q) rest c x s ec ((==_iff x q).1 e) (later s gs))
    ]

-- The byte matcher answers yes exactly on the candidates that the pattern matches, as long as the
-- depth that is left admits one level for each byte of the pattern; past that bound it answers no.
pub fnmatch_bytes-iff-Glob :
    (p c : Text) (depth max : ℕ)
    → (fnmatch_bytes p c depth max ≡ true) ↔ (Glob p c × (depth + length p ≤ max))
fnmatch_bytes-iff-Glob p c depth max =
    (fnmatch_bytes_sound p c depth max, λ h. fnmatch_bytes_complete p c depth max h.0 h.1)
