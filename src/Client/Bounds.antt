-- ===== src/Client/Bounds.antt =====
-- What is read of a body.
use gh_report.Prelude.{
  ℕ, ◌+◌, ◌≤◌, ◌≡◌, ◌↔◌, inl, inr, refl, ap, ◌∙◌, sym, Bool, true, false, Option, none, some, [],
  ◌++◌, Text, ltb, arith, length, length-append, Bool-cases, Option-cases, append_assoc, append-nil,
  false≢true,
}
use mathlib.Core.Path.{subst}
use mathlib.Core.Option.{some-injective, none-ne-some}
use gh_report.Client.Bodies.{
  Stream, done, broken, chunk, ReadResult, read, refused, BodyReadError, read_chunks,
  read_body_bytes_limited,
}

-- the whole of a stream that ends in order
unfoldable pub whole : Stream → Option Text
whole done = some []
whole (broken e) = none
whole (chunk bytes rest) = elim (whole rest) [ none ↦ none | some s ↦ some (bytes ++ s) ]

abbrev Reads : ℕ → Text → Stream → Text → Type 0
Reads bound body stream text =
    (read_chunks bound body stream ≡ read text)
    ↔ ((s : Text) × (whole stream ≡ some s) × (text ≡ body ++ s) × (length text ≤ bound))

read_text : ReadResult → Text
read_text (read t) = t
read_text (refused e) = []

is_read : ReadResult → Bool
is_read (read t) = true
is_read (refused e) = false

refused≢read : (e : BodyReadError) (t : Text) → refused e ≡ read t → ⊥
unfolding is_read
refused≢read e t h = false≢true (ap is_read h)

read_inj : {s t : Text} → read s ≡ read t → s ≡ t
unfolding read_text
read_inj e = ap read_text e

read_chunks_sound :
    (bound : ℕ) (body : Text) (stream : Stream) (text : Text)
    → length body ≤ bound
    → read_chunks bound body stream ≡ read text
    → (s : Text) × (whole stream ≡ some s) × (text ≡ body ++ s) × (length text ≤ bound)
unfolding read_chunks whole
read_chunks_sound bound body done text h e = (
  [],
  refl,
  sym (read_inj e) ∙ sym (append-nil body),
  subst (λ t. length t ≤ bound) (read_inj e) h,
)
read_chunks_sound bound body (broken err) text h e = absurd (refused≢read _ text e)
read_chunks_sound bound body (chunk bytes rest) text h e =
    elim (Bool-cases (ltb bound (length body + length bytes))) [
      | inl over ↦ absurd (refused≢read _ text (simp over at e))
      | inr fits ↦
          let (s, w, joined, bound_h) =
            read_chunks_sound bound (body ++ bytes) rest text
              (ground (arith, fits, length-append body bytes)) (simp fits at e) in
          (bytes ++ s, rw w refl, joined ∙ append_assoc body bytes s, bound_h)
    ]

read_chunks_complete :
    (bound : ℕ) (body : Text) (stream : Stream) (s : Text)
    → whole stream ≡ some s
    → length (body ++ s) ≤ bound
    → read_chunks bound body stream ≡ read (body ++ s)
unfolding read_chunks whole
read_chunks_complete bound body done s w h =
    ap read (sym (append-nil body) ∙ ap (◌++◌ body) (some-injective _ _ w))
read_chunks_complete bound body (broken err) s w h = absurd (none-ne-some _ w)
read_chunks_complete bound body (chunk bytes rest) s w h = elim (Option-cases (whole rest)) [
  | inl n ↦ absurd (none-ne-some _ (simp n at w))
  | inr (t, e) ↦
      let same : bytes ++ t ≡ s = some-injective _ _ (simp e at w) in
      let long : length (body ++ (bytes ++ t)) ≤ bound = rw same h in
      let fits : ltb bound (length body + length bytes) ≡ false =
        ground (arith, length-append body (bytes ++ t), length-append bytes t) in
      let joined = append_assoc body bytes t in
      rw fits (
        read_chunks_complete bound (body ++ bytes) rest t e (rw joined long)
        ∙ ap read (joined ∙ ap (◌++◌ body) same))
]

-- the length that a response declares
abbrev pub Declares : ℕ → Option ℕ → Type 0
Declares bound none = Unit
Declares bound (some len) = len ≤ bound

limited_sound :
    (declared : Option ℕ) (stream : Stream) (bound : ℕ) (text : Text)
    → read_body_bytes_limited declared stream bound ≡ read text
    → Declares bound declared × (read_chunks bound [] stream ≡ read text)
unfolding read_body_bytes_limited
limited_sound none stream bound text e = (tt, e)
limited_sound (some len) stream bound text e = elim (Bool-cases (ltb bound len)) [
  | inl over ↦ absurd (refused≢read _ text (simp over at e))
  | inr fits ↦ ((ground (arith, fits)), simp fits at e)
]

limited_complete :
    (declared : Option ℕ) (stream : Stream) (bound : ℕ) (text : Text)
    → Declares bound declared
    → read_chunks bound [] stream ≡ read text
    → read_body_bytes_limited declared stream bound ≡ read text
unfolding read_body_bytes_limited
limited_complete none stream bound text d e = e
limited_complete (some len) stream bound text d e =
    let fits : ltb bound len ≡ false = ground (arith, d) in rw fits e

-- A body is accepted exactly when its stream ends in order, the length that it declares (if it
-- declares one) and the length that arrives are both within the bound; what is read is then the
-- whole body.
pub read_body_bytes_limited_iff :
    (declared : Option ℕ) (stream : Stream) (bound : ℕ) (text : Text)
    → (read_body_bytes_limited declared stream bound ≡ read text)
      ↔ (Declares bound declared × (whole stream ≡ some text) × (length text ≤ bound))
read_body_bytes_limited_iff declared stream bound text = (
  λ e.
      let (d, chunks) = limited_sound declared stream bound text e in
      let (s, w, joined, fits) = read_chunks_sound bound [] stream text (omega arith) chunks in
      (d, subst (λ t. whole stream ≡ some t) (sym joined) w, fits),
  λ (d, w, fits).
      limited_complete declared stream bound text d
        (read_chunks_complete bound [] stream text w fits),
)
