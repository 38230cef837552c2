-- ===== src/Prelude/Bytes.antt =====
-- Rust's `String` and `&str` as the list of their bytes: equality, the bytewise order of `Ord`,
-- and the few methods that the program calls.
use Prim.Native.Nat.{ℕ, compare, Ordering}
use Prim.Native.Char.{code}
use Prim.Native.String.{String}
use mathlib.Core.Path.{◌≡◌, refl}
use mathlib.Core.Logic.{◌↔◌}
use mathlib.Core.Bool.{Bool, true, false, ◌&&◌}
use mathlib.Core.Option.{Option, none, some}
use mathlib.Core.List.{List, [], ◌∷◌}
use native.Mathlib.Omega.{arith}
use gh_report.Prelude.Tests.{◌==◌, if◌then◌else◌, ◌>>=◌}

abbrev pub Text : Type 0
Text = List ℕ

abbrev pub codes : String → Text
codes String.[] = []
codes (String.◌∷◌ c s) = code c ∷ codes s

-- `==` on strings
unfoldable pub text_eq : Text → Text → Bool
text_eq [] [] = true
text_eq (a ∷ s) (b ∷ t) = a == b && text_eq s t
text_eq _ _ = false

-- `Ord::cmp` on strings
unfoldable pub text_cmp : Text → Text → Ordering
text_cmp [] [] = Ordering.eq
text_cmp [] (b ∷ t) = Ordering.lt
text_cmp (a ∷ s) [] = Ordering.gt
text_cmp (a ∷ s) (b ∷ t) = elim (compare a b) [
  | Ordering.lt ↦ Ordering.lt
  | Ordering.eq ↦ text_cmp s t
  | Ordering.gt ↦ Ordering.gt
]

pub text_eq_iff : (s t : Text) → (text_eq s t ≡ true) ↔ (s ≡ t)
unfolding text_eq
text_eq_iff [] [] = ground arith
text_eq_iff [] (b ∷ t) = ground arith
text_eq_iff (a ∷ s) [] = ground arith
text_eq_iff (a ∷ s) (b ∷ t) = ground (arith, text_eq_iff s t)

pub text_eq_refl : (s : Text) → text_eq s s ≡ true
text_eq_refl s = (text_eq_iff s s).1 refl

pub text_cmp-eq : (s t : Text) → text_cmp s t ≡ Ordering.eq → s ≡ t
unfolding text_cmp
text_cmp-eq [] [] h = refl
text_cmp-eq [] (b ∷ t) h = ground arith
text_cmp-eq (a ∷ s) [] h = ground arith
text_cmp-eq (a ∷ s) (b ∷ t) h = ground (arith, text_cmp-eq s t)

pub text_cmp_refl : (s : Text) → text_cmp s s ≡ Ordering.eq
unfolding text_cmp
text_cmp_refl [] = refl
text_cmp_refl (a ∷ s) = ground (arith, text_cmp_refl s)

pub text_cmp_flip : (s t : Text) → text_cmp s t ≡ Ordering.gt → text_cmp t s ≡ Ordering.lt
unfolding text_cmp
text_cmp_flip [] [] h = ground arith
text_cmp_flip [] (b ∷ t) h = ground arith
text_cmp_flip (a ∷ s) [] h = refl
text_cmp_flip (a ∷ s) (b ∷ t) h = ground (arith, text_cmp_flip s t)

pub text_cmp_trans :
    (s t u : Text)
    → text_cmp s t ≡ Ordering.lt
    → text_cmp t u ≡ Ordering.lt
    → text_cmp s u ≡ Ordering.lt
unfolding text_cmp
text_cmp_trans [] [] u h k = ground arith
text_cmp_trans [] (b ∷ t) [] h k = ground arith
text_cmp_trans [] (b ∷ t) (c ∷ u) h k = refl
text_cmp_trans (a ∷ s) [] u h k = ground arith
text_cmp_trans (a ∷ s) (b ∷ t) [] h k = ground arith
text_cmp_trans (a ∷ s) (b ∷ t) (c ∷ u) h k = ground (arith, text_cmp_trans s t u)

-- `str::strip_prefix`
unfoldable pub strip_prefix : Text → Text → Option Text
strip_prefix [] s = some s
strip_prefix (a ∷ p) [] = none
strip_prefix (a ∷ p) (b ∷ s) = if a == b then strip_prefix p s else none

-- `str::starts_with`
unfoldable pub starts_with : Text → Text → Bool
starts_with [] s = true
starts_with (a ∷ p) [] = false
starts_with (a ∷ p) (b ∷ s) = a == b && starts_with p s

-- `str::split_once` at an ASCII character: what stands before and behind the first `c`
unfoldable pub split_once : ℕ → Text → Option (Text × Text)
split_once c [] = none
split_once c (x ∷ s) =
    let later = split_once c s in
    if x == c then some ([], s) else do (a, b) ← later; some (x ∷ a, b)
