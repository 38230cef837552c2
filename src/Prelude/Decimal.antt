-- ===== src/Prelude/Decimal.antt =====
-- `u64::to_string`: the decimal spelling of a 64-bit number, and that it tells numbers apart.
use Prim.Native.Nat.{ℕ, zero, suc, ◌+◌, ◌-◌, ◌*◌, ◌/◌, ◌%◌, ◌^◌, ◌<◌}
use mathlib.Core.Path.{◌≡◌, refl, ap, ◌∙◌}
use mathlib.Core.Logic.{inl, inr}
use mathlib.Core.List.{[], ◌∷◌, ◌++◌}
use native.Mathlib.Omega.{arith}
use gh_report.Prelude.Tests.{ltb, if◌then◌else◌, Bool-cases}
use gh_report.Prelude.Bytes.{Text}

-- the digits of a number below `10 ^ places`
unfoldable pub digits : ℕ → ℕ → Text
digits zero n = []
digits (suc places) n =
    let higher = digits places (n / 10) in
    if ltb n 10 then (b'0' + n) ∷ [] else higher ++ (b'0' + n % 10) ∷ []

-- 20 places hold every 64-bit number
unfoldable pub to_string : ℕ → Text
unfolding digits
to_string n = digits 20 n

abbrev value_from : ℕ → Text → ℕ
value_from acc [] = acc
value_from acc (c ∷ s) = value_from (acc * 10 + (c - b'0')) s

value_from-snoc :
    (acc c : ℕ) (s : Text) → value_from acc (s ++ c ∷ []) ≡ value_from acc s * 10 + (c - b'0')
value_from-snoc acc c [] = refl
value_from-snoc acc c (d ∷ s) = value_from-snoc (acc * 10 + (d - b'0')) c s

power_step : (p n : ℕ) → n < 10 * p → n / 10 < p
power_step p n h = omega arith

value_from-digits : (places n : ℕ) → n < 10 ^ suc places → value_from 0 (digits (suc places) n) ≡ n
unfolding digits
value_from-digits zero n h = ground arith
value_from-digits (suc places) n h =
    let lower = value_from-digits places (n / 10) (power_step (10 ^ suc places) n (omega arith)) in
    elim (Bool-cases (ltb n 10)) [
      | inl e ↦ rw e (omega arith)
      | inr e ↦
          rw e (
            value_from-snoc 0 (b'0' + n % 10) (digits (suc places) (n / 10)) ∙ omega (arith, lower))
    ]

pub to_string-injective : (a b : ℕ) → a < 2 ^ 64 → b < 2 ^ 64 → to_string a ≡ to_string b → a ≡ b
unfolding to_string
to_string-injective a b ha hb h =
    let back = λ (n : ℕ) (hn : n < 2 ^ 64). value_from-digits 19 n (omega arith) in
    cc (back a ha, back b hb, ap (value_from 0) h)
