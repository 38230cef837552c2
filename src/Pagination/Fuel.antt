-- ===== src/Pagination/Fuel.antt =====
-- Each turn of the two loops on fuel leaves less of the field, so the fuel that they start with is
-- enough.
use gh_report.Prelude.{
  List-cases, split_once, ℕ, zero, suc, ◌≤◌, ◌<◌, ◌≡◌, refl, sym, ap, ◌∙◌, Bool, Option, none, some,
  List, [], ◌∷◌, ◌++◌, Text, arith, length, Option-cases, Bool-cases, inl, inr, ◌==◌, if◌then◌else◌,
  ◌>>=◌, ◌||◌,
}
use mathlib.Core.Option.{some-injective, none-ne-some}
use gh_report.Pagination.{
  trim_start, trim_end, Quote, outside, quoted, escaped, scan, scan_one_parameter, parameters_loop,
  scan_parameters, link_value, collect_loop, collect_next_targets, is_blank, is_blank_or_comma,
  parameters_name_next,
}

length-trim_start : (p : ℕ → Bool) (s : Text) → length (trim_start p s) ≤ length s
unfolding trim_start
length-trim_start p [] = omega arith
length-trim_start p (c ∷ s) = ground (arith, length-trim_start p s)

split_once_shorter : (c : ℕ) (s a b : Text) → split_once c s ≡ some (a, b) → length b < length s
unfolding split_once
split_once_shorter c [] a b h = ground arith
split_once_shorter c (x ∷ s) a b h = elim (Option-cases (split_once c s)) [
  | inl e ↦ ground arith
  | inr ((a', b'), e) ↦ ground (arith, split_once_shorter c s a' b' e)
]

abbrev onto : ℕ → Option (Text × Text) → Option (Text × Text)
onto c o = do (a, b) ← o; some (c ∷ a, b)

onto-some :
    (c : ℕ) (o : Option (Text × Text)) (a b : Text)
    → onto c o ≡ some (a, b)
    → (a' : Text) × (o ≡ some (a', b))
onto-some c none a b h = ground arith
onto-some c (some (a', b')) a b h = (a', ground arith)

stopped :
    (c : ℕ) (s a b : Text)
    → ◌≡◌ {A = Option (Text × Text)} (some ([], c ∷ s)) (some (a, b))
    → length b ≤ suc (length s)
stopped c s a b h = ground arith

scan_shorter : (q : Quote) (s a b : Text) → scan q s ≡ some (a, b) → length b ≤ length s
unfolding scan
scan_shorter outside [] a b h = ground arith
scan_shorter quoted [] a b h = ground arith
scan_shorter escaped [] a b h = ground arith
scan_shorter outside (c ∷ s) a b h = elim (Bool-cases (c == b';' || c == b',')) [
  | inl e ↦ stopped c s a b (rw e at h)
  | inr e ↦ elim (Bool-cases (c == b'"')) [
    | inl d ↦
        let (a', g) = onto-some c (scan quoted s) a b (rw (e, d) at h) in
        omega (arith, scan_shorter quoted s a' b g)
    | inr d ↦
        let (a', g) = onto-some c (scan outside s) a b (rw (e, d) at h) in
        omega (arith, scan_shorter outside s a' b g)
  ]
]
scan_shorter quoted (c ∷ s) a b h = elim (Bool-cases (c == b'\\')) [
  | inl e ↦
      let (a', g) = onto-some c (scan escaped s) a b (rw e at h) in
      omega (arith, scan_shorter escaped s a' b g)
  | inr e ↦ elim (Bool-cases (c == b'"')) [
    | inl d ↦
        let (a', g) = onto-some c (scan outside s) a b (rw (e, d) at h) in
        omega (arith, scan_shorter outside s a' b g)
    | inr d ↦
        let (a', g) = onto-some c (scan quoted s) a b (rw (e, d) at h) in
        omega (arith, scan_shorter quoted s a' b g)
  ]
]
scan_shorter escaped (c ∷ s) a b h =
    let (a', g) = onto-some c (scan quoted s) a b h in omega (arith, scan_shorter quoted s a' b g)

bind_some {ℓ κ} :
    {A : Type ℓ} {B : Type κ} (o : Option A) (f : A → Option B) (b : B)
    → (o >>= f) ≡ some b
    → (a : A) × (o ≡ some a) × (f a ≡ some b)
bind_some none f b h = absurd (none-ne-some b h)
bind_some (some a) f b h = (a, refl, h)

parameter_shorter :
    (s p rest : Text) → scan_one_parameter s ≡ some (p, rest) → length rest ≤ length s
unfolding scan_one_parameter
parameter_shorter s p rest h =
    let ((a, b), e, g) =
      bind_some (scan outside (trim_start is_blank s)) (λ (a, b). some (trim_end is_blank a, b))
        (p, rest) h in
    let same : b ≡ rest = ap (λ (x, y). y) (some-injective (trim_end is_blank a, b) (p, rest) g) in
    rw (← same) (
      omega
        (arith, scan_shorter outside (trim_start is_blank s) a b e, length-trim_start is_blank s))

-- any two fuels of at least the input's length give the same parameters
parameters_enough :
    (f g : ℕ) (s : Text) → length s ≤ f → length s ≤ g → parameters_loop f s ≡ parameters_loop g s
unfolding parameters_loop
parameters_enough f g [] hf hg = refl
parameters_enough zero g (c ∷ s) hf hg = ground arith
parameters_enough (suc f) zero (c ∷ s) hf hg = ground arith
parameters_enough (suc f) (suc g) (c ∷ s) hf hg = elim (Bool-cases (c == b',')) [
  | inl e ↦ rw e refl
  | inr e ↦ elim (Bool-cases (c == b';')) [
    | inr d ↦ rw (e, d) refl
    | inl d ↦ elim (Option-cases (scan_one_parameter s)) [
      | inl n ↦ rw (e, d, n) refl
      | inr ((p, rest), m) ↦
          let less = parameter_shorter s p rest m in
          rw (e, d, m)
            (rw (parameters_enough f g rest (omega (arith, hf, less)) (omega (arith, hg, less)))
              refl)
    ]
  ]
]

behind {ℓ} :
    {A : Type ℓ} (x y : A) (r s : Text)
    → ◌≡◌ {A = Option (A × Text)} (some (x, r)) (some (y, s))
    → r ≡ s
behind x y r s h = ap (λ (a, b). b) (some-injective (x, r) (y, s) h)

parameters_shorter :
    (f : ℕ) (s : Text) (ps : List Text) (rest : Text)
    → parameters_loop f s ≡ some (ps, rest)
    → length rest ≤ length s
unfolding parameters_loop
parameters_shorter f [] ps rest h = rw (← behind [] ps [] rest h) (omega arith)
parameters_shorter zero (c ∷ s) ps rest h = elim (Bool-cases (c == b',')) [
  | inl e ↦ rw (← behind [] ps (c ∷ s) rest (rw e at h)) (omega arith)
  | inr e ↦ absurd (none-ne-some (ps, rest) (rw e at h))
]
parameters_shorter (suc f) (c ∷ s) ps rest h = elim (Bool-cases (c == b',')) [
  | inl e ↦ rw (← behind [] ps (c ∷ s) rest (rw e at h)) (omega arith)
  | inr e ↦ elim (Bool-cases (c == b';')) [
    | inr d ↦ absurd (none-ne-some (ps, rest) (rw (e, d) at h))
    | inl d ↦
        let ((p, r), m, k) =
          bind_some (scan_one_parameter s)
            (λ (p, r). do (qs, end) ← parameters_loop f r; some (p ∷ qs, end)) (ps, rest)
            (rw (e, d) at h) in
        let ((qs, end), n, g) =
          bind_some (parameters_loop f r) (λ (qs, end). some (p ∷ qs, end)) (ps, rest) k in
        let same = behind (p ∷ qs) ps end rest g in
        rw (← same) (omega (arith, parameters_shorter f r qs end n, parameter_shorter s p r m))
  ]
]

scan_parameters_shorter :
    (s : Text) (ps : List Text) (rest : Text)
    → scan_parameters s ≡ some (ps, rest)
    → length rest ≤ length s
unfolding scan_parameters
scan_parameters_shorter s ps rest h =
    let input = trim_start is_blank s in
    omega (arith, parameters_shorter (length input) input ps rest h, length-trim_start is_blank s)

link_value_shorter :
    (s : Text) (targets found : List Text) (rest : Text)
    → link_value s targets ≡ some (found, rest)
    → length rest < length s
unfolding link_value
link_value_shorter s targets found rest h =
    let ((url, beh), m, k) =
      bind_some (split_once b'>' s)
        (λ (url, beh). do
          (params, r) ← scan_parameters beh
          next ← parameters_name_next params
          some (if next then targets ++ url ∷ [] else targets, r))
        (found, rest) h in
    let ((params, r), n, j) =
      bind_some (scan_parameters beh)
        (λ (params, r). do
          next ← parameters_name_next params
          some (if next then targets ++ url ∷ [] else targets, r))
        (found, rest) k in
    let (next, o, g) =
      bind_some (parameters_name_next params)
        (λ next. some (if next then targets ++ url ∷ [] else targets, r)) (found, rest) j in
    let same = behind (if next then targets ++ url ∷ [] else targets) found r rest g in
    rw (← same)
      (omega (arith, split_once_shorter b'>' s url beh m, scan_parameters_shorter beh params r n))

pub collect_done :
    (f : ℕ) (field : Text) (targets : List Text)
    → trim_start is_blank_or_comma field ≡ []
    → collect_loop (suc f) field targets ≡ some targets
unfolding collect_loop
collect_done f field targets e = ground arith

pub collect_turn :
    (f c : ℕ) (field s : Text) (targets : List Text)
    → trim_start is_blank_or_comma field ≡ c ∷ s
    → collect_loop (suc f) field targets ≡ (
        if c == b'<'
        then (do (found, rest) ← link_value s targets; collect_loop f rest found)
        else none)
unfolding collect_loop
collect_turn f c field s targets e = ground arith

-- two fuels that agree on what is shorter agree on a turn
turn_same :
    (f g : ℕ) (s : Text) (targets : List Text)
    → ((rest : Text) (found : List Text)
        → length rest < length s
        → collect_loop f rest found ≡ collect_loop g rest found)
    → (do (found, rest) ← link_value s targets; collect_loop f rest found)
      ≡ (do (found, rest) ← link_value s targets; collect_loop g rest found)
turn_same f g s targets agree = elim (Option-cases (link_value s targets)) [
  | inl n ↦ rw n refl
  | inr ((found, rest), m) ↦ rw m (agree rest found (link_value_shorter s targets found rest m))
]

collect_enough :
    (f g : ℕ) (field : Text) (targets : List Text)
    → length field < f
    → length field < g
    → collect_loop f field targets ≡ collect_loop g field targets
collect_enough zero g field targets hf hg = absurd (omega (arith, hf))
collect_enough (suc f) zero field targets hf hg = absurd (omega (arith, hg))
collect_enough (suc f) (suc g) field targets hf hg =
    elim (List-cases (trim_start is_blank_or_comma field)) [
      | inl e ↦ collect_done f field targets e ∙ sym (collect_done g field targets e)
      | inr (c, s, e) ↦
          let less : suc (length s) ≤ length field =
            rw (← ap length e) (length-trim_start is_blank_or_comma field) in
          collect_turn f c field s targets e
          ∙ ap (λ o. if c == b'<' then o else none)
              (turn_same f g s targets λ rest found shorter.
                collect_enough f g rest found (omega (arith, hf, less, shorter))
                  (omega (arith, hg, less, shorter)))
          ∙ sym (collect_turn g c field s targets e)
    ]

-- Any fuel above the length of a field gives the result of `collect_next_targets`: the loop over a
-- field never runs out.
pub collect_next_targets_enough :
    (fuel : ℕ) (field : Text) (targets : List Text)
    → length field < fuel
    → collect_loop fuel field targets ≡ collect_next_targets field targets
unfolding collect_next_targets
collect_next_targets_enough fuel field targets h =
    collect_enough fuel (suc (length field)) field targets h (omega arith)
