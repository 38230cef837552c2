-- ===== src/PolicyCheck/Readings.antt =====
-- What an answer to a request of the security-policy check says, in the words of the API.
use gh_report.Prelude.{
  ℕ, ◌≡◌, ◌≢◌, ◌↔◌, ◌⊎◌, inl, inr, refl, ap, sym, ◌∙◌, Bool, true, false, not, ◌&&◌, ◌||◌, Option,
  none, some, Text, codes, arith, text_eq, text_eq_iff, Bool-cases, Option-cases, is_some,
  false≢true, if◌then◌else◌, ◌>>=◌,
}
use mathlib.Core.Option.{some-injective, none-ne-some}
use gh_report.Api.{Json, ApiOutcome, is_ok, status_code, payload_of, success, failure}
use gh_report.Api
use gh_report.Checks.Score.{IndeterminateReason, invalid}
use gh_report.PolicyCheck.{
  is_denied, policy_failure, is_retryable_error, is_file, is_set, text_is, type_of, is_true,
  flag_or_absent,
}

-- the status is neither of those of a denied request
abbrev pub Allowed : ℕ → Type 0
Allowed status = (status ≢ 401) × (status ≢ 403)

Allowed-iff : (status : ℕ) → (is_denied (some status) ≡ false) ↔ Allowed status
Allowed-iff status = (λ h. (ground arith, ground arith), ground arith)

clean_read :
    (denied valid : Bool)
    → ((not denied
          && not (is_some {A = IndeterminateReason} (if valid then none else some invalid)))
        ≡ true)
      ↔ ((denied ≡ false) × (valid ≡ true))
clean_read denied valid = (ground arith, ground arith)

module _ (J : Json) where
  open J use {Value, get, as_array, as_str, as_bool, is_object, is_null}

  -- the answer shows no failure of any kind
  unfoldable pub is_clean : Bool → ApiOutcome Value → Bool
  unfolding policy_failure is_retryable_error status_code
  is_clean contents outcome =
      not (is_denied (status_code outcome))
      && (not (is_retryable_error J outcome) && not (is_some (policy_failure J outcome contents)))

  unfoldable pub shows_no_file : ApiOutcome Value → Bool
  unfolding is_file is_clean
  shows_no_file content = not (is_file J content) && is_clean true content

  abbrev pub TypeIs : Value → Text → Type 0
  TypeIs value word = (v : Value) × (get value (codes "type") ≡ some v) × (as_str v ≡ some word)

  -- the flag of the details is not there, is null, or is false
  abbrev pub Unflagged : Option Value → Type 0
  Unflagged flag =
      (flag ≡ none)
      ⊎ ((v : Value) × (flag ≡ some v)
          × ((as_bool v ≡ some false) ⊎ ((as_bool v ≡ none) × (is_null v ≡ true))))

  -- the details were read, and do not say that a policy is set
  abbrev pub DetailsWithout : ApiOutcome Value → Type 0
  DetailsWithout (success status (some value) headers cut) =
      Allowed status
      × (is_object value ≡ true)
      × Unflagged (get value (codes "is_security_policy_enabled"))
  DetailsWithout (success status none headers cut) = ⊥
  DetailsWithout (failure code error retryable) = ⊥

  -- a listing, or an entry that is no file
  abbrev pub OtherContents : Value → Type 0
  OtherContents value =
      (is_some (as_array value) ≡ true)
      ⊎ (TypeIs value (codes "dir")
          ⊎ (TypeIs value (codes "submodule") ⊎ TypeIs value (codes "symlink")))

  -- the path is missing, or what is there is not a file
  abbrev pub NoFile : ApiOutcome Value → Type 0
  NoFile (success status (some value) headers cut) =
      Allowed status × OtherContents value × (TypeIs value (codes "file") → ⊥)
  NoFile (success status none headers cut) = ⊥
  NoFile (failure none error retryable) = ⊥
  NoFile (failure (some code) error retryable) = (code ≡ 404) × (retryable ≡ false)

  type_iff :
      (value : Value) (word : Text) → (text_is J word (type_of J value) ≡ true) ↔ TypeIs value word
  unfolding text_is text_eq
  type_iff value word = elim (Option-cases (get value (codes "type"))) [
    | inl e ↦ rw e (λ h. absurd (false≢true h), λ (v, g, s). absurd (none-ne-some _ g))
    | inr (v, e) ↦ elim (Option-cases (as_str v)) [
      | inl n ↦
          rw (e, n)
            (
              λ h. absurd (false≢true h),
              λ (w, g, s).
                  absurd (none-ne-some word (sym n ∙ (ap as_str (some-injective v w g) ∙ s))),
            )
      | inr (s, n) ↦
          rw (e, n)
            (
              λ h. (v, refl, cc (n, (text_eq_iff s word).0 h)),
              λ (w, g, t).
                  (text_eq_iff s word).1
                    (some-injective s word (sym n ∙ (ap as_str (some-injective v w g) ∙ t))),
            )
    ]
  ]

  type_none :
      (value : Value) (word : Text)
      → text_is J word (type_of J value) ≡ false
      → TypeIs value word
      → ⊥
  type_none value word h t = false≢true (sym h ∙ (type_iff value word).1 t)

  type_not :
      (value : Value) (word : Text)
      → (TypeIs value word → ⊥)
      → text_is J word (type_of J value) ≡ false
  type_not value word h = elim (Bool-cases (text_is J word (type_of J value))) [
    | inl e ↦ absurd (h ((type_iff value word).0 e))
    | inr e ↦ e
  ]

  Unflagged-iff :
      (flag : Option Value)
      → ((is_true J (do v ← flag; as_bool v) ≡ false) × (flag_or_absent J flag ≡ true))
        ↔ Unflagged flag
  Unflagged-iff none = (λ h. inl refl, λ u. (refl, refl))
  Unflagged-iff (some v) = elim (Option-cases (as_bool v)) [
    | inl e ↦ rw e (
      λ (f, n). inr (v, refl, inr (e, n)),
      λ u. elim u [
        | inl n ↦ absurd (none-ne-some _ (sym n))
        | inr (w, same, what) ↦ elim what [
          | inl b ↦ absurd (none-ne-some false (sym e ∙ (ap as_bool (some-injective v w same) ∙ b)))
          | inr (n, null) ↦ (refl, ap is_null (some-injective v w same) ∙ null)
        ]
      ],
    )
    | inr (b, e) ↦ rw e (
      λ (f, n). inr (v, refl, inl (cc (e, f))),
      λ u. elim u [
        | inl n ↦ absurd (none-ne-some _ (sym n))
        | inr (w, same, what) ↦ elim what [
          | inl f ↦
              (some-injective b false (sym e ∙ (ap as_bool (some-injective v w same) ∙ f)), refl)
          | inr (n, null) ↦
              absurd (none-ne-some b (sym n ∙ (ap as_bool (sym (some-injective v w same)) ∙ e)))
        ]
      ],
    )
  ]

  pub details_iff :
      (details : ApiOutcome Value)
      → ((is_set J details ≡ false) × (is_clean false details ≡ true)) ↔ DetailsWithout details
  unfolding is_set is_clean policy_failure is_retryable_error is_ok status_code payload_of
      Api.is_retryable
  details_iff (failure code error retryable) = (ground arith, λ u. absurd u)
  details_iff (success status none headers cut) = (ground arith, λ u. absurd u)
  details_iff (success status (some value) headers cut) =
      let flag = get value (codes "is_security_policy_enabled") in
      let unflagged = Unflagged-iff flag in
      let allowed = Allowed-iff status in
      let read = clean_read (is_denied (some status)) (is_object value && flag_or_absent J flag) in
      (
        λ (unset, clean).
            let (a, valid) = read.0 clean in
            let (o, f) = both (is_object value) (flag_or_absent J flag) valid in
            (allowed.0 a, o, unflagged.0 (unset, f)),
        λ (a, o, u).
            let (unset, f) = unflagged.1 u in (unset, read.1 (allowed.1 a, rw (o, f) refl)),
      )
    where
      both : (a b : Bool) → (a && b) ≡ true → (a ≡ true) × (b ≡ true)
      both a b h = (ground arith, ground arith)

  valid_lem :
      (a f d m y : Bool)
      → f ≡ false
      → ((a || (f || (d || (m || y)))) ≡ true)
        ↔ ((a ≡ true) ⊎ ((d ≡ true) ⊎ ((m ≡ true) ⊎ (y ≡ true))))
  valid_lem a f d m y h = (ground arith, ground arith)

  other_iff :
      (value : Value)
      → ((is_some (as_array value) ≡ true)
          ⊎ ((text_is J (codes "dir") (type_of J value) ≡ true)
              ⊎ ((text_is J (codes "submodule") (type_of J value) ≡ true)
                  ⊎ (text_is J (codes "symlink") (type_of J value) ≡ true))))
        ↔ OtherContents value
  other_iff value =
      let dir = type_iff value (codes "dir") in
      let nested = type_iff value (codes "submodule") in
      let link = type_iff value (codes "symlink") in
      (
        λ h. elim h [
          | inl a ↦ inl a
          | inr r ↦ elim r [
            | inl d ↦ inr (inl (dir.0 d))
            | inr s ↦ elim s [
              | inl m ↦ inr (inr (inl (nested.0 m)))
              | inr y ↦ inr (inr (inr (link.0 y)))
            ]
          ]
        ],
        λ h. elim h [
          | inl a ↦ inl a
          | inr r ↦ elim r [
            | inl d ↦ inr (inl (dir.1 d))
            | inr s ↦ elim s [
              | inl m ↦ inr (inr (inl (nested.1 m)))
              | inr y ↦ inr (inr (inr (link.1 y)))
            ]
          ]
        ],
      )

  file_read : (file clean : Bool) → ((not file && clean) ≡ true) ↔ ((file ≡ false) × (clean ≡ true))
  file_read file clean = (ground arith, ground arith)

  pub NoFile-iff : (content : ApiOutcome Value) → (shows_no_file content ≡ true) ↔ NoFile content
  unfolding shows_no_file is_file is_clean policy_failure is_retryable_error is_ok status_code
      payload_of Api.is_retryable
  NoFile-iff (failure none error retryable) = (ground arith, λ u. absurd u)
  NoFile-iff (failure (some code) error retryable) = (ground arith, ground arith)
  NoFile-iff (success status none headers cut) = (ground arith, λ u. absurd u)
  NoFile-iff (success status (some value) headers cut) =
      let file = text_is J (codes "file") (type_of J value) in
      let valid =
        valid_lem (is_some (as_array value)) file (text_is J (codes "dir") (type_of J value))
          (text_is J (codes "submodule") (type_of J value))
          (text_is J (codes "symlink") (type_of J value)) in
      let other = other_iff value in
      let allowed = Allowed-iff status in
      let read = clean_read (is_denied (some status)) _ in
      let split = file_read file _ in
      (
        λ h.
            let (f, clean) = split.0 h in
            let (a, v) = read.0 clean in
            (allowed.0 a, other.0 ((valid f).0 v), type_none value (codes "file") f),
        λ (a, o, n).
            let f = type_not value (codes "file") n in
            split.1 (f, read.1 (allowed.1 a, (valid f).1 (other.1 o))),
      )
