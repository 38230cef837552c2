-- ===== src/Scanning/Correlated.antt =====
-- Which repository of the inventory an alert is of.
use gh_report.Prelude.{
  bind_iff, ◌≡◌, ◌↔◌, ◌⊎◌, inl, inr, refl, sym, ap, ◌∙◌, Bool, true, false, Option, none, some,
  List, Text, codes, text_eq, text_eq_iff, Bool-cases, Option-cases, false≢true,
}
use mathlib.Core.Path.{subst}
use mathlib.Core.Option.{some-injective, none-ne-some}
use gh_report.OrderedMap.{OrderedMap}
use gh_report.OrderedMap
use gh_report.Repository.{Repository}
use gh_report.Api.{Json}
use gh_report.Scanning.{
  AlertCorrelation, matched, out_of_scope, conflicting, unidentifiable, correlate_alert, correlate,
  lookup, id_text, scope_key,
}
use gh_report.Scanning.Inventory.{Entry, inventory, found-Entry, Entry-found}
use gh_report.Scanning.AlertKeys.{
  AlertKey, NamedById, NamedByNode, num_id, node_id_of, num_iff, node_iff,
}

module _ (J : Json) where
  open J use {Value, get, as_str, as_u64, is_object}

  unfoldable pub is_certain : AlertCorrelation J → Bool
  is_certain (matched r) = true
  is_certain out_of_scope = true
  is_certain conflicting = false
  is_certain unidentifiable = false

  unfoldable pub is_owned : Repository → AlertCorrelation J → Bool
  unfolding text_eq
  is_owned repo (matched r) = text_eq (scope_key repo) r.id
  is_owned repo out_of_scope = false
  is_owned repo conflicting = false
  is_owned repo unidentifiable = false

  module _ (repositories : List Repository) where
    module _ (Key : Text → Type 0) where
      -- there is a key, and no two keys are those of two repositories
      abbrev pub Settles : Type 0
      Settles =
          ((key : Text) × Key key)
          × ((j k : Text) (a b : Repository)
              → Key j
              → Key k
              → Entry repositories j a
              → Entry repositories k b
              → a.id ≡ b.id)

      -- a key is that of the repository
      abbrev pub Belongs : Repository → Type 0
      Belongs repo =
          (key : Text) × (r : Repository) × Key key × Entry repositories key r × (r.id ≡ repo.id)

      pub record Correlates (c : AlertCorrelation J) : Type 0 where
        pub certain : (is_certain c ≡ true) ↔ Settles
        pub owned :
            (repo : Repository) → is_certain c ≡ true → (is_owned repo c ≡ true) ↔ Belongs repo

      matched-Correlates :
          (x : Repository)
          → ((key : Text) × Key key × Entry repositories key x)
          → ((k : Text) (r : Repository) → Key k → Entry repositories k r → r.id ≡ x.id)
          → Correlates (matched x)
      unfolding is_certain is_owned
      matched-Correlates x (key, named, entry) one = record {
        certain =
            (λ h. ((key, named), λ j k a b p q m n. one j a p m ∙ sym (one k b q n)), λ h. refl);
        owned = λ repo h. (
          λ same. (key, x, named, entry, sym ((text_eq_iff repo.id x.id).0 same)),
          λ (k, r, p, e, ids). (text_eq_iff repo.id x.id).1 (sym ids ∙ one k r p e),
        );
      }

      outside-Correlates :
          ((key : Text) × Key key)
          → ((k : Text) (r : Repository) → Key k → Entry repositories k r → ⊥)
          → Correlates out_of_scope
      unfolding is_certain is_owned
      outside-Correlates named nothing = record {
        certain = (λ h. (named, λ j k a b p q m n. absurd (nothing j a p m)), λ h. refl);
        owned = λ repo h.
            (λ same. absurd (false≢true same), λ (k, r, p, e, ids). absurd (nothing k r p e));
      }

      unsettled-Correlates :
          (c : AlertCorrelation J) → is_certain c ≡ false → (Settles → ⊥) → Correlates c
      unsettled-Correlates c doubt open_case = record {
        certain = (λ h. absurd (false≢true (sym doubt ∙ h)), λ s. absurd (open_case s));
        owned = λ repo h. absurd (false≢true (sym doubt ∙ h));
      }

    -- what a key of the alert leads to in the inventory
    record Side (o : Option Text) (a : Option Repository) : Type 0 where
      hit : (x : Repository) → a ≡ some x → (k : Text) × (o ≡ some k) × Entry repositories k x
      miss : a ≡ none → (k : Text) (r : Repository) → o ≡ some k → Entry repositories k r → ⊥
      same :
          (x : Repository)
          → a ≡ some x
          → (k : Text) (r : Repository) → o ≡ some k
          → Entry repositories k r
          → r.id ≡ x.id

    lookup-Side :
        (o : Option Text)
        → (inventory repositories).1 ≡ false
        → Side o (lookup J (inventory repositories).0 o)
    lookup-Side o fine = record {
      hit = λ x e.
          let (k, is_k, got) =
            (bind_iff o (λ k. OrderedMap.get k (inventory repositories).0) x).0 e in
          (k, is_k, found-Entry repositories k x got);
      miss = λ e k r is_k entry.
          let (x, got, ids) = Entry-found repositories k r fine entry in
          none-ne-some x (
            sym e
            ∙ (bind_iff o (λ k. OrderedMap.get k (inventory repositories).0) x).1 (k, is_k, got));
      same = λ x e k r is_k entry.
          let (y, got, ids) = Entry-found repositories k r fine entry in
          let reached =
            (bind_iff o (λ k. OrderedMap.get k (inventory repositories).0) y).1 (k, is_k, got) in
          let one : x ≡ y = some-injective x y (sym e ∙ reached) in
          sym ids ∙ ap (λ z. z.id) (sym one);
    }

    both_Correlates :
        (num node : Option Text) (a b : Option Repository)
        → Side num a
        → Side node b
        → Correlates (λ k. (num ≡ some k) ⊎ (node ≡ some k)) (correlate J num node a b)
    unfolding correlate is_certain text_eq
    both_Correlates num node (some x) (some y) s t = elim (Bool-cases (text_eq x.id y.id)) [
      | inl alike ↦
          let (k, named, entry) = s.hit x refl in
          let ids : x.id ≡ y.id = (text_eq_iff x.id y.id).0 alike in
          rw alike (
            matched-Correlates (λ k. (num ≡ some k) ⊎ (node ≡ some k)) x (k, inl named, entry)
              (λ j r key e. elim key [
                | inl p ↦ s.same x refl j r p e
                | inr q ↦ t.same y refl j r q e ∙ sym ids
              ]))
      | inr apart ↦ rw apart (
          unsettled-Correlates (λ k. (num ≡ some k) ⊎ (node ≡ some k)) conflicting refl
            (λ (named, one).
              let (j, p, e) = s.hit x refl in
              let (k, q, f) = t.hit y refl in
              false≢true (sym apart ∙ (text_eq_iff x.id y.id).1 (one j k x y (inl p) (inr q) e f))))
    ]
    both_Correlates num node (some x) none s t =
        let (k, named, entry) = s.hit x refl in
        matched-Correlates (λ k. (num ≡ some k) ⊎ (node ≡ some k)) x (k, inl named, entry)
          (λ j r key e. elim key [
            | inl p ↦ s.same x refl j r p e
            | inr q ↦ absurd (t.miss refl j r q e)
          ])
    both_Correlates num node none (some y) s t =
        let (k, named, entry) = t.hit y refl in
        matched-Correlates (λ k. (num ≡ some k) ⊎ (node ≡ some k)) y (k, inr named, entry)
          (λ j r key e. elim key [
            | inl p ↦ absurd (s.miss refl j r p e)
            | inr q ↦ t.same y refl j r q e
          ])
    both_Correlates (some k) node none none s t =
        outside-Correlates (λ j. (some k ≡ some j) ⊎ (node ≡ some j)) (k, inl refl)
          (λ j r key e. elim key [ inl p ↦ s.miss refl j r p e | inr q ↦ t.miss refl j r q e ])
    both_Correlates none (some k) none none s t =
        outside-Correlates (λ j. (none ≡ some j) ⊎ (some k ≡ some j)) (k, inr refl)
          (λ j r key e. elim key [ inl p ↦ s.miss refl j r p e | inr q ↦ t.miss refl j r q e ])
    both_Correlates none none none none s t =
        unsettled-Correlates (λ j. (none ≡ some j) ⊎ (none ≡ some j)) unidentifiable refl
          (λ ((k, key), one). elim key [ inl n ↦ none-ne-some k n | inr n ↦ none-ne-some k n ])

    Correlates-iff :
        {K L : Text → Type 0} {c : AlertCorrelation J}
        → ((k : Text) → K k → L k)
        → ((k : Text) → L k → K k)
        → Correlates K c
        → Correlates L c
    Correlates-iff to from h = record {
      certain = (
        λ e.
            let ((k, key), one) = h.certain.0 e in
            ((k, to k key), λ i j a b p q m n. one i j a b (from i p) (from j q) m n),
        λ ((k, key), one).
            h.certain.1 ((k, from k key), λ i j a b p q m n. one i j a b (to i p) (to j q) m n),
      );
      owned = λ repo e. (
        λ o. let (k, r, key, entry, ids) = (h.owned repo e).0 o in (k, r, to k key, entry, ids),
        λ (k, r, key, entry, ids). (h.owned repo e).1 (k, r, from k key, entry, ids),
      );
    }

    no_repository :
        (scope : OrderedMap Repository) (alert : Value)
        → get alert (codes "repository") ≡ none
        → correlate_alert J scope alert ≡ unidentifiable
    unfolding correlate_alert
    no_repository scope alert e = rw (correlate_alert, e) refl

    no_object :
        (scope : OrderedMap Repository) (alert repository : Value)
        → get alert (codes "repository") ≡ some repository
        → is_object repository ≡ false
        → correlate_alert J scope alert ≡ unidentifiable
    unfolding correlate_alert
    no_object scope alert repository e scalar = rw (correlate_alert, e, scalar) refl

    by_keys :
        (scope : OrderedMap Repository) (alert repository : Value)
        → get alert (codes "repository") ≡ some repository
        → is_object repository ≡ true
        → correlate_alert J scope alert
          ≡ correlate J
              (num_id J repository)
              (node_id_of J repository)
              (lookup J scope (num_id J repository))
              (lookup J scope (node_id_of J repository))
    unfolding correlate_alert correlate id_text
    by_keys scope alert repository e object = rw (correlate_alert, e, object) refl

    pub alert-Correlates :
        (alert : Value)
        → (inventory repositories).1 ≡ false
        → Correlates (AlertKey J alert) (correlate_alert J (inventory repositories).0 alert)
    unfolding is_certain
    alert-Correlates alert fine = elim (Option-cases (get alert (codes "repository"))) [
      | inl e ↦ subst (Correlates (AlertKey J alert)) (sym (no_repository _ alert e)) (
          unsettled-Correlates (AlertKey J alert) unidentifiable refl
            (λ ((k, (repository, g, object, filled, key)), one).
              none-ne-some repository (sym e ∙ g)))
      | inr (repository, e) ↦ elim (Bool-cases (is_object repository)) [
        | inr scalar ↦
            subst (Correlates (AlertKey J alert)) (sym (no_object _ alert repository e scalar)) (
              unsettled-Correlates (AlertKey J alert) unidentifiable refl
                (λ ((k, (other, g, object, filled, key)), one).
                  let same = some-injective repository other (sym e ∙ g) in
                  false≢true (sym scalar ∙ (ap is_object same ∙ object))))
        | inl object ↦
            subst (Correlates (AlertKey J alert)) (sym (by_keys _ alert repository e object)) (
              Correlates-iff
                (λ k key. elim key [
                  | inl p ↦
                      let (filled, named) = (num_iff J repository k).0 p in
                      (repository, e, object, filled, inl named)
                  | inr q ↦
                      let (filled, named) = (node_iff J repository k).0 q in
                      (repository, e, object, filled, inr named)
                ])
                (λ k (other, g, o, filled, key).
                  let same = some-injective other repository (sym g ∙ e) in
                  elim (subst (λ z. NamedById J z k ⊎ NamedByNode J z k) same key) [
                    | inl named ↦ inl ((num_iff J repository k).1 (filled, named))
                    | inr named ↦ inr ((node_iff J repository k).1 (filled, named))
                  ])
                (both_Correlates (num_id J repository) (node_id_of J repository) _ _
                  (lookup-Side (num_id J repository) fine)
                  (lookup-Side (node_id_of J repository) fine)))
      ]
    ]
