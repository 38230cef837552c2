-- ===== src/Webhook/Removal.antt =====
-- When an event removes a repository.
use gh_report.Prelude.{
  none, ◌≡◌, ◌≢◌, ◌↔◌, ◌⊎◌, inl, inr, refl, sym, ◌∙◌, true, false, not, Option, some, Text, codes,
  text_eq, text_eq_iff, arith, any, Option-cases, Bool-cases, false≢true, if◌then◌else◌, to_string,
}
use gh_report.Projection.{EvidenceProjection}
use gh_report.Webhook.{
  invalid_json, missing_repository, WebhookRepository, WebhookPayload, PushEvent, enqueue, remove,
  ignore, ok, Decoder, removes, enqueues, map_repository_event, map_push_event,
  map_generic_enqueue_event, map_event_to_action, generic_events, resolve_or_build_repo,
  resolve_repo_from_store, is_security_relevant_push, or_empty,
}
use gh_report.Webhook.Handlers.{
  err≢ok, remove≢enqueue, remove≢ignore, remove-injective, undecoded, unnamed, generic_named,
  lifecycle, repository_named, push_undecoded, push_decoded,
}

-- the action is `deleted` or `archived`
abbrev pub Removing : Option Text → Type 0
Removing action = (action ≡ some (codes "deleted")) ⊎ (action ≡ some (codes "archived"))

removes_iff : (action : Option Text) → (removes (or_empty action) ≡ true) ↔ Removing action
unfolding text_eq
removes_iff none = ((λ h. absurd (false≢true h)), ground arith)
removes_iff (some a) = (
  ground (arith, text_eq_iff a (codes "deleted"), text_eq_iff a (codes "archived")),
  ground (arith, text_eq_iff a (codes "deleted"), text_eq_iff a (codes "archived")),
)

module _ (D : Decoder) (body : D.Body) (state : EvidenceProjection) where
  -- the payload names a repository with this key, and its action is one of the two that remove it
  abbrev pub AsksRemoval : Text → Type 0
  AsksRemoval key =
      (p : WebhookPayload) × (r : WebhookRepository) × (D.payload body ≡ some p)
      × (p.repository ≡ some r)
      × Removing p.action
      × (key ≡ to_string r.id)

  lifecycle-remove :
      (action : Option Text) (r : WebhookRepository) (key : Text)
      → lifecycle D body state action r ≡ ok (remove key)
      → (removes (or_empty action) ≡ true) × (key ≡ to_string r.id)
  lifecycle-remove action r key h = elim (Bool-cases (removes (or_empty action))) [
    | inl e ↦ (e, remove-injective key (to_string r.id) (sym (rw e at h)))
    | inr e ↦ elim (Bool-cases (enqueues (or_empty action))) [
      | inl q ↦ absurd (
          remove≢enqueue key (to_string r.id) (resolve_or_build_repo (to_string r.id) r state)
            (sym (rw (e, q) at h)))
      | inr q ↦ absurd (remove≢ignore key (sym (rw (e, q) at h)))
    ]
  ]

  repository-AsksRemoval :
      (key : Text) → map_repository_event D body state ≡ ok (remove key) → AsksRemoval key
  repository-AsksRemoval key h = elim (Option-cases (D.payload body)) [
    | inl e ↦ absurd (err≢ok invalid_json (remove key) (cc ((undecoded D body state e).0, h)))
    | inr (p, e) ↦ elim (Option-cases p.repository) [
      | inl n ↦
          absurd (err≢ok missing_repository (remove key) (cc ((unnamed D body state p e n).0, h)))
      | inr (r, n) ↦
          let (a, k) =
            lifecycle-remove p.action r key (sym (repository_named D body state p r e n) ∙ h) in
          (p, r, e, n, (removes_iff p.action).0 a, k)
    ]
  ]

  generic-never : (key : Text) → map_generic_enqueue_event D body state ≢ ok (remove key)
  generic-never key h = elim (Option-cases (D.payload body)) [
    | inl e ↦ err≢ok invalid_json (remove key) (cc ((undecoded D body state e).1, h))
    | inr (p, e) ↦ elim (Option-cases p.repository) [
      | inl n ↦ err≢ok missing_repository (remove key) (cc ((unnamed D body state p e n).1, h))
      | inr (r, n) ↦
          remove≢enqueue key (to_string r.id) (resolve_or_build_repo (to_string r.id) r state)
            (cc (generic_named D body state p r e n, h))
    ]
  ]

  push_action-never :
      (p : PushEvent) (key : Text)
      → (if not (is_security_relevant_push p)
          then ok ignore
          else ok (
              enqueue
                (to_string p.repository.id)
                (resolve_repo_from_store (to_string p.repository.id) p.repository.name state)))
        ≢ ok (remove key)
  push_action-never p key h = ground arith

  push-never : (key : Text) → map_push_event D body state ≢ ok (remove key)
  push-never key h = elim (Option-cases (D.push body)) [
    | inl e ↦ err≢ok invalid_json (remove key) (cc (push_undecoded D body state e, h))
    | inr (p, e) ↦ push_action-never p key (sym (push_decoded D body state p e) ∙ h)
  ]

  otherwise-never :
      (event_type key : Text)
      → text_eq event_type (codes "repository") ≡ false
      → map_event_to_action D event_type body state ≢ ok (remove key)
  unfolding map_event_to_action
  otherwise-never event_type key e h =
      elim (Bool-cases (any (λ x. text_eq event_type x) generic_events)) [
        | inl g ↦ generic-never key (rw (e, g) at h)
        | inr g ↦ elim (Bool-cases (text_eq event_type (codes "push"))) [
          | inl u ↦ push-never key (rw (e, g, u) at h)
          | inr u ↦ remove≢ignore key (sym (rw (e, g, u) at h))
        ]
      ]

  asked : (key : Text) → AsksRemoval key → map_repository_event D body state ≡ ok (remove key)
  asked key (p, r, e, n, a, k) =
      repository_named D body state p r e n ∙ rw ((removes_iff p.action).1 a, k) refl

  -- An event removes a repository exactly when it is a `repository` event whose payload names the
  -- repository of that key with one of the actions `deleted` and `archived`.
  pub remove_iff_asked :
      (event_type key : Text)
      → (map_event_to_action D event_type body state ≡ ok (remove key))
        ↔ ((event_type ≡ codes "repository") × AsksRemoval key)
  unfolding map_event_to_action
  remove_iff_asked event_type key = elim (Bool-cases (text_eq event_type (codes "repository"))) [
    | inl e ↦ rw e (
      (λ h. ((text_eq_iff event_type (codes "repository")).0 e, repository-AsksRemoval key h)),
      λ (n, a). asked key a,
    )
    | inr e ↦ (
      (λ h. absurd (otherwise-never event_type key e h)),
      λ (n, a). absurd (false≢true (cc (e, (text_eq_iff event_type (codes "repository")).1 n))),
    )
  ]
