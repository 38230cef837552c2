-- ===== src/Webhook/Actions.antt =====
-- Which repository an event asks to evaluate again.
use gh_report.Prelude.{
  ◌≡◌, ◌⊎◌, inl, inr, refl, sym, ◌∙◌, not, Option, none, some, Text, codes, text_eq, arith, any,
  Option-cases, Bool-cases, if◌then◌else◌, to_string,
}
use gh_report.OrderedMap
use gh_report.Repository.{Repository}
use gh_report.Evidence.{RepositoryEvidence}
use gh_report.Projection.{EvidenceProjection}
use gh_report.Webhook.{
  invalid_json, missing_repository, WebhookRepository, PushEvent, enqueue, ignore, ok, Decoder,
  removes, enqueues, map_repository_event, map_push_event, map_generic_enqueue_event,
  map_event_to_action, generic_events, resolve_or_build_repo, resolve_repo_from_store,
  build_repository_from_payload, minimal_repository, is_security_relevant_push, or_empty,
}
use gh_report.Webhook.Handlers.{
  err≢ok, remove≢enqueue, ignore≢enqueue, undecoded, unnamed, generic_named, lifecycle,
  repository_named, push_undecoded, push_decoded,
}

-- the repository of an enqueued action is the stored one, or else carries the key as its id
abbrev pub Resolved : EvidenceProjection → Text → Repository → Type 0
Resolved state key repo =
    ((e : RepositoryEvidence) × (OrderedMap.get key state.repositories ≡ some e)
      × (e.repository ≡ repo))
    ⊎ ((OrderedMap.get key state.repositories ≡ none)
        × (repo.id ≡ key)
        × (repo.inventory_key ≡ key))

module _ (key name : Text) (state : EvidenceProjection) where
  minimal_built :
      OrderedMap.get key state.repositories ≡ none
      → resolve_repo_from_store key name state ≡ minimal_repository key name
  unfolding resolve_repo_from_store
  minimal_built e = ground arith

  minimal_stored :
      (v : RepositoryEvidence)
      → OrderedMap.get key state.repositories ≡ some v
      → resolve_repo_from_store key name state ≡ v.repository
  unfolding resolve_repo_from_store
  minimal_stored v e = ground arith

  resolve_from_store-Resolved : Resolved state key (resolve_repo_from_store key name state)
  unfolding minimal_repository
  resolve_from_store-Resolved = elim (Option-cases (OrderedMap.get key state.repositories)) [
    | inl e ↦ inr (e, rw (minimal_built e) refl, rw (minimal_built e) refl)
    | inr (v, e) ↦ inl (v, e, sym (minimal_stored v e))
  ]

module _ (p : WebhookRepository) (key : Text) (state : EvidenceProjection) where
  payload_built :
      OrderedMap.get key state.repositories ≡ none
      → resolve_or_build_repo key p state ≡ build_repository_from_payload p
  unfolding resolve_or_build_repo
  payload_built e = ground arith

  payload_stored :
      (v : RepositoryEvidence)
      → OrderedMap.get key state.repositories ≡ some v
      → resolve_or_build_repo key p state ≡ v.repository
  unfolding resolve_or_build_repo
  payload_stored v e = ground arith

  resolve_or_build-Resolved :
      key ≡ to_string p.id → Resolved state key (resolve_or_build_repo key p state)
  unfolding build_repository_from_payload
  resolve_or_build-Resolved k = elim (Option-cases (OrderedMap.get key state.repositories)) [
    | inl e ↦ inr (e, rw (payload_built e) (sym k), rw (payload_built e) (sym k))
    | inr (v, e) ↦ inl (v, e, sym (payload_stored v e))
  ]

-- the same action asks for the same repository
same_action :
    (state : EvidenceProjection) (k key : Text) (r repo : Repository)
    → ok (enqueue k r) ≡ ok (enqueue key repo)
    → Resolved state k r
    → Resolved state key repo
same_action state k key r repo h v =
    let ek : k ≡ key = ground arith in let er : r ≡ repo = ground arith in rw (← ek, ← er) v

module _ (D : Decoder) (body : D.Body) (state : EvidenceProjection) where
  generic-Resolved :
      (key : Text) (repo : Repository)
      → map_generic_enqueue_event D body state ≡ ok (enqueue key repo)
      → Resolved state key repo
  generic-Resolved key repo h = elim (Option-cases (D.payload body)) [
    | inl e ↦ absurd (err≢ok invalid_json (enqueue key repo) (cc ((undecoded D body state e).1, h)))
    | inr (p, e) ↦ elim (Option-cases p.repository) [
      | inl n ↦
          absurd
            (err≢ok missing_repository (enqueue key repo) (cc ((unnamed D body state p e n).1, h)))
      | inr (r, n) ↦
          same_action state (to_string r.id) key (resolve_or_build_repo (to_string r.id) r state)
            repo (cc (generic_named D body state p r e n, h))
            (resolve_or_build-Resolved r (to_string r.id) state refl)
    ]
  ]

  lifecycle-Resolved :
      (action : Option Text) (r : WebhookRepository) (key : Text) (repo : Repository)
      → lifecycle D body state action r ≡ ok (enqueue key repo)
      → Resolved state key repo
  lifecycle-Resolved action r key repo h = elim (Bool-cases (removes (or_empty action))) [
    | inl e ↦ absurd (remove≢enqueue (to_string r.id) key repo (rw e at h))
    | inr e ↦ elim (Bool-cases (enqueues (or_empty action))) [
      | inl q ↦
          same_action state (to_string r.id) key (resolve_or_build_repo (to_string r.id) r state)
            repo (rw (e, q) at h) (resolve_or_build-Resolved r (to_string r.id) state refl)
      | inr q ↦ absurd (ignore≢enqueue key repo (rw (e, q) at h))
    ]
  ]

  push_action :
      (p : PushEvent) (key : Text) (repo : Repository)
      → (if not (is_security_relevant_push p)
          then ok ignore
          else ok (
              enqueue
                (to_string p.repository.id)
                (resolve_repo_from_store (to_string p.repository.id) p.repository.name state)))
        ≡ ok (enqueue key repo)
      → Resolved state key repo
  push_action p key repo h = elim (Bool-cases (is_security_relevant_push p)) [
    | inr e ↦ absurd (ignore≢enqueue key repo (rw e at h))
    | inl e ↦
        let k = to_string p.repository.id in
        same_action state k key (resolve_repo_from_store k p.repository.name state) repo (rw e at h)
          (resolve_from_store-Resolved k p.repository.name state)
  ]

  push-Resolved :
      (key : Text) (repo : Repository)
      → map_push_event D body state ≡ ok (enqueue key repo)
      → Resolved state key repo
  push-Resolved key repo h = elim (Option-cases (D.push body)) [
    | inl e ↦
        absurd (err≢ok invalid_json (enqueue key repo) (cc (push_undecoded D body state e, h)))
    | inr (p, e) ↦ push_action p key repo (sym (push_decoded D body state p e) ∙ h)
  ]

  repository-Resolved :
      (key : Text) (repo : Repository)
      → map_repository_event D body state ≡ ok (enqueue key repo)
      → Resolved state key repo
  repository-Resolved key repo h = elim (Option-cases (D.payload body)) [
    | inl e ↦ absurd (err≢ok invalid_json (enqueue key repo) (cc ((undecoded D body state e).0, h)))
    | inr (p, e) ↦ elim (Option-cases p.repository) [
      | inl n ↦
          absurd
            (err≢ok missing_repository (enqueue key repo) (cc ((unnamed D body state p e n).0, h)))
      | inr (r, n) ↦
          lifecycle-Resolved p.action r key repo (cc (repository_named D body state p r e n, h))
    ]
  ]

  -- The repository that an event asks to evaluate again is the one that the read model holds under
  -- the action's key, or, where it holds none, one whose id and inventory key are that key.
  pub enqueue-Resolved :
      (event_type key : Text) (repo : Repository)
      → map_event_to_action D event_type body state ≡ ok (enqueue key repo)
      → Resolved state key repo
  unfolding map_event_to_action
  enqueue-Resolved event_type key repo h =
      elim (Bool-cases (text_eq event_type (codes "repository"))) [
        | inl e ↦ repository-Resolved key repo (rw e at h)
        | inr e ↦ elim (Bool-cases (any (λ x. text_eq event_type x) generic_events)) [
          | inl g ↦ generic-Resolved key repo (rw (e, g) at h)
          | inr g ↦ elim (Bool-cases (text_eq event_type (codes "push"))) [
            | inl u ↦ push-Resolved key repo (rw (e, g, u) at h)
            | inr u ↦ absurd (ignore≢enqueue key repo (rw (e, g, u) at h))
          ]
        ]
      ]
