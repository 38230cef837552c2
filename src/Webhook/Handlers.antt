-- ===== src/Webhook/Handlers.antt =====
-- Each handler's answer, by what the body decodes to.
use gh_report.Prelude.{◌≡◌, ◌≢◌, not, Option, none, some, Text, arith, if◌then◌else◌, to_string}
use gh_report.Repository.{Repository}
use gh_report.Projection.{EvidenceProjection}
use gh_report.Webhook.{
  WebhookError, invalid_json, missing_repository, WebhookRepository, WebhookPayload, PushEvent,
  WebhookAction, enqueue, remove, ignore, Mapped, ok, err, Decoder, removes, enqueues,
  map_repository_event, map_push_event, map_generic_enqueue_event, resolve_or_build_repo,
  resolve_repo_from_store, is_security_relevant_push, or_empty,
}

pub err≢ok : (e : WebhookError) (a : WebhookAction) → err e ≢ ok a
err≢ok e a = ground arith

pub remove≢enqueue : (k key : Text) (repo : Repository) → ok (remove k) ≢ ok (enqueue key repo)
remove≢enqueue k key repo = ground arith

pub remove≢ignore : (key : Text) → ok (remove key) ≢ ok ignore
remove≢ignore key = ground arith

pub remove-injective : (k key : Text) → ok (remove k) ≡ ok (remove key) → k ≡ key
remove-injective k key h = ground arith

pub ignore≢enqueue : (key : Text) (repo : Repository) → ok ignore ≢ ok (enqueue key repo)
ignore≢enqueue key repo = ground arith

module _ (D : Decoder) (body : D.Body) (state : EvidenceProjection) where
  pub undecoded :
      D.payload body ≡ none
      → (map_repository_event D body state ≡ err invalid_json)
        × (map_generic_enqueue_event D body state ≡ err invalid_json)
  unfolding map_repository_event map_generic_enqueue_event
  undecoded e = (ground arith, ground arith)

  pub unnamed :
      (p : WebhookPayload)
      → D.payload body ≡ some p
      → p.repository ≡ none
      → (map_repository_event D body state ≡ err missing_repository)
        × (map_generic_enqueue_event D body state ≡ err missing_repository)
  unfolding map_repository_event map_generic_enqueue_event
  unnamed p e n = (ground arith, ground arith)

  pub generic_named :
      (p : WebhookPayload) (r : WebhookRepository)
      → D.payload body ≡ some p
      → p.repository ≡ some r
      → map_generic_enqueue_event D body state
        ≡ ok (enqueue (to_string r.id) (resolve_or_build_repo (to_string r.id) r state))
  unfolding map_generic_enqueue_event
  generic_named p r e n = ground arith

  abbrev pub lifecycle : Option Text → WebhookRepository → Mapped
  lifecycle action r =
      if removes (or_empty action)
      then ok (remove (to_string r.id))
      else if enqueues (or_empty action)
      then ok (enqueue (to_string r.id) (resolve_or_build_repo (to_string r.id) r state))
      else ok ignore

  pub repository_named :
      (p : WebhookPayload) (r : WebhookRepository)
      → D.payload body ≡ some p
      → p.repository ≡ some r
      → map_repository_event D body state ≡ lifecycle p.action r
  unfolding map_repository_event
  repository_named p r e n = ground arith

  pub push_undecoded : D.push body ≡ none → map_push_event D body state ≡ err invalid_json
  unfolding map_push_event
  push_undecoded e = ground arith

  pub push_decoded :
      (p : PushEvent)
      → D.push body ≡ some p
      → map_push_event D body state ≡ (
          if not (is_security_relevant_push p)
          then ok ignore
          else ok (
              enqueue
                (to_string p.repository.id)
                (resolve_repo_from_store (to_string p.repository.id) p.repository.name state)))
  unfolding map_push_event
  push_decoded p e = ground arith
