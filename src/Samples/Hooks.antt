-- ===== src/Samples/Hooks.antt =====
-- The theorems on webhook events, on decoded payloads.
use gh_report.Prelude.{
  ℕ, ◌≡◌, ◌↔◌, refl, true, false, none, some, [], ◌∷◌, ◌++◌, Text, codes, to_string, digits,
  text_eq,
}
use gh_report.OrderedMap
use gh_report.Projection.{EvidenceProjection, new}
use gh_report.Samples.{alpha}
use gh_report.Webhook.{
  WebhookRepository, PushEvent, Decoder, ok, enqueue, remove, is_security_relevant_push,
  map_event_to_action, map_repository_event, resolve_or_build_repo,
}
use gh_report.Webhook.Push.{TouchesWatched, relevant_iff_watched}
use gh_report.Webhook.Actions.{Resolved, enqueue-Resolved}
use gh_report.Webhook.Removal.{AsksRemoval, remove_iff_asked}

abbrev pushed : PushEvent
pushed = record {
  ref_field = codes "refs/heads/main";
  repository = record { id = 1; name = codes "alpha"; default_branch = codes "main" };
  commits = (record { added = []; modified = codes "CODEOWNERS" ∷ []; removed = [] }) ∷ [];
}

relevant_iff_watched_example : (is_security_relevant_push pushed ≡ true) ↔ (
    (codes "refs/heads/main" ≡ codes "refs/heads/" ++ codes "main") × TouchesWatched pushed.commits)
relevant_iff_watched_example = relevant_iff_watched pushed

abbrev hooked : ℕ → WebhookRepository
hooked id = record {
  id = id;
  node_id = none;
  name = codes "alpha";
  full_name = none;
  visibility = some (codes "public");
  default_branch = none;
  archived = false;
  html_url = none;
}

-- a body is its action
abbrev Plainly : Decoder
Plainly = record {
  Body = Text;
  payload = λ action. some (record { repository = some (hooked 1); action = some action });
  push = λ action. none;
}

abbrev holding : EvidenceProjection
holding = record new { repositories = (codes "1", alpha) ∷ [] }

created :
    map_event_to_action Plainly (codes "repository") (codes "created") holding
    ≡ ok (enqueue (codes "1") alpha.repository)
unfolding map_event_to_action map_repository_event resolve_or_build_repo to_string digits
    OrderedMap.get text_eq
created = refl

enqueue-Resolved_example : Resolved holding (codes "1") alpha.repository
enqueue-Resolved_example =
    enqueue-Resolved Plainly (codes "created") holding (codes "repository") (codes "1")
      alpha.repository created

remove_iff_asked_example :
    (map_event_to_action Plainly (codes "repository") (codes "deleted") holding
      ≡ ok (remove (codes "1")))
    ↔ ((codes "repository" ≡ codes "repository")
        × AsksRemoval Plainly (codes "deleted") holding (codes "1"))
remove_iff_asked_example =
    remove_iff_asked Plainly (codes "deleted") holding (codes "repository") (codes "1")
