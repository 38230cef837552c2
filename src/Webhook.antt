-- ===== src/Webhook.antt =====
-- webhook/events.rs: what a webhook event leads to. The decoding of a request's body is
-- serde_json's: a decoder is a parameter, one function for each payload type. Of the application's
-- state the mapping reads the projection alone.
pub mod Push
pub mod Handlers
pub mod Actions
pub mod Removal
pub mod Keys
use gh_report.Prelude.{
  ℕ, Bool, true, false, Option, none, some, List, [], ◌∷◌, ◌++◌, Text, codes, text_eq, strip_prefix,
  any, ◌||◌, ◌&&◌, not, if◌then◌else◌, to_string,
}
use gh_report.OrderedMap
use gh_report.Repository.{Repository, Visibility}
use gh_report.Projection.{EvidenceProjection}

pub data WebhookError : Type 0 where
  invalid_json missing_repository : WebhookError

pub record WebhookRepository : Type 0 where
  pub id : ℕ  -- u64
  pub node_id : Option Text
  pub name : Text
  pub full_name : Option Text
  pub visibility : Option Text
  pub default_branch : Option Text
  pub archived : Bool
  pub html_url : Option Text

pub record WebhookPayload : Type 0 where
  pub repository : Option WebhookRepository
  pub action : Option Text

pub record PushRepository : Type 0 where
  pub id : ℕ  -- u64
  pub name : Text
  pub default_branch : Text

pub record PushCommit : Type 0 where
  pub added : List Text
  pub modified : List Text
  pub removed : List Text

pub record PushEvent : Type 0 where
  pub ref_field : Text
  pub repository : PushRepository
  pub commits : List PushCommit

pub data WebhookAction : Type 0 where
  enqueue : Text → Repository → WebhookAction
  remove : Text → WebhookAction
  ignore : WebhookAction

-- `Result<WebhookAction, WebhookError>`
pub data Mapped : Type 0 where
  ok : WebhookAction → Mapped
  err : WebhookError → Mapped

-- `serde_json::from_slice` at the two payload types; `none` is its error
pub record Decoder : Type 1 where
  pub Body : Type 0
  pub payload : Body → Option WebhookPayload
  pub push : Body → Option PushEvent

abbrev pub security_paths : List Text
security_paths = codes "SECURITY.md" ∷ codes ".github/SECURITY.md" ∷ codes "docs/SECURITY.md" ∷ []

abbrev pub codeowners_paths : List Text
codeowners_paths = codes ".github/CODEOWNERS" ∷ codes "CODEOWNERS" ∷ []

abbrev pub is_watched : Text → Bool
is_watched file =
    any (λ p. text_eq file p) security_paths || any (λ p. text_eq file p) codeowners_paths

-- the files of a commit, in the order of the chain
abbrev pub touched : PushCommit → List Text
touched commit = (commit.added ++ commit.modified) ++ commit.removed

unfoldable pub is_security_relevant_push : PushEvent → Bool
is_security_relevant_push payload = elim (strip_prefix (codes "refs/heads/") payload.ref_field) [
  | none ↦ false
  | some ref_name ↦
      if not (text_eq ref_name payload.repository.default_branch)
      then false
      else any (λ commit. any is_watched (touched commit)) payload.commits
]

-- `unwrap_or_else(|| "main")`
abbrev or_main : Option Text → Text
or_main none = codes "main"
or_main (some b) = b

abbrev pub payload_visibility : Option Text → Visibility
payload_visibility none = Visibility.private
payload_visibility (some v) =
    if text_eq v (codes "public")
    then Visibility.public
    else if text_eq v (codes "internal")
    then Visibility.internal
    else Visibility.private

unfoldable pub build_repository_from_payload : WebhookRepository → Repository
build_repository_from_payload payload = record {
  id = to_string payload.id;
  node_id = payload.node_id;
  name = payload.name;
  visibility = payload_visibility payload.visibility;
  language = none;
  default_branch = or_main payload.default_branch;
  archived = payload.archived;
  inventory_key = to_string payload.id;
  updated_at = none;
  has_issues = false;
  pushed_at = none;
  created_at = none;
  description = none;
  fork = false;
  is_empty = false;
  html_url = payload.html_url;
  topics = [];
  license_spdx = none;
}

-- the repository that a push falls back to
unfoldable pub minimal_repository : Text → Text → Repository
minimal_repository inventory_key name = record {
  id = inventory_key;
  node_id = none;
  name = name;
  visibility = Visibility.private;
  language = none;
  default_branch = codes "main";
  archived = false;
  inventory_key = inventory_key;
  updated_at = none;
  has_issues = false;
  pushed_at = none;
  created_at = none;
  description = none;
  fork = false;
  is_empty = false;
  html_url = none;
  topics = [];
  license_spdx = none;
}

unfoldable pub resolve_or_build_repo : Text → WebhookRepository → EvidenceProjection → Repository
unfolding build_repository_from_payload
resolve_or_build_repo key payload state = elim (OrderedMap.get key state.repositories) [
  | some evidence ↦ evidence.repository
  | none ↦ build_repository_from_payload payload
]

unfoldable pub resolve_repo_from_store : Text → Text → EvidenceProjection → Repository
unfolding minimal_repository
resolve_repo_from_store key name state = elim (OrderedMap.get key state.repositories) [
  | some evidence ↦ evidence.repository
  | none ↦ minimal_repository key name
]

-- `action.as_deref().unwrap_or("")`
abbrev or_empty : Option Text → Text
or_empty none = []
or_empty (some a) = a

abbrev pub removes : Text → Bool
removes a = text_eq a (codes "deleted") || text_eq a (codes "archived")

abbrev pub enqueues : Text → Bool
enqueues a =
    text_eq a (codes "created")
    || (text_eq a (codes "unarchived")
        || (text_eq a (codes "publicized") || text_eq a (codes "privatized")))

abbrev pub generic_events : List Text
generic_events =
    codes "branch_protection_configuration"
    ∷ codes "branch_protection_rule"
    ∷ codes "dependabot_alert"
    ∷ codes "code_scanning_alert"
    ∷ codes "secret_scanning_alert"
    ∷ codes "member"
    ∷ []

module _ (D : Decoder) where
  unfoldable pub map_repository_event : D.Body → EvidenceProjection → Mapped
  unfolding resolve_or_build_repo
  map_repository_event body state = elim (D.payload body) [
    | none ↦ err invalid_json
    | some payload ↦ elim payload.repository [
      | none ↦ err missing_repository
      | some repo ↦
          let key = to_string repo.id in
          if removes (or_empty payload.action)
          then ok (remove key)
          else if enqueues (or_empty payload.action)
          then ok (enqueue key (resolve_or_build_repo key repo state))
          else ok ignore
    ]
  ]

  unfoldable pub map_push_event : D.Body → EvidenceProjection → Mapped
  unfolding is_security_relevant_push resolve_repo_from_store
  map_push_event body state = elim (D.push body) [
    | none ↦ err invalid_json
    | some payload ↦
        let key = to_string payload.repository.id in
        if not (is_security_relevant_push payload)
        then ok ignore
        else ok (enqueue key (resolve_repo_from_store key payload.repository.name state))
  ]

  unfoldable pub map_generic_enqueue_event : D.Body → EvidenceProjection → Mapped
  unfolding resolve_or_build_repo
  map_generic_enqueue_event body state = elim (D.payload body) [
    | none ↦ err invalid_json
    | some payload ↦ elim payload.repository [
      | none ↦ err missing_repository
      | some repo ↦
          let key = to_string repo.id in ok (enqueue key (resolve_or_build_repo key repo state))
    ]
  ]

  unfoldable pub map_event_to_action : Text → D.Body → EvidenceProjection → Mapped
  unfolding map_repository_event map_push_event map_generic_enqueue_event
  map_event_to_action event_type body state =
      if text_eq event_type (codes "repository")
      then map_repository_event body state
      else if any (λ e. text_eq event_type e) generic_events
      then map_generic_enqueue_event body state
      else if text_eq event_type (codes "push")
      then map_push_event body state
      else ok ignore
