-- ===== src/Projection.antt =====
-- projection.rs: the read model that is folded from the stored events, and its queries.
pub mod Invariant
pub mod Downgrade
pub mod Idempotent
pub mod Snapshot
pub mod Loading
pub mod Refinement
use gh_report.Prelude.{
  ℕ, Bool, true, false, not, ◌&&◌, ◌||◌, Option, none, some, List, [], ◌∷◌, map, Text, codes,
  Ordering, length, is_empty, is_some, if◌then◌else◌,
}
use gh_report.OrderedMap
use gh_report.OrderedMap.{OrderedMap}
use gh_report.Repository
use gh_report.Org.{CollectionStatus, OrgAlertSummary, TeamRosterStatus, TeamRoster}
use gh_report.Evidence.{RepositoryEvidence, is_complete, AssessmentMetadata, OrgStateSnapshot}

pub record OrgReadModel : Type 0 where
  pub archived_repos : ℕ  -- u32
  pub assessment_metadata : AssessmentMetadata
  pub alert_summary : OrgAlertSummary

pub record DeletedRepoRecord : Type 0 where
  pub repo_name : Text
  pub detected_at : Text

-- `From<OrgStateSnapshot> for OrgReadModel`
abbrev pub org_read_model : OrgStateSnapshot → OrgReadModel
org_read_model value = record {
  archived_repos = value.archived_repos;
  assessment_metadata = value.assessment_metadata;
  alert_summary = value.alert_summary;
}

abbrev pub is_success : CollectionStatus → Bool
is_success CollectionStatus.success = true
is_success _ = false

-- `OrgReadModel::is_complete`
abbrev pub org_is_complete : OrgReadModel → Bool
org_is_complete m = is_success m.alert_summary.collection_status

pub record EvidenceProjection : Type 0 where
  pub repositories : OrderedMap RepositoryEvidence
  pub deleted : OrderedMap DeletedRepoRecord
  pub org_state : Option OrgReadModel
  pub team_rosters : OrderedMap TeamRoster
  pub team_ghost_rosters : OrderedMap TeamRoster

-- `EvidenceProjection::default`
abbrev pub new : EvidenceProjection
new = record {
  repositories = [];
  deleted = [];
  org_state = none;
  team_rosters = [];
  team_ghost_rosters = [];
}

pub data Event : Type 0 where
  -- detached, domain key, evidence
  repository_state_captured : Bool → Text → Option RepositoryEvidence → Event
  -- domain key, repository name, detection time
  repository_deleted : Text → Text → Text → Event
  org_state_captured : OrgStateSnapshot → Event
  -- detached, domain key, roster
  team_state_captured : Bool → Text → Option TeamRoster → Event

unfoldable pub event_type : Event → Text
event_type (repository_state_captured detached key evidence) =
    codes "gh-report.projection.repository_state_captured"
event_type (repository_deleted key repo_name detected_at) =
    codes "gh-report.projection.repository_deleted"
event_type (org_state_captured snapshot) = codes "gh-report.projection.org_state_captured"
event_type (team_state_captured detached key roster) =
    codes "gh-report.projection.team_state_captured"

-- `Option::is_some_and`
abbrev pub is_some_and {ℓ} : {A : Type ℓ} → (A → Bool) → Option A → Bool
is_some_and p none = false
is_some_and p (some a) = p a

abbrev pub roster_complete : TeamRoster → Bool
roster_complete r = elim r.status [ TeamRosterStatus.complete ↦ true | _ ↦ false ]

abbrev pub roster_deleted : TeamRoster → Bool
roster_deleted r = elim r.status [ TeamRosterStatus.deleted ↦ true | _ ↦ false ]

-- the shared guard: a complete entry is not replaced by an incomplete one
abbrev pub admits : Bool → Bool → Bool
admits existing_is_complete incoming_is_complete = not existing_is_complete || incoming_is_complete

unfoldable pub apply_org_state : EvidenceProjection → OrgStateSnapshot → EvidenceProjection
apply_org_state p snapshot =
    let incoming = org_read_model snapshot in
    if admits (is_some_and org_is_complete p.org_state) (org_is_complete incoming)
    then record p { org_state = some incoming }
    else p

unfoldable pub capture_repository :
    EvidenceProjection → Text → RepositoryEvidence → EvidenceProjection
capture_repository p key evidence =
    if admits (is_some_and is_complete (OrderedMap.get key p.repositories)) (is_complete evidence)
    then record p {
      deleted = OrderedMap.remove key p.deleted;
      repositories = OrderedMap.insert key evidence p.repositories;
    }
    else p

unfoldable pub capture_team : EvidenceProjection → Text → TeamRoster → EvidenceProjection
capture_team p key roster = record p {
  team_rosters =
      if admits (is_some_and roster_complete (OrderedMap.get key p.team_rosters))
        (roster_complete roster)
      then OrderedMap.insert key roster p.team_rosters
      else p.team_rosters;
  team_ghost_rosters = OrderedMap.remove key p.team_ghost_rosters;
}

abbrev ghost : Text → Option TeamRoster → OrderedMap TeamRoster → OrderedMap TeamRoster
ghost key none ghosts = OrderedMap.remove key ghosts
ghost key (some roster) ghosts =
    if roster_deleted roster
    then OrderedMap.insert key roster ghosts
    else OrderedMap.remove key ghosts

-- `Projection::apply`
unfoldable pub apply : EvidenceProjection → Event → EvidenceProjection
unfolding apply_org_state capture_repository capture_team
apply p (repository_state_captured true key evidence) = record p {
  repositories = OrderedMap.remove key p.repositories;
}
apply p (repository_state_captured false key none) = p
apply p (repository_state_captured false key (some evidence)) = capture_repository p key evidence
apply p (repository_deleted key repo_name detected_at) = record p {
  repositories = OrderedMap.remove key p.repositories;
  deleted =
      OrderedMap.insert key (record { repo_name = repo_name; detected_at = detected_at }) p.deleted;
}
apply p (org_state_captured snapshot) = apply_org_state p snapshot
apply p (team_state_captured true key roster) = record p {
  team_rosters = OrderedMap.remove key p.team_rosters;
  team_ghost_rosters = ghost key roster p.team_ghost_rosters;
}
apply p (team_state_captured false key none) = p
apply p (team_state_captured false key (some roster)) = capture_team p key roster

-- a stream of stored events, folded in order
unfoldable pub replay : EvidenceProjection → List Event → EvidenceProjection
replay p [] = p
replay p (e ∷ es) = replay (apply p e) es

unfoldable pub len : EvidenceProjection → ℕ
len p = length p.repositories

unfoldable pub is_empty_projection : EvidenceProjection → Bool
is_empty_projection p =
    is_empty p.repositories
    && (is_empty p.deleted
        && (not (is_some p.org_state)
            && (is_empty p.team_rosters && is_empty p.team_ghost_rosters)))

abbrev pub values {ℓ} : {V : Type ℓ} → OrderedMap V → List V
values [] = []
values ((k, v) ∷ m) = v ∷ values m

-- the order that `sorted_snapshot` sorts by, and the stable sort with it
abbrev pub not_above : RepositoryEvidence → RepositoryEvidence → Bool
not_above a b = elim (Repository.cmp a.repository b.repository) [ Ordering.gt ↦ false | _ ↦ true ]

unfoldable pub insert_sorted :
    RepositoryEvidence → List RepositoryEvidence → List RepositoryEvidence
insert_sorted e [] = e ∷ []
insert_sorted e (x ∷ xs) =
    let later = x ∷ insert_sorted e xs in if not_above e x then e ∷ x ∷ xs else later

unfoldable pub sort_evidence : List RepositoryEvidence → List RepositoryEvidence
unfolding insert_sorted
sort_evidence [] = []
sort_evidence (x ∷ xs) = insert_sorted x (sort_evidence xs)

unfoldable pub sorted_snapshot : EvidenceProjection → List RepositoryEvidence
unfolding sort_evidence
sorted_snapshot p = sort_evidence (values p.repositories)

unfoldable pub key_name_snapshot : EvidenceProjection → List (Text × Text)
key_name_snapshot p =
    map (λ e. (e.repository.inventory_key, e.repository.name)) (values p.repositories)

-- `bulk_load`, behind `load_baseline` and `load_resumed_checkpoint`
unfoldable pub extend :
    OrderedMap RepositoryEvidence → List RepositoryEvidence → OrderedMap RepositoryEvidence
extend m [] = m
extend m (e ∷ entries) = extend (OrderedMap.insert e.repository.inventory_key e m) entries

unfoldable pub bulk_load : EvidenceProjection → List RepositoryEvidence → EvidenceProjection
unfolding extend
bulk_load p entries = record p { repositories = extend p.repositories entries }

pub data Query : Type 0 where
  by_key contains team_roster : Text → Query
  count sorted deleted_rows key_names org team_rosters_rows team_ghosts : Query

pub data Response : Type 0 where
  one : Option RepositoryEvidence → Response
  counted : ℕ → Response
  contained : Bool → Response
  many : List RepositoryEvidence → Response
  deleted_pairs : List (Text × DeletedRepoRecord) → Response
  key_name_pairs : List (Text × Text) → Response
  org_answer : Option OrgReadModel → Response
  roster_answer : Option TeamRoster → Response
  rosters roster_ghosts : List (Text × TeamRoster) → Response

-- `ReadPort::resolve`
pub resolve : EvidenceProjection → Query → Response
unfolding len sorted_snapshot key_name_snapshot
resolve p (by_key key) = one (OrderedMap.get key p.repositories)
resolve p count = counted (len p)
resolve p (contains key) = contained (OrderedMap.contains_key key p.repositories)
resolve p sorted = many (sorted_snapshot p)
resolve p deleted_rows = deleted_pairs p.deleted
resolve p key_names = key_name_pairs (key_name_snapshot p)
resolve p org = org_answer p.org_state
resolve p (team_roster key) = roster_answer (OrderedMap.get key p.team_rosters)
resolve p team_rosters_rows = rosters p.team_rosters
resolve p team_ghosts = roster_ghosts p.team_ghost_rosters
