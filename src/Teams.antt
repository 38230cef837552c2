-- ===== src/Teams.antt =====
-- collector/team_membership.rs: the organisation's teams, their rosters, and its members.
pub mod Enumeration
use gh_report.Prelude.{
  ℕ, suc, zero, ◌≡◌, Bool, true, false, not, ◌&&◌, ◌||◌, Option, none, some, List, [], ◌∷◌, Text,
  codes, map, any, if◌then◌else◌, ◌==◌, text_eq, text_cmp, Ordering, ◌>>=◌, sort_by,
}
use gh_report.Org.{TeamMember, TeamMemberRole, TeamRoster, TeamRosterStatus, maintainer, member}
use gh_report.Api.{Json, ApiOutcome, is_ok, status_code, payload_of, is_code}
use gh_report.Api

-- sanitize_path_segment, serde, `str::trim`, `str::to_lowercase`, and the clock
pub record Texts (Value : Type 0) : Type 0 where
  pub sanitize : Text → Option Text
  -- the login and the role of an object that decodes
  pub from_value : Value → Option (Text × Option Text)
  -- the login of an object that decodes as a member of the organisation
  pub from_org_value : Value → Option Text
  pub is_blank : Text → Bool
  pub to_lowercase : Text → Text
  pub now : Text

pub data DiscoveryGap : Type 0 where
  failed truncated invalid : DiscoveryGap

-- a slug that `TeamSlug::parse` let through
pub record TeamDiscovery : Type 0 where
  pub slugs : List Text
  pub gap : Option DiscoveryGap

abbrev pub no_gap : Option DiscoveryGap → Bool
no_gap none = true
no_gap (some g) = false

unfoldable pub authorizes_omission_detach : TeamDiscovery → Bool
authorizes_omission_detach d = no_gap d.gap

unfoldable pub degraded_roster : Text → Text → TeamRosterStatus → TeamRoster
degraded_roster canonical_owner team_slug status = record {
  canonical_owner = canonical_owner;
  team_slug = team_slug;
  status = status;
  members = [];
  fetched_at = none;
}

unfoldable pub role_from_wire : Option Text → TeamMemberRole
unfolding text_eq
role_from_wire none = TeamMemberRole.unknown
role_from_wire (some role) =
    if text_eq role (codes "maintainer")
    then maintainer
    else if text_eq role (codes "member")
    then member
    else TeamMemberRole.unknown

-- the teams that were seen to be deleted, a set
abbrev pub Deleted : Type 0
Deleted = List Text

unfoldable pub is_known_deleted_team : Text → Deleted → Bool
unfolding text_eq
is_known_deleted_team slug deleted = any (text_eq slug) deleted

unfoldable pub record_deleted_team : Text → Deleted → Deleted
unfolding is_known_deleted_team
record_deleted_team slug deleted =
    if is_known_deleted_team slug deleted then deleted else slug ∷ deleted

abbrev pub Read : Type 0
Read = Text × TeamMemberRole

abbrev pub member_of : Read → TeamMember
member_of (login, role) = record { login = login; role = role; in_org = none }

module _ (J : Json) (L : Texts J.Value) where
  open J use {Value, get, as_array, as_str, is_object}
  open L use {sanitize, from_value, from_org_value, is_blank, to_lowercase, now}

  unfoldable pub items_in : ApiOutcome Value → Option (List Value)
  unfolding payload_of
  items_in outcome = do value ← payload_of outcome; as_array value

  unfoldable pub slug_of : Value → Option Text
  slug_of item = do v ← get item (codes "slug"); raw ← as_str v; sanitize raw

  abbrev pub add_slug : Option Text → List Text × ℕ → List Text × ℕ
  add_slug (some slug) (slugs, unusable) = (slug ∷ slugs, unusable)
  add_slug none (slugs, unusable) = (slugs, suc unusable)

  -- the slugs in order, and the number of entries without one
  unfoldable pub read_slugs : List Value → List Text × ℕ
  unfolding slug_of
  read_slugs [] = ([], 0)
  read_slugs (item ∷ items) = add_slug (slug_of item) (read_slugs items)

  abbrev pub gap_of : Bool → ℕ → Option DiscoveryGap
  gap_of cut unusable =
      if cut
      then some DiscoveryGap.truncated
      else if unusable == 0
      then none
      else some DiscoveryGap.invalid

  unfoldable pub discover_org_teams : ApiOutcome Value → TeamDiscovery
  unfolding read_slugs items_in Api.is_truncated
  discover_org_teams outcome = elim (items_in outcome) [
    | none ↦ record { slugs = []; gap = some DiscoveryGap.failed }
    | some items ↦ record {
      slugs = (read_slugs items).0;
      gap = gap_of (Api.is_truncated outcome) (read_slugs items).1;
    }
  ]

  unfoldable pub failure_status : ApiOutcome Value → TeamRosterStatus
  unfolding status_code
  failure_status outcome =
      if is_code 404 (status_code outcome)
      then TeamRosterStatus.deleted
      else if is_code 403 (status_code outcome)
      then TeamRosterStatus.permission_denied
      else TeamRosterStatus.transient_error

  -- an object that decodes, with a login that is not blank
  unfoldable pub read_member : Value → Option Read
  unfolding role_from_wire
  read_member item =
      if is_object item
      then (do
        (login, role) ← from_value item
        if is_blank login then none else some (login, role_from_wire role))
      else none

  unfoldable pub read_org_member : Value → Option Text
  read_org_member item =
      if is_object item
      then (do login ← from_org_value item; if is_blank login then none else some login)
      else none

  -- the loop over the entries, which one bad entry ends
  unfoldable pub read_all : {A : Type 0} → (Value → Option A) → List Value → Option (List A)
  read_all read [] = some []
  read_all read (item ∷ items) = do m ← read item; ms ← read_all read items; some (m ∷ ms)

  unfoldable pub members_from_outcome : ApiOutcome Value → Option (List Read)
  unfolding read_all read_member items_in
  members_from_outcome outcome = do items ← items_in outcome; read_all read_member items

  unfoldable pub login_le : TeamMember → TeamMember → Bool
  unfolding text_cmp
  login_le a b = elim (text_cmp (to_lowercase a.login) (to_lowercase b.login)) [
    | Ordering.gt ↦ false
    | Ordering.eq ↦ true
    | Ordering.lt ↦ true
  ]

  unfoldable pub complete_roster : Text → Text → List Read → TeamRoster
  unfolding login_le sort_by
  complete_roster canonical_owner team_slug parsed = record {
    canonical_owner = canonical_owner;
    team_slug = team_slug;
    status = TeamRosterStatus.complete;
    members = sort_by login_le (map member_of parsed);
    fetched_at = some now;
  }

  unfoldable pub roster_of : Text → Text → Option (List Read) → TeamRoster
  unfolding complete_roster degraded_roster
  roster_of canonical_owner team_slug none =
      degraded_roster canonical_owner team_slug TeamRosterStatus.transient_error
  roster_of canonical_owner team_slug (some parsed) =
      complete_roster canonical_owner team_slug parsed

  unfoldable pub record_if : Bool → Text → Deleted → Deleted
  unfolding record_deleted_team
  record_if true slug deleted = record_deleted_team slug deleted
  record_if false slug deleted = deleted

  -- the request for the members of a slug is answered by `fetch`
  unfoldable pub collect_one_team_roster :
      (Text → ApiOutcome Value) → Text → Text → Deleted → TeamRoster × Deleted
  unfolding roster_of members_from_outcome degraded_roster is_known_deleted_team record_if
      failure_status is_ok Api.is_truncated status_code
  collect_one_team_roster fetch canonical_owner team_slug deleted = elim (sanitize team_slug) [
    | none ↦ (degraded_roster canonical_owner team_slug TeamRosterStatus.transient_error, deleted)
    | some safe_slug ↦
        if is_known_deleted_team safe_slug deleted
        then (degraded_roster canonical_owner team_slug TeamRosterStatus.deleted, deleted)
        else (let outcome = fetch safe_slug in
            if not (is_ok outcome) || Api.is_truncated outcome
            then (
              degraded_roster canonical_owner team_slug (failure_status outcome),
              record_if (is_code 404 (status_code outcome)) safe_slug deleted,
            )
            else (roster_of canonical_owner team_slug (members_from_outcome outcome), deleted))
  ]

  unfoldable pub collect_team_rosters :
      (Text → ApiOutcome Value) → List (Text × Text) → Deleted → List TeamRoster × Deleted
  unfolding collect_one_team_roster
  collect_team_rosters fetch [] deleted = ([], deleted)
  collect_team_rosters fetch ((canonical_owner, team_slug) ∷ teams) deleted =
      let (roster, later) = collect_one_team_roster fetch canonical_owner team_slug deleted in
      let (rosters, last) = collect_team_rosters fetch teams later in (roster ∷ rosters, last)

  unfoldable pub org_member_logins_from_outcome : ApiOutcome Value → Option (List Text)
  unfolding read_all read_org_member items_in
  org_member_logins_from_outcome outcome = do
    items ← items_in outcome
    read_all read_org_member items

  -- the set of the members' logins, in lower case
  unfoldable pub org_members_from_outcome : ApiOutcome Value → Option (List Text)
  unfolding org_member_logins_from_outcome is_ok Api.is_truncated
  org_members_from_outcome outcome =
      if not (is_ok outcome) || Api.is_truncated outcome
      then none
      else (do logins ← org_member_logins_from_outcome outcome; some (map to_lowercase logins))

  abbrev in_set : Option (List Text) → Text → Option Bool
  unfolding text_eq
  in_set none login = none
  in_set (some set) login = some (any (text_eq login) set)

  abbrev enrich_member : Option (List Text) → TeamMember → TeamMember
  unfolding in_set
  enrich_member org_members m = record m { in_org = in_set org_members (to_lowercase m.login) }

  abbrev enrich_roster : Option (List Text) → TeamRoster → TeamRoster
  unfolding enrich_member
  enrich_roster org_members r = record r { members = map (enrich_member org_members) r.members }

  unfoldable pub enrich_team_rosters_with_org_membership :
      Option (List Text) → List TeamRoster → List TeamRoster
  unfolding enrich_roster
  enrich_team_rosters_with_org_membership org_members rosters =
      map (enrich_roster org_members) rosters
