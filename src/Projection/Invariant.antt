-- ===== src/Projection/Invariant.antt =====
-- The invariant of the projection: nothing is live and deleted at once.
use gh_report.Prelude.{
  ◌≡◌, ◌⊎◌, inl, inr, true, false, none, some, List, [], ◌∷◌, Text, arith, text_eq, is_some,
  Bool-cases, ap,
}
use gh_report.OrderedMap
use gh_report.OrderedMap.{OrderedMap, get-empty, get-insert, get-remove}
use gh_report.OrderedMap.Sorted.{Sorted, insert-Sorted, remove-Sorted}
use gh_report.Org.{TeamRoster, TeamRosterStatus}
use gh_report.Projection.{
  EvidenceProjection, Event, repository_state_captured, repository_deleted, org_state_captured,
  team_state_captured, apply, replay, new, admits, is_some_and, roster_complete, roster_deleted,
  org_read_model, org_is_complete, apply_org_state, capture_repository, capture_team,
}
use gh_report.Evidence.{RepositoryEvidence, is_complete, OrgStateSnapshot}

-- no key is in both maps
abbrev pub Apart {ℓ κ} : {V : Type ℓ} {W : Type κ} → OrderedMap V → OrderedMap W → Type 0
Apart m n =
    (k : Text) → (is_some (OrderedMap.get k m) ≡ false) ⊎ (is_some (OrderedMap.get k n) ≡ false)

pub record IsValid (p : EvidenceProjection) : Type 0 where
  -- a repository is live or a deleted row, never both
  pub repositories_apart : Apart p.repositories p.deleted
  -- a team is live or a ghost, never both
  pub teams_apart : Apart p.team_rosters p.team_ghost_rosters
  -- a ghost is a team that GitHub has deleted
  pub ghosts_deleted :
      (k : Text) (r : TeamRoster)
      → OrderedMap.get k p.team_ghost_rosters ≡ some r
      → r.status ≡ TeamRosterStatus.deleted
  -- iteration is in key order
  pub repositories_sorted : Sorted p.repositories
  pub deleted_sorted : Sorted p.deleted
  pub rosters_sorted : Sorted p.team_rosters
  pub ghosts_sorted : Sorted p.team_ghost_rosters

module _ {ℓ κ} {V : Type ℓ} {W : Type κ} (m : OrderedMap V) (n : OrderedMap W) (key : Text)
    (h : Apart m n) where
  Apart-remove_left : Apart (OrderedMap.remove key m) n
  Apart-remove_left k = ground (arith, h k, get-remove key k m)

  Apart-remove_right : Apart m (OrderedMap.remove key n)
  Apart-remove_right k = ground (arith, h k, get-remove key k n)

  Apart-move_left : (v : V) → Apart (OrderedMap.insert key v m) (OrderedMap.remove key n)
  Apart-move_left v k = ground (arith, h k, get-insert key k v m, get-remove key k n)

  Apart-move_right : (w : W) → Apart (OrderedMap.remove key m) (OrderedMap.insert key w n)
  Apart-move_right w k = ground (arith, h k, get-remove key k m, get-insert key k w n)

abbrev GhostsDeleted : OrderedMap TeamRoster → Type 0
GhostsDeleted m =
    (k : Text) (r : TeamRoster) → OrderedMap.get k m ≡ some r → r.status ≡ TeamRosterStatus.deleted

GhostsDeleted-remove :
    (m : OrderedMap TeamRoster) (key : Text)
    → GhostsDeleted m
    → GhostsDeleted (OrderedMap.remove key m)
GhostsDeleted-remove m key h k r e = ground (arith, h k r, get-remove key k m)

GhostsDeleted-insert :
    (m : OrderedMap TeamRoster) (key : Text) (roster : TeamRoster)
    → roster.status ≡ TeamRosterStatus.deleted
    → GhostsDeleted m
    → GhostsDeleted (OrderedMap.insert key roster m)
GhostsDeleted-insert m key roster d h k r e = elim (Bool-cases (text_eq k key)) [
  | inl same ↦ let er : some roster ≡ some r = cc (get-insert key k roster m, same, e) in cc (er, d)
  | inr other ↦ h k r (cc (get-insert key k roster m, other, e))
]

capture_repository-IsValid :
    (p : EvidenceProjection) (key : Text) (e : RepositoryEvidence)
    → IsValid p
    → IsValid (capture_repository p key e)
unfolding capture_repository
capture_repository-IsValid p key e v =
    elim (Bool-cases
      (admits (is_some_and is_complete (OrderedMap.get key p.repositories)) (is_complete e))) [
        | inl yes' ↦ rw yes' (record {
          repositories_apart = Apart-move_left p.repositories p.deleted key v.repositories_apart e;
          teams_apart = v.teams_apart;
          ghosts_deleted = v.ghosts_deleted;
          repositories_sorted = insert-Sorted key e p.repositories v.repositories_sorted;
          deleted_sorted = remove-Sorted key p.deleted v.deleted_sorted;
          rosters_sorted = v.rosters_sorted;
          ghosts_sorted = v.ghosts_sorted;
        })
        | inr not' ↦ rw not' v
      ]

capture_team-IsValid :
    (p : EvidenceProjection) (key : Text) (r : TeamRoster)
    → IsValid p
    → IsValid (capture_team p key r)
unfolding capture_team
capture_team-IsValid p key r v =
    let guard =
      admits (is_some_and roster_complete (OrderedMap.get key p.team_rosters))
        (roster_complete r) in
    record {
      repositories_apart = v.repositories_apart;
      teams_apart = elim (Bool-cases guard) [
        | inl yes' ↦
            rw yes' (Apart-move_left p.team_rosters p.team_ghost_rosters key v.teams_apart r)
        | inr not' ↦
            rw not' (Apart-remove_right p.team_rosters p.team_ghost_rosters key v.teams_apart)
      ];
      ghosts_deleted = GhostsDeleted-remove p.team_ghost_rosters key v.ghosts_deleted;
      repositories_sorted = v.repositories_sorted;
      deleted_sorted = v.deleted_sorted;
      rosters_sorted = elim (Bool-cases guard) [
        | inl yes' ↦ rw yes' (insert-Sorted key r p.team_rosters v.rosters_sorted)
        | inr not' ↦ rw not' v.rosters_sorted
      ];
      ghosts_sorted = remove-Sorted key p.team_ghost_rosters v.ghosts_sorted;
    }

roster_deleted-status :
    (r : TeamRoster) → roster_deleted r ≡ true → r.status ≡ TeamRosterStatus.deleted
roster_deleted-status r h = ground arith

forget_team-IsValid :
    (p : EvidenceProjection) (key : Text)
    → IsValid p
    → IsValid (apply p (team_state_captured true key none))
unfolding apply
forget_team-IsValid p key v = record {
  repositories_apart = v.repositories_apart;
  teams_apart =
      Apart-remove_left p.team_rosters (OrderedMap.remove key p.team_ghost_rosters) key
        (Apart-remove_right p.team_rosters p.team_ghost_rosters key v.teams_apart);
  ghosts_deleted = GhostsDeleted-remove p.team_ghost_rosters key v.ghosts_deleted;
  repositories_sorted = v.repositories_sorted;
  deleted_sorted = v.deleted_sorted;
  rosters_sorted = remove-Sorted key p.team_rosters v.rosters_sorted;
  ghosts_sorted = remove-Sorted key p.team_ghost_rosters v.ghosts_sorted;
}

-- what a detached team leaves behind
detach_team-IsValid :
    (p : EvidenceProjection) (key : Text) (r : TeamRoster)
    → IsValid p
    → IsValid (apply p (team_state_captured true key (some r)))
unfolding apply
detach_team-IsValid p key r v = elim (Bool-cases (roster_deleted r)) [
  | inl gone ↦ rw gone (record {
    repositories_apart = v.repositories_apart;
    teams_apart = Apart-move_right p.team_rosters p.team_ghost_rosters key v.teams_apart r;
    ghosts_deleted =
        GhostsDeleted-insert p.team_ghost_rosters key r (roster_deleted-status r gone)
          v.ghosts_deleted;
    repositories_sorted = v.repositories_sorted;
    deleted_sorted = v.deleted_sorted;
    rosters_sorted = remove-Sorted key p.team_rosters v.rosters_sorted;
    ghosts_sorted = insert-Sorted key r p.team_ghost_rosters v.ghosts_sorted;
  })
  | inr other ↦ rw other (forget_team-IsValid p key v)
]

apply_org_state-IsValid :
    (p : EvidenceProjection) (snapshot : OrgStateSnapshot)
    → IsValid p
    → IsValid (apply_org_state p snapshot)
unfolding apply_org_state
apply_org_state-IsValid p snapshot v =
    let incoming = org_read_model snapshot in
    elim (Bool-cases
      (admits (is_some_and org_is_complete p.org_state) (org_is_complete incoming))) [
        | inl yes' ↦ rw yes' (record {
          repositories_apart = v.repositories_apart;
          teams_apart = v.teams_apart;
          ghosts_deleted = v.ghosts_deleted;
          repositories_sorted = v.repositories_sorted;
          deleted_sorted = v.deleted_sorted;
          rosters_sorted = v.rosters_sorted;
          ghosts_sorted = v.ghosts_sorted;
        })
        | inr not' ↦ rw not' v
      ]

-- Every event keeps the invariant.
pub apply-IsValid : (p : EvidenceProjection) (e : Event) → IsValid p → IsValid (apply p e)
apply-IsValid p (repository_state_captured true key e) v =
    unfold apply in
    record {
      repositories_apart = Apart-remove_left p.repositories p.deleted key v.repositories_apart;
      teams_apart = v.teams_apart;
      ghosts_deleted = v.ghosts_deleted;
      repositories_sorted = remove-Sorted key p.repositories v.repositories_sorted;
      deleted_sorted = v.deleted_sorted;
      rosters_sorted = v.rosters_sorted;
      ghosts_sorted = v.ghosts_sorted;
    }
apply-IsValid p (repository_state_captured false key none) v = unfold apply in v
apply-IsValid p (repository_state_captured false key (some e)) v =
    unfold apply in capture_repository-IsValid p key e v
apply-IsValid p (repository_deleted key name at) v =
    unfold apply in
    record {
      repositories_apart =
          Apart-move_right p.repositories p.deleted key v.repositories_apart
            (record { repo_name = name; detected_at = at });
      teams_apart = v.teams_apart;
      ghosts_deleted = v.ghosts_deleted;
      repositories_sorted = remove-Sorted key p.repositories v.repositories_sorted;
      deleted_sorted =
          insert-Sorted key (record { repo_name = name; detected_at = at }) p.deleted
            v.deleted_sorted;
      rosters_sorted = v.rosters_sorted;
      ghosts_sorted = v.ghosts_sorted;
    }
apply-IsValid p (org_state_captured snapshot) v =
    unfold apply in apply_org_state-IsValid p snapshot v
apply-IsValid p (team_state_captured true key none) v = forget_team-IsValid p key v
apply-IsValid p (team_state_captured true key (some r)) v = detach_team-IsValid p key r v
apply-IsValid p (team_state_captured false key none) v = unfold apply in v
apply-IsValid p (team_state_captured false key (some r)) v =
    unfold apply in capture_team-IsValid p key r v

replay-IsValid_from : (p : EvidenceProjection) (es : List Event) → IsValid p → IsValid (replay p es)
unfolding replay
replay-IsValid_from p [] v = v
replay-IsValid_from p (e ∷ es) v = replay-IsValid_from (apply p e) es (apply-IsValid p e v)

new-IsValid : IsValid new
new-IsValid = record {
  repositories_apart = λ k. inl (ap is_some (get-empty k));
  teams_apart = λ k. inl (ap is_some (get-empty k));
  ghosts_deleted = λ k r e. cc (get-empty {V = TeamRoster} k, e);
  repositories_sorted = tt;
  deleted_sorted = tt;
  rosters_sorted = tt;
  ghosts_sorted = tt;
}

-- Whatever events are replayed into an empty projection, no repository is both live and deleted, no
-- team is both live and a ghost, every ghost is a team that GitHub has deleted, and each of the
-- four maps iterates in strictly increasing key order.
pub replay-IsValid : (es : List Event) → IsValid (replay new es)
replay-IsValid es = replay-IsValid_from new es new-IsValid
