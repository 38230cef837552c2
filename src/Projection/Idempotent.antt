-- ===== src/Projection/Idempotent.antt =====
-- Applying an event twice is applying it once.
use gh_report.Prelude.{
  ◌≡◌, inl, inr, refl, Bool, true, false, Option, none, some, Text, arith, text_eq_refl, Bool-cases,
}
use gh_report.OrderedMap
use gh_report.OrderedMap.{OrderedMap, get-insert, insert-insert, remove-remove}
use gh_report.Org.{TeamRoster}
use gh_report.Evidence.{RepositoryEvidence, is_complete, OrgStateSnapshot}
use gh_report.Projection.{
  EvidenceProjection, Event, repository_state_captured, repository_deleted, org_state_captured,
  team_state_captured, apply, is_some_and, roster_complete, roster_deleted, org_read_model,
  org_is_complete, admits, apply_org_state, capture_repository, capture_team,
}

module _ {V : Type 0} (complete : V → Bool) (key : Text) (v : V) (m : OrderedMap V) where
  -- what was just inserted is admitted again
  admits_again :
      admits (is_some_and complete (OrderedMap.get key (OrderedMap.insert key v m))) (complete v)
      ≡ true
  admits_again = ground (arith, get-insert key key v m, text_eq_refl key)

capture_repository_twice :
    (p : EvidenceProjection) (key : Text) (e : RepositoryEvidence)
    → capture_repository (capture_repository p key e) key e ≡ capture_repository p key e
unfolding capture_repository
capture_repository_twice p key e =
    let guard =
      admits (is_some_and is_complete (OrderedMap.get key p.repositories)) (is_complete e) in
    elim (Bool-cases guard) [
      | inl g ↦ rw g (
          rw (admits_again is_complete key e p.repositories)
            (rw (insert-insert key e e p.repositories, remove-remove key p.deleted)))
      | inr g ↦ rw g (rw g)
    ]

capture_team_twice :
    (p : EvidenceProjection) (key : Text) (r : TeamRoster)
    → capture_team (capture_team p key r) key r ≡ capture_team p key r
unfolding capture_team
capture_team_twice p key r =
    let guard =
      admits (is_some_and roster_complete (OrderedMap.get key p.team_rosters))
        (roster_complete r) in
    elim (Bool-cases guard) [
      | inl g ↦ rw g (
          rw (admits_again roster_complete key r p.team_rosters)
            (rw (insert-insert key r r p.team_rosters, remove-remove key p.team_ghost_rosters)))
      | inr g ↦ rw g (rw g (rw (remove-remove key p.team_ghost_rosters)))
    ]

apply_org_state_twice :
    (p : EvidenceProjection) (s : OrgStateSnapshot)
    → apply_org_state (apply_org_state p s) s ≡ apply_org_state p s
unfolding apply_org_state
apply_org_state_twice p s =
    let incoming = org_read_model s in
    elim (Bool-cases
      (admits (is_some_and org_is_complete p.org_state) (org_is_complete incoming))) [
        | inl g ↦ rw g (ground arith)
        | inr g ↦ rw g (rw g)
      ]

detach_team_twice :
    (p : EvidenceProjection) (key : Text) (r : Option TeamRoster)
    → let e = team_state_captured true key r in apply (apply p e) e ≡ apply p e
unfolding apply
detach_team_twice p key none =
    rw (remove-remove key p.team_rosters, remove-remove key p.team_ghost_rosters)
detach_team_twice p key (some r) = elim (Bool-cases (roster_deleted r)) [
  | inl g ↦ rw g (rw (remove-remove key p.team_rosters, insert-insert key r r p.team_ghost_rosters))
  | inr g ↦ rw g (rw (remove-remove key p.team_rosters, remove-remove key p.team_ghost_rosters))
]

-- Replaying an event that was just applied changes nothing, whatever the event and the state.
pub apply_twice : (p : EvidenceProjection) (e : Event) → apply (apply p e) e ≡ apply p e
apply_twice p (repository_state_captured true key e) =
    unfold apply in rw (remove-remove key p.repositories)
apply_twice p (repository_state_captured false key none) = unfold apply in refl
apply_twice p (repository_state_captured false key (some e)) =
    unfold apply in capture_repository_twice p key e
apply_twice p (repository_deleted key name at) =
    unfold apply in
    rw (
      remove-remove key p.repositories,
      insert-insert key (record { repo_name = name; detected_at = at })
          (record { repo_name = name; detected_at = at }) p.deleted,
    )
apply_twice p (org_state_captured s) = unfold apply in apply_org_state_twice p s
apply_twice p (team_state_captured true key r) = detach_team_twice p key r
apply_twice p (team_state_captured false key none) = unfold apply in refl
apply_twice p (team_state_captured false key (some r)) = unfold apply in capture_team_twice p key r
