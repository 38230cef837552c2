-- ===== src/Projection/Downgrade.antt =====
-- The guard against downgrades: a complete observation is never replaced by an incomplete one.
use gh_report.Prelude.{
  ◌≡◌, ◌≢◌, inl, inr, Bool, true, false, none, some, List, [], ◌∷◌, Text, arith, All, text_eq_iff,
  text_eq_refl, Bool-cases,
}
use gh_report.OrderedMap
use gh_report.OrderedMap.{OrderedMap, get-insert, get-remove}
use gh_report.Checks.SecurityPolicy
use gh_report.Checks.SecretScanning
use gh_report.Checks.BranchProtection
use gh_report.Checks.Codeowners
use gh_report.Evidence.{
  RepositoryEvidence, is_complete, policy_known, dependabot_known, codeowners_known,
}
use gh_report.Projection.{
  EvidenceProjection, Event, repository_state_captured, repository_deleted, org_state_captured,
  team_state_captured, apply, replay, is_some_and, roster_complete, org_is_complete, admits,
}

abbrev pub CompleteAt : Text → EvidenceProjection → Type 0
CompleteAt key p = is_some_and is_complete (OrderedMap.get key p.repositories) ≡ true

abbrev pub RosterAt : Text → EvidenceProjection → Type 0
RosterAt key p = is_some_and roster_complete (OrderedMap.get key p.team_rosters) ≡ true

abbrev pub OrgComplete : EvidenceProjection → Type 0
OrgComplete p = is_some_and org_is_complete p.org_state ≡ true

-- events that do not remove the repository, and events that do not detach the team
abbrev pub KeepsRepository : Text → Event → Type 0
KeepsRepository key (repository_state_captured true k e) = k ≢ key
KeepsRepository key (repository_state_captured false k e) = Unit
KeepsRepository key (repository_deleted k name at) = k ≢ key
KeepsRepository key (org_state_captured s) = Unit
KeepsRepository key (team_state_captured d k r) = Unit

abbrev pub KeepsTeam : Text → Event → Type 0
KeepsTeam key (team_state_captured true k r) = k ≢ key
KeepsTeam key (team_state_captured false k r) = Unit
KeepsTeam key (repository_state_captured d k e) = Unit
KeepsTeam key (repository_deleted k name at) = Unit
KeepsTeam key (org_state_captured s) = Unit

module _ {V : Type 0} (complete : V → Bool) (key : Text) (m : OrderedMap V) where
  -- the guarded insertion, and a removal elsewhere
  guarded_complete :
      (k : Text) (v : V)
      → is_some_and complete (OrderedMap.get key m) ≡ true
      → admits (is_some_and complete (OrderedMap.get k m)) (complete v) ≡ true
      → is_some_and complete (OrderedMap.get key (OrderedMap.insert k v m)) ≡ true
  guarded_complete k v h g = ground (arith, get-insert k key v m, text_eq_iff key k)

  removed_complete :
      (k : Text)
      → k ≢ key
      → is_some_and complete (OrderedMap.get key m) ≡ true
      → is_some_and complete (OrderedMap.get key (OrderedMap.remove k m)) ≡ true
  removed_complete k n h = ground (arith, get-remove k key m, text_eq_iff key k)

apply-CompleteAt :
    (key : Text) (p : EvidenceProjection) (e : Event)
    → KeepsRepository key e
    → CompleteAt key p
    → CompleteAt key (apply p e)
unfolding apply
apply-CompleteAt key p (repository_state_captured true k e) n h =
    removed_complete is_complete key p.repositories k n h
apply-CompleteAt key p (repository_state_captured false k none) n h = h
apply-CompleteAt key p (repository_state_captured false k (some e)) n h =
    let guard =
      admits (is_some_and is_complete (OrderedMap.get k p.repositories)) (is_complete e) in
    elim (Bool-cases guard) [
      | inl g ↦ rw g (guarded_complete is_complete key p.repositories k e h g)
      | inr g ↦ rw g h
    ]
apply-CompleteAt key p (repository_deleted k name at) n h =
    removed_complete is_complete key p.repositories k n h
apply-CompleteAt key p (org_state_captured s) n h = ground (arith)
apply-CompleteAt key p (team_state_captured true k r) n h = h
apply-CompleteAt key p (team_state_captured false k none) n h = h
apply-CompleteAt key p (team_state_captured false k (some r)) n h = h

-- Once a repository's evidence is complete it stays complete, whatever is observed later, until an
-- event removes the repository.
pub replay-CompleteAt :
    (key : Text) (p : EvidenceProjection) (es : List Event)
    → All (KeepsRepository key) es
    → CompleteAt key p
    → CompleteAt key (replay p es)
unfolding replay
replay-CompleteAt key p [] ns h = h
replay-CompleteAt key p (e ∷ es) (n, ns) h =
    replay-CompleteAt key (apply p e) es ns (apply-CompleteAt key p e n h)

apply-RosterAt :
    (key : Text) (p : EvidenceProjection) (e : Event)
    → KeepsTeam key e
    → RosterAt key p
    → RosterAt key (apply p e)
unfolding apply
apply-RosterAt key p (team_state_captured true k r) n h =
    removed_complete roster_complete key p.team_rosters k n h
apply-RosterAt key p (team_state_captured false k none) n h = h
apply-RosterAt key p (team_state_captured false k (some r)) n h =
    let guard =
      admits (is_some_and roster_complete (OrderedMap.get k p.team_rosters)) (roster_complete r) in
    elim (Bool-cases guard) [
      | inl g ↦ rw g (guarded_complete roster_complete key p.team_rosters k r h g)
      | inr g ↦ rw g h
    ]
apply-RosterAt key p (repository_state_captured true k e) n h = h
apply-RosterAt key p (repository_state_captured false k none) n h = h
apply-RosterAt key p (repository_state_captured false k (some e)) n h = ground arith
apply-RosterAt key p (repository_deleted k name at) n h = h
apply-RosterAt key p (org_state_captured s) n h = ground arith

-- Once a team's roster is complete it stays complete, whatever is observed later, until an event
-- detaches the team.
pub replay-RosterAt :
    (key : Text) (p : EvidenceProjection) (es : List Event)
    → All (KeepsTeam key) es
    → RosterAt key p
    → RosterAt key (replay p es)
unfolding replay
replay-RosterAt key p [] ns h = h
replay-RosterAt key p (e ∷ es) (n, ns) h =
    replay-RosterAt key (apply p e) es ns (apply-RosterAt key p e n h)

apply-OrgComplete : (p : EvidenceProjection) (e : Event) → OrgComplete p → OrgComplete (apply p e)
unfolding apply
apply-OrgComplete p (org_state_captured s) h = ground arith
apply-OrgComplete p (repository_state_captured true k e) h = h
apply-OrgComplete p (repository_state_captured false k none) h = h
apply-OrgComplete p (repository_state_captured false k (some e)) h = ground arith
apply-OrgComplete p (repository_deleted k name at) h = h
apply-OrgComplete p (team_state_captured true k r) h = h
apply-OrgComplete p (team_state_captured false k none) h = h
apply-OrgComplete p (team_state_captured false k (some r)) h = h

-- Once the organisation's snapshot is complete it stays complete, whatever events follow.
pub replay-OrgComplete :
    (p : EvidenceProjection) (es : List Event) → OrgComplete p → OrgComplete (replay p es)
unfolding replay
replay-OrgComplete p [] h = h
replay-OrgComplete p (e ∷ es) h = replay-OrgComplete (apply p e) es (apply-OrgComplete p e h)

-- Evidence whose secret scanning was denied, with the other four checks known, counts as complete:
-- it replaces whatever the projection holds for the repository, complete evidence included.
pub denied_replaces :
    (p : EvidenceProjection) (key : Text) (e : RepositoryEvidence)
    → SecretScanning.status e.checks.secret_scanning
      ≡ SecretScanning.SecretScanningStatus.permission_denied
    → policy_known (SecurityPolicy.status e.checks.security_policy) ≡ true
    → dependabot_known e.checks.dependabot_security_updates.status ≡ true
    → BranchProtection.is_observed e.checks.branch_protection ≡ true
    → codeowners_known (Codeowners.status e.checks.codeowners) ≡ true
    → (OrderedMap.get key (apply p (repository_state_captured false key (some e))).repositories
        ≡ some e)
unfolding apply
denied_replaces p key e hs hp hd hb hc =
    let whole : is_complete e ≡ true = unfold is_complete in rw (hs, hp, hd, hb, hc) in
    ground (arith, get-insert key key e p.repositories, text_eq_refl key)
