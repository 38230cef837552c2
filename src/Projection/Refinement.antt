-- ===== src/Projection/Refinement.antt =====
-- The read model as functions of a key, which forget the order of its maps, and that every event
-- acts on them as the specification says.
use gh_report.Prelude.{
  ◌≡◌, refl, fun_ext, ap, ◌∙◌, true, false, Option, none, some, List, [], ◌∷◌, Text, text_eq,
  if◌then◌else◌, Bool-cases, inl, inr,
}
use gh_report.OrderedMap
use gh_report.Org.{TeamRoster}
use gh_report.Evidence.{RepositoryEvidence, is_complete}
use gh_report.Projection.{
  EvidenceProjection, DeletedRepoRecord, OrgReadModel, Event, repository_state_captured,
  repository_deleted, org_state_captured, team_state_captured, apply, replay, apply_org_state,
  capture_repository, capture_team, admits, is_some_and, org_is_complete, org_read_model,
  roster_complete, roster_deleted, ghost,
}

pub record View : Type 0 where
  pub live : Text → Option RepositoryEvidence
  pub deleted : Text → Option DeletedRepoRecord
  pub org : Option OrgReadModel
  pub rosters : Text → Option TeamRoster
  pub ghosts : Text → Option TeamRoster

abbrev pub view : EvidenceProjection → View
view p = record {
  live = λ k. OrderedMap.get k p.repositories;
  deleted = λ k. OrderedMap.get k p.deleted;
  org = p.org_state;
  rosters = λ k. OrderedMap.get k p.team_rosters;
  ghosts = λ k. OrderedMap.get k p.team_ghost_rosters;
}

abbrev pub set {ℓ} : {V : Type ℓ} → Text → Option V → (Text → Option V) → Text → Option V
set k v f j = if text_eq j k then v else f j

-- the ghost that a detached team leaves: its roster, if GitHub has deleted the team
abbrev ghost_of : Option TeamRoster → Option TeamRoster
ghost_of none = none
ghost_of (some r) = if roster_deleted r then some r else none

-- what each event does to one entry of each function
unfoldable pub act : View → Event → View
act v (repository_state_captured true key evidence) = record v { live = set key none v.live }
act v (repository_state_captured false key none) = v
act v (repository_state_captured false key (some e)) =
    if admits (is_some_and is_complete (v.live key)) (is_complete e)
    then record v { live = set key (some e) v.live; deleted = set key none v.deleted }
    else v
act v (repository_deleted key repo_name detected_at) = record v {
  live = set key none v.live;
  deleted = set key (some (record { repo_name = repo_name; detected_at = detected_at })) v.deleted;
}
act v (org_state_captured snapshot) =
    if admits (is_some_and org_is_complete v.org) (org_is_complete (org_read_model snapshot))
    then record v { org = some (org_read_model snapshot) }
    else v
act v (team_state_captured true key roster) = record v {
  rosters = set key none v.rosters;
  ghosts = set key (ghost_of roster) v.ghosts;
}
act v (team_state_captured false key none) = v
act v (team_state_captured false key (some r)) = record v {
  rosters =
      if admits (is_some_and roster_complete (v.rosters key)) (roster_complete r)
      then set key (some r) v.rosters
      else v.rosters;
  ghosts = set key none v.ghosts;
}

module _ {V : Type 0} (k : Text) (m : OrderedMap.OrderedMap V) where
  removed : (λ j. OrderedMap.get j (OrderedMap.remove k m)) ≡ set k none (λ j. OrderedMap.get j m)
  removed = fun_ext λ j. OrderedMap.get-remove k j m

  inserted :
      (v : V)
      → (λ j. OrderedMap.get j (OrderedMap.insert k v m)) ≡ set k (some v) (λ j. OrderedMap.get j m)
  inserted v = fun_ext λ j. OrderedMap.get-insert k j v m

ghosted :
    (k : Text) (m : OrderedMap.OrderedMap TeamRoster) (roster : Option TeamRoster)
    → (λ j. OrderedMap.get j (ghost k roster m)) ≡ set k (ghost_of roster) (λ j. OrderedMap.get j m)
ghosted k m none = removed k m
ghosted k m (some r) = elim (Bool-cases (roster_deleted r)) [
  | inl g ↦ rw g (inserted k m r)
  | inr g ↦ rw g (removed k m)
]

apply-act : (p : EvidenceProjection) (e : Event) → view (apply p e) ≡ act (view p) e
unfolding apply act capture_repository capture_team apply_org_state
apply-act p (repository_state_captured true key e) =
    λ i. record (view p) { live = removed key p.repositories i }
apply-act p (repository_state_captured false key none) = refl
apply-act p (repository_state_captured false key (some e)) =
    elim (Bool-cases
      (admits (is_some_and is_complete (OrderedMap.get key p.repositories)) (is_complete e))) [
        | inl g ↦ rw g (λ i. record (view p) {
          live = inserted key p.repositories e i;
          deleted = removed key p.deleted i;
        })
        | inr g ↦ rw g refl
      ]
apply-act p (repository_deleted key name at) = λ i. record (view p) {
  live = removed key p.repositories i;
  deleted = inserted key p.deleted (record { repo_name = name; detected_at = at }) i;
}
apply-act p (org_state_captured s) =
    elim (Bool-cases
      (admits (is_some_and org_is_complete p.org_state) (org_is_complete (org_read_model s)))) [
        | inl g ↦ rw g refl
        | inr g ↦ rw g refl
      ]
apply-act p (team_state_captured true key roster) = λ i. record (view p) {
  rosters = removed key p.team_rosters i;
  ghosts = ghosted key p.team_ghost_rosters roster i;
}
apply-act p (team_state_captured false key none) = refl
apply-act p (team_state_captured false key (some r)) =
    elim (Bool-cases (
      admits (is_some_and roster_complete (OrderedMap.get key p.team_rosters))
        (roster_complete r))) [
          | inl g ↦ rw g (λ i. record (view p) {
            rosters = inserted key p.team_rosters r i;
            ghosts = removed key p.team_ghost_rosters i;
          })
          | inr g ↦ rw g (λ i. record (view p) { ghosts = removed key p.team_ghost_rosters i })
        ]

unfoldable pub act_all : View → List Event → View
unfolding act
act_all v [] = v
act_all v (e ∷ es) = act_all (act v e) es

-- A replayed stream acts on the read model, seen as functions of a key, as the specification does
-- event by event: an event changes the entries of its own key alone, the guards are on that key's
-- entry, and neither the order of the maps nor how they were built matters.
pub replay-act_all :
    (p : EvidenceProjection) (es : List Event) → view (replay p es) ≡ act_all (view p) es
unfolding replay act_all
replay-act_all p [] = refl
replay-act_all p (e ∷ es) = replay-act_all (apply p e) es ∙ ap (λ v. act_all v es) (apply-act p e)
