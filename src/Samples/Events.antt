-- ===== src/Samples/Events.antt =====
-- The theorems on the read model, on short event streams.
use gh_report.Prelude.{
  ◌≡◌, ◌≢◌, refl, true, false, some, List, [], ◌∷◌, Text, codes, arith, text_eq,
}
use gh_report.OrderedMap
use gh_report.Samples.{now, alpha, beta, roster, org_snapshot}
use gh_report.Checks.SecurityPolicy
use gh_report.Checks.SecretScanning
use gh_report.Checks.BranchProtection
use gh_report.Checks.Codeowners
use gh_report.Org.{CollectionStatus, TeamRosterStatus}
use gh_report.Evidence.{is_complete}
use gh_report.Projection.{
  EvidenceProjection, new, Event, repository_state_captured, repository_deleted, org_state_captured,
  team_state_captured, apply, replay, org_read_model,
}
use gh_report.Projection.Invariant.{IsValid, replay-IsValid}
use gh_report.Projection.Downgrade.{CompleteAt, RosterAt, replay-CompleteAt, replay-RosterAt}
use gh_report.Projection.Idempotent.{apply_twice}
use gh_report.Projection.Refinement.{view, act_all, replay-act_all}

abbrev one' : Text
one' = codes "1"

abbrev two : Text
two = codes "2"

abbrev core : Text
core = codes "core"

-- two captures, a deletion, and a team that is seen and then gone
abbrev stream : List Event
stream =
    repository_state_captured false two (some beta)
    ∷ repository_state_captured false one' (some alpha)
    ∷ repository_deleted two (codes "beta") now
    ∷ team_state_captured false core (some (roster TeamRosterStatus.complete))
    ∷ team_state_captured true core (some (roster TeamRosterStatus.deleted))
    ∷ []

replay-IsValid_example : IsValid (replay new stream)
replay-IsValid_example = replay-IsValid stream

abbrev loaded : EvidenceProjection
loaded = record new {
  repositories = (one', alpha) ∷ [];
  team_rosters = (core, roster TeamRosterStatus.complete) ∷ [];
  org_state = some (org_read_model (org_snapshot CollectionStatus.success));
}

loaded_complete : CompleteAt one' loaded
unfolding is_complete SecurityPolicy.status SecretScanning.status BranchProtection.is_observed
    Codeowners.status OrderedMap.get text_eq
loaded_complete = refl

-- another repository is deleted, and the organisation's alerts become unreadable
abbrev elsewhere : List Event
elsewhere =
    repository_deleted two (codes "beta") now
    ∷ org_state_captured (org_snapshot CollectionStatus.permission_denied)
    ∷ []

two_not_one : two ≢ one'
two_not_one = ground arith

replay-CompleteAt_example : CompleteAt one' (replay loaded elsewhere)
replay-CompleteAt_example =
    replay-CompleteAt one' loaded elsewhere (two_not_one, (tt, tt)) loaded_complete

loaded_roster : RosterAt core loaded
unfolding OrderedMap.get text_eq
loaded_roster = refl

abbrev unread_team : List Event
unread_team = team_state_captured false core (some (roster TeamRosterStatus.transient_error)) ∷ []

replay-RosterAt_example : RosterAt core (replay loaded unread_team)
replay-RosterAt_example = replay-RosterAt core loaded unread_team (tt, tt) loaded_roster

abbrev again : Event
again = team_state_captured true core (some (roster TeamRosterStatus.deleted))

apply_twice_example : apply (apply loaded again) again ≡ apply loaded again
apply_twice_example = apply_twice loaded again

replay-act_all_example : view (replay new stream) ≡ act_all (view new) stream
replay-act_all_example = replay-act_all new stream
