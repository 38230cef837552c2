-- ===== src/Samples/Rosters.antt =====
-- The theorems on teams, on a list that is a text of one-letter logins.
use gh_report.Prelude.{◌≡◌, ◌↔◌, refl, true, false, none, some, [], Text, codes, text_eq}
use gh_report.Org.{TeamRosterStatus}
use gh_report.Api.{Json, ApiOutcome}
use gh_report.Api
use gh_report.Teams.{Texts, authorizes_omission_detach, discover_org_teams, collect_one_team_roster}
use gh_report.Teams.Enumeration.{Enumerated, complete_iff_Enumerated}
use gh_report.Samples.{now}
use gh_report.Samples.Alerts.{Letters}

abbrev spelled : Texts Text
spelled = record {
  sanitize = λ s. some s;
  from_value = λ v. some (v, none);
  from_org_value = λ v. some v;
  is_blank = λ s. text_eq s [];
  to_lowercase = λ s. s;
  now = now;
}

abbrev pair_of_members : Text → ApiOutcome Text
pair_of_members slug = ApiOutcome.success 200 (some (codes "ba")) none false

core_complete :
    (collect_one_team_roster Letters spelled pair_of_members
      (codes "@org/core")
      (codes "core")
      []).0.status
    ≡ TeamRosterStatus.complete
unfolding collect_one_team_roster
core_complete = refl

complete_iff_Enumerated_example :
    (let roster =
        (collect_one_team_roster Letters spelled pair_of_members
          (codes "@org/core")
          (codes "core")
          []).0 in
      (roster.status ≡ TeamRosterStatus.complete)
      ↔ Enumerated Letters spelled pair_of_members (codes "core") [] roster.members)
complete_iff_Enumerated_example =
    complete_iff_Enumerated Letters spelled pair_of_members (codes "@org/core") (codes "core") []

abbrev two_teams : ApiOutcome Text
two_teams = pair_of_members []

two_teams_detach : authorizes_omission_detach (discover_org_teams Letters spelled two_teams) ≡ true
unfolding authorizes_omission_detach discover_org_teams
two_teams_detach = refl
