-- ===== src/BranchRules/Joint.antt =====
-- What two classified endpoints establish together.
use gh_report.Prelude.{
  ℕ, ◌≤◌, ◌≡◌, ◌≢◌, ◌↔◌, ◌⊎◌, inl, inr, refl, Bool, true, false, Option, none, some, List, ◌++◌,
  Text, arith, is_some, ◌||◌, Option-cases, any, false≢true,
}
use std.Option.{none≢some}
use gh_report.Checks.Score.{IndeterminateReason}
use gh_report.Checks.History.{HistorySignals, merge}
use gh_report.Checks.Merging.{says, Blocked, merged_protected, merge-verdict}
use gh_report.Checks.BranchProtection.{
  HistoryProtectionGap, BranchProtectionResult, unobservable, is_observed, is_protected, gap_of,
  from_history_signals,
}
use gh_report.BranchRules.{
  EndpointEvidence, confirmed_absent, EndpointFailure, failure_in, signals_in, first_failure,
  precedence, reason_precedence, combine, build_protection_result, complete, incomplete, absence,
}

from_signals_observed :
    (branch timestamp : Text) (a b : Option Bool)
    → is_observed (from_history_signals branch a b timestamp) ≡ true
unfolding is_observed from_history_signals
from_signals_observed branch timestamp a b = ground arith

-- the first failure of the two endpoints decides
combine_failed :
    (r l : EndpointEvidence) (code : Option ℕ) (f : EndpointFailure)
    → first_failure (failure_in r) (failure_in l) ≡ some f
    → combine r l code ≡ incomplete f
unfolding combine
combine_failed r l code f e = ground arith

combine_merged :
    (r l : EndpointEvidence) (code : Option ℕ) (m : HistorySignals)
    → first_failure (failure_in r) (failure_in l) ≡ none
    → merge (signals_in r ++ signals_in l) ≡ some m
    → combine r l code ≡ complete m
unfolding combine
combine_merged r l code m e em = ground arith

combine_silent :
    (r l : EndpointEvidence) (code : Option ℕ)
    → first_failure (failure_in r) (failure_in l) ≡ none
    → merge (signals_in r ++ signals_in l) ≡ none
    → combine r l code ≡ absence r l code
unfolding combine
combine_silent r l code e em = ground arith

absence_observed :
    (r l : EndpointEvidence) (code : Option ℕ) (branch timestamp : Text)
    → is_observed (build_protection_result (absence r l code) branch timestamp) ≡ true
unfolding build_protection_result is_observed
absence_observed r l code branch timestamp = ground arith

complete_observed :
    (m : HistorySignals) (branch timestamp : Text)
    → is_observed (build_protection_result (complete m) branch timestamp) ≡ true
unfolding build_protection_result
complete_observed m branch timestamp =
    from_signals_observed branch timestamp m.force_push_blocked m.deletion_blocked

abbrev pub joint :
    EndpointEvidence → EndpointEvidence → Option ℕ → Text → Text → BranchProtectionResult
joint r l code branch timestamp = build_protection_result (combine r l code) branch timestamp

-- no failure, so what is reported is a state of the branch
joint_observed :
    (r l : EndpointEvidence) (code : Option ℕ) (branch timestamp : Text)
    → first_failure (failure_in r) (failure_in l) ≡ none
    → is_observed (joint r l code branch timestamp) ≡ true
joint_observed r l code branch timestamp e =
    elim (Option-cases (merge (signals_in r ++ signals_in l))) [
      | inl em ↦ rw (combine_silent r l code e em) (absence_observed r l code branch timestamp)
      | inr (m, em) ↦ rw (combine_merged r l code m e em) (complete_observed m branch timestamp)
    ]

joint_failed :
    (r l : EndpointEvidence) (code : Option ℕ) (branch timestamp : Text) (f : EndpointFailure)
    → first_failure (failure_in r) (failure_in l) ≡ some f
    → joint r l code branch timestamp ≡ unobservable branch f.reason f.http_status timestamp
unfolding build_protection_result
joint_failed r l code branch timestamp f e = rw (combine_failed r l code f e) refl

abbrev pub one_failed : EndpointEvidence → EndpointEvidence → Bool
one_failed r l = is_some (failure_in r) || is_some (failure_in l)

first_failure-none :
    (a b : Option EndpointFailure) → (first_failure a b ≡ none) ↔ (is_some a || is_some b ≡ false)
unfolding first_failure
first_failure-none a b = (ground arith, ground arith)

first_failure-some :
    (a b : Option EndpointFailure) (f : EndpointFailure)
    → first_failure a b ≡ some f
    → is_some a || is_some b ≡ true
unfolding first_failure
first_failure-some a b f e = ground arith

pub joint_unobserved :
    (r l : EndpointEvidence) (code : Option ℕ) (branch timestamp : Text)
    → (is_observed (joint r l code branch timestamp) ≡ false) ↔ (one_failed r l ≡ true)
unfolding is_observed
joint_unobserved r l code branch timestamp =
    elim (Option-cases (first_failure (failure_in r) (failure_in l))) [
      | inl e ↦
          let seen = joint_observed r l code branch timestamp e in
          let fine = (first_failure-none (failure_in r) (failure_in l)).0 e in
          ((λ h. cc (h, seen)), λ h. cc (h, fine))
      | inr (f, e) ↦ (
        (λ h. first_failure-some (failure_in r) (failure_in l) f e),
        λ h. rw (joint_failed r l code branch timestamp f e) refl,
      )
    ]

-- the reported failure is one of the two, and none comes before it
first_failure_least :
    (a b : Option EndpointFailure) (f g : EndpointFailure)
    → first_failure a b ≡ some f
    → (a ≡ some g) ⊎ (b ≡ some g)
    → precedence f ≤ precedence g
unfolding first_failure
first_failure_least a b f g e h = ground arith

absence_unprotected :
    (r l : EndpointEvidence) (code : Option ℕ) (branch timestamp : Text)
    → is_protected (build_protection_result (absence r l code) branch timestamp) ≡ false
unfolding build_protection_result is_protected
absence_unprotected r l code branch timestamp = ground arith

unmerged_silent :
    (select : HistorySignals → Option Bool) (signals : List HistorySignals)
    → merge signals ≡ none
    → any (λ s. says true (select s)) signals ≡ false
unmerged_silent select signals e = ground (arith, merge-verdict signals)

pub joint_protected :
    (r l : EndpointEvidence) (code : Option ℕ) (branch timestamp : Text)
    → (is_protected (joint r l code branch timestamp) ≡ true) ↔ (
        (one_failed r l ≡ false)
        × Blocked (λ s. s.force_push_blocked) (signals_in r ++ signals_in l)
        × Blocked (λ s. s.deletion_blocked) (signals_in r ++ signals_in l))
unfolding is_protected build_protection_result
joint_protected r l code branch timestamp =
    elim (Option-cases (first_failure (failure_in r) (failure_in l))) [
      | inl e ↦
          let fine = (first_failure-none (failure_in r) (failure_in l)).0 e in
          elim (Option-cases (merge (signals_in r ++ signals_in l))) [
            | inl em ↦
                let out = absence_unprotected r l code branch timestamp in
                let none_blocked =
                  unmerged_silent (λ s. s.force_push_blocked) (signals_in r ++ signals_in l) em in
                rw (combine_silent r l code e em) ((λ h. cc (h, out)), λ h. cc (h.1, none_blocked))
            | inr (m, em) ↦
                let both = merged_protected (signals_in r ++ signals_in l) m branch timestamp em in
                rw (combine_merged r l code m e em)
                  ((λ h. (fine, (both.0 h).0, (both.0 h).1)), λ h. both.1 (h.1, h.2))
          ]
      | inr (f, e) ↦
          let failed = first_failure-some (failure_in r) (failure_in l) f e in
          rw (combine_failed r l code f e) ((λ h. cc h), λ h. cc (h.0, failed))
    ]

first_failure_In :
    (a b : Option EndpointFailure) (f : EndpointFailure)
    → first_failure a b ≡ some f
    → (a ≡ some f) ⊎ (b ≡ some f)
unfolding first_failure
first_failure_In a b f e = ground arith

first_failure_of :
    (a b : Option EndpointFailure) (g : EndpointFailure)
    → (a ≡ some g) ⊎ (b ≡ some g)
    → is_some a || is_some b ≡ true
first_failure_of a b g h = ground arith

pub joint_reason :
    (r l : EndpointEvidence) (code : Option ℕ) (branch timestamp : Text)
    (reason : IndeterminateReason) (http_status : Option ℕ) (g : EndpointFailure)
    → joint r l code branch timestamp ≡ unobservable branch reason http_status timestamp
    → (failure_in r ≡ some g) ⊎ (failure_in l ≡ some g)
    → ((f : EndpointFailure) × ((failure_in r ≡ some f) ⊎ (failure_in l ≡ some f))
        × (f.reason ≡ reason)
        × (f.http_status ≡ http_status))
      × (reason_precedence reason ≤ precedence g)
joint_reason r l code branch timestamp reason http_status g e h =
    elim (Option-cases (first_failure (failure_in r) (failure_in l))) [
      | inl ef ↦
          let fine = (first_failure-none (failure_in r) (failure_in l)).0 ef in
          absurd (false≢true (cc (fine, first_failure_of (failure_in r) (failure_in l) g h)))
      | inr (f, ef) ↦
          let same : f.reason ≡ reason = cc (joint_failed r l code branch timestamp f ef, e) in
          let status : f.http_status ≡ http_status =
            cc (joint_failed r l code branch timestamp f ef, e) in
          (
            (f, first_failure_In (failure_in r) (failure_in l) f ef, same, status),
            rw (← same) (first_failure_least (failure_in r) (failure_in l) f g ef h),
          )
    ]

absence_confirmed :
    (r l : EndpointEvidence) (code : Option ℕ) (branch timestamp : Text) (http_status : Option ℕ)
    → gap_of (build_protection_result (absence r l code) branch timestamp)
      ≡ some (HistoryProtectionGap.absent true http_status)
    → (r ≡ confirmed_absent http_status) ⊎ (l ≡ confirmed_absent http_status)
unfolding build_protection_result gap_of
absence_confirmed r l code branch timestamp http_status e = ground arith

signals_present :
    (branch timestamp : Text) (a b : Option Bool) (http_status : Option ℕ)
    → gap_of (from_history_signals branch a b timestamp)
      ≢ some (HistoryProtectionGap.absent true http_status)
unfolding gap_of from_history_signals
signals_present branch timestamp a b http_status = ground arith

pub confirmed_absence :
    (r l : EndpointEvidence) (code : Option ℕ) (branch timestamp : Text) (http_status : Option ℕ)
    → gap_of (joint r l code branch timestamp) ≡ some (HistoryProtectionGap.absent true http_status)
    → (r ≡ confirmed_absent http_status) ⊎ (l ≡ confirmed_absent http_status)
unfolding build_protection_result gap_of
confirmed_absence r l code branch timestamp http_status e =
    elim (Option-cases (first_failure (failure_in r) (failure_in l))) [
      | inr (f, ef) ↦ absurd (
          none≢some {a = HistoryProtectionGap.absent true http_status}
            (cc (joint_failed r l code branch timestamp f ef, e)))
      | inl ef ↦ elim (Option-cases (merge (signals_in r ++ signals_in l))) [
        | inl em ↦
            absence_confirmed r l code branch timestamp http_status
              (cc (combine_silent r l code ef em, e))
        | inr (m, em) ↦ absurd (
            signals_present branch timestamp m.force_push_blocked m.deletion_blocked http_status
              (cc (combine_merged r l code m ef em, e)))
      ]
    ]
