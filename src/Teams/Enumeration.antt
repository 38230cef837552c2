-- ===== src/Teams/Enumeration.antt =====
-- When a list of teams or of members is complete.
use mathlib.Core.Path.{subst}
use mathlib.Core.Option.{some-injective, none-ne-some}
use gh_report.Prelude.{
  ◌≡◌, ◌↔◌, inl, inr, refl, ap, ◌∙◌, sym, Bool, true, false, Option, some, List, [], ◌∷◌, Text, map,
  arith, Bool-cases, Option-cases, false≢true, sort_by,
}
use gh_report.Org.{TeamRoster, TeamRosterStatus, TeamMember}
use gh_report.Api.{Json, ApiOutcome, is_ok}
use gh_report.Api
use gh_report.Teams.{
  Texts, items_in, Read, read_member, read_all, members_from_outcome, member_of, login_le,
  collect_one_team_roster, Deleted, is_known_deleted_team, roster_of, complete_roster,
  degraded_roster, failure_status,
}

module _ (J : Json) (L : Texts J.Value) where
  open J use {Value}

  -- each entry reads as its result, in order
  pub data Reads {A : Type 0} (read : Value → Option A) : List Value → List A → Type 0 where
    end : Reads read [] []
    entry :
        {item : Value} {a : A} {items : List Value} {found : List A}
        → read item ≡ some a
        → Reads read items found
        → Reads read (item ∷ items) (a ∷ found)

  read_all-Reads :
      {A : Type 0} (read : Value → Option A) (items : List Value) (found : List A)
      → read_all J L read items ≡ some found
      → Reads read items found
  unfolding read_all
  read_all-Reads read [] found e = subst (Reads read []) (some-injective _ _ e) Reads.end
  read_all-Reads read (item ∷ items) found e = elim (Option-cases (read item)) [
    | inl bad ↦ absurd (none-ne-some _ (simp bad at e))
    | inr (a, good) ↦ elim (Option-cases (read_all J L read items)) [
      | inl stop ↦ absurd (none-ne-some _ (simp (good, stop) at e))
      | inr (rest, more) ↦
          subst (Reads read (item ∷ items)) (some-injective _ _ (simp (good, more) at e))
            (Reads.entry good (read_all-Reads read items rest more))
    ]
  ]

  Reads-read_all :
      {A : Type 0} (read : Value → Option A) {items : List Value} {found : List A}
      → Reads read items found
      → read_all J L read items ≡ some found
  unfolding read_all
  Reads-read_all read Reads.end = refl
  Reads-read_all read (Reads.entry good rest) = rw (good, Reads-read_all read rest) refl

  abbrev is_complete : TeamRosterStatus → Bool
  is_complete TeamRosterStatus.complete = true
  is_complete _ = false

  failure_status_incomplete :
      (outcome : ApiOutcome Value) → is_complete (failure_status J L outcome) ≡ false
  unfolding failure_status
  failure_status_incomplete outcome = ground arith

  -- the roster has a member for every entry of the team's whole list
  pub record Enumerated (fetch : Text → ApiOutcome Value) (team_slug : Text) (deleted : Deleted)
      (members : List TeamMember) : Type 0 where
    pub safe_slug : Text
    pub sanitized : L.sanitize team_slug ≡ some safe_slug
    pub not_deleted : is_known_deleted_team safe_slug deleted ≡ false
    pub answered : is_ok (fetch safe_slug) ≡ true
    pub not_cut : Api.is_truncated (fetch safe_slug) ≡ false
    pub items : List Value
    pub listed : items_in J L (fetch safe_slug) ≡ some items
    pub found : List Read
    pub each_read : Reads (read_member J L) items found
    pub sorted : members ≡ sort_by (login_le J L) (map member_of found)

  incomplete :
      {X : Type 0} (status : TeamRosterStatus)
      → is_complete status ≡ false
      → status ≡ TeamRosterStatus.complete
      → X
  incomplete status h e = absurd (false≢true (sym h ∙ ap is_complete e))

  abbrev Listed : ApiOutcome Value → List Read → Type 0
  Listed outcome found =
      (items : List Value) × (items_in J L outcome ≡ some items)
      × Reads (read_member J L) items found

  members_from_outcome-Listed :
      (outcome : ApiOutcome Value) (found : List Read)
      → (members_from_outcome J L outcome ≡ some found) ↔ Listed outcome found
  unfolding members_from_outcome
  members_from_outcome-Listed outcome found = (
    λ e. elim (Option-cases (items_in J L outcome)) [
      | inl n ↦ absurd (none-ne-some _ (simp n at e))
      | inr (items, i) ↦ (items, i, read_all-Reads (read_member J L) items found (simp i at e))
    ],
    λ (items, i, r). rw i (Reads-read_all (read_member J L) r),
  )

  abbrev Forward : (Text → ApiOutcome Value) → Text → Deleted → TeamRoster → Type 0
  Forward fetch team_slug deleted roster =
      roster.status ≡ TeamRosterStatus.complete → Enumerated fetch team_slug deleted roster.members

  parsed-Forward :
      (fetch : Text → ApiOutcome Value) (canonical_owner team_slug safe_slug : Text)
      (deleted : Deleted)
      → L.sanitize team_slug ≡ some safe_slug
      → is_known_deleted_team safe_slug deleted ≡ false
      → is_ok (fetch safe_slug) ≡ true
      → Api.is_truncated (fetch safe_slug) ≡ false
      → Forward fetch team_slug deleted
          (roster_of J L canonical_owner team_slug (members_from_outcome J L (fetch safe_slug)))
  unfolding roster_of complete_roster degraded_roster
  parsed-Forward fetch canonical_owner team_slug safe_slug deleted safe new ok whole =
      elim (Option-cases (members_from_outcome J L (fetch safe_slug))) [
        | inl n ↦ rw n (incomplete TeamRosterStatus.transient_error refl)
        | inr (found, e) ↦
            let (items, i, r) = (members_from_outcome-Listed (fetch safe_slug) found).0 e in
            rw e (λ _. record {
              safe_slug = safe_slug;
              sanitized = safe;
              not_deleted = new;
              answered = ok;
              not_cut = whole;
              items = items;
              listed = i;
              found = found;
              each_read = r;
              sorted = refl;
            })
      ]

  collected-Forward :
      (fetch : Text → ApiOutcome Value) (canonical_owner team_slug : Text) (deleted : Deleted)
      → Forward fetch team_slug deleted
          (collect_one_team_roster J L fetch canonical_owner team_slug deleted).0
  unfolding collect_one_team_roster degraded_roster
  collected-Forward fetch canonical_owner team_slug deleted =
      elim (Option-cases (L.sanitize team_slug)) [
        | inl bad ↦
            rw (collect_one_team_roster, bad) (incomplete TeamRosterStatus.transient_error refl)
        | inr (safe_slug, safe) ↦
            rw (collect_one_team_roster, safe)
              (elim (Bool-cases (is_known_deleted_team safe_slug deleted)) [
                | inl known ↦ rw known (incomplete TeamRosterStatus.deleted refl)
                | inr new ↦ rw new (elim (Bool-cases (is_ok (fetch safe_slug))) [
                  | inr failed ↦ rw failed (
                      incomplete (failure_status J L (fetch safe_slug))
                        (failure_status_incomplete (fetch safe_slug)))
                  | inl ok ↦ rw ok (elim (Bool-cases (Api.is_truncated (fetch safe_slug))) [
                    | inl cut ↦ rw cut (
                        incomplete (failure_status J L (fetch safe_slug))
                          (failure_status_incomplete (fetch safe_slug)))
                    | inr whole ↦ rw whole (
                        parsed-Forward fetch canonical_owner team_slug safe_slug deleted safe new ok
                          whole)
                  ])
                ])
              ])
      ]

  Listed-complete :
      (fetch : Text → ApiOutcome Value) (canonical_owner team_slug : Text) (deleted : Deleted)
      (members : List TeamMember)
      → Enumerated fetch team_slug deleted members
      → (collect_one_team_roster J L fetch canonical_owner team_slug deleted).0.status
        ≡ TeamRosterStatus.complete
  unfolding collect_one_team_roster roster_of complete_roster
  Listed-complete fetch canonical_owner team_slug deleted members e =
      let parsed =
        (members_from_outcome-Listed (fetch e.safe_slug) e.found).1
          (e.items, e.listed, e.each_read) in
      rw (collect_one_team_roster, e.sanitized, e.not_deleted, e.answered, e.not_cut, parsed) refl

  -- A roster is reported as complete exactly when the team's slug is usable, the team was not seen
  -- to be deleted, and the request for its members was answered by a list that is not cut and whose
  -- every entry reads as a member; the roster then lists these members, one for each entry, sorted
  -- by login. A failed, cut or unreadable answer never gives a complete roster.
  pub complete_iff_Enumerated :
      (fetch : Text → ApiOutcome Value) (canonical_owner team_slug : Text) (deleted : Deleted)
      → let roster = (collect_one_team_roster J L fetch canonical_owner team_slug deleted).0 in
        (roster.status ≡ TeamRosterStatus.complete)
        ↔ Enumerated fetch team_slug deleted roster.members
  complete_iff_Enumerated fetch canonical_owner team_slug deleted = (
    collected-Forward fetch canonical_owner team_slug deleted,
    Listed-complete fetch canonical_owner team_slug deleted _,
  )
