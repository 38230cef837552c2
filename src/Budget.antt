-- ===== src/Budget.antt =====
-- github/replenish.rs, github/budget_checkpoint.rs and the routes of github/route_template.rs: how
-- long an exhausted budget waits, how large the next one is, and which calls of a run are
-- milestones. Durations are whole seconds. The atomic counters are plain numbers; what another
-- thread can do between the load of the cursor and its compare-exchange is the argument `seen` of a
-- round.
pub mod Waits
pub mod Milestones
use gh_report.Prelude.{
  ℕ, zero, suc, ◌+◌, ◌-◌, ◌*◌, ◌/◌, ◌^◌, min, Bool, true, false, Option, none, some, List, [], ◌∷◌,
  map, Text, codes, Ordering, compare, ltb, leb, ◌==◌, if◌then◌else◌, keep,
}

-- `API_BUDGET_LIMIT` and `API_BUDGET_WAIT_SECS` of config/mod.rs
abbrev pub api_budget_limit : ℕ
api_budget_limit = 4000

abbrev pub api_budget_wait_secs : ℕ
api_budget_wait_secs = 3600

abbrev pub ceiling_buffer : ℕ
ceiling_buffer = 100

abbrev pub ceiling_floor : ℕ
ceiling_floor = 10

abbrev pub reset_slack_secs : ℕ
reset_slack_secs = 5

abbrev pub max_plausible_reset_secs : ℕ
max_plausible_reset_secs = 24 * 3600

pub data RejectedReset : Type 0 where
  absent elapsed implausibly_distant : RejectedReset

pub data ResetWait : Type 0 where
  stated : ℕ → ResetWait
  fallback : RejectedReset → ResetWait

unfoldable pub wait : ResetWait → ℕ
wait (stated secs) = secs
wait (fallback rejected) = api_budget_wait_secs

-- `ResetWait::source`
unfoldable pub wait_source : ResetWait → Text
wait_source (stated secs) = codes "stated-reset"
wait_source (fallback absent) = codes "fallback-no-reset-reported"
wait_source (fallback elapsed) = codes "fallback-reset-elapsed"
wait_source (fallback implausibly_distant) = codes "fallback-reset-implausibly-distant"

unfoldable pub wait_for_reset : Option ℕ → ℕ → ResetWait
wait_for_reset none now = fallback absent
wait_for_reset (some reset) now =
    if leb reset now
    then fallback elapsed
    else if ltb max_plausible_reset_secs (reset - now)
    then fallback implausibly_distant
    else stated (reset - now + reset_slack_secs)

-- the limit is u32
unfoldable pub window_entitlement : Option ℕ → ℕ
window_entitlement none = api_budget_limit
window_entitlement (some limit) = limit

-- `entitlement.saturating_sub(…)` is the subtraction that stops at 0
unfoldable pub ceiling_from_entitlement : ℕ → ℕ
ceiling_from_entitlement entitlement =
    let rest = entitlement - ceiling_buffer in if rest == 0 then ceiling_floor else rest

-- the answer of `replenish`, a type of the queue library, as far as it is answered here
pub data Replenished : Type 0 where
  cancelled : Replenished
  -- the seconds slept and the new ceiling
  new_ceiling : ℕ → ℕ → Replenished

-- `replenish`, over the observer's reset and limit, the time and whether the wait was cancelled
unfoldable pub replenish : Option ℕ → Option ℕ → ℕ → Bool → Replenished
unfolding wait wait_for_reset window_entitlement ceiling_from_entitlement
replenish reset limit now true = cancelled
replenish reset limit now false =
    new_ceiling (wait (wait_for_reset reset now))
      (ceiling_from_entitlement (window_entitlement limit))

pub data Route : Type 0 where
  user rate_limit installation_access_tokens org_repos org_members org_teams team_members
        org_secret_scanning_alerts repo repo_rulesets repo_commits repo_secret_scanning_alerts
        branch_protection repo_contents unmatched :
      Route

-- `Route::ALL`
abbrev pub all_routes : List Route
all_routes =
    user ∷ rate_limit ∷ installation_access_tokens ∷ org_repos ∷ org_members ∷ org_teams
    ∷ team_members ∷ org_secret_scanning_alerts ∷ repo ∷ repo_rulesets ∷ repo_commits
    ∷ repo_secret_scanning_alerts ∷ branch_protection ∷ repo_contents ∷ unmatched ∷ []

abbrev pub index : Route → ℕ
index user = 0
index rate_limit = 1
index installation_access_tokens = 2
index org_repos = 3
index org_members = 4
index org_teams = 5
index team_members = 6
index org_secret_scanning_alerts = 7
index repo = 8
index repo_rulesets = 9
index repo_commits = 10
index repo_secret_scanning_alerts = 11
index branch_protection = 12
index repo_contents = 13
index unmatched = 14

-- `MAX_CHECKPOINTS_PER_RUN` and the thresholds
abbrev pub max_checkpoints_per_run : ℕ
max_checkpoints_per_run = 8

abbrev pub thresholds : List ℕ
thresholds = 250 ∷ 500 ∷ 750 ∷ 1000 ∷ 2000 ∷ 4000 ∷ 8000 ∷ 16000 ∷ []

-- `ROUTES_NAMED_PER_CHECKPOINT`
abbrev pub routes_named_per_checkpoint : ℕ
routes_named_per_checkpoint = 3

-- the elapsed time is left out
pub record BudgetCheckpoint : Type 0 where
  pub calls : ℕ  -- u64
  pub ceiling : ℕ  -- u64
  pub approx_top_routes : List (Route × ℕ)

-- the counters by the route's index
pub record BudgetCheckpoints : Type 0 where
  pub counts : ℕ → ℕ
  pub next_threshold : ℕ
  pub baseline_calls : ℕ  -- u64

abbrev pub for_run : ℕ → BudgetCheckpoints
for_run baseline_calls = record {
  counts = λ i. 0;
  next_threshold = 0;
  baseline_calls = baseline_calls;
}

-- `slice::get`
abbrev pub nth : List ℕ → ℕ → Option ℕ
nth [] i = none
nth (x ∷ xs) zero = some x
nth (x ∷ xs) (suc i) = nth xs i

abbrev pub u64_max : ℕ
u64_max = 2 ^ 64 - 1

-- `max(1)`
abbrev at_least_one : ℕ → ℕ
at_least_one n = if n == 0 then 1 else n

unfoldable pub threshold_calls : ℕ → ℕ → ℕ
threshold_calls ceiling permille = at_least_one (min (ceiling * permille) u64_max / 1000)

-- a higher count comes first, and of equal counts the earlier route
abbrev ranks_before : Route × ℕ → Route × ℕ → Bool
ranks_before (r, n) (s, m) = elim (compare m n) [
  | Ordering.lt ↦ true
  | Ordering.gt ↦ false
  | Ordering.eq ↦ leb (index r) (index s)
]

unfoldable pub insert_ranked : Route × ℕ → List (Route × ℕ) → List (Route × ℕ)
insert_ranked e [] = e ∷ []
insert_ranked e (x ∷ xs) =
    let later = x ∷ insert_ranked e xs in if ranks_before e x then e ∷ x ∷ xs else later

unfoldable pub rank : List (Route × ℕ) → List (Route × ℕ)
unfolding insert_ranked
rank [] = []
rank (e ∷ es) = insert_ranked e (rank es)

-- the slots of the array that the ranking fills
abbrev first_slots : ℕ → List (Route × ℕ) → List (Route × ℕ)
first_slots zero es = []
first_slots (suc n) [] = []
first_slots (suc n) (e ∷ es) = e ∷ first_slots n es

unfoldable pub top_routes : (ℕ → ℕ) → List (Route × ℕ)
unfolding rank
top_routes counts =
    first_slots routes_named_per_checkpoint
      (rank (keep (λ (r, n). ltb 0 n) (map (λ r. (r, counts (index r))) all_routes)))

-- one round of the loop of `record`, where `seen` is the cursor that it loaded and `cursor` is what
-- the compare-exchange finds
pub data Round : Type 0 where
  finished emitted again : Round

unfoldable pub cursor_round : ℕ → ℕ → ℕ → ℕ → Round × ℕ
unfolding threshold_calls
cursor_round calls ceiling seen cursor = elim (nth thresholds seen) [
  | none ↦ (finished, cursor)
  | some permille ↦
      if ltb calls (threshold_calls ceiling permille)
      then (finished, cursor)
      else if cursor == seen
      then (emitted, seen + 1)
      else (again, cursor)
]

abbrev bump : (ℕ → ℕ) → ℕ → ℕ → ℕ
bump counts i j = if j == i then counts j + 1 else counts j

abbrev milestone : Round → BudgetCheckpoint → Option BudgetCheckpoint
milestone emitted c = some c
milestone finished c = none
milestone again c = none

-- `record` where no other thread moves the cursor: one round
unfoldable pub record_call :
    BudgetCheckpoints → Route → ℕ → ℕ → Option BudgetCheckpoint × BudgetCheckpoints
unfolding cursor_round top_routes
record_call tracker route total_calls_made ceiling =
    let counts = bump tracker.counts (index route) in
    let calls = total_calls_made - tracker.baseline_calls in
    let (round, cursor) =
      cursor_round calls ceiling tracker.next_threshold tracker.next_threshold in
    (
      milestone round
          (record { calls = calls; ceiling = ceiling; approx_top_routes = top_routes counts }),
      record tracker { counts = counts; next_threshold = cursor },
    )
