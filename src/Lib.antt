-- ===== src/Lib.antt =====
-- gh-report: what its code decides, as definitions with their theorems.
--
-- The program collects evidence on an organisation's repositories from GitHub (five checks of
-- each repository, its alerts and its teams), stores what it saw as events, folds the events into
-- a read model, and reports from there. This library is about the decisions: how an API answer
-- becomes the outcome of a check, how outcomes are scored, merged and counted, which refs a
-- ruleset covers, how many requests a list may cost, what a new event may change in the read
-- model, and what a failed durable write leads to.
--
-- All paths are below crates/gh-report/src of the repository.
--
--   PatternMatch    pattern_match.rs: `fnmatch_bytes`, `fnmatch_segment`, `match_path_segments`,
--                   `path_pattern_matches`. PatternMatch/Glob says what a pattern means, apart from
--                   the matcher; the other child modules relate the two.
--   RefMatching     collector/ref_matching.rs: the wire words of targets and enforcements,
--                   `normalize_branch_ref`, `ref_name_matches`, `ruleset_applies_to_branch`.
--   Checks          domain/checks.rs and the records of domain/codeowners.rs: one child module for
--                   each check's result type with its accessors and score, `HistorySignals` with
--                   its merge.
--   Repository      domain/repository.rs: the repository, its `PartialEq` and its `Ord`.
--   Org             domain/status.rs, domain/auth.rs and the records of domain/metrics.rs that the
--                   read model stores.
--   Evidence        domain/evidence.rs: the evidence records, `is_complete`, the read state, and
--                   `CollectionCoverage` with, in Wire, its JSON object;
--                   Written relates its writing and its reading.
--   OrderedMap      the standard library's `BTreeMap<String, _>`, as its entries in key order.
--   Projection      projection.rs: `apply` for each kind of event, the bulk load, the queries.
--   WritePolicy     app/write_policy.rs and `persist_error_variant` of error.rs.
--   Api             api_outcome.rs: the result of one HTTP call.
--   BranchRules     collector/branch_protection.rs: from the answers of three endpoints to the
--                   outcome of the branch-protection check.
--   Webhook         webhook/events.rs: what a webhook event leads to.
--   Budget          github/replenish.rs and github/budget_checkpoint.rs.
--   Routes          github/route_template.rs: the route that names a request target.
--   Pagination      github/pagination.rs: the next page that `Link` fields name.
--   Metrics         domain/metrics.rs: the rate, the counts and figures of a report, and the
--                   grouping of repositories by the owners in their CODEOWNERS files.
--   Aggregate       aggregate/metrics.rs: Counts, Health, Coverage, Population (the drill-down) and
--                   Owners model it, the other child modules relate them.
--   Client          github/client.rs: what a request can come to. Bodies reads a body within its
--                   bound, Transport makes one request, Paginate follows the pages of a list, Run
--                   makes the attempts; the other child modules prove what comes of it.
--   Scanning        collector/ghas_scanning.rs: Collect makes the summary of the organisation's
--                   open alerts, Repositories the check of one repository; Inventory and
--                   AlertKeys say, apart from the code, which repository an alert names, and
--                   AllClear what the check may report as clear.
--   PolicyCheck     collector/security_policy.rs, and in Updates collector/dependabot.rs.
--                   Readings says what an answer means, apart from the code.
--   Teams           collector/team_membership.rs: teams, rosters and members.
--   Samples         concrete inputs, and every theorem of the list below on one of them.
--
-- The parts meet where the code does: BranchRules reads an answer with Api, tests a ruleset with
-- RefMatching (which matches with PatternMatch) and merges signals with Checks; Evidence judges
-- the results of Checks; Projection stores Evidence in an OrderedMap and orders it by Repository;
-- Webhook resolves a repository from the Projection; Aggregate counts the Evidence by the results
-- of Checks, and groups it with Metrics; Client follows the links that Pagination finds; Scanning
-- reads the run of the Client.
--
-- A text is the list of its bytes. Numbers are natural numbers; where a machine's bound matters,
-- as for `usize::MAX` in the coverage, it is a parameter. The recursion bounds of the matcher are
-- the program's own, 256 for a segment and 64 for a path: the theorems say on which patterns they
-- are enough. The bounded retry makes at most three retries, and its loop is recursion on the
-- rounds that are left, so it cannot run out; the scanners of a `Link` field start with fuel for
-- its length, which is enough; a 64-bit number is spelled in 20 places. The 32-bit counters of
-- the aggregation stop at their bound, as the code's do. The client follows at most 500 pages and
-- makes one attempt more than the retries, and both loops are recursion on what is left of these.
-- A function that changes `self` returns the new state; a closure that changes captured state is
-- a function on that state. The threads that share the milestones' cursor are a list of attempts,
-- in the order of their compare-exchanges.
--
-- Parameters stand for code of other libraries: `Json` for serde_json values with the accessors
-- that the code calls, `Clock` for the time library, `Texts` for what the rosters take from serde
-- and of texts, `Decoder` for the decoding of a webhook's body, an error type with the view
-- `Variant` for the storage library's `PersistenceError`, the lower case of a text, and
-- `Environment` for what a request meets: the network, the clock, the budget gate, the rate-limit
-- observer, the exchange of a token, and the JSON, UTF-8 and URL libraries. Nothing is assumed of
-- them. The derives of serde, where the code relies on how they read an object, are written out
-- as they document it.
--
-- Not modelled: the asynchronous orchestration (app, apart from the write policy), the event
-- store and aggregates (event, store), the client's cache of repository details, its probes and
-- its authentication (github), the collectors of inventory, CODEOWNERS and commits, the reports,
-- the configuration and the process itself. What other tasks do to the client's shared state
-- while a request waits, delays, log records, Display texts and derived serialisation are left
-- out throughout.
pub mod Prelude
pub mod PatternMatch
pub mod RefMatching
pub mod Checks
pub mod OrderedMap
pub mod Repository
pub mod Org
pub mod Evidence
pub mod Projection
pub mod WritePolicy
pub mod Api
pub mod BranchRules
pub mod Webhook
pub mod Budget
pub mod Routes
pub mod Pagination
pub mod Metrics
pub mod Aggregate
pub mod Client
pub mod Scanning
pub mod PolicyCheck
pub mod Teams
mod Samples
