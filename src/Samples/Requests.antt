-- ===== src/Samples/Requests.antt =====
-- The theorems on the client, in a world that answers in turn from a list and never halts.
use gh_report.Prelude.{
  ℕ, zero, suc, ◌≤◌, ◌<◌, ◌≡◌, ◌↔◌, ◌⊎◌, refl, Bool, true, false, Option, none, some, List, [], ◌∷◌,
  ◌++◌, Text, codes, length, arith, map, flatten,
}
use gh_report.Client.{
  AttemptResult, Payload, RequestRun, PreDispatchFailure, attempts_of, is_retries_exhausted,
  never_dispatched_run, outcome, is_success, run_status, is_truncated, failure_kind,
  terminal_category,
}
use gh_report.Client.Bodies.{
  Stream, done, chunk, read, read_body_bytes_limited, truncate_error_body, max_error_body_len,
  truncation_mark,
}
use gh_report.Client.Bounds.{Declares, whole, read_body_bytes_limited_iff}
use gh_report.Client.Truncation.{Cut, truncate_error_body_lem}
use gh_report.Client.Transport.{
  Environment, ClientState, Config, Response, Sent, lost, answered, token, array,
}
use gh_report.Client.Paginate.{request_paginated, page_loop, request_page, max_paginated_items}
use gh_report.Client.PageSteps.{Listing}
use gh_report.Client.Pages.{request_paginated-Listing}
use gh_report.Client.Retries.{Attempted, request_inner_attempts}
use gh_report.Client.Run.{request_inner}
use gh_report.Client.Categories.{Reports, retried, outcome_agrees}

-- a JSON value is a text, and a page's text the list of its letters
abbrev items_of : Text → List Text
items_of s = map (λ c. c ∷ []) s

abbrev next_answer : List Sent → Sent × List Sent
next_answer [] = (lost (codes "no route") false, [])
next_answer (a ∷ rest) = (a, rest)

abbrev blank : Text → Bool
blank [] = true
blank (c ∷ s) = false

abbrev net : Environment (List Sent) Text
net = record {
  now = λ w. (0, w);
  send = λ url timeout w. next_answer w;
  exchange = λ w. (token 0, w);
  observe = λ r w. w;
  should_halt = λ w. false;
  load_reset = λ w. none;
  arm_backoff = λ raw w. w;
  sleep_backoff = λ attempt w. w;
  acquire = λ w. (true, w);
  utf8_error = λ s. none;
  is_blank_body = blank;
  from_str = λ s. array (items_of s);
  array_value = flatten;
  origin_of = λ url. some (codes "https://api");
}

abbrev config : Config
config = record {
  base_url = codes "https://api";
  trusted_origin = codes "https://api";
  has_app_config = false;
}

abbrev page_answer : List (Option Text) → Text → Response
page_answer links text = record {
  status = 200;
  links = links;
  etag = none;
  retry_after = none;
  oauth_headers = [];
  content_length = some (length text);
  stream = chunk text done;
}

abbrev start : List Sent → ClientState (List Sent)
start answers = record {
  halted_until = 0;
  credential_expires_at = 0;
  rate_limit_warnings = 0;
  last_response_etags = [];
  world = answers;
}

-- two pages, the second behind the link of the first
abbrev two_pages : ClientState (List Sent)
two_pages = start (
    answered (page_answer (some (codes "<https://api/next>; rel=\"next\"") ∷ []) (codes "ab"))
    ∷ answered (page_answer [] (codes "c"))
    ∷ [])

abbrev two_pages_payload : Payload Text
two_pages_payload = record {
  status = 200;
  body = some (codes "abc");
  headers = none;
  truncated = false;
}

two_pages_read :
    (request_paginated net config (codes "/list") 30 two_pages).0
    ≡ AttemptResult.success two_pages_payload
unfolding request_paginated page_loop request_page mathlib.Core.List.flatten
two_pages_read = refl

request_paginated-Listing_example :
    (items : List Text) × (two_pages_payload.body ≡ some (flatten items))
    × (length items ≤ max_paginated_items)
    × (two_pages_payload.truncated ≡ false
        → Listing net config 30 (codes "https://api" ++ codes "/list") items)
request_paginated-Listing_example =
    request_paginated-Listing net config 30 (codes "/list") two_pages two_pages_payload
      two_pages_read

abbrev lost_run : RequestRun Text
lost_run = (request_inner net config (codes "/list") false 2 30 (start [])).0

-- all three attempts are lost
lost_attempts : attempts_of lost_run ≡ 3
unfolding request_inner attempts_of
lost_attempts = refl

request_inner_attempts_example :
    ((cause : PreDispatchFailure) × (lost_run ≡ never_dispatched_run cause))
    ⊎ Attempted net config (codes "/list") false 2 30 lost_run
request_inner_attempts_example =
    request_inner_attempts net config (codes "/list") false 2 30 (start []) (omega arith)

outcome_agrees_example :
    Reports
      (outcome lost_run)
      (is_success lost_run)
      (run_status lost_run)
      (is_truncated lost_run)
      (retried (failure_kind lost_run))
    × ((terminal_category lost_run ≡ codes "retry_exhausted")
        ↔ (is_retries_exhausted lost_run ≡ true))
outcome_agrees_example = outcome_agrees lost_run

abbrev two_chunks : Stream
two_chunks = chunk (codes "ab") (chunk (codes "c") done)

read_body_bytes_limited_iff_example :
    (read_body_bytes_limited (some 3) two_chunks 3 ≡ read (codes "abc"))
    ↔ (Declares 3 (some 3) × (whole two_chunks ≡ some (codes "abc")) × (length (codes "abc") ≤ 3))
read_body_bytes_limited_iff_example =
    read_body_bytes_limited_iff (some 3) two_chunks 3 (codes "abc")

abbrev letters : ℕ → Text
letters zero = []
letters (suc n) = 97 ∷ letters n

truncate_error_body_lem_example :
    (let body = letters 1030 in
      ((length body ≤ max_error_body_len) × (truncate_error_body body ≡ body))
      ⊎ ((max_error_body_len < length body)
          × ((kept : Text) × (truncate_error_body body ≡ kept ++ truncation_mark)
              × Cut body kept
              × (length kept ≤ max_error_body_len)
              × ((other : Text)
                  → Cut body other
                  → length other ≤ max_error_body_len
                  → length other ≤ length kept))))
truncate_error_body_lem_example = truncate_error_body_lem (letters 1030) refl
