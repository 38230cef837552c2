-- ===== src/Client/Paginate.antt =====
-- github/client.rs: following the pages of a list.
use gh_report.Prelude.{
  ℕ, zero, suc, ◌-◌, Bool, true, false, not, Option, none, some, List, [], ◌∷◌, ◌++◌, Text, codes,
  if◌then◌else◌, ltb, length, text_eq,
}
use gh_report.Pagination.{NextLink, no_link, one, uninterpretable, next_link}
use gh_report.Client.{
  RequestFailureKind, AttemptResult, transport, body_read, malformed_payload, invalid_json,
  invalid_utf8, empty_body, not_an_array,
}
use gh_report.Client.Bodies.{read, refused, read_body_bytes_limited}
use gh_report.Client.Transport.{
  Environment, Config, Response, Sent, lost, answered, Parsed, invalid, array, other, is_halted,
  http_failure_kind, is_success_status, max_response_body_bytes, body_error_text, Action,
}

abbrev pub max_pagination_pages : ℕ
max_pagination_pages = 500

abbrev pub max_paginated_items : ℕ
max_paginated_items = 500000

pub data Continuation : Type 0 where
  exhausted refused_page uninterpretable_page : Continuation
  follow : Text → Continuation

-- what a page adds to the items: the items with those that fit, and whether some did not
pub data PageRead (V : Type 0) : Type 0 where
  page : List V → Bool → PageRead V
  malformed : RequestFailureKind → PageRead V

module _ {ℓ} {A : Type ℓ} where
  -- `Iterator::take`
  unfoldable pub take : List A → ℕ → List A
  take [] n = []
  take (x ∷ xs) zero = []
  take (x ∷ xs) (suc n) = x ∷ take xs n

module _ {W V : Type 0} (E : Environment W V) (cfg : Config) where
  open E use {
    now, send, observe, acquire, utf8_error, is_blank_body, from_str, array_value, origin_of,
  }

  -- `is_same_origin` against the trusted origin
  unfoldable pub is_trusted : Text → Bool
  unfolding text_eq
  is_trusted url = elim (origin_of url) [ none ↦ false | some o ↦ text_eq o cfg.trusted_origin ]

  unfoldable pub continuation_of : NextLink → Continuation
  unfolding is_trusted
  continuation_of no_link = exhausted
  continuation_of uninterpretable = uninterpretable_page
  continuation_of (one url) = if is_trusted url then follow url else refused_page

  unfoldable pub trusted_continuation : List (Option Text) → Continuation
  unfolding next_link continuation_of
  trusted_continuation links = continuation_of (next_link links)

  -- `saturating_sub`, then the items that fit
  unfoldable pub add_items : List V → List V → PageRead V
  unfolding take
  add_items items all_items =
      let remaining = max_paginated_items - length all_items in
      if ltb remaining (length items)
      then page (all_items ++ take items remaining) true
      else page (all_items ++ items) false

  unfoldable pub parsed_page : ℕ → Parsed V → List V → PageRead V
  unfolding add_items
  parsed_page status (array items) all_items = add_items items all_items
  parsed_page status (other v) all_items =
      malformed (
        malformed_payload status not_an_array
          (codes "malformed paginated response: expected array"))
  parsed_page status (invalid e) all_items =
      malformed (malformed_payload status invalid_json (codes "invalid json: " ++ e))

  unfoldable pub parse_paginated_page_body : ℕ → Text → List V → PageRead V
  unfolding parsed_page
  parse_paginated_page_body status bytes all_items = elim (utf8_error bytes) [
    | some e ↦ malformed (
        malformed_payload status invalid_utf8
          (codes "malformed paginated response: invalid UTF-8: " ++ e))
    | none ↦
        if is_blank_body bytes
        then malformed
            (malformed_payload status empty_body (codes "malformed paginated response: empty body"))
        else parsed_page status (from_str bytes) all_items
  ]

  -- one page: what follows it, with the items so far, or why the enumeration ends
  pub data PageStep : Type 0 where
    failed : RequestFailureKind → PageStep
    stopped : List V → Bool → PageStep
    next : Text → List V → PageStep

  abbrev pub continue_with : Continuation → List V → PageStep
  continue_with (follow url) items = next url items
  continue_with exhausted items = stopped items false
  continue_with refused_page items = stopped items true
  continue_with uninterpretable_page items = stopped items true

  abbrev pub after_page : Continuation → PageRead V → PageStep
  after_page c (malformed f) = failed f
  after_page c (page items true) = stopped items true
  after_page c (page items false) = continue_with c items

  unfoldable pub read_page : Response → List V → Action E PageStep
  unfolding http_failure_kind trusted_continuation read_body_bytes_limited parse_paginated_page_body
      body_error_text
  read_page r all_items s =
      if not (is_success_status r.status)
      then (let (f, s') = http_failure_kind E r s in (failed f, s'))
      else elim (read_body_bytes_limited r.content_length r.stream max_response_body_bytes) [
        | refused e ↦ (failed (body_read (some r.status) (body_error_text e)), s)
        | read bytes ↦ (
          after_page (trusted_continuation r.links)
              (parse_paginated_page_body r.status bytes all_items),
          s,
        )
      ]

  unfoldable pub sent_page : Sent × W → List V → Action E PageStep
  unfolding read_page
  sent_page (lost e timeout, w) all_items s = (failed (transport e timeout), record s { world = w })
  sent_page (answered r, w) all_items s = read_page r all_items (record s { world = observe r w })

  -- the budget is asked for every page but the first, which the caller has asked for
  abbrev pub admitted : Bool → Action E Bool
  admitted true s = (true, s)
  admitted false s = let (ok, w) = acquire s.world in (ok, record s { world = w })

  unfoldable pub request_page : Text → ℕ → Bool → List V → Action E PageStep
  unfolding is_halted sent_page
  request_page url timeout_secs first all_items s =
      let (halted, s1) = is_halted E s in
      if halted
      then (stopped all_items true, s1)
      else (let (ok, s2) = admitted first s1 in
          if not ok
          then (stopped all_items true, s2)
          else sent_page (send url timeout_secs s2.world) all_items s2)

  abbrev pub list_result : List V → Bool → AttemptResult V
  list_result items cut =
      AttemptResult.success
        (record { status = 200; body = some (array_value items); headers = none; truncated = cut })

  -- the loop over the pages, on the pages that are left
  unfoldable pub page_loop : ℕ → Text → ℕ → Bool → List V → Action E (AttemptResult V)
  unfolding request_page
  page_loop zero url timeout_secs first all_items s = (list_result all_items true, s)
  page_loop (suc left) url timeout_secs first all_items s =
      let (step, s') = request_page url timeout_secs first all_items s in
      elim step [
        | failed f ↦ (AttemptResult.failure f, s')
        | stopped items cut ↦ (list_result items cut, s')
        | next url' items ↦ page_loop left url' timeout_secs false items s'
      ]

  unfoldable pub request_paginated : Text → ℕ → Action E (AttemptResult V)
  unfolding page_loop
  request_paginated path timeout_secs =
      page_loop max_pagination_pages (cfg.base_url ++ path) timeout_secs true []
