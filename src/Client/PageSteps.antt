-- ===== src/Client/PageSteps.antt =====
-- What one page adds to a list, and what a complete list is.
use gh_report.Prelude.{
  ℕ, zero, suc, ◌-◌, ◌≤◌, ◌≡◌, ◌⊎◌, inl, inr, refl, sym, Bool, true, false, none, List, [], ◌∷◌,
  ◌++◌, Text, ltb, arith, length, length-append, Bool-cases, Option-cases, false≢true,
}
use gh_report.Pagination.{NextLink, no_link, one, uninterpretable, next_link}
use gh_report.Client.Bodies.{ReadResult, BodyReadError, read, refused, read_body_bytes_limited}
use gh_report.Client.Transport.{
  Environment, ClientState, Config, Response, Sent, lost, answered, Parsed, invalid, array, other,
  is_halted, is_success_status, max_response_body_bytes,
}
use gh_report.Client.Paginate.{
  max_paginated_items, PageRead, page, malformed, take, is_trusted, continuation_of,
  trusted_continuation, add_items, parsed_page, parse_paginated_page_body, PageStep, failed,
  stopped, next, continue_with, after_page, read_page, sent_page, admitted, request_page,
}

length-take : {A : Type 0} (xs : List A) (n : ℕ) → length (take xs n) ≤ n
unfolding take
length-take [] n = omega arith
length-take (x ∷ xs) zero = omega arith
length-take (x ∷ xs) (suc n) = let e = length-take xs n in omega arith

module _ {W V : Type 0} (E : Environment W V) (cfg : Config) (timeout : ℕ) where
  -- the page is a list, read in full
  pub record Holds (r : Response) (items : List V) : Type 0 where
    answer : is_success_status r.status ≡ true
    pub bytes : Text
    pub whole :
        read_body_bytes_limited r.content_length r.stream max_response_body_bytes ≡ read bytes
    valid : E.utf8_error bytes ≡ none
    pub parsed : E.from_str bytes ≡ array items

  -- the network answered a request for the URL by the page
  pub record Answered (url : Text) (r : Response) : Type 0 where
    before : W
    response : (E.send url timeout before).0 ≡ answered r

  -- the items of a URL's page and of those that it leads to, up to one that has no next link
  pub data Listing : Text → List V → Type 0 where
    last :
        {url : Text} {r : Response} {items : List V}
        → Answered url r
        → Holds r items
        → next_link r.links ≡ no_link
        → Listing url items
    more :
        {url url' : Text} {r : Response} {items rest : List V}
        → Answered url r
        → Holds r items
        → next_link r.links ≡ one url'
        → is_trusted E cfg url' ≡ true
        → Listing url' rest
        → Listing url (items ++ rest)

  abbrev Bytes : Text → List V → Type 0
  Bytes bytes items = (E.utf8_error bytes ≡ none) × (E.from_str bytes ≡ array items)

  abbrev Adds : Text → List V → PageRead V → Type 0
  Adds bytes acc (malformed f) = Unit
  Adds bytes acc (page items cut) =
      (length items ≤ max_paginated_items)
      × (cut ≡ false → (new : List V) × (items ≡ acc ++ new) × Bytes bytes new)

  add_items-Adds :
      (bytes : Text) (acc new : List V)
      → length acc ≤ max_paginated_items
      → Bytes bytes new
      → Adds bytes acc (add_items E cfg new acc)
  unfolding add_items
  add_items-Adds bytes acc new h b =
      elim (Bool-cases (ltb (max_paginated_items - length acc) (length new))) [
        | inl cut ↦ rw cut (
          (let l = length-take new (max_paginated_items - length acc) in
              ground (arith, length-append acc (take new (max_paginated_items - length acc)))),
          λ e. absurd (false≢true (sym e)),
        )
        | inr fits ↦ rw fits ((ground (arith, length-append acc new)), λ e. (new, refl, b))
      ]

  parsed_page-Adds :
      (status : ℕ) (bytes : Text) (acc : List V) (p : Parsed V)
      → length acc ≤ max_paginated_items
      → E.utf8_error bytes ≡ none
      → E.from_str bytes ≡ p
      → Adds bytes acc (parsed_page E cfg status p acc)
  unfolding parsed_page
  parsed_page-Adds status bytes acc (invalid e) h u q = tt
  parsed_page-Adds status bytes acc (other v) h u q = tt
  parsed_page-Adds status bytes acc (array items) h u q = add_items-Adds bytes acc items h (u, q)

  parse_page-Adds :
      (status : ℕ) (bytes : Text) (acc : List V)
      → length acc ≤ max_paginated_items
      → Adds bytes acc (parse_paginated_page_body E cfg status bytes acc)
  unfolding parse_paginated_page_body
  parse_page-Adds status bytes acc h = elim (Option-cases (E.utf8_error bytes)) [
    | inr (e, q) ↦ rw (parse_paginated_page_body, q) tt
    | inl u ↦
        rw (parse_paginated_page_body, u)
          (elim (Bool-cases (E.is_blank_body bytes)) [
            | inl blank ↦ rw blank tt
            | inr text ↦ rw text (parsed_page-Adds status bytes acc _ h u refl)
          ])
  ]

  pub record Page (url : Text) (acc all : List V) (r : Response) : Type 0 where
    pub new : List V
    pub joined : all ≡ acc ++ new
    pub asked : Answered url r
    pub holds : Holds r new

  -- what one page's step tells about the items
  abbrev pub Ends : Text → List V → PageStep E cfg → Type 0
  Ends url acc (failed f) = Unit
  Ends url acc (stopped items cut) =
      (length items ≤ max_paginated_items)
      × (cut ≡ false → (r : Response) × (next_link r.links ≡ no_link) × Page url acc items r)
  Ends url acc (next url' items) =
      (length items ≤ max_paginated_items)
      × ((r : Response) × (next_link r.links ≡ one url')
          × (is_trusted E cfg url' ≡ true)
          × Page url acc items r)

  continue_with-Ends :
      (url : Text) (acc items : List V) (r : Response) (l : NextLink)
      → next_link r.links ≡ l
      → length items ≤ max_paginated_items
      → Page url acc items r
      → Ends url acc (continue_with E cfg (continuation_of E cfg l) items)
  unfolding continuation_of
  continue_with-Ends url acc items r no_link e h p = (h, λ _. (r, e, p))
  continue_with-Ends url acc items r uninterpretable e h p = (h, λ f. absurd (false≢true (sym f)))
  continue_with-Ends url acc items r (one url') e h p = elim (Bool-cases (is_trusted E cfg url')) [
    | inl t ↦ rw t (h, (r, e, t, p))
    | inr n ↦ rw n (h, λ f. absurd (false≢true (sym f)))
  ]

  after_page-Ends :
      (url : Text) (acc : List V) (r : Response) (bytes : Text) (p : PageRead V)
      → is_success_status r.status ≡ true
      → read_body_bytes_limited r.content_length r.stream max_response_body_bytes ≡ read bytes
      → Answered url r
      → Adds bytes acc p
      → Ends url acc (after_page E cfg (continuation_of E cfg (next_link r.links)) p)
  after_page-Ends url acc r bytes (malformed f) ok w a h = tt
  after_page-Ends url acc r bytes (page items true) ok w a (h, _) =
      (h, λ f. absurd (false≢true (sym f)))
  after_page-Ends url acc r bytes (page items false) ok w a (h, adds) =
      let (new, joined, (valid, parsed)) = adds refl in
      continue_with-Ends url acc items r _ refl h (record {
        new = new;
        joined = joined;
        asked = a;
        holds = record { answer = ok; bytes = bytes; whole = w; valid = valid; parsed = parsed };
      })

  ReadResult-cases :
      (x : ReadResult)
      → ((bytes : Text) × (x ≡ read bytes)) ⊎ ((e : BodyReadError) × (x ≡ refused e))
  ReadResult-cases (read bytes) = inl (bytes, refl)
  ReadResult-cases (refused e) = inr (e, refl)

  read_page-Ends :
      (url : Text) (acc : List V) (r : Response) (s : ClientState W)
      → length acc ≤ max_paginated_items
      → Answered url r
      → Ends url acc (read_page E cfg r acc s).0
  unfolding read_page trusted_continuation
  read_page-Ends url acc r s h a = elim (Bool-cases (is_success_status r.status)) [
    | inr bad ↦ rw (read_page, bad) tt
    | inl ok ↦
        rw (read_page, ok)
          (elim (ReadResult-cases
            (read_body_bytes_limited r.content_length r.stream max_response_body_bytes)) [
              | inr (e, q) ↦ rw (read_page, q) tt
              | inl (bytes, w) ↦
                  rw (read_page, w)
                    (after_page-Ends url acc r bytes _ ok w a
                      (parse_page-Adds r.status bytes acc h))
            ])
  ]

  sent_page-Ends :
      (url : Text) (acc : List V) (x : Sent × W) (s : ClientState W)
      → length acc ≤ max_paginated_items
      → ((r : Response) → x.0 ≡ answered r → Answered url r)
      → Ends url acc (sent_page E cfg x acc s).0
  unfolding sent_page
  sent_page-Ends url acc (lost e t, w) s h a = tt
  sent_page-Ends url acc (answered r, w) s h a = read_page-Ends url acc r _ h (a r refl)

  pub request_page-Ends :
      (url : Text) (first : Bool) (acc : List V) (s : ClientState W)
      → length acc ≤ max_paginated_items
      → Ends url acc (request_page E cfg url timeout first acc s).0
  unfolding request_page
  request_page-Ends url first acc s h =
      let (halted, s1) = is_halted E s in
      let (ok, s2) = admitted E cfg first s1 in
      let cut = λ (f : true ≡ false). absurd (false≢true (sym f)) in
      elim (Bool-cases halted) [
        | inl stop ↦ rw (request_page, stop) (h, cut)
        | inr go ↦
            rw (request_page, go)
              (elim (Bool-cases ok) [
                | inr denied ↦ rw (request_page, denied) (h, cut)
                | inl granted ↦
                    rw (request_page, granted)
                      (sent_page-Ends url acc (E.send url timeout s2.world) s2 h
                        (λ r e. record { before = s2.world; response = e }))
              ])
      ]
