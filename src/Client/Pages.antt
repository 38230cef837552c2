-- ===== src/Client/Pages.antt =====
-- What a list that is read page by page contains.
use gh_report.Prelude.{
  ℕ, zero, suc, ◌≤◌, ◌≡◌, ◌⊎◌, inl, inr, refl, ap, ◌∙◌, sym, Bool, true, false, some, List, [],
  ◌++◌, Text, arith, length, false≢true, append_assoc,
}
use mathlib.Core.Path.{subst}
use gh_report.Client.{AttemptResult, Payload, RequestFailureKind}
use gh_report.Client.Transport.{Environment, ClientState, Config}
use gh_report.Client.Paginate.{
  max_pagination_pages, max_paginated_items, PageStep, failed, stopped, next, request_page,
  list_result, page_loop, request_paginated,
}
use gh_report.Client.PageSteps.{Listing, Ends, request_page-Ends}

module _ {W V : Type 0} (E : Environment W V) (cfg : Config) (timeout : ℕ) where
  -- the result of an enumeration that starts with the items `acc`
  abbrev Lists : Text → List V → AttemptResult V → Type 0
  Lists url acc (AttemptResult.failure f) = Unit
  Lists url acc (AttemptResult.success p) =
      (items : List V) × (p.body ≡ some (E.array_value items))
      × (length items ≤ max_paginated_items)
      × (p.truncated ≡ false
          → (new : List V) × (items ≡ acc ++ new) × Listing E cfg timeout url new)

  PageStep-cases :
      (p : PageStep E cfg)
      → ((f : RequestFailureKind) × (p ≡ failed f))
        ⊎ (((items : List V) × (cut : Bool) × (p ≡ stopped items cut))
            ⊎ ((url : Text) × (items : List V) × (p ≡ next url items)))
  PageStep-cases (failed f) = inl (f, refl)
  PageStep-cases (stopped items cut) = inr (inl (items, cut, refl))
  PageStep-cases (next url items) = inr (inr (url, items, refl))

  stopped-Lists :
      (url : Text) (acc items : List V) (cut : Bool)
      → Ends E cfg timeout url acc (stopped items cut)
      → Lists url acc (list_result E cfg items cut)
  stopped-Lists url acc items cut (h, whole) = (
    items,
    refl,
    h,
    λ e. let (r, link, p) = whole e in (p.new, p.joined, Listing.last p.asked p.holds link),
  )

  next-Lists :
      (url url' : Text) (acc items : List V) (x : AttemptResult V)
      → Ends E cfg timeout url acc (next url' items)
      → Lists url' items x
      → Lists url acc x
  next-Lists url url' acc items (AttemptResult.failure f) e l = tt
  next-Lists url url' acc items (AttemptResult.success p) (h, e) (all, body, bound, whole) =
      let (r, link, trusted, q) = e in
      (
        all,
        body,
        bound,
        λ cut.
            let (rest, joined, listing) = whole cut in
            (
              q.new ++ rest,
              joined ∙ (ap (λ xs. xs ++ rest) q.joined ∙ append_assoc acc q.new rest),
              Listing.more q.asked q.holds link trusted listing,
            ),
      )

  page_loop-Lists :
      (left : ℕ) (url : Text) (first : Bool) (acc : List V) (s : ClientState W)
      → length acc ≤ max_paginated_items
      → Lists url acc (page_loop E cfg left url timeout first acc s).0
  unfolding page_loop
  page_loop-Lists zero url first acc s h = (acc, refl, h, λ f. absurd (false≢true (sym f)))
  page_loop-Lists (suc left) url first acc s h =
      let ends = request_page-Ends E cfg timeout url first acc s h in
      let s' = (request_page E cfg url timeout first acc s).1 in
      elim (PageStep-cases (request_page E cfg url timeout first acc s).0) [
        | inl (f, e) ↦ rw (page_loop, e) tt
        | inr (inl (items, cut, e)) ↦
            rw (page_loop, e)
              (stopped-Lists url acc items cut (subst (Ends E cfg timeout url acc) e ends))
        | inr (inr (url', items, e)) ↦
            let (bound, rest) = subst (Ends E cfg timeout url acc) e ends in
            rw (page_loop, e)
              (next-Lists url url' acc items _ (bound, rest)
                (page_loop-Lists left url' false items s' bound))
      ]

  -- A list that the client enumerates never has more than the 500,000 items of its bound, and one
  -- that it does not mark as truncated is complete: its items are those of the first page and of
  -- all the pages that it leads to, in their order, each read in full from an answer to a request
  -- for its URL, each next page at a trusted URL that the page before names, up to a page that
  -- names no next one.
  pub request_paginated-Listing :
      (path : Text) (s : ClientState W) (p : Payload V)
      → (request_paginated E cfg path timeout s).0 ≡ AttemptResult.success p
      → (items : List V) × (p.body ≡ some (E.array_value items))
        × (length items ≤ max_paginated_items)
        × (p.truncated ≡ false → Listing E cfg timeout (cfg.base_url ++ path) items)
  unfolding request_paginated
  request_paginated-Listing path s p e =
      let start = cfg.base_url ++ path in
      let (items, body, bound, whole) =
        subst (Lists start []) e
          (page_loop-Lists max_pagination_pages start true [] s (omega arith)) in
      (
        items,
        body,
        bound,
        λ cut.
            let (new, joined, listing) = whole cut in
            subst (Listing E cfg timeout start) (sym joined) listing,
      )
