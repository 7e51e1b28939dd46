-- ===== src/Exchange/Answer.antt =====
-- The callbacks that answer a request with what the repository found (exchange_impl.cpp).
use restq.Base.{ℕ, String, not, [], ◌∷◌, none, ◌==◌, if◌then◌else◌}
use restq.Effects.{Effect, get, at}
use restq.ErrorHandler.{compose, close_with, find_and_invoke_for}
use restq.Exchange.{with_ranges}
use restq.Multimap.{Multimap, insert, of_list}
use restq.Platform.{Platform, Moment}
use restq.Query.{Query, has_failed, has_resultset}
use restq.Resource.{Resources}
use restq.Rule.{
  make_date, make_content_length, make_checksum, make_content_type, make_etag, make_last_modified,
  make_location,
}

-- `session->close( status, headers )`
abbrev pub close_bare : ℕ → Multimap → Effect
close_bare status headers =
    Effect.close (record { status = status; body = none; headers = headers }) Effect.done

module _ (p : Platform) where
  unfoldable pub create_resource_callback : Moment → Query → Effect
  create_resource_callback m q = at q.session λ s.
      if has_failed q
      then find_and_invoke_for p m q.error_code
          "The exchange is refusing to process the request because of a conflict with an existing resource."
          s
      else (compose s q.resultset λ body. at (make_etag q.resultset) λ etag. get s.host λ host.
          at (make_location host q.resultset) λ location. close_with 201 s body (
            with_ranges s (
              of_list (
                ("Date", make_date p m)
                ∷ ("ETag", etag)
                ∷ ("Last-Modified", make_date p m)
                ∷ ("Allow", "GET,PUT,HEAD,DELETE,OPTIONS")
                ∷ ("Content-MD5", make_checksum p body)
                ∷ ("Content-Length", make_content_length body)
                ∷ ("Content-Type", make_content_type s)
                ∷ ("Location", location)
                ∷ []))))

  -- The two headers that tell of the resources, where there are any.
  abbrev pub dated : Moment → Resources → Multimap → (Multimap → Effect) → Effect
  dated m [] headers k = k headers
  dated m (r ∷ rs) headers k = at (make_etag (r ∷ rs)) λ etag.
      get (make_last_modified p m (r ∷ rs))
        λ modified. k (insert "Last-Modified" modified (insert "ETag" etag headers))

  unfoldable pub read_resource_callback : Moment → Query → Effect
  read_resource_callback m q = at q.session λ s.
      if has_failed q
      then find_and_invoke_for p m q.error_code "" s
      else (compose s q.resultset λ body.
          dated m q.resultset
            (of_list (
              ("Date", make_date p m)
              ∷ ("Content-MD5", make_checksum p body)
              ∷ ("Content-Type", make_content_type s)
              ∷ ("Content-Length", make_content_length body)
              ∷ []))
            λ headers.
              if p.lowercase s.request.method == "head"
              then close_bare 204 headers
              else close_with 200 s body headers)

  unfoldable pub update_resource_callback : Moment → Query → Effect
  update_resource_callback m q = at q.session λ s.
      if has_failed q
      then find_and_invoke_for p m q.error_code
          "The exchange is refusing to process the request because the requested URI could not be found within the exchange."
          s
      else (get (make_last_modified p m q.resultset) λ modified.
          let headers = of_list (("Date", make_date p m) ∷ ("Last-Modified", modified) ∷ []) in
          if not (has_resultset q)
          then close_bare 204 headers
          else (compose s q.resultset λ body. at (make_etag q.resultset) λ etag.
              close_with 200 s body (
                with_ranges s (
                  insert "Content-Length" (make_content_length body) (
                    insert "Content-Type" (make_content_type s) (
                      insert "Content-MD5" (make_checksum p body) (
                        insert "Allow" "GET,PUT,HEAD,DELETE,OPTIONS"
                          (insert "ETag" etag headers))))))))

  -- The callback of delete_resource_handler.
  unfoldable pub deleted : Moment → Query → Effect
  deleted m q = at q.session λ s.
      if has_failed q
      then find_and_invoke_for p m q.error_code
          "The exchange is refusing to process the request because the requested URI could not be found within the exchange."
          s
      else close_bare 204 (of_list (("Date", make_date p m) ∷ []))

  -- The callback of options_resource_handler.
  unfoldable pub described : String → Moment → Query → Effect
  described options m q = at q.session λ s.
      if has_failed q
      then find_and_invoke_for p m q.error_code "" s
      else close_bare 204
          (with_ranges s (of_list (("Allow", options) ∷ ("Date", make_date p m) ∷ [])))
