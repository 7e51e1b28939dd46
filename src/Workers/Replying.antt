-- ===== src/Workers/Replying.antt =====
-- The callbacks of queues and subscriptions (exchange_impl.cpp) change nothing stored.
use restq.Base.{String, not, [], ◌∷◌, ◌==◌, if◌then◌else◌}
use restq.Effects.{Effect}
use restq.Exchange.Answer.{
  create_resource_callback, read_resource_callback, update_resource_callback, deleted, described,
  dated, close_bare,
}
use restq.Exchange.Handlers.{
  read_resource_handler, delete_resource_handler, options_resource_handler,
}
use restq.Multimap.{Multimap, of_list}
use restq.Platform.{Platform, Moment}
use restq.Query.{Query, has_failed, has_resultset}
use restq.Resource.{Resources}
use restq.ErrorHandler.{close_with}
use restq.Rule.{
  make_date, make_checksum, make_content_type, make_content_length, make_etag, make_last_modified,
  make_location,
}
use restq.Session.{Session}
use restq.Workers.Closing.{
  WritesLawful-if, WritesLawful-at, WritesLawful-get, WritesLawful-close_with,
  WritesLawful-find_and_invoke_for,
}
use restq.Workers.Writing.{WritesLawful}

module _ (p : Platform) where
  pub create_resource_callback-WritesLawful :
      (m : Moment) (q : Query) → WritesLawful (create_resource_callback p m q)
  unfolding create_resource_callback
  create_resource_callback-WritesLawful m q = WritesLawful-at q.session _ λ s.
      WritesLawful-if (has_failed q) _ _ (WritesLawful-find_and_invoke_for p m q.error_code _ s) (
        WritesLawful-get s.accept_format _ λ f. WritesLawful-get s.style _ λ style.
          WritesLawful-at (make_etag q.resultset) _ λ etag. WritesLawful-get s.host _ λ host.
            WritesLawful-at (make_location host q.resultset) _
              λ location. WritesLawful-get s.echo _ λ echo. tt)

  read_resource_callback-WritesLawful :
      (m : Moment) (q : Query) → WritesLawful (read_resource_callback p m q)
  unfolding read_resource_callback
  read_resource_callback-WritesLawful m q = WritesLawful-at q.session _ λ s.
      WritesLawful-if (has_failed q) _ _ (WritesLawful-find_and_invoke_for p m q.error_code "" s) (
        WritesLawful-get s.accept_format _ λ f. WritesLawful-get s.style _ λ style.
          let body = f.compose q.resultset style in
          dated-WritesLawful q.resultset
            (of_list (
              ("Date", make_date p m)
              ∷ ("Content-MD5", make_checksum p body)
              ∷ ("Content-Type", make_content_type s)
              ∷ ("Content-Length", make_content_length body)
              ∷ []))
            (λ headers.
              if p.lowercase s.request.method == "head"
              then close_bare 204 headers
              else close_with 200 s body headers)
            λ headers.
              WritesLawful-if (p.lowercase s.request.method == "head") (close_bare 204 headers)
                (close_with 200 s body headers) tt (WritesLawful-close_with 200 s body headers))
    where
      dated-WritesLawful :
          (rs : Resources) (headers : Multimap) (k : Multimap → Effect)
          → ((headers : Multimap) → WritesLawful (k headers))
          → WritesLawful (dated p m rs headers k)
      dated-WritesLawful [] headers k h = h headers
      dated-WritesLawful (r ∷ rs) headers k h =
          WritesLawful-at (make_etag (r ∷ rs)) _
            λ etag. WritesLawful-get (make_last_modified p m (r ∷ rs)) _ λ modified. h _

  pub update_resource_callback-WritesLawful :
      (m : Moment) (q : Query) → WritesLawful (update_resource_callback p m q)
  unfolding update_resource_callback
  update_resource_callback-WritesLawful m q = WritesLawful-at q.session _ λ s.
      WritesLawful-if (has_failed q) _ _ (WritesLawful-find_and_invoke_for p m q.error_code _ s) (
        WritesLawful-get (make_last_modified p m q.resultset) _ λ modified.
          WritesLawful-if (not (has_resultset q)) _ _ tt (
            WritesLawful-get s.accept_format _ λ f. WritesLawful-get s.style _ λ style.
              WritesLawful-at (make_etag q.resultset) _
                λ etag. WritesLawful-get s.echo _ λ echo. tt))

  pub read_resource_handler-WritesLawful :
      (type : String) (s : Session) → WritesLawful (read_resource_handler p type s)
  unfolding read_resource_handler
  read_resource_handler-WritesLawful type s m q same = read_resource_callback-WritesLawful m q

  pub delete_resource_handler-WritesLawful :
      (type : String) (s : Session) → WritesLawful (delete_resource_handler p type s)
  unfolding delete_resource_handler deleted
  delete_resource_handler-WritesLawful type s m q same = WritesLawful-at q.session _ λ s'.
      WritesLawful-if (has_failed q) _ _ (WritesLawful-find_and_invoke_for p m q.error_code _ s') tt

  pub options_resource_handler-WritesLawful :
      (type options : String) (s : Session)
      → WritesLawful (options_resource_handler p type options s)
  unfolding options_resource_handler described
  options_resource_handler-WritesLawful type options s m q same = WritesLawful-at q.session _ λ s'.
      WritesLawful-if (has_failed q) _ _ (WritesLawful-find_and_invoke_for p m q.error_code "" s')
        tt
