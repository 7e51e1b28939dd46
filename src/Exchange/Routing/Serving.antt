-- ===== src/Exchange/Routing/Serving.antt =====
-- A request to a resource that exchange_impl.cpp publishes: the rules of the service, the rules of
-- the resource and the handler of the method, one behind the other.
use restq.Base.{
  String, Bool, true, false, List, [], ◌∷◌, some, ◌==◌, ◌≡◌, ◌≢◌, refl, sym, subst, ◌∙◌, arith, All,
  In, In_of_All, inl, eq_iff,
}
use restq.Effects.{Effect}
use restq.Exchange.Answering.Updates.{update_resource_handler-ClosesOnce}
use restq.Exchange.Answering.Creation.{HasDefaults, create_resource_handler-ClosesOnce}
use restq.Exchange.Answering.{
  IsRouted, read_resource_handler-ClosesOnce, delete_resource_handler-ClosesOnce,
  options_resource_handler-ClosesOnce,
}
use restq.Exchange.Accepting.{create_message_handler-ClosesOnce}
use restq.Exchange.Contract.{ClosesOnce, closes_now}
use restq.Exchange.Handlers.{asterisk_resource_handler}
use restq.Exchange.Routing.{Rule, Handler, Published, System, apply_rules, invoke, published}
use restq.Platform.{Platform, Moment}
use restq.Resource.{queue_type, message_type, subscription_type}
use restq.Ruleset.{setup_ruleset}
use restq.Ruleset.Preparing.{IsReadyFor}
use restq.Session.{Request, Session, Formatter}
use restq.Settings.{Properties}
use restq.Exchange.Routing.Ruled.{
  IsRoutedFor, IsParsed, key-GoesOn, key_then_keys-GoesOn, one-GoesOn, many-GoesOn,
  ruled-ClosesOnce,
}

queue-ne-message : queue_type ≢ message_type
queue-ne-message e = ground (arith, eq_iff queue_type message_type)

subscription-ne-message : subscription_type ≢ message_type
subscription-ne-message e = ground (arith, eq_iff subscription_type message_type)

-- The path of the resource has a key.
abbrev pub takes_key : List Rule → Bool
takes_key [] = false
takes_key (Rule.key_rule ∷ Rule.keys_rule ∷ rules) = false
takes_key (Rule.key_rule ∷ rules) = true
takes_key (rule ∷ rules) = false

module _ (p : Platform) (m : Moment) (formats : List (String × Formatter)) (ps : Properties)
    (settings : ps.Store) (system : System) where
  -- No format reads the body of a request as an empty list.
  abbrev pub IsFilled : Request → Type 0
  IsFilled r = All (λ e. e.1.try_parse r.body ≢ some []) formats

  -- The method under which a handler is published.
  abbrev Suits : String → Handler → Type 0
  Suits method (Handler.reading type) = type ≢ message_type
  Suits method (Handler.updating type) = (type ≢ message_type) × (method ≡ "PUT")
  Suits method (Handler.creating type) = method ≡ "POST"
  Suits method _ = Unit

  -- The rules of the service and of the resource, then the handler.
  abbrev pub serve : List Rule → Handler → Session → Effect
  serve rules handler s =
      setup_ruleset p m formats s
        λ s'. apply_rules p m formats rules s' (invoke p m ps settings system handler)

  abbrev Serves : List Rule → String × Handler → Type 0
  Serves rules (method, handler) =
      (s : Session)
      → s.request.method ≡ method
      → (takes_key rules ≡ true → p.has_path_parameter s.request "key" ≡ true)
      → IsFilled s.request
      → ClosesOnce (serve rules handler s)

  module _ (defaults : HasDefaults p ps settings) (put : p.lowercase "PUT" ≡ "put")
      (post : p.lowercase "POST" ≡ "post") where
    invoke-ClosesOnce :
        (r : Request) (method : String) (handler : Handler) (s : Session)
        → r.method ≡ method
        → Suits method handler
        → IsParsed p m formats r (λ f. f.try_parse r.body ≢ some []) s
        → ClosesOnce (invoke p m ps settings system handler s)
    unfolding invoke asterisk_resource_handler
    invoke-ClosesOnce r method (Handler.reading type) s q n (h, e, c) =
        read_resource_handler-ClosesOnce p type s h.0.0 n
    invoke-ClosesOnce r method (Handler.updating type) s q (n, u) (h, e, c) =
        let put' : (p.lowercase r.method == "put") ≡ true =
          subst (λ x. (p.lowercase x == "put") ≡ true) (sym (q ∙ u)) ((eq_iff _ "put").1 put) in
        let (f, ef, ne) = c (rw put' refl) in
        update_resource_handler-ClosesOnce p m type s f h n ef
          (subst (λ x. f.try_parse x.body ≢ some []) (sym e) ne)
    invoke-ClosesOnce r method (Handler.deleting type) s q n (h, e, c) =
        delete_resource_handler-ClosesOnce p type s h.0.0
    invoke-ClosesOnce r method (Handler.creating type) s q u (h, e, c) =
        let post' : (p.lowercase r.method == "post") ≡ true =
          subst (λ x. (p.lowercase x == "post") ≡ true) (sym (q ∙ u)) ((eq_iff _ "post").1 post) in
        let (f, ef, ne) = c (ground (arith, post')) in
        create_resource_handler-ClosesOnce p ps settings m type s f h ef defaults
    invoke-ClosesOnce r method (Handler.describing type options) s q n (h, e, c) =
        options_resource_handler-ClosesOnce p type options s h.0.0
    invoke-ClosesOnce r method Handler.sending s q n (h, e, c) =
        create_message_handler-ClosesOnce p m s h
    invoke-ClosesOnce r method Handler.surveying s q n (h, e, c) = closes_now _

    one-Serves :
        (method : String) (handler : Handler)
        → Suits method handler
        → Serves
            (Rule.key_rule ∷ Rule.content_type_rule ∷ Rule.content_encoding_rule ∷ [])
            (method, handler)
    one-Serves method handler n s q given filled =
        let r = s.request in
        let P = λ (f : Formatter). f.try_parse r.body ≢ some [] in
        ruled-ClosesOnce p m formats r P (IsParsed p m formats r P) _ s _ refl
          (λ s' h. one-GoesOn p m formats r P s' _ filled (given refl) h)
          (λ s' h. invoke-ClosesOnce r method handler s' q n h)

    many-Serves :
        (method : String) (handler : Handler)
        → Suits method handler
        → Serves
            (Rule.keys_rule ∷ Rule.content_type_rule ∷ Rule.content_encoding_rule ∷ [])
            (method, handler)
    many-Serves method handler n s q given filled =
        let r = s.request in
        let P = λ (f : Formatter). f.try_parse r.body ≢ some [] in
        ruled-ClosesOnce p m formats r P (IsParsed p m formats r P) _ s _ refl
          (λ s' h. many-GoesOn p m formats r P s' _ filled h)
          (λ s' h. invoke-ClosesOnce r method handler s' q n h)

    key-Serves :
        (method : String) (handler : Handler)
        → ((s : Session) → IsRouted s → ClosesOnce (invoke p m ps settings system handler s))
        → Serves (Rule.key_rule ∷ []) (method, handler)
    unfolding apply_rules
    key-Serves method handler f s q given filled =
        let P = λ (f : Formatter). Unit {0} in
        ruled-ClosesOnce p m formats s.request P (IsRoutedFor p m formats s.request P)
          (Rule.key_rule ∷ []) s _ refl
          (λ s' h. key-GoesOn p m formats s.request P s' _ h (given refl)) (λ s' h. f s' h.0)

    messages-Serves :
        (method : String) (handler : Handler)
        → ((s : Session) → IsRouted s → ClosesOnce (invoke p m ps settings system handler s))
        → Serves (Rule.key_rule ∷ Rule.keys_rule ∷ []) (method, handler)
    unfolding apply_rules
    messages-Serves method handler f s q given filled =
        let P = λ (f : Formatter). Unit {0} in
        ruled-ClosesOnce p m formats s.request P (IsRoutedFor p m formats s.request P)
          (Rule.key_rule ∷ Rule.keys_rule ∷ []) s _ refl
          (λ s' h. key_then_keys-GoesOn p m formats s.request P s' _ h) (λ s' h. f s' h.0)

    asterisk-Serves : (method : String) → Serves [] (method, Handler.surveying)
    unfolding apply_rules invoke asterisk_resource_handler
    asterisk-Serves method s q given filled =
        let P = λ (f : Formatter). Unit {0} in
        ruled-ClosesOnce p m formats s.request P (IsReadyFor s.request) [] s _ refl
          (λ s' h. inl (s', refl, h)) (λ s' h. closes_now _)

    describing-ClosesOnce :
        (type options : String) (s : Session)
        → IsRouted s
        → ClosesOnce (invoke p m ps settings system (Handler.describing type options) s)
    unfolding invoke
    describing-ClosesOnce type options s h =
        options_resource_handler-ClosesOnce p type options s h.0.0

    sending-ClosesOnce :
        (s : Session) → IsRouted s → ClosesOnce (invoke p m ps settings system Handler.sending s)
    unfolding invoke
    sending-ClosesOnce s h = create_message_handler-ClosesOnce p m s h

    one_of_type-Serves :
        (type options : String)
        → type ≢ message_type
        → All (Serves (Rule.key_rule ∷ Rule.content_type_rule ∷ Rule.content_encoding_rule ∷ [])) (
            ("GET", Handler.reading type)
            ∷ ("HEAD", Handler.reading type)
            ∷ ("PUT", Handler.updating type)
            ∷ ("DELETE", Handler.deleting type)
            ∷ ("OPTIONS", Handler.describing type options)
            ∷ [])
    one_of_type-Serves type options n = (
      one-Serves "GET" _ n,
      (
        one-Serves "HEAD" _ n,
        (one-Serves "PUT" _ (n, refl), (one-Serves "DELETE" _ tt, (one-Serves "OPTIONS" _ tt, tt))),
      ),
    )

    many_of_type-Serves :
        (type options : String)
        → type ≢ message_type
        → All (Serves (Rule.keys_rule ∷ Rule.content_type_rule ∷ Rule.content_encoding_rule ∷ [])) (
            ("GET", Handler.reading type)
            ∷ ("HEAD", Handler.reading type)
            ∷ ("POST", Handler.creating type)
            ∷ ("DELETE", Handler.deleting type)
            ∷ ("OPTIONS", Handler.describing type options)
            ∷ [])
    many_of_type-Serves type options n = (
      many-Serves "GET" _ n,
      (
        many-Serves "HEAD" _ n,
        (many-Serves "POST" _ refl, (many-Serves "DELETE" _ tt, (many-Serves "OPTIONS" _ tt, tt))),
      ),
    )

    published-Serves : All (λ x. All (Serves x.rules) x.handlers) published
    unfolding published
    published-Serves = (
      one_of_type-Serves queue_type _ queue-ne-message,
      (
        many_of_type-Serves queue_type _ queue-ne-message,
        (
          (key-Serves "OPTIONS" _ (describing-ClosesOnce message_type _), tt),
          (
            (
              messages-Serves "POST" _ sending-ClosesOnce,
              (messages-Serves "OPTIONS" _ (describing-ClosesOnce message_type _), tt),
            ),
            (
              (asterisk-Serves "OPTIONS", tt),
              (
                one_of_type-Serves subscription_type _ subscription-ne-message,
                (many_of_type-Serves subscription_type _ subscription-ne-message, tt),
              ),
            ),
          ),
        ),
      ),
    )

  -- A request to a published resource, with a method that the resource has a handler for, is
  -- answered exactly once, by a rule or by the handler or one of its callbacks, whatever the
  -- repository replies within its contract and whenever it does; no exception is thrown and nothing
  -- is read through the end of a container. Given are that the defaults of a queue can be read, that
  -- the path of a resource for one has its key, and that no format reads the body as an empty list.
  pub served-ClosesOnce :
      (resource : Published) (method : String) (handler : Handler) (s : Session)
      → HasDefaults p ps settings
      → p.lowercase "PUT" ≡ "put"
      → p.lowercase "POST" ≡ "post"
      → In resource published
      → In (method, handler) resource.handlers
      → s.request.method ≡ method
      → (takes_key resource.rules ≡ true → p.has_path_parameter s.request "key" ≡ true)
      → IsFilled s.request
      → ClosesOnce (serve resource.rules handler s)
  served-ClosesOnce resource method handler s defaults put post i j =
      In_of_All (Serves resource.rules) (method, handler) resource.handlers
        (In_of_All (λ x. All (Serves x.rules) x.handlers) resource published
          (published-Serves defaults put post) i)
        j s
