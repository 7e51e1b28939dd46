-- ===== src/Workers/Statuses.antt =====
-- The whole exchange: whatever the workers do in whatever order, the states of messages stay such that
-- the dispatcher can work on them.
use restq.Base.{String, List, [], ◌≡◌, ◌≢◌, refl, sym, subst, arith, eq_iff, All, In, In_of_All}
use restq.Dispatch.{route}
use restq.Effects.{Effect}
use restq.Exchange.Routing.{Handler, Published, System, invoke, published}
use restq.Exchange.Routing.Serving.{serve}
use restq.Exchange.Handlers.{asterisk_resource_handler}
use restq.Platform.{Platform, Moment}
use restq.Resource.{queue_type, state_type}
use restq.Session.{Request, Session, Formatter, opened}
use restq.Settings.{Properties}
use restq.Workers.{State, Reach}
use restq.Workers.Creating.{
  update_resource_handler-WritesLawful, create_resource_handler-WritesLawful,
}
use restq.Workers.Lawful.{IsLawful}
use restq.Workers.Requests.{IsClean, subscription-ne-state}
use restq.Workers.Replying.{
  read_resource_handler-WritesLawful, delete_resource_handler-WritesLawful,
  options_resource_handler-WritesLawful,
}
use restq.Workers.Rounds.{route-WritesLawful}
use restq.Workers.Ruling.{IsOrdering, setup_ruleset-Continues, apply_rules-Continues, harmless}
use restq.Workers.Sending.{create_message_handler-WritesLawful}
use restq.Workers.Writing.{WritesLawful, IsFair, Reach-IsSound}

-- The handler takes no bodies for states.
abbrev IsBounded : Handler → Type 0
IsBounded (Handler.updating type) = type ≢ state_type
IsBounded (Handler.creating type) = type ≢ state_type
IsBounded _ = Unit

queue-ne-state : queue_type ≢ state_type
queue-ne-state e = ground (arith, eq_iff queue_type state_type)

published-IsBounded : All (λ x. All (λ h. IsBounded h.1) x.handlers) published
unfolding published
published-IsBounded = (
  (tt, (tt, (queue-ne-state, (tt, (tt, tt))))),
  (
    (tt, (tt, (queue-ne-state, (tt, (tt, tt))))),
    (
      (tt, tt),
      (
        (tt, (tt, tt)),
        (
          (tt, tt),
          (
            (tt, (tt, (subscription-ne-state, (tt, (tt, tt))))),
            ((tt, (tt, (subscription-ne-state, (tt, (tt, tt))))), tt),
          ),
        ),
      ),
    ),
  ),
)

module _ (p : Platform) (formats : List (String × Formatter)) (ps : Properties)
    (settings : ps.Store) (system : System) where
  -- What arrives: a request to a published resource, with a method that it has a handler for, and a
  -- round of the dispatcher, for any status.
  pub data Arrives (e : Effect) : Type 0 where
    request :
        (m : Moment) (resource : Published) (method : String) (handler : Handler) (r : Request)
        (origin : String)
        → In resource published
        → In (method, handler) resource.handlers
        → e ≡ serve p m formats ps settings system resource.rules handler (opened r origin)
        → Arrives e
    round : (status : String) → e ≡ route p status → Arrives e

  invoke-WritesLawful :
      (m : Moment) (handler : Handler) (s : Session)
      → IsBounded handler
      → IsClean s
      → WritesLawful (invoke p m ps settings system handler s)
  unfolding invoke asterisk_resource_handler
  invoke-WritesLawful m (Handler.reading type) s n c = read_resource_handler-WritesLawful p type s
  invoke-WritesLawful m (Handler.updating type) s n c =
      update_resource_handler-WritesLawful p m type s c.0 n
  invoke-WritesLawful m (Handler.deleting type) s n c =
      delete_resource_handler-WritesLawful p type s
  invoke-WritesLawful m (Handler.creating type) s n c =
      create_resource_handler-WritesLawful p ps settings m type s c n
  invoke-WritesLawful m (Handler.describing type options) s n c =
      options_resource_handler-WritesLawful p type options s
  invoke-WritesLawful m Handler.sending s n c = create_message_handler-WritesLawful p m s
  invoke-WritesLawful m Handler.surveying s n c = tt

  serve-WritesLawful :
      (m : Moment) (resource : Published) (method : String) (handler : Handler) (s : Session)
      → All (λ e. IsOrdering e.1) formats
      → In resource published
      → In (method, handler) resource.handlers
      → IsClean s
      → WritesLawful (serve p m formats ps settings system resource.rules handler s)
  serve-WritesLawful m resource method handler s a i j c =
      let bounded =
        In_of_All (λ (h : String × Handler). IsBounded h.1) (method, handler) resource.handlers
          (In_of_All (λ x. All (λ h. IsBounded h.1) x.handlers) resource published
            published-IsBounded i)
          j in
      (setup_ruleset-Continues p m formats _
        (apply_rules-Continues p m formats resource.rules _ a
          λ s' c'. harmless _ (invoke-WritesLawful m handler s' bounded c'))
        s c).lawful

  arrives-WritesLawful :
      All (λ e. IsOrdering e.1) formats → (e : Effect) → Arrives e → WritesLawful e
  arrives-WritesLawful a e (Arrives.request m resource method handler r origin i j q) =
      subst WritesLawful (sym q) (
        serve-WritesLawful m resource method handler (opened r origin) a i j
          (refl, λ f text rs none_given parsed. absurd (cc)))
  arrives-WritesLawful a e (Arrives.round status q) =
      subst WritesLawful (sym q) (route-WritesLawful p status)

  -- From a lawful store on, in whatever order the workers run requests, their callbacks and the rounds
  -- of the dispatcher, with the halves of updates and deletions apart, each stored resource stays
  -- lawful: a state of a message keeps one status, which is one of the six, and one of each property
  -- that names its message and its subscriber. Given is that the formats parse a body to resources in
  -- order.
  pub Reach-IsLawful :
      (t u : State)
      → All (λ e. IsOrdering e.1) formats
      → All IsLawful t.store
      → t.tasks ≡ []
      → Reach p Arrives t u
      → All IsLawful u.store
  Reach-IsLawful t u a stored idle r =
      (Reach-IsSound p Arrives t u (route-WritesLawful p) (arrives-WritesLawful a)
        (record { stored = stored; fair = subst (All (IsFair p.lowercase)) (sym idle) tt })
        r).stored
