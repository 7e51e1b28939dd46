-- ===== src/Tests/Serving.antt =====
-- A creation of a queue, from the rules of the service to the last callback.
use restq.Base.{String, List, [], ◌∷◌, ◌≢◌, some, refl}
use restq.Exchange.Answering.Creation.{HasDefaults}
use restq.Exchange.Contract.{Replies}
use restq.Exchange.Keeping.{read-Finds}
use restq.Exchange.Running.{Repository, KeepsContract}
use restq.Query.{Query, set_fields, set_include, set_error_code, has_failed}
use restq.Stl
use restq.Stl.{conflict_code}
use restq.Tests.Keeping.{kept_store, kept_store-IsKept}
use restq.Exchange.Routing.{System}
use restq.Resource.{Resource}
use restq.Session.{Formatter}
use restq.Settings.{
  get_default_queue_message_limit, get_default_queue_message_size_limit,
  get_default_queue_subscription_limit, get_default_queue_max_delivery_attempts,
  get_default_queue_redelivery_interval,
}
use restq.Tests.Data.{platform, properties, unset, formatter_of, lower}

abbrev pub named : Resource
named = ("name", "orders") ∷ []

abbrev pub formats : List (String × Formatter)
formats = ("*/*", formatter_of (named ∷ [])) ∷ []

abbrev pub system : System
system = record { uptime = "1"; workers = "2"; cpu = "3"; memory = "4" }

unset-HasDefaults : HasDefaults platform properties unset
unfolding get_default_queue_message_limit get_default_queue_message_size_limit
    get_default_queue_subscription_limit get_default_queue_max_delivery_attempts
    get_default_queue_redelivery_interval
unset-HasDefaults = record {
  messages = (100, refl);
  size = (1024, refl);
  subscriptions = (25, refl);
  attempts = (3, refl);
  interval = ("30", refl);
}

filled : (formatter_of (named ∷ [])).try_parse "{}" ≢ some []
filled e = cc

-- The store of a queue, a subscription and a message, of which whole resources are read, and which
-- takes no change.
abbrev plain : Query → Query
plain q = set_fields [] (set_include "" q)

abbrev refused : Query → Query
refused q = set_error_code conflict_code q

abbrev fixed : Repository
fixed = record {
  Store = Unit;
  create = λ s rs q. (s, refused q);
  read = λ s q. (s, Stl.read lower kept_store (plain q));
  update = λ s r q. (s, refused q);
  destroy = λ s q. (s, refused q);
}

refused-Replies : (q : Query) → Replies q (refused q)
unfolding set_error_code has_failed
refused-Replies q = record { same_session = refl; fit = λ ok. absurd (cc) }

fixed-KeepsContract : KeepsContract fixed
unfolding set_error_code has_failed set_fields set_include
fixed-KeepsContract = record {
  creates = λ s rs q. (refused-Replies q, λ ok. absurd (cc));
  finds = λ s q.
      let (replies, dated, typed) =
        read-Finds lower kept_store (plain q) kept_store-IsKept refl (λ e. absurd (cc)) in
      (
        record { same_session = replies.same_session; fit = replies.fit },
        dated,
        λ t n none_related ok. typed t n refl ok,
      );
  updates = λ s r q. (refused-Replies q, λ t n ne ok. absurd (cc));
  replies = λ s q. refused-Replies q;
}
