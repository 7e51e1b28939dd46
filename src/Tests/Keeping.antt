-- ===== src/Tests/Keeping.antt =====
-- The repository's theorems for the handlers on a store of a queue, a subscription and a message.
use restq.Base.{String, [], ◌∷◌, inl, inr, ◌≤◌, refl, All, here, there, length}
use restq.Exchange.Contract.{Finds}
use restq.Exchange.Keeping.{IsKept, read-Finds}
use restq.Multimap.{equal_range, has, value_at, lower_bound}
use restq.Number.{stoul, signed, skip_space, unsigned, scan}
use restq.Query.{Query, empty, has_failed, set_exclusive_filter, set_limit, set_resultset}
use restq.Resource.{Resource, Resources}
use restq.Stl.{candidates, answer, read}
use restq.Stl.Reading.{read_bounds}
use restq.Tests.Data.{lower, subscription}

abbrev queue_of : String → Resource
queue_of key =
    ("key", key)
    ∷ ("max-delivery-attempts", "3")
    ∷ ("message-limit", "2")
    ∷ ("message-size-limit", "10")
    ∷ ("modified", "1000")
    ∷ ("redelivery-interval", "30")
    ∷ ("subscription-limit", "1")
    ∷ ("type", "queue")
    ∷ []

abbrev message : Resource
message = ("key", "M1") ∷ ("modified", "now") ∷ ("type", "message") ∷ []

abbrev pub kept_store : Resources
kept_store = queue_of "Q1" ∷ subscription ∷ message ∷ []

abbrev queues : Query
queues = set_limit 5 (set_exclusive_filter "type" "queue" empty)

queue-IsKept : (key : String) → IsKept (queue_of key)
unfolding value_at lower_bound equal_range has stoul signed skip_space unsigned scan
queue-IsKept key = record {
  fit = record {
    keyed = (key, refl);
    typed = ("queue", refl);
    queue = λ e. (
      ((key, refl), ("30", 30, refl, refl), ("3", 3, refl, refl)),
      (2, ("2", refl, refl)),
      (10, ("10", refl, refl)),
      (1, ("1", refl, refl)),
    );
    subscription = λ e. absurd (cc);
  };
  single = λ t m. elim m [ here e ↦ cc | there n ↦ elim n [ ] ];
  dated = λ e. inr (1000, ("1000", refl, refl));
}

subscription-IsKept : IsKept subscription
unfolding value_at lower_bound equal_range has
subscription-IsKept = record {
  fit = record {
    keyed = ("S1", refl);
    typed = ("subscription", refl);
    queue = λ e. absurd (cc);
    subscription = λ e. ("http://a", refl);
  };
  single = λ t m. elim m [ here e ↦ cc | there n ↦ elim n [ ] ];
  dated = λ e. inl refl;
}

message-IsKept : IsKept message
unfolding value_at lower_bound equal_range has
message-IsKept = record {
  fit = record {
    keyed = ("M1", refl);
    typed = ("message", refl);
    queue = λ e. absurd (cc);
    subscription = λ e. absurd (cc);
  };
  single = λ t m. elim m [ here e ↦ cc | there n ↦ elim n [ ] ];
  dated = λ ne. absurd (ne refl);
}

pub kept_store-IsKept : All IsKept kept_store
kept_store-IsKept = (queue-IsKept "Q1", (subscription-IsKept, (message-IsKept, tt)))

read-Finds_example : Finds queues (read lower kept_store queues)
unfolding set_limit set_exclusive_filter
read-Finds_example = read-Finds lower kept_store queues kept_store-IsKept refl (λ e. cc)

read_bounds_example : length (read lower kept_store queues).resultset ≤ queues.limit
unfolding read candidates answer has_failed set_limit set_exclusive_filter set_resultset
read_bounds_example = read_bounds lower kept_store queues refl refl
