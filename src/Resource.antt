-- ===== src/Resource.antt =====
-- source/corvusoft/restq/resource.hpp: a resource is a multimap of named properties.
use restq.Base.{String, List}
use restq.Multimap.{Multimap}

abbrev pub Resource : Type 0
Resource = Multimap

abbrev pub Resources : Type 0
Resources = List Resource

abbrev pub queue_type : String
queue_type = "queue"

abbrev pub state_type : String
state_type = "state"

abbrev pub message_type : String
message_type = "message"

abbrev pub subscription_type : String
subscription_type = "subscription"
