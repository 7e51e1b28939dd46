-- ===== src/Tests/Data.antt =====
-- A platform, settings, a formatter and resources for the tests.
use Prim.Native.String.{[], ◌∷◌, char_at}
use restq.Base.{
  ◌-◌, String, Char, code, true, false, Option, none, some, ◌==◌, leb, ◌&&◌, if◌then◌else◌, if_so,
  if_not, eq_refl, eq_iff, arith,
}
use mathlib.Core.List.{[] as nil, ◌∷◌ as cons}
use restq.Multimap.{find}
use restq.Platform.{Platform, Moment}
use restq.Resource.{Resource, Resources}
use restq.Session.{Request, Session, Formatter, opened}
use restq.Settings.{Properties, IsMap}

abbrev pub lower_char : Char → Char
lower_char c =
    if leb 65 (code c) && leb (code c) 90
    then char_at "abcdefghijklmnopqrstuvwxyz" (code c - 65)
    else c

-- ASCII letters in lower case.
unfoldable pub lower : String → String
lower [] = []
lower (c ∷ s) = lower_char c ∷ lower s

abbrev value_or_nil : Option String → String
value_or_nil none = ""
value_or_nil (some v) = v

-- A platform that splits nothing, takes every URI and digests every text alike.
abbrev pub platform : Platform
platform = record {
  lowercase = lower;
  split = λ s c. cons s nil;
  uri_is_valid = λ s. true;
  uri_scheme = λ s. "http";
  has_header = λ r name. false;
  get_header = λ r name. value_or_nil (find name r.headers);
  header_number = λ r name n. n;
  query_parameters = λ r name. nil;
  query_number = λ r name n. n;
  has_path_parameter = λ r name. false;
  get_path_parameter = λ r name. "";
  regex_match = λ s t. true;
  regex_match_icase = λ s t. true;
  md5_digest = λ s. nil;
  format_date = λ n. "Thu, 01 Jan 1970 00:00:00 GMT";
  hash = λ s. 7;
}

abbrev pub moment : Moment
moment = record { time = 1000; uuid = λ n. "9a6f5a4e-0f3b-4c59-8a0e-1d2c3b4a5f60" }

-- Settings as a function from names to values.
abbrev pub properties : Properties
properties = record {
  Store = String → String;
  get_property = λ s name. s name;
  set_property = λ s name value other. if name == other then value else s other;
}

pub properties-IsMap : IsMap properties
properties-IsMap = record {
  get-set_self = λ s name value. if_so (name == name) _ _ (eq_refl name);
  get-set_ne =
      λ s name other value ne. if_not (name == other) _ _ (ground (arith, eq_iff name other));
}

abbrev pub unset : String → String
unset name = ""

-- A formatter for one resource.
abbrev pub formatter_of : Resources → Formatter
formatter_of rs = record {
  try_parse = λ s. some rs;
  compose = λ values style. "[]";
  media_type = "application/json";
}

abbrev pub request : Request
request = record {
  method = "POST";
  path = "/queues";
  version = 11;
  protocol = "HTTP";
  headers = nil;
  query_parameters = nil;
  path_parameters = nil;
  body = "{}";
}

-- A session that the rules have prepared, whose body reads as the resources given.
abbrev pub session_of : Resources → Session
session_of rs = record (opened request "127.0.0.1") {
  echo = some true;
  style = some true;
  accept_format = some (formatter_of rs);
  content_format = some (formatter_of rs);
}

abbrev pub queue : Resource
queue =
    cons ("key", "Q1")
      (cons ("message-limit", "2")
        (cons ("message-size-limit", "10")
          (cons ("subscription-limit", "1") (cons ("type", "queue") nil))))

abbrev pub subscription : Resource
subscription =
    cons ("endpoint", "http://a")
      (cons ("key", "S1") (cons ("queues", "q1") (cons ("type", "subscription") nil)))

abbrev pub state : Resource
state =
    cons ("key", "T1")
      (cons ("max-delivery-attempts", "3")
        (cons ("message-key", "M1")
          (cons ("queue-key", "Q1")
            (cons ("redelivery-interval", "30")
              (cons ("status", "pending")
                (cons ("subscription-key", "S1") (cons ("type", "state") nil)))))))
