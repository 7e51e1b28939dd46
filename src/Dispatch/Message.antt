-- ===== src/Dispatch/Message.antt =====
-- The request that is sent to a subscriber, from a message and its state (dispatch_impl.cpp).
use Prim.Native.String.{◌++◌ as join}
use restq.Base.{String, List, [], ◌∷◌, Option, none, some}
use restq.Effects.{Effect, Delivery, at}
use restq.Multimap.{value_at, erase, of_list}
use restq.Platform.{Platform, Moment}
use restq.Resource.{Resource}
use restq.Rule.{make_date, make_content_length}

-- `name_value[ 0 ]` and `name_value[ 1 ]` of each parameter; an index past the end is undefined.
unfoldable pub pairs : Platform → List String → Option (List (String × String))
pairs p [] = some []
pairs p (parameter ∷ parameters) = join_pair (p.split parameter "=") (pairs p parameters)
  where
    join_pair : List String → Option (List (String × String)) → Option (List (String × String))
    join_pair (name ∷ value ∷ more) (some rest) = some ((name, value) ∷ rest)
    join_pair _ _ = none

-- The properties that are not forwarded as headers.
unfoldable pub strip : Resource → Resource
strip message = erase "protocol-version" (
    erase "last-modified" (
      erase "destination" (
        erase "protocol" (
          erase "checksum" (
            erase "origin" (
              erase "query" (erase "size" (erase "data" (erase "type" (erase "key" message))))))))))

-- The properties are read as the source's braces list them; the reads commute.
unfoldable pub make_delivery :
    Platform → Moment → Resource → Resource → (Delivery → Effect) → Effect
make_delivery p m state message k = at (value_at "subscription-endpoint" state) λ uri.
    at (value_at "data" message) λ body. at (value_at "author" message) λ author.
      at (value_at "origin" message) λ origin. at (value_at "checksum" message) λ checksum.
        at (value_at "content-type" message) λ content_type.
          at (value_at "modified" message) λ modified. at (value_at "protocol" message) λ protocol.
            at (value_at "protocol-version" message) λ version.
              at (value_at "destination" message) λ destination.
                at (value_at "query" message) λ query.
                  at (pairs p (p.split query "&")) λ parameters. k (record {
                    uri = uri;
                    body = body;
                    headers = of_list (
                        ("Expires", "0")
                        ∷ ("Pragma", "no-cache")
                        ∷ ("Connection", "close")
                        ∷ ("Date", make_date p m)
                        ∷ ("Cache-Control", "private,max-age=0,no-cache,no-store")
                        ∷ ("From", author)
                        ∷ ("Referer", origin)
                        ∷ ("Content-MD5", checksum)
                        ∷ ("Content-Length", make_content_length body)
                        ∷ ("Content-Type", content_type)
                        ∷ ("Last-Modified", modified)
                        ∷ ("Via", join protocol (join "/" (join version (join " " destination))))
                        ∷ []);
                    parameters = parameters;
                    properties = strip message;
                  })
