-- ===== src/Workers/Messages.antt =====
-- The messages and states that the exchange makes (exchange_impl.cpp) are lawful.
use restq.Base.{ℕ, String, [], ◌∷◌, refl, ◌∙◌, arith, eq_iff, inl, inr, here, Bool-cases}
use restq.Dispatch.{pending}
use restq.Effects.{Effect}
use restq.Exchange.Make.{forwarded, make_message, make_state}
use restq.Multimap.{Multimap, insert, equal_range}
use restq.Multimap.Laws.{IsSorted, insert-IsSorted, equal_range-insert}
use restq.Platform.{Platform, Moment}
use restq.Resource.{Resource, state_type, message_type}
use restq.Session.{Session}
use restq.Validator.{is_valid_forwarding_header}
use restq.Workers.Closing.{WritesLawful-get}
use restq.Workers.Lawful.{IsLawful}
use restq.Workers.Writing.{WritesLawful}
use restq.Workers.Making.{IsPlain, IsPlain-insert, IsPlain-typed}

forwarded-IsPlain :
    (p : Platform) (headers : Multimap) (r : Resource) → IsPlain r → IsPlain (forwarded p headers r)
unfolding forwarded
forwarded-IsPlain p [] r h = h
forwarded-IsPlain p ((name, value) ∷ headers) r h =
    elim (Bool-cases (is_valid_forwarding_header p name)) [
      | inl c ↦
          rw c (forwarded-IsPlain p headers (insert name value r) (IsPlain-insert name value r h))
      | inr c ↦ rw c (forwarded-IsPlain p headers r h)
    ]

-- A message is lawful, whatever its headers and parameters are.
pub make_message-WritesLawful :
    (p : Platform) (m : Moment) (i : ℕ) (s : Session) (k : Resource → Effect)
    → ((r : Resource) → IsLawful r → WritesLawful (k r))
    → WritesLawful (make_message p m i s k)
unfolding make_message equal_range
make_message-WritesLawful p m i s k h = WritesLawful-get s.filters _ λ parameters.
    let plain = IsPlain-insert "query" _ _ (
      forwarded-IsPlain p s.request.headers _ (
        IsPlain-insert _ _ _ (
          IsPlain-insert _ _ _ (
            IsPlain-insert _ _ _ (
              IsPlain-insert _ _ _ (
                IsPlain-insert _ _ _ (
                  IsPlain-insert _ _ _ (
                    IsPlain-insert _ _ _
                      (IsPlain-insert _ _ _ (IsPlain-insert _ _ _ base)))))))))) in
    h _ (plain.0, inl plain.1)
  where
    base :
        IsPlain
          (insert "type" message_type (insert "data" s.request.body (insert "key" (m.uuid i) [])))
    base =
        IsPlain-typed message_type _
          (insert-IsSorted "data" _ _ (insert-IsSorted "key" (m.uuid i) [] tt))
          (equal_range-insert "type" "data" _ _ (insert-IsSorted "key" (m.uuid i) [] tt)
            ∙ equal_range-insert "type" "key" _ [] tt)
          (λ e. ground (arith, eq_iff message_type state_type))

make_state-IsSorted :
    (key queue_key interval attempts message_key subscription_key endpoint : String)
    → IsSorted (make_state key queue_key interval attempts message_key subscription_key endpoint)
unfolding make_state
make_state-IsSorted key qk interval attempts mk sk endpoint = insert-IsSorted _ _ _ (
    insert-IsSorted _ _ _ (
      insert-IsSorted _ _ _ (
        insert-IsSorted _ _ _ (
          insert-IsSorted _ _ _ (
            insert-IsSorted _ _ _ (
              insert-IsSorted _ _ _
                (insert-IsSorted "key" key _ (insert-IsSorted "type" state_type [] tt))))))))

pub make_state-IsLawful :
    (key queue_key interval attempts message_key subscription_key endpoint : String)
    → IsLawful (make_state key queue_key interval attempts message_key subscription_key endpoint)
unfolding make_state insert equal_range
make_state-IsLawful key qk interval attempts mk sk endpoint = (
  make_state-IsSorted key qk interval attempts mk sk endpoint,
  inr (
    refl,
    (pending, refl, here refl),
    ((key, refl), ((qk, refl), ((mk, refl), ((sk, refl), ((endpoint, refl), tt))))),
  ),
)
