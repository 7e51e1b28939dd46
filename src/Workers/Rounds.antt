-- ===== src/Workers/Rounds.antt =====
-- A round of the dispatcher (dispatch_impl.cpp) writes lawful resources only.
use restq.Base.{
  ℕ, String, not, ◌||◌, ◌&&◌, [], ◌==◌, ltb, leb, eqb, refl, inl, inr, here, there, All, get_last?,
  if◌then◌else◌,
}
use restq.Dispatch.{
  redeliver_at, holds, to_signed, is_past, route, router, claim, claimed, dispatch, settle,
  settle_as, settled, retry, give_up, pending, suspended, dispatched, rejected, unreachable,
  is_final,
}
use restq.Dispatch.Message.{make_delivery, pairs}
use restq.Effects.{Effect, Delivery}
use restq.Multimap.{insert, value_at}
use restq.Number.{stoul}
use restq.Platform.{Platform, Moment}
use restq.Query.{Query, has_failed, has_resultset}
use restq.Resource.{Resource}
use restq.Workers.Closing.{WritesLawful-if, WritesLawful-at, WritesLawful-get}
use restq.Workers.Lawful.{IsTame, IsStatus}
use restq.Workers.Writing.{WritesLawful}

settled-WritesLawful :
    (status : String) (m : Moment) (q : Query) → WritesLawful (settled status m q)
unfolding settled
settled-WritesLawful status m q = WritesLawful-if (has_failed q) _ _ ending ending
  where
    ending : WritesLawful (
        if is_final status
        then Effect.destroy q (λ m' q'. Effect.schedule pending Effect.done)
        else Effect.schedule pending Effect.done)
    ending = WritesLawful-if (is_final status) _ _ (λ m' q' s. tt) tt

settle_as-WritesLawful :
    (change : Resource) (status : String) (q : Query)
    → All IsTame (insert "status" status change)
    → WritesLawful (settle_as change status q)
unfolding settle_as
settle_as-WritesLawful change status q h = (inl h, λ m q' s. settled-WritesLawful status m q')

status-IsTame : (status : String) → IsStatus status → All IsTame (insert "status" status [])
unfolding insert
status-IsTame status h = ((refl, (refl, (refl, (refl, (refl, (refl, tt))))), inr (refl, h)), tt)

retry-WritesLawful :
    (m : Moment) (attempts interval : ℕ) (q : Query) → WritesLawful (retry m attempts interval q)
unfolding retry insert
retry-WritesLawful m attempts interval q = WritesLawful-at (redeliver_at m.time interval) _ λ time.
    settle_as-WritesLawful _ suspended q (
      (refl, (refl, (refl, (refl, (refl, (refl, tt))))), inl refl),
      (
        (refl, (refl, (refl, (refl, (refl, (refl, tt))))), inl refl),
        (
          (
            refl,
            (refl, (refl, (refl, (refl, (refl, tt))))),
            inr (refl, there (there (there (here refl)))),
          ),
          tt,
        ),
      ),
    )

give_up-WritesLawful : (key : String) (q : Query) → WritesLawful (give_up key q)
unfolding give_up
give_up-WritesLawful key q = (
  inl ((refl, (refl, (refl, (refl, (refl, (refl, tt))))), inl refl), tt),
  λ m q' s. WritesLawful-if (has_failed q') _ _ ending ending,
)
  where
    ending : WritesLawful (settle_as [] unreachable q)
    ending =
        settle_as-WritesLawful [] unreachable q
          (status-IsTame unreachable (there (there (there (there (there (here refl)))))))

settle-WritesLawful :
    (state : Resource) (q : Query) (m : Moment) (code : ℕ) → WritesLawful (settle state q m code)
unfolding settle
settle-WritesLawful state q m code = WritesLawful-at (value_at "subscription-key" state) _ λ key.
    WritesLawful-at (value_at "message-key" state) _ λ message.
      WritesLawful-if (eqb code 202) _ _
        (settle_as-WritesLawful [] dispatched q
          (status-IsTame dispatched (there (there (there (there (here refl)))))))
        (WritesLawful-if (leb 200 code && leb code 299) _ _
          (settle_as-WritesLawful [] rejected q (status-IsTame rejected (there (here refl))))
          (WritesLawful-at (value_at "max-delivery-attempts" state) _ λ text.
            WritesLawful-get (stoul text) _ λ attempts.
              WritesLawful-if (ltb 1 attempts) _ _
                (WritesLawful-at (value_at "redelivery-interval" state) _ λ interval_text.
                  WritesLawful-get (stoul interval_text) _
                    λ interval. retry-WritesLawful m attempts interval q)
                (give_up-WritesLawful key q)))

make_delivery-WritesLawful :
    (p : Platform) (m : Moment) (state message : Resource) (k : Delivery → Effect)
    → ((d : Delivery) → WritesLawful (k d))
    → WritesLawful (make_delivery p m state message k)
unfolding make_delivery
make_delivery-WritesLawful p m state message k h =
    WritesLawful-at (value_at "subscription-endpoint" state) _ λ uri.
      WritesLawful-at (value_at "data" message) _ λ body.
        WritesLawful-at (value_at "author" message) _ λ author.
          WritesLawful-at (value_at "origin" message) _ λ origin.
            WritesLawful-at (value_at "checksum" message) _ λ checksum.
              WritesLawful-at (value_at "content-type" message) _ λ content_type.
                WritesLawful-at (value_at "modified" message) _ λ modified.
                  WritesLawful-at (value_at "protocol" message) _ λ protocol.
                    WritesLawful-at (value_at "protocol-version" message) _ λ version.
                      WritesLawful-at (value_at "destination" message) _ λ destination.
                        WritesLawful-at (value_at "query" message) _
                          λ query. WritesLawful-at (pairs p (p.split query "&")) _ λ parameters. h _

module _ (p : Platform) where
  dispatch-WritesLawful :
      (key : String) (state : Resource) (m : Moment) (q : Query)
      → WritesLawful (dispatch p key state m q)
  unfolding dispatch
  dispatch-WritesLawful key state m q =
      WritesLawful-if (has_failed q || not (has_resultset q)) _ _ (λ m' q' s. tt)
        (WritesLawful-at (get_last? q.resultset) _ λ message.
          make_delivery-WritesLawful p m state message _
            λ d m' code. settle-WritesLawful state _ m' code)

  claim-WritesLawful : (key : String) (q : Query) → WritesLawful (claim p key q)
  unfolding claim claimed
  claim-WritesLawful key q = (
    inl (
      (refl, (refl, (refl, (refl, (refl, (refl, tt))))), inr (refl, there (there (here refl)))),
      tt,
    ),
    λ m q' s. WritesLawful-if (has_failed q') _ _ tt (
        WritesLawful-if (not (has_resultset q')) _ _ tt (
          WritesLawful-at (get_last? q'.resultset) _ λ state.
            WritesLawful-at (value_at "message-key" state) _
              λ message. λ m' q'' s'. dispatch-WritesLawful key state m' q'')),
  )

  pub route-WritesLawful : (status : String) → WritesLawful (route p status)
  unfolding route router
  route-WritesLawful status m q s = WritesLawful-if (has_failed q) _ _ tt (
      WritesLawful-if (not (has_resultset q)) _ _ tt (
        WritesLawful-at (get_last? q.resultset) _ λ state.
          WritesLawful-at (value_at "key" state) _ λ key.
            WritesLawful-at (value_at "status" state) _ λ found.
              WritesLawful-if (found == suspended) _ _
                (WritesLawful-at (value_at "redeliver-at" state) _ λ text.
                  WritesLawful-get (stoul text) _ λ time.
                    WritesLawful-if (holds (to_signed time)) _ _
                      (WritesLawful-if (is_past m.time (to_signed time)) _ _ tt
                        (claim-WritesLawful key q))
                      tt)
                (claim-WritesLawful key q)))
