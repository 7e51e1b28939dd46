-- ===== src/Dispatch/Once.antt =====
-- One state is claimed by one round of the dispatcher, where the repository is that of the example.
use restq.Base.{String, [], ◌∷◌, some, ◌≡◌, refl, arith, All, here, find_if, eq_iff}
use restq.Dispatch.{route_query, inflight, pending}
use restq.Multimap.{assign, insert}
use restq.Query.{Query, set_key, set_resultset, set_limit, set_exclusive_filter}
use restq.Resource.{Resource, Resources, state_type}
use restq.Stl.{answers, update, updated, found}
use restq.Stl.Claiming.{update_claims_once}
use restq.Stl.Racing.{updated_twice}
use restq.Stl.Filter.{keeps_exclusive}
use restq.Stl.Updating.{HasOnly, IsStored}

-- The query with which a round claims the state that it has read.
abbrev pub claim_query : String → String → Resources → Query
claim_query status key rs = set_key key (set_resultset rs (route_query status))

module _ (lowercase : String → String) where
  -- Where two rounds of the dispatcher have read one pending state, which has one status and one type
  -- and is the first that answers its key in a store of ordered resources with keys, the first to
  -- claim it gets it, in flight; the second gets an empty result and changes nothing.
  pub claimed_once :
      (key : String) (r : Resource) (store seen seen' : Resources)
      → All IsStored store
      → find_if (answers lowercase key) store ≡ some r
      → HasOnly "status" pending r
      → HasOnly "type" state_type r
      → (store' : Resources) × (update lowercase store
            (("status", inflight) ∷ [])
            (claim_query pending key seen)
          ≡ some (
            store',
            set_resultset
                (assign "status" inflight r ∷ [])
                (found lowercase store (claim_query pending key seen)),
          ))
        × (update lowercase store' (("status", inflight) ∷ []) (claim_query pending key seen')
            ≡ some
                (store', set_resultset [] (found lowercase store' (claim_query pending key seen'))))
  unfolding route_query set_key set_resultset set_limit set_exclusive_filter insert
  claimed_once key r store seen seen' hs f h ht =
      update_claims_once lowercase key "status" pending inflight r store
        (claim_query pending key seen) (claim_query pending key seen') 0 (("status", inflight) ∷ [])
        hs f h (λ e. ground (arith, eq_iff "pending" "in-flight"))
        (λ e. ground (arith, eq_iff "status" "key"))
        (λ e. ground (arith, eq_iff "status" "modified"))
        (λ e. ground (arith, eq_iff "status" "revision")) refl refl refl refl refl refl
        ((keeps_exclusive r (("status", pending) ∷ ("type", state_type) ∷ [])).1
          (rw h (here refl), (rw ht (here refl), tt)))
        refl refl refl (here refl)

  -- Where two rounds of the dispatcher have read one pending state, which has one status and one type
  -- and is the first that answers its key in a store of ordered resources with keys, and the reads of
  -- both claims come before either write, both rounds are told that they have put it in flight.
  pub claimed_twice :
      (key : String) (r : Resource) (store seen seen' : Resources)
      → All IsStored store
      → find_if (answers lowercase key) store ≡ some r
      → HasOnly "status" pending r
      → HasOnly "type" state_type r
      → (store' : Resources) × (updated lowercase store
            (("status", inflight) ∷ [])
            (found lowercase store (claim_query pending key seen))
          ≡ some (
            store',
            set_resultset
                (assign "status" inflight r ∷ [])
                (found lowercase store (claim_query pending key seen)),
          ))
        × (updated lowercase store'
              (("status", inflight) ∷ [])
              (found lowercase store (claim_query pending key seen'))
            ≡ some (
              store',
              set_resultset
                  (assign "status" inflight r ∷ [])
                  (found lowercase store (claim_query pending key seen')),
            ))
  unfolding route_query set_key set_resultset set_limit set_exclusive_filter insert
  claimed_twice key r store seen seen' hs f h ht =
      let kept =
        (keeps_exclusive r (("status", pending) ∷ ("type", state_type) ∷ [])).1
          (rw h (here refl), (rw ht (here refl), tt)) in
      updated_twice lowercase key "status" pending inflight r store (claim_query pending key seen)
        (claim_query pending key seen') 0 0 hs f h
        (λ e. ground (arith, eq_iff "pending" "in-flight"))
        (λ e. ground (arith, eq_iff "status" "key"))
        (λ e. ground (arith, eq_iff "status" "modified"))
        (λ e. ground (arith, eq_iff "status" "revision")) (refl, refl, refl, refl, refl, refl) kept
        (refl, refl, refl, refl, refl, refl) kept
