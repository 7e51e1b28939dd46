-- ===== src/Workers/Crashing.antt =====
-- Two ways in which tasks get in one another's way (stl_repository.cpp, exchange_impl.cpp).
use restq.Base.{
  ℕ, String, Bool, true, false, List, [], ◌∷◌, Option, some, none, ◌==◌, ◌≡◌, refl, ◌∙◌, ap, arith,
  eq_iff, All, In, here, there, Bool-cases, inl, inr, less, subst, if◌then◌else◌,
}
use restq.Dispatch.{pending, route_query}
use restq.Effects.{Effect, get}
use restq.Exchange.Contract.{In-insert}
use restq.Exchange.Make.{make_message, message_of, forwarded}
use restq.Multimap.{Multimap, insert, equal_range, value_at}
use restq.Multimap.Laws.{IsSorted, value_at_first}
use restq.Platform.{Platform, Moment}
use restq.Query.{Query, has_failed, set_exclusive_filter, set_limit}
use restq.Resource.{Resource, Resources, state_type}
use restq.Session.{Session}
use restq.Stl
use restq.Stl.Changing.{apply_change-IsSorted, equal_range-apply_change}
use restq.Stl.Filter.{keeps_exclusive}
use restq.Validator.{is_valid_forwarding_header}
use restq.Workers.{Task, advance}

-- What the changes leave of the key of a resource in order.
key-apply_changes :
    (changes : Multimap) (s : Resource × Bool) (k : String) (ks : List String)
    → All (λ e. ("key" == e.0) ≡ false) changes
    → IsSorted s.0
    → equal_range "key" s.0 ≡ k ∷ ks
    → value_at "key" (Stl.apply_changes changes s).0 ≡ some k
unfolding Stl.apply_changes
key-apply_changes [] (r, b) k ks a sorted e = value_at_first "key" k ks r sorted e
key-apply_changes ((name, value) ∷ changes) s k ks (d, a) sorted e =
    key-apply_changes changes (Stl.apply_change name value s) k ks a
      (apply_change-IsSorted name value s sorted)
      (equal_range-apply_change "key" name value s d sorted ∙ e)

module _ (p : Platform) where
  replace-none :
      (r : Resource) (store : Resources)
      → All (λ s. Stl.same (Stl.key_of p.lowercase r) (Stl.key_of p.lowercase s) ≡ false) store
      → Stl.replace p.lowercase r store ≡ none
  unfolding Stl.replace
  replace-none r [] h = refl
  replace-none r (s ∷ store) (h, hs) = rw (h, replace-none r store hs)

  key_of-value_at :
      (r : Resource) (key : String)
      → value_at "key" r ≡ some key
      → some (p.lowercase key) ≡ Stl.key_of p.lowercase r
  unfolding Stl.key_of
  key_of-value_at r key e = rw e refl

  -- An update whose first resource has been deleted since it was read, so that nothing stored has its
  -- key any more, writes through the end of the list, whatever it changes but the key.
  pub update_crashes :
      (m : Moment) (code : ℕ) (store found : Resources) (changes : Multimap) (q : Query)
      (k : Moment → Query → Effect) (r : Resource) (key : String) (keys : List String)
      → has_failed q ≡ false
      → q.resultset ≡ r ∷ found
      → IsSorted r
      → equal_range "key" r ≡ key ∷ keys
      → All (λ e. ("key" == e.0) ≡ false) changes
      → All (λ s. Stl.same (some (p.lowercase key)) (Stl.key_of p.lowercase s) ≡ false) store
      → advance p m code store (Task.updating changes q k) ≡ (store, Task.crashed ∷ [])
  unfolding advance Stl.updated Stl.update_all
  update_crashes m code store found changes q k r key keys ok e sorted ek a gone =
      let changed = (Stl.apply_changes changes (r, false)).0 in
      let same =
        key_of-value_at changed key (key-apply_changes changes (r, false) key keys a sorted ek) in
      let missed = replace-none changed store (
        subst
          (λ (o : Option String). All (λ s. Stl.same o (Stl.key_of p.lowercase s) ≡ false) store)
          same gone) in
      rw (ok, e, missed) refl

In-insert_other : (e : String × String) (k v : String) (m : Multimap) → In e m → In e (insert k v m)
unfolding insert
In-insert_other e k v [] h = there h
In-insert_other e k v ((j, w) ∷ m) (here q) = elim (Bool-cases (less k j)) [
  | inl c ↦ rw c (there (here q))
  | inr c ↦ rw c (here q)
]
In-insert_other e k v ((j, w) ∷ m) (there n) = elim (Bool-cases (less k j)) [
  | inl c ↦ rw c (there (there n))
  | inr c ↦ rw c (there (In-insert_other e k v m n))
]

In-equal_range : (k v : String) (m : Multimap) → In (k, v) m → In v (equal_range k m)
unfolding equal_range
In-equal_range k v [] h = elim h [ ]
In-equal_range k v ((j, w) ∷ m) (here e) = elim (Bool-cases (k == j)) [
  | inl c ↦ rw c (here (ap (λ (x : String × String). x.1) e))
  | inr c ↦
      let same : k ≡ j = ap (λ (x : String × String). x.0) e in absurd (ground (arith, eq_iff k j))
]
In-equal_range k v ((j, w) ∷ m) (there h) = elim (Bool-cases (k == j)) [
  | inl c ↦ rw c (there (In-equal_range k v m h))
  | inr c ↦ rw c (In-equal_range k v m h)
]

In-forwarded_of :
    (p : Platform) (headers : Multimap) (e : String × String) (r : Resource)
    → In e r
    → In e (forwarded p headers r)
unfolding forwarded
In-forwarded_of p [] e r h = h
In-forwarded_of p ((name, value) ∷ headers) e r h =
    elim (Bool-cases (is_valid_forwarding_header p name)) [
      | inl c ↦
          rw c
            (In-forwarded_of p headers e (insert name value r) (In-insert_other e name value r h))
      | inr c ↦ rw c (In-forwarded_of p headers e r h)
    ]

In-forwarded :
    (p : Platform) (headers : Multimap) (name value : String) (r : Resource)
    → is_valid_forwarding_header p name ≡ true
    → In (name, value) headers
    → In (name, value) (forwarded p headers r)
unfolding forwarded
In-forwarded p [] name value r v h = elim h [ ]
In-forwarded p ((j, w) ∷ headers) name value r v (here e) =
    let same : (name, value) ≡ (j, w) = e in
    subst
      (λ (x : String × String).
        In (name, value)
          (forwarded p headers (if is_valid_forwarding_header p x.0 then insert x.0 x.1 r else r)))
      e
      (rw v
        (In-forwarded_of p headers (name, value) (insert name value r) (In-insert name value r)))
In-forwarded p ((j, w) ∷ headers) name value r v (there h) = In-forwarded p headers name value _ v h

found_by_round :
    (r : Resource)
    → In ("type", state_type) r
    → In ("status", pending) r
    → Stl.keeps (route_query pending).inclusive_filters (route_query pending).exclusive_filters r
      ≡ true
unfolding route_query set_exclusive_filter set_limit insert
found_by_round r ht hs =
    (keeps_exclusive r (("status", pending) ∷ ("type", state_type) ∷ [])).1
      (In-equal_range "status" pending r hs, (In-equal_range "type" state_type r ht, tt))

-- The message of a request that has the headers `type: state` and `status: pending`, which are
-- forwarded where restbed's lower case leaves the two names as they are, is found by the rounds of the
-- dispatcher as if it were a pending state.
pub forged_state :
    (p : Platform) (m : Moment) (i : ℕ) (s : Session) (parameters : Multimap)
    (k : Resource → Effect)
    → s.filters ≡ some parameters
    → p.lowercase "type" ≡ "type"
    → p.lowercase "status" ≡ "status"
    → In ("type", state_type) s.request.headers
    → In ("status", pending) s.request.headers
    → (message : Resource) × (make_message p m i s k ≡ k message)
      × (Stl.keeps
            (route_query pending).inclusive_filters
            (route_query pending).exclusive_filters
            message
          ≡ true)
unfolding make_message is_valid_forwarding_header
forged_state p m i s parameters k f vt vs ht hs = (
  message_of p m i s parameters,
  ap (λ (o : Option Multimap). get o (λ parameters. k (message_of p m i s parameters))) f,
  found_by_round _
      (In-insert_other ("type", state_type) "query" _ _
        (In-forwarded p s.request.headers "type" state_type _ (rw vt refl) ht))
      (In-insert_other ("status", pending) "query" _ _
        (In-forwarded p s.request.headers "status" pending _ (rw vs refl) hs)),
)
