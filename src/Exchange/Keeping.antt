-- ===== src/Exchange/Keeping.antt =====
-- The repository of the example (stl_repository.cpp) gives what the handlers (exchange_impl.cpp)
-- rely on.
use restq.Base.{
  String, Bool, true, false, List, [], ◌∷◌, ◌==◌, ◌&&◌, some, ◌≡◌, ◌≢◌, refl, sym, ◌∙◌, arith,
  eq_iff, All, All-append, All-mono, In_of_All, In, here, there, filter, Bool-cases, Option-cases,
  inl, inr,
}
use mathlib.Core.Bool.{true≢false}
use mathlib.Core.Option.{some-injective}
use restq.Exchange.Contract.{IsFit, IsDated, Finds}
use restq.Multimap.{equal_range, value_at}
use restq.Resource.{Resource, Resources, message_type, subscription_type}
use restq.Query.{Query, has_failed, has_fields, set_error_code, set_resultset}
use restq.Stl.{
  has_type, fields, lists, copies, subscriptions_of, related_to, including, answer, candidates,
  read, key_of,
}
use restq.Stl.Keys.{eq_of_same}
use restq.Stl.Filter.{Matches}
use restq.Stl.Reading.{page_sound, read_sound, answer_failed}

-- A stored resource: it is of one type, and dated where it is no message.
pub record IsKept (r : Resource) : Type 0 where
  pub fit : IsFit r
  pub single : (t : String) → In t (equal_range "type" r) → value_at "type" r ≡ some t
  pub dated : value_at "type" r ≢ some message_type → IsDated r

and_left : (a b : Bool) → a && b ≡ true → a ≡ true
and_left a b h = ground (arith)

passing-All :
    {A : Type 0} (P : A → Type 0) (p : A → Bool) (xs : List A)
    → ((x : A) → In x xs → p x ≡ true → P x)
    → All P (filter p xs)
passing-All P p [] f = tt
passing-All P p (x ∷ xs) f =
    let later = passing-All P p xs (λ y m. f y (there m)) in
    elim (Bool-cases (p x)) [ inl e ↦ rw e (f x (here refl) e, later) | inr e ↦ rw e later ]

module _ (lowercase : String → String) (P : Resource → Type 0) where
  copies-All : (r : Resource) (queues : Resources) → P r → All P (copies lowercase r queues)
  copies-All r [] h = tt
  copies-All r (queue ∷ queues) h = elim (Bool-cases (lists lowercase (key_of lowercase queue) r)) [
    | inl e ↦ rw e (h, copies-All r queues h)
    | inr e ↦ rw e (copies-All r queues h)
  ]

  subscriptions_of-All :
      (queues store : Resources)
      → ((r : Resource) → In r store → value_at "type" r ≡ some subscription_type → P r)
      → All P (subscriptions_of lowercase queues store)
  subscriptions_of-All queues [] f = tt
  subscriptions_of-All queues (r ∷ store) f =
      let later = subscriptions_of-All queues store (λ s m. f s (there m)) in
      elim (Bool-cases (has_type subscription_type r)) [
        | inl e ↦
            rw e (All-append P _ _ (copies-All r queues (f r (here refl) (eq_of_same _ _ e))) later)
        | inr e ↦ rw e later
      ]

  related_to-All :
      (relationship : String) (store values : Resources)
      → ((r : Resource) → In r store → value_at "type" r ≡ some relationship → P r)
      → All P (related_to lowercase relationship store values)
  related_to-All relationship store [] f = tt
  related_to-All relationship store (value ∷ values) f =
      All-append P _ _ (passing-All P _ store (λ r m h. f r m (eq_of_same _ _ (and_left _ _ h))))
        (related_to-All relationship store values f)

  -- What is included is of the type that is asked for, and stored.
  including-All :
      (relationship : String) (store values : Resources)
      → ((r : Resource) → In r store → value_at "type" r ≡ some relationship → P r)
      → All P values
      → All P (including lowercase relationship store values)
  unfolding including
  including-All relationship store values f h = elim (Bool-cases (relationship == "")) [
    | inl e ↦ rw e h
    | inr e ↦ elim (Bool-cases (relationship == subscription_type)) [
      | inl c ↦
          rw (e, c)
            (All-append P _ _ h (
              subscriptions_of-All values store
                (λ r m k. f r m (k ∙ ground (arith, eq_iff relationship subscription_type, c)))))
      | inr c ↦ rw (e, c) (All-append P _ _ h (related_to-All relationship store values f))
    ]
  ]

module _ (lowercase : String → String) where
  pub read-session : (store : Resources) (q : Query) → (read lowercase store q).session ≡ q.session
  unfolding read answer set_error_code set_resultset
  read-session store q = elim (Option-cases (candidates lowercase q.keys store)) [
    | inl e ↦ rw e refl
    | inr (rs, e) ↦ rw e refl
  ]

  -- What is read may be related to others later, in another state of the store.
  pub answer-All :
      (P : Resource → Type 0) (first store : Resources) (q : Query)
      → q.fields ≡ []
      → has_failed (answer lowercase store q (candidates lowercase q.keys first)) ≡ false
      → ((r : Resource) → In r store → value_at "type" r ≡ some q.related → P r)
      → ((r : Resource) → In r first → Matches r q.exclusive_filters → P r)
      → All P (answer lowercase store q (candidates lowercase q.keys first)).resultset
  unfolding answer fields has_fields set_resultset
  answer-All P first store q hf ok f g = elim (Option-cases (candidates lowercase q.keys first)) [
    | inl e ↦ absurd (true≢false (sym (answer_failed lowercase store q) ∙ (rw e at ok)))
    | inr (rs, e) ↦
        rw (e, hf)
          (including-All lowercase P q.related store _ f
            (All-mono _ P _ (λ r (m, h). g r m h) (page_sound lowercase first rs q e)))
  ]

  pub read-All :
      (P : Resource → Type 0) (store : Resources) (q : Query)
      → q.fields ≡ []
      → has_failed (read lowercase store q) ≡ false
      → ((r : Resource) → In r store → value_at "type" r ≡ some q.related → P r)
      → ((r : Resource) → In r store → Matches r q.exclusive_filters → P r)
      → All P (read lowercase store q).resultset
  unfolding read
  read-All P store q hf ok f g = answer-All P store store q hf ok f g

  -- A read of whole resources that relates no messages gives what the handlers rely on, where what is
  -- stored is fit, of one type, and dated if it is no message.
  pub read-Finds :
      (store : Resources) (q : Query)
      → All IsKept store
      → q.fields ≡ []
      → q.related ≢ message_type
      → Finds q (read lowercase store q)
  read-Finds store q h hf hr =
      let kept : (r : Resource) → In r store → IsKept r = λ r m. In_of_All IsKept r store h m in
      let typed : (r : Resource) (t : String)
          → In r store
          → In ("type", t) q.exclusive_filters
          → Matches r q.exclusive_filters
          → value_at "type" r ≡ some t =
        λ r t m n k. (kept r m).single t (In_of_All _ ("type", t) q.exclusive_filters k n) in
      (
        record {
          same_session = read-session store q;
          fit = λ ok.
              read-All IsFit store q hf ok (λ r m _. (kept r m).fit) (λ r m _. (kept r m).fit);
        },
        λ t n ne ok.
            read-All IsDated store q hf ok
              (λ r m e. (kept r m).dated (λ e'. hr (some-injective _ _ (sym e ∙ e'))))
              (λ r m k.
                (kept r m).dated (λ e. ne (some-injective _ _ (sym (typed r t m n k) ∙ e)))),
        λ t n none_related ok.
            All-mono _ _ _ (λ r (m, k). typed r t m n k)
              (read_sound lowercase store q hf none_related ok),
      )
