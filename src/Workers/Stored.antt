-- ===== src/Workers/Stored.antt =====
-- What holds of all that is stored and is kept by what is written (stl_repository.cpp).
use restq.Base.{
  String, Bool, false, [], ◌∷◌, Option, none, some, ◌≡◌, refl, subst, All, All-append, Bool-cases,
  Option-cases, inl, inr, any,
}
use mathlib.Core.Option.{some-injective, none-ne-some}
use restq.Multimap.{Multimap}
use restq.Query.{Query, has_failed, set_error_code, set_resultset}
use restq.Resource.{Resource, Resources}
use restq.Stl

-- The query keeps what the handlers put into it to find again.
abbrev pub IsSame : Query → Query → Type 0
IsSame q q' = (q'.session ≡ q.session) × (q'.related ≡ q.related)

-- The resource may get the changes, whether one has been applied before or not.
abbrev pub Accepts : (Resource → Type 0) → Multimap → Resource → Type 0
Accepts P changes r = (applied : Bool) → P (Stl.apply_changes changes (r, applied)).0

module _ (lowercase : String → String) where
  pub answer-IsSame :
      (store : Resources) (q : Query) (o : Option Resources)
      → IsSame q (Stl.answer lowercase store q o)
  unfolding Stl.answer set_error_code set_resultset
  answer-IsSame store q none = (refl, refl)
  answer-IsSame store q (some rs) = (refl, refl)

  pub create-IsSame :
      (store values : Resources) (q : Query) → IsSame q (Stl.create lowercase store values q).1
  unfolding Stl.create set_error_code set_resultset
  create-IsSame store values q = elim (Bool-cases (any (Stl.conflicts lowercase store) values)) [
    | inl e ↦ rw e (refl, refl)
    | inr e ↦ rw e (refl, refl)
  ]

  module _ (P : Resource → Type 0) where
    pub create-All :
        (store values : Resources) (q : Query)
        → All P store
        → All P values
        → All P (Stl.create lowercase store values q).0
    unfolding Stl.create
    create-All store values q h k = elim (Bool-cases (any (Stl.conflicts lowercase store) values)) [
      | inl e ↦ rw e h
      | inr e ↦ rw e (All-append P store values h k)
    ]

    replace-All :
        (r : Resource) (store after : Resources)
        → P r
        → All P store
        → Stl.replace lowercase r store ≡ some after
        → All P after
    unfolding Stl.replace
    replace-All r [] after h hs e = absurd (none-ne-some _ e)
    replace-All r (s ∷ store) after h (k, ks) e =
        elim (Bool-cases (Stl.same (Stl.key_of lowercase r) (Stl.key_of lowercase s))) [
          | inl hit ↦ subst (All P) (some-injective _ _ (rw hit at e)) (h, ks)
          | inr miss ↦ elim (Option-cases (Stl.replace lowercase r store)) [
            | inl f ↦ absurd (none-ne-some _ (rw (miss, f) at e))
            | inr (rest, f) ↦
                subst (All P) (some-injective _ _ (rw (miss, f) at e))
                  (k, replace-All r store rest h ks f)
          ]
        ]

    update_all-All :
        (changes : Multimap) (rs : Resources) (applied : Bool) (store : Resources)
        (t : Resources × Bool × Resources)
        → All (Accepts P changes) rs
        → All P store
        → Stl.update_all lowercase changes rs applied store ≡ some t
        → All P t.2
    unfolding Stl.update_all
    update_all-All changes [] applied store t a h e =
        subst (λ (t : Resources × Bool × Resources). All P t.2) (some-injective _ _ e) h
    update_all-All changes (r ∷ rs) applied store t (a, as') h e =
        let done = Stl.apply_changes changes (r, applied) in
        elim (Option-cases (Stl.replace lowercase done.0 store)) [
          | inl f ↦ absurd (none-ne-some _ (rw f at e))
          | inr (store', f) ↦
              elim (Option-cases (Stl.update_all lowercase changes rs done.1 store')) [
                | inl g ↦ absurd (none-ne-some _ (rw (f, g) at e))
                | inr (u, g) ↦
                    subst (λ (t : Resources × Bool × Resources). All P t.2)
                      (some-injective _ _ (rw (f, g) at e))
                      (update_all-All changes rs done.1 store' u as'
                        (replace-All done.0 store store' (a applied) h f) g)
              ]
        ]

    pub updated-All :
        (store : Resources) (changes : Multimap) (q q' : Query) (after : Resources)
        → (has_failed q ≡ false → All (Accepts P changes) q.resultset)
        → All P store
        → Stl.updated lowercase store changes q ≡ some (after, q')
        → All P after × IsSame q q'
    unfolding Stl.updated set_resultset
    updated-All store changes q q' after a h e = elim (Bool-cases (has_failed q)) [
      | inl f ↦
          subst (λ (t : Resources × Query). All P t.0 × IsSame q t.1)
            (some-injective _ _ (rw (f, Stl.updated) at e)) (h, (refl, refl))
      | inr ok ↦ elim (Option-cases (Stl.update_all lowercase changes q.resultset false store)) [
        | inl g ↦ absurd (none-ne-some _ (rw (ok, g) at e))
        | inr (t, g) ↦
            subst (λ (t : Resources × Query). All P t.0 × IsSame q t.1)
              (some-injective _ _ (rw (ok, g) at e))
              (update_all-All changes q.resultset false store t (a ok) h g, (refl, refl))
      ]
    ]

    erase_first-All :
        (r : Resource) (store after : Resources)
        → All P store
        → Stl.erase_first lowercase r store ≡ some after
        → All P after
    unfolding Stl.erase_first
    erase_first-All r [] after h e = absurd (none-ne-some _ e)
    erase_first-All r (s ∷ store) after (k, ks) e =
        elim (Bool-cases (Stl.same (Stl.key_of lowercase s) (Stl.key_of lowercase r))) [
          | inl hit ↦ subst (All P) (some-injective _ _ (rw hit at e)) ks
          | inr miss ↦ elim (Option-cases (Stl.erase_first lowercase r store)) [
            | inl f ↦ absurd (none-ne-some _ (rw (miss, f) at e))
            | inr (rest, f) ↦
                subst (All P) (some-injective _ _ (rw (miss, f) at e))
                  (k, erase_first-All r store rest ks f)
          ]
        ]

    erase_all-All :
        (rs store after : Resources)
        → All P store
        → Stl.erase_all lowercase rs store ≡ some after
        → All P after
    unfolding Stl.erase_all
    erase_all-All [] store after h e = subst (All P) (some-injective _ _ e) h
    erase_all-All (r ∷ rs) store after h e =
        elim (Option-cases (Stl.erase_first lowercase r store)) [
          | inl f ↦ absurd (none-ne-some _ (rw f at e))
          | inr (rest, f) ↦
              erase_all-All rs rest after (erase_first-All r store rest h f) (rw f at e)
        ]

    pub erased-All :
        (store : Resources) (q q' : Query) (after : Resources)
        → All P store
        → Stl.erased lowercase store q ≡ some (after, q')
        → All P after × IsSame q q'
    unfolding set_error_code
    erased-All store q q' after h e = elim (Bool-cases (has_failed q)) [
      | inl f ↦
          subst (λ (t : Resources × Query). All P t.0 × IsSame q t.1)
            (some-injective _ _ (rw f at e)) (h, (refl, refl))
      | inr ok ↦ elim (Option-cases (Stl.erase_all lowercase q.resultset store)) [
        | inl g ↦ absurd (none-ne-some _ (rw (ok, g) at e))
        | inr (rest, g) ↦
            subst (λ (t : Resources × Query). All P t.0 × IsSame q t.1)
              (some-injective _ _ (rw (ok, g) at e))
              (erase_all-All q.resultset store rest h g, (refl, refl))
      ]
    ]
