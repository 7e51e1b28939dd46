-- ===== src/Exchange/Replying.antt =====
-- The callbacks of exchange_impl.cpp that answer a request: each closes its session once.
use restq.Base.{
  String, false, [], ◌∷◌, some, ◌==◌, ◌≡◌, refl, All, Bool-cases, Option-cases, inl, inr, get_last?,
  ◌&&◌,
}
use restq.Effects.{Effect}
use restq.ErrorHandler.{find_and_invoke_for}
use restq.ErrorHandler.Laws.{IsPrepared, find_and_invoke_for-Answers}
use restq.Exchange.Answer.{
  dated, create_resource_callback, read_resource_callback, update_resource_callback, deleted,
  described,
}
use restq.Exchange.Contract.{
  IsFit, IsDated, closes_now, ClosesOnce, ClosesOnce-of_Answers, ClosesOnce-if, value_at_of_has,
  last-All,
}
use restq.Multimap.{Multimap, insert, has, value_at}
use restq.Platform.{Platform, Moment}
use restq.Query.{Query, has_failed, has_resultset}
use restq.Resource.{Resources}
use restq.Rule.{make_etag, make_last_modified, make_location, key_list}
use restq.Session.{Session}

make_etag-some : (rs : Resources) → (e : String) × (make_etag rs ≡ some e)
unfolding make_etag
make_etag-some rs = elim (Option-cases (get_last? rs)) [
  | inl e ↦ rw (e, make_etag) (_, refl)
  | inr (r, e) ↦ elim (Bool-cases (has "revision" r)) [
    | inl h ↦ let (v, q) = value_at_of_has "revision" r h in rw (e, h, q, make_etag) (_, refl)
    | inr h ↦ rw (e, h, make_etag) (_, refl)
  ]
]

key_list-some : (rs : Resources) → All IsFit rs → (ks : String) × (key_list rs ≡ some ks)
unfolding key_list
key_list-some [] h = (_, refl)
key_list-some (r ∷ rs) (h, hs) =
    let (k, e) = h.keyed in let (ks, es) = key_list-some rs hs in rw (e, es) (_, refl)

make_location-some :
    (host : String) (rs : Resources)
    → All IsFit rs
    → (l : String) × (make_location host rs ≡ some l)
unfolding make_location
make_location-some host [] h = (_, refl)
make_location-some host (r ∷ []) (h, _) = elim (Bool-cases (has "type" r && has "key" r)) [
  | inl e ↦ let (t, et) = h.typed in let (k, ek) = h.keyed in rw (e, et, ek) (_, refl)
  | inr e ↦ rw e (_, refl)
]
make_location-some host (q ∷ r ∷ rs) h = elim (Option-cases (get_last? (r ∷ rs))) [
  | inl e ↦ rw e (_, refl)
  | inr (l, e) ↦ elim (Bool-cases (has "type" l && has "key" l)) [
    | inl c ↦
        let (t, et) = (last-All IsFit (r ∷ rs) l h.1 e).typed in
        let (k1, e1) = h.0.keyed in
        let (k2, e2) = h.1.0.keyed in rw (e, c, et, e1, e2, (key_list-some rs h.1.1).1) (_, refl)
    | inr c ↦ rw (e, c) (_, refl)
  ]
]

module _ (p : Platform) (m : Moment) where
  make_last_modified-some :
      (rs : Resources) → All IsDated rs → (d : String) × (make_last_modified p m rs ≡ some d)
  unfolding make_last_modified
  make_last_modified-some rs h = elim (Option-cases (get_last? rs)) [
    | inl e ↦ rw (e, make_last_modified) (_, refl)
    | inr (r, e) ↦ elim (last-All IsDated rs r h e) [
      | inl n ↦ elim (Option-cases (value_at "modified" r)) [
        | inl v ↦ rw (e, v, make_last_modified) (_, refl)
        | inr (t, v) ↦ rw (e, v, n, make_last_modified) (_, refl)
      ]
      | inr (n, (t, v, l)) ↦ elim (Bool-cases (has "modified" r)) [
        | inl b ↦ rw (e, v, b, l, make_last_modified) (_, refl)
        | inr b ↦ rw (e, v, b, make_last_modified) (_, refl)
      ]
    ]
  ]

  dated_some :
      (rs : Resources)
      → All IsDated rs
      → (f : Multimap → Multimap) × ((headers : Multimap) (k : Multimap → Effect)
          → dated p m rs headers k ≡ k (f headers))
  dated_some [] d = (λ headers. headers, λ headers k. refl)
  dated_some (r ∷ rs) d =
      let (etag, ee) = make_etag-some (r ∷ rs) in
      let (modified, em) = make_last_modified-some (r ∷ rs) d in
      (
        λ headers. insert "Last-Modified" modified (insert "ETag" etag headers),
        λ headers k. rw (ee, em) refl,
      )

  module _ (q : Query) where
    pub refused-ClosesOnce :
        (message : String) (s : Session)
        → IsPrepared s
        → ClosesOnce (find_and_invoke_for p m q.error_code message s)
    refused-ClosesOnce message s h =
        ClosesOnce-of_Answers _ _ (find_and_invoke_for-Answers p m q.error_code message s h)

    pub deleted-ClosesOnce :
        (s : Session) → q.session ≡ some s → IsPrepared s → ClosesOnce (deleted p m q)
    unfolding deleted
    deleted-ClosesOnce s e h =
        simp e (ClosesOnce-if _ _ _ (refused-ClosesOnce _ s h) (closes_now _))

    pub described-ClosesOnce :
        (options : String) (s : Session)
        → q.session ≡ some s
        → IsPrepared s
        → ClosesOnce (described p options m q)
    unfolding described
    described-ClosesOnce options s e h =
        simp e (ClosesOnce-if _ _ _ (refused-ClosesOnce _ s h) (closes_now _))

    pub create_resource_callback-ClosesOnce :
        (s : Session)
        → q.session ≡ some s
        → IsPrepared s
        → (h : String) × (s.host ≡ some h)
        → (has_failed q ≡ false → All IsFit q.resultset)
        → ClosesOnce (create_resource_callback p m q)
    unfolding create_resource_callback
    create_resource_callback-ClosesOnce s e ((format, ef), (style, es), (echo, eo)) (host, eh) fit =
        let (etag, ee) = make_etag-some q.resultset in
        simp e (elim (Bool-cases (has_failed q)) [
          | inl b ↦ rw b (refused-ClosesOnce _ s ((format, ef), (style, es), (echo, eo)))
          | inr b ↦
              let (location, el) = make_location-some host q.resultset (fit b) in
              simp (b, ef, es, ee, eh, el, eo) (closes_now _)
        ])

    pub read_resource_callback-ClosesOnce :
        (s : Session)
        → q.session ≡ some s
        → IsPrepared s
        → (has_failed q ≡ false → All IsDated q.resultset)
        → ClosesOnce (read_resource_callback p m q)
    unfolding read_resource_callback
    read_resource_callback-ClosesOnce s e ((format, ef), (style, es), (echo, eo)) d =
        simp e (elim (Bool-cases (has_failed q)) [
          | inl b ↦ rw b (refused-ClosesOnce _ s ((format, ef), (style, es), (echo, eo)))
          | inr b ↦
              let (_, eh) = dated_some q.resultset (d b) in
              elim (Bool-cases (p.lowercase s.request.method == "head")) [
                | inl c ↦ simp (b, ef, es, eh, c) (closes_now _)
                | inr c ↦ simp (b, ef, es, eh, c, eo) (closes_now _)
              ]
        ])

    pub update_resource_callback-ClosesOnce :
        (s : Session)
        → q.session ≡ some s
        → IsPrepared s
        → (has_failed q ≡ false → All IsDated q.resultset)
        → ClosesOnce (update_resource_callback p m q)
    unfolding update_resource_callback
    update_resource_callback-ClosesOnce s e ((format, ef), (style, es), (echo, eo)) d =
        let (etag, ee) = make_etag-some q.resultset in
        simp e (elim (Bool-cases (has_failed q)) [
          | inl b ↦ rw b (refused-ClosesOnce _ s ((format, ef), (style, es), (echo, eo)))
          | inr b ↦
              let (modified, em) = make_last_modified-some q.resultset (d b) in
              elim (Bool-cases (has_resultset q)) [
                | inl c ↦ simp (b, em, c, ef, es, ee, eo) (closes_now _)
                | inr c ↦ simp (b, em, c) (closes_now _)
              ]
        ])
