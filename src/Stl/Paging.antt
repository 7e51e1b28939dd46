-- ===== src/Stl/Paging.antt =====
-- The page of a read.
use restq.Base.{
  ℕ, zero, suc, ◌+◌, ◌≤◌, [], ◌∷◌, ◌++◌, Bool-cases, inl, inr, eqb, ltb, if_so, ◌&&◌, not, length,
  take, drop, ◌≡◌, refl, sym, ◌∙◌, arith, length-append, append-nil, append_assoc,
}
use restq.Resource.{Resources}
use restq.Stl.{fill, page}

fill-take :
    (limit k : ℕ) (values rest : Resources)
    → limit ≡ length values + k
    → fill limit values rest ≡ values ++ take k rest
unfolding fill
fill-take limit zero values [] h = sym (append-nil values)
fill-take limit (suc k) values [] h = sym (append-nil values)
fill-take limit zero values (r ∷ rest) h = ground (arith, append-nil values)
fill-take limit (suc k) values (r ∷ rest) h = ground (
  arith,
  fill-take limit k (values ++ r ∷ []) rest,
  length-append values (r ∷ []),
  append_assoc values (r ∷ []) (take k rest),
)

drop_past : (n : ℕ) (rs : Resources) → length rs ≤ n → drop n rs ≡ []
drop_past zero [] h = refl
drop_past (suc n) [] h = refl
drop_past zero (r ∷ rs) h = absurd (omega arith)
drop_past (suc n) (r ∷ rs) h = drop_past n rs (omega arith)

-- A page is what the two numbers say, also past the end and for an empty page.
pub page-take-drop :
    (index limit : ℕ) (rs : Resources) → page index limit rs ≡ take limit (drop index rs)
unfolding page
page-take-drop index zero rs = ground arith
page-take-drop index (suc k) rs = elim (Bool-cases (ltb index (length rs))) [
  | inl e ↦
      if_so (ltb index (length rs) && not (eqb (suc k) 0)) _ _ (ground arith)
      ∙ fill-take (suc k) (suc k) [] (drop index rs) (omega arith)
  | inr e ↦ rw (e, drop_past index rs (ground arith))
]
