-- ===== src/Json/Shape.antt =====
-- JSONFormatter::try_parse of example/exchange/source/json_formatter.cpp: which documents it takes.
use restq.Base.{
  String, Bool, true, false, List, [], ◌∷◌, Option, none, some, ◌≡◌, refl, sym, Option-cases, inl,
  inr, all, ◌&&◌, ◌>>=◌,
}
use restq.Json.{
  Library, View, entry, entries_of, field_text, parse_items, parse_property, parse_properties,
  parse_objects, parse_data, try_parse,
}
use restq.Multimap.{insert}
use restq.Resource.{Resource, Resources}

abbrev pub is_some {ℓ} : {A : Type ℓ} → Option A → Bool
is_some none = false
is_some (some a) = true

abbrev pub is_scalar : {V D : Type 0} → View V D → Bool
is_scalar View.absent = false
is_scalar (View.array vs) = false
is_scalar (View.object es) = false
is_scalar (View.text s) = true
is_scalar (View.boolean b) = true
is_scalar (View.integer n) = true
is_scalar (View.real d) = true

module _ (lib : Library) where
  open lib use {Value, view}

  -- A scalar, or an array of scalars.
  abbrev pub is_property : View Value lib.Double → Bool
  is_property (View.array vs) = all (λ v. is_scalar (view v)) vs
  is_property v = is_scalar v

  abbrev pub is_flat : View Value lib.Double → Bool
  is_flat (View.object es) = all (λ e. is_property (view e.1)) es
  is_flat _ = false

  -- An object of such properties, or an array of such objects.
  abbrev pub is_data : View Value lib.Double → Bool
  is_data (View.array vs) = all (λ v. is_flat (view v)) vs
  is_data v = is_flat v

  abbrev pub is_root : Option Value → Bool
  is_root none = false
  is_root (some v) = is_data (view v)

  -- The document as it has to be.
  abbrev pub is_document : Option Value → Bool
  is_document none = false
  is_document (some json) = is_root (entry "data" (entries_of (view json)))

module _ (lib : Library) (lowercase : String → String) where
  open lib use {Value, view}

  field_text_scalar :
      (v : View Value lib.Double) → is_some (field_text lib lowercase v) ≡ is_scalar v
  unfolding field_text
  field_text_scalar View.absent = refl
  field_text_scalar (View.array vs) = refl
  field_text_scalar (View.object es) = refl
  field_text_scalar (View.text s) = refl
  field_text_scalar (View.boolean b) = refl
  field_text_scalar (View.integer n) = refl
  field_text_scalar (View.real d) = refl

  parse_items_scalars :
      (name : String) (items : List Value) (r : Resource)
      → is_some (parse_items lib lowercase name items r) ≡ all (λ v. is_scalar (view v)) items
  unfolding parse_items
  parse_items_scalars name [] r = refl
  parse_items_scalars name (v ∷ vs) r = elim (Option-cases (field_text lib lowercase (view v))) [
    | inl e ↦ rw (e, sym (field_text_scalar (view v)), e) refl
    | inr (t, e) ↦
        rw (e, sym (field_text_scalar (view v)), e) (parse_items_scalars name vs (insert name t r))
  ]

  parse_property_shape :
      (name : String) (v : View Value lib.Double) (r : Resource)
      → is_some (parse_property lib lowercase name v r) ≡ is_property lib v
  unfolding parse_property field_text
  parse_property_shape name (View.array vs) r = parse_items_scalars name vs r
  parse_property_shape name (View.object es) r = refl
  parse_property_shape name View.absent r = refl
  parse_property_shape name (View.text s) r = refl
  parse_property_shape name (View.boolean b) r = refl
  parse_property_shape name (View.integer n) r = refl
  parse_property_shape name (View.real d) r = refl

  parse_properties_shape :
      (es : List (String × Value)) (r : Resource)
      → is_some (parse_properties lib lowercase es r) ≡ all (λ e. is_property lib (view e.1)) es
  unfolding parse_properties
  parse_properties_shape [] r = refl
  parse_properties_shape ((name, v) ∷ es) r =
      elim (Option-cases (parse_property lib lowercase name (view v) r)) [
        | inl e ↦ rw (e, sym (parse_property_shape name (view v) r), e) refl
        | inr (r', e) ↦
            rw (e, sym (parse_property_shape name (view v) r), e) (parse_properties_shape es r')
      ]

  -- One object, and what is made of the objects behind it.
  object_then_shape :
      (w : View Value lib.Double) (later : Option Resources) (b : Bool)
      → is_some later ≡ b
      → is_some (elim w [
        | View.object es ↦ (do r ← parse_properties lib lowercase es []; rs ← later; some (r ∷ rs))
        | other ↦ none
      ])
        ≡ (is_flat lib w && b)
  object_then_shape (View.object es) later b h =
      elim (Option-cases (parse_properties lib lowercase es [])) [
        | inl e ↦ rw (e, sym (parse_properties_shape es []), e) refl
        | inr (r, e) ↦ rw (e, sym (parse_properties_shape es []), e) (whole r later h)
      ]
    where
      whole :
          (r : Resource) (o : Option Resources)
          → is_some o ≡ b
          → is_some (o >>= λ rs. some (r ∷ rs)) ≡ b
      whole r none e = e
      whole r (some rs) e = e
  object_then_shape (View.array vs) later b h = refl
  object_then_shape View.absent later b h = refl
  object_then_shape (View.text s) later b h = refl
  object_then_shape (View.boolean c) later b h = refl
  object_then_shape (View.integer n) later b h = refl
  object_then_shape (View.real d) later b h = refl

  parse_objects_shape :
      (vs : List Value)
      → is_some (parse_objects lib lowercase vs) ≡ all (λ v. is_flat lib (view v)) vs
  unfolding parse_objects
  parse_objects_shape [] = refl
  parse_objects_shape (v ∷ vs) = object_then_shape (view v) _ _ (parse_objects_shape vs)

  parse_data_shape :
      (v : View Value lib.Double) → is_some (parse_data lib lowercase v) ≡ is_data lib v
  unfolding parse_data parse_objects
  parse_data_shape (View.array vs) = parse_objects_shape vs
  parse_data_shape (View.object es) = elim (Option-cases (parse_properties lib lowercase es [])) [
    | inl e ↦ rw (e, sym (parse_properties_shape es []), e) refl
    | inr (r, e) ↦ rw (e, sym (parse_properties_shape es []), e) refl
  ]
  parse_data_shape View.absent = refl
  parse_data_shape (View.text s) = refl
  parse_data_shape (View.boolean b) = refl
  parse_data_shape (View.integer n) = refl
  parse_data_shape (View.real d) = refl

  -- The formatter takes a document exactly when it parses, its root has an entry "data", and that is
  -- an object or an array of objects, whose properties are texts, Booleans, numbers or arrays of
  -- these: an object or an array inside, and a null anywhere, are refused.
  pub try_parse_shape :
      (document : String)
      → is_some (try_parse lib lowercase document) ≡ is_document lib (lib.parse document)
  unfolding try_parse
  try_parse_shape document = elim (Option-cases (lib.parse document)) [
    | inl e ↦ rw e refl
    | inr (json, e) ↦ rw e (elim (Option-cases (entry "data" (entries_of (view json)))) [
      | inl f ↦ rw f refl
      | inr (v, f) ↦ rw f (parse_data_shape (view v))
    ])
  ]
