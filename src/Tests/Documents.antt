-- ===== src/Tests/Documents.antt =====
-- A JSON library whose values are texts: a letter for the kind, then the content, in which a list of
-- texts has a `1` before each character and a `0` behind each text. A document is its value.
use Prim.Native.String.{[], ◌∷◌}
use mathlib.Core.List.{[] as nil, ◌∷◌ as cons}
use restq.Base.{
  String, Char, code, Bool, true, false, List, some, eqb, ◌==◌, ◌≡◌, ◌++◌, refl, ap, ◌∙◌,
  if◌then◌else◌,
}
use restq.Json.{Library, View, IsJson, set_entry, entries_of}

pack_one : String → String → String
pack_one [] rest = "0" ∷ rest
pack_one (c ∷ s) rest = "1" ∷ (c ∷ pack_one s rest)

pack : List String → String
unfolding pack_one
pack nil = ""
pack (cons s ss) = pack_one s (pack ss)

push_front : Char → List String → List String
push_front c nil = nil
push_front c (cons s ss) = cons (c ∷ s) ss

unpack : String → List String
unfolding push_front
unpack [] = nil
unpack (c ∷ []) = cons "" nil
unpack (c ∷ (d ∷ s)) = elim (eqb (code c) b'1') [
  | true ↦ push_front d (unpack s)
  | false ↦ cons "" (unpack (d ∷ s))
]

unpack-pack_one : (s rest : String) → unpack (pack_one s rest) ≡ cons s (unpack rest)
unfolding unpack pack_one
unpack-pack_one [] [] = refl
unpack-pack_one [] (d ∷ rest) = refl
unpack-pack_one (c ∷ s) rest = ap (push_front c) (unpack-pack_one s rest)

unpack-pack : (ss : List String) → unpack (pack ss) ≡ ss
unfolding pack unpack
unpack-pack nil = refl
unpack-pack (cons s ss) = unpack-pack_one s (pack ss) ∙ ap (cons s) (unpack-pack ss)

flat : List (String × String) → List String
flat nil = nil
flat (cons (k, v) es) = cons k (cons v (flat es))

pairs : List String → List (String × String)
pairs nil = nil
pairs (cons k nil) = nil
pairs (cons k (cons v ss)) = cons (k, v) (pairs ss)

pairs-flat : (es : List (String × String)) → pairs (flat es) ≡ es
unfolding pairs flat
pairs-flat nil = refl
pairs-flat (cons (k, v) es) = ap (cons (k, v)) (pairs-flat es)

view : String → View String String
unfolding unpack pairs
view [] = View.absent
view (c ∷ s) =
    if eqb (code c) b't'
    then View.text s
    else if eqb (code c) b'b'
    then View.boolean (s == "1")
    else if eqb (code c) b'i'
    then View.integer s
    else if eqb (code c) b'r'
    then View.real s
    else if eqb (code c) b'a'
    then View.array (unpack s)
    else if eqb (code c) b'o'
    then View.object (pairs (unpack s))
    else View.absent

items_of : View String String → List String
items_of (View.array vs) = vs
items_of _ = nil

push_back : String → String → String
unfolding view items_of pack
push_back a v = "a" ∷ pack (items_of (view a) ++ cons v nil)

assign : String → String → String → String
unfolding view pack flat set_entry
assign k v o = "o" ∷ pack (flat (set_entry k v (entries_of (view o))))

abbrev pub library : Library
unfolding view push_back assign
library = record {
  Value = String;
  Double = String;
  stod = λ s. some s;
  double_text = λ d. d;
  view = view;
  of_text = λ s. "t" ∷ s;
  of_boolean = λ b. if b then "b1" else "b0";
  of_integer = λ s. "i" ∷ s;
  of_real = λ d. "r" ∷ d;
  empty_array = "a";
  push_back = push_back;
  empty_object = "o";
  assign = assign;
  parse = λ s. some s;
  dump = λ b v. v;
}

boolean_viewed : (b : Bool) → view (if b then "b1" else "b0") ≡ View.boolean b
unfolding view
boolean_viewed true = refl
boolean_viewed false = refl

push_back_viewed :
    (a v : String) (vs : List String)
    → view a ≡ View.array vs
    → view (push_back a v) ≡ View.array (vs ++ cons v nil)
unfolding view push_back items_of
push_back_viewed a v vs e = ap View.array (unpack-pack _ ∙ ap (λ w. items_of w ++ cons v nil) e)

assign_viewed :
    (k o v : String) (es : List (String × String))
    → view o ≡ View.object es
    → view (assign k v o) ≡ View.object (set_entry k v es)
unfolding view assign
assign_viewed k o v es e =
    ap View.object
      (ap pairs (unpack-pack _) ∙ pairs-flat _ ∙ ap (λ w. set_entry k v (entries_of w)) e)

pub library-IsJson : IsJson library
unfolding library
library-IsJson = record {
  view-of_text = λ s. refl;
  view-of_boolean = boolean_viewed;
  view-of_integer = λ s. refl;
  view-of_real = λ d. refl;
  view-empty_array = refl;
  view-push_back = push_back_viewed;
  view-empty_object = refl;
  view-assign = assign_viewed;
  parse-dump = λ b v. refl;
}
