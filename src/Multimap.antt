-- ===== src/Multimap.antt =====
-- std::multimap< std::string, Bytes >, with the members that the program calls. A multimap is the
-- list of its entries in iteration order: keys in the order of std::string, entries of one key in
-- the order in which they were inserted.
pub mod Laws
pub mod Groups
use restq.Base.{
  ℕ, String, Bool, not, List, [], ◌∷◌, Option, none, some, ◌==◌, less, if◌then◌else◌, ◌>>=◌, arith,
}

abbrev pub Multimap : Type 0
Multimap = List (String × String)

-- `insert( make_pair( k, v ) )`: behind the entries with the same key.
unfoldable pub insert : String → String → Multimap → Multimap
insert k v [] = (k, v) ∷ []
insert k v ((j, w) ∷ m) =
    let rest = insert k v m in if less k j then (k, v) ∷ (j, w) ∷ m else (j, w) ∷ rest

-- `equal_range( k )`: the values under `k`.
unfoldable pub equal_range : String → Multimap → List String
equal_range k [] = []
equal_range k ((j, w) ∷ m) = let rest = equal_range k m in if k == j then w ∷ rest else rest

-- `count( k )`, as the test that the program makes of it.
unfoldable pub has : String → Multimap → Bool
has k [] = Bool.false
has k ((j, w) ∷ m) = let rest = has k m in if k == j then Bool.true else rest

-- `lower_bound( k )`: the first entry whose key is not before `k`, and `none` for `end( )`.
unfoldable pub lower_bound : String → Multimap → Option (String × String)
lower_bound k [] = none
lower_bound k ((j, w) ∷ m) = let rest = lower_bound k m in if less j k then rest else some (j, w)

-- `lower_bound( k )->second`; reading through `end( )` is undefined, which is `none` here.
unfoldable pub value_at : String → Multimap → Option String
value_at k m = do e ← lower_bound k m; some e.1

-- `find( k )`
unfoldable pub find : String → Multimap → Option String
find k [] = none
find k ((j, w) ∷ m) = let rest = find k m in if k == j then some w else rest

-- `find( k )->second = v`
unfoldable pub assign : String → String → Multimap → Multimap
assign k v [] = []
assign k v ((j, w) ∷ m) = let rest = assign k v m in if k == j then (j, v) ∷ m else (j, w) ∷ rest

-- `erase( k )`: every entry under `k` goes.
unfoldable pub erase : String → Multimap → Multimap
erase k [] = []
erase k ((j, w) ∷ m) = let rest = erase k m in if k == j then rest else (j, w) ∷ rest

-- A braced list of entries.
unfoldable pub of_list : List (String × String) → Multimap
unfolding insert
of_list es = go [] es
  where
    go : Multimap → List (String × String) → Multimap
    go m [] = m
    go m ((k, v) ∷ es) = go (insert k v m) es
