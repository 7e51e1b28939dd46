-- ===== src/Stl.antt =====
-- example/exchange/source/stl_repository.cpp: the repository that keeps its resources in a list.
-- `create` holds the lock while it uses the list. `read` gives it up before it looks for related
-- resources: `candidates` is the part before, `answer` the part after. `update` and `destroy` read,
-- and take the lock again to write: `found` and `updated` are the read and the write of an update.
-- Other operations may come between the parts; each operation here is its parts together.
-- `lowercase` is restbed's. An operation is `none` where it would go through an iterator at the end of the list; a comparison with a key that
-- is not there fails.
pub mod Filter
pub mod Paging
pub mod Reading
pub mod Keys
pub mod Creating
pub mod Deleting
pub mod Updating
pub mod Claiming
pub mod Racing
pub mod Changing
use Prim.Native.String.{◌++◌ as join}
use restq.Base.{
  ℕ, zero, suc, String, Bool, true, false, not, ◌&&◌, ◌||◌, List, [], ◌∷◌, ◌++◌, Option, none, some,
  ◌==◌, eqb, ltb, if◌then◌else◌, ◌>>=◌, map, length, drop, any, filter, find_if, is_nil,
}
use restq.Multimap.{Multimap, insert, equal_range, has, value_at, find, assign}
use restq.Resource.{Resource, Resources, subscription_type}
use restq.Query.{Query, has_failed, has_fields, set_error_code, set_fields, set_resultset}

abbrev pub conflict_code : ℕ
conflict_code = 40009

abbrev pub missing_code : ℕ
missing_code = 40004

-- `member` of the set< string > of fields.
abbrev pub contains : List String → String → Bool
contains names name = any (λ n. n == name) names

-- Two keys, either of which may be missing.
abbrev pub same : Option String → Option String → Bool
same (some a) (some b) = a == b
same _ _ = false

-- `resource.lower_bound( "type" )->second == type`
abbrev pub has_type : String → Resource → Bool
has_type type r = same (value_at "type" r) (some type)

-- STLRepository::fields
unfoldable pub fields : Resources → Query → Resources
fields values q =
    if has_fields q
    then filter (λ r. not (is_nil r)) (map (λ r. filter (λ e. contains q.fields e.0) r) values)
    else values

-- One round of the loop over the exclusive filters; `failed` is the variable of the source.
unfoldable pub exclusive_fails : Resource → Multimap → Bool → Bool
exclusive_fails r [] failed = failed
exclusive_fails r ((name, value) ∷ rest) failed =
    let failed' = not (any (λ v. v == value) (equal_range name r)) in
    let later = exclusive_fails r rest failed' in if failed' then true else later

-- The test of one group of inclusive filters: some property has one of its values.
unfoldable pub group_fails : Resource → Multimap → String → Bool
group_fails r all name =
    not (any (λ w. any (λ v. v == w) (equal_range name r)) (equal_range name all))

-- The loop over the inclusive filters `all`, from the iterator's position on. `skip` is the number
-- of entries that an assignment to the iterator and its increment have still to pass.
unfoldable pub inclusive_fails : Resource → Multimap → Multimap → ℕ → Bool → Bool
inclusive_fails r all [] skip failed = failed
inclusive_fails r all (f ∷ rest) (suc skip) failed = inclusive_fails r all rest skip failed
inclusive_fails r all ((name, value) ∷ rest) zero failed =
    let failed' = group_fails r all name in
    let group = length (equal_range name rest) in
    let later =
      inclusive_fails r all rest (if eqb group (length rest) then 0 else suc group) failed' in
    if failed' then true else later

-- Whether the loop of STLRepository::filter keeps a resource.
unfoldable pub keeps : Multimap → Multimap → Resource → Bool
keeps inclusive exclusive r =
    if exclusive_fails r exclusive true && not (is_nil exclusive)
    then false
    else if is_nil inclusive
    then true
    else not (inclusive_fails r inclusive inclusive 0 true)

-- The loop that fills a page; `values` is what it holds already.
unfoldable pub fill : ℕ → Resources → Resources → Resources
fill limit values [] = values
fill limit values (r ∷ rest) =
    let more = fill limit (values ++ r ∷ []) rest in
    if eqb limit (length values) then values else more

unfoldable pub page : ℕ → ℕ → Resources → Resources
unfolding fill
page index limit resources =
    if ltb index (length resources) && not (eqb limit 0)
    then fill limit [] (drop index resources)
    else []

-- One change of a changeset, with the flag `update_applied`.
unfoldable pub apply_change : String → String → Resource × Bool → Resource × Bool
apply_change name value (r, applied) =
    if name == "modified" || name == "revision" then (r, applied) else elim (find name r) [
      | none ↦ (insert name value r, true)
      | some old ↦ if old == value then (r, applied) else (assign name value r, true)
    ]

unfoldable pub apply_changes : Multimap → Resource × Bool → Resource × Bool
apply_changes [] s = s
apply_changes ((name, value) ∷ changes) s = apply_changes changes (apply_change name value s)

-- One round of the loop over the keys; `none` where a key is not there.
abbrev pub push : Option Resource → Option Resources → Option Resources
push none rs = none
push (some r) rs = do rs' ← rs; some (r ∷ rs')

module _ (lowercase : String → String) where
  -- `String::lowercase( String::to_string( resource.lower_bound( "key" )->second ) )`
  unfoldable pub key_of : Resource → Option String
  key_of r = do k ← value_at "key" r; some (lowercase k)

  -- The test of `read` for a requested key.
  unfoldable pub answers : String → Resource → Bool
  unfolding key_of
  answers key r = has "key" r && same (some (lowercase key)) (key_of r)

  unfoldable pub select : List String → Resources → Option Resources
  select [] store = some []
  select (key ∷ keys) store = push (find_if (answers key) store) (select keys store)

  -- The resources that `read` starts from.
  unfoldable pub candidates : List String → Resources → Option Resources
  unfolding select
  candidates [] store = some store
  candidates (key ∷ keys) store = select (key ∷ keys) store

  -- One of the queue keys of a resource, in any case, is `key`.
  unfoldable pub lists : Option String → Resource → Bool
  lists key r = any (λ v. same key (some (lowercase v))) (equal_range "queues" r)

  abbrev pub copies : Resource → Resources → Resources
  copies r [] = []
  copies r (queue ∷ queues) =
      let rest = copies r queues in if lists (key_of queue) r then r ∷ rest else rest

  abbrev pub subscriptions_of : Resources → Resources → Resources
  subscriptions_of queues [] = []
  subscriptions_of queues (r ∷ store) =
      let rest = subscriptions_of queues store in
      if has_type subscription_type r then copies r queues ++ rest else rest

  -- `type + "-key"`
  abbrev foreign_key : Resource → Option String
  foreign_key r = do t ← value_at "type" r; some (join t "-key")

  abbrev refers : Option String → Option String → Resource → Bool
  refers none key r = false
  refers (some name) key r = has name r && same key (do v ← value_at name r; some (lowercase v))

  abbrev pub related_to : String → Resources → Resources → Resources
  related_to relationship store [] = []
  related_to relationship store (value ∷ values) =
      filter (λ r. has_type relationship r && refers (foreign_key value) (key_of value) r) store
      ++ related_to relationship store values

  -- STLRepository::include
  unfoldable pub including : String → Resources → Resources → Resources
  unfolding lists key_of
  including relationship store values =
      if relationship == ""
      then values
      else if relationship == subscription_type
      then values ++ subscriptions_of values store
      else values ++ related_to relationship store values

  -- What `read` writes to the query, given the resources that it starts from.
  unfoldable pub answer : Resources → Query → Option Resources → Query
  answer store q none = set_error_code missing_code q
  answer store q (some rs) =
      set_resultset
        (fields
          (including q.related store
            (page q.index q.limit (filter (keeps q.inclusive_filters q.exclusive_filters) rs)))
          q)
        q

  unfoldable pub read : Resources → Query → Query
  read store q = answer store q (candidates q.keys store)

  unfoldable pub conflicts : Resources → Resource → Bool
  conflicts store value = any (λ r. same (key_of value) (key_of r)) store

  unfoldable pub create : Resources → Resources → Query → Resources × Query
  create store values q =
      if any (conflicts store) values
      then (store, set_error_code conflict_code q)
      else (store ++ values, set_resultset (fields values q) q)

  -- `*find_if( … ) = result`
  unfoldable pub replace : Resource → Resources → Option Resources
  replace r [] = none
  replace r (s ∷ store) =
      let rest = replace r store in
      if same (key_of r) (key_of s) then some (r ∷ store) else (do t ← rest; some (s ∷ t))

  unfoldable pub update_all :
      Multimap → Resources → Bool → Resources → Option (Resources × Bool × Resources)
  update_all changes [] applied store = some ([], applied, store)
  update_all changes (r ∷ rs) applied store =
      let (r', applied') = apply_changes changes (r, applied) in
      do
        store' ← replace r' store
        t ← update_all changes rs applied' store'
        some (r' ∷ t.0, t.1, t.2)

  -- The callback that `update` hands to `read`.
  unfoldable pub updated : Resources → Resource → Query → Option (Resources × Query)
  updated store changes q = if has_failed q then some (store, q) else (do
    t ← update_all changes q.resultset false store
    some (t.2, set_resultset (if t.1 then fields t.0 q else []) q))

  -- The query as `read` hands it back, with its fields restored.
  unfoldable pub found : Resources → Query → Query
  found store q = set_fields q.fields (read store (set_fields [] q))

  unfoldable pub update : Resources → Resource → Query → Option (Resources × Query)
  update store changes q = updated store changes (found store q)

  -- `m_resources.erase( find_if( … ) )`
  unfoldable pub erase_first : Resource → Resources → Option Resources
  erase_first r [] = none
  erase_first r (s ∷ store) =
      let rest = erase_first r store in
      if same (key_of s) (key_of r) then some store else (do t ← rest; some (s ∷ t))

  unfoldable pub erase_all : Resources → Resources → Option Resources
  erase_all [] store = some store
  erase_all (r ∷ rs) store = do store' ← erase_first r store; erase_all rs store'

  -- The callback that `destroy` hands to `read`. With a callback of its own, which then sees the query;
  -- without one nobody does.
  abbrev pub erased : Resources → Query → Option (Resources × Query)
  erased store q =
      if has_failed q
      then some (store, set_error_code missing_code q)
      else (do store' ← erase_all q.resultset store; some (store', q))

  unfoldable pub destroy : Resources → Query → Option (Resources × Query)
  destroy store q = erased store (read store q)
