-- ===== src/Rule.antt =====
-- source/corvusoft/restq/detail/rule/*.hpp: the values that the rules make for headers and
-- properties; the rules' own conditions and actions are in the children.
use Prim.Native.String.{◌++◌ as join, count}
use restq.Base.{
  ℕ, zero, suc, ◌-◌, ◌/◌, ◌%◌, String, List, [], ◌∷◌, Option, none, some, eqb, ltb, get_last?, ◌&&◌,
  ◌>>=◌, if◌then◌else◌,
}
use restq.Multimap.{has, value_at}
use restq.Number.{to_string, stoul}
use restq.Platform.{Platform, Moment}
use restq.Query.{or_keep}
use restq.Resource.{Resource, Resources}
use restq.Session.{Session}
use restq.Text.{trim_lagging}

-- Date::make( value )
unfoldable pub make_date_at : Platform → Moment → ℕ → String
make_date_at p m value = p.format_date (if eqb value 0 then m.time else value)

-- Date::make( )
unfoldable pub make_date : Platform → Moment → String
unfolding make_date_at
make_date p m = make_date_at p m 0

-- ContentLength::make
unfoldable pub make_content_length : String → String
make_content_length body = to_string (count body)

hex_digit : ℕ → String
hex_digit n =
    if ltb n 10
    then to_string n
    else if eqb n 10
    then "a"
    else if eqb n 11
    then "b"
    else if eqb n 12
    then "c"
    else if eqb n 13
    then "d"
    else if eqb n 14
    then "e"
    else "f"

-- ContentMD5::make: two digits for each byte of the digest.
unfoldable pub make_checksum : Platform → String → String
unfolding hex_digit
make_checksum p value = go (p.md5_digest value)
  where
    go : List ℕ → String
    go [] = ""
    go (byte ∷ bytes) = join (hex_digit (byte / 16)) (join (hex_digit (byte % 16)) (go bytes))

-- ContentLanguage::make
abbrev pub content_language : String
content_language = "en"

-- AcceptRanges::make
abbrev pub accept_ranges : String
accept_ranges = "none"

-- ContentType::make
unfoldable pub make_content_type : Session → String
make_content_type s =
    join (or_keep s.accept "text/plain") (join "; charset=" (or_keep s.charset "utf-8"))

-- `"`, which ETag::make puts round the revision
abbrev quote : String → String
quote s = join "\"" (join s "\"")

-- ETag::make( resources )
unfoldable pub make_etag : Resources → Option String
make_etag values = elim (get_last? values) [
  | none ↦ some (quote "00000000000000000000")
  | some r ↦
      if has "revision" r
      then (do v ← value_at "revision" r; some (quote v))
      else some (quote "00000000000000000000")
]

zeros : ℕ → String
zeros zero = ""
zeros (suc n) = join "0" (zeros n)

-- ETag::make( ): a size_t has at most 20 digits, so the difference is not negative.
unfoldable pub make_revision : Platform → Moment → String
unfolding zeros
make_revision p m =
    let etag = to_string (p.hash (make_date p m)) in join etag (zeros (20 - count etag))

-- LastModified::make( resources ); `none` is the exception of `stoul`.
unfoldable pub make_last_modified : Platform → Moment → Resources → Option String
make_last_modified p m values = elim (get_last? values) [
  | none ↦ some (make_date p m)
  | some r ↦ elim (value_at "modified" r) [
    | none ↦ some (make_date p m)
    | some text ↦
        if has "modified" r
        then (do n ← stoul text; some (make_date_at p m n))
        else some (make_date p m)
  ]
]

-- The keys of the resources, each with a comma behind it.
unfoldable pub key_list : Resources → Option String
key_list [] = some ""
key_list (r ∷ rs) = do k ← value_at "key" r; rest ← key_list rs; some (join k (join "," rest))

-- Location::make, for a session with a host; `none` reads through the end of a multimap.
unfoldable pub make_location : String → Resources → Option String
unfolding key_list
make_location host values = go (get_last? values)
  where
    base : String
    base = join "http://" host

    keyed : String → Resources → Resource → Option String
    keyed type (value ∷ []) r = do
      k ← value_at "key" r
      some (join base (join "/" (join type (join "s/" k))))
    keyed type vs r = do
      ks ← key_list vs
      some (trim_lagging "," (join base (join "/" (join type (join "s?keys=" ks)))))

    go : Option Resource → Option String
    go none = some base
    go (some r) =
        if has "type" r && has "key" r
        then (do t ← value_at "type" r; keyed t values r)
        else some base
