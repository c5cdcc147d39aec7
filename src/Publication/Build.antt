-- ===== src/Publication/Build.antt =====
-- docs-api/app/generator.py: the addresses that MkDocs gives to pages, and the checks that `run` makes
-- of a corpus before it builds the site.
use Prim.Native.Char.{code}
use docplane.Base.{
  String, Bool, false, not, ◌&&◌, ◌||◌, Option, none, some, List, [], ◌∷◌, ◌++◌, map, ◌==◌,
  if◌then◌else◌, eqb,
}
use docplane.Base.Strip.{strip}
use docplane.Base.Slices.{plus, begins}
use docplane.Base.Lists.{keep, nonempty}
use docplane.Base.Sets.{mem}
use docplane.Base.Sorting.{sort_by}
use docplane.Base.Dict.{Dict, entry_key, keys}
use docplane.Publication.Types.{Page}
use docplane.Publication.Checks.{paths}

-- `s.endswith(".md")`
unfoldable pub ends_md : String → Bool
ends_md String.[] = false
ends_md (String.◌∷◌ c s) = let rest = ends_md s in (String.◌∷◌ c s == ".md") || rest

abbrev attach_head : String → List String → List String
attach_head c [] = c ∷ []
attach_head c (l ∷ ls) = plus c l ∷ ls

-- `s.split("/")`
unfoldable pub split_slash : String → List String
unfolding plus
split_slash String.[] = "" ∷ []
split_slash (String.◌∷◌ c s) =
    let rest = split_slash s in
    if eqb (code c) 47 then "" ∷ rest else attach_head (String.◌∷◌ c "") rest

-- The parts of a `PurePosixPath`: empty ones and single dots are dropped.
unfoldable pub path_parts : String → List String
unfolding split_slash keep
path_parts s = keep (λ part. not (part == "") && not (part == ".")) (split_slash s)

-- Its root: two slashes in front stay two, more are one.
unfoldable pub path_root : String → String
unfolding begins
path_root s =
    if begins "///" s then "/" else if begins "//" s then "//" else if begins "/" s then "/" else ""

unfoldable pub with_slashes : List String → String
unfolding plus
with_slashes [] = ""
with_slashes (part ∷ []) = part
with_slashes (part ∷ rest ∷ parts) = plus part (plus "/" (with_slashes (rest ∷ parts)))

-- `str(path)`
unfoldable pub posix : String → List String → String
unfolding plus with_slashes
posix root parts =
    if root == "" && not (nonempty parts) then "." else plus root (with_slashes parts)

-- `s.rpartition(".")`, where there is a dot
unfoldable pub last_dot : String → Option (String × String)
last_dot String.[] = none
last_dot (String.◌∷◌ c s) = elim (last_dot s) [
  | some (stem, suffix) ↦ some (String.◌∷◌ c stem, suffix)
  | none ↦ if eqb (code c) 46 then some ("", s) else none
]

-- `with_suffix("")` of a name: a dot at the front or the end begins no suffix.
unfoldable pub stem_of : String → String
unfolding last_dot
stem_of name = elim (last_dot name) [
  | none ↦ name
  | some (stem, suffix) ↦ if stem == "" || suffix == "" then name else stem
]

-- The last part, and the parts with another in its place. A path that ends in .md has one.
unfoldable pub name_of : List String → String
name_of [] = ""
name_of (part ∷ []) = part
name_of (part ∷ rest ∷ parts) = name_of (rest ∷ parts)

unfoldable pub parent_of : List String → List String
parent_of [] = []
parent_of (part ∷ []) = []
parent_of (part ∷ rest ∷ parts) = part ∷ parent_of (rest ∷ parts)

unfoldable pub rendered_html_path : String → String
unfolding path_parts path_root posix name_of parent_of stem_of plus
rendered_html_path md_path =
    let parts = path_parts md_path in
    let root = path_root md_path in
    if name_of parts == "index.md"
    then posix root (parent_of parts ++ "index.html" ∷ [])
    else plus (posix root (parent_of parts ++ stem_of (name_of parts) ∷ [])) "/index.html"

unfoldable pub rendered_url : String → String
unfolding path_parts path_root posix name_of parent_of stem_of plus
rendered_url md_path =
    let parts = path_parts md_path in
    let root = path_root md_path in
    let parent = posix root (parent_of parts) in
    if name_of parts == "index.md"
    then (if parent == "." then "/" else plus "/" (plus parent "/"))
    else plus "/" (plus (posix root (parent_of parts ++ stem_of (name_of parts) ∷ [])) "/")

pub data BuildError : Type 0 where
  invalid_page_path empty_page : String → BuildError
  redirect_conflict : String → String → BuildError
  route_conflict nav_conflict : BuildError

-- The conflict of one redirect, if it has one.
unfoldable pub redirect_conflict_of : List String → Dict String → String → String → Option String
unfolding ends_md mem rendered_url
redirect_conflict_of active redirects source target =
    if not (ends_md source) || not (ends_md target)
    then some "invalid-path"
    else if source == target
    then some "self-redirect"
    else if mem source active
    then some "source-is-active-page"
    else if not (mem target active)
    then some "target-missing"
    else if mem target (keys redirects)
    then some "chain"
    else if rendered_url source == rendered_url target
    then some "same-rendered-url"
    else none

-- The loop of `validate_redirects` over the sorted redirects.
unfoldable pub first_conflict : List String → Dict String → Dict String → Option BuildError
unfolding redirect_conflict_of
first_conflict active redirects [] = none
first_conflict active redirects ((source, target) ∷ rest) =
    elim (redirect_conflict_of active redirects source target) [
      | some kind ↦ some (redirect_conflict kind source)
      | none ↦ first_conflict active redirects rest
    ]

unfoldable pub validate_redirects : Dict String → List Page → Option BuildError
unfolding first_conflict sort_by
validate_redirects redirects pages =
    first_conflict (paths pages) redirects (sort_by entry_key redirects)

-- `claims` as a list, one URL for each page and each redirect; the conflict is a URL claimed twice.
unfoldable pub claims : List Page → Dict String → List String
unfolding rendered_url
claims pages redirects = map rendered_url (paths pages) ++ map rendered_url (keys redirects)

unfoldable pub claimed_twice : List String → Bool
unfolding mem
claimed_twice [] = false
claimed_twice (url ∷ urls) = mem url urls || claimed_twice urls

unfoldable pub validate_routes : List Page → Dict String → Option BuildError
unfolding claims claimed_twice
validate_routes pages redirects =
    if claimed_twice (claims pages redirects) then some route_conflict else none

-- The loop of `run` over the pages.
unfoldable pub page_error : List Page → Option BuildError
unfolding ends_md strip
page_error [] = none
page_error (p ∷ ps) =
    let rest = page_error ps in
    if not (ends_md p.path)
    then some (invalid_page_path p.path)
    else if strip p.content == ""
    then some (empty_page p.path)
    else rest

abbrev or_next : Option BuildError → Option BuildError → Option BuildError
or_next none next = next
or_next (some e) next = some e

-- The checks of `run`, in their order; the first that fails is raised.
unfoldable pub build_error : List Page → Dict String → Bool → Option BuildError
unfolding page_error validate_redirects validate_routes
build_error pages redirects nav_fails = or_next (page_error pages) (
    or_next (validate_redirects redirects pages)
      (or_next (validate_routes pages redirects) (if nav_fails then some nav_conflict else none)))
