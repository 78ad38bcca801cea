-- ===== src/Cli/Guard/Paths.antt =====
-- packages/cli/src/path-canon.ts, over what it uses of `node:path` on POSIX. An absolute path that
-- `resolve` returned is the list of its segments, from the root.
use agentcall.Base.{
  ℕ, Bool, false, not, ◌&&◌, ◌||◌, Option, none, some, String, List, [], ◌∷◌, ◌++◌, if◌then◌else◌,
  map, string_eq, ◌==◌, split, intercalate, strip_prefix, text_length, ends_with, is_some, get_or,
}
use mathlib.Core.List.{reverse, tail}
use mathlib.Core.Option
use Prim.Native.String

abbrev pub FilePath : Type 0
FilePath = List String

-- What the code asks of the machine: the directory of the process, `realpathSync`, which throws
-- where nothing is found, and `toLowerCase`.
pub record Host : Type 0 where
  pub process_cwd : FilePath
  pub realpath : FilePath → Option FilePath
  pub fold : String → String

abbrev pub starts_with : String → String → Bool
starts_with s prefix = is_some (strip_prefix prefix s)

abbrev pub is_absolute : String → Bool
is_absolute p = starts_with p "/"

-- One segment on the reversed stack of those before it; above the root there is nothing.
unfoldable pub enter : FilePath → String → FilePath
enter stack part =
    if part == "" || part == "." then stack else if part == ".." then tail stack else part ∷ stack

unfoldable pub enter_all : FilePath → List String → FilePath
enter_all stack [] = stack
enter_all stack (part ∷ parts) = enter_all (enter stack part) parts

-- `resolve(base, p)` for a base that `resolve` returned
unfoldable pub resolve_from : FilePath → String → FilePath
unfolding enter_all enter
resolve_from base p =
    reverse (enter_all (if is_absolute p then [] else reverse base) (split b'/' p))

-- The string that a resolved path is.
unfoldable pub render : FilePath → String
render path = String.◌++◌ "/" (intercalate "/" path)

-- `path.length`
unfoldable pub path_length : FilePath → ℕ
unfolding render
path_length path = text_length (render path)

-- A segment of a path that may be relative: `..` stays where nothing is left to leave.
abbrev pub enter_relative : Bool → FilePath → String → FilePath
enter_relative absolute stack part =
    if part == "" || part == "."
    then stack
    else if part == ".."
    then elim stack [
      | [] ↦ if absolute then [] else ".." ∷ []
      | top ∷ below ↦ if top == ".." then ".." ∷ top ∷ below else below
    ]
    else part ∷ stack

abbrev pub enter_all_relative : Bool → FilePath → List String → FilePath
enter_all_relative absolute stack [] = stack
enter_all_relative absolute stack (part ∷ parts) =
    enter_all_relative absolute (enter_relative absolute stack part) parts

-- `normalize(p)`
unfoldable pub normalize : String → String
normalize p =
    let absolute = is_absolute p in
    let body = intercalate "/" (reverse (enter_all_relative absolute [] (split b'/' p))) in
    let named = if body == "" && not absolute then "." else body in
    let closed =
      if ends_with p "/" && not (body == "" && absolute) then String.◌++◌ named "/" else named in
    if absolute then String.◌++◌ "/" closed else closed

-- `join(a, b)`
unfoldable pub join : String → String → String
unfolding normalize
join a b =
    if a == ""
    then if b == "" then "." else normalize b
    else if b == ""
    then normalize a
    else normalize (String.◌++◌ a (String.◌++◌ "/" b))

-- `basename(p)`: the last segment that is not empty
abbrev pub last_named : String → List String → String
last_named found [] = found
last_named found (part ∷ parts) = last_named (if part == "" then found else part) parts

unfoldable pub basename : String → String
basename p = last_named "" (split b'/' p)

unfoldable pub expand_home : String → String → String
expand_home p home =
    if p == "~" then home else elim (strip_prefix "~/" p) [ none ↦ p | some rest ↦ join home rest ]

-- The loop of `canonical`: the segments of `cur` from its end, and the tail taken off them.
unfoldable pub longest_existing :
    (FilePath → Option FilePath) → FilePath → FilePath → Option FilePath
longest_existing realpath [] tail_of = Option.map (λ real. real ++ tail_of) (realpath [])
longest_existing realpath (name ∷ parents) tail_of = elim (realpath (reverse (name ∷ parents))) [
  | some real ↦ some (real ++ tail_of)
  | none ↦ longest_existing realpath parents (name ∷ tail_of)
]

unfoldable pub canonical_path : Host → FilePath → FilePath
canonical_path host abs = get_or (longest_existing host.realpath (reverse abs) []) abs

-- `isAbsolute(expanded) ? resolve(expanded) : resolve(cwd, expanded)`
unfoldable pub absolute_path : Host → String → String → String → FilePath
absolute_path host p cwd home =
    let expanded = expand_home p home in
    if is_absolute expanded
    then resolve_from host.process_cwd expanded
    else resolve_from (resolve_from host.process_cwd cwd) expanded

unfoldable pub canonical : Host → String → String → String → FilePath
canonical host p cwd home = canonical_path host (absolute_path host p cwd home)

-- `relative(from, to)`, as its segments
unfoldable pub relative : FilePath → FilePath → List String
relative [] target = target
relative (from ∷ more) [] = ".." ∷ map (λ _. "..") more
relative (from ∷ more) (name ∷ names) =
    let rest = relative more names in
    if from == name then rest else ".." ∷ map (λ _. "..") more ++ name ∷ names

abbrev pub leaves : List String → Bool
leaves [] = false
leaves (name ∷ _) = starts_with name ".." || is_absolute name

abbrev pub folded : Host → FilePath → FilePath
folded host = map host.fold

unfoldable pub is_inside : Host → FilePath → FilePath → Bool
is_inside host target root = not (leaves (relative (folded host root) (folded host target)))

unfoldable pub is_ancestor_of : Host → FilePath → FilePath → Bool
is_ancestor_of host target root = elim (relative (folded host target) (folded host root)) [
  | [] ↦ false
  | name ∷ names ↦ not (leaves (name ∷ names))
]
