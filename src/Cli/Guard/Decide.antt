-- ===== src/Cli/Guard/Decide.antt =====
-- packages/cli/src/guard.ts: `decide`.
use agentcall.Base.{
  Bool, true, false, not, ◌&&◌, ◌||◌, Option, none, some, String, List, [], ◌∷◌, ◌++◌,
  if◌then◌else◌, string_eq, nat_eq, ◌==◌, leb, any, strip_prefix, split, intercalate,
}
use agentcall.Base.Map.{lookup}
use Prim.Native.Char.{Char, code}
use mathlib.Core.List.{reverse, tail}
use agentcall.Cli.Guard.Paths.{
  FilePath, Host, canonical, expand_home, is_absolute, is_ancestor_of, is_inside, join, render,
  starts_with,
}
use agentcall.Cli.Guard.Scope.{Scope, denied_basename, denied_roots, is_readable}

-- A value of the arguments: a string, or anything else with what `String` prints for it.
pub data Value : Type 0 where
  text : String → Value
  other : String → Value

-- `tool_input` is `none` where it is no object, and its entries otherwise.
pub record GuardInput : Type 0 where
  pub tool_name : String
  pub tool_input : Option (List (String × Value))
  pub cwd : String

pub record Finding : Type 0 where
  pub rule : String
  pub detail : String

pub data GuardVerdict : Type 0 where
  allow : Option Finding → GuardVerdict
  deny : Finding → GuardVerdict

abbrev pub denied_by : String → String → GuardVerdict
denied_by rule detail = deny (record { rule = rule; detail = detail })

pub record DecideContext : Type 0 where
  pub user_home : String
  pub scope : Scope
  pub guard_root : String
  pub extra_secret_roots : List String

abbrev pub mutating_tools : List String
mutating_tools = "Bash" ∷ "Write" ∷ "Edit" ∷ "NotebookEdit" ∷ []

abbrev pub one_of : String → List String → Bool
one_of tool tools = any (λ name. tool == name) tools

-- `[A-Za-z0-9_-]`
abbrev name_char : Char → Bool
name_char c =
    leb b'A' (code c) && leb (code c) b'Z'
    || leb b'a' (code c) && leb (code c) b'z'
    || leb b'0' (code c) && leb (code c) b'9'
    || code c == b'_'
    || code c == b'-'

unfoldable pub all_name_chars : String → Bool
all_name_chars String.[] = true
all_name_chars (String.◌∷◌ c s) = name_char c && all_name_chars s

-- Whether `__` and a character stand somewhere in the text.
unfoldable pub has_second_part : String → Bool
has_second_part String.[] = false
has_second_part (String.◌∷◌ c s) =
    elim (strip_prefix "__" (String.◌∷◌ c s)) [ none ↦ false | some rest ↦ not (rest == "") ]
    || has_second_part s

-- `/^mcp__[A-Za-z0-9_-]+__[A-Za-z0-9_-]+$/`
abbrev mcp_rest : String → Bool
mcp_rest String.[] = false
mcp_rest (String.◌∷◌ c s) = name_char c && all_name_chars s && has_second_part s

unfoldable pub is_mcp_tool : String → Bool
unfolding all_name_chars has_second_part
is_mcp_tool tool = elim (strip_prefix "mcp__" tool) [ none ↦ false | some rest ↦ mcp_rest rest ]

abbrev is_magic : Char → Bool
is_magic c = code c == b'*' || code c == b'?' || code c == b'[' || code c == b'{'

-- The text before the first magic character.
unfoldable pub head_of : String → String
head_of String.[] = ""
head_of (String.◌∷◌ c s) = let rest = head_of s in if is_magic c then "" else String.◌∷◌ c rest

abbrev pub without_last : List String → List String
without_last parts = reverse (tail (reverse parts))

-- What stands before the last separator, or the separator where nothing does.
unfoldable pub glob_literal_prefix : String → String
unfolding head_of
glob_literal_prefix pattern = elim (without_last (split b'/' (head_of pattern))) [
  | [] ↦ ""
  | part ∷ parts ↦
      let before = intercalate "/" (part ∷ parts) in if before == "" then "/" else before
]

-- The scope with the guard's own roots, and what a decision looks up in it.
abbrev pub guarded_scope : DecideContext → Scope
guarded_scope ctx = record ctx.scope {
  denied = ctx.scope.denied ++ ctx.guard_root ∷ ctx.extra_secret_roots;
}

-- `SELECTOR_KEY`; `LS` has none.
abbrev pub selector_of : String → List (String × Value) → Option Value
selector_of tool args =
    if tool == "Grep"
    then lookup "glob" args
    else if tool == "Glob"
    then lookup "pattern" args
    else none

module _ (host : Host) (ctx : DecideContext) (cwd : String) where
  unfoldable pub unreachable : FilePath → Bool
  unreachable target = not (is_readable host (guarded_scope ctx) target cwd ctx.user_home)

  abbrev pub secret_roots : List FilePath
  secret_roots = denied_roots host (guarded_scope ctx) ctx.user_home

  unfoldable pub scan_reaches_secret : FilePath → Bool
  scan_reaches_secret root =
      any (λ d. is_inside host root d || is_ancestor_of host root d) secret_roots

  unfoldable pub target_inside_secret : FilePath → Bool
  target_inside_secret target = any (λ d. is_inside host target d) secret_roots

  abbrev pub canon : String → FilePath
  canon p = canonical host p cwd ctx.user_home

  -- The branch of `EXACT_TARGET`, for `Read`.
  unfoldable pub decide_target : Option Value → GuardVerdict
  decide_target none = denied_by "unparseable-target" "undefined"
  decide_target (some (other printed)) = denied_by "unparseable-target" printed
  decide_target (some (text raw)) =
      let target = canon raw in
      if raw == ""
      then denied_by "unparseable-target" raw
      else if denied_basename host (render target)
      then denied_by "denied-basename" (render target)
      else if target_inside_secret target
      then denied_by "inside-unreachable-source" (render target)
      else if unreachable target
      then denied_by "source-is-secret" (render target)
      else allow none

  abbrev pub selector_root : String → String → FilePath
  selector_root raw_root prefix =
      canon
        (if is_absolute (expand_home prefix ctx.user_home) then prefix else join raw_root prefix)

  unfoldable pub decide_selector : String → String → Option Value → GuardVerdict
  decide_selector tool raw_root none =
      if tool == "Glob" then denied_by "unparseable-selector" tool else allow none
  decide_selector tool raw_root (some (other _)) = denied_by "unparseable-selector" tool
  decide_selector tool raw_root (some (text selector)) =
      let prefix = glob_literal_prefix selector in
      let root = selector_root raw_root prefix in
      if one_of ".." (split b'/' selector)
      then denied_by "escaping-pattern" selector
      else if denied_basename host selector
      then denied_by "denied-basename-pattern" selector
      else if prefix == ""
      then allow none
      else if scan_reaches_secret root
      then denied_by "root-reaches-denied-path" (render root)
      else if unreachable root
      then denied_by "source-is-secret" (render root)
      else allow none

  unfoldable pub decide_root : String → List (String × Value) → String → GuardVerdict
  decide_root tool args raw_root =
      let root = canon raw_root in
      if denied_basename host (render root)
      then denied_by "denied-basename" (render root)
      else if scan_reaches_secret root
      then denied_by "root-reaches-denied-path" (render root)
      else if unreachable root
      then denied_by "source-is-secret" (render root)
      else decide_selector tool raw_root (selector_of tool args)

  -- The branch of `Grep`, `LS` and `Glob`, at `args.path`.
  unfoldable pub decide_scan : String → List (String × Value) → Option Value → GuardVerdict
  decide_scan tool args none = decide_root tool args cwd
  decide_scan tool args (some (other _)) = denied_by "unparseable-root" tool
  decide_scan tool args (some (text path)) =
      decide_root tool args (if path == "" then cwd else path)

unfoldable pub decide_url : String → Option Value → GuardVerdict
decide_url tool (some (text url)) =
    if starts_with url "http://" || starts_with url "https://"
    then allow none
    else denied_by "unparseable-url" tool
decide_url tool _ = denied_by "unparseable-url" tool

-- `decide` at arguments that are an object
unfoldable pub decide_tool :
    Host → DecideContext → String → String → List (String × Value) → GuardVerdict
decide_tool host ctx cwd tool args =
    if one_of tool mutating_tools
    then denied_by "local-mutation-disabled" tool
    else if tool == "WebSearch" || tool == "ToolSearch" || is_mcp_tool tool || tool == "Skill"
    then allow none
    else if tool == "WebFetch"
    then decide_url tool (lookup "url" args)
    else if tool == "Read"
    then decide_target host ctx cwd (lookup "file_path" args)
    else if tool == "Grep" || tool == "LS" || tool == "Glob"
    then decide_scan host ctx cwd tool args (lookup "path" args)
    else denied_by "unclassified-tool" tool

unfoldable pub decide : Host → DecideContext → GuardInput → GuardVerdict
decide host ctx input = elim input.tool_input [
  | none ↦ denied_by "unparseable-input" input.tool_name
  | some args ↦ decide_tool host ctx input.cwd input.tool_name args
]
