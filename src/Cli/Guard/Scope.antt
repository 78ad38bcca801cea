-- ===== src/Cli/Guard/Scope.antt =====
-- packages/cli/src/scope.ts: the roots an agent may read under, and what is denied beneath them.
use agentcall.Base.{
  ℕ, suc, Bool, false, not, ◌||◌, none, some, String, List, [], ◌∷◌, ◌++◌, if◌then◌else◌, map,
  string_eq, ◌==◌, ltb, max, keep, length, ends_with, strip_prefix, list_eq,
}
use agentcall.Cli.Guard.Paths.{
  FilePath, Host, basename, canonical, canonical_path, expand_home, is_inside, join, path_length,
  render, resolve_from,
}
use Prim.Native.String

pub record Scope : Type 0 where
  pub roots : List String
  pub denied : List String

abbrev pub default_scope : Scope
default_scope = record { roots = []; denied = [] }

abbrev pub denied_dirs : List String
denied_dirs =
    ".ssh" ∷ ".gnupg" ∷ ".aws" ∷ ".config/gcloud" ∷ "Library/Keychains" ∷ ".agentcall" ∷ ".claude"
    ∷ ".codex" ∷ "Library/LaunchAgents" ∷ ".config/systemd/user" ∷ []

abbrev pub denied_files : List String
denied_files =
    ".netrc" ∷ ".npmrc" ∷ ".docker/config.json" ∷ ".claude.json" ∷ ".zshrc" ∷ ".zprofile"
    ∷ ".bashrc" ∷ ".bash_profile" ∷ ".profile" ∷ []

abbrev pub allowed_exceptions : List String
allowed_exceptions = ".claude/skills" ∷ []

-- `DENIED_BASENAMES.some((re) => re.test(name))`
unfoldable pub denied_name : String → Bool
denied_name name =
    name == ".env"
    || elim (strip_prefix ".env." name) [
      | none ↦ false
      | some rest ↦ not (rest == "example" || rest == "sample" || rest == "template")
    ]
    || name == "id_rsa"
    || name == "id_ed25519"
    || name == "id_ecdsa"
    || ends_with name ".pem"
    || ends_with name ".p12"
    || ends_with name ".pfx"

unfoldable pub denied_basename : Host → String → Bool
denied_basename host p = denied_name (host.fold (basename p))

-- `readFileSync` and `ScopeSchema.parse` as what they find.
pub data ScopeFile : Type 0 where
  missing : ScopeFile
  unreadable : String → ScopeFile
  malformed : String → ScopeFile
  parsed : Scope → ScopeFile

pub data Loaded : Type 0 where
  loaded : Scope → Loaded
  threw : String → Loaded

unfoldable pub load_scope : ScopeFile → Loaded
load_scope missing = loaded default_scope
load_scope (unreadable error) = threw (String.◌++◌ "scope is unreadable: " error)
load_scope (malformed error) = threw (String.◌++◌ "scope is invalid: " error)
load_scope (parsed scope) = loaded scope

-- The paths of `isReadable`: both canonical forms of what is denied and excepted.
abbrev pub denied_entries : Scope → String → List String
denied_entries scope home =
    map (join home) denied_dirs ++ map (join home) denied_files ++ scope.denied

abbrev pub canonical_entry : Host → String → String → String → FilePath
canonical_entry host cwd home p = canonical host (expand_home p home) cwd home

abbrev pub inside_of : Host → String → String → FilePath → List String → List FilePath
inside_of host cwd home path entries =
    keep (λ root. is_inside host path root) (map (canonical_entry host cwd home) entries)

-- `1 + Math.max(-1, ...lengths)`
abbrev pub longest : List FilePath → ℕ
longest [] = 0
longest (path ∷ paths) = max (suc (path_length path)) (longest paths)

-- `isReadable` at a target that is absolute and resolved, as in all its calls
unfoldable pub is_readable : Host → Scope → FilePath → String → String → Bool
is_readable host scope target cwd home =
    let path = canonical_path host target in
    let inside = inside_of host cwd home path in
    if denied_basename host (render path)
    then false
    else if ltb (longest (inside (map (join home) allowed_exceptions)))
        (longest (inside (denied_entries scope home)))
    then false
    else ltb 0 (length (inside scope.roots))

-- `new Set`: the first of equal members. Two resolved paths are equal strings just where their
-- segments are equal.
unfoldable pub unique : List FilePath → List FilePath
unique [] = []
unique (p ∷ ps) = let rest = unique ps in p ∷ keep (λ q. not (p == q)) rest

-- What is denied, resolved but not yet made canonical.
abbrev pub lexical_roots : Host → Scope → String → List FilePath
lexical_roots host scope home = map (resolve_from host.process_cwd) (
    map (join home) denied_dirs
    ++ map (join home) denied_files
    ++ map (λ d. expand_home d home) scope.denied)

unfoldable pub denied_roots : Host → Scope → String → List FilePath
denied_roots host scope home =
    let lexical = lexical_roots host scope home in
    unique (lexical ++ map (canonical_path host) lexical)
