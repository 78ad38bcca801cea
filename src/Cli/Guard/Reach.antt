-- ===== src/Cli/Guard/Reach.antt =====
-- packages/cli/src/guard.ts and scope.ts: what a tool that `decide` allows can reach.
use agentcall.Base.{
  true, false, not, Option, none, some, String, List, [], ◌∷◌, ◌++◌, ◌≡◌, refl, sym, ◌∙◌, ◌⊎◌, inl,
  inr, arith, string_eq, list_eq, Bool-cases, map, subst, strip_prefix, if◌then◌else◌, list_beq_iff,
  ◌==◌, ◌||◌, All, Any, any-All, keep, split, length, ltb,
}
use agentcall.Base.Map.{lookup}
use agentcall.Cli.Guard.Paths.{FilePath, Host, canonical_path, is_ancestor_of, is_inside, render}
use agentcall.Cli.Guard.Containment.{Contains, is_inside_lem, apart_of_tests}
use agentcall.Cli.Guard.Scope.{
  Scope, canonical_entry, denied_basename, denied_roots, inside_of, is_readable, lexical_roots,
  unique,
}
use agentcall.Cli.Guard.Decide.{
  Value, text, other, Finding, allow, DecideContext, canon, decide, decide_target, decide_tool,
  glob_literal_prefix, guarded_scope, is_mcp_tool, one_of, scan_reaches_secret, selector_of,
  selector_root, target_inside_secret, unreachable,
}

-- Every path that is denied: the entries as they are written, and where they lead.
abbrev pub denied_paths : Host → DecideContext → List FilePath
denied_paths host ctx =
    let lexical = lexical_roots host (guarded_scope ctx) ctx.user_home in
    lexical ++ map (canonical_path host) lexical

module _ (P : FilePath → Type 0) where
  All-keep :
      (p : FilePath) (ps : List FilePath) → P p → All P (keep (λ q. not (p == q)) ps) → All P ps
  All-keep p [] h k = tt
  All-keep p (q ∷ ps) h k = elim (Bool-cases (p == q)) [
    | inl e ↦ (subst P ((list_beq_iff p q).0 e) h, All-keep p ps h (rw e at k))
    | inr e ↦
        let both : P q × All P (keep (λ r. not (p == r)) ps) = rw e at k in
        (both.0, All-keep p ps h both.1)
  ]

  All-unique : (ps : List FilePath) → All P (unique ps) → All P ps
  unfolding unique
  All-unique [] h = tt
  All-unique (p ∷ ps) h = (h.0, All-unique ps (All-keep p (unique ps) h.0 h.1))

-- `is_readable` is right about the roots: the canonical target lies within one of them.
module _ (host : Host) (cwd home : String) where
  kept-Any :
      (path : FilePath) (entries : List String)
      → ltb 0 (length (inside_of host cwd home path entries)) ≡ true
      → Any (λ r. Contains host (canonical_entry host cwd home r) path) entries
  kept-Any path [] h = absurd (ground arith)
  kept-Any path (r ∷ entries) h =
      elim (Bool-cases (is_inside host path (canonical_entry host cwd home r))) [
        | inl e ↦ inl ((is_inside_lem host path (canonical_entry host cwd home r)).0 e)
        | inr e ↦ inr (kept-Any path entries (rw e at h))
      ]

  is_readable-Any :
      (scope : Scope) (target : FilePath)
      → is_readable host scope target cwd home ≡ true
      → Any
          (λ r. Contains host (canonical_entry host cwd home r) (canonical_path host target))
          scope.roots
  unfolding is_readable
  is_readable-Any scope target h = kept-Any (canonical_path host target) scope.roots (ground arith)

module _ (host : Host) (ctx : DecideContext) (cwd : String) where
  -- The canonical target lies within a root of the scope.
  abbrev pub UnderRoot : FilePath → Type 0
  UnderRoot target =
      Any
        (λ r. Contains host (canonical_entry host cwd ctx.user_home r) (canonical_path host target))
        ctx.scope.roots

  -- No denied path holds it.
  abbrev pub Outside : FilePath → Type 0
  Outside target = All (λ d. ¬ Contains host d target) (denied_paths host ctx)

  -- No denied path holds it, and it holds none.
  abbrev pub Apart : FilePath → Type 0
  Apart root = All (λ d. ¬ Contains host d root × ¬ Contains host root d) (denied_paths host ctx)

  pub target_inside_secret-Outside :
      (target : FilePath) → target_inside_secret host ctx cwd target ≡ false → Outside target
  unfolding target_inside_secret denied_roots
  target_inside_secret-Outside target h =
      All-unique (λ d. ¬ Contains host d target) (denied_paths host ctx)
        (any-All (λ d. ¬ Contains host d target) (λ d. is_inside host target d)
          (λ d e k. cc ((is_inside_lem host target d).1 k)) (unique (denied_paths host ctx)) h)

  pub scan_reaches_secret-Apart :
      (root : FilePath) → scan_reaches_secret host ctx cwd root ≡ false → Apart root
  unfolding scan_reaches_secret denied_roots
  scan_reaches_secret-Apart root h =
      All-unique (λ d. ¬ Contains host d root × ¬ Contains host root d) (denied_paths host ctx)
        (any-All (λ d. ¬ Contains host d root × ¬ Contains host root d)
          (λ d. is_inside host root d || is_ancestor_of host root d)
          (λ d. apart_of_tests host root d) (unique (denied_paths host ctx)) h)

  pub unreachable-UnderRoot :
      (target : FilePath) → unreachable host ctx cwd target ≡ false → UnderRoot target
  unfolding unreachable
  unreachable-UnderRoot target h =
      is_readable-Any host cwd ctx.user_home (guarded_scope ctx) target (ground arith)

  decide_target-allowed :
      (file : Option Value) {flag : Option Finding}
      → decide_target host ctx cwd file ≡ allow flag
      → (raw : String) × (file ≡ some (text raw))
        × (denied_basename host (render (canon host ctx cwd raw)) ≡ false)
        × (target_inside_secret host ctx cwd (canon host ctx cwd raw) ≡ false)
        × (unreachable host ctx cwd (canon host ctx cwd raw) ≡ false)
  unfolding decide_target
  decide_target-allowed none h = absurd (ground arith)
  decide_target-allowed (some (other s)) h = absurd (ground arith)
  decide_target-allowed (some (text raw)) h = (raw, refl, ground arith, ground arith, ground arith)

  decide-read :
      (args : List (String × Value))
      → decide_tool host ctx cwd "Read" args ≡ decide_target host ctx cwd (lookup "file_path" args)
  unfolding decide_tool is_mcp_tool strip_prefix
  decide-read args = refl

  -- A `Read` that is allowed names a file by a text. Where that text leads, after symbolic links,
  -- no file name is denied, no denied path holds the file, whether as written or where it leads,
  -- and a root of the scope holds it. A path holds what `is_inside` says it does: itself, and what
  -- lies below it by a first name that does not begin with two dots.
  pub decide-Read :
      (args : List (String × Value)) {flag : Option Finding}
      → decide host ctx (record { tool_name = "Read"; tool_input = some args; cwd = cwd })
        ≡ allow flag
      → (raw : String) × (lookup "file_path" args ≡ some (text raw))
        × (denied_basename host (render (canon host ctx cwd raw)) ≡ false)
        × Outside (canon host ctx cwd raw)
        × UnderRoot (canon host ctx cwd raw)
  unfolding decide
  decide-Read args h =
      let (raw, given, name, secret, reach) =
        decide_target-allowed (lookup "file_path" args) (sym (decide-read args) ∙ h) in
      (
        raw,
        given,
        name,
        target_inside_secret-Outside (canon host ctx cwd raw) secret,
        unreachable-UnderRoot (canon host ctx cwd raw) reach,
      )

  -- What a selector may be: none but for `Glob`, or a text that has no segment `..`, whose file
  -- name is not denied, and whose literal prefix leads to a root that is clear.
  abbrev pub SelectorIsClear : String → String → Option Value → Type 0
  SelectorIsClear tool raw_root none = (tool == "Glob") ≡ false
  SelectorIsClear tool raw_root (some (other _)) = ⊥
  SelectorIsClear tool raw_root (some (text selector)) =
      let prefix = glob_literal_prefix selector in
      let root = selector_root host ctx cwd raw_root prefix in
      (one_of ".." (split b'/' selector) ≡ false)
      × (denied_basename host selector ≡ false)
      × ((prefix ≡ "") ⊎ Apart root × UnderRoot root)

  -- What a scan may have: a root that is clear, and a selector that is.
  abbrev pub ScanIsClear : String → List (String × Value) → String → Type 0
  ScanIsClear tool args raw_root =
      (denied_basename host (render (canon host ctx cwd raw_root)) ≡ false)
      × Apart (canon host ctx cwd raw_root)
      × UnderRoot (canon host ctx cwd raw_root)
      × SelectorIsClear tool raw_root (selector_of tool args)

  -- The root that a scan names, or else the working directory.
  abbrev pub Names : Option Value → String → Type 0
  Names none raw_root = raw_root ≡ cwd
  Names (some (other _)) raw_root = ⊥
  Names (some (text path)) raw_root = raw_root ≡ (if path == "" then cwd else path)
