-- ===== src/Cli/Guard/Outcome.antt =====
-- packages/cli/src/guard.ts: when the hook lets a tool run.
use agentcall.Base.{String, List, [], ◌∷◌, string_eq}

abbrev pub readable_tools : List String
readable_tools =
    "WebSearch" ∷ "ToolSearch" ∷ "Skill" ∷ "WebFetch" ∷ "Read" ∷ "Grep" ∷ "LS" ∷ "Glob" ∷ []
