-- ===== src/Cli/Guard/Exceptions.antt =====
-- packages/cli/src/guard.ts and scope.ts: the exceptions of `isReadable` meet `targetInsideSecret`.
use agentcall.Base.{string_eq}
use agentcall.Cli.Guard.Paths.{FilePath, Host, canonical_path, join, resolve_from}
use agentcall.Cli.Guard.Decide.{DecideContext}

abbrev pub claude_dir : Host → DecideContext → FilePath
claude_dir host ctx =
    canonical_path host (resolve_from host.process_cwd (join ctx.user_home ".claude"))
