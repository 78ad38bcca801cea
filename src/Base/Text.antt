-- ===== src/Base/Text.antt =====
-- Texts, code point by code point: splitting, joining and the tests at either end.
use Prim.Native.Nat.{ℕ, ◌+◌}
use Prim.Native.Char.{Char, code}
use Prim.Native.String
use Prim.Native.String.{String}
use mathlib.Core.Bool.{Bool, ◌||◌}
use mathlib.Core.List.{List, [], ◌∷◌}
use mathlib.Core.Option.{Option, none, some}
use agentcall.Base.Tests.{if◌then◌else◌, ◌==◌, string_eq, nat_eq, ltb}

abbrev pub extend_first : Char → List String → List String
extend_first c [] = String.◌∷◌ c "" ∷ []
extend_first c (part ∷ parts) = String.◌∷◌ c part ∷ parts

-- `text.split(separator)`, at one code point
unfoldable pub split : ℕ → String → List String
split separator String.[] = "" ∷ []
split separator (String.◌∷◌ c s) =
    let parts = split separator s in
    if code c == separator then "" ∷ parts else extend_first c parts

-- `parts.join(separator)`
unfoldable pub intercalate : String → List String → String
intercalate separator [] = ""
intercalate separator (part ∷ []) = part
intercalate separator (part ∷ next ∷ parts) =
    String.◌++◌ part (String.◌++◌ separator (intercalate separator (next ∷ parts)))

unfoldable pub ends_with : String → String → Bool
ends_with String.[] t = t == ""
ends_with (String.◌∷◌ c s) t = String.◌∷◌ c s == t || ends_with s t

-- The text after a prefix, if it has that prefix.
unfoldable pub strip_prefix : String → String → Option String
strip_prefix String.[] s = some s
strip_prefix (String.◌∷◌ c p) String.[] = none
strip_prefix (String.◌∷◌ c p) (String.◌∷◌ d s) =
    let rest = strip_prefix p s in if code c == code d then rest else none

-- `text.length`: a code point past the basic plane takes two units.
unfoldable pub text_length : String → ℕ
text_length String.[] = 0
text_length (String.◌∷◌ c s) = (if ltb (code c) 65536 then 1 else 2) + text_length s
