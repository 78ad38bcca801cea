-- ===== src/Examples/Pairs.antt =====
-- A printed pair of texts and its parse, for the concrete runs.
use Prim.Native.Char.{Char, char, code}
use agentcall.Base.{
  Option, none, some, String, ◌≡◌, refl, arith, if◌then◌else◌, ◌==◌, string_eq, nat_eq,
}

abbrev end_mark : Char
end_mark = char b'.' tt

abbrev next_mark : Char
next_mark = char b'+' tt

-- Two texts in one: a mark stands before each character of the first.
unfoldable pub print_pair : String → String → String
print_pair String.[] signature = String.◌∷◌ end_mark signature
print_pair (String.◌∷◌ c message) signature =
    String.◌∷◌ next_mark (String.◌∷◌ c (print_pair message signature))

unfoldable pub parse_pair : String → Option (String × String)
parse_pair String.[] = none
parse_pair (String.◌∷◌ mark String.[]) = if code mark == b'.' then some ("", "") else none
parse_pair (String.◌∷◌ mark (String.◌∷◌ c rest)) =
    let more = parse_pair rest in
    if code mark == b'.' then some ("", String.◌∷◌ c rest) else elim more [
      | none ↦ none
      | some (message, signature) ↦ some (String.◌∷◌ c message, signature)
    ]

pub parse_pair-print_pair :
    (message signature : String)
    → parse_pair (print_pair message signature) ≡ some (message, signature)
unfolding print_pair parse_pair
parse_pair-print_pair String.[] String.[] = refl
parse_pair-print_pair String.[] (String.◌∷◌ c s) = refl
parse_pair-print_pair (String.◌∷◌ c m) s = ground (arith, parse_pair-print_pair m s)
