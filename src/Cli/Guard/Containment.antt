-- ===== src/Cli/Guard/Containment.antt =====
-- packages/cli/src/path-canon.ts: what `isInside` and `isAncestorOf` say of two paths.
use agentcall.Base.{
  true, false, String, List, [], ◌∷◌, ◌++◌, ◌≡◌, refl, ap, ◌∙◌, ◌↔◌, ◌⊎◌, inl, inr, arith,
  string_eq, eq_iff, Bool-cases, strip_prefix, ◌==◌, ◌||◌,
}
use mathlib.Core.List.{append-nil}
use agentcall.Cli.Guard.Paths.{FilePath, Host, folded, is_ancestor_of, is_inside, leaves, relative}

-- `path` is `root`, or lies below it by names of which the first is no way up and no root.
abbrev pub Contains : Host → FilePath → FilePath → Type 0
Contains host root path =
    (rest : List String) × (folded host path ≡ folded host root ++ rest) × (leaves rest ≡ false)

relative-append : (root rest : List String) → relative root (root ++ rest) ≡ rest
unfolding relative
relative-append [] rest = refl
relative-append (name ∷ root) rest = ground (arith, eq_iff name name, relative-append root rest)

relative_climbs :
    (name next : String) (root path : List String)
    → (name == next) ≡ false
    → leaves (relative (name ∷ root) (next ∷ path)) ≡ true
unfolding relative strip_prefix
relative_climbs name next root path e = rw e

leaves_end : (name : String) (root : FilePath) → leaves (relative (name ∷ root) []) ≡ true
unfolding relative strip_prefix
leaves_end name root = refl

relative_down :
    (root path : List String)
    → leaves (relative root path) ≡ false
    → path ≡ root ++ relative root path
unfolding relative
relative_down [] path h = refl
relative_down (name ∷ root) [] h = cc (leaves_end name root)
relative_down (name ∷ root) (next ∷ path) h = elim (Bool-cases (name == next)) [
  | inl e ↦
      let below : path ≡ root ++ relative root path = relative_down root path (rw e at h) in
      ground (arith, eq_iff name next)
  | inr e ↦ cc (relative_climbs name next root path e)
]

relative_of-Contains :
    (host : Host) (root path : FilePath) (k : Contains host root path)
    → relative (folded host root) (folded host path) ≡ k.0
relative_of-Contains host root path k =
    ap (relative (folded host root)) k.1 ∙ relative-append (folded host root) k.0

-- `is_inside` is containment, as its comment says but for names that begin with two dots: a path
-- is inside a root exactly if its folded form is the root's followed by no names, or by names of
-- which the first does not begin with `..`. So a file below a root under a name such as `..data`
-- is not inside it.
pub is_inside_lem :
    (host : Host) (path root : FilePath)
    → (is_inside host path root ≡ true) ↔ Contains host root path
unfolding is_inside
is_inside_lem host path root = (
  λ h. (
    relative (folded host root) (folded host path),
    relative_down (folded host root) (folded host path) (ground arith),
    ground arith,
  ),
  λ k. rw (relative_of-Contains host root path k, k.2),
)

is_ancestor_of_below :
    (host : Host) (path root : FilePath)
    → Contains host path root
    → (folded host root ≡ folded host path ++ []) ⊎ (is_ancestor_of host path root ≡ true)
unfolding is_ancestor_of
is_ancestor_of_below host path root ([], e, h) = inl e
is_ancestor_of_below host path root (name ∷ names, e, h) =
    inr
      (rw (relative_of-Contains host path root (name ∷ names, e, h), is_ancestor_of) (ground arith))

-- A scan's root that passes both tests is not inside the other path, nor above it.
pub apart_of_tests :
    (host : Host) (path root : FilePath)
    → (is_inside host path root || is_ancestor_of host path root) ≡ false
    → ¬ Contains host root path × ¬ Contains host path root
apart_of_tests host path root h =
    let outside : ¬ Contains host root path =
      λ k. ground (arith, (is_inside_lem host path root).1 k) in
    (
      outside,
      λ k. elim (is_ancestor_of_below host path root k) [
        | inl e ↦ outside ([], simp (e, append-nil), refl)
        | inr a ↦ ground arith
      ],
    )
