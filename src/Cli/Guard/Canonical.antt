-- ===== src/Cli/Guard/Canonical.antt =====
-- packages/cli/src/path-canon.ts: what `canonical` returns.
use agentcall.Base.{
  Option, none, some, String, List, [], ◌∷◌, ◌++◌, ◌≡◌, refl, sym, ap, ◌∙◌, ◌⊎◌, inl, inr,
  string_eq, Option-cases, subst, get_or,
}
use mathlib.Core.List.{reverse, append-nil, append_assoc, reverse-cons, reverse-reverse}
use agentcall.Cli.Guard.Paths.{FilePath, Host, canonical_path, longest_existing}

-- What the loop of `canonical` tries first: nothing between the resolved part and the whole path
-- resolves.
abbrev pub NothingLonger : (FilePath → Option FilePath) → FilePath → List String → Type 0
NothingLonger realpath prefix [] = Unit {0}
NothingLonger realpath prefix (name ∷ names) =
    (realpath (prefix ++ name ∷ []) ≡ none) × NothingLonger realpath (prefix ++ name ∷ []) names

-- Either nothing on the way to the root resolves, or the path splits where its longest resolvable
-- part ends.
abbrev pub Resolution : (FilePath → Option FilePath) → FilePath → Option FilePath → Type 0
Resolution realpath abs none = (realpath [] ≡ none) × NothingLonger realpath [] abs
Resolution realpath abs (some result) =
    (part real tail_of : FilePath) × (abs ≡ part ++ tail_of)
    × (realpath part ≡ some real)
    × NothingLonger realpath part tail_of
    × (result ≡ real ++ tail_of)

-- A path with its canonical form.
abbrev pub Canonical : (FilePath → Option FilePath) → FilePath → FilePath → Type 0
Canonical realpath abs result =
    (result ≡ abs) × (realpath [] ≡ none) × NothingLonger realpath [] abs
    ⊎ ((part real tail_of : FilePath) × (abs ≡ part ++ tail_of)
        × (realpath part ≡ some real)
        × NothingLonger realpath part tail_of
        × (result ≡ real ++ tail_of))

longest_existing-found :
    (realpath : FilePath → Option FilePath) (back tail_of : FilePath) {real : FilePath}
    → realpath (reverse back) ≡ some real
    → longest_existing realpath back tail_of ≡ some (real ++ tail_of)
unfolding longest_existing
longest_existing-found realpath [] tail_of e = rw (e, longest_existing)
longest_existing-found realpath (name ∷ back) tail_of e = rw (e, longest_existing)

root_lost :
    (realpath : FilePath → Option FilePath) (tail_of : FilePath)
    → realpath [] ≡ none
    → longest_existing realpath [] tail_of ≡ none
unfolding longest_existing
root_lost realpath tail_of e = rw e

longest_existing-lost :
    (realpath : FilePath → Option FilePath) (name : String) (back tail_of : FilePath)
    → realpath (reverse (name ∷ back)) ≡ none
    → longest_existing realpath (name ∷ back) tail_of
      ≡ longest_existing realpath back (name ∷ tail_of)
unfolding longest_existing
longest_existing-lost realpath name back tail_of e = rw (e, longest_existing)

found-Resolution :
    (realpath : FilePath → Option FilePath) (back tail_of : FilePath) {real : FilePath}
    → NothingLonger realpath (reverse back) tail_of
    → realpath (reverse back) ≡ some real
    → Resolution realpath (reverse back ++ tail_of) (longest_existing realpath back tail_of)
found-Resolution realpath back tail_of {real} longer e =
    subst (Resolution realpath (reverse back ++ tail_of))
      (sym (longest_existing-found realpath back tail_of e))
      (reverse back, real, tail_of, refl, e, longer, refl)

longest_existing-Resolution :
    (realpath : FilePath → Option FilePath) (back tail_of : FilePath)
    → NothingLonger realpath (reverse back) tail_of
    → Resolution realpath (reverse back ++ tail_of) (longest_existing realpath back tail_of)
longest_existing-Resolution realpath [] tail_of longer = elim (Option-cases (realpath [])) [
  | inl e ↦ subst (Resolution realpath tail_of) (sym (root_lost realpath tail_of e)) (e, longer)
  | inr (real, e) ↦ found-Resolution realpath [] tail_of longer e
]
longest_existing-Resolution realpath (name ∷ back) tail_of longer =
    elim (Option-cases (realpath (reverse (name ∷ back)))) [
      | inl e ↦
          let above : Resolution realpath (reverse back ++ name ∷ tail_of)
              (longest_existing realpath back (name ∷ tail_of)) =
            longest_existing-Resolution realpath back (name ∷ tail_of) (
              subst (λ p. (realpath p ≡ none) × NothingLonger realpath p tail_of)
                (reverse-cons name back) (e, longer)) in
          subst (λ r. Resolution realpath (reverse (name ∷ back) ++ tail_of) r)
            (sym (longest_existing-lost realpath name back tail_of e))
            (subst (λ p. Resolution realpath p (longest_existing realpath back (name ∷ tail_of)))
              (sym (
                ap (λ p. p ++ tail_of) (reverse-cons name back)
                ∙ append_assoc (reverse back) (name ∷ []) tail_of))
              above)
      | inr (real, e) ↦ found-Resolution realpath (name ∷ back) tail_of longer e
    ]

Resolution-Canonical :
    (realpath : FilePath → Option FilePath) (abs : FilePath) (found : Option FilePath)
    → Resolution realpath abs found
    → Canonical realpath abs (get_or found abs)
Resolution-Canonical realpath abs none (e, longer) = inl (refl, e, longer)
Resolution-Canonical realpath abs (some result) (part, real, tail_of, e, f, longer, same) =
    inr (part, real, tail_of, e, f, longer, same)

-- `canonical` resolves the longest part of the path that resolves, and keeps the names after it as
-- they are; where not even the root resolves, the path is returned as it is.
pub canonical_path-Canonical :
    (host : Host) (abs : FilePath) → Canonical host.realpath abs (canonical_path host abs)
unfolding canonical_path
canonical_path-Canonical host abs =
    let found = longest_existing host.realpath (reverse abs) [] in
    Resolution-Canonical host.realpath abs found (
      subst (λ p. Resolution host.realpath p found) (append-nil _ ∙ reverse-reverse abs)
        (longest_existing-Resolution host.realpath (reverse abs) [] tt))
