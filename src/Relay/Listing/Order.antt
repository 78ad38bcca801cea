-- ===== src/Relay/Listing/Order.antt =====
-- apps/relay/src/task-store.ts: lists that a strict order sorts, and what stands behind one of their
-- members.
use agentcall.Base.{
  Bool, true, false, ◌≡◌, refl, ◌⊎◌, inl, inr, List, [], ◌∷◌, ◌++◌, arith, All, All-append, keep,
  if◌then◌else◌, Bool-cases,
}

module _ {A : Type 0} (lt : A → A → Bool) (irreflexive : (a : A) → lt a a ≡ false)
    (transitive : (a b c : A) → lt a b ≡ true → lt b c ≡ true → lt a c ≡ true) where
  abbrev pub Sorted : List A → Type 0
  Sorted [] = Unit
  Sorted (x ∷ xs) = All (λ y. lt x y ≡ true) xs × Sorted xs

  abbrev pub Comparable : A → List A → Type 0
  Comparable a xs = All (λ x. (lt a x ≡ true) ⊎ (lt x a ≡ true)) xs

  unfoldable pub insert : A → List A → List A
  insert a [] = a ∷ []
  insert a (x ∷ xs) = if lt x a then x ∷ insert a xs else a ∷ x ∷ xs

  pub insert-All : (P : A → Type 0) (a : A) (xs : List A) → P a → All P xs → All P (insert a xs)
  unfolding insert
  insert-All P a [] p ps = (p, tt)
  insert-All P a (x ∷ xs) p ps = elim (Bool-cases (lt x a)) [
    | inl e ↦ rw e (ps.0, insert-All P a xs p ps.1)
    | inr e ↦ rw e (p, ps)
  ]

  after_each :
      (a x : A) (xs : List A)
      → lt a x ≡ true
      → All (λ y. lt x y ≡ true) xs
      → All (λ y. lt a y ≡ true) xs
  after_each a x [] h ps = tt
  after_each a x (y ∷ ys) h ps = (transitive a x y h ps.0, after_each a x ys h ps.1)

  pub insert-Sorted : (a : A) (xs : List A) → Comparable a xs → Sorted xs → Sorted (insert a xs)
  unfolding insert
  insert-Sorted a [] c s = (tt, tt)
  insert-Sorted a (x ∷ xs) c s = elim (Bool-cases (lt x a)) [
    | inl e ↦ rw e (insert-All (λ y. lt x y ≡ true) a xs e s.0, insert-Sorted a xs c.1 s.1)
    | inr e ↦
        let under : lt a x ≡ true = elim c.0 [ inl d ↦ d | inr d ↦ cc ] in
        rw e ((under, after_each a x xs under s.0), s)
  ]

  keep_whole : (x : A) (xs : List A) → All (λ y. lt x y ≡ true) xs → keep (lt x) xs ≡ xs
  keep_whole x [] h = refl
  keep_whole x (y ∷ ys) h = ground (arith, h.0, keep_whole x ys h.1)

  -- What stands behind a member of a sorted list is what follows it.
  pub keep-Sorted :
      (before : List A) (x : A) (rest : List A)
      → Sorted (before ++ x ∷ rest)
      → keep (lt x) (before ++ x ∷ rest) ≡ rest
  keep-Sorted [] x rest s = ground (arith, irreflexive x, keep_whole x rest s.0)
  keep-Sorted (p ∷ before) x rest s =
      let ahead : lt p x ≡ true = (All-append (λ y. lt p y ≡ true) before (x ∷ rest) s.0).1.0 in
      let not_behind : lt x p ≡ false = elim (Bool-cases (lt x p)) [
        | inl e ↦ let own = transitive x p x e ahead in let never = irreflexive x in cc
        | inr e ↦ e
      ] in
      ground (arith, not_behind, keep-Sorted before x rest s.1)
