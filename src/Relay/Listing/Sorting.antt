-- ===== src/Relay/Listing/Sorting.antt =====
-- apps/relay/src/task-store.ts: the order in which a caller's calls are listed.
use agentcall.Base.{
  ◌≤◌, ◌<◌, true, false, some, String, List, [], ◌∷◌, ◌==◌, string_eq, nat_eq, text_length, ◌≡◌,
  ◌≢◌, refl, ap, ◌⊎◌, inl, inr, arith, All, Bool-cases,
}
use agentcall.Relay.Task.{PersistedTask}
use agentcall.Relay.Listing.{Claims, Platform, insert_listed, listed_before, sort_tasks}
use agentcall.Relay.Listing.Order.{Comparable, Sorted, insert, insert-All, insert-Sorted}

-- What is relied on of the tokens and of the comparisons: a token of at most 1024 units decodes to
-- what it was made of, and none is empty; `localeCompare` orders strictly, and on the ids of calls it is total and agrees with
-- `<`; and such an id is neither empty nor longer than 128 units.
pub record IsOrdered (platform : Platform) (IsId : String → Type 0) : Type 0 where
  pub decodes :
      (c : Claims)
      → text_length (platform.encode_token c) ≤ 1024
      → platform.decode_token (platform.encode_token c) ≡ some c
  pub named : (c : Claims) → platform.encode_token c == "" ≡ false
  pub irreflexive : (a : String) → platform.locale_lt a a ≡ false
  pub transitive :
      (a b c : String)
      → platform.locale_lt a b ≡ true
      → platform.locale_lt b c ≡ true
      → platform.locale_lt a c ≡ true
  pub total :
      (a b : String)
      → IsId a
      → IsId b
      → a ≢ b
      → (platform.locale_lt a b ≡ true) ⊎ (platform.locale_lt b a ≡ true)
  pub agrees : (a b : String) → IsId a → IsId b → platform.unit_lt a b ≡ platform.locale_lt a b
  pub sized : (a : String) → IsId a → (0 < text_length a) × (text_length a ≤ 128)

abbrev pub DistinctIds : List PersistedTask → Type 0
DistinctIds [] = Unit
DistinctIds (t ∷ ts) = All (λ u. t.call_id ≢ u.call_id) ts × DistinctIds ts

module _ (platform : Platform) (IsId : String → Type 0) (laws : IsOrdered platform IsId) where
  pub irreflexive : (a : PersistedTask) → listed_before platform a a ≡ false
  irreflexive a = ground (arith, laws.irreflexive a.call_id)

  pub transitive :
      (a b c : PersistedTask)
      → listed_before platform a b ≡ true
      → listed_before platform b c ≡ true
      → listed_before platform a c ≡ true
  transitive a b c h k = ground (arith, laws.transitive a.call_id b.call_id c.call_id)

  abbrev pub HasId : PersistedTask → Type 0
  HasId t = IsId t.call_id

  comparable :
      (a b : PersistedTask)
      → HasId a
      → HasId b
      → a.call_id ≢ b.call_id
      → (listed_before platform a b ≡ true) ⊎ (listed_before platform b a ≡ true)
  comparable a b p q d = elim (laws.total a.call_id b.call_id p q d) [
    | inl h ↦ ground arith
    | inr h ↦ ground arith
  ]

  Comparable-All :
      (a : PersistedTask) (ts : List PersistedTask)
      → HasId a
      → All HasId ts
      → All (λ u. a.call_id ≢ u.call_id) ts
      → Comparable (listed_before platform) irreflexive transitive a ts
  Comparable-All a [] p ps d = tt
  Comparable-All a (t ∷ ts) p ps d = (comparable a t p ps.0 d.0, Comparable-All a ts p ps.1 d.1)

  insert_listed-insert :
      (a : PersistedTask) (ts : List PersistedTask)
      → insert_listed platform a ts ≡ insert (listed_before platform) irreflexive transitive a ts
  unfolding insert_listed insert
  insert_listed-insert a [] = refl
  insert_listed-insert a (t ∷ ts) = elim (Bool-cases (listed_before platform t a)) [
    | inl e ↦ rw e (ap (λ l. t ∷ l) (insert_listed-insert a ts))
    | inr e ↦ rw e refl
  ]

  pub sort_tasks-All :
      (P : PersistedTask → Type 0) (ts : List PersistedTask)
      → All P ts
      → All P (sort_tasks platform ts)
  unfolding sort_tasks
  sort_tasks-All P [] h = tt
  sort_tasks-All P (t ∷ ts) h = rw (insert_listed-insert t (sort_tasks platform ts)) (
      insert-All (listed_before platform) irreflexive transitive P t (sort_tasks platform ts) h.0
        (sort_tasks-All P ts h.1))

  pub sort_tasks-Sorted :
      (ts : List PersistedTask)
      → All HasId ts
      → DistinctIds ts
      → Sorted (listed_before platform) irreflexive transitive (sort_tasks platform ts)
  unfolding sort_tasks
  sort_tasks-Sorted [] p d = tt
  sort_tasks-Sorted (t ∷ ts) p d =
      let sorted = sort_tasks platform ts in
      rw (insert_listed-insert t sorted) (
        insert-Sorted (listed_before platform) irreflexive transitive t sorted
          (Comparable-All t sorted p.0 (sort_tasks-All HasId ts p.1)
            (sort_tasks-All (λ u. t.call_id ≢ u.call_id) ts d.0))
          (sort_tasks-Sorted ts p.1 d.1))
