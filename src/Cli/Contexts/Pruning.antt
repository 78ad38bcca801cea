-- ===== src/Cli/Contexts/Pruning.antt =====
-- packages/cli/src/contexts.ts: what `pruneContexts` keeps.
use agentcall.Base.{
  ℕ, zero, suc, ◌-◌, ◌≤◌, ◌<◌, ◌≡◌, true, List, [], ◌∷◌, leb, keep, take, length, arith, refl, sym,
  ◌⊎◌, inl, inr, Bool-cases, All, Any, subst, ap, ◌*◌,
}
use agentcall.Cli.Contexts.{
  ContextBinding, insert_recent, is_fresh, max_contexts, prune_contexts, sort_recent,
}

-- `b` stands in the list.
abbrev pub Stored : ContextBinding → List ContextBinding → Type 0
Stored b bs = Any (λ c. b ≡ c) bs

abbrev pub AllSince : ContextBinding → List ContextBinding → Type 0
AllSince b bs = All (λ c. b.last_used_at ≤ c.last_used_at) bs

abbrev pub AllBefore : ContextBinding → List ContextBinding → Type 0
AllBefore b bs = All (λ c. c.last_used_at ≤ b.last_used_at) bs

-- The last used first.
abbrev pub RecentFirst : List ContextBinding → Type 0
RecentFirst [] = Unit
RecentFirst (b ∷ bs) = AllBefore b bs × RecentFirst bs

AllBefore-Stored :
    (c b : ContextBinding) (bs : List ContextBinding)
    → AllBefore c bs
    → Stored b bs
    → b.last_used_at ≤ c.last_used_at
AllBefore-Stored c b [] h m = absurd m
AllBefore-Stored c b (d ∷ bs) h (inl e) = subst (λ x. x.last_used_at ≤ c.last_used_at) (sym e) h.0
AllBefore-Stored c b (d ∷ bs) h (inr m) = AllBefore-Stored c b bs h.1 m

AllBefore-widen :
    (c b : ContextBinding) (bs : List ContextBinding)
    → c.last_used_at ≤ b.last_used_at
    → AllBefore c bs
    → AllBefore b bs
AllBefore-widen c b [] le h = tt
AllBefore-widen c b (d ∷ bs) le h = (omega (arith, le, h.0), AllBefore-widen c b bs le h.1)

insert_recent-All :
    (P : ContextBinding → Type 0) (b : ContextBinding) (bs : List ContextBinding)
    → P b
    → All P bs
    → All P (insert_recent b bs)
unfolding insert_recent
insert_recent-All P b [] p h = (p, tt)
insert_recent-All P b (d ∷ bs) p h = elim (Bool-cases (leb d.last_used_at b.last_used_at)) [
  | inl e ↦ rw e (p, h)
  | inr e ↦ rw e (h.0, insert_recent-All P b bs p h.1)
]

sort_recent-All :
    (P : ContextBinding → Type 0) (bs : List ContextBinding) → All P bs → All P (sort_recent bs)
unfolding sort_recent
sort_recent-All P [] h = tt
sort_recent-All P (b ∷ bs) h = insert_recent-All P b (sort_recent bs) h.0 (sort_recent-All P bs h.1)

take-All :
    (P : ContextBinding → Type 0) (n : ℕ) (bs : List ContextBinding) → All P bs → All P (take n bs)
take-All P zero bs h = tt
take-All P (suc n) [] h = tt
take-All P (suc n) (b ∷ bs) h = (h.0, take-All P n bs h.1)

insert_recent-RecentFirst :
    (b : ContextBinding) (bs : List ContextBinding)
    → RecentFirst bs
    → RecentFirst (insert_recent b bs)
unfolding insert_recent
insert_recent-RecentFirst b [] h = (tt, tt)
insert_recent-RecentFirst b (d ∷ bs) h = elim (Bool-cases (leb d.last_used_at b.last_used_at)) [
  | inl e ↦
      let le : d.last_used_at ≤ b.last_used_at = ground arith in
      rw e ((le, AllBefore-widen d b bs le h.0), h)
  | inr e ↦
      let le : b.last_used_at ≤ d.last_used_at = ground arith in
      rw e (
        insert_recent-All (λ c. c.last_used_at ≤ d.last_used_at) b bs le h.0,
        insert_recent-RecentFirst b bs h.1,
      )
]

sort_recent-RecentFirst : (bs : List ContextBinding) → RecentFirst (sort_recent bs)
unfolding sort_recent
sort_recent-RecentFirst [] = tt
sort_recent-RecentFirst (b ∷ bs) =
    insert_recent-RecentFirst b (sort_recent bs) (sort_recent-RecentFirst bs)

insert_recent-Stored :
    (c b : ContextBinding) (bs : List ContextBinding)
    → (c ≡ b) ⊎ Stored c bs
    → Stored c (insert_recent b bs)
unfolding insert_recent
insert_recent-Stored c b [] h = h
insert_recent-Stored c b (d ∷ bs) h = elim (Bool-cases (leb d.last_used_at b.last_used_at)) [
  | inl e ↦ rw e h
  | inr e ↦ rw e (elim h [
    | inl own ↦ inr (insert_recent-Stored c b bs (inl own))
    | inr (inl first) ↦ inl first
    | inr (inr later) ↦ inr (insert_recent-Stored c b bs (inr later))
  ])
]

sort_recent-Stored :
    (b : ContextBinding) (bs : List ContextBinding) → Stored b bs → Stored b (sort_recent bs)
unfolding sort_recent
sort_recent-Stored b [] h = h
sort_recent-Stored b (c ∷ bs) (inl e) = insert_recent-Stored b c (sort_recent bs) (inl e)
sort_recent-Stored b (c ∷ bs) (inr m) =
    insert_recent-Stored b c (sort_recent bs) (inr (sort_recent-Stored b bs m))

keep-Stored :
    (now : ℕ) (b : ContextBinding) (bs : List ContextBinding)
    → is_fresh now b ≡ true
    → Stored b bs
    → Stored b (keep (is_fresh now) bs)
keep-Stored now b [] f h = h
keep-Stored now b (c ∷ bs) f h = elim (Bool-cases (is_fresh now c)) [
  | inl e ↦ rw e (elim h [ inl own ↦ inl own | inr m ↦ inr (keep-Stored now b bs f m) ])
  | inr e ↦ rw e (elim h [
    | inl own ↦ let own_fresh = ap (is_fresh now) own in absurd (ground arith)
    | inr m ↦ keep-Stored now b bs f m
  ])
]

take-Stored :
    (n : ℕ) (b : ContextBinding) (bs : List ContextBinding)
    → RecentFirst bs
    → Stored b bs
    → Stored b (take n bs) ⊎ ((length (take n bs) ≡ n) × AllSince b (take n bs))
take-Stored zero b bs s h = inr (refl, tt)
take-Stored (suc n) b [] s h = absurd h
take-Stored (suc n) b (c ∷ bs) s (inl e) = inl (inl e)
take-Stored (suc n) b (c ∷ bs) s (inr m) = elim (take-Stored n b bs s.1 m) [
  | inl kept ↦ inl (inr kept)
  | inr (full, since) ↦ inr (ap suc full, (AllBefore-Stored c b bs s.0 m, since))
]

take-RecentFirst : (n : ℕ) (bs : List ContextBinding) → RecentFirst bs → RecentFirst (take n bs)
take-RecentFirst zero bs s = tt
take-RecentFirst (suc n) [] s = tt
take-RecentFirst (suc n) (c ∷ bs) s =
    (take-All (λ d. d.last_used_at ≤ c.last_used_at) n bs s.0, take-RecentFirst n bs s.1)

-- Used within the last half hour.
abbrev pub AllLive : ℕ → List ContextBinding → Type 0
AllLive now bs = All (λ c. now - c.last_used_at < 30 * 60 * 1000) bs

keep-AllLive : (now : ℕ) (bs : List ContextBinding) → AllLive now (keep (is_fresh now) bs)
keep-AllLive now [] = tt
keep-AllLive now (b ∷ bs) = elim (Bool-cases (is_fresh now b)) [
  | inl e ↦ rw e (ground arith, keep-AllLive now bs)
  | inr e ↦ rw e (keep-AllLive now bs)
]

-- Pruning keeps a conversation that was used within the last half hour, unless 100 others are kept,
-- none of which was used less recently than it. What is kept was used within the last half hour and
-- stands in order, the last used first.
pub prune_contexts-Stored :
    (bindings : List ContextBinding) (now : ℕ) (b : ContextBinding)
    → Stored b bindings
    → now - b.last_used_at < 30 * 60 * 1000
    → AllLive now (prune_contexts bindings now)
      × RecentFirst (prune_contexts bindings now)
      × (Stored b (prune_contexts bindings now)
          ⊎ ((length (prune_contexts bindings now) ≡ 100)
              × AllSince b (prune_contexts bindings now)))
unfolding prune_contexts
prune_contexts-Stored bindings now b h recent =
    let fresh = keep (is_fresh now) bindings in
    let ordered = sort_recent-RecentFirst fresh in
    let Live : ContextBinding → Type 0 = λ c. now - c.last_used_at < 30 * 60 * 1000 in
    (
      take-All Live max_contexts (sort_recent fresh)
          (sort_recent-All Live fresh (keep-AllLive now bindings)),
      take-RecentFirst max_contexts (sort_recent fresh) ordered,
      take-Stored max_contexts b (sort_recent fresh) ordered
          (sort_recent-Stored b fresh (keep-Stored now b bindings (ground arith) h)),
    )
