-- ===== src/Examples/Listing.antt =====
-- Concrete pages of a caller's calls: tokens that quote each code point, and three ids of calls.
use Prim.Native.Char.{Char, char}
use agentcall.Base.{
  ℕ, zero, suc, ◌<◌, ◌≤◌, true, false, Option, none, some, String, List, [], ◌∷◌, ◌≡◌, ◌≢◌, refl,
  sym, subst, ap, ◌⊎◌, inl, inr, arith, if◌then◌else◌, ltb, ◌==◌, string_eq, nat_eq, eq_iff, ◌∙◌,
  Bool-cases, All, map, text_length, length,
}
use agentcall.Relay.Task.{PersistedTask}
use agentcall.Relay.Listing.{
  Claims, Platform, TaskListQuery, to_a2a_task, visible_tasks, sort_tasks, insert_listed,
  encode_cursor,
}
use agentcall.Relay.Listing.Sorting.{DistinctIds, IsOrdered}
use agentcall.Relay.Listing.Pages.{walk, walk-visible_tasks}
use agentcall.Examples.Pairs.{print_pair, parse_pair, parse_pair-print_pair}
use agentcall.Examples.Data.{waiting_task}
use agentcall.Relay.Mailbox.Caller.{durable_task, live_task}

ones : ℕ → String
ones zero = ""
ones (suc n) = String.◌∷◌ (char 49 tt) (ones n)

count : String → ℕ
count String.[] = 0
count (String.◌∷◌ c s) = suc (count s)

count-ones : (n : ℕ) → count (ones n) ≡ n
unfolding ones count
count-ones zero = refl
count-ones (suc n) = ap suc (count-ones n)

sign : Claims → String
sign c =
    print_pair (ones c.created_at)
      (print_pair c.id (print_pair c.caller (print_pair c.scope c.fingerprint)))

check : String → Option Claims
check token = elim (parse_pair token) [
  | none ↦ none
  | some (created_at, s) ↦ elim (parse_pair s) [
    | none ↦ none
    | some (id, t) ↦ elim (parse_pair t) [
      | none ↦ none
      | some (caller, u) ↦ elim (parse_pair u) [
        | none ↦ none
        | some (scope, fingerprint) ↦ some (record {
          created_at = count created_at;
          id = id;
          caller = caller;
          scope = scope;
          fingerprint = fingerprint;
        })
      ]
    ]
  ]
]

check-sign : (c : Claims) → check (sign c) ≡ some c
unfolding check sign
check-sign c =
    rw (parse_pair-print_pair (ones c.created_at) _, check, sign)
      (rw (parse_pair-print_pair c.id _) (
        rw (parse_pair-print_pair c.caller _)
          (rw (parse_pair-print_pair c.scope _) (rw (count-ones c.created_at) refl))))

cons-named : (c : Char) (s : String) → String.◌∷◌ c s == "" ≡ false
unfolding count
cons-named c s = elim (Bool-cases (String.◌∷◌ c s == "")) [
  | inr e ↦ e
  | inl e ↦
      let longer : suc (count s) ≡ 0 = ap count ((eq_iff (String.◌∷◌ c s) "").0 e) in
      absurd (omega arith)
]

print_pair-named : (s t : String) → print_pair s t == "" ≡ false
unfolding print_pair
print_pair-named String.[] t = cons-named _ t
print_pair-named (String.◌∷◌ c s) t = cons-named _ _

sign-named : (c : Claims) → sign c == "" ≡ false
unfolding sign
sign-named c = print_pair-named (ones c.created_at) _

abbrev place_of : String → ℕ
place_of id =
    if id == "call-1" then 1 else if id == "call-2" then 2 else if id == "call-3" then 3 else 0

abbrev IsId : String → Type 0
IsId id = (id ≡ "call-1") ⊎ ((id ≡ "call-2") ⊎ (id ≡ "call-3"))

abbrev platform : Platform
platform = record {
  encode_token = sign;
  decode_token = check;
  stringify = λ f. "query";
  locale_lt = λ a b. ltb (place_of a) (place_of b);
  unit_lt = λ a b. ltb (place_of a) (place_of b);
}

abbrev name_of : ℕ → String
name_of place_of = if place_of == 1 then "call-1" else if place_of == 2 then "call-2" else "call-3"

name_of-place_of : (id : String) → IsId id → name_of (place_of id) ≡ id
name_of-place_of id h = elim h [
  | inl e ↦ subst (λ s. name_of (place_of s) ≡ s) (sym e) refl
  | inr (inl e) ↦ subst (λ s. name_of (place_of s) ≡ s) (sym e) refl
  | inr (inr e) ↦ subst (λ s. name_of (place_of s) ≡ s) (sym e) refl
]

compared : (m n : ℕ) → m ≢ n → (ltb m n ≡ true) ⊎ (ltb n m ≡ true)
compared m n d = elim (Bool-cases (ltb m n)) [
  | inl e ↦ inl e
  | inr e ↦ inr (let differ = d in ground arith)
]

place_of-total :
    (a b : String)
    → IsId a
    → IsId b
    → a ≢ b
    → (ltb (place_of a) (place_of b) ≡ true) ⊎ (ltb (place_of b) (place_of a) ≡ true)
place_of-total a b p q d =
    compared (place_of a) (place_of b)
      (λ same. d (sym (name_of-place_of a p) ∙ ap name_of same ∙ name_of-place_of b q))

id-sized : (id : String) → IsId id → (0 < text_length id) × (text_length id ≤ 128)
unfolding text_length
id-sized id h = elim h [
  | inl e ↦ subst (λ s. (0 < text_length s) × (text_length s ≤ 128)) (sym e) (ground arith)
  | inr (inl e) ↦ subst (λ s. (0 < text_length s) × (text_length s ≤ 128)) (sym e) (ground arith)
  | inr (inr e) ↦ subst (λ s. (0 < text_length s) × (text_length s ≤ 128)) (sym e) (ground arith)
]

platform-IsOrdered : IsOrdered platform IsId
platform-IsOrdered = record {
  decodes = λ c fits. check-sign c;
  named = sign-named;
  irreflexive = λ a. ground arith;
  transitive = λ a b c h k. ground arith;
  total = place_of-total;
  agrees = λ a b p q. refl;
  sized = id-sized;
}

abbrev calls : List PersistedTask
calls =
    record waiting_task { call_id = "call-2"; created_at = 1 }
    ∷ record waiting_task { call_id = "call-1"; created_at = 2 }
    ∷ record waiting_task { call_id = "call-3"; created_at = 1 }
    ∷ []

abbrev query : TaskListQuery
query = record {
  status = none;
  page_size = 2;
  page_token = none;
  history_length = none;
  status_timestamp_after = none;
  include_artifacts = true;
}

places_differ : (a b : String) → ltb (place_of b) (place_of a) ≡ true → a ≢ b
places_differ a b more same = let equal_places = ap place_of same in ground arith

calls-DistinctIds : DistinctIds calls
calls-DistinctIds = (
  (places_differ "call-2" "call-1" refl, (λ e. places_differ "call-3" "call-2" refl (sym e), tt)),
  ((λ e. places_differ "call-3" "call-1" refl (sym e), tt), (tt, tt)),
)

three_visible : length (visible_tasks platform calls "ann" query) ≡ 3
unfolding visible_tasks sort_tasks insert_listed durable_task live_task
three_visible = refl

calls_short : All (λ t. text_length (encode_cursor platform t "ann" query "bob") ≤ 1024) calls
unfolding encode_cursor sign ones print_pair text_length durable_task live_task
calls_short = (ground arith, (ground arith, (ground arith, tt)))

walk-visible_tasks_example :
    walk platform calls "ann" query "bob" 5 none
    ≡ map (to_a2a_task true) (visible_tasks platform calls "ann" query)
walk-visible_tasks_example =
    walk-visible_tasks platform IsId platform-IsOrdered calls "ann" query "bob"
      (inr (inl refl), (inl refl, (inr (inr refl), tt))) calls_short calls-DistinctIds
      (ground arith) 5 (rw three_visible (ground arith))
