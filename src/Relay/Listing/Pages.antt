-- ===== src/Relay/Listing/Pages.antt =====
-- apps/relay/src/task-store.ts: the pages of `listCallerTasks`, one after the other, hold each of the
-- caller's calls once.
use agentcall.Base.{
  text_length, ℕ, zero, suc, ◌<◌, ◌≤◌, Bool, true, false, Option, none, some, String, List, [], ◌∷◌,
  ◌++◌, if◌then◌else◌, ltb, length, take, keep, map, ◌==◌, string_eq, nat_eq, ◌≡◌, ◌≢◌, refl, sym,
  ap, ◌∙◌, subst, ◌⊎◌, inl, inr, arith, All, All-append, Bool-cases, Option-cases, eq_iff,
}
use mathlib.Core.List.{append-nil, append_assoc, map-append}
use agentcall.Relay.Task.{PersistedTask}
use agentcall.Relay.Listing.{
  A2ATask, Claims, Cursor, behind, ListResponse, Platform, TaskListQuery, after_cursor,
  decode_cursor, encode_cursor, is_visible, last_of, list_caller_tasks, next_token, page,
  listed_before, query_fingerprint, to_a2a_task, visible_tasks,
}
use agentcall.Relay.Listing.Order.{Sorted, keep-Sorted}
use agentcall.Relay.Listing.Sorting.{
  DistinctIds, IsOrdered, irreflexive, sort_tasks-All, sort_tasks-Sorted, transitive,
}

abbrev pub drop : ℕ → List PersistedTask → List PersistedTask
drop zero ts = ts
drop (suc n) [] = []
drop (suc n) (t ∷ ts) = drop n ts

take-drop : (n : ℕ) (ts : List PersistedTask) → take n ts ++ drop n ts ≡ ts
take-drop zero ts = refl
take-drop (suc n) [] = refl
take-drop (suc n) (t ∷ ts) = ap (λ l. t ∷ l) (take-drop n ts)

take_all :
    (n : ℕ) (ts : List PersistedTask)
    → ltb (length (take n ts)) (length ts) ≡ false
    → take n ts ≡ ts
take_all zero [] h = refl
take_all zero (t ∷ ts) h = absurd (ground arith)
take_all (suc n) [] h = refl
take_all (suc n) (t ∷ ts) h = ap (λ l. t ∷ l) (take_all n ts (ground arith))

last_of-some :
    (ts : List PersistedTask) {last : PersistedTask}
    → last_of ts ≡ some last
    → (before : List PersistedTask) × (ts ≡ before ++ last ∷ [])
last_of-some [] h = absurd (ground arith)
last_of-some (t ∷ []) h = ([], ground arith)
last_of-some (t ∷ next ∷ ts) h =
    let (before, e) = last_of-some (next ∷ ts) h in (t ∷ before, ap (λ l. t ∷ l) e)

last_of-none : (ts : List PersistedTask) → last_of ts ≡ none → ts ≡ []
last_of-none [] h = refl
last_of-none (t ∷ []) h = absurd (ground arith)
last_of-none (t ∷ next ∷ ts) h = absurd (ground (arith, last_of-none (next ∷ ts)))

-- A caller that follows the page tokens, from a token on; `none` is where it starts.
module _ (platform : Platform) (all_tasks : List PersistedTask) (caller : String)
    (q : TaskListQuery) (scope : String) where
  pub walk : ℕ → Option String → List A2ATask
  walk zero token = []
  walk (suc n) token =
      elim (list_caller_tasks platform all_tasks caller (record q { page_token = token }) scope) [
        | none ↦ []
        | some r ↦
            r.tasks ++ (if r.next_page_token == "" then [] else walk n (some r.next_page_token))
      ]

module _ (platform : Platform) (IsId : String → Type 0) (laws : IsOrdered platform IsId)
    (all_tasks : List PersistedTask) (caller : String) (q : TaskListQuery) (scope : String)
    (ids : All (λ t. IsId t.call_id) all_tasks)
    (short : All (λ t. text_length (encode_cursor platform t caller q scope) ≤ 1024) all_tasks)
    (distinct : DistinctIds all_tasks) (sized : 0 < q.page_size) where
  All-keep :
      (P : PersistedTask → Type 0) (p : PersistedTask → Bool) (ts : List PersistedTask)
      → All P ts
      → All P (keep p ts)
  All-keep P p [] h = tt
  All-keep P p (t ∷ ts) h = elim (Bool-cases (p t)) [
    | inl e ↦ rw e (h.0, All-keep P p ts h.1)
    | inr e ↦ rw e (All-keep P p ts h.1)
  ]

  DistinctIds-keep :
      (p : PersistedTask → Bool) (ts : List PersistedTask)
      → DistinctIds ts
      → DistinctIds (keep p ts)
  DistinctIds-keep p [] h = tt
  DistinctIds-keep p (t ∷ ts) h = elim (Bool-cases (p t)) [
    | inl e ↦ rw e (All-keep (λ u. t.call_id ≢ u.call_id) p ts h.0, DistinctIds-keep p ts h.1)
    | inr e ↦ rw e (DistinctIds-keep p ts h.1)
  ]

  abbrev visible : List PersistedTask
  visible = visible_tasks platform all_tasks caller q

  visible-Sorted :
      Sorted
        (listed_before platform)
        (irreflexive platform IsId laws)
        (transitive platform IsId laws)
        visible
  unfolding visible_tasks
  visible-Sorted =
      sort_tasks-Sorted platform IsId laws (keep (is_visible caller q) all_tasks)
        (All-keep (λ t. IsId t.call_id) (is_visible caller q) all_tasks ids)
        (DistinctIds-keep (is_visible caller q) all_tasks distinct)

  visible-HasId : All (λ t. IsId t.call_id) visible
  unfolding visible_tasks
  visible-HasId =
      sort_tasks-All platform IsId laws (λ t. IsId t.call_id) (keep (is_visible caller q) all_tasks)
        (All-keep (λ t. IsId t.call_id) (is_visible caller q) all_tasks ids)

  visible-Short : All (λ t. text_length (encode_cursor platform t caller q scope) ≤ 1024) visible
  unfolding visible_tasks
  visible-Short =
      sort_tasks-All platform IsId laws
        (λ t. text_length (encode_cursor platform t caller q scope) ≤ 1024)
        (keep (is_visible caller q) all_tasks)
        (All-keep (λ t. text_length (encode_cursor platform t caller q scope) ≤ 1024)
          (is_visible caller q) all_tasks short)

  cursor_of : PersistedTask → Cursor
  cursor_of t = behind t.created_at t.call_id

  -- Behind a call's cursor the same calls stand as behind the call in the sort's order.
  keep-after_cursor :
      (x : PersistedTask) (ts : List PersistedTask)
      → IsId x.call_id
      → All (λ t. IsId t.call_id) ts
      → keep (after_cursor platform (cursor_of x)) ts ≡ keep (listed_before platform x) ts
  unfolding after_cursor cursor_of
  keep-after_cursor x [] p ps = refl
  keep-after_cursor x (t ∷ ts) p ps =
      ground (arith, laws.agrees x.call_id t.call_id p ps.0, keep-after_cursor x ts p ps.1)

  -- A token of this listing decodes to the cursor of its call.
  decode_cursor-encode_cursor :
      (x : PersistedTask)
      → IsId x.call_id
      → text_length (encode_cursor platform x caller q scope) ≤ 1024
      → decode_cursor platform caller q scope (some (encode_cursor platform x caller q scope))
        ≡ cursor_of x
  unfolding decode_cursor encode_cursor cursor_of
  decode_cursor-encode_cursor x p fits =
      let c : Claims = record {
        created_at = x.created_at;
        id = x.call_id;
        caller = caller;
        scope = scope;
        fingerprint = platform.stringify (query_fingerprint q);
      } in
      rw (laws.named c) (
        rw (laws.decodes c fits) (
          ground (
            arith,
            laws.sized x.call_id p,
            eq_iff caller caller,
            eq_iff scope scope,
            eq_iff c.fingerprint c.fingerprint,
          )))

  decode_cursor-asking :
      (token value : Option String)
      → decode_cursor platform caller (record q { page_token = token }) scope value
        ≡ decode_cursor platform caller q scope value
  unfolding decode_cursor
  decode_cursor-asking token none = refl
  decode_cursor-asking token (some value) = refl

  pages_of : Option String → Option ListResponse
  pages_of token =
      list_caller_tasks platform all_tasks caller (record q { page_token = token }) scope

  -- The first page is of all that is visible.
  first_page : pages_of none ≡ some (page platform caller q scope visible visible)
  unfolding pages_of list_caller_tasks page decode_cursor visible_tasks next_token encode_cursor
  first_page = refl

  behind-page :
      (token : Option String) (created_at : ℕ) (id : String)
      → decode_cursor platform caller (record q { page_token = token }) scope token
        ≡ behind created_at id
      → pages_of token
        ≡ some (
            page platform caller q scope visible
              (keep (after_cursor platform (behind created_at id)) visible))
  unfolding pages_of list_caller_tasks page visible_tasks next_token encode_cursor
  behind-page token created_at id h = rw (h, pages_of, list_caller_tasks) refl

  -- The token of a call leads to the page of what follows the call.
  next_page :
      (before : List PersistedTask) (x : PersistedTask) (rest : List PersistedTask)
      → visible ≡ before ++ x ∷ rest
      → pages_of (some (encode_cursor platform x caller q scope))
        ≡ some (page platform caller q scope visible rest)
  unfolding cursor_of
  next_page before x rest e =
      let token = some (encode_cursor platform x caller q scope) in
      let fits : text_length (encode_cursor platform x caller q scope) ≤ 1024 =
        (All-append (λ t. text_length (encode_cursor platform t caller q scope) ≤ 1024) before
          (x ∷ rest)
          (subst (All (λ t. text_length (encode_cursor platform t caller q scope) ≤ 1024)) e
            visible-Short)).1.0 in
      let p : IsId x.call_id =
        (All-append (λ t. IsId t.call_id) before (x ∷ rest)
          (subst (All (λ t. IsId t.call_id)) e visible-HasId)).1.0 in
      let h = decode_cursor-asking token token ∙ decode_cursor-encode_cursor x p fits in
      let behind_x = keep-after_cursor x visible p visible-HasId in
      let rest_of : keep (listed_before platform x) visible ≡ rest =
        subst (λ l. keep (listed_before platform x) l ≡ rest) (sym e)
          (keep-Sorted (listed_before platform) (irreflexive platform IsId laws)
            (transitive platform IsId laws) before x rest
            (subst
              (Sorted (listed_before platform) (irreflexive platform IsId laws)
                (transitive platform IsId laws))
              e visible-Sorted)) in
      behind-page token x.created_at x.call_id h
      ∙ ap (λ l. some (page platform caller q scope visible l)) (behind_x ∙ rest_of)

  -- What a walk takes up from a page on: the page, and what stands behind it.
  page-walk :
      (n : ℕ) (token : Option String) (rest : List PersistedTask)
      → pages_of token ≡ some (page platform caller q scope visible rest)
      → walk platform all_tasks caller q scope (suc n) token
        ≡ map (to_a2a_task q.include_artifacts) (take q.page_size rest)
          ++ (if next_token platform caller q scope rest (take q.page_size rest) == ""
              then []
              else walk platform all_tasks caller q scope n
                  (some (next_token platform caller q scope rest (take q.page_size rest))))
  unfolding walk page pages_of
  page-walk n token rest h = rw (h, walk) refl

  last_page :
      (n : ℕ) (token : Option String) (rest : List PersistedTask)
      → pages_of token ≡ some (page platform caller q scope visible rest)
      → take q.page_size rest ≡ rest
      → next_token platform caller q scope rest (take q.page_size rest) ≡ ""
      → walk platform all_tasks caller q scope (suc n) token
        ≡ map (to_a2a_task q.include_artifacts) rest
  last_page n token rest h whole done =
      page-walk n token rest h
      ∙ rw done (rw whole (append-nil (map (to_a2a_task q.include_artifacts) rest)))

  next_token-end :
      (rest selected : List PersistedTask)
      → (last_of selected ≡ none) ⊎ (ltb (length selected) (length rest) ≡ false)
      → next_token platform caller q scope rest selected ≡ ""
  unfolding next_token
  next_token-end rest selected (inl e) = rw (e, next_token) refl
  next_token-end rest selected (inr e) = elim (Option-cases (last_of selected)) [
    | inl l ↦ rw (l, next_token) refl
    | inr (x, l) ↦ rw (l, next_token) (rw e refl)
  ]

  next_token-more :
      (rest selected : List PersistedTask) (x : PersistedTask)
      → last_of selected ≡ some x
      → ltb (length selected) (length rest) ≡ true
      → next_token platform caller q scope rest selected ≡ encode_cursor platform x caller q scope
  unfolding next_token
  next_token-more rest selected x l e = rw (l, next_token) (rw e refl)

  encode_cursor-named : (x : PersistedTask) → encode_cursor platform x caller q scope == "" ≡ false
  unfolding encode_cursor
  encode_cursor-named x = laws.named _

  take-none : (k : ℕ) (ts : List PersistedTask) → 0 < k → take k ts ≡ [] → take k ts ≡ ts
  take-none (suc k) [] h e = refl
  take-none (suc k) (t ∷ ts) h e = absurd (ground arith)
  take-none zero ts h e = absurd (ground arith)

  drop_shorter : (k : ℕ) (ts : List PersistedTask) → length (drop k ts) < suc (length ts)
  drop_shorter zero ts = omega arith
  drop_shorter (suc k) [] = omega arith
  drop_shorter (suc k) (t ∷ ts) = let shorter = drop_shorter k ts in omega arith

  drop-length :
      (k : ℕ) (ts : List PersistedTask)
      → 0 < k
      → ltb (length (take k ts)) (length ts) ≡ true
      → length (drop k ts) < length ts
  drop-length zero ts h e = absurd (ground arith)
  drop-length (suc k) [] h e = absurd (ground arith)
  drop-length (suc k) (t ∷ ts) h e = drop_shorter k ts

  -- Where the calls behind a page's last one stand.
  split_at :
      (before rest : List PersistedTask) {x : PersistedTask}
      → visible ≡ before ++ rest
      → last_of (take q.page_size rest) ≡ some x
      → (own : List PersistedTask) × (visible ≡ own ++ x ∷ drop q.page_size rest)
  split_at before rest {x} e l =
      let behind_x = drop q.page_size rest in
      let (own, ends) = last_of-some (take q.page_size rest) l in
      let parts : rest ≡ own ++ x ∷ behind_x =
        sym (take-drop q.page_size rest)
        ∙ ap (λ s. s ++ behind_x) ends
        ∙ append_assoc own (x ∷ []) behind_x in
      (
        before ++ own,
        e ∙ ap (λ s. before ++ s) parts ∙ sym (append_assoc before own (x ∷ behind_x)),
      )

  walk-from :
      (n : ℕ) (token : Option String) (before rest : List PersistedTask)
      → visible ≡ before ++ rest
      → length rest < n
      → pages_of token ≡ some (page platform caller q scope visible rest)
      → walk platform all_tasks caller q scope n token ≡ map (to_a2a_task q.include_artifacts) rest
  walk-from zero token before rest e enough h = elim enough [ ]
  walk-from (suc n) token before rest e enough h =
      let selected = take q.page_size rest in
      elim (Option-cases (last_of selected)) [
        | inl l ↦
            last_page n token rest h (take-none q.page_size rest sized (last_of-none selected l))
              (next_token-end rest selected (inl l))
        | inr (x, l) ↦ elim (Bool-cases (ltb (length selected) (length rest))) [
          | inr all ↦
              last_page n token rest h (take_all q.page_size rest all)
                (next_token-end rest selected (inr all))
          | inl more ↦
              let behind_x = drop q.page_size rest in
              let (own, at_x) = split_at before rest e l in
              let f = to_a2a_task q.include_artifacts in
              let onward =
                walk-from n (some (encode_cursor platform x caller q scope)) (own ++ x ∷ [])
                  behind_x (at_x ∙ sym (append_assoc own (x ∷ []) behind_x))
                  (let shorter = drop-length q.page_size rest sized more in omega arith)
                  (next_page own x behind_x at_x) in
              page-walk n token rest h
              ∙ rw (next_token-more rest selected x l more) (
                  rw (encode_cursor-named x) (
                    ap (λ s. map f selected ++ s) onward
                    ∙ sym (map-append f selected behind_x)
                    ∙ ap (map f) (take-drop q.page_size rest)))
        ]
      ]

  -- The pages that a caller gets by following the page tokens from the first page on are, one after
  -- the other, the whole list of its own calls that match the query, in the listing's order: when the
  -- ids of the stored calls differ, a page holds at least one call, the tokens of the calls have at
  -- most 1024 units, decode to what was signed and are not empty, and `localeCompare` orders the ids strictly, totally and as `<` does.
  pub walk-visible_tasks :
      (fuel : ℕ)
      → length (visible_tasks platform all_tasks caller q) < fuel
      → walk platform all_tasks caller q scope fuel none
        ≡ map (to_a2a_task q.include_artifacts) (visible_tasks platform all_tasks caller q)
  walk-visible_tasks fuel enough = walk-from fuel none [] visible refl enough first_page
