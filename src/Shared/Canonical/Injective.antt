-- ===== src/Shared/Canonical/Injective.antt =====
-- packages/shared/src/canonical.ts: no two lists of values have the same bytes.
use agentcall.Base.{
  true, ℕ, zero, suc, ◌*◌, ◌/◌, ◌%◌, ◌<◌, ◌^◌, some, List, [], ◌∷◌, ◌++◌, length, ◌≡◌, ◌≢◌, refl,
  sym, ap, ◌∙◌, arith, All, length-append, Option-cases, inl, inr,
}
use mathlib.Core.List.{append_assoc}
use agentcall.Shared.Utf8.{utf8, utf8_inj}
use agentcall.Shared.Canonical.{
  ℤ, pos, negsuc, CanonicalValue, text, ragged, utf8_points, number, fraction, null, big_endian,
  canonical_encode, encode_value, int64, is_safe,
}

-- A string has no lone surrogates and fewer than 2 ^ 32 bytes.
abbrev pub Fits : CanonicalValue → Type 0
Fits (text s) = length (utf8 s) < 2 ^ 32
Fits (ragged points) = ⊥
Fits _ = Unit

module _ {ℓ} {A : Type ℓ} where
  append_inj :
      (xs ys r s : List A) → length xs ≡ length ys → xs ++ r ≡ ys ++ s → (xs ≡ ys) × (r ≡ s)
  append_inj [] [] r s h e = (refl, e)
  append_inj [] (y ∷ ys) r s h e = absurd (omega arith)
  append_inj (x ∷ xs) [] r s h e = absurd (omega arith)
  append_inj (x ∷ xs) (y ∷ ys) r s h e =
      let (same, rest) = append_inj xs ys r s (omega arith) (ground arith) in (ground arith, rest)

length-big_endian : (k n : ℕ) → length (big_endian k n) ≡ k
unfolding big_endian
length-big_endian zero n = refl
length-big_endian (suc k) n =
    omega
      (arith, length-append (big_endian k (n / 256)) (n % 256 ∷ []), length-big_endian k (n / 256))

pow_step : (k : ℕ) → 256 ^ suc k ≡ 256 * 256 ^ k
pow_step k = omega arith

big_endian_inj : (k m n : ℕ) → m < 256 ^ k → n < 256 ^ k → big_endian k m ≡ big_endian k n → m ≡ n
unfolding big_endian
big_endian_inj zero m n hm hn h = omega arith
big_endian_inj (suc k) m n hm hn h =
    let (high, low) =
      append_inj (big_endian k (m / 256)) (big_endian k (n / 256)) (m % 256 ∷ []) (n % 256 ∷ [])
        (omega (arith, length-big_endian k (m / 256), length-big_endian k (n / 256))) h in
    let above : m / 256 ≡ n / 256 =
      big_endian_inj k (m / 256) (n / 256) (omega (arith, pow_step k)) (omega (arith, pow_step k))
        high in
    let below : m % 256 ≡ n % 256 = ground arith in omega arith

int64_inj : (i j : ℤ) → is_safe i ≡ true → is_safe j ≡ true → int64 i ≡ int64 j → i ≡ j
int64_inj (pos m) (pos n) hi hj h = ground arith
int64_inj (pos m) (negsuc n) hi hj h = absurd (ground arith)
int64_inj (negsuc m) (pos n) hi hj h = absurd (ground arith)
int64_inj (negsuc m) (negsuc n) hi hj h = ground arith

int64_bound : (i : ℤ) → is_safe i ≡ true → int64 i < 256 ^ 8
int64_bound (pos n) h = ground arith
int64_bound (negsuc n) h = omega arith

tag_of : CanonicalValue → ℕ
tag_of (text s) = 1
tag_of (ragged points) = 1
tag_of (number i) = 2
tag_of fraction = 0
tag_of null = 3

-- What a value's part is after its tag.
body_of : CanonicalValue → List ℕ
body_of (text s) = big_endian 4 (length (utf8 s)) ++ utf8 s
body_of (ragged points) = big_endian 4 (length (utf8_points points)) ++ utf8_points points
body_of (number i) = big_endian 8 (int64 i)
body_of _ = []

abbrev IsSafe : CanonicalValue → Type 0
IsSafe (number i) = is_safe i ≡ true
IsSafe fraction = ⊥
IsSafe _ = Unit

encode_value_parts :
    (v : CanonicalValue) {p : List ℕ}
    → encode_value v ≡ some p
    → IsSafe v × (p ≡ tag_of v ∷ body_of v)
unfolding encode_value tag_of body_of
encode_value_parts (text s) h = (tt, ground arith)
encode_value_parts (ragged points) h = (tt, ground arith)
encode_value_parts (number i) h = (ground arith, ground arith)
encode_value_parts fraction h = absurd (ground arith)
encode_value_parts null h = (tt, ground arith)

body_of-prefix :
    (v w : CanonicalValue) (r s : List ℕ)
    → Fits v
    → Fits w
    → IsSafe v
    → IsSafe w
    → tag_of v ≡ tag_of w
    → body_of v ++ r ≡ body_of w ++ s
    → (v ≡ w) × (r ≡ s)
unfolding tag_of body_of
body_of-prefix (text a) (text b) r s fv fw sv sw t h =
    let (lengths, bodies) =
      append_inj (big_endian 4 (length (utf8 a))) (big_endian 4 (length (utf8 b))) (utf8 a ++ r)
        (utf8 b ++ s)
        (omega
          (arith, length-big_endian 4 (length (utf8 a)), length-big_endian 4 (length (utf8 b))))
        (sym (append_assoc (big_endian 4 (length (utf8 a))) (utf8 a) r)
          ∙ h
          ∙ append_assoc (big_endian 4 (length (utf8 b))) (utf8 b) s) in
    let same : length (utf8 a) ≡ length (utf8 b) =
      big_endian_inj 4 (length (utf8 a)) (length (utf8 b)) (omega arith) (omega arith) lengths in
    let (texts, rest) = append_inj (utf8 a) (utf8 b) r s same bodies in
    (ap text (utf8_inj a b texts), rest)
body_of-prefix (number i) (number j) r s fv fw sv sw t h =
    let (bytes, rest) =
      append_inj (big_endian 8 (int64 i)) (big_endian 8 (int64 j)) r s
        (omega (arith, length-big_endian 8 (int64 i), length-big_endian 8 (int64 j))) h in
    (
      ap number (
          int64_inj i j sv sw
            (big_endian_inj 8 (int64 i) (int64 j) (int64_bound i sv) (int64_bound j sw) bytes)),
      rest,
    )
body_of-prefix null null r s fv fw sv sw t h = (refl, h)
body_of-prefix v w r s fv fw sv sw t h = absurd (ground arith)

nothing : canonical_encode [] ≡ some []
unfolding canonical_encode
nothing = refl

canonical_encode_parts :
    (v : CanonicalValue) (vs : List CanonicalValue) {b : List ℕ}
    → canonical_encode (v ∷ vs) ≡ some b
    → (p rest : List ℕ) × (encode_value v ≡ some p)
      × (canonical_encode vs ≡ some rest)
      × (b ≡ p ++ rest)
unfolding canonical_encode
canonical_encode_parts v vs h = elim (Option-cases (encode_value v)) [
  | inl e ↦ absurd (ground arith)
  | inr (p, e) ↦ elim (Option-cases (canonical_encode vs)) [
    | inl f ↦ absurd (ground arith)
    | inr (rest, f) ↦ (p, rest, e, f, ground arith)
  ]
]

no_bytes : (v : CanonicalValue) (vs : List CanonicalValue) → canonical_encode (v ∷ vs) ≢ some []
no_bytes v vs h =
    let (p, rest, e, f, b) = canonical_encode_parts v vs h in
    let (safe, parts) = encode_value_parts v e in absurd (ground arith)

-- Two lists of values that encode to the same bytes are the same list, if no string among them has a
-- lone surrogate and each has fewer than 2 ^ 32 bytes.
pub canonical_encode_inj :
    (vs ws : List CanonicalValue) {b : List ℕ}
    → All Fits vs
    → All Fits ws
    → canonical_encode vs ≡ some b
    → canonical_encode ws ≡ some b
    → vs ≡ ws
canonical_encode_inj [] [] fv fw hv hw = refl
canonical_encode_inj [] (w ∷ ws) fv fw hv hw = absurd (no_bytes w ws (hw ∙ sym hv ∙ nothing))
canonical_encode_inj (v ∷ vs) [] fv fw hv hw = absurd (no_bytes v vs (hv ∙ sym hw ∙ nothing))
canonical_encode_inj (v ∷ vs) (w ∷ ws) fv fw hv hw =
    let (p, r, ev, ers, b) = canonical_encode_parts v vs hv in
    let (q, s, ew, ess, c) = canonical_encode_parts w ws hw in
    let (safe, parts) = encode_value_parts v ev in
    let (safe', parts') = encode_value_parts w ew in
    let both : p ++ r ≡ q ++ s = ground arith in
    let tags : tag_of v ∷ body_of v ++ r ≡ tag_of w ∷ body_of w ++ s =
      ap (λ x. x ++ r) (sym parts) ∙ both ∙ ap (λ x. x ++ s) parts' in
    let (same, rest) = body_of-prefix v w r s fv.0 fw.0 safe safe' (ground arith) (ground arith) in
    let tails : vs ≡ ws = canonical_encode_inj vs ws fv.1 fw.1 ers (ess ∙ ap some (sym rest)) in
    ground arith
