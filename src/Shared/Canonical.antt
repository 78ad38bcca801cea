-- ===== src/Shared/Canonical.antt =====
-- packages/shared/src/canonical.ts: the bytes that are signed.
pub mod Injective
use agentcall.Base.{
  ℕ, zero, suc, ◌+◌, ◌-◌, ◌/◌, ◌%◌, ◌<◌, ◌^◌, Option, none, some, String, List, [], ◌∷◌, ◌++◌, ◌≡◌,
  Bool, ltb, leb, ◌&&◌, if◌then◌else◌, length,
}
use agentcall.Shared.Utf8.{utf8, utf8_code}

-- A number that is an integer: `negsuc n` is -(n + 1).
pub data ℤ : Type 0 where
  pos : ℕ → ℤ
  negsuc : ℕ → ℤ

-- `string | number | null`; `ragged` is a string with lone surrogates, given by its code points, and
-- `fraction` a number that is no integer.
pub data CanonicalValue : Type 0 where
  text : String → CanonicalValue
  ragged : List ℕ → CanonicalValue
  number : ℤ → CanonicalValue
  fraction : CanonicalValue
  null : CanonicalValue

abbrev pub tag_string : ℕ
tag_string = 1

abbrev pub tag_int : ℕ
tag_int = 2

abbrev pub tag_null : ℕ
tag_null = 3

-- The last `k` bytes of a number, the highest first: `setUint32` at 4 and `setBigInt64` at 8.
unfoldable pub big_endian : ℕ → ℕ → List ℕ
big_endian zero n = []
big_endian (suc k) n = big_endian k (n / 256) ++ n % 256 ∷ []

-- `Number.isSafeInteger`
abbrev pub is_safe : ℤ → Bool
is_safe (pos n) = ltb n (2 ^ 53)
is_safe (negsuc n) = ltb n (2 ^ 53 - 1)

abbrev pub int64 : ℤ → ℕ
int64 (pos n) = n
int64 (negsuc n) = 2 ^ 64 - 1 - n

-- A lone surrogate is encoded as U+FFFD.
abbrev pub replaced : ℕ → ℕ
replaced point = if leb 55296 point && ltb point 57344 then 65533 else point

unfoldable pub utf8_points : List ℕ → List ℕ
utf8_points [] = []
utf8_points (point ∷ points) = utf8_code (replaced point) ++ utf8_points points

abbrev pub text_part : List ℕ → List ℕ
text_part bytes = tag_string ∷ big_endian 4 (length bytes) ++ bytes

-- One part; `none` where the code throws.
unfoldable pub encode_value : CanonicalValue → Option (List ℕ)
encode_value null = some (tag_null ∷ [])
encode_value (number n) = if is_safe n then some (tag_int ∷ big_endian 8 (int64 n)) else none
encode_value fraction = none
encode_value (text s) = some (text_part (utf8 s))
encode_value (ragged points) = some (text_part (utf8_points points))

unfoldable pub canonical_encode : List CanonicalValue → Option (List ℕ)
canonical_encode [] = some []
canonical_encode (value ∷ values) =
    let parts = canonical_encode values in
    elim (encode_value value) [
      | none ↦ none
      | some part ↦ elim parts [ none ↦ none | some rest ↦ some (part ++ rest) ]
    ]
