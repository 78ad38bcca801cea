-- ===== src/Shared/Utf8.antt =====
-- `TextEncoder`: the bytes of a text. No two texts have the same bytes, and none has bytes that
-- another's begin with and go on from in two ways.
use agentcall.Base.{
  ℕ, ◌+◌, ◌/◌, ◌%◌, ◌<◌, String, List, [], ◌∷◌, ◌++◌, ◌≡◌, refl, arith, ltb, if◌then◌else◌,
}
use Prim.Native.Char.{Char, char, code}
use text.Mathlib.TextEquality.{Char-path}

abbrev pub utf8_code : ℕ → List ℕ
utf8_code n =
    if ltb n 128
    then n ∷ []
    else if ltb n 2048
    then (192 + n / 64) ∷ (128 + n % 64) ∷ []
    else if ltb n 65536
    then (224 + n / 4096) ∷ (128 + n / 64 % 64) ∷ (128 + n % 64) ∷ []
    else (240 + n / 262144) ∷ (128 + n / 4096 % 64) ∷ (128 + n / 64 % 64) ∷ (128 + n % 64) ∷ []

unfoldable pub utf8 : String → List ℕ
utf8 String.[] = []
utf8 (String.◌∷◌ c s) = utf8_code (code c) ++ utf8 s

code_bound : (c : Char) → code c < 1114112
code_bound (char n p) = ground arith

utf8_code-prefix :
    (m n : ℕ) (r s : List ℕ)
    → m < 1114112
    → n < 1114112
    → utf8_code m ++ r ≡ utf8_code n ++ s
    → (m ≡ n) × (r ≡ s)
utf8_code-prefix m n r s hm hn h = (ground arith, ground arith)

pub utf8_inj : (s t : String) → utf8 s ≡ utf8 t → s ≡ t
unfolding utf8
utf8_inj String.[] String.[] h = refl
utf8_inj String.[] (String.◌∷◌ d t) h = absurd (ground arith)
utf8_inj (String.◌∷◌ c s) String.[] h = absurd (ground arith)
utf8_inj (String.◌∷◌ c s) (String.◌∷◌ d t) h =
    let (same, rest) =
      utf8_code-prefix (code c) (code d) (utf8 s) (utf8 t) (code_bound c) (code_bound d) h in
    λ i. String.◌∷◌ (Char-path c d same i) (utf8_inj s t rest i)
