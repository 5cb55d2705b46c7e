-- ===== src/Bytes.antt =====
-- Go strings as bytes, and the substring search of backend/internal/retry/policy.go.
pub mod Search
use Prim.Native.Char.{code}
use Prim.Native.String.{String}
use universal_database_proxy.Prelude.{
  ℕ, zero, suc, ◌+◌, ◌-◌, ◌/◌, ◌%◌, ◌<◌, ◌++◌, Bool, true, false, ◌&&◌, ◌||◌, List, [], ◌∷◌, ◌==◌,
  nat_eq, if◌then◌else◌, ltb, leb, length, take, drop,
}

abbrev pub Bytes : Type 0
Bytes = List ℕ

-- The UTF-8 encoding of the character with the code point `c`.
abbrev pub encoded : ℕ → Bytes
encoded c =
    if ltb c 128
    then c ∷ []
    else if ltb c 2048
    then (192 + c / 64) ∷ (128 + c % 64) ∷ []
    else if ltb c 65536
    then (224 + c / 4096) ∷ (128 + c / 64 % 64) ∷ (128 + c % 64) ∷ []
    else (240 + c / 262144) ∷ (128 + c / 4096 % 64) ∷ (128 + c / 64 % 64) ∷ (128 + c % 64) ∷ []

-- `[]byte(s)`: a Go string is its bytes, and this one is valid UTF-8.
abbrev pub utf8 : String → Bytes
utf8 String.[] = []
utf8 (String.◌∷◌ c s) = encoded (code c) ++ utf8 s

-- `s == t`
unfoldable pub bytes_eq : Bytes → Bytes → Bool
bytes_eq [] [] = true
bytes_eq [] (d ∷ t) = false
bytes_eq (c ∷ s) [] = false
bytes_eq (c ∷ s) (d ∷ t) = let rest = bytes_eq s t in if c == d then rest else false

-- `s[i:i+n]`
abbrev pub slice : Bytes → ℕ → ℕ → Bytes
slice s i n = take n (drop i s)

-- The loop of `containsHelper` with the rounds left and the index `i`.
unfoldable pub contains_from : ℕ → ℕ → Bytes → Bytes → Bool
contains_from zero i s substr = false
contains_from (suc rounds) i s substr =
    if bytes_eq (slice s i (length substr)) substr
    then true
    else contains_from rounds (i + 1) s substr

-- `containsHelper`: `i` runs from 0 to `len(s)-len(substr)`, which is negative if `s` is shorter.
unfoldable pub contains_helper : Bytes → Bytes → Bool
contains_helper s substr =
    if ltb (length s) (length substr)
    then false
    else contains_from (suc (length s - length substr)) 0 s substr

-- `contains`
unfoldable pub contains : Bytes → Bytes → Bool
contains s substr =
    leb (length substr) (length s)
    && (bytes_eq s substr || (ltb 0 (length s) && contains_helper s substr))
