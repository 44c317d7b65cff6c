-- ===== src/Base/Text.antt =====
-- Strings of C: the bytes before the terminator, with the functions of string.h and the formats of
-- printf that the program uses.
use Prim.Native.Nat.{ℕ, zero, suc, ◌-◌, ◌+◌, ◌/◌, ◌%◌, ◌^◌}
use Prim.Native.Char.{code}
use Prim.Native.String.{String}
use mathlib.Core.Path.{◌≡◌, refl}
use mathlib.Core.Bool.{Bool, true, false, ◌&&◌}
use mathlib.Core.List.{List, [], ◌∷◌, ◌++◌}
use native.Mathlib.Omega.{arith}
use esp32_c6_gateway_os.Base.Tests.{◌==◌, ltb, if◌then◌else◌}
use esp32_c6_gateway_os.Base.Lists.{length, take}

-- The bytes of a text.
abbrev pub codes : String → List ℕ
codes String.[] = []
codes (String.◌∷◌ c s) = code c ∷ codes s

-- `strncmp (a, b, n) == 0`
unfoldable pub bytes_eq_n : ℕ → List ℕ → List ℕ → Bool
bytes_eq_n zero xs ys = true
bytes_eq_n (suc n) [] [] = true
bytes_eq_n (suc n) [] (y ∷ ys) = false
bytes_eq_n (suc n) (x ∷ xs) [] = false
bytes_eq_n (suc n) (x ∷ xs) (y ∷ ys) = x == y && bytes_eq_n n xs ys

-- `strncmp (s, p, strlen (p)) == 0` tests for a prefix.
pub bytes_eq_n-prefix :
    (s p : List ℕ) → bytes_eq_n (length p) s p ≡ true → (rest : List ℕ) × (s ≡ p ++ rest)
unfolding bytes_eq_n
bytes_eq_n-prefix s [] h = (s, refl)
bytes_eq_n-prefix [] (p ∷ ps) h = cc
bytes_eq_n-prefix (x ∷ xs) (p ∷ ps) h =
    let r = bytes_eq_n-prefix xs ps (ground arith) in (r.0, ground (arith, r.1))

pub bytes_eq_n-append : (p rest : List ℕ) → bytes_eq_n (length p) (p ++ rest) p ≡ true
unfolding bytes_eq_n
bytes_eq_n-append [] rest = refl
bytes_eq_n-append (p ∷ ps) rest = ground (arith, bytes_eq_n-append ps rest)

-- The bytes of an array before its first zero.
unfoldable pub c_string : List ℕ → List ℕ
c_string [] = []
c_string (x ∷ xs) = let rest = c_string xs in if x == 0 then [] else x ∷ rest

-- `snprintf` into an array: as much of the text as it has room for, and the terminator.
abbrev pub snprintf : ℕ → List ℕ → List ℕ
snprintf size text = take (size - 1) text

abbrev pub hex_digit : ℕ → ℕ
hex_digit d = if ltb d 10 then 48 + d else 55 + d

-- `%0kX`: so many digits of base 16.
unfoldable pub hex : ℕ → ℕ → List ℕ
hex zero n = []
hex (suc k) n = hex k (n / 16) ++ (hex_digit (n % 16) ∷ [])

-- `%u` of a number of at most so many digits.
unfoldable pub decimal_from : ℕ → ℕ → List ℕ
decimal_from zero n = []
decimal_from (suc k) n =
    let rest = decimal_from k (n / 10) in
    if ltb n 10 then (48 + n) ∷ [] else rest ++ ((48 + n % 10) ∷ [])

-- A `uint32_t` has at most ten digits.
abbrev pub decimal : ℕ → List ℕ
decimal n = decimal_from 10 n

-- `%d` of an `int32_t`.
abbrev pub signed_decimal : ℕ → List ℕ
signed_decimal n = if ltb n (2 ^ 31) then decimal n else 45 ∷ decimal (2 ^ 32 - n)
