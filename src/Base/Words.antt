-- ===== src/Base/Words.antt =====
-- Machine words: a `uint32_t` is a number below `2 ^ 32`, its wrap-around written out; a value
-- copied to an event or to flash is its bytes, the low byte first.
use Prim.Native.Nat.{ℕ, zero, suc, ◌+◌, ◌-◌, ◌*◌, ◌/◌, ◌%◌, ◌^◌, ◌<◌}
use mathlib.Core.Path.{◌≡◌, refl}
use mathlib.Core.Bool.{Bool}
use mathlib.Core.List.{List, [], ◌∷◌}
use native.Mathlib.Omega.{arith}
use esp32_c6_gateway_os.Base.Tests.{ltb}
use esp32_c6_gateway_os.Base.Lists.{get_or, length, take}

abbrev pub add32 : ℕ → ℕ → ℕ
add32 a b = (a + b) % 2 ^ 32

abbrev pub sub32 : ℕ → ℕ → ℕ
sub32 a b = (a + 2 ^ 32 - b) % 2 ^ 32

abbrev pub add8 : ℕ → ℕ → ℕ
add8 a b = (a + b) % 256

-- The `k` bytes of a value in memory.
unfoldable pub le_bytes : ℕ → ℕ → List ℕ
le_bytes zero n = []
le_bytes (suc k) n = n % 256 ∷ le_bytes k (n / 256)

abbrev pub sub8 : ℕ → ℕ → ℕ
sub8 a b = (a + 256 - b) % 256

-- The value of the bytes, the low byte first.
unfoldable pub of_bytes : List ℕ → ℕ
of_bytes [] = 0
of_bytes (b ∷ bs) = b + 256 * of_bytes bs

pub of_bytes-word : (n : ℕ) → n < 2 ^ 32 → of_bytes (le_bytes 4 n) ≡ n
unfolding le_bytes of_bytes
of_bytes-word n h = omega arith

-- Each element is a byte.
abbrev pub IsBytes : List ℕ → Type 0
IsBytes bs = (k : ℕ) → get_or bs k 0 < 256

pub le_bytes-of_bytes : (bs : List ℕ) → IsBytes bs → le_bytes (length bs) (of_bytes bs) ≡ bs
unfolding le_bytes of_bytes
le_bytes-of_bytes [] h = refl
le_bytes-of_bytes (b ∷ bs) h =
    let low : (b + 256 * of_bytes bs) % 256 ≡ b = omega (arith, h 0) in
    let high : (b + 256 * of_bytes bs) / 256 ≡ of_bytes bs = omega (arith, h 0) in
    rw (low, high, le_bytes-of_bytes bs (λ k. h (suc k))) refl

pub take-IsBytes : (n : ℕ) (bs : List ℕ) → IsBytes bs → IsBytes (take n bs)
take-IsBytes zero bs h k = omega arith
take-IsBytes (suc n) [] h k = omega arith
take-IsBytes (suc n) (b ∷ bs) h zero = h 0
take-IsBytes (suc n) (b ∷ bs) h (suc k) = take-IsBytes n bs (λ j. h (suc j)) k

pub of_bytes-lt : (bs : List ℕ) → IsBytes bs → of_bytes (take 4 bs) < 2 ^ 32
unfolding of_bytes
of_bytes-lt [] h = omega arith
of_bytes-lt (a ∷ []) h = omega (arith, h 0)
of_bytes-lt (a ∷ b ∷ []) h = omega (arith, h 0, h 1)
of_bytes-lt (a ∷ b ∷ c ∷ []) h = omega (arith, h 0, h 1, h 2)
of_bytes-lt (a ∷ b ∷ c ∷ d ∷ bs) h = omega (arith, h 0, h 1, h 2, h 3)

-- The order of `int32_t`, words in two's complement.
abbrev pub slt : ℕ → ℕ → Bool
slt a b = ltb ((a + 2 ^ 31) % 2 ^ 32) ((b + 2 ^ 31) % 2 ^ 32)

-- The numbers of so many bytes.
unfoldable pub byte_range : ℕ → ℕ
byte_range zero = 1
byte_range (suc k) = 256 * byte_range k

pub of_bytes-le_bytes : (k n : ℕ) → n < byte_range k → of_bytes (le_bytes k n) ≡ n
unfolding of_bytes le_bytes byte_range
of_bytes-le_bytes zero n h = omega arith
of_bytes-le_bytes (suc k) n h = omega (arith, of_bytes-le_bytes k (n / 256) (omega arith))
