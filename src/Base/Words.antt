-- ===== src/Base/Words.antt =====
-- Machine words as native numbers: bytes, little-endian words, and int32 as a bit pattern.
use Prim.Native.Nat.{ℕ, ◌+◌, ◌-◌, ◌*◌, ◌/◌, ◌%◌, ◌<◌}
use mathlib.Core.Path.{◌≡◌}
use mathlib.Core.Bool.{Bool}
use mathlib.Core.List.{List, [], ◌∷◌}
use native.Mathlib.Omega.{arith}
use revese_server.Base.Tests.{ltb}
use revese_server.Base.Lists.{get_or}

abbrev pub IsByte : ℕ → Type 0
IsByte b = b < 256

-- binary.LittleEndian.PutUint16 and PutUint32: the bytes they store, lowest first.
abbrev pub put_uint16 : ℕ → List ℕ
put_uint16 v = (v % 256) ∷ (v / 256 % 256) ∷ []

abbrev pub put_uint32 : ℕ → List ℕ
put_uint32 v = (v % 256) ∷ (v / 256 % 256) ∷ (v / 65536 % 256) ∷ (v / 16777216 % 256) ∷ []

-- binary.LittleEndian.Uint16 and Uint32 at an offset of a buffer that reaches so far.
abbrev pub uint16_at : List ℕ → ℕ → ℕ
uint16_at b i = get_or b i 0 + get_or b (i + 1) 0 * 256

abbrev pub uint32_at : List ℕ → ℕ → ℕ
uint32_at b i =
    get_or b i 0
    + get_or b (i + 1) 0 * 256
    + get_or b (i + 2) 0 * 65536
    + get_or b (i + 3) 0 * 16777216

-- An int32 is its bit pattern, a number below 2 ^ 32; sums and differences wrap.
abbrev pub IsI32 : ℕ → Type 0
IsI32 w = w < 4294967296

abbrev pub int32 : ℕ → ℕ
int32 n = n % 4294967296

abbrev pub add32 : ℕ → ℕ → ℕ
add32 a b = (a + b % 4294967296) % 4294967296

abbrev pub sub32 : ℕ → ℕ → ℕ
sub32 a b = (a + (4294967296 - b % 4294967296)) % 4294967296

abbrev pub mul32 : ℕ → ℕ → ℕ
mul32 a b = a * b % 4294967296

-- The signed order of two patterns: with the sign bit flipped it is the order of numbers.
abbrev pub lt32 : ℕ → ℕ → Bool
lt32 a b = ltb ((a + 2147483648) % 4294967296) ((b + 2147483648) % 4294967296)

pub sub32-add32 : (a n : ℕ) → IsI32 a → sub32 (add32 a n) n ≡ a
sub32-add32 a n h = omega arith

-- A pattern is above zero exactly if it is a number from 1 to 2 ^ 31 - 1.
pub lt32-pos : (a : ℕ) → 0 < a → a < 2147483648 → lt32 0 a ≡ Bool.true
lt32-pos a p h = ground arith
