-- ===== src/Prelude/Words.antt =====
-- Machine words as numbers: laws of the bit operations at every width, and the byte orders of
-- `to_le_bytes`, `from_le_bytes`, `to_be_bytes` and `from_be_bytes`.
mod Digits
pub mod Highest
use Digits.{and_digit, or_digit, xor_digit, differ_bits, differ_comm}
use Prim.Native.Nat.{
  ℕ, zero, suc, ◌+◌, ◌-◌, ◌*◌, ◌/◌, ◌%◌, ◌^◌, ◌≤◌, ◌<◌, bit_and, bit_or, bit_xor, bit_or-bitwise,
}
use mathlib.Core.Path.{◌≡◌, refl, ap}
use mathlib.Core.List.{List, [], ◌∷◌}
use native.Mathlib.Nat.{pow-suc, one-le-pow, le_refl}
use native.Mathlib.Omega.{arith}

and-zero_below : (n a : ℕ) → a ≤ n → bit_and a 0 ≡ 0
and-zero_below n zero h = refl
and-zero_below zero (suc a) h = absurd (omega arith)
and-zero_below (suc n) (suc a) h =
    omega (arith, and_digit (suc a) 0, and-zero_below n (suc a / 2) (omega arith))

zero-or : (a : ℕ) → bit_or 0 a ≡ a
zero-or a = bit_or-bitwise 0 a

double_pow : (q k : ℕ) → q * 2 ^ suc k ≡ 2 * (q * 2 ^ k)
double_pow q k = omega (arith, ap (λ (t : ℕ). q * t) (pow-suc 2 k))

and-low_fields : (k q r : ℕ) → r < 2 ^ k → bit_and (q * 2 ^ k + r) (2 ^ k - 1) ≡ r
and-low_fields zero q r h =
    ground (arith, and-zero_below (q * 2 ^ 0 + r) (q * 2 ^ 0 + r) (le_refl _))
and-low_fields (suc k) q r h = ground (
  arith,
  and_digit (q * 2 ^ suc k + r) (2 ^ suc k - 1),
  double_pow q k,
  pow-suc 2 k,
  and-low_fields k q (r / 2) (omega (arith, pow-suc 2 k)),
)

-- A mask of `k` low ones is the remainder by `2 ^ k`.
pub bit_and-low : (k a : ℕ) → bit_and a (2 ^ k - 1) ≡ a % 2 ^ k
bit_and-low k a = ground (arith, one-le-pow k 2, and-low_fields k (a / 2 ^ k) (a % 2 ^ k))

-- A mask that is shifted left by `k` masks what is left after a shift right by `k`.
and-high_fields :
    (k q r m : ℕ) → r < 2 ^ k → bit_and (q * 2 ^ k + r) (m * 2 ^ k) ≡ bit_and q m * 2 ^ k
and-high_fields zero q r m h = let e : r ≡ 0 = omega arith in rw e (ground arith)
and-high_fields (suc k) q r m h = ground (
  arith,
  and_digit (q * 2 ^ suc k + r) (m * 2 ^ suc k),
  double_pow q k,
  double_pow m k,
  double_pow (bit_and q m) k,
  and-high_fields k q (r / 2) m (omega (arith, pow-suc 2 k)),
)

pub bit_and-high : (k a m : ℕ) → bit_and a (m * 2 ^ k) ≡ bit_and (a / 2 ^ k) m * 2 ^ k
bit_and-high k a m = ground (arith, one-le-pow k 2, and-high_fields k (a / 2 ^ k) (a % 2 ^ k) m)

-- Disjoint fields: `low | high << k`.
pub bit_or-fields : (k low high : ℕ) → low < 2 ^ k → bit_or low (high * 2 ^ k) ≡ low + high * 2 ^ k
bit_or-fields zero low high h =
    let e : low ≡ 0 = omega arith in rw e (ground (arith, zero-or (high * 2 ^ 0)))
bit_or-fields (suc k) low high h = ground (
  arith,
  or_digit low (high * 2 ^ suc k),
  double_pow high k,
  bit_or-fields k (low / 2) high (omega (arith, pow-suc 2 k)),
)

xor_twice_below : (n a b : ℕ) → a ≤ n → b ≤ n → bit_xor (bit_xor a b) b ≡ a
xor_twice_below zero zero zero h k = refl
xor_twice_below zero (suc a) b h k = absurd (omega arith)
xor_twice_below zero zero (suc b) h k = absurd (omega arith)
xor_twice_below (suc n) a b h k = ground (
  arith,
  xor_digit a b,
  xor_digit (bit_xor a b) b,
  differ_bits (a % 2) (b % 2),
  xor_twice_below n (a / 2) (b / 2) (omega arith) (omega arith),
)

-- `^` by the same word twice changes nothing.
pub bit_xor-bit_xor : (a b : ℕ) → bit_xor (bit_xor a b) b ≡ a
bit_xor-bit_xor a b = xor_twice_below (a + b) a b (omega arith) (omega arith)

xor_comm_below : (n a b : ℕ) → a ≤ n → b ≤ n → bit_xor a b ≡ bit_xor b a
xor_comm_below zero zero zero h k = refl
xor_comm_below zero (suc a) b h k = absurd (omega arith)
xor_comm_below zero zero (suc b) h k = absurd (omega arith)
xor_comm_below (suc n) a b h k = ground (
  arith,
  xor_digit a b,
  xor_digit b a,
  differ_comm (a % 2) (b % 2),
  xor_comm_below n (a / 2) (b / 2) (omega arith) (omega arith),
)

pub bit_xor_comm : (a b : ℕ) → bit_xor a b ≡ bit_xor b a
bit_xor_comm a b = xor_comm_below (a + b) a b (omega arith) (omega arith)

-- `^` of two words of `k` bits is a word of `k` bits.
pub bit_xor-lt : (k a b : ℕ) → a < 2 ^ k → b < 2 ^ k → bit_xor a b < 2 ^ k
bit_xor-lt zero a b h g =
    let e : a ≡ 0 = omega arith in let f : b ≡ 0 = omega arith in rw (e, f) (omega arith)
bit_xor-lt (suc k) a b h g = ground (
  arith,
  xor_digit a b,
  pow-suc 2 k,
  differ_bits (a % 2) (b % 2),
  bit_xor-lt k (a / 2) (b / 2) (omega (arith, pow-suc 2 k)) (omega (arith, pow-suc 2 k)),
)

-- Little endian and big endian byte orders.
abbrev pub to_le_bytes32 : ℕ → List ℕ
to_le_bytes32 x = x % 256 ∷ (x / 2 ^ 8) % 256 ∷ (x / 2 ^ 16) % 256 ∷ (x / 2 ^ 24) % 256 ∷ []

abbrev pub from_le_bytes32 : ℕ → ℕ → ℕ → ℕ → ℕ
from_le_bytes32 a b c d = a + b * 2 ^ 8 + c * 2 ^ 16 + d * 2 ^ 24

abbrev pub to_be_bytes32 : ℕ → List ℕ
to_be_bytes32 x = (x / 2 ^ 24) % 256 ∷ (x / 2 ^ 16) % 256 ∷ (x / 2 ^ 8) % 256 ∷ x % 256 ∷ []

abbrev pub to_be_bytes16 : ℕ → List ℕ
to_be_bytes16 x = (x / 2 ^ 8) % 256 ∷ x % 256 ∷ []

abbrev pub to_le_bytes16 : ℕ → List ℕ
to_le_bytes16 x = x % 256 ∷ (x / 2 ^ 8) % 256 ∷ []

abbrev pub from_be_bytes16 : ℕ → ℕ → ℕ
from_be_bytes16 a b = a * 2 ^ 8 + b

abbrev pub from_be_bytes32 : ℕ → ℕ → ℕ → ℕ → ℕ
from_be_bytes32 a b c d = a * 2 ^ 24 + b * 2 ^ 16 + c * 2 ^ 8 + d
