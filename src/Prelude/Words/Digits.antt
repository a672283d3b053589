-- ===== src/Prelude/Words/Digits.antt =====
-- One binary digit of `&`, `|` and `^`: the native operations recur on digits with a bound on
-- their number, and here the bound is gone.
use Prim.Native.Nat.{
  ℕ, zero, suc, ◌+◌, ◌*◌, ◌/◌, ◌%◌, ◌≤◌, ◌<◌, min, max, bit_and, bit_or, bit_xor, digits, bitwise,
  differ, bit_and-bitwise, bit_or-bitwise, bit_xor-bitwise,
}
use mathlib.Core.Path.{◌≡◌, refl}
use native.Mathlib.Nat.{le_refl}
use native.Mathlib.Omega.{arith}

module _ (last : ℕ → ℕ) (op : ℕ → ℕ → ℕ) where
  bound_irrelevant : (j k x y : ℕ) → x ≤ j → x ≤ k → digits last op j x y ≡ digits last op k x y
  bound_irrelevant zero zero x y hj hk = refl
  bound_irrelevant zero (suc k) zero y hj hk = refl
  bound_irrelevant zero (suc k) (suc x) y hj hk = absurd (omega arith)
  bound_irrelevant (suc j) zero zero y hj hk = refl
  bound_irrelevant (suc j) zero (suc x) y hj hk = absurd (omega arith)
  bound_irrelevant (suc j) (suc k) zero y hj hk = refl
  bound_irrelevant (suc j) (suc k) (suc x) y hj hk =
      rw (bound_irrelevant j k (suc x / 2) (y / 2) (omega arith) (omega arith))

  one_digit :
      (x y : ℕ)
      → bitwise last op (suc x) y ≡ bitwise last op (suc x / 2) (y / 2) * 2 + op (suc x % 2) (y % 2)
  one_digit x y =
      omega (arith, bound_irrelevant x (suc x / 2) (suc x / 2) (y / 2) (omega arith) (le_refl _))

pub and_digit : (x y : ℕ) → bit_and x y ≡ bit_and (x / 2) (y / 2) * 2 + min (x % 2) (y % 2)
and_digit zero y = simp bit_and-bitwise (omega arith)
and_digit (suc x) y = simp bit_and-bitwise (one_digit (λ _. 0) min x y)

pub or_digit : (x y : ℕ) → bit_or x y ≡ bit_or (x / 2) (y / 2) * 2 + max (x % 2) (y % 2)
or_digit zero y = simp bit_or-bitwise (omega arith)
or_digit (suc x) y = simp bit_or-bitwise (one_digit (λ d. d) max x y)

pub xor_digit : (x y : ℕ) → bit_xor x y ≡ bit_xor (x / 2) (y / 2) * 2 + differ (x % 2) (y % 2)
xor_digit zero y = simp bit_xor-bitwise (omega arith)
xor_digit (suc x) y = simp bit_xor-bitwise (one_digit (λ d. d) differ x y)

-- `^` on two digits.
pub differ_bits : (d e : ℕ) → d < 2 → e < 2 → (differ d e < 2) × (differ (differ d e) e ≡ d)
differ_bits zero e hd he = ground (arith, differ_self e he)
  where
    differ_self : (k : ℕ) → k < 2 → differ k k ≡ 0
    differ_self zero h = refl
    differ_self (suc zero) h = refl
    differ_self (suc (suc k)) h = absurd (omega arith)
differ_bits (suc zero) zero hd he = omega arith
differ_bits (suc zero) (suc zero) hd he = omega arith
differ_bits (suc zero) (suc (suc e)) hd he = absurd (omega arith)
differ_bits (suc (suc d)) e hd he = absurd (omega arith)

pub differ_comm : (d e : ℕ) → d < 2 → e < 2 → differ d e ≡ differ e d
differ_comm zero zero hd he = refl
differ_comm zero (suc zero) hd he = refl
differ_comm (suc zero) zero hd he = refl
differ_comm (suc zero) (suc zero) hd he = refl
differ_comm (suc (suc d)) e hd he = absurd (omega arith)
differ_comm d (suc (suc e)) hd he = absurd (omega arith)
