-- ===== src/Prelude/Words/Highest.antt =====
-- Machine words: the highest of the ones of a word, `leading_zeros`, and that one cleared.
use Prim.Native.Nat.{ℕ, zero, suc, ◌+◌, ◌-◌, ◌*◌, ◌/◌, ◌^◌, ◌≤◌, ◌<◌, bit_and, bit_and-bitwise}
use mathlib.Core.Path.{◌≡◌, ap, ◌∙◌}
use mathlib.Core.Logic.{inl, inr}
use native.Mathlib.Nat.{pow-suc, one-le-pow, div-eq_of_eq-mul_left}
use native.Mathlib.Omega.{arith}
use okeanos.Prelude.Tests.{leb, if◌then◌else◌, Bool-cases}
use okeanos.Prelude.Words.Digits.{and_digit}

-- `leading_zeros` of a word of so many bits.
unfoldable pub leading_zeros : ℕ → ℕ → ℕ
leading_zeros zero m = 0
leading_zeros (suc w) m = let rest = leading_zeros w m in if leb (2 ^ w) m then 0 else suc rest

-- A word as its highest one and what is below it.
pub record Highest (w m : ℕ) : Type 0 where
  pub place : ℕ
  pub below : ℕ
  pub place_in : place + 1 ≤ w
  pub zeros_are : leading_zeros w m + (place + 1) ≡ w
  pub is : m ≡ 2 ^ place + below
  pub below_lt : below < 2 ^ place

pub highest : (w m : ℕ) → 0 < m → m < 2 ^ w → Highest w m
unfolding leading_zeros
highest zero m h k = absurd (omega (arith, h, k))
highest (suc w) m h k = elim (Bool-cases (leb (2 ^ w) m)) [
  | inl yes' ↦ record {
    place = w;
    below = m - 2 ^ w;
    place_in = omega arith;
    zeros_are = rw yes' (omega arith);
    is = ground (arith, yes');
    below_lt = ground (arith, yes', k, pow-suc 2 w);
  }
  | inr no' ↦
      let rest = highest w m h (ground (arith, no')) in
      record {
        place = rest.place;
        below = rest.below;
        place_in = omega (arith, rest.place_in);
        zeros_are = rw no' (omega (arith, rest.zeros_are));
        is = rest.is;
        below_lt = rest.below_lt;
      }
]

triple : (m k : ℕ) → m * 2 ^ suc (suc k) ≡ 2 * (m * 2 ^ suc k)
triple m k = omega (arith, ap (λ (t : ℕ). m * t) (pow-suc 2 (suc k)))

pow_add : (a b : ℕ) → 2 ^ (a + b) ≡ 2 ^ a * 2 ^ b
pow_add zero b = let e : 0 + b ≡ b = omega arith in ap (λ t. 2 ^ t) e ∙ omega arith
pow_add (suc a) b =
    let e : suc a + b ≡ suc (a + b) = omega arith in
    ap (λ t. 2 ^ t) e ∙ grind (arith, pow-suc 2 (a + b), pow-suc 2 a, pow_add a b)

zero_and : (b : ℕ) → bit_and 0 b ≡ 0
zero_and b = bit_and-bitwise 0 b

-- All ones but that at `k`.
clear_below : (k m r : ℕ) → r < 2 ^ k → bit_and (2 ^ k + r) (m * 2 ^ suc k + (2 ^ k - 1)) ≡ r
clear_below zero m r h =
    let e : r ≡ 0 = omega (arith, h) in rw e (ground (arith, and_digit 1 (m * 2), zero_and m))
clear_below (suc k) m r h = ground (
  arith,
  and_digit (2 ^ suc k + r) (m * 2 ^ suc (suc k) + (2 ^ suc k - 1)),
  pow-suc 2 k,
  one-le-pow k 2,
  triple m k,
  clear_below k m (r / 2) (omega (arith, h, pow-suc 2 k)),
)

pred_mul : (a b : ℕ) → 1 ≤ a → (a - 1) * b + b ≡ a * b
pred_mul zero b h = absurd (omega (arith, h))
pred_mul (suc a) b h = let e : suc a - 1 ≡ a = omega arith in ap (λ t. t * b + b) e ∙ omega arith

-- The mask that `(1 << (w - 1)) >> leading_zeros` shifts to is the highest one, and the rest of the word is
-- what is left without it.
pub record Cleared (w m : ℕ) : Type 0 where
  pub top : Highest w m
  pub bit_is : 2 ^ (w - 1) / 2 ^ leading_zeros w m ≡ 2 ^ top.place
  pub rest_is : bit_and m (2 ^ w - 1 - 2 ^ (w - 1) / 2 ^ leading_zeros w m) ≡ top.below

pub clear_highest : (w m : ℕ) → 0 < m → m < 2 ^ w → Cleared w m
clear_highest w m pos lt =
    let h = highest w m pos lt in
    let p = h.place in
    let lz = leading_zeros w m in
    let e1 : w - 1 ≡ p + lz = omega (arith, h.zeros_are) in
    let bit : 2 ^ (w - 1) / 2 ^ lz ≡ 2 ^ p =
      div-eq_of_eq-mul_left (one-le-pow lz 2 (omega arith)) (ap (λ t. 2 ^ t) e1 ∙ pow_add p lz) in
    let e2 : w ≡ lz + suc p = omega (arith, h.zeros_are) in
    let whole : 2 ^ w ≡ 2 ^ lz * 2 ^ suc p = ap (λ t. 2 ^ t) e2 ∙ pow_add lz (suc p) in
    let mask : 2 ^ w - 1 - 2 ^ p ≡ (2 ^ lz - 1) * 2 ^ suc p + (2 ^ p - 1) = omega (
      arith,
      whole,
      pow-suc 2 p,
      one-le-pow p 2 (omega arith),
      pred_mul (2 ^ lz) (2 ^ suc p) (one-le-pow lz 2 (omega arith)),
    ) in
    record {
      top = h;
      bit_is = bit;
      rest_is =
          ap (λ t. bit_and m (2 ^ w - 1 - t)) bit
          ∙ ap (bit_and m) mask
          ∙ ap (λ t. bit_and t ((2 ^ lz - 1) * 2 ^ suc p + (2 ^ p - 1))) h.is
          ∙ clear_below p (2 ^ lz - 1) h.below h.below_lt;
    }
