-- ===== src/Frame/Length.antt =====
-- The length field: `encode_length` of common/okboot-common/src/frame/encode.rs against the state
-- `Length` of common/okboot-common/src/frame/decode.rs.
use okeanos.Prelude.{
  ℕ, zero, suc, ◌+◌, ◌-◌, ◌*◌, ◌/◌, ◌%◌, ◌^◌, ◌<◌, bit_and, bit_or, Bool, true, ◌&&◌, List, [], ◌∷◌,
  ◌==◌, if◌then◌else◌, none, some, ◌≡◌, refl, arith,
}
use okeanos.Prelude.Words.{bit_and-low, bit_and-high, bit_or-fields}
use okeanos.Frame.Encode.{encode_length}

-- The four groups of six bits, lowest first, each with the two high bits set.
abbrev pub length_field : ℕ → List ℕ
length_field n =
    (n % 64 + 192)
    ∷ ((n / 2 ^ 6) % 64 + 192)
    ∷ ((n / 2 ^ 12) % 64 + 192)
    ∷ ((n / 2 ^ 18) % 64 + 192)
    ∷ []

-- What the decoder does with a byte of the field, for all bytes that can stand there.
abbrev sextet_test : ℕ → Bool
sextet_test s =
    (bit_or s 0xc0 == s + 192)
    && ((bit_and (s + 192) 0xc0 == 0xc0) && (bit_and (s + 192) 0x3f == s))

all_below : ℕ → Bool
all_below zero = true
all_below (suc n) = sextet_test n && all_below n

all_below-test : (n s : ℕ) → all_below n ≡ true → s < n → sextet_test s ≡ true
unfolding all_below
all_below-test zero s h lt = absurd (omega arith)
all_below-test (suc n) s h lt = ground (arith, all_below-test n s)

sextet_table : all_below 64 ≡ true
unfolding all_below
sextet_table = refl

pub sextet_lem :
    (s : ℕ)
    → s < 64
    → (bit_or s 0xc0 ≡ s + 192) × (bit_and (s + 192) 0xc0 ≡ 0xc0) × (bit_and (s + 192) 0x3f ≡ s)
sextet_lem s h = ground (arith, all_below-test 64 s sextet_table h)

-- One group, as the encoder takes it out with a mask and a shift.
group0 : (n : ℕ) → bit_or (bit_and n 0x3f % 2 ^ 8) 0xc0 ≡ n % 64 + 192
group0 n = ground (arith, bit_and-low 6 n, sextet_lem (n % 64))

group1 : (n : ℕ) → bit_or ((bit_and n 0xfc0 / 2 ^ 6) % 2 ^ 8) 0xc0 ≡ (n / 2 ^ 6) % 64 + 192
group1 n =
    ground (arith, bit_and-high 6 n 63, bit_and-low 6 (n / 2 ^ 6), sextet_lem ((n / 2 ^ 6) % 64))

group2 : (n : ℕ) → bit_or ((bit_and n 0x3_f000 / 2 ^ 12) % 2 ^ 8) 0xc0 ≡ (n / 2 ^ 12) % 64 + 192
group2 n =
    ground (arith, bit_and-high 12 n 63, bit_and-low 6 (n / 2 ^ 12), sextet_lem ((n / 2 ^ 12) % 64))

group3 : (n : ℕ) → bit_or ((bit_and n 0xfc_0000 / 2 ^ 18) % 2 ^ 8) 0xc0 ≡ (n / 2 ^ 18) % 64 + 192
group3 n =
    ground (arith, bit_and-high 18 n 63, bit_and-low 6 (n / 2 ^ 18), sextet_lem ((n / 2 ^ 18) % 64))

-- The test for the bits above the field.
high_bits : (n : ℕ) → n < 2 ^ 64 → bit_and n ((2 ^ 40 - 1) * 2 ^ 24) ≡ n / 2 ^ 24 * 2 ^ 24
high_bits n h = ground (arith, bit_and-high 24 n (2 ^ 40 - 1), bit_and-low 40 (n / 2 ^ 24))

-- A length of 24 bits is encoded by its four groups of six bits, and a longer one is refused.
pub encode_length_lem :
    (n : ℕ)
    → n < 2 ^ 64
    → encode_length n ≡ (if n / 2 ^ 24 == 0 then some (length_field n) else none)
unfolding encode_length
encode_length_lem n h = rw (high_bits n h, group0 n, group1 n, group2 n, group3 n) (ground arith)

-- The number that four groups of six bits make.
pub bit_or_sextets :
    (n : ℕ)
    → n < 2 ^ 24
    → bit_or
        (bit_or (bit_or (n % 64) ((n / 2 ^ 6) % 64 * 2 ^ 6)) ((n / 2 ^ 12) % 64 * 2 ^ 12))
        ((n / 2 ^ 18) % 64 * 2 ^ 18)
      ≡ n
bit_or_sextets n h = ground (
  arith,
  bit_or-fields 6 (n % 64) ((n / 2 ^ 6) % 64),
  bit_or-fields 12 (n % 64 + (n / 2 ^ 6) % 64 * 2 ^ 6) ((n / 2 ^ 12) % 64),
  bit_or-fields 18 (n % 64 + (n / 2 ^ 6) % 64 * 2 ^ 6 + (n / 2 ^ 12) % 64 * 2 ^ 12)
      ((n / 2 ^ 18) % 64),
)

-- What an encoded length says.
pub encode_length_inv :
    (n : ℕ) (bytes : List ℕ)
    → n < 2 ^ 64
    → encode_length n ≡ some bytes
    → (n / 2 ^ 24 ≡ 0) × (length_field n ≡ bytes)
encode_length_inv n bytes h e = ground (arith, encode_length_lem n h)
