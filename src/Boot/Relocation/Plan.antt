-- ===== src/Boot/Relocation/Plan.antt =====
-- The regions that `Relocation::calculate` (device/okboot/src/stub.rs) lays out.
use okeanos.Prelude.{
  ℕ, ◌+◌, ◌-◌, ◌*◌, ◌/◌, ◌%◌, ◌^◌, ◌≤◌, ◌<◌, true, leb, ◌≡◌, ◌⊎◌, inl, inr, refl, arith, Bool-cases,
  ltb_of_lt, ap, ◌∙◌,
}
use okeanos.Prelude.Words.{bit_and-low, bit_and-high}
use okeanos.Boot.Relocation.{
  Relocation, calculate, page_size, page_mask, word_mask, side_begin, max, min,
}

page_mask_lem : (x : ℕ) → x < 2 ^ 32 → page_mask x ≡ x / 2 ^ 14 * 2 ^ 14
page_mask_lem x h = ground (arith, bit_and-high 14 x (2 ^ 18 - 1), bit_and-low 18 (x / 2 ^ 14))

word_mask_lem : (x : ℕ) → x < 2 ^ 32 → word_mask x ≡ x / 2 ^ 2 * 2 ^ 2
word_mask_lem x h = ground (arith, bit_and-high 2 x (2 ^ 30 - 1), bit_and-low 30 (x / 2 ^ 2))

-- The layout for an image from `base` up, of `len` bytes, under a loader that ends at `self_end`.
pub record IsPlan (r : Relocation) (base len self_end : ℕ) : Type 0 where
  pub base_is : r.base_address_ptr ≡ base
  pub moves : r.relocate ≡ true
  pub side_free : (base + len ≤ r.side_buffer_ptr) × (self_end ≤ r.side_buffer_ptr)
  pub first_in : r.relocate_first_n_bytes ≤ len
  pub rest_free : (r.relocate_first_n_bytes ≡ len) ⊎ (self_end ≤ base + r.relocate_first_n_bytes)
  pub stub_free : r.side_buffer_ptr + r.relocate_first_n_bytes ≤ r.stub_entry
  pub stub_aligned : r.stub_entry % 4 ≡ 0

-- For an image that begins below the end of the loader, the side buffer lies above the image and
-- the loader, the bytes that are not moved lie above the loader, and the stub lies above the side
-- buffer at a word boundary; all where the addresses, with a page to spare on either side of the
-- image, fit in 32 bits.
pub calculate-IsPlan :
    (base len self_end : ℕ)
    → base < self_end
    → base + len + len + 0x8000 < 2 ^ 32
    → self_end + len + 0x8000 < 2 ^ 32
    → IsPlan (calculate base len self_end) base len self_end
unfolding calculate
calculate-IsPlan base len self_end below fits fits' =
    let k_end = (base + len) % 2 ^ 32 in
    let k_end_is : k_end ≡ base + len = omega arith in
    let hi = max self_end k_end in
    let hi_in : (self_end ≤ hi) × (k_end ≤ hi) × (hi < 2 ^ 32 - 0x8000 - len) = ground arith in
    let side = side_begin hi in
    let side_is : side ≡ (hi + page_size - 1) / 2 ^ 14 * 2 ^ 14 =
      page_mask_lem ((hi + page_size - 1) % 2 ^ 32) (omega arith)
      ∙ ap (λ x. x / 2 ^ 14 * 2 ^ 14) (omega (arith, hi_in.2)) in
    let side_in : (hi ≤ side) × (side < hi + page_size) = omega (arith, side_is) in
    let first = min k_end self_end - base in
    let first_is : ((first ≡ len) × (base + len ≤ self_end))
        ⊎ ((base + first ≡ self_end) × (self_end ≤ base + len)) =
      elim (Bool-cases (leb k_end self_end)) [
        | inl t ↦ inl (ground (arith, k_end_is))
        | inr t ↦ inr (ground (arith, k_end_is))
      ] in
    let first_in : first ≤ len = elim first_is [ inl e ↦ omega arith | inr e ↦ omega arith ] in
    let stub : word_mask ((side + first + 3) % 2 ^ 32) ≡ (side + first + 3) / 2 ^ 2 * 2 ^ 2 =
      word_mask_lem ((side + first + 3) % 2 ^ 32) (omega arith)
      ∙ ap (λ x. x / 2 ^ 2 * 2 ^ 2) (omega (arith, side_in, hi_in.2, first_in)) in
    rw (ltb_of_lt base self_end below) (record {
      base_is = refl;
      moves = refl;
      side_free = (omega (arith, side_in.0, hi_in.1, k_end_is), omega (arith, side_in.0, hi_in.0));
      first_in = first_in;
      rest_free = elim first_is [ inl e ↦ inl e.0 | inr e ↦ inr (omega arith) ];
      stub_free = omega (arith, stub);
      stub_aligned = omega (arith, stub);
    })
