-- ===== src/Boot/Relocation.antt =====
-- device/okboot/src/stub.rs, `flat_binary`: where a downloaded image is put while the loader itself
-- still occupies memory. Addresses are `usize` of the device, 32 bits; the memory is a function from
-- addresses to bytes.
pub mod Plan
pub mod Image
use okeanos.Prelude.{
  ℕ, zero, suc, ◌+◌, ◌-◌, ◌*◌, ◌%◌, ◌^◌, bit_and, Bool, true, false, ◌&&◌, List, [], ◌∷◌, ◌==◌, ltb,
  leb, if◌then◌else◌, length, get_or,
}
use okeanos.Frame.Crc.{Crc32}

-- `PAGE_SIZE` (device/quartz/src/arch/arm1176.rs)
abbrev pub page_size : ℕ
page_size = 0x4000

abbrev pub Memory : Type 0
Memory = ℕ → ℕ

-- `core::ptr::copy` of a slice to an address.
unfoldable pub copy : Memory → ℕ → List ℕ → Memory
copy mem dst bytes a =
    if leb dst a && ltb a (dst + length bytes) then get_or bytes (a - dst) 0 else mem a

-- `core::slice::from_raw_parts`
unfoldable pub slice : Memory → ℕ → ℕ → List ℕ
slice mem a zero = []
slice mem a (suc n) = mem a ∷ slice mem (a + 1) n

pub record Relocation : Type 0 where
  pub base_address_ptr : ℕ
  pub side_buffer_ptr : ℕ
  pub relocate_first_n_bytes : ℕ
  pub stub_entry : ℕ
  pub relocate : Bool

abbrev pub max : ℕ → ℕ → ℕ
max a b = if leb a b then b else a

abbrev pub min : ℕ → ℕ → ℕ
min a b = if leb a b then a else b

-- `x & !(PAGE_SIZE - 1)`
abbrev pub page_mask : ℕ → ℕ
page_mask x = bit_and x ((2 ^ 18 - 1) * 2 ^ 14)

-- `x & !3`
abbrev pub word_mask : ℕ → ℕ
word_mask x = bit_and x ((2 ^ 30 - 1) * 2 ^ 2)

-- `side_buffer_begin`
abbrev pub side_begin : ℕ → ℕ
side_begin highest_used_address = page_mask ((highest_used_address + page_size - 1) % 2 ^ 32)

-- `Relocation::calculate`
unfoldable pub calculate : ℕ → ℕ → ℕ → Relocation
calculate base_address k_length self_end_addr =
    let k_end_address = (base_address + k_length) % 2 ^ 32 in
    let highest_used_address = max self_end_addr k_end_address in
    let side_buffer_begin = side_begin highest_used_address in
    let relocation_length = min k_end_address self_end_addr - base_address in
    if ltb base_address self_end_addr
    then record {
      base_address_ptr = base_address;
      side_buffer_ptr = side_buffer_begin;
      relocate_first_n_bytes = relocation_length;
      stub_entry = word_mask ((side_buffer_begin + relocation_length + 3) % 2 ^ 32);
      relocate = true;
    }
    else record {
      base_address_ptr = 0;
      side_buffer_ptr = 0;
      relocate_first_n_bytes = 0;
      stub_entry = highest_used_address;
      relocate = false;
    }

-- `write_ptr` in `Relocation::write_bytes`
unfoldable pub write_ptr : Relocation → ℕ → ℕ
write_ptr r address =
    if r.relocate
      && leb r.base_address_ptr address
      && ltb address (r.base_address_ptr + r.relocate_first_n_bytes)
    then r.side_buffer_ptr + (address - r.base_address_ptr)
    else address

-- `Relocation::write_bytes`
abbrev pub write_bytes : Relocation → Memory → ℕ → List ℕ → Memory
write_bytes r mem address bytes = copy mem (write_ptr r address) bytes

pub data Integrity : Type 0 where
  ok : Integrity
  crc_mismatch : ℕ → ℕ → Integrity

module _ (crc32 : Crc32) where
  -- Lines 95-103: the part in the side buffer.
  abbrev pub hash_side : Relocation → Memory → crc32.Hasher → crc32.Hasher
  hash_side r mem h =
      if r.relocate
      then crc32.update h (slice mem r.side_buffer_ptr r.relocate_first_n_bytes)
      else h

  -- Lines 108-118: the part in place.
  abbrev pub hash_inplace : Relocation → Memory → ℕ → crc32.Hasher → crc32.Hasher
  hash_inplace r mem len h =
      if ltb r.relocate_first_n_bytes len
      then crc32.update h (
          slice mem (r.base_address_ptr + r.relocate_first_n_bytes)
            (len - r.relocate_first_n_bytes))
      else h

  -- `Relocation::verify_integrity`
  unfoldable pub verify_integrity : Relocation → Memory → ℕ → ℕ → Integrity
  verify_integrity r mem expected_crc len =
      let final_crc = crc32.finalize (hash_inplace r mem len (hash_side r mem crc32.new)) in
      if expected_crc == final_crc then ok else crc_mismatch expected_crc final_crc
