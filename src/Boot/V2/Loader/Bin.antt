-- ===== src/Boot/V2/Loader/Bin.antt =====
-- What `BinLoader` of device/okboot/src/protocol/v2.rs leaves in memory, and what it accepts.
use okeanos.Prelude.{
  ℕ, ◌+◌, ◌≤◌, ◌<◌, ◌^◌, List, [], ◌∷◌, ◌++◌, ◌==◌, if◌then◌else◌, length, ok, err, ◌≡◌, inl, inr,
  refl, sym, ap, subst, ◌∙◌, arith, Bool-cases, append-nil, append_assoc, length-append, ltb_of_le,
}
use okeanos.Frame.Crc.{Crc32}
use okeanos.Boot.Relocation
use okeanos.Boot.Relocation.{
  Relocation, Memory, calculate, copy, write_bytes, write_ptr, verify_integrity,
}
use okeanos.Boot.Relocation.Plan.{IsPlan, calculate-IsPlan}
use okeanos.Boot.Relocation.Image.{Holds, IsApart, OneSide, write-Holds, verify-Holds}
use okeanos.Boot.V2.Loader.{
  Metadata, BinLoader, crc, Booter, bin_new, bin_receive_bytes, bin_finalize, bin_verified,
}

-- The slices of an image that are received, one after the other.
pub receive_all : BinLoader → Memory → List (List ℕ) → BinLoader × Memory
receive_all l mem [] = (l, mem)
receive_all l mem (bytes ∷ slices) =
    let (l', mem') = bin_receive_bytes l mem bytes in receive_all l' mem' slices

abbrev pub image : List (List ℕ) → List ℕ
image [] = []
image (bytes ∷ slices) = bytes ++ image slices

-- No slice, from byte `k` of the image on, crosses the end of the part that is moved.
abbrev pub AllOneSide : Relocation → ℕ → List (List ℕ) → Type 0
AllOneSide r k [] = Unit
AllOneSide r k (bytes ∷ slices) =
    OneSide r k (length bytes) × AllOneSide r (k + length bytes) slices

-- The loader has received `xs`.
record Has (r : Relocation) (m : Metadata) (l : BinLoader) (mem : Memory) (xs : List ℕ)
    : Type 0 where
  relocation_is : l.relocation ≡ r
  metadata_is : l.metadata ≡ m
  written : l.bytes_written ≡ length xs
  holds : Holds r mem xs

receive-Has :
    (r : Relocation) (m : Metadata) (len : ℕ) (l : BinLoader) (mem : Memory) (xs bytes : List ℕ)
    → IsApart r len
    → length xs + length bytes ≤ len
    → OneSide r (length xs) (length bytes)
    → Has r m l mem xs
    → Has r m (bin_receive_bytes l mem bytes).0 (bin_receive_bytes l mem bytes).1 (xs ++ bytes)
unfolding bin_receive_bytes
receive-Has r m len l mem xs bytes apart fits one h = record {
  relocation_is = h.relocation_is;
  metadata_is = h.metadata_is;
  written = omega (arith, h.written, length-append xs bytes);
  holds = rw (h.relocation_is, h.written) (write-Holds r mem len xs bytes apart fits one h.holds);
}

receive_all-Has :
    (slices : List (List ℕ)) (r : Relocation) (m : Metadata) (len : ℕ) (l : BinLoader)
    (mem : Memory) (xs : List ℕ)
    → IsApart r len
    → length xs + length (image slices) ≤ len
    → AllOneSide r (length xs) slices
    → Has r m l mem xs
    → Has r m (receive_all l mem slices).0 (receive_all l mem slices).1 (xs ++ image slices)
unfolding receive_all
receive_all-Has [] r m len l mem xs apart fits one h = subst (Has r m l mem) (sym (append-nil xs)) h
receive_all-Has (bytes ∷ slices) r m len l mem xs apart fits one h =
    let next = bin_receive_bytes l mem bytes in
    let size : length (xs ++ bytes) ≡ length xs + length bytes = length-append xs bytes in
    let total : length (bytes ++ image slices) ≡ length bytes + length (image slices) =
      length-append bytes (image slices) in
    subst (Has r m (receive_all next.0 next.1 slices).0 (receive_all next.0 next.1 slices).1)
      (append_assoc xs bytes (image slices))
      (receive_all-Has slices r m len next.0 next.1 (xs ++ bytes) apart
        (omega (arith, size, total, fits)) (subst (λ k. AllOneSide r k slices) (sym size) one.1)
        (receive-Has r m len l mem xs bytes apart (omega (arith, total, fits)) one.0 h))

verified_if :
    {P : Type 0} (l : BinLoader) (r : Relocation) (expected sum : ℕ)
    → l.relocation ≡ r
    → bin_verified {P = P} l
        (if expected == sum then Relocation.ok else Relocation.crc_mismatch expected sum)
      ≡ (if expected == sum then ok (Booter.relocation r) else err crc)
verified_if l r expected sum e = elim (Bool-cases (expected == sum)) [
  | inl t ↦ rw t (ap (λ r'. ok (Booter.relocation r')) e)
  | inr t ↦ rw t refl
]

-- An image that begins below the end of the loader, and whose slices do not cross the end of the
-- part that is moved, is accepted if the checksum of its bytes is the one of the metadata, and
-- else refused. The image has the length of the metadata, and the addresses fit in 32 bits with a
-- page to spare on either side of the image.
pub finalize-receive_all :
    {P : Type 0} (crc32 : Crc32) (self_end base : ℕ) (m : Metadata) (mem : Memory)
    (slices : List (List ℕ))
    → base < self_end
    → length (image slices) ≡ m.inflated_len
    → base + m.inflated_len + m.inflated_len + 0x8000 < 2 ^ 32
    → self_end + m.inflated_len + 0x8000 < 2 ^ 32
    → AllOneSide (calculate base m.inflated_len self_end) 0 slices
    → let (l, mem') = receive_all (bin_new self_end base m) mem slices in
      bin_finalize {P = P} crc32 l mem' ≡ (
        if m.inflated_crc == crc32.finalize (crc32.update crc32.new (image slices))
        then ok (Booter.relocation (calculate base m.inflated_len self_end))
        else err crc)
unfolding bin_finalize
finalize-receive_all crc32 self_end base m mem slices below size fits fits' one =
    let r = calculate base m.inflated_len self_end in
    let plan = calculate-IsPlan base m.inflated_len self_end below fits fits' in
    let apart : IsApart r m.inflated_len = record {
      moves = plan.moves;
      side_free = omega (arith, plan.base_is, plan.side_free);
      first_in = plan.first_in;
    } in
    let start : Has r m (bin_new self_end base m) mem [] = record {
      relocation_is = refl;
      metadata_is = refl;
      written = refl;
      holds = record { at = λ i lt. elim lt [ ] };
    } in
    let l = (receive_all (bin_new self_end base m) mem slices).0 in
    let mem' = (receive_all (bin_new self_end base m) mem slices).1 in
    let got =
      receive_all-Has slices r m m.inflated_len (bin_new self_end base m) mem [] apart
        (omega (arith, size)) one start in
    let check =
      verify-Holds crc32 r mem' (image slices) m.inflated_crc (subst (IsApart r) (sym size) apart)
        got.holds in
    let sum = crc32.finalize (crc32.update crc32.new (image slices)) in
    ap
      (λ (d : Metadata).
        bin_verified l (verify_integrity crc32 l.relocation mem' d.inflated_crc d.inflated_len))
      got.metadata_is
    ∙ ap (λ r'. bin_verified l (verify_integrity crc32 r' mem' m.inflated_crc m.inflated_len))
        got.relocation_is
    ∙ ap (λ n. bin_verified l (verify_integrity crc32 r mem' m.inflated_crc n)) (sym size)
    ∙ ap (bin_verified l) check
    ∙ verified_if l r m.inflated_crc sum got.relocation_is

-- A slice that crosses the end of the part that is moved leaves the part in place as it was, up to
-- the end of the image: its tail goes to the side buffer.
pub receive-straddle :
    (self_end base len : ℕ) (m : Metadata) (l : BinLoader) (mem : Memory) (bytes : List ℕ) (a : ℕ)
    → base < self_end
    → base + len + len + 0x8000 < 2 ^ 32
    → self_end + len + 0x8000 < 2 ^ 32
    → l.relocation ≡ calculate base len self_end
    → l.bytes_written < l.relocation.relocate_first_n_bytes
    → a < base + len
    → (bin_receive_bytes l mem bytes).1 a ≡ mem a
unfolding bin_receive_bytes copy write_ptr
receive-straddle self_end base len m l mem bytes a below fits fits' is inside in_image =
    let plan = calculate-IsPlan base len self_end below fits fits' in
    let plan' : IsPlan l.relocation base len self_end =
      subst (λ r. IsPlan r base len self_end) (sym is) plan in
    ground (arith, plan'.moves, plan'.base_is, plan'.side_free)

-- An image that begins at or above the end of the loader is written from address 0 up: a slice
-- that ends below the load address, counted from 0, leaves all memory from there on as it was.
pub receive-above :
    (self_end base : ℕ) (m : Metadata) (k : ℕ) (mem : Memory) (bytes : List ℕ) (a : ℕ)
    → self_end ≤ base
    → k + length bytes ≤ base
    → base ≤ a
    → (bin_receive_bytes (record (bin_new self_end base m) { bytes_written = k }) mem bytes).1 a
      ≡ mem a
unfolding bin_receive_bytes copy write_ptr calculate
receive-above self_end base m k mem bytes a above low high =
    rw (ltb_of_le base self_end above) (ground arith)
