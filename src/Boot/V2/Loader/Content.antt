-- ===== src/Boot/V2/Loader/Content.antt =====
-- What a loader of device/okboot/src/protocol/v2.rs has, and what memory holds, when so much of a
-- program has been inflated.
use okeanos.Prelude.{
  ℕ, ◌+◌, List, [], ◌∷◌, ◌++◌, length, ◌≡◌, sym, ap, subst, ◌∙◌, arith, length-append, ltb,
  Bool-cases, inl, inr, append-nil, append_assoc,
}
use okeanos.Boot.Relocation.{Relocation, Memory, calculate, copy, write_ptr}
use okeanos.Boot.Relocation.Image.{place}
use okeanos.Boot.V2.{LoaderEnum, bin_loader, elf_loader, receive_bytes}
use okeanos.Boot.V2.Loader.{
  FormatDetails, bin, elf, Metadata, bin_new, elf_new, bin_receive_bytes, elf_receive_bytes,
}
use okeanos.Boot.V2.Loader.Bin.{image}

-- The loader of a file with the metadata `m` that has `xs` of it.
abbrev pub loader_with : ℕ → Metadata → FormatDetails → List ℕ → LoaderEnum
loader_with self_end m (bin load_address) xs =
    bin_loader (record (bin_new self_end load_address m) { bytes_written = length xs })
loader_with self_end m elf xs = elf_loader (record (elf_new m) { bytes = xs })

-- Memory after slices of an image, from byte `k` of it on: each is laid down whole where its first
-- byte is kept.
abbrev pub lay : Relocation → ℕ → List (List ℕ) → Memory → Memory
lay r k [] mem = mem
lay r k (bytes ∷ slices) mem = lay r (k + length bytes) slices (copy mem (place r k) bytes)

-- Memory is what it was at some start, but for the slices that make up `xs`.
pub record InMemory (r : Relocation) (mem : Memory) (xs : List ℕ) : Type 0 where
  pub start : Memory
  pub slices : List (List ℕ)
  pub all : image slices ≡ xs
  pub is : mem ≡ lay r 0 slices start

-- A flat binary is in memory.
abbrev pub Placed : ℕ → Metadata → FormatDetails → Memory → List ℕ → Type 0
Placed self_end m (bin load_address) mem xs =
    InMemory (calculate load_address m.inflated_len self_end) mem xs
Placed self_end m elf mem xs = Unit

-- The loader is that of the metadata, it has all of `xs`, and memory has it if it is to be there.
abbrev pub LoadedAs : ℕ → Metadata → FormatDetails → LoaderEnum → Memory → List ℕ → Type 0
LoadedAs self_end m f l mem xs = (l ≡ loader_with self_end m f xs) × Placed self_end m f mem xs

abbrev pub Loaded : ℕ → Metadata → LoaderEnum → Memory → List ℕ → Type 0
Loaded self_end m l mem xs = LoadedAs self_end m m.format_details l mem xs

image-append :
    (slices : List (List ℕ)) (bytes : List ℕ) → image (slices ++ bytes ∷ []) ≡ image slices ++ bytes
image-append [] bytes = append-nil bytes
image-append (s ∷ slices) bytes =
    ap (λ ys. s ++ ys) (image-append slices bytes) ∙ sym (append_assoc s (image slices) bytes)

lay-append :
    (r : Relocation) (k : ℕ) (slices : List (List ℕ)) (bytes : List ℕ) (mem : Memory)
    → lay r k (slices ++ bytes ∷ []) mem
      ≡ copy (lay r k slices mem) (place r (k + length (image slices))) bytes
lay-append r k [] bytes mem = ap (λ n. copy mem (place r n) bytes) (omega arith)
lay-append r k (s ∷ slices) bytes mem =
    lay-append r (k + length s) slices bytes (copy mem (place r k) s)
    ∙ ap (λ n. copy (lay r (k + length s) slices (copy mem (place r k) s)) (place r n) bytes)
        (omega (arith, length-append s (image slices)))

-- A loader asks for the place of a byte by its address.
write_ptr-calculate :
    (base len self_end k : ℕ)
    → let r = calculate base len self_end in write_ptr r (r.base_address_ptr + k) ≡ place r k
unfolding calculate write_ptr
write_ptr-calculate base len self_end k = elim (Bool-cases (ltb base self_end)) [
  | inl t ↦ rw t (ground arith)
  | inr t ↦ rw t (ground arith)
]

bin-Loaded :
    (self_end a : ℕ) (m : Metadata) (mem : Memory) (xs bytes : List ℕ)
    → Placed self_end m (bin a) mem xs
    → let (l, mem') = receive_bytes (loader_with self_end m (bin a) xs) mem bytes in
      LoadedAs self_end m (bin a) l mem' (xs ++ bytes)
unfolding bin_receive_bytes
bin-Loaded self_end a m mem xs bytes h =
    let r = calculate a m.inflated_len self_end in
    let here : 0 + length (image h.slices) ≡ length xs = omega (arith, ap length h.all) in
    (
      ap (λ n. bin_loader (record (bin_new self_end a m) { bytes_written = n }))
          (sym (length-append xs bytes)),
      record {
        start = h.start;
        slices = h.slices ++ bytes ∷ [];
        all = image-append h.slices bytes ∙ ap (λ ys. ys ++ bytes) h.all;
        is =
            ap (λ p. copy mem p bytes) (write_ptr-calculate a m.inflated_len self_end (length xs))
            ∙ ap (λ (mem : Memory). copy mem (place r (length xs)) bytes) h.is
            ∙ ap (λ n. copy (lay r 0 h.slices h.start) (place r n) bytes) (sym here)
            ∙ sym (lay-append r 0 h.slices bytes h.start);
      },
    )

receive_bytes-LoadedAs :
    (self_end : ℕ) (m : Metadata) (f : FormatDetails) (l : LoaderEnum) (mem : Memory)
    (xs bytes : List ℕ)
    → LoadedAs self_end m f l mem xs
    → LoadedAs self_end m f
        (receive_bytes l mem bytes).0
        (receive_bytes l mem bytes).1
        (xs ++ bytes)
unfolding elf_receive_bytes
receive_bytes-LoadedAs self_end m (bin a) l mem xs bytes h =
    subst
      (λ l.
        LoadedAs self_end m (bin a) (receive_bytes l mem bytes).0 (receive_bytes l mem bytes).1
          (xs ++ bytes))
      (sym h.0) (bin-Loaded self_end a m mem xs bytes h.1)
receive_bytes-LoadedAs self_end m elf l mem xs bytes h =
    (ap (λ l. (receive_bytes l mem bytes).0) h.0, tt)

pub receive_bytes-Loaded :
    (self_end : ℕ) (m : Metadata) (l : LoaderEnum) (mem : Memory) (xs bytes : List ℕ)
    → Loaded self_end m l mem xs
    → Loaded self_end m (receive_bytes l mem bytes).0 (receive_bytes l mem bytes).1 (xs ++ bytes)
receive_bytes-Loaded self_end m l mem xs bytes h =
    receive_bytes-LoadedAs self_end m m.format_details l mem xs bytes h
