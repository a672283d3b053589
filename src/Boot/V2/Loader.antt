-- ===== src/Boot/V2/Loader.antt =====
-- device/okboot/src/protocol/v2.rs, `BinLoader` and `ElfLoader`, and the metadata of
-- common/okboot-common/src/host.rs. The memory that is written is passed along; the crate `elf` is a
-- parameter.
pub mod Bin
pub mod Elf
pub mod Content
use okeanos.Prelude.{
  ℕ, ◌+◌, ◌^◌, ◌≤◌, Bool, true, false, ◌&&◌, ◌||◌, not, List, [], ◌∷◌, ◌++◌, Option, none, some,
  ◌==◌, leb, if◌then◌else◌, length, Outcome, ok, err, panic, ◌>>=◌, ◌>>◌,
}
use okeanos.Frame.Crc.{Crc32}
use okeanos.Boot.Relocation
use okeanos.Boot.Relocation.{
  Relocation, Memory, calculate, write_bytes, Integrity, verify_integrity,
}

pub data FormatDetails : Type 0 where
  bin : ℕ → FormatDetails
  elf : FormatDetails

pub record Metadata : Type 0 where
  pub deflated_crc : ℕ
  pub deflated_len : ℕ
  pub inflated_crc : ℕ
  pub inflated_len : ℕ
  pub format_details : FormatDetails

-- The fields of a program header, `Elf32_Phdr`, in its order.
pub record Phdr : Type 0 where
  pub p_type : ℕ
  pub p_offset : ℕ
  pub p_vaddr : ℕ
  pub p_paddr : ℕ
  pub p_filesz : ℕ
  pub p_memsz : ℕ
  pub p_flags : ℕ
  pub p_align : ℕ

-- What the code reads of the header that the crate `elf` has parsed; `segments` is its table.
pub record ElfBytes : Type 0 where
  pub is_elf32 : Bool
  pub is_little : Bool
  pub osabi : ℕ
  pub e_type : ℕ
  pub e_machine : ℕ
  pub version : ℕ
  pub e_entry : ℕ
  pub segments : Option (List Phdr)

-- `P` is the type of the errors of the crate `elf`.
pub data ElfError (P : Type 0) : Type 0 where
  parse : P → ElfError P
  class machine type version entry endianness os_abi : ElfError P
  no_segment_table tls segment_type segment_size : ElfError P

pub data LoadError (P : Type 0) : Type 0 where
  crc : LoadError P
  elf : ElfError P → LoadError P

pub data Booter : Type 0 where
  relocation : Relocation → Booter
  elf : List Phdr → List ℕ → ℕ → Booter

pub record BinLoader : Type 0 where
  pub metadata : Metadata
  pub relocation : Relocation
  pub bytes_written : ℕ

-- `BinLoader::new`, with the address that `locate_end` gives.
abbrev pub bin_new : ℕ → ℕ → Metadata → BinLoader
bin_new self_end load_address metadata = record {
  metadata = metadata;
  relocation = calculate load_address metadata.inflated_len self_end;
  bytes_written = 0;
}

-- `BinLoader::receive_bytes`
unfoldable pub bin_receive_bytes : BinLoader → Memory → List ℕ → BinLoader × Memory
bin_receive_bytes l mem bytes = (
  record l { bytes_written = l.bytes_written + length bytes },
  write_bytes l.relocation mem (l.relocation.base_address_ptr + l.bytes_written) bytes,
)

pub record ElfLoader : Type 0 where
  pub metadata : Metadata
  pub bytes : List ℕ
  pub program_headers : List Phdr

-- `ElfLoader::new`
abbrev pub elf_new : Metadata → ElfLoader
elf_new metadata = record { metadata = metadata; bytes = []; program_headers = [] }

-- `ElfLoader::receive_bytes`
unfoldable pub elf_receive_bytes : ElfLoader → List ℕ → ElfLoader
elf_receive_bytes l bytes = record l { bytes = l.bytes ++ bytes }

-- `ET_EXEC`, `EM_ARM` and the segment types, of the ELF specification.
abbrev pub et_exec : ℕ
et_exec = 2

abbrev pub em_arm : ℕ
em_arm = 40

abbrev pub pt_load : ℕ
pt_load = 1

abbrev pub pt_note : ℕ
pt_note = 4

abbrev pub pt_tls : ℕ
pt_tls = 7

abbrev pub pt_gnu_stack : ℕ
pt_gnu_stack = 0x6474_e551

module _ {P : Type 0} where
  -- An early `return Err(LoadError::Elf(e))` unless the test holds.
  abbrev pub ensure : Bool → ElfError P → Outcome (LoadError P) (Unit {0})
  ensure true e = ok tt
  ensure false e = err (LoadError.elf e)

  -- The loop over the segment table, lines 769-806.
  unfoldable pub take_segments : List Phdr → List Phdr → Outcome (LoadError P) (List Phdr)
  take_segments headers [] = ok headers
  take_segments headers (s ∷ segments) =
      let loaded = take_segments (headers ++ s ∷ []) segments in
      let skipped = take_segments headers segments in
      if s.p_type == pt_tls
      then err (LoadError.elf tls)
      else if s.p_type == pt_load
      then (if not (s.p_filesz == s.p_memsz) && not (s.p_filesz == 0)
          then err (LoadError.elf segment_size)
          else loaded)
      else if s.p_type == pt_gnu_stack
      then skipped
      else if s.p_type == pt_note
      then skipped
      else err (LoadError.elf segment_type)

  -- `eb.segments()`
  abbrev pub segment_table : Option (List Phdr) → Outcome (LoadError P) (List Phdr)
  segment_table none = err (LoadError.elf no_segment_table)
  segment_table (some segments) = ok segments

  -- Lines 741-812, on what the crate has parsed.
  unfoldable pub elf_check : ElfLoader → ElfBytes → Outcome (LoadError P) Booter
  elf_check l eb = do
    ensure eb.is_elf32 class
    ensure eb.is_little endianness
    ensure (eb.osabi == 0) os_abi
    ensure (eb.e_type == et_exec) type
    ensure (eb.e_machine == em_arm) machine
    ensure (eb.version == 1) version
    ensure (not (leb 0x1000_0000 eb.e_entry)) entry
    segments ← segment_table eb.segments
    headers ← take_segments l.program_headers segments
    ok (Booter.elf headers l.bytes eb.e_entry)

  -- `minimal_parse` and its error.
  abbrev pub elf_parsed : ElfLoader → Outcome P ElfBytes → Outcome (LoadError P) Booter
  elf_parsed l (ok eb) = elf_check l eb
  elf_parsed l (err e) = err (LoadError.elf (parse e))
  elf_parsed l panic = panic

  -- The two results of `verify_integrity` in `BinLoader::finalize`.
  abbrev pub bin_verified : BinLoader → Integrity → Outcome (LoadError P) Booter
  bin_verified l Relocation.ok = ok (Booter.relocation l.relocation)
  bin_verified l (Relocation.crc_mismatch expected calculated) = err crc

  module _ (crc32 : Crc32) where
    -- `BinLoader::finalize`
    unfoldable pub bin_finalize : BinLoader → Memory → Outcome (LoadError P) Booter
    bin_finalize l mem =
        bin_verified l
          (verify_integrity crc32 l.relocation mem l.metadata.inflated_crc l.metadata.inflated_len)

    -- `ElfLoader::finalize`; `crc32fast::hash` is one `update` of a new hasher.
    unfoldable pub elf_finalize :
        (List ℕ → Outcome P ElfBytes) → ElfLoader → Outcome (LoadError P) Booter
    elf_finalize minimal_parse l =
        if not (crc32.finalize (crc32.update crc32.new l.bytes) == l.metadata.deflated_crc)
        then err crc
        else elf_parsed l (minimal_parse l.bytes)
