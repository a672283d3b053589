-- ===== src/Boot/V2/Loader/Elf.antt =====
-- What `ElfLoader` of device/okboot/src/protocol/v2.rs accepts.
use okeanos.Prelude.{
  ℕ, ◌<◌, Bool, true, false, not, List, [], ◌∷◌, ◌++◌, Option, none, some, ◌==◌, leb, if◌then◌else◌,
  All, >>=-eq-ok, Outcome, ok, err, panic, ◌>>=◌, ◌>>◌, ◌≡◌, ◌⊎◌, inl, inr, refl, sym, arith,
  append-nil, append_assoc,
}
use okeanos.Frame.Crc.{Crc32}
use okeanos.Boot.V2.Loader.{
  Phdr, ElfBytes, ElfError, LoadError, Booter, ElfLoader, ensure, take_segments, segment_table,
  elf_check, elf_parsed, elf_finalize, class, endianness, os_abi, type, machine, version, entry,
  pt_load, pt_note, pt_gnu_stack, em_arm, et_exec,
}

-- The segments that are loaded.
abbrev pub loads : List Phdr → List Phdr
loads [] = []
loads (s ∷ segments) = if s.p_type == pt_load then s ∷ loads segments else loads segments

-- A segment is loaded whole or has no bytes in the file, or it is a note or a stack header.
abbrev pub IsAllowed : Phdr → Type 0
IsAllowed s =
    ((s.p_type ≡ pt_load) × ((s.p_filesz ≡ s.p_memsz) ⊎ (s.p_filesz ≡ 0)))
    ⊎ ((s.p_type ≡ pt_note) ⊎ (s.p_type ≡ pt_gnu_stack))

take_segments-ok :
    {P : Type 0} (segments headers hs : List Phdr)
    → take_segments {P = P} headers segments ≡ ok hs
    → (hs ≡ headers ++ loads segments) × All IsAllowed segments
unfolding take_segments
take_segments-ok [] headers hs e = (ground (arith, append-nil headers), tt)
take_segments-ok {P} (s ∷ segments) headers hs e = ground (
  arith,
  take_segments-ok {P = P} segments (headers ++ s ∷ []) hs,
  take_segments-ok {P = P} segments headers hs,
  append_assoc headers (s ∷ []) (loads segments),
)

take_segments-IsAllowed :
    {P : Type 0} (segments headers : List Phdr)
    → All IsAllowed segments
    → take_segments {P = P} headers segments ≡ ok (headers ++ loads segments)
unfolding take_segments
take_segments-IsAllowed {P} [] headers e =
    let same : headers ≡ headers ++ [] = sym (append-nil headers) in cc same
take_segments-IsAllowed {P} (s ∷ segments) headers (inl (t, h), all) = ground (
  arith,
  take_segments-IsAllowed {P = P} segments (headers ++ s ∷ []) all,
  append_assoc headers (s ∷ []) (loads segments),
)
take_segments-IsAllowed {P} (s ∷ segments) headers (inr h, all) =
    ground (arith, take_segments-IsAllowed {P = P} segments headers all)

ensure-ok :
    {P A : Type 0} (b : Bool) (e : ElfError P) (k : Outcome (LoadError P) A) {a : A}
    → (ensure b e >> k) ≡ ok a
    → (b ≡ true) × (k ≡ ok a)
ensure-ok true e k h = (refl, h)
ensure-ok false e k h = cc h

-- What `finalize` accepts: the bytes that were received have the checksum of the compressed file,
-- they are a little-endian ELF32 executable for ARM with an entry below 0x1000_0000, each segment
-- is allowed, and the segments that are loaded are handed on.
pub record Accepted {P : Type 0} (crc32 : Crc32) (parsed : Outcome P ElfBytes) (l : ElfLoader)
    (b : Booter) : Type 0 where
  pub crc_is : crc32.finalize (crc32.update crc32.new l.bytes) ≡ l.metadata.deflated_crc
  pub eb : ElfBytes
  pub parsed_is : parsed ≡ ok eb
  pub segments : List Phdr
  pub table : eb.segments ≡ some segments
  pub allowed : All IsAllowed segments
  pub format :
      (eb.is_elf32 ≡ true)
      × (eb.is_little ≡ true)
      × (eb.osabi ≡ 0)
      × (eb.e_type ≡ et_exec)
      × (eb.e_machine ≡ em_arm)
      × (eb.version ≡ 1)
  pub entry_in : eb.e_entry < 0x1000_0000
  pub booter_is : b ≡ Booter.elf (l.program_headers ++ loads segments) l.bytes eb.e_entry

tail-ok :
    {P : Type 0} (l : ElfLoader) (start : ℕ) (table : Option (List Phdr)) (b : Booter)
    → (segment_table {P = P} table >>= λ segments.
        take_segments l.program_headers segments >>= λ headers.
        ok (Booter.elf headers l.bytes start))
      ≡ ok b
    → (segments : List Phdr) × (table ≡ some segments)
      × All IsAllowed segments
      × (b ≡ Booter.elf (l.program_headers ++ loads segments) l.bytes start)
tail-ok {P} l start none b h = cc h
tail-ok {P} l start (some segments) b h =
    let (headers, taken, made) =
      >>=-eq-ok (take_segments {P = P} l.program_headers segments)
        (λ hs. ok (Booter.elf hs l.bytes start)) h in
    let (is, allowed) = take_segments-ok {P = P} segments l.program_headers headers taken in
    (segments, refl, allowed, ground (arith, made, is))

parsed-ok :
    {P : Type 0} (l : ElfLoader) (parsed : Outcome P ElfBytes) (b : Booter)
    → elf_parsed l parsed ≡ ok b
    → (eb : ElfBytes) × (parsed ≡ ok eb) × (elf_check {P = P} l eb ≡ ok b)
parsed-ok l (ok eb) b h = (eb, refl, h)
parsed-ok l (err e) b h = cc h
parsed-ok l panic b h = cc h

-- `finalize` of the ELF loader accepts only what `Accepted` says.
pub elf_finalize-Accepted :
    {P : Type 0} (crc32 : Crc32) (minimal_parse : List ℕ → Outcome P ElfBytes) (l : ElfLoader)
    (b : Booter)
    → elf_finalize crc32 minimal_parse l ≡ ok b
    → Accepted crc32 (minimal_parse l.bytes) l b
unfolding elf_finalize elf_check
elf_finalize-Accepted {P} crc32 minimal_parse l b h =
    let sum = crc32.finalize (crc32.update crc32.new l.bytes) in
    let same : (sum ≡ l.metadata.deflated_crc) × (elf_parsed l (minimal_parse l.bytes) ≡ ok b) =
      ground arith in
    let (eb, parsed, checked) = parsed-ok l (minimal_parse l.bytes) b same.1 in
    let (a, h1) = ensure-ok {P = P} eb.is_elf32 class _ checked in
    let (c, h2) = ensure-ok {P = P} eb.is_little endianness _ h1 in
    let (d, h3) = ensure-ok {P = P} (eb.osabi == 0) os_abi _ h2 in
    let (e, h4) = ensure-ok {P = P} (eb.e_type == et_exec) type _ h3 in
    let (f, h5) = ensure-ok {P = P} (eb.e_machine == em_arm) machine _ h4 in
    let (g, h6) = ensure-ok {P = P} (eb.version == 1) version _ h5 in
    let (i, h7) = ensure-ok {P = P} (not (leb 0x1000_0000 eb.e_entry)) entry _ h6 in
    let (segments, table, allowed, is) = tail-ok {P = P} l eb.e_entry eb.segments b h7 in
    record {
      crc_is = same.0;
      eb = eb;
      parsed_is = parsed;
      segments = segments;
      table = table;
      allowed = allowed;
      format = (a, c, ground arith, ground arith, ground arith, ground arith);
      entry_in = ground arith;
      booter_is = is;
    }
