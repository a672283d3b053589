-- ===== src/Boot/Legacy/Relocated.antt =====
-- device/okboot/src/legacy.rs: a program that begins where the loader is.
use okeanos.Prelude.{
  ℕ, ◌+◌, ◌-◌, ◌/◌, ◌%◌, ◌^◌, ◌<◌, true, List, [], ◌∷◌, ◌++◌, append-nil, ◌==◌, test_of_eq, ltb,
  ltb_of_lt, if◌then◌else◌, length, length-take, length-append, take, drop, take-append-drop,
  get_or, ◌≡◌, refl, sym, ap, subst, ◌∙◌, arith, inl,
}
use okeanos.Prelude.Words.{to_le_bytes32, from_le_bytes32}
use okeanos.Frame.Crc.{Crc32}
use okeanos.Boot.Relocation.{Memory, copy, slice, max, min}
use okeanos.Boot.Relocation.Image.{copy_in, copy_out, slice_of}
use okeanos.Boot.Legacy.{
  Plan, plan_of, End, jumps, Jump, get_code, boot_success, read_bytes, wait_put_code, next_state,
  receive, verify, relocate_stub, refused, boot_error, perform_download,
}

read_bytes-append :
    (xs ys : List ℕ) (next : List ℕ → List ℕ → End)
    → read_bytes (length xs) (xs ++ ys) next ≡ next xs ys
unfolding read_bytes
read_bytes-append [] ys next = refl
read_bytes-append (x ∷ xs) ys next = read_bytes-append xs ys (λ read rest. next (x ∷ read) rest)

-- What the host sends behind `PUT_PROG_INFO`.
abbrev pub sent_by_host : ℕ → ℕ → List ℕ → List ℕ
sent_by_host addr crc image =
    to_le_bytes32 addr
    ++ (to_le_bytes32 (length image) ++ (to_le_bytes32 crc ++ (0x88 ∷ 0x88 ∷ 0x77 ∷ 0x77 ∷ image)))

word :
    (n : ℕ)
    → n < 2 ^ 32
    → from_le_bytes32 (n % 256) (n / 2 ^ 8 % 256) (n / 2 ^ 16 % 256) (n / 2 ^ 24 % 256) ≡ n
word n h = omega (arith, h)

module _ (crc32 : Crc32) where
  started :
      (self_end : ℕ) (stub : List ℕ) (mem : Memory) (addr crc : ℕ) (image : List ℕ)
      → addr < 2 ^ 32
      → length image < 2 ^ 32
      → crc < 2 ^ 32
      → perform_download crc32 self_end stub mem (sent_by_host addr crc image)
        ≡ receive crc32 stub
            (plan_of self_end addr (length image))
            addr
            (length image)
            crc
            mem
            image
  unfolding perform_download wait_put_code next_state
  started self_end stub mem addr crc image h k l =
      rw (word addr h, word (length image) k, word crc l) refl

-- The plan for a program whose first part, of the length `n`, is where the loader is.
abbrev plan_for : ℕ → ℕ → ℕ → Plan
plan_for addr to n = record {
  relocate = true;
  relocate_prog_from = addr;
  relocate_prog_len = n;
  relocate_prog_to = to;
  relocate_stub_to = to + n;
}

-- The memory when the two parts are read, and when the stub lies behind the first.
abbrev pub read_to : Memory → ℕ → List ℕ → List ℕ → Memory
read_to mem to first second = copy (copy mem to first) (to + length first) second

abbrev pub staged : Memory → ℕ → List ℕ → List ℕ → List ℕ → Memory
staged mem to first second stub = copy (read_to mem to first second) (to + length first) stub

-- A part that was copied, and is not touched by what is copied behind it.
slice-copy :
    (mem : Memory) (at : ℕ) (bytes : List ℕ) → slice (copy mem at bytes) at (length bytes) ≡ bytes
slice-copy mem at bytes = slice_of _ bytes at (length bytes) refl (λ j h. copy_in mem at bytes j h)

slice-copy_behind :
    (mem : Memory) (at : ℕ) (first second : List ℕ)
    → slice mem at (length first) ≡ first
    → ((j : ℕ) → j < length first → mem (at + j) ≡ get_or first j 0)
    → slice (copy mem (at + length first) second) at (length first) ≡ first
slice-copy_behind mem at first second h k =
    slice_of _ first at (length first) refl
      (λ j lt. copy_out mem (at + length first) second (at + j) (inl (omega (arith, lt))) ∙ k j lt)

module _ (crc32 : Crc32) where
  abbrev behind_parts : List ℕ → ℕ → ℕ → ℕ → ℕ → Memory → ℕ → List ℕ → List ℕ → End
  behind_parts stub addr to crc n mem k moved stationary =
      let mem2 = copy (copy mem to moved) (to + n) stationary in
      verify crc32 stub (plan_for addr to n) addr crc mem2 (
        crc32.finalize
          (crc32.update (crc32.update crc32.new (slice mem2 to n)) (slice mem2 (to + n) k)))

  receive_parts :
      (stub : List ℕ) (addr to crc : ℕ) (mem : Memory) (first second : List ℕ)
      → crc32.finalize (crc32.update crc32.new (first ++ second)) ≡ crc
      → receive crc32 stub
          (plan_for addr to (length first))
          addr
          (length first + length second)
          crc
          mem
          (first ++ second)
        ≡ jumps (get_code ∷ crc ∷ boot_success ∷ []) (record {
          memory = staged mem to first second stub;
          target = to + length first;
          prog_dst = addr;
          prog_src = to;
          prog_len = length first;
          entry = addr;
        })
  receive_parts stub addr to crc mem first second sum =
      let n = length first in
      let m = length second in
      let k : n + m - n ≡ m = omega arith in
      let mem2 = read_to mem to first second in
      let last = behind_parts stub addr to crc n mem in
      let checksum : crc32.finalize
            (crc32.update (crc32.update crc32.new (slice mem2 to n)) (slice mem2 (to + n) m))
          ≡ crc =
        ap (λ xs. crc32.finalize (crc32.update (crc32.update crc32.new xs) (slice mem2 (to + n) m)))
          (slice-copy_behind (copy mem to first) to first second (slice-copy mem to first)
            (λ j lt. copy_in mem to first j lt))
        ∙ ap (λ xs. crc32.finalize (crc32.update (crc32.update crc32.new first) xs))
            (slice-copy (copy mem to first) (to + n) second)
        ∙ ap crc32.finalize (crc32.update-update crc32.new first second)
        ∙ sum in
      let same : (crc == crc) ≡ true = test_of_eq crc crc refl in
      read_bytes-append first second
        (λ moved rest. read_bytes (n + m - n) rest (λ st r. last (n + m - n) moved st))
      ∙ ap (λ i. read_bytes i second (λ st r. last i first st)) k
      ∙ ap (λ ys. read_bytes m ys (λ st r. last m first st)) (sym (append-nil second))
      ∙ read_bytes-append second [] (λ st r. last m first st)
      ∙ ap (verify crc32 stub (plan_for addr to n) addr crc mem2) checksum
      ∙ ap
          (λ b.
            if b
            then relocate_stub stub (plan_for addr to n) addr crc mem2
            else refused (get_code ∷ crc ∷ boot_error ∷ []))
          same

plan_is :
    (self_end addr : ℕ) (image : List ℕ)
    → addr < self_end
    → addr + length image < 2 ^ 32
    → max (addr + length image) self_end + length image < 2 ^ 32
    → plan_of self_end addr (length image)
      ≡ plan_for addr (max (addr + length image) self_end) (length (take (self_end - addr) image))
unfolding plan_of
plan_is self_end addr image low fits room =
    let n = length (take (self_end - addr) image) in
    let to = max (addr + length image) self_end in
    let below : ltb addr self_end ≡ true = ltb_of_lt _ _ low in
    let whole : (addr + length image) % 2 ^ 32 ≡ addr + length image = omega (arith, fits) in
    let size : min (self_end - addr) (length image) ≡ n =
      ground (arith, length-take (self_end - addr) image) in
    let stub_at : (to + n) % 2 ^ 32 ≡ to + n =
      omega (arith, room, length-take (self_end - addr) image) in
    rw (below, whole, size, stub_at) refl

-- A program that is loaded from where the loader is on.
pub record Loads (self_end addr : ℕ) (image : List ℕ) (mem : Memory) (words : List ℕ) (result : End)
    : Type 0 where
  pub jump : Jump
  pub returns : result ≡ jumps words jump
  pub moves_to : (jump.prog_dst ≡ addr) × (jump.entry ≡ addr)
  pub side_is : jump.prog_src ≡ max (addr + length image) self_end
  pub first_part : slice jump.memory jump.prog_src jump.prog_len ≡ take (self_end - addr) image
  pub below_same : (a : ℕ) → a < max (addr + length image) self_end → jump.memory a ≡ mem a

module _ (crc32 : Crc32) where
  -- If the host sends a program that begins below the end of the loader, with its checksum, and the
  -- addresses fit in 32 bits: the loader jumps to the stub, which is to move the first part of the program,
  -- as far as it lies below the end of the loader, to the load address, from above the program and the
  -- loader, where that part is intact. No memory below that place has changed: of what the program has
  -- from the end of the loader on, nothing is in its place.
  pub perform_download-Loads :
      (self_end : ℕ) (stub : List ℕ) (mem : Memory) (addr crc : ℕ) (image : List ℕ)
      → addr < self_end
      → addr + length image < 2 ^ 32
      → max (addr + length image) self_end + length image < 2 ^ 32
      → crc ≡ crc32.finalize (crc32.update crc32.new image)
      → Loads self_end addr image mem
          (get_code ∷ crc ∷ boot_success ∷ [])
          (perform_download crc32 self_end stub mem (sent_by_host addr crc image))
  perform_download-Loads self_end stub mem addr crc image low fits room sum =
      let k = self_end - addr in
      let first = take k image in
      let second = drop k image in
      let to = max (addr + length image) self_end in
      let n = length first in
      let parts : image ≡ first ++ second = sym (take-append-drop k image) in
      let sizes : length image ≡ n + length second = ap length parts ∙ length-append first second in
      let small : crc < 2 ^ 32 = subst (λ c. c < 2 ^ 32) (sym sum) (crc32.finalize-lt _) in
      let mem1 = copy mem to first in
      record {
        jump = record {
          memory = staged mem to first second stub;
          target = to + n;
          prog_dst = addr;
          prog_src = to;
          prog_len = n;
          entry = addr;
        };
        returns =
            started crc32 self_end stub mem addr crc image (omega (arith, fits))
              (omega (arith, fits)) small
            ∙ ap (λ p. receive crc32 stub p addr (length image) crc mem image)
                (plan_is self_end addr image low fits room)
            ∙ ap (λ l. receive crc32 stub (plan_for addr to n) addr l crc mem image) sizes
            ∙ ap (receive crc32 stub (plan_for addr to n) addr (n + length second) crc mem) parts
            ∙ receive_parts crc32 stub addr to crc mem first second
                (ap (λ xs. crc32.finalize (crc32.update crc32.new xs)) (sym parts) ∙ sym sum);
        moves_to = (refl, refl);
        side_is = refl;
        first_part =
            slice-copy_behind (read_to mem to first second) to first stub
              (slice-copy_behind mem1 to first second (slice-copy mem to first)
                (λ j lt. copy_in mem to first j lt))
              (λ j lt.
                copy_out mem1 (to + n) second (to + j) (inl (omega (arith, lt)))
                ∙ copy_in mem to first j lt);
        below_same = λ a lt.
            copy_out (read_to mem to first second) (to + n) stub a (inl (omega (arith, lt)))
            ∙ copy_out mem1 (to + n) second a (inl (omega (arith, lt)))
            ∙ copy_out mem to first a (inl lt);
      }
