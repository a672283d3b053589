-- ===== src/Host/Suboot/Upload.antt =====
-- host/okdude/src/suboot.rs against device/okboot/src/legacy.rs: what the host writes is what the device reads.
use okeanos.Prelude.{
  ℕ, suc, ◌+◌, ◌-◌, ◌*◌, ◌%◌, ◌/◌, ◌^◌, ◌<◌, All, true, false, List, [], ◌∷◌, ◌++◌, map,
  append_assoc, append-nil, ◌==◌, test_of_eq, ltb, ltb_of_lt, length, length-append, length-map,
  ◌≡◌, refl, ap, ◌∙◌, arith,
}
use okeanos.Prelude.Words.{to_le_bytes32, from_le_bytes32}
use okeanos.Frame.Crc.{Crc32}
use okeanos.Boot.V2.Loader.{bin}
use okeanos.Host.Receive.{Round, read_exact}
use okeanos.Host.Receive.Frames.{
  heard, printed, all_printed, heard-append, skip_string-printed, length-all_printed,
}
use okeanos.Host.Suboot.{
  End, booted, put_prog_info, put_code_command, sends, await, finish, put_code, run,
}
use okeanos.Boot.Relocation.{Memory, max}
use okeanos.Boot.Legacy.{get_code, boot_success, perform_download}
use okeanos.Boot.Legacy.Relocated.{sent_by_host, Loads, perform_download-Loads}

-- Strings that are printed are skipped, and then the word ends the loop.
await-word :
    (lo hi : ℕ) (strings : List (List ℕ)) (turns : ℕ) (rest : List ℕ)
    (next : ℕ → List Round → End × List ℕ)
    → (lo == 0xcc) ≡ false
    → (0xee == lo) ≡ false
    → All (λ s. length s < 2 ^ 32) strings
    → await
        (4 * length strings + 4 + turns)
        lo
        hi
        (0, 0)
        (map heard (all_printed strings ++ (lo ∷ lo ∷ hi ∷ hi ∷ rest)))
        next
      ≡ next 2 (map heard rest)
unfolding await
await-word lo hi [] turns rest next a b h =
    let e : 4 * 0 + 4 + turns ≡ suc (suc (suc (suc turns))) = omega arith in
    let l : (lo == lo) ≡ true = test_of_eq lo lo refl in
    let g : (hi == hi) ≡ true = test_of_eq hi hi refl in
    ap (λ k. await k lo hi (0, 0) (map heard (lo ∷ lo ∷ hi ∷ hi ∷ rest)) next) e
    ∙ rw (a, l, l, g, g) refl
await-word lo hi (s ∷ strings) turns rest next a b h =
    let k = 4 * length strings + 4 + turns in
    let behind = all_printed strings ++ (lo ∷ lo ∷ hi ∷ hi ∷ rest) in
    let e : 4 * suc (length strings) + 4 + turns ≡ suc (suc (suc (suc k))) = omega arith in
    let split : map heard ((printed s ++ all_printed strings) ++ (lo ∷ lo ∷ hi ∷ hi ∷ rest))
        ≡ map heard (0xee ∷ 0xee ∷ 0xdd ∷ 0xdd ∷ [])
          ++ (map heard (to_le_bytes32 (length s)) ++ (map heard s ++ map heard behind)) =
      ap (map heard) (append_assoc (printed s) (all_printed strings) (lo ∷ lo ∷ hi ∷ hi ∷ rest))
      ∙ heard-append (printed s) behind in
    ap
      (λ t.
        await t lo hi (0, 0) (map heard (all_printed (s ∷ strings) ++ (lo ∷ lo ∷ hi ∷ hi ∷ rest)))
          next)
      e
    ∙ ap (λ rs. await (suc (suc (suc (suc k)))) lo hi (0, 0) rs next) split
    ∙ rw b (
        ap (λ rs. await k lo hi (0, 0) rs next) (skip_string-printed s (map heard behind) h.0)
        ∙ await-word lo hi strings turns rest next a b h.1)

-- As many turns as `run` gives are enough.
await-run :
    (lo hi : ℕ) (strings : List (List ℕ)) (rest : List ℕ) (next : ℕ → List Round → End × List ℕ)
    → (lo == 0xcc) ≡ false
    → (0xee == lo) ≡ false
    → All (λ s. length s < 2 ^ 32) strings
    → (let rounds = map heard (all_printed strings ++ (lo ∷ lo ∷ hi ∷ hi ∷ rest)) in
        await (suc (length rounds)) lo hi (0, 0) rounds next ≡ next 2 (map heard rest))
await-run lo hi strings rest next a b h =
    let bytes = all_printed strings ++ (lo ∷ lo ∷ hi ∷ hi ∷ rest) in
    let rounds = map heard bytes in
    let size : length rounds ≡ length (all_printed strings) + (4 + length rest) =
      length-map bytes heard
      ∙ length-append (all_printed strings) (lo ∷ lo ∷ hi ∷ hi ∷ rest)
      ∙ omega arith in
    let turns = suc (length rounds) - (4 * length strings + 4) in
    let enough : suc (length rounds) ≡ 4 * length strings + 4 + turns =
      omega (arith, size, length-all_printed strings) in
    ap (λ k. await k lo hi (0, 0) rounds next) enough
    ∙ await-word lo hi strings turns rest next a b h

word :
    (n : ℕ)
    → n < 2 ^ 32
    → from_le_bytes32 (n % 256) (n / 2 ^ 8 % 256) (n / 2 ^ 16 % 256) (n / 2 ^ 24 % 256) ≡ n
word n h = omega (arith, h)

-- The words of the device, with the strings that it prints before each.
abbrev pub device_says : List (List ℕ) → ℕ → List (List ℕ) → List ℕ
device_says strings crc strings' =
    all_printed strings
    ++ (0x66
        ∷ 0x66
        ∷ 0x55
        ∷ 0x55
        ∷ (to_le_bytes32 crc ++ (all_printed strings' ++ (0xaa ∷ 0xaa ∷ 0x99 ∷ 0x99 ∷ []))))

-- The checksum comes back, the program goes out, and the device has booted.
put_code_lem :
    (prog : List ℕ) (crc : ℕ) (strings' : List (List ℕ))
    → crc < 2 ^ 32
    → All (λ s. length s < 2 ^ 32) strings'
    → put_code prog crc 2 (
        map heard (to_le_bytes32 crc ++ (all_printed strings' ++ (0xaa ∷ 0xaa ∷ 0x99 ∷ 0x99 ∷ []))))
      ≡ (booted, 0x88 ∷ 0x88 ∷ 0x77 ∷ 0x77 ∷ prog)
unfolding read_exact
put_code_lem prog crc strings' small short' =
    let same : (crc == crc) ≡ true = test_of_eq crc crc refl in
    rw (word crc small, same)
      (ap (sends (to_le_bytes32 put_code_command ++ prog))
          (await-run 0xaa 0x99 strings' [] finish refl refl short')
        ∙ ap (λ ys. (booted, ys)) (append-nil (0x88 ∷ 0x88 ∷ 0x77 ∷ 0x77 ∷ prog)))

module _ (crc32 : Crc32) where
  -- When the device prints any strings, asks for the code with the checksum that it was given, prints again
  -- and says that it has booted, the host ends with success, and what it writes is `PUT_PROG_INFO` and then just
  -- what the legacy loader reads for the program, its address and its checksum. The strings, the address and
  -- the length are below 2 ^ 32.
  pub run_booted :
      (addr : ℕ) (prog : List ℕ) (strings strings' : List (List ℕ))
      → addr < 2 ^ 32
      → length prog < 2 ^ 32
      → All (λ s. length s < 2 ^ 32) strings
      → All (λ s. length s < 2 ^ 32) strings'
      → (let crc = crc32.finalize (crc32.update crc32.new prog) in
          run crc32 (bin addr) prog (map heard (device_says strings crc strings'))
          ≡ (booted, to_le_bytes32 put_prog_info ++ sent_by_host addr crc prog))
  unfolding run
  run_booted addr prog strings strings' h k short short' =
      let crc = crc32.finalize (crc32.update crc32.new prog) in
      let small : crc < 2 ^ 32 = crc32.finalize-lt (crc32.update crc32.new prog) in
      let a : ltb addr (2 ^ 32) ≡ true = ltb_of_lt _ _ h in
      let l : ltb (length prog) (2 ^ 32) ≡ true = ltb_of_lt _ _ k in
      let rest = to_le_bytes32 crc ++ (all_printed strings' ++ (0xaa ∷ 0xaa ∷ 0x99 ∷ 0x99 ∷ [])) in
      rw (a, l)
        (ap
          (sends (
            to_le_bytes32 put_prog_info
            ++ (to_le_bytes32 addr ++ (to_le_bytes32 (length prog) ++ to_le_bytes32 crc))))
          (await-run 0x66 0x55 strings rest (put_code prog crc) refl refl short
            ∙ put_code_lem prog crc strings' small short'))

  -- The legacy upload and the legacy download together, under the conditions of both: the host ends with
  -- success on a device that prints any strings before its words, which are those of the loader, and from the
  -- bytes that the host writes behind `PUT_PROG_INFO` the loader comes to the jump that `Loads` describes.
  pub run-perform_download :
      (self_end : ℕ) (stub : List ℕ) (mem : Memory) (addr : ℕ) (prog : List ℕ)
      (strings strings' : List (List ℕ))
      → addr < self_end
      → addr + length prog < 2 ^ 32
      → max (addr + length prog) self_end + length prog < 2 ^ 32
      → All (λ s. length s < 2 ^ 32) strings
      → All (λ s. length s < 2 ^ 32) strings'
      → (let crc = crc32.finalize (crc32.update crc32.new prog) in
          (bytes : List ℕ) × (run crc32
              (bin addr)
              prog
              (map heard (device_says strings crc strings'))
            ≡ (booted, to_le_bytes32 put_prog_info ++ bytes))
          × Loads self_end addr prog mem
              (get_code ∷ crc ∷ boot_success ∷ [])
              (perform_download crc32 self_end stub mem bytes))
  run-perform_download self_end stub mem addr prog strings strings' low fits room short short' =
      let crc = crc32.finalize (crc32.update crc32.new prog) in
      (
        sent_by_host addr crc prog,
        run_booted addr prog strings strings' (omega (arith, fits)) (omega (arith, fits)) short
            short',
        perform_download-Loads crc32 self_end stub mem addr crc prog low fits room refl,
      )
