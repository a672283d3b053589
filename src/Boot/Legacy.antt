-- ===== src/Boot/Legacy.antt =====
-- device/okboot/src/legacy.rs and legacy/staging.rs: the download by the SU-BOOT protocol. The bytes that
-- arrive are a list; the words that are sent are listed, the strings that are printed are not. The end of the
-- loader, `__symbol_exec_end__`, and the bytes of the relocation stub are parameters.
pub mod Relocated
use okeanos.Prelude.{
  ℕ, zero, suc, ◌+◌, ◌-◌, ◌%◌, ◌^◌, Bool, true, false, List, [], ◌∷◌, Option, none, some, ◌==◌, ltb,
  if◌then◌else◌,
}
use okeanos.Prelude.Words.{from_le_bytes32}
use okeanos.Frame.Crc.{Crc32}
use okeanos.Boot.Relocation.{Memory, copy, slice, max, min}

-- `su_boot::Command` of common/okboot-common/src/lib.rs
abbrev pub get_code : ℕ
get_code = 0x5555_6666

abbrev pub boot_success : ℕ
boot_success = 0x9999_aaaa

abbrev pub boot_error : ℕ
boot_error = 0xbbbb_cccc

-- The variables of `perform_download` that say what is relocated.
pub record Plan : Type 0 where
  pub relocate : Bool
  pub relocate_prog_from : ℕ
  pub relocate_prog_len : ℕ
  pub relocate_prog_to : ℕ
  pub relocate_stub_to : ℕ

unfoldable pub plan_of : ℕ → ℕ → ℕ → Plan
plan_of self_end addr len =
    let prog_end = (addr + len) % 2 ^ 32 in
    let relocate_prog_len = min (self_end - addr) len in
    let relocate_prog_to = max prog_end self_end in
    if ltb addr self_end
    then record {
      relocate = true;
      relocate_prog_from = addr;
      relocate_prog_len = relocate_prog_len;
      relocate_prog_to = relocate_prog_to;
      relocate_stub_to = (relocate_prog_to + relocate_prog_len) % 2 ^ 32;
    }
    else record {
      relocate = false;
      relocate_prog_from = 0;
      relocate_prog_len = 0;
      relocate_prog_to = 0;
      relocate_stub_to = 0;
    }

-- How a download ends: the input ends, the checksum is wrong, or the jump to the stub, with the arguments in
-- its registers.
pub record Jump : Type 0 where
  pub memory : Memory
  pub target : ℕ
  pub prog_dst : ℕ
  pub prog_src : ℕ
  pub prog_len : ℕ
  pub entry : ℕ

pub data End : Type 0 where
  waits : End
  refused : List ℕ → End
  jumps : List ℕ → Jump → End

-- `uart1_read32_blocking`, and a number of bytes.
abbrev pub read32 : List ℕ → (ℕ → List ℕ → End) → End
read32 (a ∷ b ∷ c ∷ d ∷ bytes) next = next (from_le_bytes32 a b c d) bytes
read32 bytes next = waits

unfoldable pub read_bytes : ℕ → List ℕ → (List ℕ → List ℕ → End) → End
read_bytes zero bytes next = next [] bytes
read_bytes (suc n) [] next = waits
read_bytes (suc n) (b ∷ bytes) next = read_bytes n bytes (λ read rest. next (b ∷ read) rest)

pub data S : Type 0 where
  clr pc1 pc2 pc3 put_code : S

unfoldable pub next_state : S → ℕ → S
next_state clr b = if b == 0x88 then pc1 else clr
next_state pc1 b = if b == 0x88 then pc2 else clr
next_state pc2 b = if b == 0x77 then pc3 else clr
next_state pc3 b = if b == 0x77 then put_code else clr
next_state put_code b = clr

abbrev pub is_put_code : S → Bool
is_put_code put_code = true
is_put_code s = false

-- The loop that waits for `PUT_CODE`.
unfoldable pub wait_put_code : S → List ℕ → (List ℕ → End) → End
wait_put_code state [] next = waits
wait_put_code state (b ∷ bytes) next =
    let rest = wait_put_code (next_state state b) bytes next in
    if is_put_code (next_state state b) then next bytes else rest

-- `relocate_stub`
abbrev pub relocate_stub : List ℕ → Plan → ℕ → ℕ → Memory → End
relocate_stub stub p addr crc mem = jumps (get_code ∷ crc ∷ boot_success ∷ []) (record {
  memory = copy mem p.relocate_stub_to stub;
  target = p.relocate_stub_to;
  prog_dst = p.relocate_prog_from;
  prog_src = p.relocate_prog_to;
  prog_len = p.relocate_prog_len;
  entry = addr;
})

module _ (crc32 : Crc32) where
  abbrev pub verify : List ℕ → Plan → ℕ → ℕ → Memory → ℕ → End
  verify stub p addr crc mem verify_crc32 =
      if verify_crc32 == crc
      then relocate_stub stub p addr crc mem
      else refused (get_code ∷ crc ∷ boot_error ∷ [])

  -- The bytes of the program, written and read back for the checksum.
  abbrev pub receive_relocated : List ℕ → Plan → ℕ → ℕ → ℕ → Memory → List ℕ → End
  receive_relocated stub p addr len crc mem bytes =
      read_bytes p.relocate_prog_len bytes (λ moved rest.
        let mem1 = copy mem p.relocate_prog_to moved in
        let stationary_len = len - p.relocate_prog_len in
        let stationary_ptr = p.relocate_prog_to + p.relocate_prog_len in
        read_bytes stationary_len rest (λ stationary rest'.
          let mem2 = copy mem1 stationary_ptr stationary in
          let h = crc32.update crc32.new (slice mem2 p.relocate_prog_to p.relocate_prog_len) in
          verify stub p addr crc mem2
            (crc32.finalize (crc32.update h (slice mem2 stationary_ptr stationary_len)))))

  abbrev pub receive_in_place : List ℕ → Plan → ℕ → ℕ → ℕ → Memory → List ℕ → End
  receive_in_place stub p addr len crc mem bytes = read_bytes len bytes (λ prog rest.
      let mem1 = copy mem addr prog in
      verify stub p addr crc mem1 (crc32.finalize (crc32.update crc32.new (slice mem1 addr len))))

  abbrev pub receive : List ℕ → Plan → ℕ → ℕ → ℕ → Memory → List ℕ → End
  receive stub p addr len crc mem bytes =
      if p.relocate
      then receive_relocated stub p addr len crc mem bytes
      else receive_in_place stub p addr len crc mem bytes

  unfoldable pub perform_download : ℕ → List ℕ → Memory → List ℕ → End
  perform_download self_end stub mem input = read32 input (λ addr input1.
      read32 input1 (λ len input2. read32 input2 (λ crc input3.
        wait_put_code clr input3
          (λ input4. receive stub (plan_of self_end addr len) addr len crc mem input4))))
