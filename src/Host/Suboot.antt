-- ===== src/Host/Suboot.antt =====
-- host/okdude/src/suboot.rs: the upload by the SU-BOOT protocol. Writes to the terminal succeed; what is read
-- is a list of answers, as in Host.Receive, where no timeout counts.
pub mod Upload
use okeanos.Prelude.{
  ℕ, zero, suc, ◌+◌, ◌^◌, ◌<◌, ◌≤◌, Bool, true, false, ◌&&◌, List, [], ◌∷◌, ◌++◌, Option, none,
  some, ◌==◌, ltb, if◌then◌else◌, length,
}
use okeanos.Prelude.Words.{to_le_bytes32, from_le_bytes32}
use okeanos.Frame.Crc.{Crc32}
use okeanos.Boot.V2.Loader.{FormatDetails, bin, elf}
use okeanos.Host.Receive.{
  Round, Read, byte, timed_out, disconnected, failed, read_exact, is_gone, skip_string,
}

-- `su_boot::Command` of common/okboot-common/src/lib.rs
abbrev pub put_prog_info : ℕ
put_prog_info = 0x3333_4444

abbrev pub put_code_command : ℕ
put_code_command = 0x7777_8888

-- The variables `status` and `switch`.
abbrev pub Place : Type 0
Place = ℕ × ℕ

abbrev is_at : Place → ℕ → ℕ → Bool
is_at (status, switch) a b = status == a && switch == b

-- The match of both loops; the loops differ in the bytes of the word that is waited for. `none` is a string
-- that is printed.
abbrev pub next_place : ℕ → ℕ → Place → ℕ → Option Place
next_place lo hi p b =
    if is_at p 0 0
    then (if b == 0xcc
        then some (1, 1)
        else if b == lo
        then some (1, 2)
        else if b == 0xee
        then some (1, 3)
        else some (0, 0))
    else if is_at p 1 1
    then (if b == 0xcc then some (2, 1) else some (0, 0))
    else if is_at p 2 1
    then (if b == 0xbb then some (3, 1) else some (0, 0))
    else if is_at p 3 1
    then (if b == 0xbb then some (4, 1) else some (0, 0))
    else if is_at p 1 2
    then (if b == lo then some (2, 2) else some (0, 0))
    else if is_at p 2 2
    then (if b == hi then some (3, 2) else some (0, 0))
    else if is_at p 3 2
    then (if b == hi then some (4, 2) else some (0, 0))
    else if is_at p 1 3
    then (if b == 0xee then some (2, 3) else some (0, 0))
    else if is_at p 2 3
    then (if b == 0xdd then some (3, 3) else some (0, 0))
    else if is_at p 3 3
    then (if b == 0xdd then none else some (0, 0))
    else some (0, 0)

-- How the upload ends: it waits for more, it is aborted by `exit(1)` (also where the terminal is gone), it fails with an error or a panic, or the
-- device has booted.
pub data End : Type 0 where
  waits aborted fails panics booted : End

abbrev go_on :
    Option Place
    → List Round
    → (Place → List Round → End × List ℕ)
    → (ℕ → List Round → End × List ℕ)
    → End × List ℕ
go_on none rounds loop next =
    if is_gone 4 rounds then (aborted, []) else loop (0, 0) (skip_string rounds)
go_on (some (status, switch)) rounds loop next =
    if status == 4 then next switch rounds else loop (status, switch) rounds

abbrev after_read :
    ℕ
    → ℕ
    → Place
    → Read
    → List Round
    → (Place → List Round → End × List ℕ)
    → (ℕ → List Round → End × List ℕ)
    → End × List ℕ
after_read lo hi p (byte b) rounds loop next = go_on (next_place lo hi p b) rounds loop next
after_read lo hi p timed_out rounds loop next = loop p rounds
after_read lo hi p disconnected rounds loop next = (aborted, [])
after_read lo hi p failed rounds loop next = loop p rounds

-- Either loop: `next` gets the switch at its end and the rounds behind. Every turn takes a round.
unfoldable pub await :
    ℕ → ℕ → ℕ → Place → List Round → (ℕ → List Round → End × List ℕ) → End × List ℕ
await zero lo hi p rounds next = (waits, [])
await (suc turns) lo hi p [] next = (waits, [])
await (suc turns) lo hi p (r ∷ rounds) next =
    after_read lo hi p r.answer rounds (λ p' rounds'. await turns lo hi p' rounds' next) next

-- The bytes that are written first.
abbrev sends : List ℕ → End × List ℕ → End × List ℕ
sends bytes (end, more) = (end, bytes ++ more)

-- Behind the second loop.
abbrev pub finish : ℕ → List Round → End × List ℕ
finish switch rounds =
    if switch == 1 then (aborted, []) else if switch == 2 then (booted, []) else (panics, [])

abbrev with_word : Option (List ℕ) → (ℕ → End × List ℕ) → End × List ℕ
with_word (some (a ∷ b ∷ c ∷ d ∷ [])) next = next (from_le_bytes32 a b c d)
with_word o next = (fails, [])

-- Between the loops: the checksum that the device sends back, and the program.
abbrev pub put_code : List ℕ → ℕ → ℕ → List Round → End × List ℕ
put_code prog_data crc switch rounds =
    let (word, behind) = read_exact 4 rounds in
    if switch == 1
    then (aborted, [])
    else if switch == 2
    then (if is_gone 4 rounds
        then (aborted, [])
        else with_word word (λ retransmitted_crc.
          if retransmitted_crc == crc
          then sends (to_le_bytes32 put_code_command ++ prog_data)
              (await (suc (length behind)) 0xaa 0x99 (0, 0) behind finish)
          else (aborted, [])))
    else (panics, [])

module _ (crc32 : Crc32) where
  -- How it ends, and the bytes that are written. An address or a length of 2 ^ 32 is a panic of `try_into`.
  unfoldable pub run : FormatDetails → List ℕ → List Round → End × List ℕ
  run (elf) prog_data rounds = (fails, [])
  run (bin load_address) prog_data rounds =
      let crc = crc32.finalize (crc32.update crc32.new prog_data) in
      if ltb load_address (2 ^ 32) && ltb (length prog_data) (2 ^ 32)
      then sends
          (to_le_bytes32 put_prog_info
            ++ (to_le_bytes32 load_address
                ++ (to_le_bytes32 (length prog_data) ++ to_le_bytes32 crc)))
          (await (suc (length rounds)) 0x66 0x55 (0, 0) rounds (put_code prog_data crc))
      else (panics, [])
