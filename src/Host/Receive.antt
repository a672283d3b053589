-- ===== src/Host/Receive.antt =====
-- host/okdude/src/upload.rs, `recv_with_print_string`: a message is awaited while the device may print. What
-- the terminal and the clock answer is a list of rounds: whether the timeout has elapsed, and a read.
pub mod Frames
use okeanos.Prelude.{
  ℕ, zero, suc, Bool, true, false, List, [], ◌∷◌, ◌++◌, Option, none, some, ◌==◌, ltb,
  if◌then◌else◌, length, Outcome, ok, err, panic, ◌>>=◌,
}
use okeanos.Prelude.Words.{from_le_bytes32}
use okeanos.Frame.Crc.{Crc32}
use okeanos.Frame.Message.{MessageType, cobs_xor}
use okeanos.Frame.Layer.{FrameHeader, FrameError, FrameOutput, Layer, Fed, feed, new, skip_preamble}

pub data Read : Type 0 where
  byte : ℕ → Read
  timed_out : Read
  disconnected : Read
  failed : Read

pub record Round : Type 0 where
  pub elapsed : Bool
  pub answer : Read

-- How the receiver ends without a message: `exited` is `exit(1)`, `ended` is the end of the list of rounds.
pub data RecvError : Type 0 where
  late : RecvError
  exited : RecvError
  io : RecvError
  frame : FrameError → RecvError
  second_header : RecvError
  no_header : RecvError
  length_mismatch : RecvError
  ended : RecvError

abbrev pub Got : Type 0 → Type 0
Got A = Outcome RecvError A

-- What the match on the state and the byte leads to.
pub data Next : Type 0 where
  to : ℕ → Next
  found : Next
  print_string : Next

unfoldable pub next_state : ℕ → ℕ → Next
next_state state b =
    if state == 0
    then (if b == 0x55 then to 1 else if b == 0xee then to 5 else to 0)
    else if state == 1
    then (if b == 0x55 then to 2 else to 0)
    else if state == 2
    then (if b == 0x55 then to 3 else to 0)
    else if state == 3
    then (if b == 0x5e then found else if b == 0x55 then to 3 else to 0)
    else if state == 5
    then (if b == 0xee then to 6 else to 0)
    else if state == 6
    then (if b == 0xee then to 6 else if b == 0xdd then to 7 else to 0)
    else if state == 7
    then (if b == 0xdd then print_string else to 0)
    else to 0

-- `read_exact`: so many bytes, or as far as they come. The bytes, if all came, and the rounds behind them.
unfoldable pub read_exact : ℕ → List Round → Option (List ℕ) × List Round
read_exact zero rounds = (some [], rounds)
read_exact (suc n) [] = (none, [])
read_exact (suc n) (r ∷ rounds) =
    let rest = read_exact n rounds in
    elim r.answer [
      | byte b ↦ (elim rest.0 [ none ↦ none | some bs ↦ some (b ∷ bs) ], rest.1)
      | timed_out ↦ (none, rounds)
      | disconnected ↦ (none, rounds)
      | failed ↦ (none, rounds)
    ]

-- `tty.read32_le().unwrap_or(0)`
abbrev pub word_or_zero : Option (List ℕ) → ℕ
word_or_zero (some (a ∷ b ∷ c ∷ d ∷ [])) = from_le_bytes32 a b c d
word_or_zero o = 0

-- Whether the terminal is gone before so many bytes are read: `pipe_error` of tty.rs then exits.
abbrev pub is_gone : ℕ → List Round → Bool
is_gone zero rounds = false
is_gone (suc n) [] = false
is_gone (suc n) (r ∷ rounds) =
    let rest = is_gone n rounds in
    elim r.answer [ byte b ↦ rest | timed_out ↦ false | disconnected ↦ true | failed ↦ false ]

-- A string that the device prints: the rounds behind it.
abbrev pub skip_string : List Round → List Round
skip_string rounds =
    let (word, behind) = read_exact 4 rounds in (read_exact (word_or_zero word) behind).1

abbrev pub on_next :
    Next → List Round → (List Round → ℕ → Got (Option (List Round))) → Got (Option (List Round))
on_next (to state) rounds loop = loop rounds state
on_next found rounds loop = ok (some rounds)
on_next print_string rounds loop =
    if is_gone 4 rounds then err exited else loop (skip_string rounds) 0

abbrev pub preamble_read :
    Read → List Round → ℕ → (List Round → ℕ → Got (Option (List Round))) → Got (Option (List Round))
preamble_read (byte b) rounds state loop = on_next (next_state state b) rounds loop
preamble_read timed_out rounds state loop = loop rounds state
preamble_read disconnected rounds state loop = err exited
preamble_read failed rounds state loop = err io

-- The first loop, up to the end of a preamble: the rounds that are left, or `none` for a timeout. Every turn
-- takes a round, so that as many turns as rounds, and one more, are enough.
unfoldable pub find_preamble : ℕ → List Round → ℕ → Got (Option (List Round))
find_preamble zero rounds state = err ended
find_preamble (suc turns) [] state = err ended
find_preamble (suc turns) (r ∷ rounds) state =
    let next =
      preamble_read r.answer rounds state (λ rounds' state'. find_preamble turns rounds' state') in
    if r.elapsed then ok none else next

abbrev pub Message : Type 0
Message = MessageType × List ℕ

-- The header and the payload so far.
abbrev pub Partial : Type 0
Partial = Option FrameHeader × List ℕ

-- The match on an output of the frame layer.
abbrev pub on_header : Partial → FrameHeader → (Partial → Got Message) → Got Message
on_header (none, payload) hdr loop = loop (some hdr, payload)
on_header (some orig, payload) hdr loop = err second_header

abbrev pub on_payload : Partial → ℕ → (Partial → Got Message) → Got Message
on_payload (none, payload) x loop = err no_header
on_payload (some header, payload) x loop =
    let next = loop (some header, payload ++ x ∷ []) in
    if ltb header.payload_len (length (payload ++ x ∷ [])) then err length_mismatch else next

abbrev pub on_finished : Partial → Got Message
on_finished (none, payload) = err no_header
on_finished (some header, payload) =
    if header.payload_len == length payload
    then ok (header.message_type, payload)
    else err length_mismatch

unfoldable pub on_output : FrameOutput → Partial → (Partial → Got Message) → Got Message
on_output FrameOutput.skip p loop = loop p
on_output (FrameOutput.header hdr) p loop = on_header p hdr loop
on_output (FrameOutput.payload x) p loop = on_payload p x loop
on_output FrameOutput.finished p loop = on_finished p
on_output FrameOutput.legacy p loop = panic
on_output (FrameOutput.legacy_print_string_byte n b) p loop = panic

module _ (crc32 : Crc32) where
  abbrev pub on_fed : Fed crc32 → Partial → (Layer crc32 → Partial → Got Message) → Got Message
  on_fed (l, ok o) p loop = on_output o p (loop l)
  on_fed (l, err e) p loop = err (frame e)
  on_fed (l, panic) p loop = panic

  abbrev pub frame_read :
      Read → Layer crc32 → Partial → (Layer crc32 → Partial → Got Message) → Got Message
  frame_read (byte b) l p loop = on_fed (feed crc32 l b) p loop
  frame_read timed_out l p loop = loop l p
  frame_read disconnected l p loop = err exited
  frame_read failed l p loop = err io

  -- The second loop.
  unfoldable pub read_frame : Layer crc32 → Partial → List Round → Got Message
  read_frame l p [] = err ended
  read_frame l p (r ∷ rounds) =
      let next = frame_read r.answer l p (λ l' p'. read_frame l' p' rounds) in
      if r.elapsed then err late else next

  abbrev behind_preamble : Option (List Round) → Got (Option Message)
  behind_preamble none = ok none
  behind_preamble (some rounds) =
      read_frame (skip_preamble crc32 (new crc32 cobs_xor)) (none, []) rounds >>= λ m. ok (some m)

  unfoldable pub recv_with_print_string : List Round → Got (Option Message)
  recv_with_print_string rounds = find_preamble (suc (length rounds)) rounds 0 >>= behind_preamble
