-- ===== src/Tests/Buffer.antt =====
-- The transmit buffer and the frame sink of device/okboot at concrete inputs.
use okeanos.Prelude.{
  ℕ, ◌+◌, ◌<◌, ◌≤◌, true, false, List, [], ◌∷◌, none, some, replicate, Outcome, ok, err, ◌≡◌, ◌≢◌,
  ◌⊎◌, refl, arith, if◌then◌else◌, ◌==◌,
}
use okeanos.Frame.Message.{MessageType, print_string, cobs_xor}
use okeanos.Frame.Encode.{BufferedEncoder, encode_length, frame, with_buffer_xor, inner_with_buffer}
use okeanos.Boot.Window.{window}
use okeanos.Boot.Transmit.{
  TransmitBuffer, new, push_byte, extend_from_slice, reserve, shift_byte, restore, checkpoint,
  bytes_since_checkpoint,
}
use okeanos.Boot.Transmit.Laws.{
  IsValid, Extends, contents, room, new-IsValid, push_byte-Extends, extend_from_slice-Extends,
  reserve-Extends, shift_byte_lem,
}
use okeanos.Boot.Transmit.Rollback.{bytes_since_checkpoint_lem, restore-checkpoint}
use okeanos.Boot.Writer
use okeanos.Boot.Writer.{FrameSink, SendError, send, sink_new, truncated}
use okeanos.Boot.Writer.Rollback.{send-Undone, Undone}
use okeanos.Tests.Coding.{sum32, zeros}

-- A buffer of three places whose two bytes go round the end of the storage.
abbrev wrapped : TransmitBuffer
wrapped = record {
  underlying_storage = 9 ∷ 0 ∷ 8 ∷ [];
  circle_begin = 2;
  circle_end = 1;
  circle_len = 2;
}

wrapped-IsValid : IsValid wrapped
wrapped-IsValid = record { begin_in = omega arith; len_in = omega arith; end_is = refl }

contents-wrapped : contents wrapped ≡ 8 ∷ 9 ∷ []
unfolding window
contents-wrapped = refl

extend_from_slice-Extends_example :
    ((2 + 2 ≤ 3)
      × ((extend_from_slice wrapped (1 ∷ 2 ∷ [])).1 ≡ true)
      × Extends wrapped (extend_from_slice wrapped (1 ∷ 2 ∷ [])).0 (1 ∷ 2 ∷ []))
    ⊎ ((3 < 2 + 2) × (extend_from_slice wrapped (1 ∷ 2 ∷ []) ≡ (wrapped, false)))
extend_from_slice-Extends_example = extend_from_slice-Extends wrapped (1 ∷ 2 ∷ []) wrapped-IsValid

reserve-Extends_example :
    ((2 + 1 ≤ 3)
      × ((reserve wrapped 1).1 ≡ some 1)
      × Extends wrapped (reserve wrapped 1).0 (window wrapped.underlying_storage 3 1 1))
    ⊎ ((3 < 2 + 1) × (reserve wrapped 1 ≡ (wrapped, none)))
reserve-Extends_example = reserve-Extends wrapped 1 wrapped-IsValid

shift_byte_lem_example :
    ((wrapped.circle_len ≡ 0) × (shift_byte wrapped ≡ (wrapped, none)))
    ⊎ ((b : ℕ) × ((shift_byte wrapped).1 ≡ some b)
        × (contents wrapped ≡ b ∷ contents (shift_byte wrapped).0)
        × IsValid (shift_byte wrapped).0
        × (room (shift_byte wrapped).0 ≡ room wrapped))
shift_byte_lem_example = shift_byte_lem wrapped wrapped-IsValid

restore-checkpoint_example :
    IsValid (restore (push_byte wrapped 7).0 (checkpoint wrapped))
    × (contents (restore (push_byte wrapped 7).0 (checkpoint wrapped)) ≡ contents wrapped)
    × (room (restore (push_byte wrapped 7).0 (checkpoint wrapped)) ≡ room wrapped)
restore-checkpoint_example =
    restore-checkpoint wrapped (push_byte wrapped 7).0 (7 ∷ []) wrapped-IsValid
      (push_byte-Extends wrapped 7 wrapped-IsValid (omega arith)).1

bytes_since_checkpoint_lem_example :
    bytes_since_checkpoint (push_byte wrapped 7).0 (checkpoint wrapped) ≡ (if 1 == 3 then 0 else 1)
bytes_since_checkpoint_lem_example =
    bytes_since_checkpoint_lem wrapped (push_byte wrapped 7).0 (7 ∷ []) wrapped-IsValid
      (push_byte-Extends wrapped 7 wrapped-IsValid (omega arith)).1

-- Room for the preamble and the length, and for no more.
abbrev small : FrameSink
small = sink_new (new (replicate 9 0)) (record { buffer = zeros; xor = cobs_xor }) (replicate 4 0)

-- Every message is the two bytes that postcard finds in its buffer.
abbrev two_bytes : ℕ → List ℕ → List ℕ × Outcome (Unit {0}) ℕ
two_bytes msg px = (px, ok 2)

small_full : (send sum32 (λ msg. print_string) two_bytes small 5).1 ≡ err truncated
unfolding send frame Writer.finalize Writer.add_bytes Writer.add_bytes_unhashed Writer.new
    extend_from_slice reserve okeanos.Boot.Transmit.push_bytes push_byte
    okeanos.Frame.Encode.write_u8 okeanos.Frame.Encode.inner_write_u8 okeanos.Frame.Message.to_u32
small_full = refl

two_long : encode_length 2 ≢ none
unfolding encode_length
two_long e = cc e

send-Undone_example :
    Undone sum32
      (new (replicate 9 0))
      (send sum32 (λ msg. print_string) two_bytes small 5).0.transmit_buffer
send-Undone_example =
    send-Undone sum32 (λ msg. print_string) two_bytes small 5 (replicate 4 0) truncated
      (new-IsValid (replicate 9 0) (omega arith)).0 refl two_long small_full
