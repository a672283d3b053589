-- ===== src/Host/Decoder.antt =====
-- host/okdude/src/v2.rs, `Decoder`: bytes of the device become messages. The channel that they are
-- sent on is the list of the messages; its other end is there. What is logged is left out.
pub mod Outputs
pub mod Frames
use okeanos.Prelude.{
  ℕ, ◌+◌, ◌==◌, Bool, true, false, List, [], ◌∷◌, ◌++◌, Option, none, some, if◌then◌else◌, length,
  Outcome, ok, err, panic,
}
use okeanos.Frame.Crc.{Crc32}
use okeanos.Frame.Message.{MessageType}
use okeanos.Frame.Layer.{FrameHeader, FrameError, FrameOutput, FrameLayer, feed, reset}

pub data DecodeError : Type 0 where
  second_header payload_without_header finished_without_header legacy_frame : DecodeError
  frame : FrameError → DecodeError

abbrev pub Message : Type 0
Message = MessageType × List ℕ

pub record Decoder (H : Type 0) : Type 0 where
  pub received_messages : List Message
  pub decoder : FrameLayer H
  pub frame_header : Option FrameHeader
  pub buffer : List ℕ

abbrev pub is_print_string : MessageType → Bool
is_print_string MessageType.print_string = true
is_print_string t = false

module _ (crc32 : Crc32) where
  abbrev pub State : Type 0
  State = Decoder crc32.Hasher

  -- `Decoder::reset`
  abbrev pub reset_all : State → State
  reset_all d = record d { decoder = reset crc32 d.decoder; frame_header = none; buffer = [] }

  abbrev pub on_header :
      State → FrameHeader → Option FrameHeader → State × Outcome DecodeError (Unit {0})
  on_header d h (some h') = (d, err second_header)
  on_header d h none = (record d { frame_header = some h; buffer = [] }, ok tt)

  abbrev pub on_payload : State → ℕ → Option FrameHeader → State × Outcome DecodeError (Unit {0})
  on_payload d b none = (d, err payload_without_header)
  on_payload d b (some h) = (record d { buffer = d.buffer ++ b ∷ [] }, ok tt)

  abbrev pub on_finished : State → Option FrameHeader → State × Outcome DecodeError (Unit {0})
  on_finished d none = (d, err finished_without_header)
  on_finished d (some h) =
      if is_print_string h.message_type then (record d { frame_header = none }, ok tt) else (
        record d {
          frame_header = none;
          buffer = [];
          received_messages = d.received_messages ++ (h.message_type, d.buffer) ∷ [];
        },
        ok tt,
      )

  -- The arms for the outputs of the frame layer.
  unfoldable pub on_output : State → FrameOutput → State × Outcome DecodeError (Unit {0})
  on_output d FrameOutput.skip = (d, ok tt)
  on_output d (FrameOutput.header h) = on_header d h d.frame_header
  on_output d (FrameOutput.payload b) = on_payload d b d.frame_header
  on_output d FrameOutput.finished = on_finished d d.frame_header
  on_output d FrameOutput.legacy = (d, err legacy_frame)
  on_output d (FrameOutput.legacy_print_string_byte n b) =
      let d1 = record d { buffer = d.buffer ++ b ∷ [] } in
      if n == length d1.buffer then (reset_all d1, ok tt) else (d1, ok tt)

  abbrev pub on_fed :
      State
      → FrameLayer crc32.Hasher × Outcome FrameError FrameOutput
      → State × Outcome DecodeError (Unit {0})
  on_fed d (l, ok o) = on_output (record d { decoder = l }) o
  on_fed d (l, err e) = (reset_all (record d { decoder = l }), err (frame e))
  on_fed d (l, panic) = (record d { decoder = l }, panic)

  -- `?` and the rest of the loop
  abbrev pub and_then :
      State × Outcome DecodeError (Unit {0})
      → (State → State × Outcome DecodeError (Unit {0}))
      → State × Outcome DecodeError (Unit {0})
  and_then (d, ok u) rest = rest d
  and_then (d, err e) rest = (d, err e)
  and_then (d, panic) rest = (d, panic)

  -- `Decoder::process_incoming_bytes`
  unfoldable pub process_incoming_bytes : State → List ℕ → State × Outcome DecodeError (Unit {0})
  process_incoming_bytes d [] = (d, ok tt)
  process_incoming_bytes d (b ∷ bytes) =
      and_then (on_fed d (feed crc32 d.decoder b)) (λ d'. process_incoming_bytes d' bytes)
