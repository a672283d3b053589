-- ===== src/Boot/Writer.antt =====
-- device/okboot/src/buf.rs, `FrameWriter` and `FrameSink`: frames written straight into the
-- transmit buffer, and taken back if they do not fit. The borrowed transmit buffer is a field of
-- the writer; `postcard::to_slice` is a parameter of `send`.
pub mod Rollback
use okeanos.Prelude.{
  ℕ, ◌+◌, ◌-◌, ◌%◌, ◌^◌, Bool, true, false, List, [], ◌∷◌, Option, none, some, length,
  if◌then◌else◌, Outcome, ok, err, panic, take,
}
use okeanos.Prelude.Words.{to_le_bytes32}
use okeanos.Frame.Crc.{Crc32}
use okeanos.Frame.Message.{MessageType, to_u32, preamble_bytes}
use okeanos.Frame.Encode
use okeanos.Frame.Encode.{FrameEncoder, EncodeState, BufferedEncoder, encode_length, frame}
use okeanos.Boot.Transmit.{
  TransmitBuffer, TransmitBufferCheckpoint, checkpoint, extend_from_slice, reserve, restore,
  write_bytes_at_unchecked, bytes_since_checkpoint,
}

-- `H` is the type of the checksum's state.
pub record FrameWriter (H : Type 0) : Type 0 where
  pub transmit_buffer : TransmitBuffer
  pub frame_encoder : FrameEncoder
  pub checkpoint : TransmitBufferCheckpoint
  pub len_offset : ℕ
  pub ok : Bool
  pub hasher : H
  pub fmt_bytes : ℕ

pub record FrameSink : Type 0 where
  pub transmit_buffer : TransmitBuffer
  pub slice_buffered_encoder : BufferedEncoder
  pub postcard_buffer : Option (List ℕ)

-- `E` is the type of postcard's errors.
pub data SendError (E : Type 0) : Type 0 where
  postcard : E → SendError E
  construct_encoder : SendError E
  truncated : SendError E

-- `FrameSink::new`
abbrev pub sink_new : TransmitBuffer → BufferedEncoder → List ℕ → FrameSink
sink_new transmit_buffer slice_buffered_encoder postcard_buffer = record {
  transmit_buffer = transmit_buffer;
  slice_buffered_encoder = slice_buffered_encoder;
  postcard_buffer = some postcard_buffer;
}

-- `lo.unwrap_or(0)` and `lo.is_some()`
abbrev pub len_place : TransmitBuffer × Option ℕ → TransmitBuffer × ℕ × Bool
len_place (t, none) = (t, 0, false)
len_place (t, some offset) = (t, offset, true)

-- The place of the length, if there is room for the preamble and it.
abbrev pub reserve_len : TransmitBuffer × Bool → TransmitBuffer × ℕ × Bool
reserve_len (t, true) = len_place (reserve t 4)
reserve_len (t, false) = (t, 0, false)

module _ (crc32 : Crc32) where
  -- `FrameWriter::new`
  unfoldable pub new : TransmitBuffer → FrameEncoder → FrameWriter crc32.Hasher
  new t frame_encoder =
      let (t', len_offset, is_ok) = reserve_len (extend_from_slice t preamble_bytes) in
      record {
        transmit_buffer = t';
        frame_encoder = frame_encoder;
        checkpoint = checkpoint t;
        len_offset = len_offset;
        ok = is_ok;
        hasher = crc32.new;
        fmt_bytes = 0;
      }

  -- The buffer after one `write_u8` of the encoder.
  abbrev pub take_state :
      FrameWriter crc32.Hasher → FrameEncoder × EncodeState → FrameWriter crc32.Hasher
  take_state w (e, EncodeState.buf bytes) =
      let (t, is_ok) = extend_from_slice w.transmit_buffer bytes in
      record w { frame_encoder = e; transmit_buffer = t; ok = is_ok }
  take_state w (e, EncodeState.pass) = record w { frame_encoder = e }

  -- `_add_bytes_unhashed`: the loop, which stops when `ok` is false.
  unfoldable pub add_bytes_unhashed : FrameWriter crc32.Hasher → List ℕ → FrameWriter crc32.Hasher
  add_bytes_unhashed w [] = w
  add_bytes_unhashed w (byte ∷ bytes) =
      let rest = add_bytes_unhashed (take_state w (Encode.write_u8 w.frame_encoder byte)) bytes in
      if w.ok then rest else w

  unfoldable pub add_bytes : FrameWriter crc32.Hasher → List ℕ → FrameWriter crc32.Hasher
  add_bytes w bytes = add_bytes_unhashed (record w { hasher = crc32.update w.hasher bytes }) bytes

  abbrev pub write32 : FrameWriter crc32.Hasher → ℕ → FrameWriter crc32.Hasher
  write32 w x = add_bytes w (to_le_bytes32 x)

  -- `finalize`, lines 301-305: the checksum behind the payload.
  abbrev pub finish_crc : FrameWriter crc32.Hasher → FrameWriter crc32.Hasher
  finish_crc w =
      if w.ok
      then add_bytes_unhashed (record w { hasher = crc32.new })
          (to_le_bytes32 (crc32.finalize w.hasher))
      else w

  -- Lines 306-310: the last group of the frame.
  abbrev pub finish_frame : FrameWriter crc32.Hasher → FrameWriter crc32.Hasher
  finish_frame w =
      if w.ok
      then (let (e, bytes) = Encode.finish w.frame_encoder in
          let (t, is_ok) = extend_from_slice w.transmit_buffer bytes in
          record w { frame_encoder = e; transmit_buffer = t; ok = is_ok })
      else w

  -- Lines 314-322: the length in its place.
  abbrev pub put_len : FrameWriter crc32.Hasher → Option (List ℕ) → FrameWriter crc32.Hasher
  put_len w (some len_bytes) = record w {
    transmit_buffer = (write_bytes_at_unchecked w.transmit_buffer w.len_offset len_bytes).0;
  }
  put_len w none = record w { ok = false }

  -- Lines 311-323.
  abbrev pub close : FrameWriter crc32.Hasher → ℕ → FrameWriter crc32.Hasher
  close w payload_bytes =
      if w.ok
      then put_len w (encode_length payload_bytes)
      else record w { transmit_buffer = restore w.transmit_buffer w.checkpoint }

  unfoldable pub finalize : FrameWriter crc32.Hasher → ℕ → FrameWriter crc32.Hasher × Bool
  finalize w payload_bytes =
      let w' = close (finish_frame (finish_crc w)) payload_bytes in (w', w'.ok)

  abbrev pub abort : FrameWriter crc32.Hasher → TransmitBuffer
  abort w = restore w.transmit_buffer w.checkpoint

  abbrev pub write_str : FrameWriter crc32.Hasher → List ℕ → FrameWriter crc32.Hasher
  write_str w s = record (add_bytes w s) { fmt_bytes = w.fmt_bytes + length s }

  -- The encoder's buffer goes back to the sink with what was written in it.
  abbrev pub return_to : FrameSink → List ℕ → FrameWriter crc32.Hasher → FrameSink
  return_to s px_buf w = record {
    transmit_buffer = w.transmit_buffer;
    slice_buffered_encoder = record s.slice_buffered_encoder { buffer = w.frame_encoder.inner.buf };
    postcard_buffer = some px_buf;
  }

  -- The answer to `finalize`.
  abbrev pub sent : {E : Type 0} → Bool → Outcome (SendError E) (Unit {0})
  sent true = ok tt
  sent false = err truncated

  -- `postcard::to_slice` with the serializer of the message: what it leaves in the buffer that it
  -- is lent, and the length of the slice that it returns or its error.
  module _ {E Msg : Type 0} (message_type : Msg → MessageType)
      (to_slice : Msg → List ℕ → List ℕ × Outcome E ℕ) where
    -- Lines 362-377.
    abbrev pub send_payload :
        FrameSink
        → FrameWriter crc32.Hasher
        → List ℕ × Outcome E ℕ
        → FrameSink × Outcome (SendError E) (Unit {0})
    send_payload s w (px_buf, ok n) =
        let (w', is_ok) = finalize (add_bytes w (take n px_buf)) n in
        (return_to s px_buf w', sent is_ok)
    send_payload s w (px_buf, err e) =
        (return_to s px_buf (record w { transmit_buffer = abort w }), err (SendError.postcard e))
    send_payload s w (px_buf, panic) = (record s { postcard_buffer = none }, panic)

    -- `FrameWriter::new` and the type, if there is an encoder.
    abbrev pub send_frame :
        FrameSink
        → Msg
        → List ℕ
        → Option FrameEncoder
        → FrameSink × Outcome (SendError E) (Unit {0})
    send_frame s msg px_buf none = (record s { postcard_buffer = none }, err construct_encoder)
    send_frame s msg px_buf (some e) =
        send_payload s (write32 (new s.transmit_buffer e) (to_u32 (message_type msg)))
          (to_slice msg px_buf)

    -- The buffer for postcard is taken out of the sink; an early return does not put it back.
    abbrev pub send_with :
        FrameSink → Msg → Option (List ℕ) → FrameSink × Outcome (SendError E) (Unit {0})
    send_with s msg none = (s, panic)
    send_with s msg (some px_buf) = send_frame s msg px_buf (frame s.slice_buffered_encoder)

    -- `FrameSink::send`
    unfoldable pub send : FrameSink → Msg → FrameSink × Outcome (SendError E) (Unit {0})
    send s msg = send_with s msg s.postcard_buffer
