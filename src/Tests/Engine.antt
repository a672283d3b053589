-- ===== src/Tests/Engine.antt =====
-- The loop of device/okboot and the decoder of host/okdude, at concrete inputs.
use okeanos.Prelude.{true, false, [], ◌∷◌, none, some, replicate, ok, err, ◌≡◌, refl, arith}
use okeanos.Frame.Message.{MessageType, cobs_xor}
use okeanos.Frame.Cobs
use okeanos.Frame.Layer
use okeanos.Frame.Layer.{
  packet_body, FrameHeader, FrameOutput, FrameError, FrameLayer, feed, feed_in, feed_preamble,
  feed_length, reset,
}
use okeanos.Frame.Layer.RoundTrip.{new-IsReady}
use okeanos.Frame.Length.{encode_length_lem, length_field}
use okeanos.Boot.Transmit
use okeanos.Boot.Writer.{FrameSink, sink_new}
use okeanos.Boot.Protocol.{ToSlice}
use okeanos.Boot.Protocol.Handshake.{v2}
use okeanos.Boot.Protocol.Engine
use okeanos.Boot.Protocol.Engine.{
  Parts, State, Poll, Next, runs, take_byte, waiting, goes_on, handle,
}
use okeanos.Boot.Protocol.Engine.Frames.{on_outputs, handed, on_outputs-stale}
use okeanos.Boot.Timeouts
use okeanos.Boot.V2.Protocol
use okeanos.Boot.V2.Loader.{Booter, Metadata, ElfBytes, elf, et_exec, em_arm}
use okeanos.Boot.V2.{boot}
use okeanos.Boot.V2.Protocol.{FromBytes}
use okeanos.Boot.Relocation
use okeanos.Host.Decoder
use okeanos.Host.Decoder.{Decoder, process_incoming_bytes}
use okeanos.Host.Decoder.Frames.{frames_of, Waits, process-frames}
use okeanos.Tests.Coding.{sum32, zeros, encoder, encoder_made}
use okeanos.Tests.Download.{
  copier, no_elf, always, first, at_start, complete, flat, end_of_loader, loaded_memory,
}

abbrev one_byte : ToSlice (Unit {0})
one_byte m buf = (buf, ok 1)

abbrev parts : Parts
parts = record {
  z = copier;
  P = Unit {0};
  E = Unit {0};
  crc32 = sum32;
  minimal_parse = no_elf;
  to_slice = one_byte;
  from_bytes = always;
  use_version = λ payload. some 2;
  self_end = end_of_loader;
  fuel = 4;
}

abbrev sink : FrameSink
sink =
    sink_new (Transmit.new (replicate 64 0)) (record { buffer = zeros; xor = cobs_xor })
      (replicate 8 0)

-- The loop in a download, with two bytes of a frame that broke off.
abbrev engine : State parts
engine = record (Engine.start parts 0 sink (1 ∷ 2 ∷ 0 ∷ 0 ∷ []) (λ a. 0)) {
  protocol = v2 at_start;
  recv_state = waiting false;
  rx_buffer = record { underlying_storage = 1 ∷ 2 ∷ 0 ∷ 0 ∷ []; cursor = 2 };
}

abbrev quiet : Poll
quiet = record { can_write = false; is_overrun = false; byte = none; clock_ok = true; now = 0 }

abbrev acked : FrameHeader
acked = record { message_type = MessageType.booting_ack; payload_len = 0 }

-- The loop with a program that is to be booted, where the next byte may end the frame of the host's
-- answer.
abbrev at_boot : State parts
at_boot = record engine {
  protocol = v2 (record complete { once = false });
  rx_buffer = record { underlying_storage = 0 ∷ 0 ∷ 0 ∷ 0 ∷ []; cursor = 0 };
  memory = loaded_memory;
  frame_header = some acked;
  decoder = record (Layer.new sum32 cobs_xor) {
    decode_state = packet_body 8 acked;
    cobs_decoder = record (Cobs.new cobs_xor) { last_jump = 1 };
  };
}

-- The byte that ends it.
abbrev last_byte : Poll
last_byte = record quiet { byte = some cobs_xor; now = 1 }

-- An ELF file of three bytes without segments, which is its own compressed form.
abbrev as_elf : Metadata
as_elf = record flat { deflated_crc = 18; format_details = elf }

abbrev parsed : ElfBytes
parsed = record {
  is_elf32 = true;
  is_little = true;
  osabi = 0;
  e_type = et_exec;
  e_machine = em_arm;
  version = 1;
  e_entry = 0x8000;
  segments = some [];
}

-- A host that says nothing of its file again.
abbrev silent : FromBytes
silent = record {
  metadata = λ payload. none;
  metadata_ack_ack = λ payload. none;
  chunk = λ payload. none;
}

abbrev parts_elf : Parts
parts_elf = record parts { minimal_parse = λ bytes. ok parsed; from_bytes = silent }

abbrev at_elf : State parts_elf
at_elf = record at_boot {
  protocol = v2 (record complete { once = false; state = boot (Booter.elf [] first 0x8000) });
}

abbrev chunk_header : FrameHeader
chunk_header = record { message_type = MessageType.chunk; payload_len = 2 }

-- The loop where the next byte should be one of the length.
abbrev at_length : State parts
at_length = record engine {
  decoder = record (Layer.new sum32 cobs_xor) { decode_state = Layer.length 0 };
}

broken_off : feed sum32 at_length.decoder 0 ≡ (at_length.decoder, err (Layer.length_encoding 0 0))
unfolding feed feed_in feed_length
broken_off = refl

on_outputs-stale_example :
    (s' : State parts) × (take_byte parts quiet at_length 0 ≡ ok (runs s'))
    × (on_outputs parts quiet (goes_on parts s') (
          FrameOutput.header chunk_header
          ∷ FrameOutput.payload 7
          ∷ FrameOutput.payload 8
          ∷ FrameOutput.finished
          ∷ [])
        ≡ handle parts quiet
            (handed parts (goes_on parts s') (7 ∷ 8 ∷ []))
            chunk_header
            (1 ∷ 2 ∷ 7 ∷ 8 ∷ [])
            (v2 at_start))
on_outputs-stale_example =
    on_outputs-stale parts quiet quiet at_length 0 at_length.decoder (Layer.length_encoding 0 0)
      chunk_header (7 ∷ 8 ∷ []) broken_off (omega arith)

-- A decoder that has just begun, and the frame of a chunk.
abbrev listening : Decoder.State sum32
listening = record {
  received_messages = [];
  decoder = Layer.new sum32 cobs_xor;
  frame_header = none;
  buffer = [];
}

process-frames_example :
    (d' : Decoder.State sum32) × (process_incoming_bytes sum32 listening
        (frames_of sum32 encoder (((MessageType.chunk_req, 1 ∷ 0 ∷ []), length_field 2) ∷ []))
      ≡ (d', ok tt))
    × (d'.received_messages ≡ (MessageType.chunk_req, 1 ∷ 0 ∷ []) ∷ [])
    × Waits sum32 cobs_xor d'
process-frames_example =
    process-frames sum32 (((MessageType.chunk_req, 1 ∷ 0 ∷ []), length_field 2) ∷ []) cobs_xor
      listening zeros encoder (record { ready = new-IsReady sum32 cobs_xor; between = refl })
      encoder_made
      (
        record {
          not_print = refl;
          small = omega arith;
          len_is = encode_length_lem 2 (omega arith);
        },
        tt,
      )
