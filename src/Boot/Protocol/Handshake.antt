-- ===== src/Boot/Protocol/Handshake.antt =====
-- device/okboot/src/protocol/handshake.rs: the version of the protocol is agreed on. What is printed
-- is left out, the crate postcard is a parameter, and so is what the divider of the UART reads back.
pub mod Flush
use okeanos.Prelude.{
  ℕ, suc, zero, Bool, not, List, [], ◌∷◌, Option, none, some, if◌then◌else◌, Outcome, Exec, ok, err,
  panic,
}
use okeanos.Frame.Crc.{Crc32}
use okeanos.Frame.Message.{MessageType, SupportedProtocol, try_version, baud_rate}
use okeanos.Boot.Transmit.{TransmitBuffer, shift_byte}
use okeanos.Boot.Writer.{FrameSink, SendError, send}
use okeanos.Boot.Protocol.{
  ProtocolStatus, continue, abcon, abend, switch, allowed_versions, message_type, ToSlice,
}
use okeanos.Boot.V2.{Inflate, V2}
use okeanos.Boot.V2

pub data Expecting : Type 0 where
  probe version : Expecting

-- `Handshake` and `V2`, the protocols of `ProtocolEnum`.
pub data ProtocolEnum (I : Type 0) : Type 0 where
  handshake : Expecting → ProtocolEnum I
  v2 : V2 I → ProtocolEnum I

-- `SUPPORTED_PROTOCOL_VERSIONS`
abbrev pub supported_protocol_versions : List ℕ
supported_protocol_versions = 2 ∷ []

abbrev pub flush_next :
    TransmitBuffer × Option ℕ → (TransmitBuffer → TransmitBuffer × List ℕ) → TransmitBuffer × List ℕ
flush_next (t, none) rest = (t, [])
flush_next (t, some b) rest = let (t', bytes) = rest t in (t', b ∷ bytes)

-- The loop of `flush_to_fifo`, of at most so many rounds: the bytes that go to the UART.
unfoldable pub flush_bytes : ℕ → TransmitBuffer → TransmitBuffer × List ℕ
flush_bytes zero t = (t, [])
flush_bytes (suc n) t = flush_next (shift_byte t) (λ t'. flush_bytes n t')

-- A round takes one byte out of the buffer, so the loop has as many rounds as the buffer has bytes.
abbrev pub flush_to_fifo : TransmitBuffer → TransmitBuffer × List ℕ
flush_to_fifo t = flush_bytes t.circle_len t

abbrev pub flush_sink : FrameSink → FrameSink
flush_sink sink = record sink { transmit_buffer = (flush_to_fifo sink.transmit_buffer).0 }

-- What a handler of the handshake leaves.
abbrev pub Handled : Type 0 → Type 0
Handled I = Expecting × FrameSink × ProtocolStatus (ProtocolEnum I)

module _ (z : Inflate) {E : Type 0} (crc32 : Crc32) (to_slice : ToSlice E) where
  abbrev pub after_allowed : FrameSink × Outcome (SendError E) (Unit {0}) → Exec (Handled z.I)
  after_allowed (sink, ok u) = ok (version, sink, continue)
  after_allowed (sink, err e) = ok (version, sink, abcon)
  after_allowed (sink, panic) = panic

  abbrev pub recv_probe : Expecting → FrameSink → Exec (Handled z.I)
  recv_probe version sink = ok (version, sink, abcon)
  recv_probe probe sink =
      after_allowed
        (send crc32 message_type to_slice sink (allowed_versions supported_protocol_versions))

  -- Lines 90-139, for a version that is supported; `clock_ok` is the answer of
  -- `mini_uart1_set_clock`, and `now` the time behind the delay.
  abbrev pub switch_to : Bool → ℕ → FrameSink → Outcome ℕ SupportedProtocol → Exec (Handled z.I)
  switch_to clock_ok now sink (ok p) =
      if not clock_ok
      then ok (version, flush_sink sink, abend)
      else ok (version, flush_sink sink, switch (v2 (V2.new z now (baud_rate p))))
  switch_to clock_ok now sink (err e) = ok (version, sink, abend)
  switch_to clock_ok now sink panic = panic

  -- What `postcard::from_bytes` makes of the payload, if it is a `UseVersion`.
  abbrev pub recv_use_version : Bool → ℕ → Expecting → FrameSink → Option ℕ → Exec (Handled z.I)
  recv_use_version clock_ok now probe sink use_version = ok (probe, sink, abend)
  recv_use_version clock_ok now version sink none = ok (version, sink, abend)
  recv_use_version clock_ok now version sink (some v) = switch_to clock_ok now sink (try_version v)

  -- `Handshake::handle_packet`
  unfoldable pub handle_packet :
      (List ℕ → Option ℕ)
      → Bool
      → ℕ
      → Expecting
      → FrameSink
      → MessageType
      → List ℕ
      → Exec (Handled z.I)
  handle_packet from_bytes clock_ok now expecting sink MessageType.probe payload =
      recv_probe expecting sink
  handle_packet from_bytes clock_ok now expecting sink MessageType.use_version payload =
      recv_use_version clock_ok now expecting sink (from_bytes payload)
  handle_packet from_bytes clock_ok now expecting sink t payload = ok (expecting, sink, abend)
