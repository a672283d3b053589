-- ===== src/Boot/Protocol/Engine.antt =====
-- device/okboot/src/protocol.rs, the loop of `run`: bytes come in, frames are put together, and
-- packets go to the protocol. One round is one step, on what it reads of the UART and the clock.
-- What is printed is left out.
pub mod Frames
pub mod Download
pub mod Sent
pub mod Packets
pub mod Boots
pub mod Formats
use okeanos.Prelude.{
  ℕ, ◌+◌, ◌-◌, ◌*◌, Bool, true, false, not, ◌&&◌, List, [], ◌∷◌, Option, none, some, ltb, leb,
  if◌then◌else◌, Outcome, Exec, Stuck, ok, err, panic, ◌>>=◌,
}
use okeanos.Frame.Crc.{Crc32}
use okeanos.Frame.Layer.{FrameHeader, FrameError, FrameOutput, FrameLayer, new, feed, reset}
use okeanos.Frame.Message.{cobs_xor}
use okeanos.Boot.Receive
use okeanos.Boot.Receive.{ReceiveBuffer, push_u8}
use okeanos.Boot.Relocation.{Memory}
use okeanos.Boot.Timeouts.{Timeouts, get_prog_info_interval, new_8n1}
use okeanos.Boot.Transmit.{is_empty, extend_from_slice, shift_byte}
use okeanos.Boot.Writer.{FrameSink}
use okeanos.Boot.Protocol.{ProtocolStatus, continue, abcon, abend, switch, ToSlice}
use okeanos.Boot.Protocol.Handshake
use okeanos.Boot.Protocol.Handshake.{ProtocolEnum, handshake, v2, flush_sink}
use okeanos.Boot.V2.{Inflate, V2}
use okeanos.Boot.V2.Loader.{Booter, ElfBytes}
use okeanos.Boot.V2.Protocol
use okeanos.Boot.V2.Protocol.{FromBytes, Reply, stays, enters, heartbeat}

pub data ReceiveError : Type 0 where
  buffer_overflow fifo_overrun protocol : ReceiveError
  decode : FrameError → ReceiveError

pub data ReceiveState : Type 0 where
  waiting : Bool → ReceiveState
  error : ℕ → Option ReceiveError → ReceiveState

-- The variables of the loop. `last_sent_at` is the one of `GetProgInfoSender`.
pub record Engine (I H : Type 0) : Type 0 where
  pub frame_sink : FrameSink
  pub rx_buffer : ReceiveBuffer
  pub decoder : FrameLayer H
  pub timeouts : Timeouts
  pub last_byte_received : ℕ
  pub last_packet_received : ℕ
  pub recv_state : ReceiveState
  pub last_sent_at : ℕ
  pub protocol : ProtocolEnum I
  pub frame_header : Option FrameHeader
  pub memory : Memory

-- What a round reads: the status of the UART, its byte if it has one, whether the divider reads
-- back, and the clock, which does not advance within a round.
pub record Poll : Type 0 where
  pub can_write : Bool
  pub is_overrun : Bool
  pub byte : Option ℕ
  pub clock_ok : Bool
  pub now : ℕ

-- How a round ends: with the next one, with the legacy download, or with the program that was
-- received.
pub data Next (A : Type 0) : Type 0 where
  runs : A → Next A
  downloads_legacy : Next A
  boots : Booter → Memory → Next A

-- `INITIAL_BAUD_RATE`
abbrev pub initial_baud_rate : ℕ
initial_baud_rate = 115_200

abbrev pub is_initial : ReceiveState → Bool
is_initial (waiting initial) = initial
is_initial (error at receive_error) = false

-- `override_session_timeout.unwrap_or(session_expires)`
abbrev pub session_timeout : Timeouts → Option ℕ → ℕ
session_timeout t none = t.session_expires
session_timeout t (some d) = d

-- The loop's parameters: the crates and the messages of postcard.
pub record Parts : Type 1 where
  pub z : Inflate
  pub P : Type 0
  pub E : Type 0
  pub crc32 : Crc32
  pub minimal_parse : List ℕ → Outcome P ElfBytes
  pub to_slice : ToSlice E
  pub from_bytes : FromBytes
  pub use_version : List ℕ → Option ℕ
  pub self_end : ℕ
  pub fuel : ℕ

abbrev pub State : Parts → Type 0
State p = Engine p.z.I p.crc32.Hasher

module _ (p : Parts) where
  -- `ReceiveState::error`
  abbrev pub failed : ℕ → ReceiveError → State p → State p
  failed now e s = record s { recv_state = error now (some e) }

  abbrev pub goes_on : State p → State p
  goes_on s = record s { recv_state = waiting false }

  -- Lines 217-236, by what the protocol answered.
  abbrev pub by_status : ℕ → State p → ProtocolStatus (ProtocolEnum p.z.I) → State p
  by_status now s continue = goes_on s
  by_status now s abcon = failed now protocol s
  by_status now s abend = failed now protocol (record s { protocol = handshake Handshake.probe })
  by_status now s (switch pe) = goes_on (record s { protocol = pe })

  -- `rx_buffer.clear()` and the time of the packet.
  abbrev pub behind_packet : ℕ → State p → ProtocolStatus (ProtocolEnum p.z.I) → Next (State p)
  behind_packet now s status = runs (
      by_status now (record s { rx_buffer = Receive.clear s.rx_buffer; last_packet_received = now })
        status)

  abbrev pub by_reply : ℕ → State p → Reply p.z.I (ProtocolEnum p.z.I) → Next (State p)
  by_reply now s (stays v mem timeouts status) =
      behind_packet now (record s { protocol = v2 v; memory = mem; timeouts = timeouts }) status
  by_reply now s (enters booter mem) = boots booter mem

  -- `protocol.handle_packet`, and what follows.
  abbrev pub handle :
      Poll → State p → FrameHeader → List ℕ → ProtocolEnum p.z.I → Exec (Next (State p))
  handle poll s h payload (handshake expecting) =
      Handshake.handle_packet p.z p.crc32 p.to_slice p.use_version poll.clock_ok poll.now expecting
        s.frame_sink h.message_type payload
      >>= λ r.
          ok (behind_packet poll.now (record s { protocol = handshake r.0; frame_sink = r.1 }) r.2)
  handle poll s h payload (v2 v) =
      Protocol.handle_packet p.z p.crc32 p.minimal_parse p.from_bytes p.self_end p.fuel v s.memory
        s.timeouts h.message_type payload
      >>= λ r. ok (by_reply poll.now s r)

  -- Lines 204-242. `frame_header.take().unwrap()` panics without a header.
  abbrev pub finished : Poll → State p → Option FrameHeader → Exec (Next (State p))
  finished poll s none = panic
  finished poll s (some h) =
      let (rx, payload) = Receive.finalize s.rx_buffer in
      handle poll
        (record s { frame_header = none; rx_buffer = rx; decoder = reset p.crc32 s.decoder }) h
        payload s.protocol

  abbrev pub pushed :
      ℕ → State p → ReceiveBuffer × Outcome Receive.ReceiveError (Unit {0}) → Exec (Next (State p))
  pushed now s (rx, ok u) = ok (runs (goes_on (record s { rx_buffer = rx })))
  pushed now s (rx, err e) = ok (runs (failed now buffer_overflow (record s { rx_buffer = rx })))
  pushed now s (rx, panic) = panic

  -- The arms of the `match` on the output of the decoder.
  abbrev pub on_output : Poll → State p → FrameOutput → Exec (Next (State p))
  on_output poll s FrameOutput.skip = ok (runs (goes_on s))
  on_output poll s (FrameOutput.header h) = ok (runs (goes_on (record s { frame_header = some h })))
  on_output poll s (FrameOutput.payload b) = pushed poll.now s (push_u8 s.rx_buffer b)
  on_output poll s FrameOutput.finished = finished poll s s.frame_header
  on_output poll s FrameOutput.legacy = ok downloads_legacy
  on_output poll s (FrameOutput.legacy_print_string_byte n b) =
      ok (runs (failed poll.now protocol (record s { decoder = reset p.crc32 s.decoder })))

  abbrev pub on_fed :
      Poll
      → State p
      → FrameLayer p.crc32.Hasher × Outcome FrameError FrameOutput
      → Exec (Next (State p))
  on_fed poll s (d, ok o) = on_output poll (record s { decoder = d }) o
  on_fed poll s (d, err e) =
      ok (runs (failed poll.now (decode e) (record s { decoder = reset p.crc32 d })))
  on_fed poll s (d, panic) = panic

  -- Lines 191-271: a byte, outside an error.
  unfoldable pub take_byte : Poll → State p → ℕ → Exec (Next (State p))
  take_byte poll s b = on_fed poll s (feed p.crc32 s.decoder b)

  -- Lines 273-296: the time of recovery passes. A byte that arrives is dropped.
  abbrev pub recover : ℕ → State p → ℕ → State p
  recover now s at =
      if ltb (now - at) s.timeouts.error_recovery
      then record s { recv_state = error at none }
      else goes_on s

  -- Lines 313-326: the session is over.
  abbrev pub expired : ℕ → State p → State p
  expired now s = record s {
    last_packet_received = now;
    frame_sink = flush_sink s.frame_sink;
    timeouts = new_8n1 initial_baud_rate;
    protocol = handshake Handshake.probe;
    recv_state = waiting true;
  }

  abbrev pub session_is_over : ℕ → State p → Bool → Bool
  session_is_over now s initial =
      leb (session_timeout s.timeouts s.timeouts.override_session_timeout)
        (now - s.last_packet_received)
      && not initial
      && leb s.timeouts.byte_read (now - s.last_byte_received)

  -- Lines 300-333: no byte arrived.
  abbrev pub idle : ℕ → State p → Bool → State p
  idle now s initial =
      if session_is_over now s initial
      then expired now s
      else if leb s.timeouts.byte_read (now - s.last_byte_received) && not initial
      then goes_on (record s { last_byte_received = now })
      else s

  -- The `match` on the byte and the state.
  unfoldable pub receive : Poll → State p → Option ℕ → ReceiveState → Exec (Next (State p))
  receive poll s (some b) (waiting initial) = take_byte poll s b
  receive poll s byte (error at receive_error) = ok (runs (recover poll.now s at))
  receive poll s none (waiting initial) = ok (runs (idle poll.now s initial))

  -- Lines 163-168: a byte of the buffer goes out.
  abbrev pub transmit : Bool → State p → State p × Option ℕ
  transmit false s = (s, none)
  transmit true s =
      let (t, b) = shift_byte s.frame_sink.transmit_buffer in
      (record s { frame_sink = record s.frame_sink { transmit_buffer = t } }, b)

  abbrev pub overrun : Poll → State p → State p
  overrun poll s = if poll.is_overrun then failed poll.now fifo_overrun s else s

  -- What `GetProgInfoSender::tick` sends.
  abbrev pub send_get_prog_info : ℕ → State p → State p
  send_get_prog_info now s = record s {
    frame_sink = record s.frame_sink {
      transmit_buffer =
          (extend_from_slice s.frame_sink.transmit_buffer (0x22 ∷ 0x22 ∷ 0x11 ∷ 0x11 ∷ [])).0;
    };
    last_sent_at = now;
  }

  -- `GetProgInfoSender::tick`, in the initial state.
  abbrev pub get_prog_info : ℕ → State p → State p
  get_prog_info now s =
      if is_initial s.recv_state
        && leb get_prog_info_interval (now - s.last_sent_at)
        && is_empty s.frame_sink.transmit_buffer
      then send_get_prog_info now s
      else s

  -- `protocol.heartbeat`, whose answer is not looked at.
  abbrev pub beat : ℕ → State p → ProtocolEnum p.z.I → Exec (State p)
  beat now s (handshake expecting) = ok s
  beat now s (v2 v) =
      heartbeat p.z {PE = ProtocolEnum p.z.I} p.crc32 p.to_slice v s.frame_sink now now >>= λ r.
      ok (record s { protocol = v2 r.0; frame_sink = r.1 })

  -- The end of a round, which notes when a byte arrived.
  abbrev pub note_byte : Poll → Option ℕ → Next (State p) → Next (State p)
  note_byte poll (some b) (runs s) = runs (record s { last_byte_received = poll.now })
  note_byte poll byte next = next

  -- One round of the loop: what comes next, and the byte that was sent.
  unfoldable pub round : Poll → State p → Exec (Next (State p) × Option ℕ)
  round poll s = do
    let (s1, out) = transmit poll.can_write s
    let s2 = get_prog_info poll.now (overrun poll s1)
    s3 ← beat poll.now s2 s2.protocol
    next ← receive poll s3 poll.byte s3.recv_state
    ok (note_byte poll poll.byte next, out)

  -- Rounds one after the other, until one is the last.
  abbrev pub or_ends : Next (State p) → (State p → Exec (Next (State p))) → Exec (Next (State p))
  or_ends (runs s) rest = rest s
  or_ends downloads_legacy rest = ok downloads_legacy
  or_ends (boots booter mem) rest = ok (boots booter mem)

  unfoldable pub run : List Poll → State p → Exec (Next (State p))
  run [] s = ok (runs s)
  run (poll ∷ polls) s = round poll s >>= λ r. or_ends r.0 (λ s'. run polls s')

  -- The variables in front of the loop, at the time `now`, with the buffers and the memory.
  abbrev pub start : ℕ → FrameSink → List ℕ → Memory → State p
  start now sink receive_buffer mem = record {
    frame_sink = sink;
    rx_buffer = Receive.new receive_buffer;
    decoder = new p.crc32 cobs_xor;
    timeouts = new_8n1 initial_baud_rate;
    last_byte_received = now;
    last_packet_received = now;
    recv_state = waiting true;
    last_sent_at = now;
    protocol = handshake Handshake.probe;
    frame_header = none;
    memory = mem;
  }
