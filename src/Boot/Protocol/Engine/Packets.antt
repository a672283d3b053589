-- ===== src/Boot/Protocol/Engine/Packets.antt =====
-- What a packet leads to in the loop of `run` in device/okboot/src/protocol.rs.
use okeanos.Prelude.{
  ℕ, ◌+◌, ◌≤◌, ◌^◌, List, Option, none, some, length, Outcome, Exec, ok, err, panic, >>=-eq-ok,
  ok-injective, ◌≡◌, refl, ap, subst,
}
use okeanos.Frame.Layer.{FrameHeader, FrameError, FrameOutput, FrameLayer, reset}
use okeanos.Boot.Receive
use okeanos.Boot.Receive.{ReceiveBuffer, push_u8}
use okeanos.Boot.Protocol.Handshake.{ProtocolEnum, handshake, v2}
use okeanos.Boot.Protocol.Engine.{
  Poll, Next, Parts, State, handle, finished, pushed, on_output, on_fed, run,
}
use okeanos.Boot.V2.{chunk_size}
use okeanos.Boot.V2.Chunk.Input.{StopsAtEnd}
use okeanos.Boot.V2.Protocol.Download.{IsSent, handle_packet-Sound}
use okeanos.Boot.V2.Loader.{Metadata}
use okeanos.Boot.Protocol.Engine.Download.{
  ProtocolSound, NextSound, by_status-Sound, handshake-Sound, reply-Sound,
}

module _ (p : Parts) (stops : StopsAtEnd p.z) (m : Metadata) (deflated : List ℕ)
    (size : m.deflated_len ≡ length deflated) (fits : length deflated + chunk_size ≤ 2 ^ 32) where
  abbrev pub Ends : Exec (Next (State p)) → Type 0
  Ends o = (next : Next (State p)) → o ≡ ok next → NextSound p m deflated next

  pub ends_with : (next : Next (State p)) → NextSound p m deflated next → Ends (ok next)
  ends_with next h next' run = subst (NextSound p m deflated) (ok-injective _ refl run) h

  handle-Sound :
      (poll : Poll) (s : State p) (h : FrameHeader) (payload : List ℕ) (pe : ProtocolEnum p.z.I)
      → ProtocolSound p m deflated pe s.memory
      → IsSent p.from_bytes m deflated h.message_type payload
      → Ends (handle p poll s h payload pe)
  handle-Sound poll s h payload (handshake expecting) sound sent next run =
      let (r, got, run') = >>=-eq-ok _ _ run in
      subst (NextSound p m deflated) (ok-injective _ refl run') (
        by_status-Sound p m deflated poll.now
          (record s { protocol = handshake r.0; frame_sink = r.1 }) r.2 tt
          (handshake-Sound p m deflated s.memory poll.clock_ok poll.now expecting s.frame_sink
            h.message_type payload r got))
  handle-Sound poll s h payload (v2 v) sound sent next run =
      let (reply, got, run') = >>=-eq-ok _ _ run in
      subst (NextSound p m deflated) (ok-injective _ refl run') (
        reply-Sound p m deflated poll.now s v reply (
          handle_packet-Sound p.z stops p.crc32 p.minimal_parse p.from_bytes p.self_end p.fuel m
            deflated v s.memory s.timeouts h.message_type payload reply sent size fits sound got))

  finished-Sound :
      (poll : Poll) (s : State p) (o : Option FrameHeader)
      → ProtocolSound p m deflated s.protocol s.memory
      → ((h : FrameHeader)
          → o ≡ some h
          → IsSent p.from_bytes m deflated h.message_type (Receive.finalize s.rx_buffer).1)
      → Ends (finished p poll s o)
  finished-Sound poll s none sound sent next run = cc
  finished-Sound poll s (some h) sound sent next run =
      handle-Sound poll
        (record s {
          frame_header = none;
          rx_buffer = (Receive.finalize s.rx_buffer).0;
          decoder = reset p.crc32 s.decoder;
        })
        h (Receive.finalize s.rx_buffer).1 s.protocol sound (sent h refl) next run

  pushed-Sound :
      (now : ℕ) (s : State p) (r : ReceiveBuffer × Outcome Receive.ReceiveError (Unit {0}))
      → ProtocolSound p m deflated s.protocol s.memory
      → Ends (pushed p now s r)
  pushed-Sound now s (rx, ok u) sound = ends_with _ sound
  pushed-Sound now s (rx, err e) sound = ends_with _ sound
  pushed-Sound now s (rx, panic) sound = λ next e. cc e

  on_output-Sound :
      (poll : Poll) (s : State p) (o : FrameOutput)
      → ProtocolSound p m deflated s.protocol s.memory
      → (o ≡ FrameOutput.finished
          → (h : FrameHeader) → s.frame_header ≡ some h
          → IsSent p.from_bytes m deflated h.message_type (Receive.finalize s.rx_buffer).1)
      → Ends (on_output p poll s o)
  on_output-Sound poll s FrameOutput.skip sound sent = ends_with _ sound
  on_output-Sound poll s (FrameOutput.header h) sound sent = ends_with _ sound
  on_output-Sound poll s (FrameOutput.payload b) sound sent =
      pushed-Sound poll.now s (push_u8 s.rx_buffer b) sound
  on_output-Sound poll s FrameOutput.finished sound sent =
      finished-Sound poll s s.frame_header sound (sent refl)
  on_output-Sound poll s FrameOutput.legacy sound sent = ends_with _ tt
  on_output-Sound poll s (FrameOutput.legacy_print_string_byte n b) sound sent = ends_with _ sound

  pub on_fed-Sound :
      (poll : Poll) (s : State p) (r : FrameLayer p.crc32.Hasher × Outcome FrameError FrameOutput)
      → ProtocolSound p m deflated s.protocol s.memory
      → (r.1 ≡ ok FrameOutput.finished
          → (h : FrameHeader) → s.frame_header ≡ some h
          → IsSent p.from_bytes m deflated h.message_type (Receive.finalize s.rx_buffer).1)
      → Ends (on_fed p poll s r)
  on_fed-Sound poll s (d, ok o) sound sent =
      on_output-Sound poll (record s { decoder = d }) o sound (λ e. sent (ap ok e))
  on_fed-Sound poll s (d, err e) sound sent = ends_with _ sound
  on_fed-Sound poll s (d, panic) sound sent = λ next e. cc e
