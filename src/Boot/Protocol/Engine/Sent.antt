-- ===== src/Boot/Protocol/Engine/Sent.antt =====
-- The packets that a run of the loop of `run` in device/okboot/src/protocol.rs puts together.
use okeanos.Prelude.{ℕ, Bool, List, [], ◌∷◌, Option, some, Exec, ok, ◌≡◌}
use okeanos.Frame.Layer.{FrameHeader, FrameOutput, FrameLayer, feed}
use okeanos.Boot.Receive
use okeanos.Boot.Receive.{ReceiveBuffer, push_u8}
use okeanos.Boot.Protocol.Engine.{
  Poll, runs, Parts, State, transmit, overrun, get_prog_info, beat, round, waiting,
}
use okeanos.Boot.V2.Protocol.Download.{IsSent}
use okeanos.Boot.V2.Loader.{Metadata}

module _ (p : Parts) where
  -- The variables when a round of the loop comes to the byte.
  abbrev before_receive : Poll → State p → Exec (State p)
  before_receive poll s =
      let s2 = get_prog_info p poll.now (overrun p poll (transmit p poll.can_write s).0) in
      beat p poll.now s2 s2.protocol

module _ (p : Parts) (m : Metadata) (deflated : List ℕ) where
  -- The packet that a byte completes, in a round that begins with `s`, is one that the host sends
  -- with the file.
  abbrev pub RoundSent : Poll → State p → Type 0
  RoundSent poll s =
      (s' : State p) (b : ℕ) (initial : Bool) (d : FrameLayer p.crc32.Hasher) (h : FrameHeader)
      → before_receive p poll s ≡ ok s'
      → poll.byte ≡ some b
      → s'.recv_state ≡ waiting initial
      → feed p.crc32 s'.decoder b ≡ (d, ok FrameOutput.finished)
      → s'.frame_header ≡ some h
      → IsSent p.from_bytes m deflated h.message_type (Receive.finalize s'.rx_buffer).1

  -- So are all packets of the rounds that follow.
  abbrev pub AllSent : List Poll → State p → Type 0
  AllSent [] s = Unit
  AllSent (poll ∷ polls) s =
      RoundSent poll s
      × ((s' : State p) (out : Option ℕ) → round p poll s ≡ ok (runs s', out) → AllSent polls s')
