-- ===== src/Tests/Link.antt =====
-- The PPP link at concrete inputs (device/antimony/src/net).
use okeanos.Prelude.{
  ℕ, zero, suc, ◌<◌, All, Bool, false, List, [], ◌∷◌, replicate, length-replicate, ok, ◌≡◌, refl,
  arith,
}
use okeanos.Ppp.Frame
use okeanos.Ppp.Frame.{Buffer}
use okeanos.Ppp.Control.{opened}
use okeanos.Ppp.Control.Automaton
use okeanos.Ppp.Control.Protocols.{ipcp_new}
use okeanos.Ppp.Phy
use okeanos.Ppp.Phy.{RecvChannel}
use okeanos.Ppp.Phy.Xmit
use okeanos.Ppp.Phy.Xmit.{XmitChannel, link_init}
use okeanos.Ppp.Phy.Xmit.Line.{line_from}
use okeanos.Ppp.Phy.Xmit.Interrupts.{serve, pending, serve_returns}
use okeanos.Ppp.Phy.Drain.{drain_uart_buffer}
use okeanos.Ppp.Phy.Drain.Octets.{Escapes, escaped}
use okeanos.Ppp.Phy.Drain.RoundTrip.{IsIdle, stored, drain-last_buffer}
use okeanos.Ppp.Phy.Link.{quiet}
use okeanos.Ppp.Inner
use okeanos.Ppp.Inner.{PppInner}
use okeanos.Ppp.Inner.Delivery.{Arrives, turn-push}

abbrev asyncmap : ℕ → Bool
asyncmap = (link_init Xmit.new).needs_escape

asyncmap-Escapes : Escapes asyncmap
asyncmap-Escapes = record { flag = refl; escape = refl; plain = refl }

-- A receive channel with so many free buffers.
abbrev channel : ℕ → RecvChannel
channel free = record Phy.new { free_buffers = free }

channel-IsIdle : (free : ℕ) → IsIdle (channel free)
channel-IsIdle free = record {
  not_in_packet = refl;
  ring = length-replicate 128 Frame.new;
  write_in = omega arith;
  full_size = let none_yet : ℕ = 0 in length-replicate 1507 none_yet;
}

abbrev packet : List ℕ
packet = 1 ∷ 0x7e ∷ 2 ∷ []

abbrev up : PppInner
up = record Inner.new { ipcp = record (Automaton.new ipcp_new) { state = opened } }

rooms_pos : (n : ℕ) → All (λ r. 0 < r) (replicate n 4)
rooms_pos zero = tt
rooms_pos (suc n) = (omega arith, rooms_pos n)

turn-push_example : Arrives packet 0 (replicate 22 4) (quiet asyncmap false) Phy.new 1 up 0
turn-push_example =
    turn-push asyncmap packet 0 (replicate 22 4) false Phy.new 1 up 0 asyncmap-Escapes (omega arith)
      (rooms_pos 22) (omega arith) (channel-IsIdle 128)
      (record { read_is = refl; finished_is = refl; free_in = omega arith }) (omega arith) refl

abbrev sender : XmitChannel
sender = record (link_init Xmit.new) {
  buffers =
      record {
        buffer = record { len = 3; bytes = 0x7e ∷ 0x7d ∷ 0x7e ∷ [] };
        index = 0;
        pending_escape = false;
      }
      ∷ [];
}

serve_returns_example :
    (ch' : XmitChannel) × (serve (1 ∷ 1 ∷ 2 ∷ 1 ∷ []) sender
      ≡ ok (ch', pending sender.needs_escape sender.buffers))
    × (ch'.buffers ≡ [])
unfolding line_from
serve_returns_example =
    serve_returns (1 ∷ 1 ∷ 2 ∷ 1 ∷ []) sender
      (record { index_in = omega arith; len_in = omega arith; in_frame = omega arith }, tt)
      (omega arith, (omega arith, (omega arith, (omega arith, tt)))) (omega arith)

drain-last_buffer_example :
    (ch' : RecvChannel) × (drain_uart_buffer
        (channel 1)
        (0x7e ∷ escaped asyncmap packet (0x7e ∷ []))
      ≡ ok ch')
    × (ch'.finished_head ≡ 1)
    × (stored ch' 0 ≡ [])
drain-last_buffer_example =
    drain-last_buffer asyncmap (channel 1) packet asyncmap-Escapes (channel-IsIdle 1) refl
      (omega arith) (omega arith)
