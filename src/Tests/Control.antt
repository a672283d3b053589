-- ===== src/Tests/Control.antt =====
-- The control automaton of device/antimony at concrete inputs.
use okeanos.Prelude.{◌+◌, ℕ, List, [], ◌∷◌, none, some, get_or, ok, ◌≡◌, refl}
use okeanos.Prelude.{◌-◌, take, replicate, length-replicate, panic, arith}
use okeanos.Ppp.Frame.{Buffer, try_from_hdlc_frame}
use okeanos.Ppp.Frame.RoundTrip.{build_packet, try_from-build_packet, build_packet-panic}
use okeanos.Ppp.Phy
use okeanos.Ppp.Phy.{
  RecvChannel, IsRing, free_buffer, try_alloc_buffer, free_buffer-IsRing, try_alloc_buffer-IsRing,
}
use okeanos.Prelude.{ℕ, ◌<◌, ◌⊎◌}
use okeanos.Ppp.Lcp
use okeanos.Ppp.Lcp.{mru}
use okeanos.Ppp.Control.OptionsRoundTrip.{next-to_bytes}
use okeanos.Ppp.Control.{from_slice, next, known}
use okeanos.Ppp.Control.{Code, try_from, ack_sent, opened}
use okeanos.Ppp.Control.Protocols.{lcp}
use okeanos.Ppp.Control.Automaton.{ControlAutomaton, received, decode_packet, on_conf_ack}
use okeanos.Ppp.Control.Automaton.Laws.{received-opened, Opening}

-- A Configure-Ack with no options.
abbrev conf_ack_bytes : List ℕ
conf_ack_bytes = 2 ∷ 0 ∷ 0 ∷ 4 ∷ []

abbrev waiting : ControlAutomaton (Unit {0})
waiting = record { inner = tt; state = ack_sent; scr_id = 1; last_req_id = none; sent = [] }

waiting-opens : received lcp 1 waiting conf_ack_bytes ≡ ok (record waiting { state = opened })
unfolding received decode_packet try_from on_conf_ack
waiting-opens = refl

received-opened_example :
    (code : Code) × (try_from (get_or conf_ack_bytes 0 0) ≡ some code) × Opening code ack_sent
received-opened_example =
    received-opened lcp 1 waiting (record waiting { state = opened }) conf_ack_bytes (λ o. cc o)
      waiting-opens refl

try_from-build_packet_example :
    (f : Buffer) × (build_packet 0x21 (1 ∷ 2 ∷ []) ≡ ok f)
    × (try_from_hdlc_frame (take (f.len - 1) f.bytes) ≡ ok (0 ∷ 0x21 ∷ 1 ∷ 2 ∷ []))
try_from-build_packet_example = try_from-build_packet 0x21 (1 ∷ 2 ∷ []) (omega arith)

build_packet-panic_example : build_packet 0x21 (replicate 1500 0) ≡ panic
build_packet-panic_example =
    build_packet-panic 0x21 (replicate 1500 0) (omega (arith, length-replicate {A = ℕ} 1500 0))

mru_written : Lcp.to_bytes (mru 1500) ≡ ok (1 ∷ 4 ∷ 5 ∷ 220 ∷ [])
unfolding Lcp.to_bytes
mru_written = refl

next-to_bytes_example :
    next lcp (from_slice (1 ∷ 4 ∷ 5 ∷ 220 ∷ 7 ∷ 2 ∷ []))
    ≡ ok (
      record { buf = 1 ∷ 4 ∷ 5 ∷ 220 ∷ 7 ∷ 2 ∷ []; index = 4 },
      some (known (mru 1500) (1 ∷ 4 ∷ 5 ∷ 220 ∷ [])),
    )
next-to_bytes_example =
    next-to_bytes (mru 1500) (1 ∷ 4 ∷ 5 ∷ 220 ∷ []) (7 ∷ 2 ∷ []) (omega arith) mru_written

-- A ring whose last buffer and first buffer are in use.
abbrev two_used : RecvChannel
two_used = record Phy.new { write_head = 1; read_head = 127; free_buffers = 126 }

two_used-IsRing : IsRing two_used
two_used-IsRing = record { free_in = omega arith; read_in = omega arith; write_is = refl }

try_alloc_buffer-IsRing_example :
    ((two_used.free_buffers ≡ 0) × (try_alloc_buffer two_used ≡ (two_used, none)))
    ⊎ ((0 < 126)
        × ((try_alloc_buffer two_used).1 ≡ some 1)
        × IsRing (try_alloc_buffer two_used).0
        × ((try_alloc_buffer two_used).0.free_buffers + 1 ≡ two_used.free_buffers))
try_alloc_buffer-IsRing_example = try_alloc_buffer-IsRing two_used two_used-IsRing

free_buffer-IsRing_example : IsRing (free_buffer two_used)
free_buffer-IsRing_example = free_buffer-IsRing two_used two_used-IsRing (omega arith)
