-- ===== src/Ppp/Phy/Drain.antt =====
-- device/antimony/src/net/phy.rs, `drain_uart_buffer`: the bytes that one interrupt finds, put into the
-- buffers of the receive channel.
pub mod Octets
pub mod RoundTrip
use okeanos.Prelude.{
  ℕ, zero, suc, ◌+◌, ◌-◌, ◌%◌, bit_xor, Bool, true, false, not, ◌&&◌, List, [], ◌∷◌, Option, none,
  some, ◌==◌, ltb, if◌then◌else◌, get_or, set, Outcome, ok, panic, ◌>>=◌,
}
use okeanos.Ppp.Hdlc.{hdlc_flag, hdlc_esc, hdlc_esc_xor}
use okeanos.Ppp.Frame
use okeanos.Ppp.Frame.{Buffer, Run, max_frame}
use okeanos.Ppp.Phy.{RecvChannel, channel_max_frames, try_alloc_buffer}

-- The local variables of the loop.
pub record Locals : Type 0 where
  pub in_packet : Bool
  pub denied : Bool
  pub buf : ℕ
  pub last_esc : Bool
  pub bi : ℕ

-- The buffer at an index changed.
abbrev pub update_at : ℕ → (Buffer → Buffer) → List Buffer → List Buffer
update_at i f [] = []
update_at zero f (b ∷ bs) = f b ∷ bs
update_at (suc i) f (b ∷ bs) = b ∷ update_at i f bs

abbrev pub with_buffer : RecvChannel → ℕ → (Buffer → Buffer) → RecvChannel
with_buffer ch i f = record ch { buffers = update_at i f ch.buffers }

-- `buffers[buf].bytes[bi] = byte`, where an index out of the frame's bounds is a panic.
abbrev pub store_octet : RecvChannel → Locals → ℕ → Run (RecvChannel × Locals)
store_octet ch l byte =
    if ltb l.bi max_frame
    then ok (
      with_buffer ch l.buf (λ b. record b { bytes = set b.bytes l.bi byte }),
      record l { bi = l.bi + 1 },
    )
    else panic

-- A byte of a frame that is not a flag.
abbrev pub drain_octet : RecvChannel → Locals → ℕ → Run (RecvChannel × Locals)
drain_octet ch l byte =
    if l.last_esc
    then store_octet ch (record l { last_esc = false }) (bit_xor byte hdlc_esc_xor)
    else if byte == hdlc_esc
    then ok (ch, record l { last_esc = true })
    else store_octet ch l byte

-- A flag begins the next frame, if a buffer is free for it.
abbrev pub start_frame : RecvChannel × Option ℕ → Locals → ℕ → RecvChannel × Locals
start_frame (ch, none) l byte = (ch, record l { denied = true })
start_frame (ch, some a_buf) l byte = (
  with_buffer ch a_buf (λ b. record { len = 1; bytes = set b.bytes 0 byte }),
  record l { buf = a_buf; in_packet = true; last_esc = false; bi = 1 },
)

-- `finished_head` moves behind a frame that the flag finished.
abbrev pub finish_head : Bool → RecvChannel → RecvChannel
finish_head did_finish_frame ch =
    if did_finish_frame
    then record ch { finished_head = (ch.finished_head + 1) % channel_max_frames }
    else ch

abbrev pub drain_behind : Bool → RecvChannel → Locals → ℕ → RecvChannel × Locals
drain_behind did_finish_frame ch l byte =
    if l.bi == 1
    then (ch, l)
    else start_frame (try_alloc_buffer (finish_head (l.in_packet && did_finish_frame) ch)) l byte

abbrev pub drain_flag : RecvChannel → Locals → ℕ → RecvChannel × Locals
drain_flag ch l byte =
    if l.in_packet && ltb 1 l.bi
    then drain_behind true (with_buffer ch l.buf (λ b. record b { len = l.bi }))
        (record l { bi = 0 }) byte
    else drain_behind false ch l byte

-- A turn of the loop.
abbrev pub drain_byte : RecvChannel × Locals → ℕ → Run (RecvChannel × Locals)
drain_byte (ch, l) byte =
    if l.denied
    then ok (ch, l)
    else if byte == hdlc_flag
    then ok (drain_flag ch l byte)
    else if l.in_packet
    then drain_octet ch l byte
    else ok (ch, l)

unfoldable pub drain_bytes : RecvChannel × Locals → List ℕ → Run (RecvChannel × Locals)
drain_bytes s [] = ok s
drain_bytes s (byte ∷ bytes) = drain_byte s byte >>= λ s'. drain_bytes s' bytes

abbrev pub locals_of : RecvChannel → Locals
locals_of ch =
    let buf = (channel_max_frames + ch.write_head - 1) % channel_max_frames in
    record {
      in_packet = ch.in_packet;
      denied = false;
      buf = buf;
      last_esc = ch.last_esc;
      bi = if ch.in_packet then (get_or ch.buffers buf Frame.new).len else 0;
    }

-- What the channel keeps of the local variables: not `last_esc`.
abbrev pub suspend : RecvChannel × Locals → RecvChannel
suspend (ch, l) =
    let ch' = record ch { in_packet = l.in_packet } in
    if l.in_packet then with_buffer ch' l.buf (λ b. record b { len = l.bi }) else ch'

-- The bytes are those that the FIFO holds and takes in during the call.
unfoldable pub drain_uart_buffer : RecvChannel → List ℕ → Run RecvChannel
drain_uart_buffer ch bytes = drain_bytes (ch, locals_of ch) bytes >>= λ s. ok (suspend s)
