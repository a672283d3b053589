-- ===== src/Ppp/Phy/Xmit.antt =====
-- device/antimony/src/net/phy.rs, `XmitChannel`: frames go out with their bytes escaped, as far as the
-- UART has room at each interrupt.
pub mod Line
pub mod Interrupts
use okeanos.Prelude.{
  ℕ, zero, suc, ◌+◌, ◌-◌, bit_xor, Bool, true, false, not, ◌&&◌, ◌||◌, List, [], ◌∷◌, ◌++◌, Option,
  none, some, ◌==◌, ltb, if◌then◌else◌, get_or, Outcome, ok, panic, ◌>>=◌,
}
use okeanos.Ppp.Hdlc.{hdlc_flag, hdlc_esc, hdlc_esc_xor}
use okeanos.Ppp.Frame.{Buffer, Run, max_frame}

pub record TxBuffer : Type 0 where
  pub buffer : Buffer
  pub index : ℕ
  pub pending_escape : Bool

-- `needs_escape` is the array of 256 flags, by the byte.
pub record XmitChannel : Type 0 where
  pub buffers : List TxBuffer
  pub writing : Bool
  pub needs_escape : ℕ → Bool

-- `XmitChannel::new`
abbrev pub new : XmitChannel
new = record { buffers = []; writing = false; needs_escape = λ c. false }

-- `XmitChannel::needs_escape`
abbrev pub set_needs_escape : XmitChannel → ℕ → XmitChannel
set_needs_escape ch c = record ch { needs_escape = λ d. d == c || ch.needs_escape d }

-- `link_init` of net.rs
abbrev pub link_init : XmitChannel → XmitChannel
link_init ch = set_needs_escape (set_needs_escape ch hdlc_esc) hdlc_flag

-- Whether the byte at `i` of a frame of length `len` is escaped: not the flags at its ends.
abbrev pub escapes : (ℕ → Bool) → ℕ → ℕ → ℕ → Bool
escapes needs_escape len i byte =
    needs_escape byte && not ((i == 0 || i == len - 1) && byte == 0x7e)

-- What a round of the inner loop does with the byte at the index: the buffer, and what goes out.
abbrev pub put_byte : (ℕ → Bool) → TxBuffer → ℕ → TxBuffer × ℕ
put_byte needs_escape b byte =
    if b.pending_escape
    then (record b { pending_escape = false; index = b.index + 1 }, bit_xor hdlc_esc_xor byte)
    else if escapes needs_escape b.buffer.len b.index byte
    then (record b { pending_escape = true }, hdlc_esc)
    else (record b { index = b.index + 1 }, byte)

-- What the inner loop leaves of a frame, if it is not finished, with what went out before.
abbrev pub after_byte :
    TxBuffer × ℕ → (TxBuffer → Run (Option TxBuffer × List ℕ)) → Run (Option TxBuffer × List ℕ)
after_byte (b, byte) rest =
    if b.index == b.buffer.len then ok (none, byte ∷ []) else (rest b >>= λ r. ok (r.0, byte ∷ r.1))

-- The inner loop, where the UART takes so many bytes before its FIFO is full. An index out of the
-- buffer's bounds is a panic.
unfoldable pub write_head : ℕ → (ℕ → Bool) → TxBuffer → Run (Option TxBuffer × List ℕ)
write_head zero needs_escape b = ok (some b, [])
write_head (suc room) needs_escape b =
    let next =
      after_byte (put_byte needs_escape b (get_or b.buffer.bytes b.index 0))
        (λ b'. write_head room needs_escape b') in
    if ltb b.index max_frame then next else panic

-- The frames that are left.
abbrev pub put_back : Option TxBuffer → List TxBuffer → List TxBuffer
put_back none bs = bs
put_back (some b) bs = b ∷ bs

abbrev pub no_buffers : List TxBuffer → Bool
no_buffers [] = true
no_buffers (b ∷ bs) = false

-- `write_out`: one frame at most, as `curr_head` is none behind it. The channel, what goes out, and
-- whether nothing is left.
abbrev pub write_out_of : ℕ → XmitChannel → List TxBuffer → Run (XmitChannel × List ℕ × Bool)
write_out_of room ch [] = ok (ch, [], true)
write_out_of room ch (b ∷ bs) = write_head room ch.needs_escape b >>= λ r.
    ok (record ch { buffers = put_back r.0 bs }, r.1, no_buffers (put_back r.0 bs))

unfoldable pub write_out : ℕ → XmitChannel → Run (XmitChannel × List ℕ × Bool)
write_out room ch = write_out_of room ch ch.buffers

-- The end of `push`, where it writes: the flag is whether the interrupt is enabled.
abbrev pub start_writing : XmitChannel × List ℕ × Bool → XmitChannel × List ℕ × Bool
start_writing (ch, out, true) = (ch, out, false)
start_writing (ch, out, false) = (record ch { writing = true }, out, true)

-- `push`: the channel, what goes out, and whether the interrupt is enabled.
unfoldable pub push : ℕ → XmitChannel → Buffer → Run (XmitChannel × List ℕ × Bool)
push room ch buffer =
    let ch' = record ch {
      buffers = ch.buffers ++ record { buffer = buffer; index = 0; pending_escape = false } ∷ [];
    } in
    if not ch.writing && no_buffers ch'.buffers
    then (write_out room ch' >>= λ r. ok (start_writing r))
    else ok (ch', [], false)

abbrev pub finish_writing : XmitChannel × List ℕ × Bool → XmitChannel × List ℕ × Bool
finish_writing (ch, out, true) = (record ch { writing = false }, out, true)
finish_writing (ch, out, false) = (ch, out, false)

-- `dump_uart_buffer`: the last part is whether the interrupt is disabled.
unfoldable pub dump_uart_buffer : ℕ → XmitChannel → Run (XmitChannel × List ℕ × Bool)
dump_uart_buffer room ch = write_out room ch >>= λ r. ok (finish_writing r)
