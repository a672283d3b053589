-- ===== src/Ppp/Phy/Link.antt =====
-- device/antimony/src/net.rs and net/phy.rs together: a packet that one side of the line builds, escapes
-- and sends at its interrupts, drained and checked on the other side.
use okeanos.Prelude.{
  ℕ, suc, ◌+◌, ◌-◌, ◌%◌, ◌≤◌, ◌<◌, Bool, true, false, not, ◌&&◌, List, [], ◌∷◌, ◌++◌, append_assoc,
  append-nil, ◌==◌, test_of_ne, test_of_eq, if-elim, ◌*◌, length, length-append, get_or, take,
  take-length-append, ok, ◌≡◌, refl, sym, ap, subst, ◌∙◌, arith, All,
}
use okeanos.Prelude.Words.{to_be_bytes16}
use okeanos.Ppp.Hdlc.{hdlc_flag}
use okeanos.Ppp.Frame
use okeanos.Ppp.Frame.{Buffer, max_frame, try_from_hdlc_frame}
use okeanos.Ppp.Frame.RoundTrip.{
  build_packet, content, length-content, build_packet-content, try_from-content,
}
use okeanos.Ppp.Phy.{RecvChannel, channel_max_frames}
use okeanos.Ppp.Phy.Xmit.{XmitChannel, push}
use okeanos.Ppp.Phy.Xmit.Line.{line_from, IsWithin}
use okeanos.Ppp.Phy.Xmit.Interrupts.{serve, pending, serve_returns}
use okeanos.Ppp.Phy.Drain.{drain_uart_buffer}
use okeanos.Ppp.Phy.Drain.Octets.{Escapes, octet, escaped}
use okeanos.Ppp.Phy.Drain.RoundTrip.{IsIdle, stored, drain-escaped_frame}

and-false : (b : Bool) → (b && false) ≡ false
and-false true = refl
and-false false = refl

and-true : (b : Bool) → (b && true) ≡ b
and-true true = refl
and-true false = refl

-- The bytes between the flags of a frame are escaped as octets, from place `i` up to the closing flag.
line_from-body :
    (esc : ℕ → Bool) (len i : ℕ) (body : List ℕ)
    → 0 < i
    → len ≡ i + length body + 1
    → line_from esc len i (body ++ hdlc_flag ∷ []) ≡ escaped esc body (hdlc_flag ∷ [])
unfolding line_from octet
line_from-body esc len i [] pos e =
    let last : (i == len - 1) ≡ true = test_of_eq i (len - 1) (omega (arith, e)) in
    let first : (i == 0) ≡ false = test_of_ne i 0 (λ h. omega (arith, h, pos)) in
    rw (first, last) (rw (and-false (esc hdlc_flag)) refl)
line_from-body esc len i (x ∷ body) pos e =
    let not_last : (i == len - 1) ≡ false = test_of_ne i (len - 1) (λ h. omega (arith, h, e)) in
    let first : (i == 0) ≡ false = test_of_ne i 0 (λ h. omega (arith, h, pos)) in
    rw (first, not_last)
      (rw (and-true (esc x))
        (ap (octet esc x) (line_from-body esc len (suc i) body (omega arith) (omega (arith, e)))))

-- The line of a whole frame.
line_from-frame :
    (esc : ℕ → Bool) (len : ℕ) (body : List ℕ)
    → len ≡ length body + 2
    → line_from esc len 0 (hdlc_flag ∷ (body ++ hdlc_flag ∷ []))
      ≡ hdlc_flag ∷ escaped esc body (hdlc_flag ∷ [])
unfolding line_from
line_from-frame esc len body e = rw (and-false (esc hdlc_flag)) (
    ap (λ (ys : List ℕ). hdlc_flag ∷ ys)
      (line_from-body esc len 1 body (omega arith) (omega (arith, e))))

-- Every octet goes over the line as two at most.
length-escaped :
    (esc : ℕ → Bool) (xs rest : List ℕ) → length (escaped esc xs rest) ≤ 2 * length xs + length rest
unfolding octet
length-escaped esc [] rest = omega arith
length-escaped esc (x ∷ xs) rest =
    if-elim (λ (ys : List ℕ). length ys ≤ 2 * suc (length xs) + length rest) (esc x) _ _
      (λ t. omega (arith, length-escaped esc xs rest))
      (λ f. omega (arith, length-escaped esc xs rest))

-- A channel to send on, with nothing to send.
abbrev pub quiet : (ℕ → Bool) → Bool → XmitChannel
quiet esc writing = record { buffers = []; writing = writing; needs_escape = esc }

abbrev queued : (ℕ → Bool) → Bool → Buffer → XmitChannel
queued esc writing f = record {
  buffers = record { buffer = f; index = 0; pending_escape = false } ∷ [];
  writing = writing;
  needs_escape = esc;
}

push-quiet :
    (room : ℕ) (esc : ℕ → Bool) (writing : Bool) (f : Buffer)
    → push room (quiet esc writing) f ≡ ok (queued esc writing f, [], false)
unfolding push
push-quiet room esc writing f = rw (and-false (not writing)) refl

-- The line of a buffer that holds a frame.
pending-frame :
    (esc : ℕ → Bool) (f : Buffer) (body rest : List ℕ)
    → f.len ≡ length body + 2
    → f.bytes ≡ hdlc_flag ∷ (body ++ hdlc_flag ∷ rest)
    → pending esc (record { buffer = f; index = 0; pending_escape = false } ∷ [])
      ≡ hdlc_flag ∷ escaped esc body (hdlc_flag ∷ [])
pending-frame esc f body rest len bytes =
    let frame = hdlc_flag ∷ (body ++ hdlc_flag ∷ []) in
    let size : f.len ≡ length frame = omega (arith, len, length-append body (hdlc_flag ∷ [])) in
    let whole : f.bytes ≡ frame ++ rest =
      bytes
      ∙ ap (λ (ys : List ℕ). hdlc_flag ∷ ys) (sym (append_assoc body (hdlc_flag ∷ []) rest)) in
    let taken : take f.len f.bytes ≡ frame =
      ap (λ k. take k f.bytes) size
      ∙ ap (take (length frame)) whole
      ∙ take-length-append frame rest in
    append-nil _ ∙ ap (line_from esc f.len 0) taken ∙ line_from-frame esc f.len body len

-- What the two sides of the line make of a packet: the frame, what the sender has left, the line, what the
-- receiver has stored.
pub record Delivers (proto : ℕ) (packet : List ℕ) (room : ℕ) (rooms : List ℕ) (sender : XmitChannel)
    (receiver : RecvChannel) : Type 0 where
  pub frame : Buffer
  pub queue : XmitChannel
  pub rest : XmitChannel
  pub line : List ℕ
  pub stores : RecvChannel
  pub builds : build_packet proto packet ≡ ok frame
  pub pushes : push room sender frame ≡ ok (queue, [], false)
  pub serves : serve rooms queue ≡ ok (rest, line)
  pub drains : drain_uart_buffer receiver line ≡ ok stores
  pub finished_is : stores.finished_head ≡ (receiver.finished_head + 1) % channel_max_frames
  pub read_is : stores.read_head ≡ receiver.read_head
  pub free_is : stores.free_buffers + 2 ≡ receiver.free_buffers
  pub len_in : (get_or stores.buffers receiver.write_head Frame.new).len ≤ max_frame
  pub accepts :
      try_from_hdlc_frame (stored stores receiver.write_head) ≡ ok (to_be_bytes16 proto ++ packet)

-- A packet of at most 1499 bytes, built into a frame, pushed on a quiet channel and sent by interrupts
-- that each find room for a byte, 16 and twice the packet's length of them, then drained in one call by a
-- receiver between frames with two buffers free: no step panics, and the frame stored in the buffer at
-- the write head passes the receiver's check and holds the protocol and the packet. The octets that are
-- escaped are any that include the flag and the escape and not 0x5e.
pub push-drain-Delivers :
    (esc : ℕ → Bool) (proto : ℕ) (packet : List ℕ) (room : ℕ) (rooms : List ℕ) (writing : Bool)
    (receiver : RecvChannel)
    → Escapes esc
    → length packet ≤ 1499
    → All (λ r. 0 < r) rooms
    → 16 + 2 * length packet ≤ length rooms
    → IsIdle receiver
    → 2 ≤ receiver.free_buffers
    → Delivers proto packet room rooms (quiet esc writing) receiver
push-drain-Delivers esc proto packet room rooms writing receiver agreed short pos enough idle free =
    let b = build_packet-content proto packet short in
    let f = b.0 in
    let body = content proto packet in
    let size = length-content proto packet in
    let line = hdlc_flag ∷ escaped esc body (hdlc_flag ∷ []) in
    let goes : pending esc (queued esc writing f).buffers ≡ line =
      pending-frame esc f body b.1 (omega (arith, b.3, size)) b.4 in
    let len : length f.bytes ≡ suc (length body + suc (length b.1)) =
      ap length b.4 ∙ ap suc (length-append body (hdlc_flag ∷ b.1)) in
    let bound : length line ≤ 2 * length body + 2 =
      omega (arith, length-escaped esc body (hdlc_flag ∷ [])) in
    let within : IsWithin (record { buffer = f; index = 0; pending_escape = false }) = record {
      index_in = omega (arith, b.3);
      len_in = omega (arith, b.3, len, size);
      in_frame = omega (arith, b.3, short);
    } in
    let s =
      serve_returns rooms (queued esc writing f) (within, tt) pos
        (subst (λ (ys : List ℕ). length ys ≤ length rooms) (sym goes)
          (omega (arith, bound, size, enough))) in
    let d =
      drain-escaped_frame esc receiver body agreed idle free (omega (arith, size))
        (omega (arith, size, short)) in
    record {
      frame = f;
      queue = queued esc writing f;
      rest = s.0;
      line = line;
      stores = d.0;
      builds = b.2;
      pushes = push-quiet room esc writing f;
      serves = s.1 ∙ ap (λ ys. ok (s.0, ys)) goes;
      drains = d.1;
      finished_is = d.3;
      read_is = d.4;
      free_is = d.5;
      len_in = omega (arith, d.6, size, short);
      accepts = ap try_from_hdlc_frame d.2 ∙ try_from-content proto packet;
    }
