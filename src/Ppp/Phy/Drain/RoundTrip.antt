-- ===== src/Ppp/Phy/Drain/RoundTrip.antt =====
-- device/antimony/src/net/phy.rs: what one side of the line escapes and sends, the other stores.
use okeanos.Prelude.{
  ℕ, ◌+◌, ◌-◌, ◌%◌, ◌≤◌, ◌<◌, Bool, true, false, List, [], ◌∷◌, ◌==◌, ltb_of_lt, if◌then◌else◌,
  get_or, set, length, take, drop, write_at, write_at-append, take-length-append, take-append-drop,
  length-take, ok, ◌>>=◌, ◌≡◌, refl, sym, ap, ◌∙◌, arith,
}
use okeanos.Ppp.Hdlc.{hdlc_flag}
use okeanos.Ppp.Frame
use okeanos.Ppp.Frame.{Buffer, Run, max_frame}
use okeanos.Ppp.Phy.{RecvChannel, channel_max_frames, try_alloc_buffer}
use okeanos.Ppp.Phy.Drain.{
  Locals, update_at, with_buffer, drain_bytes, drain_uart_buffer, locals_of, suspend,
}
use okeanos.Ppp.Phy.Drain.Octets.{
  Escapes, escaped, in_frame, with_bytes, drain-escaped, update_at-update_at, get_or-update_at,
  get_or-update_at_ne,
}

-- Between two frames: nothing is in the packet, or just the flag that began it.
abbrev idle : ℕ → Bool → Locals
idle buf last_esc = record {
  in_packet = false;
  denied = false;
  buf = buf;
  last_esc = last_esc;
  bi = 0;
}

-- The channel after `try_alloc_buffer` gave it a buffer, with the first flag in it.
abbrev begun : RecvChannel → RecvChannel
begun ch =
    with_buffer
      (record ch {
        write_head = (ch.write_head + 1) % channel_max_frames;
        free_buffers = ch.free_buffers - 1;
      })
      ch.write_head (λ b. record { len = 1; bytes = set b.bytes 0 hdlc_flag })

first_flag :
    (ch : RecvChannel) (buf : ℕ) (last_esc : Bool) (rest : List ℕ)
    → 0 < ch.free_buffers
    → drain_bytes (ch, idle buf last_esc) (hdlc_flag ∷ rest)
      ≡ drain_bytes (begun ch, in_frame ch.write_head 1) rest
unfolding drain_bytes try_alloc_buffer
first_flag ch buf last_esc rest h =
    let free : (ch.free_buffers == 0) ≡ false = ground (arith, h) in rw free refl

-- The channel after the flag that ends a frame of the length `bi`.
abbrev ended : RecvChannel → ℕ → ℕ → RecvChannel
ended ch buf bi = record (with_buffer ch buf (λ b. record b { len = bi })) {
  finished_head = (ch.finished_head + 1) % channel_max_frames;
}

last_flag :
    (ch : RecvChannel) (buf bi : ℕ)
    → 1 < bi
    → 0 < ch.free_buffers
    → drain_bytes (ch, in_frame buf bi) (hdlc_flag ∷ [])
      ≡ ok (begun (ended ch buf bi), in_frame ch.write_head 1)
unfolding drain_bytes try_alloc_buffer
last_flag ch buf bi long h =
    let free : (ch.free_buffers == 0) ≡ false = ground (arith, h) in
    rw (free, ltb_of_lt 1 bi long) refl

-- Where no buffer is free for the next frame, the one that ends stays the buffer of the loop.
last_flag-denied :
    (ch : RecvChannel) (buf bi : ℕ)
    → 1 < bi
    → ch.free_buffers ≡ 0
    → drain_bytes (ch, in_frame buf bi) (hdlc_flag ∷ [])
      ≡ ok (
        ended ch buf bi,
        record { in_packet = true; denied = true; buf = buf; last_esc = false; bi = 0 },
      )
unfolding drain_bytes try_alloc_buffer
last_flag-denied ch buf bi long h =
    let free : (ch.free_buffers == 0) ≡ true = ground (arith, h) in
    rw (free, ltb_of_lt 1 bi long) refl

-- The ring between two frames, with buffers of the full size.
pub record IsIdle (ch : RecvChannel) : Type 0 where
  pub not_in_packet : ch.in_packet ≡ false
  pub ring : length ch.buffers ≡ channel_max_frames
  pub write_in : ch.write_head < channel_max_frames
  pub full_size : length (get_or ch.buffers ch.write_head Frame.new).bytes ≡ max_frame

-- What the buffer at an index holds.
abbrev pub stored : RecvChannel → ℕ → List ℕ
stored ch i = let b = get_or ch.buffers i Frame.new in take b.len b.bytes

write_at-front :
    (vs bytes : List ℕ) → length vs ≤ length bytes → take (length vs) (write_at bytes 0 vs) ≡ vs
write_at-front vs bytes h =
    let n = length vs in
    let whole = ap (λ l. write_at l 0 vs) (sym (take-append-drop n bytes)) in
    let over =
      write_at-append [] (take n bytes) vs (drop n bytes)
        (ground (arith, length-take n bytes, h)) in
    ap (take n) (whole ∙ over) ∙ take-length-append vs (drop n bytes)

abbrev next_head : RecvChannel → ℕ
next_head ch = (ch.write_head + 1) % channel_max_frames

-- The channel when the body of a frame is in its buffer.
abbrev filled : RecvChannel → List ℕ → RecvChannel
filled ch body = with_bytes (begun ch) ch.write_head (λ bs. write_at bs 1 body)

-- What the drain of one frame ends in.
abbrev drained : RecvChannel → List ℕ → RecvChannel
drained ch body =
    let ch' = begun (ended (filled ch body) ch.write_head (1 + length body)) in
    with_buffer (record ch' { in_packet = true }) (next_head ch) (λ b. record b { len = 1 })

module _ (esc : ℕ → Bool) (agreed : Escapes esc) where
  to_last :
      (ch : RecvChannel) (body rest : List ℕ)
      → ch.in_packet ≡ false
      → 0 < ch.free_buffers
      → 1 + length body ≤ max_frame
      → drain_bytes (ch, locals_of ch) (hdlc_flag ∷ escaped esc body rest)
        ≡ drain_bytes (filled ch body, in_frame ch.write_head (1 + length body)) rest
  to_last ch body rest idle' free fits =
      let buf = (channel_max_frames + ch.write_head - 1) % channel_max_frames in
      let n = (get_or ch.buffers buf Frame.new).len in
      let l : locals_of ch ≡ idle buf ch.last_esc =
        ap
          (λ p. record {
            in_packet = p;
            denied = false;
            buf = buf;
            last_esc = ch.last_esc;
            bi = if p then n else 0;
          })
          idle' in
      ap (λ l'. drain_bytes (ch, l') (hdlc_flag ∷ escaped esc body rest)) l
      ∙ first_flag ch buf ch.last_esc (escaped esc body rest) free
      ∙ drain-escaped esc (begun ch) ch.write_head 1 body rest agreed fits

  drain_returns :
      (ch : RecvChannel) (body : List ℕ)
      → IsIdle ch
      → 2 ≤ ch.free_buffers
      → 0 < length body
      → 1 + length body ≤ max_frame
      → drain_uart_buffer ch (hdlc_flag ∷ escaped esc body (hdlc_flag ∷ [])) ≡ ok (drained ch body)
  unfolding drain_uart_buffer
  drain_returns ch body i free pos fits =
      ap (λ m. m >>= λ s. ok (suspend s))
        (to_last ch body (hdlc_flag ∷ []) i.not_in_packet (omega (arith, free)) fits
          ∙ last_flag (filled ch body) ch.write_head (1 + length body) (omega (arith, pos))
              (omega (arith, free)))

-- The buffer that a frame of the body has filled.
abbrev filled_buffer : Buffer → List ℕ → Buffer
filled_buffer b body = record {
  len = 1 + length body;
  bytes = write_at b.bytes 0 (hdlc_flag ∷ body);
}

drained-buffer :
    (ch : RecvChannel) (body : List ℕ)
    → IsIdle ch
    → get_or (drained ch body).buffers ch.write_head Frame.new
      ≡ filled_buffer (get_or ch.buffers ch.write_head Frame.new) body
drained-buffer ch body i =
    let wh = ch.write_head in
    let apart : (next_head ch ≡ wh) → ⊥ = λ e. omega (arith, e, i.write_in) in
    let in_ring : wh < length ch.buffers = omega (arith, i.write_in, i.ring) in
    get_or-update_at_ne wh (next_head ch) _ _ Frame.new apart
    ∙ get_or-update_at_ne wh (next_head ch) _ _ Frame.new apart
    ∙ ap (λ bs. get_or bs wh Frame.new)
        (update_at-update_at wh _ _ (update_at wh _ ch.buffers)
          ∙ update_at-update_at wh _ _ ch.buffers)
    ∙ get_or-update_at wh _ ch.buffers Frame.new in_ring

drained-stored :
    (ch : RecvChannel) (body : List ℕ)
    → IsIdle ch
    → 1 + length body ≤ max_frame
    → stored (drained ch body) ch.write_head ≡ hdlc_flag ∷ body
drained-stored ch body i fits =
    let b = get_or ch.buffers ch.write_head Frame.new in
    let size : 1 + length body ≡ length (hdlc_flag ∷ body) = omega arith in
    ap (λ (f : Buffer). take f.len f.bytes) (drained-buffer ch body i)
    ∙ ap (λ k. take k (write_at b.bytes 0 (hdlc_flag ∷ body))) size
    ∙ write_at-front (hdlc_flag ∷ body) b.bytes (omega (arith, fits, i.full_size))

-- If the channel is between frames, with two buffers free, then the escaped octets of a frame that fits,
-- between flags, are drained without a panic: the buffer at the write head holds the flag and the
-- octets as they were, the finished head is behind it, and two buffers fewer are free.
pub drain-escaped_frame :
    (esc : ℕ → Bool) (ch : RecvChannel) (body : List ℕ)
    → Escapes esc
    → IsIdle ch
    → 2 ≤ ch.free_buffers
    → 0 < length body
    → 1 + length body ≤ max_frame
    → (ch' : RecvChannel) × (drain_uart_buffer ch (hdlc_flag ∷ escaped esc body (hdlc_flag ∷ []))
        ≡ ok ch')
      × (stored ch' ch.write_head ≡ hdlc_flag ∷ body)
      × (ch'.finished_head ≡ (ch.finished_head + 1) % channel_max_frames)
      × (ch'.read_head ≡ ch.read_head)
      × (ch'.free_buffers + 2 ≡ ch.free_buffers)
      × ((get_or ch'.buffers ch.write_head Frame.new).len ≡ 1 + length body)
drain-escaped_frame esc ch body agreed i free pos fits = (
  drained ch body,
  drain_returns esc agreed ch body i free pos fits,
  drained-stored ch body i fits,
  refl,
  refl,
  omega (arith, free),
  ap (λ (f : Buffer). f.len) (drained-buffer ch body i),
)

-- If only one buffer is free, the frame that fills it is counted as finished, but its length is set to
-- zero, so that its octets are lost.
pub drain-last_buffer :
    (esc : ℕ → Bool) (ch : RecvChannel) (body : List ℕ)
    → Escapes esc
    → IsIdle ch
    → ch.free_buffers ≡ 1
    → 0 < length body
    → 1 + length body ≤ max_frame
    → (ch' : RecvChannel) × (drain_uart_buffer ch (hdlc_flag ∷ escaped esc body (hdlc_flag ∷ []))
        ≡ ok ch')
      × (ch'.finished_head ≡ (ch.finished_head + 1) % channel_max_frames)
      × (stored ch' ch.write_head ≡ [])
unfolding drain_uart_buffer
drain-last_buffer esc ch body agreed i free pos fits =
    let wh = ch.write_head in
    let ch' = ended (filled ch body) wh (1 + length body) in
    let in_ring : wh < length ch.buffers = omega (arith, i.write_in, i.ring) in
    (
      with_buffer (record ch' { in_packet = true }) wh (λ b. record b { len = 0 }),
      ap (λ m. m >>= λ s. ok (suspend s))
          (to_last esc agreed ch body (hdlc_flag ∷ []) i.not_in_packet (omega (arith, free)) fits
            ∙ last_flag-denied (filled ch body) wh (1 + length body) (omega (arith, pos))
                (omega (arith, free))),
      refl,
      ap (λ (f : Buffer). take f.len f.bytes)
          (ap (λ bs. get_or bs wh Frame.new)
              (update_at-update_at wh _ _ (update_at wh _ (update_at wh _ ch.buffers))
                ∙ update_at-update_at wh _ _ (update_at wh _ ch.buffers)
                ∙ update_at-update_at wh _ _ ch.buffers)
            ∙ get_or-update_at wh _ ch.buffers Frame.new in_ring),
    )
