-- ===== src/Ppp/Phy/Xmit/Interrupts.antt =====
-- device/antimony/src/net/phy.rs, `mei_uart`: the interrupts of the UART that find room in its FIFO, one
-- `dump_uart_buffer` each, and the line that they make together.
use okeanos.Prelude.{
  ℕ, ◌+◌, ◌≤◌, ◌<◌, Bool, true, false, List, [], ◌∷◌, ◌++◌, append_assoc, append-nil, Option, none,
  some, length, length-append, length-take, take, take-append-drop, ok, ◌>>=◌, ◌≡◌, ◌⊎◌, inl, inr,
  refl, sym, ap, ap₂, subst, ◌∙◌, arith, All,
}
use okeanos.Ppp.Frame.{Run}
use okeanos.Ppp.Phy.Xmit.{
  TxBuffer, XmitChannel, put_back, no_buffers, write_out, finish_writing, dump_uart_buffer,
}
use okeanos.Ppp.Phy.Xmit.Line.{remaining, IsWithin, Left, write_head-Sends, remaining_pos}

-- What is still to go out for all frames of the channel.
abbrev pub pending : (ℕ → Bool) → List TxBuffer → List ℕ
pending esc [] = []
pending esc (b ∷ bs) = remaining esc (some b) ++ pending esc bs

-- Interrupts one after the other, each with the room that it finds.
unfoldable pub serve : List ℕ → XmitChannel → Run (XmitChannel × List ℕ)
serve [] ch = ok (ch, [])
serve (room ∷ rooms) ch = dump_uart_buffer room ch >>= λ (r : XmitChannel × List ℕ × Bool).
    (serve rooms r.0 >>= λ (q : XmitChannel × List ℕ). ok (q.0, r.1 ++ q.1))

-- One interrupt's part of the line. With room for a byte something goes out, unless no frame is left.
record Dumps (room : ℕ) (ch : XmitChannel) (result : Run (XmitChannel × List ℕ × Bool))
    : Type 0 where
  channel : XmitChannel
  sent : List ℕ
  done : Bool
  returns : result ≡ ok (channel, sent, done)
  same_escapes : channel.needs_escape ≡ ch.needs_escape
  line_is : sent ++ pending ch.needs_escape channel.buffers ≡ pending ch.needs_escape ch.buffers
  within : All IsWithin channel.buffers
  progress : 0 < room → (ch.buffers ≡ []) ⊎ (0 < length sent)
  stays_empty : ch.buffers ≡ [] → channel.buffers ≡ []

-- What a run of interrupts has sent, and what it has left.
record Serves (rooms : List ℕ) (ch : XmitChannel) (result : Run (XmitChannel × List ℕ))
    : Type 0 where
  channel : XmitChannel
  line : List ℕ
  returns : result ≡ ok (channel, line)
  line_is : line ++ pending ch.needs_escape channel.buffers ≡ pending ch.needs_escape ch.buffers
  within : All IsWithin channel.buffers
  stays_empty : ch.buffers ≡ [] → channel.buffers ≡ []
  progress :
      All (λ room. 0 < room) rooms
      → (channel.buffers ≡ [])
        ⊎ (length rooms + length (pending ch.needs_escape channel.buffers)
            ≤ length (pending ch.needs_escape ch.buffers))

pending-put_back :
    (esc : ℕ → Bool) (left : Option TxBuffer) (bs : List TxBuffer)
    → pending esc (put_back left bs) ≡ remaining esc left ++ pending esc bs
pending-put_back esc none bs = refl
pending-put_back esc (some b) bs = refl

put_back-IsWithin :
    (left : Option TxBuffer) (bs : List TxBuffer)
    → Left left
    → All IsWithin bs
    → All IsWithin (put_back left bs)
put_back-IsWithin none bs h k = k
put_back-IsWithin (some b) bs h k = (h, k)

length_pos : (room : ℕ) (xs : List ℕ) → 0 < room → 0 < length xs → 0 < length (take room xs)
length_pos room xs h k = ground (arith, length-take room xs, h, k)

finish-Dumps :
    (room : ℕ) (ch : XmitChannel) (sent : List ℕ) (bs : List TxBuffer)
    → (sent ++ pending ch.needs_escape bs ≡ pending ch.needs_escape ch.buffers)
    → All IsWithin bs
    → (0 < room → (ch.buffers ≡ []) ⊎ (0 < length sent))
    → (ch.buffers ≡ [] → bs ≡ [])
    → Dumps room ch (ok (finish_writing (record ch { buffers = bs }, sent, no_buffers bs)))
finish-Dumps room ch sent [] line ws p e = record {
  channel = record ch { buffers = []; writing = false };
  sent = sent;
  done = true;
  returns = refl;
  same_escapes = refl;
  line_is = line;
  within = ws;
  progress = p;
  stays_empty = e;
}
finish-Dumps room ch sent (b ∷ bs) line ws p e = record {
  channel = record ch { buffers = b ∷ bs };
  sent = sent;
  done = false;
  returns = refl;
  same_escapes = refl;
  line_is = line;
  within = ws;
  progress = p;
  stays_empty = e;
}

abbrev channel_of : (ℕ → Bool) → Bool → List TxBuffer → XmitChannel
channel_of esc writing bs = record { buffers = bs; writing = writing; needs_escape = esc }

dump_uart_buffer-Dumps :
    (room : ℕ) (esc : ℕ → Bool) (writing : Bool) (bs : List TxBuffer)
    → All IsWithin bs
    → Dumps room (channel_of esc writing bs) (dump_uart_buffer room (channel_of esc writing bs))
unfolding dump_uart_buffer write_out
dump_uart_buffer-Dumps room esc writing [] ws =
    finish-Dumps room (channel_of esc writing []) [] [] refl ws (λ h. inl refl) (λ e. refl)
dump_uart_buffer-Dumps room esc writing (b ∷ bs) ws =
    let s = write_head-Sends esc room b ws.0 in
    let ch = channel_of esc writing (b ∷ bs) in
    let e : dump_uart_buffer room ch
        ≡ ok (
            finish_writing (
              record ch { buffers = put_back s.left bs },
              s.sent,
              no_buffers (put_back s.left bs),
            )) =
      ap
        (λ (m : Run (Option TxBuffer × List ℕ)).
          (m >>= λ q.
          ok (record ch { buffers = put_back q.0 bs }, q.1, no_buffers (put_back q.0 bs)))
          >>= λ q. ok (finish_writing q))
        s.returns in
    subst (Dumps room ch) (sym e) (
      finish-Dumps room ch s.sent (put_back s.left bs)
        (ap (λ (ys : List ℕ). s.sent ++ ys) (pending-put_back esc s.left bs)
          ∙ sym (append_assoc s.sent (remaining esc s.left) (pending esc bs))
          ∙ ap (λ (ys : List ℕ). ys ++ pending esc bs)
              (ap₂ (λ xs ys. xs ++ ys) s.is_sent s.is_left
                ∙ take-append-drop room (remaining esc (some b))))
        (put_back-IsWithin s.left bs s.within ws.1)
        (λ h. inr (
          subst (λ xs. 0 < length xs) (sym s.is_sent)
            (length_pos room _ h (remaining_pos esc b ws.0))))
        (λ n. cc))

serve-line :
    (rooms : List ℕ) (ch : XmitChannel) → All IsWithin ch.buffers → Serves rooms ch (serve rooms ch)
unfolding serve
serve-line [] ch ws = record {
  channel = ch;
  line = [];
  returns = refl;
  line_is = refl;
  within = ws;
  stays_empty = λ e. e;
  progress = λ h. inr (omega arith);
}
serve-line (room ∷ rooms) ch ws =
    let d = dump_uart_buffer-Dumps room ch.needs_escape ch.writing ch.buffers ws in
    let s = serve-line rooms d.channel d.within in
    let next : s.line ++ pending ch.needs_escape s.channel.buffers
        ≡ pending ch.needs_escape d.channel.buffers =
      subst (λ esc. s.line ++ pending esc s.channel.buffers ≡ pending esc d.channel.buffers)
        d.same_escapes s.line_is in
    record {
      channel = s.channel;
      line = d.sent ++ s.line;
      returns =
          ap
            (λ (m : Run (XmitChannel × List ℕ × Bool)). m >>= λ (r : XmitChannel × List ℕ × Bool).
              (serve rooms r.0 >>= λ (q : XmitChannel × List ℕ). ok (q.0, r.1 ++ q.1)))
            d.returns
          ∙ ap
              (λ (m : Run (XmitChannel × List ℕ)).
                m >>= λ (q : XmitChannel × List ℕ). ok (q.0, d.sent ++ q.1))
              s.returns;
      line_is = append_assoc d.sent s.line _ ∙ ap (λ (ys : List ℕ). d.sent ++ ys) next ∙ d.line_is;
      within = s.within;
      stays_empty = λ e. s.stays_empty (d.stays_empty e);
      progress = λ h. elim (d.progress h.0) [
        | inl none_left ↦ inl (s.stays_empty (d.stays_empty none_left))
        | inr some_sent ↦ elim (s.progress h.1) [
          | inl done ↦ inl done
          | inr fewer ↦ inr (
              ground (
                arith,
                some_sent,
                subst
                    (λ esc.
                      length rooms + length (pending esc s.channel.buffers)
                      ≤ length (pending esc d.channel.buffers))
                    d.same_escapes fewer,
                ap length d.line_is,
                length-append d.sent (pending ch.needs_escape d.channel.buffers),
              ))
        ]
      ];
    }

empty_of :
    (esc : ℕ → Bool) (bs : List TxBuffer) → All IsWithin bs → length (pending esc bs) ≤ 0 → bs ≡ []
empty_of esc [] ws h = refl
empty_of esc (b ∷ bs) ws h = absurd (
    ground
      (arith, h, remaining_pos esc b ws.0, length-append (remaining esc (some b)) (pending esc bs)))

-- If the frames of the channel are within their buffers, every interrupt finds room for a byte and
-- there are as many interrupts as bytes to go out, then the interrupts end without a panic, no frame is
-- left, and what went out is the escaped frames in their order, however the room cut them.
pub serve_returns :
    (rooms : List ℕ) (ch : XmitChannel)
    → All IsWithin ch.buffers
    → All (λ room. 0 < room) rooms
    → length (pending ch.needs_escape ch.buffers) ≤ length rooms
    → (ch' : XmitChannel) × (serve rooms ch ≡ ok (ch', pending ch.needs_escape ch.buffers))
      × (ch'.buffers ≡ [])
serve_returns rooms ch ws pos enough =
    let s = serve-line rooms ch ws in
    let empty : s.channel.buffers ≡ [] = elim (s.progress pos) [
      | inl done ↦ done
      | inr fewer ↦
          empty_of ch.needs_escape s.channel.buffers s.within (omega (arith, fewer, enough))
    ] in
    let line : s.line ≡ pending ch.needs_escape ch.buffers =
      sym (append-nil s.line)
      ∙ ap (λ bs. s.line ++ pending ch.needs_escape bs) (sym empty)
      ∙ s.line_is in
    (s.channel, s.returns ∙ ap (λ xs. ok (s.channel, xs)) line, empty)
