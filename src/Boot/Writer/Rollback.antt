-- ===== src/Boot/Writer/Rollback.antt =====
-- A frame that does not get into the transmit buffer is taken back (device/okboot/src/buf.rs,
-- `FrameWriter` and `FrameSink::send`).
use okeanos.Prelude.{
  ℕ, Bool, true, false, List, [], ◌∷◌, ◌++◌, Option, none, some, if◌then◌else◌, Outcome, ok, err,
  panic, take, ◌≡◌, ◌≢◌, inl, inr, refl, sym, subst, ◌∙◌,
}
use okeanos.Prelude.Words.{to_le_bytes32}
use okeanos.Frame.Crc.{Crc32}
use okeanos.Frame.Message.{MessageType, to_u32, preamble_bytes}
use okeanos.Frame.Encode
use okeanos.Frame.Encode.{FrameEncoder, EncodeState, encode_length, frame}
use okeanos.Boot.Transmit.{TransmitBuffer, checkpoint, extend_from_slice, reserve, restore}
use okeanos.Boot.Transmit.Laws.{
  IsValid, Extends, Extends-nil, Extends-trans, contents, room, extend_from_slice-Extends,
  reserve-Extends,
}
use okeanos.Boot.Transmit.Rollback.{restore-checkpoint}
use okeanos.Boot.Window.{window}
use okeanos.Boot.Writer.{
  FrameWriter, FrameSink, SendError, len_place, reserve_len, new, take_state, add_bytes_unhashed,
  add_bytes, finish_crc, finish_frame, put_len, close, finalize, send_payload, send_frame,
  send_with, send, sent,
}

-- Some bytes were added to a valid buffer.
abbrev Grown : TransmitBuffer → TransmitBuffer → Type 0
Grown t0 t = (added : List ℕ) × Extends t0 t added

grow : (t0 t : TransmitBuffer) (src : List ℕ) → Grown t0 t → Grown t0 (extend_from_slice t src).0
grow t0 t src (added, x) = elim (extend_from_slice-Extends t src x.valid) [
  | inl (_, _, more) ↦ (added ++ src, Extends-trans x more)
  | inr (_, same) ↦ subst (λ r. Grown t0 r.0) (sym same) (added, x)
]

grow_len_place :
    (t0 : TransmitBuffer) (p : TransmitBuffer × Option ℕ) → Grown t0 p.0 → Grown t0 (len_place p).0
grow_len_place t0 (t, none) g = g
grow_len_place t0 (t, some offset) g = g

grow_reserve_len :
    (t0 : TransmitBuffer) (p : TransmitBuffer × Bool) → Grown t0 p.0 → Grown t0 (reserve_len p).0
grow_reserve_len t0 (t, false) g = g
grow_reserve_len t0 (t, true) (added, x) =
    grow_len_place t0 (reserve t 4) (elim (reserve-Extends t 4 x.valid) [
      | inl (_, _, more) ↦
          (added ++ window t.underlying_storage (room t) t.circle_end 4, Extends-trans x more)
      | inr (_, same) ↦ subst (λ r. Grown t0 r.0) (sym same) (added, x)
    ])

module _ (crc32 : Crc32) (t0 : TransmitBuffer) where
  -- The writer has only added bytes since its checkpoint, the one of `t0`.
  record Since (w : FrameWriter crc32.Hasher) : Type 0 where
    grown : Grown t0 w.transmit_buffer
    at : w.checkpoint ≡ checkpoint t0

  if-Since :
      (b : Bool) (x y : FrameWriter crc32.Hasher) → Since x → Since y → Since (if b then x else y)
  if-Since true x y sx sy = sx
  if-Since false x y sx sy = sy

  new-Since : (e : FrameEncoder) → IsValid t0 → Since (new crc32 t0 e)
  unfolding new
  new-Since e v = record {
    grown =
        grow_reserve_len t0 (extend_from_slice t0 preamble_bytes)
          (grow t0 t0 preamble_bytes ([], Extends-nil t0 v));
    at = refl;
  }

  take_state-Since :
      (w : FrameWriter crc32.Hasher) (p : FrameEncoder × EncodeState)
      → Since w
      → Since (take_state crc32 w p)
  take_state-Since w (e, EncodeState.buf bytes) s = record {
    grown = grow t0 w.transmit_buffer bytes s.grown;
    at = s.at;
  }
  take_state-Since w (e, EncodeState.pass) s = record { grown = s.grown; at = s.at }

  add_bytes_unhashed-Since :
      (bytes : List ℕ) (w : FrameWriter crc32.Hasher)
      → Since w
      → Since (add_bytes_unhashed crc32 w bytes)
  unfolding add_bytes_unhashed
  add_bytes_unhashed-Since [] w s = s
  add_bytes_unhashed-Since (b ∷ bytes) w s =
      let w' = take_state crc32 w (Encode.write_u8 w.frame_encoder b) in
      if-Since w.ok (add_bytes_unhashed crc32 w' bytes) w
        (add_bytes_unhashed-Since bytes w'
          (take_state-Since w (Encode.write_u8 w.frame_encoder b) s))
        s

  add_bytes-Since :
      (bytes : List ℕ) (w : FrameWriter crc32.Hasher) → Since w → Since (add_bytes crc32 w bytes)
  unfolding add_bytes
  add_bytes-Since bytes w s =
      add_bytes_unhashed-Since bytes (record w { hasher = crc32.update w.hasher bytes })
        (record { grown = s.grown; at = s.at })

  finish_crc-Since : (w : FrameWriter crc32.Hasher) → Since w → Since (finish_crc crc32 w)
  finish_crc-Since w s =
      let w' = record w { hasher = crc32.new } in
      let bytes = to_le_bytes32 (crc32.finalize w.hasher) in
      if-Since w.ok (add_bytes_unhashed crc32 w' bytes) w
        (add_bytes_unhashed-Since bytes w' (record { grown = s.grown; at = s.at })) s

  finish_frame-Since : (w : FrameWriter crc32.Hasher) → Since w → Since (finish_frame crc32 w)
  finish_frame-Since w s =
      let bytes = (Encode.finish w.frame_encoder).1 in
      let r = extend_from_slice w.transmit_buffer bytes in
      if-Since w.ok
        (record w {
          frame_encoder = (Encode.finish w.frame_encoder).0;
          transmit_buffer = r.0;
          ok = r.1;
        })
        w (record { grown = grow t0 w.transmit_buffer bytes s.grown; at = s.at }) s

  -- The buffer is valid, as large as `t0`, and holds what `t0` holds.
  abbrev pub Undone : TransmitBuffer → Type 0
  Undone t = IsValid t × (contents t ≡ contents t0) × (room t ≡ room t0)

  restore-Since :
      (w : FrameWriter crc32.Hasher)
      → IsValid t0
      → Since w
      → Undone (restore w.transmit_buffer w.checkpoint)
  restore-Since w v s =
      subst (λ cp. Undone (restore w.transmit_buffer cp)) (sym s.at)
        (restore-checkpoint t0 w.transmit_buffer s.grown.0 v s.grown.1)

  put_len_ok :
      (w : FrameWriter crc32.Hasher) (len : Option (List ℕ))
      → len ≢ none
      → (put_len crc32 w len).ok ≡ w.ok
  put_len_ok w none some' = absurd (some' refl)
  put_len_ok w (some l) some' = refl

  close_cases :
      (b : Bool) (w : FrameWriter crc32.Hasher) (n : ℕ)
      → b ≡ w.ok
      → encode_length n ≢ none
      → let out =
          if b
          then put_len crc32 w (encode_length n)
          else record w { transmit_buffer = restore w.transmit_buffer w.checkpoint } in
        out.ok ≡ false → out.transmit_buffer ≡ restore w.transmit_buffer w.checkpoint
  close_cases true w n same some' e =
      let contra : true ≡ false = same ∙ sym (put_len_ok w (encode_length n) some') ∙ e in cc contra
  close_cases false w n same some' e = refl

  close-Undone :
      (w : FrameWriter crc32.Hasher) (n : ℕ)
      → IsValid t0
      → Since w
      → encode_length n ≢ none
      → (close crc32 w n).ok ≡ false
      → Undone (close crc32 w n).transmit_buffer
  close-Undone w n v s some' e =
      subst Undone (sym (close_cases w.ok w n refl some' e)) (restore-Since w v s)

  -- A `finalize` that answers `false` for a payload whose length has an encoding has taken the
  -- frame back.
  finalize-Undone :
      (w : FrameWriter crc32.Hasher) (n : ℕ)
      → IsValid t0
      → Since w
      → encode_length n ≢ none
      → (finalize crc32 w n).1 ≡ false
      → Undone (finalize crc32 w n).0.transmit_buffer
  unfolding finalize
  finalize-Undone w n v s some' e =
      close-Undone (finish_frame crc32 (finish_crc crc32 w)) n v
        (finish_frame-Since (finish_crc crc32 w) (finish_crc-Since w s)) some' e

module _ (crc32 : Crc32) {E Msg : Type 0} (message_type : Msg → MessageType)
    (to_slice : Msg → List ℕ → List ℕ × Outcome E ℕ) where
  -- The slices that postcard returns are shorter than 2^24 bytes, the buffers that it is lent being so.
  abbrev Short : Outcome E ℕ → Type 0
  Short (ok n) = encode_length n ≢ none
  Short (err e) = Unit
  Short panic = Unit

  not_sent : (b : Bool) (e : SendError E) → sent crc32 b ≡ err e → b ≡ false
  not_sent true e eq = cc eq
  not_sent false e eq = refl

  send_payload-Undone :
      (s : FrameSink) (w : FrameWriter crc32.Hasher) (p : List ℕ × Outcome E ℕ) (e : SendError E)
      → IsValid s.transmit_buffer
      → Since crc32 s.transmit_buffer w
      → Short p.1
      → (send_payload crc32 message_type to_slice s w p).1 ≡ err e
      → Undone crc32 s.transmit_buffer
          (send_payload crc32 message_type to_slice s w p).0.transmit_buffer
  send_payload-Undone s w (px, ok n) e v since short eq =
      finalize-Undone crc32 s.transmit_buffer (add_bytes crc32 w (take n px)) n v
        (add_bytes-Since crc32 s.transmit_buffer (take n px) w since) short
        (not_sent (finalize crc32 (add_bytes crc32 w (take n px)) n).1 e eq)
  send_payload-Undone s w (px, err e') e v since short eq =
      restore-Since crc32 s.transmit_buffer w v since
  send_payload-Undone s w (px, panic) e v since short eq = cc eq

  send_frame-Undone :
      (s : FrameSink) (msg : Msg) (px : List ℕ) (enc : Option FrameEncoder) (e : SendError E)
      → IsValid s.transmit_buffer
      → Short (to_slice msg px).1
      → (send_frame crc32 message_type to_slice s msg px enc).1 ≡ err e
      → Undone crc32 s.transmit_buffer
          (send_frame crc32 message_type to_slice s msg px enc).0.transmit_buffer
  send_frame-Undone s msg px none e v short eq = (v, refl, refl)
  send_frame-Undone s msg px (some enc) e v short eq =
      let w = new crc32 s.transmit_buffer enc in
      let bytes = to_le_bytes32 (to_u32 (message_type msg)) in
      send_payload-Undone s (add_bytes crc32 w bytes) (to_slice msg px) e v
        (add_bytes-Since crc32 s.transmit_buffer bytes w (new-Since crc32 s.transmit_buffer enc v))
        short eq

  -- A `send` that ends in an error, from a sink with its postcard buffer `px` and a valid transmit
  -- buffer, leaves the transmit buffer valid and with just the bytes that it held. The slice of
  -- postcard has to be short enough for the length field.
  pub send-Undone :
      (s : FrameSink) (msg : Msg) (px : List ℕ) (e : SendError E)
      → IsValid s.transmit_buffer
      → s.postcard_buffer ≡ some px
      → Short (to_slice msg px).1
      → (send crc32 message_type to_slice s msg).1 ≡ err e
      → Undone crc32 s.transmit_buffer (send crc32 message_type to_slice s msg).0.transmit_buffer
  unfolding send
  send-Undone s msg px e v has short =
      subst
        (λ b.
          (send_with crc32 message_type to_slice s msg b).1 ≡ err e
          → Undone crc32 s.transmit_buffer
              (send_with crc32 message_type to_slice s msg b).0.transmit_buffer)
        (sym has) (send_frame-Undone s msg px (frame s.slice_buffered_encoder) e v short)
