-- ===== src/Frame/Layer/RoundTrip.antt =====
-- The frame decoder of common/okboot-common/src/frame/decode.rs reads a whole frame: preamble,
-- length, and the COBS encoding of type, payload and checksum.
use okeanos.Prelude.{
  ℕ, ◌+◌, ◌-◌, ◌/◌, ◌%◌, ◌^◌, ◌<◌, List, [], ◌∷◌, ◌++◌, map, append_assoc, length, set, ok, some,
  ◌≡◌, refl, sym, ap, subst, ◌∙◌, arith,
}
use mathlib.Core.List.{map-append}
use okeanos.Prelude.Words.{to_le_bytes32}
use okeanos.Frame.Message.{MessageType, to_u32, preamble_bytes}
use okeanos.Frame.Crc.{Crc32}
use okeanos.Frame.Length.{length_field, encode_length_inv}
use okeanos.Frame.Encode.{FrameEncoder, with_buffer_xor, encode, encode_length}
use okeanos.Frame.Cobs
use okeanos.Frame.Cobs.{CobsDecoder, CobsState, finished, byte}
use okeanos.Frame.Cobs.Spec.{cobs}
use okeanos.Frame.Cobs.Encoding.{masked, encode-cobs}
use okeanos.Frame.Cobs.RoundTrip.{Decodes, stop, step, strip, Ends, Decodes-cobs}
use okeanos.Frame.Layer.{FrameHeader, FrameState, FrameOutput, Layer, feed_body, new, skip_preamble}
use okeanos.Frame.Layer.Feeds.{Feeds, Feeds-nil, next, feed_all}
use okeanos.Frame.Layer.Start.{set_all, at, IsReady, Feeds-preamble, Feeds-length}
use okeanos.Frame.Layer.Packet.{
  writes-update, Behind, header_byte, header_last, payload_bytes, InPacket-body,
}

Decodes-nil :
    {d' d : CobsDecoder} {bytes : List ℕ} {out : List CobsState}
    → Decodes d' d bytes out
    → out ≡ []
    → (bytes ≡ []) × (d ≡ d')
Decodes-nil stop h = (refl, refl)
Decodes-nil (step call rest) h = absurd (cc)

module _ (crc32 : Crc32) where
  module _ (xor : ℕ) (d' : CobsDecoder) (lb hb : List ℕ) where
    -- One byte of the checksum.
    crc_byte :
        (i j : ℕ) (hdr : FrameHeader) (b : ℕ) (cb : List ℕ) (h : crc32.Hasher) (d : CobsDecoder)
        (bytes : List ℕ) (out t : List CobsState)
        → i ≡ 4 + hdr.payload_len + j
        → j < 4
        → d.xor ≡ xor
        → Decodes d' d bytes out
        → strip out ≡ byte b ∷ t
        → Ends out
        → Behind crc32 xor d' d bytes t
            (at crc32 (FrameState.packet_body i hdr) lb hb cb h)
            (at crc32 (FrameState.packet_body (i + 1) hdr) lb hb (set cb j b) h)
            []
    unfolding feed_body
    crc_byte i j hdr b cb h d bytes out t ij lt e dec ans ends =
        let x =
          next crc32 (at crc32 (FrameState.packet_body i hdr) lb hb cb h d)
            (λ l s. feed_body crc32 l i hdr s) (InPacket-body crc32 i hdr lb hb cb h d) xor (byte b)
            t e dec ans ends in
        record {
          after = x.after;
          after_xor = x.after_xor;
          left = x.left;
          out = x.out;
          decodes = x.decodes;
          answers = x.answers;
          ends = x.ends;
          go = λ l' outs fed.
              let place : i - (4 + hdr.payload_len) ≡ j = omega arith in
              x.go l' _ FrameOutput.skip outs (ground arith) fed;
        }

    -- The end of the frame, with the checksum of what was read.
    finish_frame :
        (i : ℕ) (hdr : FrameHeader) (c : ℕ) (h : crc32.Hasher)
        → i ≡ 8 + hdr.payload_len
        → c < 2 ^ 32
        → crc32.finalize h ≡ c
        → (d : CobsDecoder)
        → feed_body crc32
            (at crc32 (FrameState.packet_body i hdr) lb hb (to_le_bytes32 c) h d)
            i
            hdr
            finished
          ≡ (
            at crc32 FrameState.preamble lb hb (to_le_bytes32 c) crc32.new d,
            ok FrameOutput.finished,
          )
    unfolding feed_body
    finish_frame i hdr c h e lt fin d = ground arith

    -- The checksum and the delimiter behind the payload.
    crc_and_end :
        (i c : ℕ) (hdr : FrameHeader) (cb : List ℕ) (h : crc32.Hasher) (d : CobsDecoder)
        (bytes : List ℕ) (out : List CobsState)
        → i ≡ 4 + hdr.payload_len
        → length cb ≡ 4
        → c < 2 ^ 32
        → crc32.finalize h ≡ c
        → d.xor ≡ xor
        → Decodes d' d bytes out
        → strip out ≡ map byte (to_le_bytes32 c) ++ finished ∷ []
        → Ends out
        → Feeds crc32
            (at crc32 FrameState.preamble lb hb (to_le_bytes32 c) crc32.new d')
            (at crc32 (FrameState.packet_body i hdr) lb hb cb h d)
            (masked xor bytes)
            (FrameOutput.finished ∷ [])
    crc_and_end i c hdr cb h d bytes out e size lt fin ex dec ans ends =
        let c0 = c % 256 in
        let c1 = (c / 2 ^ 8) % 256 in
        let c2 = (c / 2 ^ 16) % 256 in
        let c3 = (c / 2 ^ 24) % 256 in
        let x0 =
          crc_byte i 0 hdr c0 cb h d bytes out _ (omega arith) (omega arith) ex dec ans ends in
        let x1 =
          crc_byte (i + 1) 1 hdr c1 (set cb 0 c0) h x0.after x0.left x0.out _ (omega arith)
            (omega arith) x0.after_xor x0.decodes x0.answers x0.ends in
        let x2 =
          crc_byte (i + 1 + 1) 2 hdr c2 (set (set cb 0 c0) 1 c1) h x1.after x1.left x1.out _
            (omega arith) (omega arith) x1.after_xor x1.decodes x1.answers x1.ends in
        let x3 =
          crc_byte (i + 1 + 1 + 1) 3 hdr c3 (set (set (set cb 0 c0) 1 c1) 2 c2) h x2.after x2.left
            x2.out (finished ∷ []) (omega arith) (omega arith) x2.after_xor x2.decodes x2.answers
            x2.ends in
        let last = i + 1 + 1 + 1 + 1 in
        let f =
          next crc32 (at crc32 (FrameState.packet_body last hdr) lb hb (to_le_bytes32 c) h x3.after)
            (λ k s. feed_body crc32 k last hdr s)
            (InPacket-body crc32 last hdr lb hb (to_le_bytes32 c) h x3.after) xor finished []
            x3.after_xor x3.decodes x3.answers x3.ends in
        let (none_left, same) = Decodes-nil f.decodes f.ends in
        let l' = at crc32 FrameState.preamble lb hb (to_le_bytes32 c) crc32.new d' in
        let done : Feeds crc32 l'
            (at crc32 FrameState.preamble lb hb (to_le_bytes32 c) crc32.new f.after)
            (masked xor f.left) [] =
          rw (none_left, same) (Feeds-nil crc32 l') in
        let ended =
          f.go l' _ FrameOutput.finished [] (finish_frame last hdr c h (omega arith) lt fin f.after)
            done in
        let outs = FrameOutput.finished ∷ [] in
        x0.go l' outs (
          x1.go l' outs (
            x2.go l' outs (
              x3.go l' outs (
                subst
                  (λ z.
                    Feeds crc32 l' (at crc32 (FrameState.packet_body last hdr) lb hb z h x3.after)
                      (masked xor x3.left) outs)
                  (sym (set_all cb c0 c1 c2 c3 size)) ended))))

  -- From the state behind the length field to the end of the frame.
  Feeds-packet :
      (xor n : ℕ) (m : MessageType) (ps lb hb cb : List ℕ)
      → length ps ≡ n
      → length hb ≡ 4
      → length cb ≡ 4
      → let c = crc32.finalize (crc32.update crc32.new (to_le_bytes32 (to_u32 m) ++ ps)) in
        let hdr : FrameHeader = record { message_type = m; payload_len = n } in
        Feeds crc32
          (at crc32 FrameState.preamble lb
            (to_le_bytes32 (to_u32 m))
            (to_le_bytes32 c)
            crc32.new
            (Cobs.new xor))
          (at crc32 (FrameState.packet_header 0 n) lb hb cb crc32.new (Cobs.new xor))
          (masked xor (cobs [] ((to_le_bytes32 (to_u32 m) ++ ps) ++ to_le_bytes32 c)))
          (FrameOutput.header hdr ∷ (map FrameOutput.payload ps ++ FrameOutput.finished ∷ []))
  Feeds-packet xor n m ps lb hb cb len hsize csize =
      let w = to_u32 m in
      let b0 = w % 256 in
      let b1 = (w / 2 ^ 8) % 256 in
      let b2 = (w / 2 ^ 16) % 256 in
      let b3 = (w / 2 ^ 24) % 256 in
      let new' = crc32.new in
      let c = crc32.finalize (crc32.update new' (to_le_bytes32 w ++ ps)) in
      let (out, decodes, ans, ends) =
        Decodes-cobs ((to_le_bytes32 w ++ ps) ++ to_le_bytes32 c) xor in
      let answers : strip out
          ≡ map byte (to_le_bytes32 w)
            ++ (map byte ps ++ (map byte (to_le_bytes32 c) ++ finished ∷ [])) =
        ans
        ∙ ap (λ l. map byte (to_le_bytes32 w) ++ (l ++ finished ∷ []))
            (map-append byte ps (to_le_bytes32 c))
        ∙ ap (λ l. map byte (to_le_bytes32 w) ++ l)
            (append_assoc (map byte ps) (map byte (to_le_bytes32 c)) (finished ∷ [])) in
      let d' = Cobs.new xor in
      let x0 =
        header_byte crc32 xor d' lb cb 0 n b0 hb new' d' _ out _ (omega arith) refl decodes answers
          ends in
      let x1 =
        header_byte crc32 xor d' lb cb 1 n b1 (set hb 0 b0) _ x0.after x0.left x0.out _
          (omega arith) x0.after_xor x0.decodes x0.answers x0.ends in
      let x2 =
        header_byte crc32 xor d' lb cb 2 n b2 (set (set hb 0 b0) 1 b1) _ x1.after x1.left x1.out _
          (omega arith) x1.after_xor x1.decodes x1.answers x1.ends in
      let x3 =
        header_last crc32 xor d' lb cb n b3 m (set (set (set hb 0 b0) 1 b1) 2 b2) _ x2.after x2.left
          x2.out _ (set_all hb b0 b1 b2 b3 hsize) x2.after_xor x2.decodes x2.answers x2.ends in
      let hdr : FrameHeader = record { message_type = m; payload_len = n } in
      let y =
        payload_bytes crc32 xor d' lb cb ps 4 (4 + n) hdr (to_le_bytes32 w) _ x3.after x3.left
          x3.out (map byte (to_le_bytes32 c) ++ finished ∷ []) (omega arith) (omega arith)
          x3.after_xor x3.decodes x3.answers x3.ends in
      let summed = writes-update crc32 new' b0 [] (b1 ∷ b2 ∷ b3 ∷ ps) in
      let z =
        crc_and_end xor d' lb (to_le_bytes32 w) (4 + n) c hdr cb _ y.after y.left y.out refl csize
          (crc32.finalize-lt _) (ap crc32.finalize summed) y.after_xor y.decodes y.answers y.ends in
      let l' = at crc32 FrameState.preamble lb (to_le_bytes32 w) (to_le_bytes32 c) new' d' in
      let said = map FrameOutput.payload ps ++ FrameOutput.finished ∷ [] in
      let outs = FrameOutput.header hdr ∷ said in
      x0.go l' outs
        (x1.go l' outs (x2.go l' outs (x3.go l' said (y.go l' (FrameOutput.finished ∷ []) z))))

  Feeds-same :
      (l' l0 l : Layer crc32) (bytes : List ℕ) (outs : List FrameOutput)
      → l0 ≡ l
      → Feeds crc32 l' l0 bytes outs
      → Feeds crc32 l' l bytes outs
  Feeds-same l' l0 l bytes outs e fed = subst (λ k. Feeds crc32 l' k bytes outs) e fed

  -- Behind the preamble: the same for a new layer that was told to skip it.
  pub feed_all-skip_preamble :
      (xor : ℕ) (buffer : List ℕ) (e : FrameEncoder) (m : MessageType) (payload len_bytes : List ℕ)
      → with_buffer_xor buffer xor ≡ some e
      → length payload < 2 ^ 64
      → encode_length (length payload) ≡ some len_bytes
      → let content = to_le_bytes32 (to_u32 m) ++ payload in
        let crc = crc32.finalize (crc32.update crc32.new content) in
        (l' : Layer crc32) × (feed_all crc32
            (skip_preamble crc32 (new crc32 xor))
            (len_bytes ++ encode e (content ++ to_le_bytes32 crc))
          ≡ (
            l',
            ok (
                FrameOutput.header (record { message_type = m; payload_len = length payload })
                ∷ (map FrameOutput.payload payload ++ FrameOutput.finished ∷ [])),
          ))
  feed_all-skip_preamble xor buffer e m payload len_bytes made big enc =
      let n = length payload in
      let fits : (n / 2 ^ 24 ≡ 0) × (length_field n ≡ len_bytes) =
        encode_length_inv n len_bytes big enc in
      let content = to_le_bytes32 (to_u32 m) ++ payload in
      let crc = crc32.finalize (crc32.update crc32.new content) in
      let wire = (encode-cobs buffer xor e (content ++ to_le_bytes32 crc) made).1 in
      let zeros : List ℕ = 0 ∷ 0 ∷ 0 ∷ 0 ∷ [] in
      (
        at crc32 FrameState.preamble (length_field n) (to_le_bytes32 (to_u32 m)) (to_le_bytes32 crc)
            crc32.new (Cobs.new xor),
        rw (← fits.1, wire)
            (Feeds-length crc32 n zeros zeros zeros crc32.new (Cobs.new xor) _ refl
              (omega (arith, fits.0))
              (Feeds-packet xor n m payload (length_field n) zeros zeros refl refl refl)),
      )

  -- A layer that waits for a frame reads any frame that was built as `FrameSink::send` builds it
  -- (preamble, encoded length, and the COBS encoding of type, payload and their checksum): with no
  -- error it gives the header, the payload and `Finished`, and waits for the next frame.
  pub feed_all-frame :
      (xor : ℕ) (l : Layer crc32) (buffer : List ℕ) (e : FrameEncoder) (m : MessageType)
      (payload len_bytes : List ℕ)
      → IsReady crc32 xor l
      → with_buffer_xor buffer xor ≡ some e
      → length payload < 2 ^ 64
      → encode_length (length payload) ≡ some len_bytes
      → let content = to_le_bytes32 (to_u32 m) ++ payload in
        let crc = crc32.finalize (crc32.update crc32.new content) in
        (l' : Layer crc32) × (feed_all crc32 l
            (preamble_bytes ++ (len_bytes ++ encode e (content ++ to_le_bytes32 crc)))
          ≡ (
            l',
            ok (
                FrameOutput.header (record { message_type = m; payload_len = length payload })
                ∷ (map FrameOutput.payload payload ++ FrameOutput.finished ∷ [])),
          ))
        × IsReady crc32 xor l'
  feed_all-frame xor l buffer e m payload len_bytes ready made big enc =
      let n = length payload in
      let fits : (n / 2 ^ 24 ≡ 0) × (length_field n ≡ len_bytes) =
        encode_length_inv n len_bytes big enc in
      let content = to_le_bytes32 (to_u32 m) ++ payload in
      let crc = crc32.finalize (crc32.update crc32.new content) in
      let l' =
        at crc32 FrameState.preamble (length_field n) (to_le_bytes32 (to_u32 m)) (to_le_bytes32 crc)
          crc32.new (Cobs.new xor) in
      let l0 =
        at crc32 FrameState.preamble l.length_bytes l.header_bytes l.crc_bytes crc32.new
          (Cobs.new xor) in
      let same : l0 ≡ l = λ i. record {
        preamble_layer = sym ready.preamble_is i;
        cobs_decoder = sym ready.cobs_is i;
        length_bytes = l.length_bytes;
        header_bytes = l.header_bytes;
        crc_bytes = l.crc_bytes;
        decode_state = sym ready.state_is i;
        crc = sym ready.crc_is i;
      } in
      let wire = (encode-cobs buffer xor e (content ++ to_le_bytes32 crc) made).1 in
      let fed =
        Feeds-preamble crc32 l.length_bytes l.header_bytes l.crc_bytes crc32.new (Cobs.new xor) _ (
          Feeds-length crc32 n l.length_bytes l.header_bytes l.crc_bytes crc32.new (Cobs.new xor) _
            ready.length_size (omega (arith, fits.0))
            (Feeds-packet xor n m payload (length_field n) l.header_bytes l.crc_bytes refl
              ready.header_size ready.crc_size)) in
      (
        l',
        rw (← fits.1, wire) (Feeds-same l' l0 l _ _ same fed),
        record {
          preamble_is = refl;
          cobs_is = refl;
          state_is = refl;
          crc_is = refl;
          length_size = refl;
          header_size = refl;
          crc_size = refl;
        },
      )

  -- A new layer waits for a frame.
  pub new-IsReady : (xor : ℕ) → IsReady crc32 xor (new crc32 xor)
  new-IsReady xor = record {
    preamble_is = refl;
    cobs_is = refl;
    state_is = refl;
    crc_is = refl;
    length_size = refl;
    header_size = refl;
    crc_size = refl;
  }
