-- ===== src/Frame/Layer/Packet.antt =====
-- Inside a packet for `FrameLayer` of common/okboot-common/src/frame/decode.rs: the message type
-- and the payload.
use okeanos.Prelude.{
  ℕ, ◌+◌, ◌/◌, ◌%◌, ◌^◌, ◌≤◌, ◌<◌, List, [], ◌∷◌, ◌++◌, map, append_assoc, append-nil, length, set,
  ok, ◌≡◌, refl, sym, ap, subst, ◌∙◌, arith,
}
use okeanos.Prelude.Words.{to_le_bytes32, from_le_bytes32}
use okeanos.Frame.Message.{MessageType, to_u32, try_from}
use okeanos.Frame.Message.Laws.{try_from-to_u32, to_u32-lt}
use okeanos.Frame.Crc.{Crc32, write_u8}
use okeanos.Frame.Cobs.{CobsDecoder, CobsState, byte}
use okeanos.Frame.Cobs.Encoding.{masked}
use okeanos.Frame.Cobs.RoundTrip.{Decodes, strip, Ends}
use okeanos.Frame.Layer.{
  FrameHeader, FrameState, FrameOutput, Layer, feed, feed_header, feed_body, decode_header_bytes,
  header_of, header_done, le_word,
}
use okeanos.Frame.Layer.Feeds.{Feeds, InPacket, next}
use okeanos.Frame.Layer.Start.{at}

module _ (crc32 : Crc32) where
  -- The checksum's state after some bytes, one at a time.
  abbrev pub writes : crc32.Hasher → List ℕ → crc32.Hasher
  writes h [] = h
  writes h (b ∷ bs) = writes (write_u8 crc32 h b) bs

  pub writes-update :
      (h : crc32.Hasher) (b : ℕ) (xs ys : List ℕ)
      → writes (crc32.update h (b ∷ xs)) ys ≡ crc32.update h (b ∷ (xs ++ ys))
  writes-update h b xs [] = ap (λ l. crc32.update h (b ∷ l)) (sym (append-nil xs))
  writes-update h b xs (y ∷ ys) =
      ap (λ k. writes k ys) (crc32.update-update h (b ∷ xs) (y ∷ []))
      ∙ writes-update h b (xs ++ y ∷ []) ys
      ∙ ap (λ l. crc32.update h (b ∷ l)) (append_assoc xs (y ∷ []) ys)

  InPacket-header :
      (i n : ℕ) (lb hb cb : List ℕ) (h : crc32.Hasher) (d : CobsDecoder)
      → InPacket crc32
          (at crc32 (FrameState.packet_header i n) lb hb cb h d)
          (λ l s. feed_header crc32 l i n s)
  unfolding feed feed_header
  InPacket-header i n lb hb cb h d = record { feeds = λ d' b. refl; skips = λ d'. refl }

  pub InPacket-body :
      (i : ℕ) (hdr : FrameHeader) (lb hb cb : List ℕ) (h : crc32.Hasher) (d : CobsDecoder)
      → InPacket crc32
          (at crc32 (FrameState.packet_body i hdr) lb hb cb h d)
          (λ l s. feed_body crc32 l i hdr s)
  unfolding feed feed_body
  InPacket-body i hdr lb hb cb h d = record { feeds = λ d' b. refl; skips = λ d'. refl }

  decode_header_lem :
      (l : Layer crc32) (n : ℕ) (m : MessageType)
      → l.header_bytes ≡ to_le_bytes32 (to_u32 m)
      → decode_header_bytes crc32 l n ≡ ok (record { message_type = m; payload_len = n })
  unfolding decode_header_bytes
  decode_header_lem l n m e =
      let word : from_le_bytes32 (to_u32 m % 256) ((to_u32 m / 2 ^ 8) % 256)
            ((to_u32 m / 2 ^ 16) % 256) ((to_u32 m / 2 ^ 24) % 256)
          ≡ to_u32 m =
        omega (arith, to_u32-lt m) in
      let q : le_word crc32 l.header_bytes ≡ to_u32 m = ap (le_word crc32) e ∙ word in
      ap (λ w. header_of w n (try_from w)) q ∙ ap (header_of (to_u32 m) n) (try_from-to_u32 m)

  header_fed :
      (n b : ℕ) (m : MessageType) (lb hb cb : List ℕ) (h : crc32.Hasher) (d : CobsDecoder)
      → set hb 3 b ≡ to_le_bytes32 (to_u32 m)
      → let hdr : FrameHeader = record { message_type = m; payload_len = n } in
        feed_header crc32 (at crc32 (FrameState.packet_header 3 n) lb hb cb h d) 3 n (byte b) ≡ (
          at crc32
              (FrameState.packet_body 4 hdr)
              lb
              (to_le_bytes32 (to_u32 m))
              cb
              (write_u8 crc32 h b)
              d,
          ok (FrameOutput.header hdr),
        )
  unfolding feed_header
  header_fed n b m lb hb cb h d e =
      let l2 =
        at crc32 (FrameState.packet_header 4 n) lb (to_le_bytes32 (to_u32 m)) cb
          (write_u8 crc32 h b) d in
      rw e (ap (header_done crc32 l2 3) (decode_header_lem l2 n m refl))

  -- What is left behind some part of a packet, and how the layer gets there: from the state `l`
  -- (over the decoder `d`) to `l1`, with the outputs `said`.
  pub record Behind (xor : ℕ) (d' d : CobsDecoder) (bytes : List ℕ) (t : List CobsState)
      (l l1 : CobsDecoder → Layer crc32) (said : List FrameOutput) : Type 0 where
    pub after : CobsDecoder
    pub after_xor : after.xor ≡ xor
    pub left : List ℕ
    pub out : List CobsState
    pub decodes : Decodes d' after left out
    pub answers : strip out ≡ t
    pub ends : Ends out
    pub go :
        (l' : Layer crc32) (outs : List FrameOutput)
        → Feeds crc32 l' (l1 after) (masked xor left) outs
        → Feeds crc32 l' (l d) (masked xor bytes) (said ++ outs)

  module _ (xor : ℕ) (d' : CobsDecoder) (lb cb : List ℕ) where
    -- One byte of the header that is not the last.
    pub header_byte :
        (i n b : ℕ) (hb : List ℕ) (h : crc32.Hasher) (d : CobsDecoder) (bytes : List ℕ)
        (out t : List CobsState)
        → i < 3
        → d.xor ≡ xor
        → Decodes d' d bytes out
        → strip out ≡ byte b ∷ t
        → Ends out
        → Behind xor d' d bytes t
            (at crc32 (FrameState.packet_header i n) lb hb cb h)
            (at crc32 (FrameState.packet_header (i + 1) n) lb (set hb i b) cb (write_u8 crc32 h b))
            []
    unfolding feed_header
    header_byte i n b hb h d bytes out t lt e dec ans ends =
        let x =
          next crc32 (at crc32 (FrameState.packet_header i n) lb hb cb h d)
            (λ l s. feed_header crc32 l i n s) (InPacket-header i n lb hb cb h d) xor (byte b) t e
            dec ans ends in
        record {
          after = x.after;
          after_xor = x.after_xor;
          left = x.left;
          out = x.out;
          decodes = x.decodes;
          answers = x.answers;
          ends = x.ends;
          go = λ l' outs fed. x.go l' _ FrameOutput.skip outs (ground arith) fed;
        }

    pub header_last :
        (n b : ℕ) (m : MessageType) (hb : List ℕ) (h : crc32.Hasher) (d : CobsDecoder)
        (bytes : List ℕ) (out t : List CobsState)
        → set hb 3 b ≡ to_le_bytes32 (to_u32 m)
        → d.xor ≡ xor
        → Decodes d' d bytes out
        → strip out ≡ byte b ∷ t
        → Ends out
        → let hdr : FrameHeader = record { message_type = m; payload_len = n } in
          Behind xor d' d bytes t
            (at crc32 (FrameState.packet_header 3 n) lb hb cb h)
            (at crc32
              (FrameState.packet_body 4 hdr)
              lb
              (to_le_bytes32 (to_u32 m))
              cb
              (write_u8 crc32 h b))
            (FrameOutput.header hdr ∷ [])
    header_last n b m hb h d bytes out t set_is e dec ans ends =
        let x =
          next crc32 (at crc32 (FrameState.packet_header 3 n) lb hb cb h d)
            (λ l s. feed_header crc32 l 3 n s) (InPacket-header 3 n lb hb cb h d) xor (byte b) t e
            dec ans ends in
        record {
          after = x.after;
          after_xor = x.after_xor;
          left = x.left;
          out = x.out;
          decodes = x.decodes;
          answers = x.answers;
          ends = x.ends;
          go = λ l' outs fed.
              x.go l' _ (FrameOutput.header _) outs (header_fed n b m lb hb cb h x.after set_is)
                fed;
        }

    pub then-Behind :
        {d : CobsDecoder} {bytes : List ℕ} {t1 t2 : List CobsState}
        {l l1 l2 : CobsDecoder → Layer crc32} {said1 said2 : List FrameOutput}
        (x : Behind xor d' d bytes t1 l l1 said1)
        → Behind xor d' x.after x.left t2 l1 l2 said2
        → Behind xor d' d bytes t2 l l2 (said1 ++ said2)
    then-Behind {d} {bytes} {t1} {t2} {l} {l1} {l2} {said1} {said2} x y = record {
      after = y.after;
      after_xor = y.after_xor;
      left = y.left;
      out = y.out;
      decodes = y.decodes;
      answers = y.answers;
      ends = y.ends;
      go = λ l' outs fed.
          subst (Feeds crc32 l' (l d) (masked xor bytes)) (sym (append_assoc said1 said2 outs))
            (x.go l' (said2 ++ outs) (y.go l' outs fed));
    }

    -- One byte of the payload.
    pub payload_byte :
        (i : ℕ) (hdr : FrameHeader) (b : ℕ) (hb : List ℕ) (h : crc32.Hasher) (d : CobsDecoder)
        (bytes : List ℕ) (out t : List CobsState)
        → i < 4 + hdr.payload_len
        → d.xor ≡ xor
        → Decodes d' d bytes out
        → strip out ≡ byte b ∷ t
        → Ends out
        → Behind xor d' d bytes t
            (at crc32 (FrameState.packet_body i hdr) lb hb cb h)
            (at crc32 (FrameState.packet_body (i + 1) hdr) lb hb cb (write_u8 crc32 h b))
            (FrameOutput.payload b ∷ [])
    unfolding feed_body
    payload_byte i hdr b hb h d bytes out t lt e dec ans ends =
        let x =
          next crc32 (at crc32 (FrameState.packet_body i hdr) lb hb cb h d)
            (λ l s. feed_body crc32 l i hdr s) (InPacket-body i hdr lb hb cb h d) xor (byte b) t e
            dec ans ends in
        record {
          after = x.after;
          after_xor = x.after_xor;
          left = x.left;
          out = x.out;
          decodes = x.decodes;
          answers = x.answers;
          ends = x.ends;
          go = λ l' outs fed. x.go l' _ (FrameOutput.payload b) outs (ground arith) fed;
        }

    -- The whole payload.
    pub payload_bytes :
        (ps : List ℕ) (i j : ℕ) (hdr : FrameHeader) (hb : List ℕ) (h : crc32.Hasher)
        (d : CobsDecoder) (bytes : List ℕ) (out t : List CobsState)
        → j ≡ i + length ps
        → j ≤ 4 + hdr.payload_len
        → d.xor ≡ xor
        → Decodes d' d bytes out
        → strip out ≡ map byte ps ++ t
        → Ends out
        → Behind xor d' d bytes t
            (at crc32 (FrameState.packet_body i hdr) lb hb cb h)
            (at crc32 (FrameState.packet_body j hdr) lb hb cb (writes h ps))
            (map FrameOutput.payload ps)
    payload_bytes [] i j hdr hb h d bytes out t ij le e dec ans ends = record {
      after = d;
      after_xor = e;
      left = bytes;
      out = out;
      decodes = dec;
      answers = ans;
      ends = ends;
      go = λ l' outs fed.
          subst
            (λ k.
              Feeds crc32 l' (at crc32 (FrameState.packet_body k hdr) lb hb cb h d)
                (masked xor bytes) outs)
            (omega arith) fed;
    }
    payload_bytes (b ∷ ps) i j hdr hb h d bytes out t ij le e dec ans ends =
        let x =
          payload_byte i hdr b hb h d bytes out (map byte ps ++ t) (omega arith) e dec ans ends in
        then-Behind x (
          payload_bytes ps (i + 1) j hdr hb (write_u8 crc32 h b) x.after x.left x.out t
            (omega arith) le x.after_xor x.decodes x.answers x.ends)
