-- ===== src/Frame/Layer/Start.antt =====
-- The start of a frame for `FrameLayer` of common/okboot-common/src/frame/decode.rs: the preamble
-- and the length field.
use okeanos.Prelude.{
  ℕ, ◌+◌, ◌*◌, ◌/◌, ◌%◌, ◌^◌, ◌<◌, bit_or, List, [], ◌∷◌, ◌++◌, length, set, ok, ◌≡◌, refl, arith,
}
use okeanos.Frame.Message.{preamble_bytes}
use okeanos.Frame.Crc.{Crc32}
use okeanos.Frame.Preamble
use okeanos.Frame.Length.{length_field, sextet_lem, bit_or_sextets}
use okeanos.Frame.Cobs
use okeanos.Frame.Cobs.{CobsDecoder, CobsState, finished, byte}
use okeanos.Frame.Layer.{FrameState, FrameOutput, Layer, feed, feed_preamble, feed_length}
use okeanos.Frame.Layer.Feeds.{Feeds, Feeds-cons, feed_all}

-- An array of four places, with all of them written in order.
pub set_all :
    (xs : List ℕ) (a b c d : ℕ)
    → length xs ≡ 4
    → set (set (set (set xs 0 a) 1 b) 2 c) 3 d ≡ a ∷ b ∷ c ∷ d ∷ []
set_all [] a b c d h = absurd (omega arith)
set_all (w ∷ []) a b c d h = absurd (omega arith)
set_all (w ∷ x ∷ []) a b c d h = absurd (omega arith)
set_all (w ∷ x ∷ y ∷ []) a b c d h = absurd (omega arith)
set_all (w ∷ x ∷ y ∷ z ∷ []) a b c d h = refl
set_all (w ∷ x ∷ y ∷ z ∷ v ∷ xs) a b c d h = absurd (omega arith)

module _ (crc32 : Crc32) where
  -- A layer that is not in a preamble.
  abbrev pub at : FrameState → List ℕ → List ℕ → List ℕ → crc32.Hasher → CobsDecoder → Layer crc32
  at s lb hb cb h d = record {
    preamble_layer = Preamble.new;
    cobs_decoder = d;
    length_bytes = lb;
    header_bytes = hb;
    crc_bytes = cb;
    decode_state = s;
    crc = h;
  }

  -- The layer waits for a frame.
  pub record IsReady (xor : ℕ) (l : Layer crc32) : Type 0 where
    pub preamble_is : l.preamble_layer ≡ Preamble.new
    pub cobs_is : l.cobs_decoder ≡ Cobs.new xor
    pub state_is : l.decode_state ≡ FrameState.preamble
    pub crc_is : l.crc ≡ crc32.new
    pub length_size : length l.length_bytes ≡ 4
    pub header_size : length l.header_bytes ≡ 4
    pub crc_size : length l.crc_bytes ≡ 4

  pub Feeds-preamble :
      (lb hb cb : List ℕ) (h : crc32.Hasher) (d : CobsDecoder) {l' : Layer crc32}
      {outs : List FrameOutput} (bytes : List ℕ)
      → Feeds crc32 l' (at (FrameState.length 0) lb hb cb h d) bytes outs
      → Feeds crc32 l' (at FrameState.preamble lb hb cb h d) (preamble_bytes ++ bytes) outs
  unfolding feed_all feed feed_preamble Preamble.poll
  Feeds-preamble lb hb cb h d bytes rest = rw rest refl

  length_step :
      (i s : ℕ) (lb hb cb : List ℕ) (h : crc32.Hasher) (d : CobsDecoder)
      → i < 3
      → s < 64
      → feed crc32 (at (FrameState.length i) lb hb cb h d) (s + 192)
        ≡ (at (FrameState.length (i + 1)) (set lb i (s + 192)) hb cb h d, ok FrameOutput.skip)
  unfolding feed feed_length
  length_step i s lb hb cb h d lt lt' = ground (arith, sextet_lem s lt')

  length_last :
      (s0 s1 s2 s3 : ℕ) (lb hb cb : List ℕ) (h : crc32.Hasher) (d : CobsDecoder)
      → length lb ≡ 4
      → s0 < 64
      → s1 < 64
      → s2 < 64
      → s3 < 64
      → feed crc32
          (at
            (FrameState.length 3)
            (set (set (set lb 0 (s0 + 192)) 1 (s1 + 192)) 2 (s2 + 192))
            hb
            cb
            h
            d)
          (s3 + 192)
        ≡ (
          at
              (FrameState.packet_header 0
                (bit_or (bit_or (bit_or s0 (s1 * 2 ^ 6)) (s2 * 2 ^ 12)) (s3 * 2 ^ 18)))
              ((s0 + 192) ∷ (s1 + 192) ∷ (s2 + 192) ∷ (s3 + 192) ∷ [])
              hb
              cb
              h
              d,
          ok FrameOutput.skip,
        )
  unfolding feed feed_length
  length_last s0 s1 s2 s3 lb hb cb h d size l0 l1 l2 l3 =
      rw
        (
          (sextet_lem s3 l3).1,
          set_all lb (s0 + 192) (s1 + 192) (s2 + 192) (s3 + 192) size,
          (sextet_lem s0 l0).2,
          (sextet_lem s1 l1).2,
          (sextet_lem s2 l2).2,
          (sextet_lem s3 l3).2,
        )
        refl

  -- The length field takes the layer to the header of a packet of that length.
  pub Feeds-length :
      (n : ℕ) (lb hb cb : List ℕ) (h : crc32.Hasher) (d : CobsDecoder) {l' : Layer crc32}
      {outs : List FrameOutput} (bytes : List ℕ)
      → length lb ≡ 4
      → n < 2 ^ 24
      → Feeds crc32 l' (at (FrameState.packet_header 0 n) (length_field n) hb cb h d) bytes outs
      → Feeds crc32 l' (at (FrameState.length 0) lb hb cb h d) (length_field n ++ bytes) outs
  Feeds-length n lb hb cb h d {l'} {outs} bytes size lt rest =
      let s0 = n % 64 in
      let s1 = (n / 2 ^ 6) % 64 in
      let s2 = (n / 2 ^ 12) % 64 in
      let s3 = (n / 2 ^ 18) % 64 in
      Feeds-cons crc32 _ _ (s0 + 192) _ FrameOutput.skip
        (length_step 0 s0 lb hb cb h d (omega arith) (omega arith))
        (Feeds-cons crc32 _ _ (s1 + 192) _ FrameOutput.skip
          (length_step 1 s1 _ hb cb h d (omega arith) (omega arith))
          (Feeds-cons crc32 _ _ (s2 + 192) _ FrameOutput.skip
            (length_step 2 s2 _ hb cb h d (omega arith) (omega arith))
            (Feeds-cons crc32 _ _ (s3 + 192) bytes FrameOutput.skip
              (length_last s0 s1 s2 s3 lb hb cb h d size (omega arith) (omega arith) (omega arith)
                (omega arith))
              (rw (bit_or_sextets n lt) rest))))
