-- ===== src/Frame/Layer/Feeds.antt =====
-- Sequences of calls of `FrameLayer::feed` (common/okboot-common/src/frame/decode.rs), and how the
-- layer follows the answers of the COBS decoder inside a packet.
use okeanos.Prelude.{
  ℕ, bit_xor, List, [], ◌∷◌, Outcome, ok, err, panic, ◌≡◌, refl, sym, ap, ◌∙◌, subst,
}
use okeanos.Prelude.Words.{bit_xor-bit_xor}
use okeanos.Frame.Crc.{Crc32}
use okeanos.Frame.Cobs
use okeanos.Frame.Cobs.{CobsDecoder, CobsState, finished, byte}
use okeanos.Frame.Cobs.Encoding.{masked}
use okeanos.Frame.Cobs.RoundTrip.{Decodes, stop, step, strip, Ends, xor-poll_plain}
use okeanos.Frame.Layer.{FrameError, FrameOutput, Layer, Fed, feed, behind_cobs}

-- The outputs without `Skip`.
abbrev pub says : FrameOutput → List FrameOutput → List FrameOutput
says FrameOutput.skip outs = outs
says (FrameOutput.header h) outs = FrameOutput.header h ∷ outs
says (FrameOutput.payload b) outs = FrameOutput.payload b ∷ outs
says FrameOutput.finished outs = FrameOutput.finished ∷ outs
says FrameOutput.legacy outs = FrameOutput.legacy ∷ outs
says (FrameOutput.legacy_print_string_byte n b) outs =
    FrameOutput.legacy_print_string_byte n b ∷ outs

module _ (crc32 : Crc32) where
  abbrev pub cons_output :
      FrameOutput
      → Layer crc32 × Outcome FrameError (List FrameOutput)
      → Layer crc32 × Outcome FrameError (List FrameOutput)
  cons_output o (l, ok outs) = (l, ok (says o outs))
  cons_output o (l, err e) = (l, err e)
  cons_output o (l, panic) = (l, panic)

  abbrev pub collect :
      Fed crc32
      → (Layer crc32 → Layer crc32 × Outcome FrameError (List FrameOutput))
      → Layer crc32 × Outcome FrameError (List FrameOutput)
  collect (l, ok o) rest = cons_output o (rest l)
  collect (l, err e) rest = (l, err e)
  collect (l, panic) rest = (l, panic)

  -- Feeds byte after byte, up to the first error; the outputs that are not `Skip`.
  unfoldable pub feed_all :
      Layer crc32 → List ℕ → Layer crc32 × Outcome FrameError (List FrameOutput)
  feed_all l [] = (l, ok [])
  feed_all l (b ∷ bytes) = collect (feed crc32 l b) (λ l'. feed_all l' bytes)

  -- `bytes` takes the layer from `l` to `l'` with no error.
  abbrev pub Feeds : Layer crc32 → Layer crc32 → List ℕ → List FrameOutput → Type 0
  Feeds l' l bytes outs = feed_all l bytes ≡ (l', ok outs)

  pub Feeds-nil : (l : Layer crc32) → Feeds l l [] []
  unfolding feed_all
  Feeds-nil l = refl

  pub Feeds-cons :
      {l' : Layer crc32} (l l1 : Layer crc32) (b : ℕ) (bytes : List ℕ) (o : FrameOutput)
      {outs : List FrameOutput}
      → feed crc32 l b ≡ (l1, ok o)
      → Feeds l' l1 bytes outs
      → Feeds l' l (b ∷ bytes) (says o outs)
  unfolding feed_all
  Feeds-cons l l1 b bytes o call rest = rw (call, rest) refl

  -- In a packet the layer polls the COBS decoder and hands its answer to `k`; it does nothing on
  -- `Skip`.
  pub record InPacket (l : Layer crc32) (k : Layer crc32 → CobsState → Fed crc32) : Type 0 where
    pub feeds :
        (d : CobsDecoder) (b : ℕ)
        → feed crc32 (record l { cobs_decoder = d }) b
          ≡ behind_cobs crc32 (record l { cobs_decoder = d }) (Cobs.poll d b) k
    pub skips :
        (d : CobsDecoder)
        → k (record l { cobs_decoder = d }) Cobs.skip
          ≡ (record l { cobs_decoder = d }, ok FrameOutput.skip)

  -- The input up to the next answer `s` that is not `Skip`, and what is left of it.
  pub record Next (l : Layer crc32) (k : Layer crc32 → CobsState → Fed crc32) (xor : ℕ)
      (d' d : CobsDecoder) (bytes : List ℕ) (s : CobsState) (t : List CobsState) : Type 0 where
    pub after : CobsDecoder
    pub after_xor : after.xor ≡ xor
    pub left : List ℕ
    pub out : List CobsState
    pub decodes : Decodes d' after left out
    pub answers : strip out ≡ t
    pub ends : Ends (s ∷ out)
    pub go :
        (l' l1 : Layer crc32) (o : FrameOutput) (outs : List FrameOutput)
        → k (record l { cobs_decoder = after }) s ≡ (l1, ok o)
        → Feeds l' l1 (masked xor left) outs
        → Feeds l' (record l { cobs_decoder = d }) (masked xor bytes) (says o outs)

  module _ (l : Layer crc32) (k : Layer crc32 → CobsState → Fed crc32) (p : InPacket l k)
      (xor : ℕ) where
    poll_masked :
        (d d1 : CobsDecoder) (b : ℕ) (s : CobsState)
        → d.xor ≡ xor
        → Cobs.poll_plain d b ≡ (d1, ok s)
        → feed crc32 (record l { cobs_decoder = d }) (bit_xor b xor)
          ≡ k (record l { cobs_decoder = d1 }) s
    poll_masked d d1 b s e call =
        let plain : Cobs.poll d (bit_xor b xor) ≡ (d1, ok s) =
          unfold Cobs.poll in (rw (← e, bit_xor-bit_xor) call) in
        p.feeds d (bit_xor b xor)
        ∙ ap (λ r. behind_cobs crc32 (record l { cobs_decoder = d }) r k) plain

    after_poll_xor :
        (d d1 : CobsDecoder) (b : ℕ) (s : CobsState)
        → d.xor ≡ xor
        → Cobs.poll_plain d b ≡ (d1, ok s)
        → d1.xor ≡ xor
    after_poll_xor d d1 b s e call = sym (ap (λ r. r.0.xor) call) ∙ xor-poll_plain d b ∙ e

    -- The first byte already has the answer.
    next_here :
        {d' d d1 : CobsDecoder} {b : ℕ} {bytes : List ℕ} {s : CobsState} {out t : List CobsState}
        → d.xor ≡ xor
        → Cobs.poll_plain d b ≡ (d1, ok s)
        → Decodes d' d1 bytes out
        → strip out ≡ t
        → Ends (s ∷ out)
        → Next l k xor d' d (b ∷ bytes) s t
    next_here {d' = d'} {d} {d1} {b} {bytes} {s} {out} e call rest h ends = record {
      after = d1;
      after_xor = after_poll_xor d d1 b s e call;
      left = bytes;
      out = out;
      decodes = rest;
      answers = h;
      ends = ends;
      go = λ l' l1 o outs q fed.
          Feeds-cons (record l { cobs_decoder = d }) l1 (bit_xor b xor) (masked xor bytes) o
            (poll_masked d d1 b s e call ∙ q) fed;
    }

    pub next :
        {d' d : CobsDecoder} {bytes : List ℕ} {out : List CobsState} (s : CobsState)
        (t : List CobsState)
        → d.xor ≡ xor
        → Decodes d' d bytes out
        → strip out ≡ s ∷ t
        → Ends out
        → Next l k xor d' d bytes s t
    next s t e stop h ends = absurd (cc)
    next {d' = d'} s t e (step {d} {d1} {b} {bytes} {s = Cobs.skip} {out} call rest) h ends =
        let n = next s t (after_poll_xor d d1 b Cobs.skip e call) rest h ends in
        record {
          after = n.after;
          after_xor = n.after_xor;
          left = n.left;
          out = n.out;
          decodes = n.decodes;
          answers = n.answers;
          ends = n.ends;
          go = λ l' l1 o outs q fed.
              Feeds-cons (record l { cobs_decoder = d }) (record l { cobs_decoder = d1 })
                (bit_xor b xor) (masked xor bytes) FrameOutput.skip
                (poll_masked d d1 b Cobs.skip e call ∙ p.skips d1) (n.go l' l1 o outs q fed);
        }
    next {d' = d'} s t e (step {d} {d1} {b} {bytes} {s = finished} {out} call rest) h ends =
        subst (λ u. Next l k xor d' d (b ∷ bytes) u t) (cc) (next_here e call rest (cc) ends)
    next {d' = d'} s t e (step {d} {d1} {b} {bytes} {s = byte c} {out} call rest) h ends =
        subst (λ u. Next l k xor d' d (b ∷ bytes) u t) (cc) (next_here e call rest (cc) ends)
