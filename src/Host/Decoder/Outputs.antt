-- ===== src/Host/Decoder/Outputs.antt =====
-- host/okdude/src/v2.rs, `Decoder`: it acts on the outputs of the frame layer.
use okeanos.Prelude.{
  ℕ, Bool, true, false, List, [], ◌∷◌, Option, none, some, All, if◌then◌else◌, Outcome,
  ok-injective, ok, err, panic, ◌≡◌, refl, sym, ap, ap₂, subst, ◌∙◌,
}
use okeanos.Frame.Crc.{Crc32}
use okeanos.Frame.Layer.{FrameHeader, FrameError, FrameOutput, Layer, Fed, feed}
use okeanos.Frame.Layer.Feeds.{says, feed_all, collect, cons_output}
use okeanos.Host.Decoder.{
  DecodeError, State, is_print_string, on_header, on_payload, on_finished, on_output, on_fed,
  and_then, process_incoming_bytes,
}

-- An output that belongs to a packet.
abbrev pub IsOfPacket : FrameOutput → Type 0
IsOfPacket (FrameOutput.legacy_print_string_byte n b) = ⊥
IsOfPacket o = Unit

module _ (crc32 : Crc32) where
  abbrev pub Result : Type 0
  Result = State crc32 × Outcome DecodeError (Unit {0})

  abbrev pub with : Layer crc32 → Result → Result
  with l (d, r) = (record d { decoder = l }, r)

  unfoldable pub on_outputs : State crc32 → List FrameOutput → Result
  on_outputs d [] = (d, ok tt)
  on_outputs d (o ∷ outs) = and_then crc32 (on_output crc32 d o) (λ d'. on_outputs d' outs)

  on_header-with :
      (l : Layer crc32) (d : State crc32) (h : FrameHeader) (o : Option FrameHeader)
      → on_header crc32 (record d { decoder = l }) h o ≡ with l (on_header crc32 d h o)
  on_header-with l d h none = refl
  on_header-with l d h (some h') = refl

  on_payload-with :
      (l : Layer crc32) (d : State crc32) (b : ℕ) (o : Option FrameHeader)
      → on_payload crc32 (record d { decoder = l }) b o ≡ with l (on_payload crc32 d b o)
  on_payload-with l d b none = refl
  on_payload-with l d b (some h) = refl

  if-with :
      (l : Layer crc32) (b : Bool) (x y : Result)
      → (if b then with l x else with l y) ≡ with l (if b then x else y)
  if-with l true x y = refl
  if-with l false x y = refl

  on_finished-with :
      (l : Layer crc32) (d : State crc32) (o : Option FrameHeader)
      → on_finished crc32 (record d { decoder = l }) o ≡ with l (on_finished crc32 d o)
  on_finished-with l d none = refl
  on_finished-with l d (some h) = if-with l (is_print_string h.message_type) (_, ok tt) (_, ok tt)

  on_output-with :
      (l : Layer crc32) (d : State crc32) (o : FrameOutput)
      → IsOfPacket o
      → on_output crc32 (record d { decoder = l }) o ≡ with l (on_output crc32 d o)
  unfolding on_output
  on_output-with l d FrameOutput.skip h = refl
  on_output-with l d (FrameOutput.header h') h = on_header-with l d h' d.frame_header
  on_output-with l d (FrameOutput.payload b) h = on_payload-with l d b d.frame_header
  on_output-with l d FrameOutput.finished h = on_finished-with l d d.frame_header
  on_output-with l d FrameOutput.legacy h = refl
  on_output-with l d (FrameOutput.legacy_print_string_byte n b) h = absurd h

  and_then-with :
      (l : Layer crc32) (r : Result) (k : State crc32 → Result)
      → ((d : State crc32) → k (record d { decoder = l }) ≡ with l (k d))
      → and_then crc32 (with l r) k ≡ with l (and_then crc32 r k)
  and_then-with l (d, ok u) k h = h d
  and_then-with l (d, err e) k h = refl
  and_then-with l (d, panic) k h = refl

  on_outputs-with :
      (l : Layer crc32) (d : State crc32) (outs : List FrameOutput)
      → All IsOfPacket outs
      → on_outputs (record d { decoder = l }) outs ≡ with l (on_outputs d outs)
  unfolding on_outputs
  on_outputs-with l d [] h = refl
  on_outputs-with l d (o ∷ outs) h =
      ap (λ r. and_then crc32 r (λ d'. on_outputs d' outs)) (on_output-with l d o h.0)
      ∙ and_then-with l (on_output crc32 d o) (λ d'. on_outputs d' outs)
          (λ d'. on_outputs-with l d' outs h.1)

  -- A byte that is fed with no error: its output is the first, unless it is `Skip`.
  pub feed_all-cons :
      (l l' : Layer crc32) (b : ℕ) (bytes : List ℕ) (outs : List FrameOutput)
      → feed_all crc32 l (b ∷ bytes) ≡ (l', ok outs)
      → (l1 : Layer crc32) × (o : FrameOutput) × (outs1 : List FrameOutput) × (feed crc32 l b
          ≡ (l1, ok o))
        × (feed_all crc32 l1 bytes ≡ (l', ok outs1))
        × (says o outs1 ≡ outs)
  unfolding feed_all
  feed_all-cons l l' b bytes outs run = by_fed (feed crc32 l b) refl run
    where
      by_rest :
          (l1 : Layer crc32) (o : FrameOutput)
          (r : Layer crc32 × Outcome FrameError (List FrameOutput))
          → feed crc32 l b ≡ (l1, ok o)
          → feed_all crc32 l1 bytes ≡ r
          → cons_output crc32 o r ≡ (l', ok outs)
          → (l1 : Layer crc32) × (o : FrameOutput) × (outs1 : List FrameOutput) × (feed crc32 l b
              ≡ (l1, ok o))
            × (feed_all crc32 l1 bytes ≡ (l', ok outs1))
            × (says o outs1 ≡ outs)
      by_rest l1 o (l2, ok outs1) fed rest run = (
        l1,
        o,
        outs1,
        fed,
        rest ∙ ap (λ r. (r.0, ok outs1)) run,
        ok-injective _ refl (ap (λ r. r.1) run),
      )
      by_rest l1 o (l2, err e) fed rest run = cc
      by_rest l1 o (l2, panic) fed rest run = cc

      by_fed :
          (f : Fed crc32)
          → feed crc32 l b ≡ f
          → collect crc32 f (λ l1. feed_all crc32 l1 bytes) ≡ (l', ok outs)
          → (l1 : Layer crc32) × (o : FrameOutput) × (outs1 : List FrameOutput) × (feed crc32 l b
              ≡ (l1, ok o))
            × (feed_all crc32 l1 bytes ≡ (l', ok outs1))
            × (says o outs1 ≡ outs)
      by_fed (l1, ok o) fed run = by_rest l1 o (feed_all crc32 l1 bytes) fed refl run
      by_fed (l1, err e) fed run = cc
      by_fed (l1, panic) fed run = cc

  on_outputs-says :
      (d : State crc32) (o : FrameOutput) (outs : List FrameOutput)
      → on_outputs d (says o outs) ≡ and_then crc32 (on_output crc32 d o) (λ d'. on_outputs d' outs)
  unfolding on_outputs on_output
  on_outputs-says d FrameOutput.skip outs = refl
  on_outputs-says d (FrameOutput.header h) outs = refl
  on_outputs-says d (FrameOutput.payload b) outs = refl
  on_outputs-says d FrameOutput.finished outs = refl
  on_outputs-says d FrameOutput.legacy outs = refl
  on_outputs-says d (FrameOutput.legacy_print_string_byte n b) outs = refl

  All-says :
      (o : FrameOutput) (outs : List FrameOutput)
      → All IsOfPacket (says o outs)
      → IsOfPacket o × All IsOfPacket outs
  All-says FrameOutput.skip outs h = (tt, h)
  All-says (FrameOutput.header h') outs h = h
  All-says (FrameOutput.payload b) outs h = h
  All-says FrameOutput.finished outs h = h
  All-says FrameOutput.legacy outs h = h
  All-says (FrameOutput.legacy_print_string_byte n b) outs h = absurd h.0

  behind :
      (l1 : Layer crc32) (r : Result) (k k' : State crc32 → Result) (d' : State crc32)
      (l' : Layer crc32)
      → and_then crc32 r k ≡ (d', ok tt)
      → ((d1 : State crc32)
          → k d1 ≡ (d', ok tt)
          → k' (record d1 { decoder = l1 }) ≡ (record d' { decoder = l' }, ok tt))
      → and_then crc32 (with l1 r) k' ≡ (record d' { decoder = l' }, ok tt)
  behind l1 (d1, ok u) k k' d' l' run rest = rest d1 run
  behind l1 (d1, err e) k k' d' l' run rest = cc
  behind l1 (d1, panic) k k' d' l' run rest = cc

  -- Where the layer feeds on the bytes with no error, the decoder acts on the outputs.
  pub process-feed_all :
      (bytes : List ℕ) (d d' : State crc32) (l' : Layer crc32) (outs : List FrameOutput)
      → feed_all crc32 d.decoder bytes ≡ (l', ok outs)
      → All IsOfPacket outs
      → on_outputs d outs ≡ (d', ok tt)
      → process_incoming_bytes crc32 d bytes ≡ (record d' { decoder = l' }, ok tt)
  unfolding process_incoming_bytes feed_all on_outputs
  process-feed_all [] d d' l' outs fed packet run =
      let none_left : [] ≡ outs = ok-injective _ refl (ap (λ r. r.1) fed) in
      let same : on_outputs d [] ≡ (d', ok tt) =
        subst (λ os. on_outputs d os ≡ (d', ok tt)) (sym none_left) run in
      ap₂ (λ l (e : State crc32). (record e { decoder = l }, ok tt)) (ap (λ r. r.0) fed)
        (ap (λ r. r.0) same)
  process-feed_all (b ∷ bytes) d d' l' outs fed packet run =
      let (l1, o, outs1, call, rest, said) = feed_all-cons d.decoder l' b bytes outs fed in
      let packet' = All-says o outs1 (subst (All IsOfPacket) (sym said) packet) in
      let run' : and_then crc32 (on_output crc32 d o) (λ e. on_outputs e outs1) ≡ (d', ok tt) =
        sym (on_outputs-says d o outs1) ∙ ap (on_outputs d) said ∙ run in
      ap (λ f. and_then crc32 (on_fed crc32 d f) (λ e. process_incoming_bytes crc32 e bytes)) call
      ∙ ap (λ r. and_then crc32 r (λ e. process_incoming_bytes crc32 e bytes))
          (on_output-with l1 d o packet'.0)
      ∙ behind l1 (on_output crc32 d o) (λ e. on_outputs e outs1)
          (λ e. process_incoming_bytes crc32 e bytes) d' l' run'
          (λ d1 same.
            process-feed_all bytes (record d1 { decoder = l1 }) (record d' { decoder = l1 }) l'
              outs1 rest packet'.1 (on_outputs-with l1 d1 outs1 packet'.1 ∙ ap (with l1) same))
