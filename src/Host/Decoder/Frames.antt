-- ===== src/Host/Decoder/Frames.antt =====
-- host/okdude/src/v2.rs, `Decoder`: the frames that the device sends arrive as its messages.
use okeanos.Prelude.{
  ℕ, ◌^◌, ◌<◌, Bool, false, List, [], ◌∷◌, ◌++◌, map, none, some, All, All-append, append_assoc,
  append-nil, length, if◌then◌else◌, ok, err, panic, ◌≡◌, refl, sym, ap, ◌∙◌,
}
use okeanos.Prelude.Words.{to_le_bytes32}
use okeanos.Frame.Crc.{Crc32}
use okeanos.Frame.Message.{to_u32, preamble_bytes}
use okeanos.Frame.Encode.{FrameEncoder, encode, encode_length, with_buffer_xor}
use okeanos.Frame.Layer.{FrameHeader, FrameOutput, feed}
use okeanos.Frame.Layer.Start.{IsReady}
use okeanos.Frame.Layer.RoundTrip.{feed_all-frame}
use okeanos.Host.Decoder.{
  Message, State, is_print_string, on_header, on_output, on_fed, and_then, process_incoming_bytes,
}
use okeanos.Host.Decoder.Outputs.{IsOfPacket, Result, on_outputs, process-feed_all}

module _ (crc32 : Crc32) where
  payload_outputs :
      (d : State crc32) (h : FrameHeader) (bytes : List ℕ) (rest : List FrameOutput)
      → on_outputs crc32
          (record d { frame_header = some h })
          (map FrameOutput.payload bytes ++ rest)
        ≡ on_outputs crc32 (record d { frame_header = some h; buffer = d.buffer ++ bytes }) rest
  unfolding on_outputs on_output
  payload_outputs d h [] rest =
      ap (λ bs. on_outputs crc32 (record d { frame_header = some h; buffer = bs }) rest)
        (sym (append-nil d.buffer))
  payload_outputs d h (b ∷ bytes) rest =
      payload_outputs (record d { buffer = d.buffer ++ b ∷ [] }) h bytes rest
      ∙ ap (λ bs. on_outputs crc32 (record d { frame_header = some h; buffer = bs }) rest)
          (append_assoc d.buffer (b ∷ []) bytes)

  -- What a packet does to a decoder that is between packets.
  packet_outputs :
      (d : State crc32) (h : FrameHeader) (bytes : List ℕ)
      → d.frame_header ≡ none
      → is_print_string h.message_type ≡ false
      → on_outputs crc32 d
          (FrameOutput.header h ∷ (map FrameOutput.payload bytes ++ FrameOutput.finished ∷ []))
        ≡ (
          record d {
            frame_header = none;
            buffer = [];
            received_messages = d.received_messages ++ (h.message_type, bytes) ∷ [];
          },
          ok tt,
        )
  unfolding on_outputs on_output
  packet_outputs d h bytes between not_print =
      let rest = map FrameOutput.payload bytes ++ FrameOutput.finished ∷ [] in
      ap (λ o. and_then crc32 (on_header crc32 d h o) (λ d'. on_outputs crc32 d' rest)) between
      ∙ payload_outputs (record d { buffer = [] }) h bytes (FrameOutput.finished ∷ [])
      ∙ ap
          (λ (b : Bool).
            and_then crc32
              (if b then (record d { frame_header = none; buffer = bytes }, ok tt) else (
                record d {
                  frame_header = none;
                  buffer = [];
                  received_messages = d.received_messages ++ (h.message_type, bytes) ∷ [];
                },
                ok tt,
              ))
              (λ d'. (d', ok tt)))
          not_print

  All-payload : (bytes : List ℕ) → All IsOfPacket (map FrameOutput.payload bytes)
  All-payload [] = tt
  All-payload (b ∷ bytes) = (tt, All-payload bytes)

  -- The frame of a message, as `FrameSink::send` builds it (Frame.Layer.RoundTrip).
  abbrev pub frame_of : FrameEncoder → Message → List ℕ → List ℕ
  frame_of e (m, payload) len_bytes =
      let content = to_le_bytes32 (to_u32 m) ++ payload in
      let crc = crc32.finalize (crc32.update crc32.new content) in
      preamble_bytes ++ (len_bytes ++ encode e (content ++ to_le_bytes32 crc))

  -- A message that is not a `PrintString`, with the encoding of its length.
  pub record IsSent (m : Message) (len_bytes : List ℕ) : Type 0 where
    pub not_print : is_print_string m.0 ≡ false
    pub small : length m.1 < 2 ^ 64
    pub len_is : encode_length (length m.1) ≡ some len_bytes

  abbrev pub AllSent : List (Message × List ℕ) → Type 0
  AllSent [] = Unit
  AllSent (m ∷ ms) = IsSent m.0 m.1 × AllSent ms

  abbrev pub frames_of : FrameEncoder → List (Message × List ℕ) → List ℕ
  frames_of e [] = []
  frames_of e (m ∷ ms) = frame_of e m.0 m.1 ++ frames_of e ms

  -- Between packets, with a frame layer that waits for a frame.
  pub record Waits (xor : ℕ) (d : State crc32) : Type 0 where
    pub ready : IsReady crc32 xor d.decoder
    pub between : d.frame_header ≡ none

  process-frame :
      (xor : ℕ) (d : State crc32) (buffer : List ℕ) (e : FrameEncoder) (m : Message)
      (len_bytes : List ℕ)
      → Waits xor d
      → with_buffer_xor buffer xor ≡ some e
      → IsSent m len_bytes
      → (d' : State crc32) × (process_incoming_bytes crc32 d (frame_of e m len_bytes) ≡ (d', ok tt))
        × (d'.received_messages ≡ d.received_messages ++ m ∷ [])
        × Waits xor d'
  process-frame xor d buffer e m len_bytes w made sent =
      let (l', fed, ready') =
        feed_all-frame crc32 xor d.decoder buffer e m.0 m.1 len_bytes w.ready made sent.small
          sent.len_is in
      let h : FrameHeader = record { message_type = m.0; payload_len = length m.1 } in
      let d1 : State crc32 = record d {
        frame_header = none;
        buffer = [];
        received_messages = d.received_messages ++ m ∷ [];
      } in
      (
        record d1 { decoder = l' },
        process-feed_all crc32 (frame_of e m len_bytes) d d1 l' _ fed
            (
              tt,
              All-append IsOfPacket (map FrameOutput.payload m.1) (FrameOutput.finished ∷ [])
                  (All-payload m.1) (tt, tt),
            )
            (packet_outputs d h m.1 w.between sent.not_print),
        refl,
        record { ready = ready'; between = refl },
      )

  and_then_assoc :
      (r : Result crc32) (k k' k'' : State crc32 → Result crc32)
      → ((d : State crc32) → k'' d ≡ and_then crc32 (k d) k')
      → and_then crc32 r k'' ≡ and_then crc32 (and_then crc32 r k) k'
  and_then_assoc (d, ok u) k k' k'' h = h d
  and_then_assoc (d, err e) k k' k'' h = refl
  and_then_assoc (d, panic) k k' k'' h = refl

  process-append :
      (xs ys : List ℕ) (d : State crc32)
      → process_incoming_bytes crc32 d (xs ++ ys)
        ≡ and_then crc32
            (process_incoming_bytes crc32 d xs)
            (λ d'. process_incoming_bytes crc32 d' ys)
  unfolding process_incoming_bytes
  process-append [] ys d = refl
  process-append (b ∷ xs) ys d =
      and_then_assoc (on_fed crc32 d (feed crc32 d.decoder b))
        (λ d'. process_incoming_bytes crc32 d' xs) (λ d'. process_incoming_bytes crc32 d' ys)
        (λ d'. process_incoming_bytes crc32 d' (xs ++ ys)) (λ d'. process-append xs ys d')

  -- The frames of any messages but printed ones, one behind the other as the device sends them, give
  -- those messages in their order to a decoder that waits for a frame, which then waits for the next.
  pub process-frames :
      (ms : List (Message × List ℕ)) (xor : ℕ) (d : State crc32) (buffer : List ℕ)
      (e : FrameEncoder)
      → Waits xor d
      → with_buffer_xor buffer xor ≡ some e
      → AllSent ms
      → (d' : State crc32) × (process_incoming_bytes crc32 d (frames_of e ms) ≡ (d', ok tt))
        × (d'.received_messages ≡ d.received_messages ++ map (λ m. m.0) ms)
        × Waits xor d'
  unfolding process_incoming_bytes
  process-frames [] xor d buffer e w made sent = (d, refl, sym (append-nil d.received_messages), w)
  process-frames (m ∷ ms) xor d buffer e w made sent =
      let (d1, run, got, w1) = process-frame xor d buffer e m.0 m.1 w made sent.0 in
      let (d2, run', got', w2) = process-frames ms xor d1 buffer e w1 made sent.1 in
      (
        d2,
        process-append (frame_of e m.0 m.1) (frames_of e ms) d
            ∙ ap (λ r. and_then crc32 r (λ d'. process_incoming_bytes crc32 d' (frames_of e ms)))
                run
            ∙ run',
        got'
            ∙ ap (λ ys. ys ++ map (λ k. k.0) ms) got
            ∙ append_assoc d.received_messages (m.0 ∷ []) (map (λ k. k.0) ms),
        w2,
      )
