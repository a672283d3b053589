-- ===== src/Host/Upload/Encode.antt =====
-- host/okdude/src/upload.rs, `encode`: the bytes on the wire for a message. The crates postcard and crc32fast
-- are not part of the repository: the message is given as serialized, and the checksum is a parameter.
use okeanos.Prelude.{
  ℕ, ◌/◌, ◌^◌, ◌≤◌, ◌<◌, List, [], ◌∷◌, ◌++◌, map, replicate, Option, none, some, ◌==◌, test_of_eq,
  test_of_ne, if◌then◌else◌, length, Exec, ok, true, false, panic, ◌≡◌, refl, ap, ◌∙◌, append_assoc,
  arith,
}
use okeanos.Prelude.Words.{to_le_bytes32}
use okeanos.Frame.Crc.{Crc32}
use okeanos.Frame.Length.{length_field, encode_length_lem}
use okeanos.Frame.Message.{MessageType, to_u32, preamble_bytes, cobs_xor}
use okeanos.Frame.Encode.{
  FrameEncoder, BufferedEncoder, frame, write_all, finish, encode_length, with_buffer_xor,
  inner_with_buffer,
}
use okeanos.Frame.Encode
use okeanos.Frame.Layer.{FrameOutput, Layer}
use okeanos.Frame.Layer.Feeds.{feed_all}
use okeanos.Frame.Layer.Start.{IsReady}
use okeanos.Frame.Layer.RoundTrip.{feed_all-frame}

abbrev pub buffered_encoder : BufferedEncoder
buffered_encoder = record { buffer = replicate 255 0; xor = cobs_xor }

module _ (crc32 : Crc32) where
  -- `message_bytes`
  abbrev pub message_bytes : MessageType → List ℕ → List ℕ
  message_bytes message_type serialized_message =
      let bytes = to_le_bytes32 (to_u32 message_type) ++ serialized_message in
      bytes ++ to_le_bytes32 (crc32.finalize (crc32.update crc32.new bytes))

  -- The part behind the two calls of `expect`.
  abbrev wire : List ℕ → List ℕ → FrameEncoder → List ℕ
  wire bytes length_bytes frame_encoder =
      let (e, out) = write_all frame_encoder bytes in
      ((preamble_bytes ++ length_bytes) ++ out) ++ (finish e).1

  -- The two calls of `expect`, and what is behind them.
  abbrev wire_of : List ℕ → Option (List ℕ) → Option FrameEncoder → Exec (List ℕ)
  wire_of bytes none e = panic
  wire_of bytes (some length_bytes) none = panic
  wire_of bytes (some length_bytes) (some e) = ok (wire bytes length_bytes e)

  unfoldable pub encode : MessageType → List ℕ → Exec (List ℕ)
  encode message_type serialized_message =
      wire_of (message_bytes message_type serialized_message)
        (encode_length (length serialized_message)) (frame buffered_encoder)

abbrev frame_encoder : FrameEncoder
frame_encoder = record { inner = record { buf = replicate 255 0; cursor = 1 }; xor = cobs_xor }

frame_made : with_buffer_xor (replicate 255 0) cobs_xor ≡ some frame_encoder
unfolding with_buffer_xor inner_with_buffer
frame_made = refl

module _ (crc32 : Crc32) where
  wire-encode :
      (bytes length_bytes : List ℕ) (e : FrameEncoder)
      → wire crc32 bytes length_bytes e ≡ preamble_bytes ++ (length_bytes ++ Encode.encode e bytes)
  unfolding Encode.encode
  wire-encode bytes length_bytes e =
      let (e', out) = write_all e bytes in
      append_assoc (preamble_bytes ++ length_bytes) out (finish e').1
      ∙ append_assoc preamble_bytes length_bytes (out ++ (finish e').1)

  encode_returns :
      (m : MessageType) (payload length_bytes : List ℕ)
      → encode_length (length payload) ≡ some length_bytes
      → encode crc32 m payload
        ≡ ok (
            preamble_bytes
            ++ (length_bytes ++ Encode.encode frame_encoder (message_bytes crc32 m payload)))
  unfolding encode frame
  encode_returns m payload length_bytes e =
      let bytes = message_bytes crc32 m payload in
      ap (λ o. wire_of crc32 bytes o (frame buffered_encoder)) e
      ∙ ap (wire_of crc32 bytes (some length_bytes)) frame_made
      ∙ ap ok (wire-encode bytes length_bytes frame_encoder)

  -- The host encodes any message whose payload is below 16 MiB, without a panic, and a frame layer of
  -- the device that waits for a frame reads the bytes with no error: it gives the header, the payload and
  -- `Finished`, and waits for the next frame.
  pub feed_all-encode :
      (l : Layer crc32) (m : MessageType) (payload : List ℕ)
      → IsReady crc32 cobs_xor l
      → length payload < 2 ^ 24
      → (bytes : List ℕ) × (encode crc32 m payload ≡ ok bytes)
        × (l' : Layer crc32) × (feed_all crc32 l bytes ≡ (
          l',
          ok (
              FrameOutput.header (record { message_type = m; payload_len = length payload })
              ∷ (map FrameOutput.payload payload ++ FrameOutput.finished ∷ [])),
        ))
        × IsReady crc32 cobs_xor l'
  feed_all-encode l m payload ready small =
      let n = length payload in
      let low : (n / 2 ^ 24 == 0) ≡ true = test_of_eq (n / 2 ^ 24) 0 (omega (arith, small)) in
      let e : encode_length n ≡ some (length_field n) =
        encode_length_lem n (omega (arith, small))
        ∙ ap (λ b. if b then some (length_field n) else none) low in
      let fed =
        feed_all-frame crc32 cobs_xor l (replicate 255 0) frame_encoder m payload (length_field n)
          ready frame_made (omega (arith, small)) e in
      (_, encode_returns m payload (length_field n) e, fed.0, fed.1, fed.2)

  -- A payload of 16 MiB or more has no length field: `encode` panics.
  pub encode-panic :
      (m : MessageType) (payload : List ℕ)
      → 2 ^ 24 ≤ length payload
      → length payload < 2 ^ 64
      → encode crc32 m payload ≡ panic
  unfolding encode
  encode-panic m payload large bound =
      let n = length payload in
      let high : (n / 2 ^ 24 == 0) ≡ false =
        test_of_ne (n / 2 ^ 24) 0 (λ e. omega (arith, large, e)) in
      let e : encode_length n ≡ none =
        encode_length_lem n bound ∙ ap (λ b. if b then some (length_field n) else none) high in
      ap (λ o. wire_of crc32 (message_bytes crc32 m payload) o (frame buffered_encoder)) e
