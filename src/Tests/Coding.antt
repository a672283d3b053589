-- ===== src/Tests/Coding.antt =====
-- Frames of common/okboot-common at concrete inputs.
use okeanos.Prelude.{
  ℕ, ◌+◌, ◌%◌, ◌^◌, ◌≤◌, ◌/◌, bit_xor, List, [], ◌∷◌, ◌++◌, some, length, replicate, ok, All, ◌≡◌,
  ◌≢◌, refl, append_assoc, arith,
}
use native.Mathlib.Nat.{mod-lt}
use okeanos.Prelude.Words.{to_le_bytes32}
use okeanos.Frame.Crc.{Crc32}
use okeanos.Frame.Message.{print_string, to_u32, preamble_bytes, cobs_xor}
use okeanos.Frame.Preamble
use okeanos.Frame.Preamble.{PreambleStatus}
use okeanos.Frame.Preamble.Laws.{seek, found, Begins, seek_iff}
use okeanos.Frame.Length.{length_field, encode_length_lem}
use okeanos.Frame.Encode.{FrameEncoder, with_buffer_xor, inner_with_buffer, encode}
use okeanos.Frame.Cobs
use okeanos.Frame.Cobs.{CobsState, byte, finished, poll_all}
use okeanos.Frame.Cobs.Spec.{cobs}
use okeanos.Frame.Cobs.Encoding.{masked, encode-cobs}
use okeanos.Frame.Cobs.Shape.{encode_shape}
use okeanos.Frame.Cobs.RoundTrip.{poll_all-encode, strip}
use okeanos.Frame.Layer
use okeanos.Frame.Layer.{FrameOutput}
use okeanos.Frame.Layer.Feeds.{feed_all}
use okeanos.Frame.Layer.Start.{IsReady}
use okeanos.Frame.Layer.RoundTrip.{feed_all-frame, new-IsReady}

abbrev pub total : List ℕ → ℕ
total [] = 0
total (x ∷ xs) = x + total xs

-- A checksum that has the laws: the sum of all bytes.
abbrev pub sum32 : Crc32
sum32 = record {
  Hasher = List ℕ;
  new = [];
  update = λ h xs. h ++ xs;
  finalize = λ h. total h % 2 ^ 32;
  update-update = append_assoc;
  finalize-lt = λ h. mod-lt (total h) (omega arith);
}

abbrev pub zeros : List ℕ
zeros = replicate 255 0

abbrev pub encoder : FrameEncoder
encoder = record { inner = record { buf = zeros; cursor = 1 }; xor = cobs_xor }

pub encoder_made : with_buffer_xor zeros cobs_xor ≡ some encoder
unfolding with_buffer_xor inner_with_buffer
encoder_made = refl

abbrev sample : List ℕ
sample = 1 ∷ 0 ∷ 2 ∷ []

feed_all-frame_example :
    let content = to_le_bytes32 (to_u32 print_string) ++ sample in
    (l' : Layer.Layer sum32) × (feed_all sum32 (Layer.new sum32 cobs_xor) (
        preamble_bytes
        ++ (length_field 3 ++ encode encoder (content ++ to_le_bytes32 (total content % 2 ^ 32))))
      ≡ (
        l',
        ok (
            FrameOutput.header (record { message_type = print_string; payload_len = 3 })
            ∷ FrameOutput.payload 1
            ∷ FrameOutput.payload 0
            ∷ FrameOutput.payload 2
            ∷ FrameOutput.finished
            ∷ []),
      ))
    × IsReady sum32 cobs_xor l'
feed_all-frame_example =
    feed_all-frame sum32 cobs_xor (Layer.new sum32 cobs_xor) zeros encoder print_string sample
      (length_field 3) (new-IsReady sum32 cobs_xor) encoder_made (omega arith)
      (encode_length_lem 3 (omega arith))

poll_all-encode_example :
    (out : List CobsState) × (poll_all (Cobs.new cobs_xor) (encode encoder sample)
      ≡ (Cobs.new cobs_xor, ok out))
    × (strip out ≡ byte 1 ∷ byte 0 ∷ byte 2 ∷ finished ∷ [])
poll_all-encode_example = poll_all-encode zeros cobs_xor encoder sample encoder_made

encode-cobs_example :
    (length zeros ≡ 255) × (encode encoder sample ≡ masked cobs_xor (cobs [] sample))
encode-cobs_example = encode-cobs zeros cobs_xor encoder sample encoder_made

encode_shape_example :
    (init : List ℕ) × (encode encoder sample ≡ init ++ bit_xor 0 cobs_xor ∷ [])
    × All (λ b. b ≢ bit_xor 0 cobs_xor) init
    × (length (encode encoder sample) ≤ length sample + 2 + length sample / 254)
encode_shape_example = encode_shape zeros cobs_xor encoder sample encoder_made

seek_iff_example :
    (Begins PreambleStatus.preamble preamble_bytes []
      → seek Preamble.new preamble_bytes ≡ found PreambleStatus.preamble [])
    × (seek Preamble.new preamble_bytes ≡ found PreambleStatus.preamble []
        → Begins PreambleStatus.preamble preamble_bytes [])
seek_iff_example = seek_iff PreambleStatus.preamble preamble_bytes []
