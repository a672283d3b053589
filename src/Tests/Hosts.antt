-- ===== src/Tests/Hosts.antt =====
-- The host tool against the device at concrete inputs (host/okdude, device/okboot).
use okeanos.Prelude.{
  ℕ, List, [], ◌∷◌, ◌++◌, ◌%◌, ◌^◌, map, Option, some, true, ok, ◌≡◌, refl, arith,
}
use okeanos.Prelude.Words.{to_le_bytes32}
use okeanos.Frame.Message.{
  print_string, allowed_versions, to_u32, cobs_xor, preamble_bytes, baud_rate, SupportedProtocol,
}
use okeanos.Frame.Encode.{encode}
use okeanos.Frame.Length.{length_field, encode_length_lem}
use okeanos.Frame.Layer
use okeanos.Frame.Layer.{FrameOutput}
use okeanos.Frame.Layer.Feeds.{feed_all}
use okeanos.Frame.Layer.Start.{IsReady}
use okeanos.Frame.Layer.RoundTrip.{new-IsReady}
use okeanos.Boot.V2.Loader.{bin}
use okeanos.Boot.Legacy.{get_code, boot_success, perform_download}
use okeanos.Boot.Legacy.Relocated.{Loads}
use okeanos.Host.Upload.Encode
use okeanos.Host.Upload.Encode.{feed_all-encode}
use okeanos.Host.Receive.Frames.{heard, all_printed}
use okeanos.Host.Promotion.{AllowedVersions, collect, probe, use_version, try_promotion_handshake}
use okeanos.Host.Promotion.Frames.{try_promotion_handshake-frame}
use okeanos.Host.Suboot.{booted, put_prog_info, run}
use okeanos.Host.Suboot.Upload.{device_says, run-perform_download}
use okeanos.Tests.Coding.{sum32, total, zeros, encoder, encoder_made}

abbrev sample : List ℕ
sample = 1 ∷ 0 ∷ 2 ∷ []

feed_all-encode_example :
    (bytes : List ℕ) × (Encode.encode sum32 print_string sample ≡ ok bytes)
    × (l' : Layer.Layer sum32) × (feed_all sum32 (Layer.new sum32 cobs_xor) bytes ≡ (
      l',
      ok (
          FrameOutput.header (record { message_type = print_string; payload_len = 3 })
          ∷ FrameOutput.payload 1
          ∷ FrameOutput.payload 0
          ∷ FrameOutput.payload 2
          ∷ FrameOutput.finished
          ∷ []),
    ))
    × IsReady sum32 cobs_xor l'
feed_all-encode_example =
    feed_all-encode sum32 (Layer.new sum32 cobs_xor) print_string sample
      (new-IsReady sum32 cobs_xor) (omega arith)

-- The versions as they are.
abbrev as_they_are : List ℕ → Option AllowedVersions
as_they_are bytes = some (record { versions = bytes })

-- Versions 1 and 2.
abbrev one_and_two : List ℕ
one_and_two = 1 ∷ 0 ∷ 0 ∷ 0 ∷ 2 ∷ 0 ∷ 0 ∷ 0 ∷ []

try_promotion_handshake-frame_example :
    try_promotion_handshake sum32 as_they_are (record {
      probe_sent = true;
      rounds = map heard (
          all_printed (sample ∷ [])
          ++ (preamble_bytes
              ++ (length_field 8
                  ++ encode encoder (
                      (to_le_bytes32 (to_u32 allowed_versions) ++ one_and_two)
                      ++ to_le_bytes32 (
                          total (to_le_bytes32 (to_u32 allowed_versions) ++ one_and_two)
                          % 2 ^ 32)))));
      version_sent = true;
      baud_set = true;
    })
    ≡ ok (record {
      sent = probe ∷ use_version 2 ∷ [];
      baud = some (baud_rate SupportedProtocol.v2);
      version = some 2;
    })
unfolding collect
try_promotion_handshake-frame_example =
    try_promotion_handshake-frame sum32 as_they_are (sample ∷ []) zeros encoder one_and_two
      (length_field 8) (record { versions = one_and_two }) (omega arith, tt) encoder_made
      (omega arith) (encode_length_lem 8 (omega arith)) refl

-- A program of four bytes of which two are where the loader is, which ends at 0x9000.
run-perform_download_example :
    (bytes : List ℕ) × (run sum32
        (bin 0x8ffe)
        (1 ∷ 2 ∷ 3 ∷ 4 ∷ [])
        (map heard (device_says (sample ∷ []) 10 []))
      ≡ (booted, to_le_bytes32 put_prog_info ++ bytes))
    × Loads 0x9000 0x8ffe
        (1 ∷ 2 ∷ 3 ∷ 4 ∷ [])
        (λ a. 0)
        (get_code ∷ 10 ∷ boot_success ∷ [])
        (perform_download sum32 0x9000 (7 ∷ []) (λ a. 0) bytes)
run-perform_download_example =
    run-perform_download sum32 0x9000 (7 ∷ []) (λ a. 0) 0x8ffe (1 ∷ 2 ∷ 3 ∷ 4 ∷ []) (sample ∷ []) []
      (omega arith) (omega arith) (omega arith) (omega arith, tt) tt
