-- ===== src/Host/Promotion/Frames.antt =====
-- host/okdude/src/upload.rs, `try_promotion_handshake`: what the host does on the answer of the device.
use okeanos.Prelude.{
  ℕ, ◌^◌, ◌<◌, Bool, true, false, List, [], ◌∷◌, ◌++◌, map, All, Option, none, some, ◌==◌,
  if◌then◌else◌, length, ok, ◌≡◌, refl, ap, ◌∙◌, ◌||◌, Bool-cases, inl, inr, eq_of_test,
}
use okeanos.Prelude.Words.{to_le_bytes32}
use okeanos.Frame.Crc.{Crc32}
use okeanos.Frame.Message.{
  allowed_versions, to_u32, cobs_xor, preamble_bytes, SupportedProtocol, try_version, baud_rate,
}
use okeanos.Frame.Encode.{FrameEncoder, encode, encode_length, with_buffer_xor}
use okeanos.Host.Receive.Frames.{heard, all_printed, recv-frame}
use okeanos.Host.Promotion.{
  AllowedVersions, iter, probe, use_version, Terminal, failed_with, is_supported, find,
  reverse_onto, choose, use_choice, on_decoded, on_message, try_promotion_handshake,
}

abbrev pub contains : ℕ → List ℕ → Bool
contains n [] = false
contains n (v ∷ versions) = (v == n) || contains n versions

find-contains :
    (versions : List ℕ)
    → find is_supported versions ≡ (if contains 2 versions then some 2 else none)
find-contains [] = refl
find-contains (v ∷ versions) = elim (Bool-cases (v == 2)) [
  | inl yes' ↦ rw yes' (ap some (eq_of_test v 2 yes'))
  | inr no' ↦ rw no' (find-contains versions)
]

or_swap : (a b c : Bool) → (a || (b || c)) ≡ ((b || a) || c)
or_swap true true c = refl
or_swap true false c = refl
or_swap false true c = refl
or_swap false false c = refl

contains-reverse_onto :
    (n : ℕ) (versions done : List ℕ)
    → contains n (reverse_onto versions done) ≡ (contains n versions || contains n done)
contains-reverse_onto n [] done = refl
contains-reverse_onto n (v ∷ versions) done =
    contains-reverse_onto n versions (v ∷ done)
    ∙ or_swap (contains n versions) (v == n) (contains n done)

or-false : (b : Bool) → (b || false) ≡ b
or-false true = refl
or-false false = refl

choose_lem : (versions : List ℕ) → choose versions ≡ (if contains 2 versions then some 2 else none)
unfolding choose
choose_lem versions =
    find-contains (reverse_onto versions [])
    ∙ ap (λ b. if b then some 2 else none)
        (contains-reverse_onto 2 versions [] ∙ or-false (contains 2 versions))

-- The two choices, where the terminal does what it is asked.
by_choice :
    (t : Terminal) (b : Bool)
    → t.version_sent ≡ true
    → t.baud_set ≡ true
    → use_choice t (if b then some 2 else none)
      ≡ ok (
          if b
          then record {
            sent = probe ∷ use_version 2 ∷ [];
            baud = some (baud_rate SupportedProtocol.v2);
            version = some 2;
          }
          else failed_with (probe ∷ []))
unfolding try_version
by_choice t true sent set = rw (sent, set) refl
by_choice t false sent set = refl

module _ (crc32 : Crc32) where
  -- If everything that the host sends goes out and the baud rate can be set, and the device prints any
  -- strings and then sends an `AllowedVersions`, every byte in time: the host sends its `Probe`, and where
  -- version 2 is allowed, it answers that it uses version 2 and goes to the baud rate of that version; else
  -- it stays with the old protocol. The strings are shorter than 2 ^ 32, the payload has an encoding of its
  -- length, and postcard reads an `AllowedVersions` from it, whose versions are those of its iterator.
  pub try_promotion_handshake-frame :
      (from_bytes : List ℕ → Option AllowedVersions) (strings : List (List ℕ)) (buffer : List ℕ)
      (e : FrameEncoder) (payload len_bytes : List ℕ) (allowed : AllowedVersions)
      → All (λ s. length s < 2 ^ 32) strings
      → with_buffer_xor buffer cobs_xor ≡ some e
      → length payload < 2 ^ 64
      → encode_length (length payload) ≡ some len_bytes
      → from_bytes payload ≡ some allowed
      → let content = to_le_bytes32 (to_u32 allowed_versions) ++ payload in
        let crc = crc32.finalize (crc32.update crc32.new content) in
        try_promotion_handshake crc32 from_bytes (record {
          probe_sent = true;
          rounds = map heard (
              all_printed strings
              ++ (preamble_bytes ++ (len_bytes ++ encode e (content ++ to_le_bytes32 crc))));
          version_sent = true;
          baud_set = true;
        })
        ≡ ok (
            if contains 2 (iter allowed)
            then record {
              sent = probe ∷ use_version 2 ∷ [];
              baud = some (baud_rate SupportedProtocol.v2);
              version = some 2;
            }
            else failed_with (probe ∷ []))
  unfolding try_promotion_handshake
  try_promotion_handshake-frame from_bytes strings buffer e payload len_bytes allowed short made big
        enc decodes =
      let content = to_le_bytes32 (to_u32 allowed_versions) ++ payload in
      let crc = crc32.finalize (crc32.update crc32.new content) in
      let t : Terminal = record {
        probe_sent = true;
        rounds = map heard (
            all_printed strings
            ++ (preamble_bytes ++ (len_bytes ++ encode e (content ++ to_le_bytes32 crc))));
        version_sent = true;
        baud_set = true;
      } in
      ap (on_message from_bytes t)
        (recv-frame crc32 strings buffer e allowed_versions payload len_bytes short made big enc)
      ∙ ap (on_decoded t) decodes
      ∙ ap (use_choice t) (choose_lem (iter allowed))
      ∙ by_choice t (contains 2 (iter allowed)) refl refl
