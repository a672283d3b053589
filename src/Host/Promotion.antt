-- ===== src/Host/Promotion.antt =====
-- host/okdude/src/upload.rs, `try_promotion_handshake`: the host asks for the versions of the protocol that the
-- device allows, and chooses one; `AllowedVersions` and its iterator are those of
-- common/okboot-common/src/device.rs. The crate postcard is a parameter: what it makes of the payload of an
-- `AllowedVersions`. The answers of the terminal to what is sent are given with those to what is read.
pub mod Frames
use okeanos.Prelude.{
  ℕ, ◌^◌, ◌<◌, Bool, true, false, List, [], ◌∷◌, ◌++◌, map, All, Option, none, some, ◌==◌,
  if◌then◌else◌, length, Outcome, ok, err, panic, ◌≡◌, refl, ap, ◌∙◌, ◌||◌, Bool-cases, inl, inr,
  eq_of_test,
}
use okeanos.Prelude.Words.{to_le_bytes32, from_le_bytes32}
use okeanos.Frame.Crc.{Crc32}
use okeanos.Frame.Message.{
  MessageType, allowed_versions, to_u32, cobs_xor, preamble_bytes, SupportedProtocol, try_version,
  baud_rate,
}
use okeanos.Frame.Encode.{FrameEncoder, encode, encode_length, with_buffer_xor}
use okeanos.Host.Receive.{Round, Got, Message, exited, ended, recv_with_print_string}
use okeanos.Host.Receive.Frames.{heard, all_printed, recv-frame}

-- `host::Probe` and `host::UseVersion`
pub data Sent : Type 0 where
  probe : Sent
  use_version : ℕ → Sent

-- Whether the two messages go out and the baud rate can be set, and what is read.
pub record Terminal : Type 0 where
  pub probe_sent : Bool
  pub rounds : List Round
  pub version_sent : Bool
  pub baud_set : Bool

-- What the handshake sends and sets, and the version, if it came to one.
pub record Promotion : Type 0 where
  pub sent : List Sent
  pub baud : Option ℕ
  pub version : Option ℕ

abbrev pub failed_with : List Sent → Promotion
failed_with sent = record { sent = sent; baud = none; version = none }

-- `SUPPORTED_VERSIONS.contains`
abbrev pub is_supported : ℕ → Bool
is_supported v = v == 0x0000_0002

abbrev pub find : (ℕ → Bool) → List ℕ → Option ℕ
find f [] = none
find f (v ∷ versions) = let rest = find f versions in if f v then some v else rest

abbrev pub reverse_onto : List ℕ → List ℕ → List ℕ
reverse_onto [] done = done
reverse_onto (v ∷ versions) done = reverse_onto versions (v ∷ done)

-- `.iter().rev().find(..)`
unfoldable pub choose : List ℕ → Option ℕ
choose versions = find is_supported (reverse_onto versions [])

-- `SupportedProtocol::try_from(..).unwrap().baud_rate()`, and `set_baud_rate`
abbrev pub switch_baud : Terminal → ℕ → Outcome ℕ SupportedProtocol → Got Promotion
switch_baud t version (ok protocol) = ok (record {
  sent = probe ∷ use_version version ∷ [];
  baud = if t.baud_set then some (baud_rate protocol) else none;
  version = if t.baud_set then some version else none;
})
switch_baud t version (err e) = panic
switch_baud t version panic = panic

abbrev pub use_choice : Terminal → Option ℕ → Got Promotion
use_choice t none = ok (failed_with (probe ∷ []))
use_choice t (some version) =
    if t.version_sent
    then switch_baud t version (try_version version)
    else ok (failed_with (probe ∷ []))

-- `AllowedVersions`, whose `versions` are bytes.
pub record AllowedVersions : Type 0 where
  pub versions : List ℕ

-- `AllowedVersionsIter::next`, until it gives none; `left` is what is behind the offset.
unfoldable pub collect : List ℕ → List ℕ
collect (a ∷ b ∷ c ∷ d ∷ left) = from_le_bytes32 a b c d ∷ collect left
collect left = []

-- `AllowedVersions::iter` and `collect`
abbrev pub iter : AllowedVersions → List ℕ
iter allowed = collect allowed.versions

abbrev pub on_decoded : Terminal → Option AllowedVersions → Got Promotion
on_decoded t none = ok (failed_with (probe ∷ []))
on_decoded t (some allowed) = use_choice t (choose (iter allowed))

-- `msg.0 != MessageType::AllowedVersions`
abbrev pub is_allowed_versions : MessageType → Bool
is_allowed_versions allowed_versions = true
is_allowed_versions m = false

abbrev pub on_message :
    (List ℕ → Option AllowedVersions) → Terminal → Got (Option Message) → Got Promotion
on_message from_bytes t (ok (some (m, payload))) =
    if is_allowed_versions m
    then on_decoded t (from_bytes payload)
    else ok (failed_with (probe ∷ []))
on_message from_bytes t (ok none) = ok (failed_with (probe ∷ []))
on_message from_bytes t (err exited) = err exited
on_message from_bytes t (err ended) = err ended
on_message from_bytes t (err e) = ok (failed_with (probe ∷ []))
on_message from_bytes t panic = panic

module _ (crc32 : Crc32) where
  unfoldable pub try_promotion_handshake :
      (List ℕ → Option AllowedVersions) → Terminal → Got Promotion
  try_promotion_handshake from_bytes t =
      if t.probe_sent
      then on_message from_bytes t (recv_with_print_string crc32 t.rounds)
      else ok (failed_with [])
