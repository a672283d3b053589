-- ===== src/Frame/Message.antt =====
-- common/okboot-common/src/lib.rs: the message types and their numbers on the wire, the protocol
-- versions, and the constants of the framing.
pub mod Laws
use okeanos.Prelude.{
  ℕ, List, [], ◌∷◌, Option, none, some, ◌==◌, if◌then◌else◌, ◌≡◌, refl, arith, Outcome, ok, err,
}

-- `COBS_XOR`
abbrev pub cobs_xor : ℕ
cobs_xor = 0x55

-- `PREAMBLE_BYTES`
abbrev pub preamble_bytes : List ℕ
preamble_bytes = 0x55 ∷ 0x55 ∷ 0x55 ∷ 0x5e ∷ []

pub data MessageType : Type 0 where
  print_string probe allowed_versions use_version : MessageType
  metadata_req metadata metadata_ack metadata_ack_ack : MessageType
  chunk_req chunk booting booting_ack : MessageType

-- `MessageType as u32`
unfoldable pub to_u32 : MessageType → ℕ
to_u32 print_string = 101
to_u32 probe = 201
to_u32 allowed_versions = 202
to_u32 use_version = 203
to_u32 metadata_req = 301
to_u32 metadata = 302
to_u32 metadata_ack = 303
to_u32 metadata_ack_ack = 304
to_u32 chunk_req = 401
to_u32 chunk = 402
to_u32 booting = 501
to_u32 booting_ack = 502

-- `TryFrom<u32> for MessageType`
unfoldable pub try_from : ℕ → Option MessageType
try_from value =
    if value == 101
    then some print_string
    else if value == 201
    then some probe
    else if value == 202
    then some allowed_versions
    else if value == 203
    then some use_version
    else if value == 301
    then some metadata_req
    else if value == 302
    then some metadata
    else if value == 303
    then some metadata_ack
    else if value == 304
    then some metadata_ack_ack
    else if value == 401
    then some chunk_req
    else if value == 402
    then some chunk
    else if value == 501
    then some booting
    else if value == 502
    then some booting_ack
    else none

pub data SupportedProtocol : Type 0 where
  v2 : SupportedProtocol

-- `TryFrom<u32> for SupportedProtocol`
unfoldable pub try_version : ℕ → Outcome ℕ SupportedProtocol
try_version value = if value == 2 then ok v2 else err value

-- `SupportedProtocol::baud_rate`
unfoldable pub baud_rate : SupportedProtocol → ℕ
baud_rate v2 = 1_500_000
