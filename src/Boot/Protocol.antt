-- ===== src/Boot/Protocol.antt =====
-- device/okboot/src/protocol.rs: what the device answers to a packet with, the messages that it
-- sends (common/okboot-common/src/device.rs), and how `send` is asked for them.
pub mod Handshake
pub mod Engine
use okeanos.Prelude.{ℕ, Bool, true, false, List, Outcome, Exec, ok, err, panic}
use okeanos.Frame.Crc.{Crc32}
use okeanos.Frame.Message.{MessageType}
use okeanos.Boot.Writer.{FrameSink, SendError, send}
use okeanos.Boot.V2.Loader.{Metadata}

-- `PE` is the type of the protocols, to switch to.
pub data ProtocolStatus (PE : Type 0) : Type 0 where
  -- Condition normal, continue with protocol.
  continue : ProtocolStatus PE
  -- Condition abnormal, abort processing of the packet.
  abcon : ProtocolStatus PE
  -- Abnormal end, return to the initial state.
  abend : ProtocolStatus PE
  switch : PE → ProtocolStatus PE

-- `device::AllowedVersions`, `MetadataReq`, `MetadataAck`, `ChunkReq` and `Booting`.
pub data DeviceMessage : Type 0 where
  allowed_versions : List ℕ → DeviceMessage
  metadata_req : DeviceMessage
  metadata_ack : ℕ → Metadata → DeviceMessage
  chunk_req : ℕ → DeviceMessage
  booting : DeviceMessage

-- `EncodeMessageType::TYPE` of each.
abbrev pub message_type : DeviceMessage → MessageType
message_type (allowed_versions versions) = MessageType.allowed_versions
message_type metadata_req = MessageType.metadata_req
message_type (metadata_ack chunk_size metadata) = MessageType.metadata_ack
message_type (chunk_req which) = MessageType.chunk_req
message_type booting = MessageType.booting

-- `postcard::to_slice` for the messages of the device.
abbrev pub ToSlice : Type 0 → Type 0
ToSlice E = DeviceMessage → List ℕ → List ℕ × Outcome E ℕ

-- `Ok(true)` for a message that is sent, `Ok(false)` where there is no room, as `send_metadata_request`,
-- `send_metadata_ack`, `send_chunk_request` and `send_boot_msg` have it.
abbrev pub was_sent : {E : Type 0} → Outcome (SendError E) (Unit {0}) → Outcome (Unit {0}) Bool
was_sent (ok u) = ok true
was_sent (err SendError.truncated) = ok false
was_sent (err (SendError.postcard e)) = err tt
was_sent (err SendError.construct_encoder) = err tt
was_sent panic = panic

abbrev pub send_message :
    {E : Type 0}
    → Crc32
    → ToSlice E
    → FrameSink
    → DeviceMessage
    → FrameSink × Outcome (Unit {0}) Bool
send_message crc32 to_slice sink m =
    let (sink', r) = send crc32 message_type to_slice sink m in (sink', was_sent r)
