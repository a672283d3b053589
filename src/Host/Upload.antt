-- ===== src/Host/Upload.antt =====
-- host/okdude/src/v2.rs: the answers of the host to the messages of the device, and the arguments
-- that are put into an ELF file. The crate postcard is a parameter; a message that is sent is in the
-- list of what a step sends.
pub mod Chunks
pub mod Arguments
pub mod Encode
use okeanos.Prelude.{
  ℕ, ◌+◌, ◌-◌, ◌*◌, ◌%◌, Bool, true, false, ◌&&◌, List, [], ◌∷◌, ◌++◌, replicate, Option, none,
  some, ◌==◌, leb, ltb, if◌then◌else◌, length, take, drop, Outcome, Exec, ok, err, panic, ◌>>=◌,
}
use Prim.Native.Nat.{min}
use okeanos.Prelude.Words.{to_le_bytes32}
use okeanos.Frame.Message.{MessageType}
use okeanos.Boot.V2.Chunk.{Chunk}
use okeanos.Boot.V2.Loader.{FormatDetails, bin, elf, Metadata}

pub record Info : Type 0 where
  pub compressed_len : ℕ
  pub decompressed_len : ℕ
  pub compressed_crc : ℕ
  pub decompressed_crc : ℕ
  pub chunk_size : ℕ

-- `host::Metadata`, `MetadataAckAck`, `Chunk` and `BootingAck`.
pub data HostMessage : Type 0 where
  metadata : Metadata → HostMessage
  metadata_ack_ack : Bool → HostMessage
  chunk : Chunk → HostMessage
  booting_ack : HostMessage

-- `postcard::from_bytes` for the messages of the device that carry something: the chunk size and the
-- metadata, and the number of a chunk.
pub record FromDevice : Type 0 where
  pub metadata_req : List ℕ → Bool
  pub metadata_ack : List ℕ → Option (ℕ × Metadata)
  pub chunk_req : List ℕ → Option ℕ

-- The arguments behind `v_out`, with the assertion of every round.
unfoldable pub serialize_all : List ℕ → List (List ℕ) → Exec (List ℕ)
serialize_all v_out [] = ok v_out
serialize_all v_out (sub_v ∷ v) =
    let v_out' =
      v_out ++ (to_le_bytes32 (length sub_v) ++ (sub_v ++ replicate (4 - length sub_v % 4) 0)) in
    let rest = serialize_all v_out' v in if length v_out' % 4 == 0 then rest else panic

-- `serialize_args`
unfoldable pub serialize_args : List (List ℕ) → Exec (List ℕ)
serialize_args args = serialize_all (to_le_bytes32 (length args)) args

-- `dispatch_metadata_req`
abbrev pub metadata_of : Info → FormatDetails → Metadata
metadata_of info format_details = record {
  deflated_crc = info.compressed_crc;
  deflated_len = info.compressed_len;
  inflated_crc = info.decompressed_crc;
  inflated_len = info.decompressed_len;
  format_details = format_details;
}

-- `==` of `FormatDetails`
abbrev pub same_format : FormatDetails → FormatDetails → Bool
same_format (bin a) (bin b) = a == b
same_format elf elf = true
same_format (bin a) elf = false
same_format elf (bin b) = false

-- `dispatch_metadata_ack`: whether the metadata is that of the file.
abbrev pub ack_is_ok : Info → FormatDetails → Metadata → Bool
ack_is_ok info expected m =
    m.deflated_crc == info.compressed_crc
    && m.deflated_len == info.compressed_len
    && m.inflated_crc == info.decompressed_crc
    && m.inflated_len == info.decompressed_len
    && same_format m.format_details expected

-- The slice from `chunk_begin` to `chunk_end`, which panics where its end is before its begin.
abbrev pub send_slice : List ℕ → ℕ → ℕ → ℕ → Exec HostMessage
send_slice compressed_data which chunk_begin chunk_end =
    if leb chunk_begin chunk_end
    then ok (
        chunk (record {
          which = which;
          bytes = take (chunk_end - chunk_begin) (drop chunk_begin compressed_data);
        }))
    else panic

-- Lines 402-411, for a chunk size.
abbrev pub send_chunk : ℕ → List ℕ → ℕ → Exec HostMessage
send_chunk size compressed_data which =
    let chunk_begin = which * size in
    send_slice compressed_data which chunk_begin (min (chunk_begin + size) (length compressed_data))

unfoldable pub dispatch_chunk_req : Info → List ℕ → ℕ → Exec HostMessage
dispatch_chunk_req info compressed_data which = send_chunk info.chunk_size compressed_data which

-- What a round of the loop of `upload_inner` leaves: what is known, what is sent, and whether the
-- device boots.
abbrev pub Round : Type 0
Round = Info × List HostMessage × Bool

module _ (from_device : FromDevice) (format_details : FormatDetails) (compressed : List ℕ) where
  abbrev pub on_metadata_req : Info → Bool → Exec Round
  on_metadata_req info true = ok (info, metadata (metadata_of info format_details) ∷ [], false)
  on_metadata_req info false = ok (info, [], false)

  abbrev pub on_metadata_ack : Info → Option (ℕ × Metadata) → Exec Round
  on_metadata_ack info none = ok (info, [], false)
  on_metadata_ack info (some (chunk_size, m)) =
      if ack_is_ok info format_details m
      then ok (record info { chunk_size = chunk_size }, metadata_ack_ack true ∷ [], false)
      else ok (info, metadata_ack_ack false ∷ [], false)

  abbrev pub on_chunk_req : Info → Option ℕ → Exec Round
  on_chunk_req info none = ok (info, [], false)
  on_chunk_req info (some which) =
      dispatch_chunk_req info compressed which >>= λ m. ok (info, m ∷ [], false)

  -- One round of the loop of `upload_inner`, for a message of the device.
  unfoldable pub dispatch : Info → MessageType → List ℕ → Exec Round
  dispatch info MessageType.metadata_req msg = on_metadata_req info (from_device.metadata_req msg)
  dispatch info MessageType.metadata_ack msg = on_metadata_ack info (from_device.metadata_ack msg)
  dispatch info MessageType.chunk_req msg = on_chunk_req info (from_device.chunk_req msg)
  dispatch info MessageType.booting msg = ok (info, booting_ack ∷ [], true)
  dispatch info t msg = ok (info, [], false)
