-- ===== src/Boot/V2/Protocol.antt =====
-- device/okboot/src/protocol/v2.rs, `handle_packet` and `heartbeat` of `V2`. What is printed is left
-- out. The crate postcard, which reads the messages of the host, is a parameter.
pub mod States
pub mod Download
pub mod Resend
use okeanos.Prelude.{
  ℕ, ◌+◌, ◌-◌, ◌*◌, ◌/◌, ◌%◌, ◌^◌, bit_and, Bool, true, false, not, ◌&&◌, ◌||◌, List, Option, none,
  some, ◌==◌, ltb, leb, if◌then◌else◌, Outcome, Exec, Stuck, ok, err, panic, ◌>>=◌,
}
use okeanos.Frame.Crc.{Crc32}
use okeanos.Frame.Message.{MessageType}
use okeanos.Boot.Relocation.{Memory}
use okeanos.Boot.Timeouts.{Timeouts, at_baud_8n1}
use okeanos.Boot.Writer.{FrameSink}
use okeanos.Boot.Protocol.{
  ProtocolStatus, continue, abend, DeviceMessage, metadata_req, metadata_ack, chunk_req, booting,
  ToSlice, send_message,
}
use okeanos.Boot.V2.{
  chunk_size, V1Timeouts, LoaderEnum, bin_loader, elf_loader, S, request_metadata, ack_metadata,
  request_chunk, boot, Inflate, V2,
}
use okeanos.Boot.V2.Chunk.{Chunk, recv_chunk}
use okeanos.Boot.V2.Loader.{FormatDetails, bin, elf, Metadata, ElfBytes, Booter, bin_new, elf_new}

-- `postcard::from_bytes` for the messages of the host; its errors are only printed.
pub record FromBytes : Type 0 where
  pub metadata : List ℕ → Option Metadata
  pub metadata_ack_ack : List ℕ → Option Bool
  pub chunk : List ℕ → Option Chunk

-- What a packet leads to: the program that was received is entered, or the protocol goes on.
pub data Reply (I PE : Type 0) : Type 0 where
  stays : V2 I → Memory → Timeouts → ProtocolStatus PE → Reply I PE
  enters : Booter → Memory → Reply I PE

-- The message of a state.
abbrev pub message_of : S → DeviceMessage
message_of request_metadata = metadata_req
message_of (ack_metadata m) = metadata_ack chunk_size m
message_of (request_chunk which count l) = chunk_req which
message_of (boot booter) = booting

-- How long the answer to it is waited for.
abbrev pub resend_after : V1Timeouts → S → ℕ
resend_after t (request_chunk which count l) = t.try_resend_chunk
resend_after t s = t.try_resend

-- Whether `recv_metadata` takes such a file.
abbrev pub accepts : FormatDetails → Bool
accepts (bin load_address) =
    if leb 0x1000_0000 load_address then false else bit_and load_address 3 == 0
accepts elf = true

-- Lines 297-306; `self_end` is the end of the boot loader.
abbrev pub loader_for : ℕ → Metadata → FormatDetails → Exec LoaderEnum
loader_for self_end m (bin load_address) =
    if ltb load_address (2 ^ 32) then ok (bin_loader (bin_new self_end load_address m)) else panic
loader_for self_end m elf = ok (elf_loader (elf_new m))

abbrev pub chunk_count : Metadata → ℕ
chunk_count m = (m.deflated_len + chunk_size - 1) % 2 ^ 32 / chunk_size

module _ (z : Inflate) where
  abbrev pub recv_metadata_in : V2 z.I → Timeouts → Metadata → S → V2 z.I × Timeouts
  recv_metadata_in v timeouts msg request_metadata =
      if accepts msg.format_details
      then (
        record v { state = ack_metadata msg; once = true },
        record timeouts {
          override_session_timeout = some (at_baud_8n1 (chunk_size * 16) v.baud * 2);
        },
      )
      else (v, timeouts)
  recv_metadata_in v timeouts msg s = (v, timeouts)

  unfoldable pub recv_metadata : V2 z.I → Timeouts → Metadata → V2 z.I × Timeouts
  recv_metadata v timeouts msg = recv_metadata_in v timeouts msg v.state

  abbrev pub recv_metadata_ack_ack_in : ℕ → V2 z.I → Bool → S → Exec (V2 z.I)
  recv_metadata_ack_ack_in self_end v is_ok (ack_metadata m) =
      if not is_ok
      then ok (record v { state = request_metadata })
      else (loader_for self_end m m.format_details >>= λ l.
          ok (record v { state = request_chunk 0 (chunk_count m) l; once = true }))
  recv_metadata_ack_ack_in self_end v is_ok s = ok v

  unfoldable pub recv_metadata_ack_ack : ℕ → V2 z.I → Bool → Exec (V2 z.I)
  recv_metadata_ack_ack self_end v is_ok = recv_metadata_ack_ack_in self_end v is_ok v.state

  module _ {P PE : Type 0} (crc32 : Crc32) (minimal_parse : List ℕ → Outcome P ElfBytes)
      (from_bytes : FromBytes) (self_end fuel : ℕ) where
    abbrev pub recv_booting_ack : V2 z.I → Memory → Timeouts → S → Exec (Reply z.I PE)
    recv_booting_ack v mem timeouts (boot booter) = ok (enters booter mem)
    recv_booting_ack v mem timeouts s = ok (stays v mem timeouts continue)

    abbrev pub handle_metadata : V2 z.I → Memory → Timeouts → Option Metadata → Exec (Reply z.I PE)
    handle_metadata v mem timeouts none = ok (stays v mem timeouts continue)
    handle_metadata v mem timeouts (some msg) =
        let (v', timeouts') = recv_metadata v timeouts msg in ok (stays v' mem timeouts' continue)

    abbrev pub handle_metadata_ack_ack :
        V2 z.I → Memory → Timeouts → Option Bool → Exec (Reply z.I PE)
    handle_metadata_ack_ack v mem timeouts none = ok (stays v mem timeouts continue)
    handle_metadata_ack_ack v mem timeouts (some is_ok) =
        recv_metadata_ack_ack self_end v is_ok >>= λ v'. ok (stays v' mem timeouts continue)

    abbrev pub chunk_status : Bool → ProtocolStatus PE
    chunk_status true = continue
    chunk_status false = abend

    abbrev pub handle_chunk : V2 z.I → Memory → Timeouts → Option Chunk → Exec (Reply z.I PE)
    handle_chunk v mem timeouts none = ok (stays v mem timeouts continue)
    handle_chunk v mem timeouts (some msg) =
        recv_chunk z crc32 minimal_parse fuel v mem msg >>= λ r.
        ok (stays r.0 r.1 timeouts (chunk_status r.2))

    -- `handle_packet`
    unfoldable pub handle_packet :
        V2 z.I → Memory → Timeouts → MessageType → List ℕ → Exec (Reply z.I PE)
    handle_packet v mem timeouts MessageType.metadata payload =
        handle_metadata v mem timeouts (from_bytes.metadata payload)
    handle_packet v mem timeouts MessageType.metadata_ack_ack payload =
        handle_metadata_ack_ack v mem timeouts (from_bytes.metadata_ack_ack payload)
    handle_packet v mem timeouts MessageType.chunk payload =
        handle_chunk v mem timeouts (from_bytes.chunk payload)
    handle_packet v mem timeouts MessageType.booting_ack payload =
        recv_booting_ack v mem timeouts v.state
    handle_packet v mem timeouts t payload = ok (stays v mem timeouts continue)

  abbrev pub should_send : V2 z.I → ℕ → Bool
  should_send v elapsed =
      v.once
      || ltb (resend_after v.timeouts v.state) elapsed
      || (v.retry_buffer && ltb v.timeouts.buffer_retry elapsed)

  module _ {E PE : Type 0} (crc32 : Crc32) (to_slice : ToSlice E) where
    -- Lines 222-228, at the time `later`.
    abbrev pub after_send :
        V2 z.I
        → ℕ
        → FrameSink × Outcome (Unit {0}) Bool
        → Exec (V2 z.I × FrameSink × ProtocolStatus PE)
    after_send v later (sink, ok is_sent) =
        ok (record v { retry_buffer = not is_sent; heartbeat = later }, sink, continue)
    after_send v later (sink, err e) = ok (v, sink, abend)
    after_send v later (sink, panic) = panic

    -- `heartbeat`, which reads the clock at `now`, and at `later` when it has sent; the clock has 64
    -- bits of microseconds, and is taken not to turn over.
    unfoldable pub heartbeat :
        V2 z.I → FrameSink → ℕ → ℕ → Exec (V2 z.I × FrameSink × ProtocolStatus PE)
    heartbeat v sink now later =
        let v1 = record v { once = false } in
        if should_send v (now - v.heartbeat)
        then after_send v1 later (send_message crc32 to_slice sink (message_of v.state))
        else ok (v1, sink, continue)
