-- ===== src/Boot/V2.antt =====
-- device/okboot/src/protocol/v2.rs: the download of a program, version 2 of the protocol, on the
-- device. The crates postcard (reading a message) and miniz_oxide (inflating) are parameters.
pub mod Loader
pub mod Chunk
pub mod Protocol
use okeanos.Prelude.{
  ℕ, ◌+◌, ◌*◌, ◌≤◌, Bool, true, false, List, ◌++◌, Option, length, take, drop, ◌≡◌,
}
use okeanos.Boot.Timeouts.{at_baud_8n1}
use okeanos.Boot.V2.Loader.{
  Metadata, BinLoader, ElfLoader, Booter, bin_receive_bytes, elf_receive_bytes,
}
use okeanos.Boot.Relocation.{Memory}

-- `CHUNK_SIZE`
abbrev pub chunk_size : ℕ
chunk_size = 0x1000

pub record V1Timeouts : Type 0 where
  pub try_resend : ℕ
  pub buffer_retry : ℕ
  pub try_resend_chunk : ℕ

-- `V1Timeouts::new_8n1`
abbrev pub new_8n1 : ℕ → V1Timeouts
new_8n1 baud = record {
  try_resend = at_baud_8n1 0x300 baud;
  buffer_retry = at_baud_8n1 0x80 baud;
  try_resend_chunk = at_baud_8n1 (chunk_size * 16) baud;
}

-- `LoaderEnum`
pub data LoaderEnum : Type 0 where
  bin_loader : BinLoader → LoaderEnum
  elf_loader : ElfLoader → LoaderEnum

-- `Loader::receive_bytes`, which returns `Ok(())` for both loaders.
abbrev pub receive_bytes : LoaderEnum → Memory → List ℕ → LoaderEnum × Memory
receive_bytes (bin_loader l) mem bytes =
    let (l', mem') = bin_receive_bytes l mem bytes in (bin_loader l', mem')
receive_bytes (elf_loader l) mem bytes = (elf_loader (elf_receive_bytes l bytes), mem)

-- The states of the download, `S`.
pub data S : Type 0 where
  request_metadata : S
  ack_metadata : Metadata → S
  request_chunk : ℕ → ℕ → LoaderEnum → S
  boot : Booter → S

-- The status and error of `miniz_oxide::inflate::stream::inflate`, as the code tells them apart.
pub data MzStatus : Type 0 where
  ok stream_end need_dict buf_error data_error other_error : MzStatus

pub record InflateResult (I : Type 0) : Type 0 where
  pub state : I
  pub bytes_consumed : ℕ
  pub written : List ℕ
  pub status : MzStatus

-- miniz_oxide's streaming inflate: a call takes a state, the input at hand and the room for output.
-- By its documentation a call takes a beginning of the input, and a stream that has ended stays so;
-- `input` and `output` are what a state has taken and written in all.
pub record Inflate : Type 1 where
  pub I : Type 0
  pub new : I
  pub inflate : I → List ℕ → ℕ → InflateResult I
  pub input : I → List ℕ
  pub output : I → List ℕ
  pub HasEnded : I → Type 0
  pub input-new : input new ≡ List.[]
  pub output-new : output new ≡ List.[]
  pub consumed-le : (i : I) (p : List ℕ) (room : ℕ) → (inflate i p room).bytes_consumed ≤ length p
  pub input-inflate :
      (i : I) (p : List ℕ) (room : ℕ)
      → input (inflate i p room).state ≡ input i ++ take (inflate i p room).bytes_consumed p
  pub output-inflate :
      (i : I) (p : List ℕ) (room : ℕ)
      → output (inflate i p room).state ≡ output i ++ (inflate i p room).written
  pub ends :
      (i : I) (p : List ℕ) (room : ℕ)
      → (inflate i p room).status ≡ stream_end
      → HasEnded (inflate i p room).state
  pub stays_ended : (i : I) (p : List ℕ) (room : ℕ) → HasEnded i → HasEnded (inflate i p room).state

-- `V2`. `pending` is the input that is kept for the next call, the first `remainder` bytes of the
-- inflate buffer; the bytes behind it are not read before they are written again.
pub record V2 (I : Type 0) : Type 0 where
  pub state : S
  pub once : Bool
  pub retry_buffer : Bool
  pub heartbeat : ℕ
  pub baud : ℕ
  pub timeouts : V1Timeouts
  pub inflate_state : I
  pub pending : List ℕ

-- `V2::new`, at the time `now`.
abbrev pub new : (z : Inflate) → ℕ → ℕ → V2 z.I
new z now baud = record {
  state = request_metadata;
  once = true;
  retry_buffer = false;
  heartbeat = now;
  baud = baud;
  timeouts = new_8n1 baud;
  inflate_state = z.new;
  pending = List.[];
}
