-- ===== src/Tests/Download.antt =====
-- The download of a program by device/okboot and host/okdude, at concrete inputs.
use okeanos.Prelude.{
  inl, if◌then◌else◌, ◌==◌, ℕ, ◌*◌, ◌≤◌, ◌<◌, true, false, List, [], ◌∷◌, ◌++◌, some, length, take,
  take-length, append-nil, Outcome, out_of_fuel, ok, err, panic, ◌≡◌, ◌≢◌, ◌⊎◌, inr, refl, sym, ap,
  subst, arith,
}
use okeanos.Boot.Timeouts
use okeanos.Boot.Timeouts.{at_baud_8n1, at_baud_8n1_lem}
use okeanos.Boot.Transmit.{TransmitBuffer}
use okeanos.Boot.Transmit.Laws.{IsValid, contents}
use okeanos.Boot.Protocol.Handshake.{flush_to_fifo}
use okeanos.Boot.Protocol.Handshake.Flush.{flush_to_fifo-contents}
use okeanos.Host.Upload.{Info, chunk, dispatch_chunk_req}
use okeanos.Host.Upload.Chunks.{dispatch_chunk_req_lem}
use okeanos.Boot.V2.{
  Inflate, InflateResult, MzStatus, buf_error, LoaderEnum, elf_loader, V2, request_chunk, boot,
}
use okeanos.Boot.V2
use okeanos.Boot.V2.Chunk.{Chunk, Work, out_room, inflate_loop, inflate_chunk, recv_chunk}
use okeanos.Boot.V2.Chunk.Fuel.{inflate_loop_ends}
use okeanos.Boot.V2.Chunk.Input.{StopsAtEnd, Taken, begins, feeds}
use okeanos.Boot.V2.Chunk.Order.{chunk_of, DownloadsNow, recv_chunk-DownloadsNow}
use okeanos.Boot.V2.Loader.{
  bin_finalize, Booter, Metadata, bin, elf, elf_new, ElfBytes, bin_new, bin_receive_bytes, crc,
}
use okeanos.Boot.V2.Loader.Content.{loader_with}
use okeanos.Boot.V2.Loader.Bin.{
  AllOneSide, receive_all, image, finalize-receive_all, receive-above, receive-straddle,
}
use okeanos.Boot.Relocation.{Memory, calculate, copy, slice, write_ptr, verify_integrity}
use okeanos.Boot.Relocation.Plan.{IsPlan, calculate-IsPlan}
use okeanos.Boot.V2.Protocol.{FromBytes, enters, handle_packet}
use okeanos.Boot.V2.Protocol.Download.{IsSent, Sound, handle_packet-Sound}
use okeanos.Frame.Message.{MessageType}
use okeanos.Tests.Coding.{sum32}

-- A buffer of three places whose two bytes go round the end of the storage.
abbrev round_the_end : TransmitBuffer
round_the_end = record {
  underlying_storage = 9 ∷ 0 ∷ 8 ∷ [];
  circle_begin = 2;
  circle_end = 1;
  circle_len = 2;
}

round_the_end-IsValid : IsValid round_the_end
round_the_end-IsValid = record { begin_in = omega arith; len_in = omega arith; end_is = refl }

flush_to_fifo-contents_example :
    ((flush_to_fifo round_the_end).1 ≡ contents round_the_end)
    × ((flush_to_fifo round_the_end).0.circle_len ≡ 0)
    × IsValid (flush_to_fifo round_the_end).0
flush_to_fifo-contents_example = flush_to_fifo-contents round_the_end round_the_end-IsValid

abbrev three_bytes : Info
three_bytes = record {
  compressed_len = 3;
  decompressed_len = 3;
  compressed_crc = 0;
  decompressed_crc = 0;
  chunk_size = 0x1000;
}

abbrev pub first : List ℕ
first = 5 ∷ 6 ∷ 7 ∷ []

dispatch_chunk_req_lem_example :
    ((0 * 0x1000 ≤ length first)
      × (dispatch_chunk_req three_bytes first 0
          ≡ ok (chunk (record { which = 0; bytes = chunk_of first 0 }))))
    ⊎ ((length first < 0 * 0x1000) × (dispatch_chunk_req three_bytes first 0 ≡ panic))
dispatch_chunk_req_lem_example = dispatch_chunk_req_lem three_bytes first 0 refl

-- An inflater of a format that is not compressed.
abbrev pub copy_all : List ℕ → List ℕ → ℕ → InflateResult (List ℕ)
copy_all i [] room = record { state = i; bytes_consumed = 0; written = []; status = buf_error }
copy_all i (x ∷ xs) room = record {
  state = i ++ x ∷ xs;
  bytes_consumed = length (x ∷ xs);
  written = x ∷ xs;
  status = MzStatus.ok;
}

pub copy_all-input :
    (i p : List ℕ) (room : ℕ)
    → (copy_all i p room).state ≡ i ++ take (copy_all i p room).bytes_consumed p
copy_all-input i [] room = sym (append-nil i)
copy_all-input i (x ∷ xs) room = ap (λ ys. i ++ ys) (sym (take-length (x ∷ xs)))

pub copy_all-output :
    (i p : List ℕ) (room : ℕ) → (copy_all i p room).state ≡ i ++ (copy_all i p room).written
copy_all-output i [] room = sym (append-nil i)
copy_all-output i (x ∷ xs) room = refl

pub copy_all-consumed : (i p : List ℕ) (room : ℕ) → (copy_all i p room).bytes_consumed ≤ length p
copy_all-consumed i [] room = omega arith
copy_all-consumed i (x ∷ xs) room = omega arith

pub copy_all-ends : (i p : List ℕ) (room : ℕ) → (copy_all i p room).status ≡ MzStatus.stream_end → ⊥
copy_all-ends i [] room h = cc h
copy_all-ends i (x ∷ xs) room h = cc h

abbrev pub copier : Inflate
copier = record {
  I = List ℕ;
  new = [];
  inflate = copy_all;
  input = λ i. i;
  output = λ i. i;
  HasEnded = λ i. ⊥;
  input-new = refl;
  output-new = refl;
  consumed-le = copy_all-consumed;
  input-inflate = copy_all-input;
  output-inflate = copy_all-output;
  ends = copy_all-ends;
  stays_ended = λ i p room h. h;
}

abbrev about : Metadata
about = record {
  deflated_crc = 0;
  deflated_len = 3;
  inflated_crc = 0;
  inflated_len = 3;
  format_details = elf;
}

abbrev some_work : Work (List ℕ)
some_work = record {
  inflate_state = [];
  pending = first;
  loader = elf_loader (elf_new about);
  mem = λ a. 0;
}

inflate_loop_ends_example : inflate_loop copier 4 some_work ≢ err out_of_fuel
inflate_loop_ends_example =
    inflate_loop_ends copier 4 3 3 some_work (λ i h. h) (omega arith) (omega arith)

-- A download of which no chunk has come yet, and one with its only one of two taken.
abbrev pub at_start : V2 (List ℕ)
at_start = record (V2.new copier 0 1_500_000) {
  state = request_chunk 0 2 (elf_loader (elf_new about));
  once = false;
}

abbrev pub no_elf : List ℕ → Outcome (Unit {0}) ElfBytes
no_elf bytes = err tt

pub copier-StopsAtEnd : StopsAtEnd copier
copier-StopsAtEnd i p room h = absurd h

-- The file of a flat binary of three bytes, of one chunk, for 0x8000, below the end of the loader.
abbrev pub flat : Metadata
flat = record about { inflated_crc = 18; format_details = bin 0x8000 }

abbrev pub end_of_loader : ℕ
end_of_loader = 0xc000

abbrev pub nothing_taken : V2 (List ℕ)
nothing_taken = record (V2.new copier 0 1_500_000) {
  state = request_chunk 0 1 (loader_with end_of_loader flat (bin 0x8000) []);
  once = false;
}

-- The side buffer begins at the end of the loader.
abbrev pub loaded_memory : Memory
loaded_memory = copy (λ a. 0) 0xc000 first

abbrev pub complete : V2 (List ℕ)
complete = record nothing_taken {
  state = boot (Booter.relocation (calculate 0x8000 3 end_of_loader));
  once = true;
  inflate_state = first;
}

pub nothing_taken-DownloadsNow :
    DownloadsNow copier end_of_loader sum32 no_elf flat first nothing_taken (λ a. 0)
nothing_taken-DownloadsNow = record {
  taken = record { reached = begins; input = inr refl };
  loaded = (refl, record { start = λ a. 0; slices = []; all = refl; is = refl });
  enough = omega arith;
}

abbrev pub first_chunk : Chunk
first_chunk = record { which = 0; bytes = first }

pub first_chunk-complete :
    recv_chunk copier sum32 no_elf 4 nothing_taken (λ a. 0) first_chunk
    ≡ ok (complete, loaded_memory, true)
unfolding recv_chunk inflate_chunk inflate_loop bin_receive_bytes bin_finalize verify_integrity
    slice copy write_ptr calculate
first_chunk-complete = refl

recv_chunk-DownloadsNow_example :
    DownloadsNow copier end_of_loader sum32 no_elf flat first complete loaded_memory
recv_chunk-DownloadsNow_example =
    recv_chunk-DownloadsNow copier end_of_loader sum32 no_elf flat first copier-StopsAtEnd 4
      nothing_taken complete (λ a. 0) loaded_memory first_chunk nothing_taken-DownloadsNow refl
      first_chunk-complete

-- What is read of a host that sends these bytes.
abbrev pub always : FromBytes
always = record {
  metadata = λ payload. some flat;
  metadata_ack_ack = λ payload. some true;
  chunk = λ payload. some first_chunk;
}

some-injective : {A : Type 0} {a b : A} → some a ≡ some b → a ≡ b
some-injective e = cc e

pub always-IsSent : (t : MessageType) (payload : List ℕ) → IsSent always flat first t payload
always-IsSent MessageType.metadata payload = λ m e. sym (some-injective e)
always-IsSent MessageType.chunk payload =
    λ msg e. subst (λ (c : Chunk). c.bytes ≡ chunk_of first c.which) (some-injective e) refl
always-IsSent MessageType.print_string payload = tt
always-IsSent MessageType.probe payload = tt
always-IsSent MessageType.allowed_versions payload = tt
always-IsSent MessageType.use_version payload = tt
always-IsSent MessageType.metadata_req payload = tt
always-IsSent MessageType.metadata_ack payload = tt
always-IsSent MessageType.metadata_ack_ack payload = tt
always-IsSent MessageType.chunk_req payload = tt
always-IsSent MessageType.booting payload = tt
always-IsSent MessageType.booting_ack payload = tt

abbrev no_timeouts : Timeouts.Timeouts
no_timeouts = Timeouts.new_8n1 115_200

-- The program is entered.
entered :
    handle_packet copier {PE = Unit {0}} sum32 no_elf always end_of_loader 4 complete loaded_memory
      no_timeouts MessageType.booting_ack []
    ≡ ok (enters (Booter.relocation (calculate 0x8000 3 end_of_loader)) loaded_memory)
unfolding handle_packet
entered = refl

pub complete-Taken : Taken copier first [] first
complete-Taken = record { reached = feeds first out_room begins; input = inr refl }

pub complete-DownloadsNow :
    DownloadsNow copier end_of_loader sum32 no_elf flat first complete loaded_memory
complete-DownloadsNow =
    recv_chunk-DownloadsNow copier end_of_loader sum32 no_elf flat first copier-StopsAtEnd 4
      nothing_taken complete (λ a. 0) loaded_memory first_chunk nothing_taken-DownloadsNow refl
      first_chunk-complete

handle_packet-Sound_example :
    Sound copier end_of_loader {PE = Unit {0}} sum32 no_elf flat first complete
      (enters (Booter.relocation (calculate 0x8000 3 end_of_loader)) loaded_memory)
handle_packet-Sound_example =
    handle_packet-Sound copier copier-StopsAtEnd {PE = Unit {0}} sum32 no_elf always end_of_loader 4
      flat first complete loaded_memory no_timeouts MessageType.booting_ack []
      (enters (Booter.relocation (calculate 0x8000 3 end_of_loader)) loaded_memory) tt refl
      (omega arith) complete-DownloadsNow entered

calculate-IsPlan_example : IsPlan (calculate 0x8000 0x9000 0xc000) 0x8000 0x9000 0xc000
calculate-IsPlan_example =
    calculate-IsPlan 0x8000 0x9000 0xc000 (omega arith) (omega arith) (omega arith)

receive-above_example :
    (bin_receive_bytes
        (record (bin_new 0x8000 0x10_0000 about) { bytes_written = 0 })
        (λ a. 0)
        first).1
      0x10_0001
    ≡ 0
receive-above_example =
    receive-above 0x8000 0x10_0000 about 0 (λ a. 0) first 0x10_0001 (omega arith) (omega arith)
      (omega arith)

-- An image of 0x9000 bytes for 0x8000, under a loader that ends at 0xc000.
abbrev image_about : Metadata
image_about = record about { inflated_len = 0x9000; format_details = bin 0x8000 }

straddle_first : 0 < (calculate 0x8000 0x9000 0xc000).relocate_first_n_bytes
unfolding calculate
straddle_first = omega arith

receive-straddle_example :
    (bin_receive_bytes (bin_new 0xc000 0x8000 image_about) (λ a. 1) first).1 0x9000 ≡ 1
receive-straddle_example =
    receive-straddle 0xc000 0x8000 0x9000 image_about (bin_new 0xc000 0x8000 image_about) (λ a. 1)
      first 0x9000 (omega arith) (omega arith) (omega arith) refl straddle_first (omega arith)

abbrev small_image : Metadata
small_image = record about { inflated_crc = 18; format_details = bin 0x8000 }

one_side : AllOneSide (calculate 0x8000 3 0xc000) 0 (first ∷ [])
unfolding calculate
one_side = (inl (omega arith), tt)

finalize-receive_all_example :
    let (l, mem') = receive_all (bin_new 0xc000 0x8000 small_image) (λ a. 0) (first ∷ []) in
    bin_finalize {P = Unit {0}} sum32 l mem' ≡ (
      if 18 == sum32.finalize (sum32.update sum32.new (image (first ∷ [])))
      then ok (Booter.relocation (calculate 0x8000 3 0xc000))
      else err crc)
finalize-receive_all_example =
    finalize-receive_all sum32 0xc000 0x8000 small_image (λ a. 0) (first ∷ []) (omega arith) refl
      (omega arith) (omega arith) one_side
