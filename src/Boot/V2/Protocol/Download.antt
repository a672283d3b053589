-- ===== src/Boot/V2/Protocol/Download.antt =====
-- What a host that follows the protocol achieves: `handle_packet` of
-- device/okboot/src/protocol/v2.rs keeps the download sound up to the program that is entered.
use okeanos.Prelude.{
  ℕ, ◌+◌, ◌^◌, ◌≤◌, Bool, true, false, List, Option, none, some, length, Outcome, Exec, ok,
  >>=-eq-ok, ok-injective, ◌≡◌, refl, subst,
}
use okeanos.Frame.Crc.{Crc32}
use okeanos.Frame.Message.{MessageType}
use okeanos.Boot.Relocation.{Memory}
use okeanos.Boot.Timeouts.{Timeouts}
use okeanos.Boot.Protocol.{continue, abcon, abend, switch}
use okeanos.Boot.V2.{
  chunk_size, S, request_metadata, ack_metadata, request_chunk, boot, Inflate, V2,
}
use okeanos.Boot.V2.Chunk.{Chunk, recv_chunk}
use okeanos.Boot.V2.Chunk.Input.{StopsAtEnd}
use okeanos.Boot.V2.Chunk.Order.{
  chunk_of, Finalized, Downloads, DownloadsNow, recv_chunk-DownloadsNow,
}
use okeanos.Boot.V2.Loader.{Metadata, ElfBytes}
use okeanos.Boot.V2.Protocol.{
  FromBytes, Reply, stays, enters, recv_metadata, recv_metadata_in, recv_metadata_ack_ack,
  recv_metadata_ack_ack_in, recv_booting_ack, handle_metadata, handle_metadata_ack_ack,
  chunk_status, handle_chunk, handle_packet,
}
use okeanos.Boot.V2.Protocol.States.{
  Now, keeps_state, recv_metadata_in-Now, recv_metadata_ack_ack_in-Now,
}

-- A packet is one that a host sends with the file of the metadata `m` and the compressed bytes
-- `deflated`, as far as the download reads it: metadata are those of the file, and a chunk is the one
-- that it says it is.
abbrev pub IsSent : FromBytes → Metadata → List ℕ → MessageType → List ℕ → Type 0
IsSent from_bytes m deflated MessageType.metadata payload =
    (m' : Metadata) → from_bytes.metadata payload ≡ some m' → m' ≡ m
IsSent from_bytes m deflated MessageType.chunk payload =
    (msg : Chunk) → from_bytes.chunk payload ≡ some msg → msg.bytes ≡ chunk_of deflated msg.which
IsSent from_bytes m deflated t payload = Unit

-- A reply that goes on goes on with a sound download, and a program is entered only with one that is
-- complete. An abnormal end gives the download up, and nothing switches to another protocol.
abbrev pub Sound :
    (z : Inflate) (self_end : ℕ) {P PE : Type 0}
    → Crc32
    → (List ℕ → Outcome P ElfBytes)
    → Metadata
    → List ℕ
    → V2 z.I
    → Reply z.I PE
    → Type 0
Sound z self_end crc32 minimal_parse m deflated v (stays v' mem timeouts abend) = Unit
Sound z self_end crc32 minimal_parse m deflated v (stays v' mem timeouts continue) =
    DownloadsNow z self_end crc32 minimal_parse m deflated v' mem
Sound z self_end crc32 minimal_parse m deflated v (stays v' mem timeouts abcon) =
    DownloadsNow z self_end crc32 minimal_parse m deflated v' mem
Sound z self_end crc32 minimal_parse m deflated v (stays v' mem timeouts (switch p)) = ⊥
Sound z self_end crc32 minimal_parse m deflated v (enters booter mem) =
    Finalized z self_end crc32 minimal_parse m deflated v.inflate_state v.pending booter mem

module _ (z : Inflate) (stops : StopsAtEnd z) {P PE : Type 0} (crc32 : Crc32)
    (minimal_parse : List ℕ → Outcome P ElfBytes) (from_bytes : FromBytes) (self_end fuel : ℕ)
    (m : Metadata) (deflated : List ℕ) where
  goes_on-Sound :
      (v v' : V2 z.I) (mem : Memory) (timeouts : Timeouts) (reply : Reply z.I PE)
      → Now z self_end crc32 minimal_parse m deflated mem v'
      → let r : Exec (Reply z.I PE) = ok (stays v' mem timeouts continue) in
        r ≡ ok reply → Sound z self_end crc32 minimal_parse m deflated v reply
  goes_on-Sound v v' mem timeouts reply h run =
      subst (λ r. Sound z self_end crc32 minimal_parse m deflated v r) (ok-injective _ refl run) h

  handle_chunk-Sound :
      (v : V2 z.I) (mem : Memory) (timeouts : Timeouts) (o : Option Chunk) (reply : Reply z.I PE)
      → Now z self_end crc32 minimal_parse m deflated mem v
      → ((msg : Chunk) → o ≡ some msg → msg.bytes ≡ chunk_of deflated msg.which)
      → handle_chunk z crc32 minimal_parse from_bytes self_end fuel v mem timeouts o ≡ ok reply
      → Sound z self_end crc32 minimal_parse m deflated v reply
  handle_chunk-Sound v mem timeouts none reply h host run =
      goes_on-Sound v v mem timeouts reply h run
  handle_chunk-Sound v mem timeouts (some msg) reply h host run =
      let (r, got, run') = >>=-eq-ok (recv_chunk z crc32 minimal_parse fuel v mem msg) _ run in
      subst (λ r. Sound z self_end crc32 minimal_parse m deflated v r) (ok-injective _ refl run')
        (by_result r got)
    where
      by_result :
          (r : V2 z.I × Memory × Bool)
          → recv_chunk z crc32 minimal_parse fuel v mem msg ≡ ok r
          → Sound z self_end {PE = PE} crc32 minimal_parse m deflated v (
              stays r.0 r.1 timeouts
                (chunk_status z crc32 minimal_parse from_bytes self_end fuel r.2))
      by_result (v', mem', true) got =
          recv_chunk-DownloadsNow z self_end crc32 minimal_parse m deflated stops fuel v v' mem mem'
            msg h (host msg refl) got
      by_result (v', mem', false) got = tt

  booting_ack-Sound :
      (v : V2 z.I) (mem : Memory) (timeouts : Timeouts) (s : S) (reply : Reply z.I PE)
      → v.state ≡ s
      → Downloads z self_end crc32 minimal_parse m deflated v mem s
      → recv_booting_ack z crc32 minimal_parse from_bytes self_end fuel v mem timeouts s ≡ ok reply
      → Sound z self_end crc32 minimal_parse m deflated v reply
  booting_ack-Sound v mem timeouts request_metadata reply e h run =
      goes_on-Sound v v mem timeouts reply
        (keeps_state z self_end crc32 minimal_parse m deflated mem v _ e h) run
  booting_ack-Sound v mem timeouts (ack_metadata m') reply e h run =
      goes_on-Sound v v mem timeouts reply
        (keeps_state z self_end crc32 minimal_parse m deflated mem v _ e h) run
  booting_ack-Sound v mem timeouts (request_chunk which count l) reply e h run =
      goes_on-Sound v v mem timeouts reply
        (keeps_state z self_end crc32 minimal_parse m deflated mem v _ e h) run
  booting_ack-Sound v mem timeouts (boot booter) reply e h run =
      subst (λ r. Sound z self_end crc32 minimal_parse m deflated v r) (ok-injective _ refl run) h

  handle_metadata-Sound :
      (v : V2 z.I) (mem : Memory) (timeouts : Timeouts) (o : Option Metadata) (reply : Reply z.I PE)
      → Now z self_end crc32 minimal_parse m deflated mem v
      → ((m' : Metadata) → o ≡ some m' → m' ≡ m)
      → handle_metadata z crc32 minimal_parse from_bytes self_end fuel v mem timeouts o ≡ ok reply
      → Sound z self_end crc32 minimal_parse m deflated v reply
  unfolding recv_metadata
  handle_metadata-Sound v mem timeouts none reply h host run =
      goes_on-Sound v v mem timeouts reply h run
  handle_metadata-Sound v mem timeouts (some sent) reply h host run =
      let (v', timeouts') = recv_metadata_in z v timeouts sent v.state in
      goes_on-Sound v v' mem timeouts' reply
        (recv_metadata_in-Now z self_end crc32 minimal_parse m deflated mem v timeouts sent v.state
          refl h (host sent refl))
        run

  handle_metadata_ack_ack-Sound :
      (v : V2 z.I) (mem : Memory) (timeouts : Timeouts) (o : Option Bool) (reply : Reply z.I PE)
      → Now z self_end crc32 minimal_parse m deflated mem v
      → m.deflated_len ≡ length deflated
      → length deflated + chunk_size ≤ 2 ^ 32
      → handle_metadata_ack_ack z crc32 minimal_parse from_bytes self_end fuel v mem timeouts o
        ≡ ok reply
      → Sound z self_end crc32 minimal_parse m deflated v reply
  unfolding recv_metadata_ack_ack
  handle_metadata_ack_ack-Sound v mem timeouts none reply h size fits run =
      goes_on-Sound v v mem timeouts reply h run
  handle_metadata_ack_ack-Sound v mem timeouts (some is_ok) reply h size fits run =
      let (v', got, run') = >>=-eq-ok (recv_metadata_ack_ack_in z self_end v is_ok v.state) _ run in
      goes_on-Sound v v' mem timeouts reply
        (recv_metadata_ack_ack_in-Now z self_end crc32 minimal_parse m deflated mem v v' is_ok
          v.state refl h size fits got)
        run'

  -- From a download of a file that is sound, a packet that a host sends with the file: a reply that goes
  -- on goes on with a sound download, and a program is entered, with the memory as it is then, only
  -- after all of the compressed bytes were taken, each chunk once and in order, up to the end of the
  -- compressed stream, after the slices that were inflated of them were laid in memory, if the file is a
  -- flat binary, each whole at the place that the relocation has for its first byte, and after the loader
  -- of the file's metadata, which has all of them, has accepted them. The metadata have the length of the
  -- compressed bytes, which leave a chunk of room below 2 ^ 32, and an inflater at the end of its stream
  -- takes no more.
  pub handle_packet-Sound :
      (v : V2 z.I) (mem : Memory) (timeouts : Timeouts) (t : MessageType) (payload : List ℕ)
      (reply : Reply z.I PE)
      → IsSent from_bytes m deflated t payload
      → m.deflated_len ≡ length deflated
      → length deflated + chunk_size ≤ 2 ^ 32
      → DownloadsNow z self_end crc32 minimal_parse m deflated v mem
      → handle_packet z crc32 minimal_parse from_bytes self_end fuel v mem timeouts t payload
        ≡ ok reply
      → Sound z self_end crc32 minimal_parse m deflated v reply
  unfolding handle_packet
  handle_packet-Sound v mem timeouts MessageType.metadata payload reply host size fits h run =
      handle_metadata-Sound v mem timeouts _ reply h host run
  handle_packet-Sound v mem timeouts MessageType.metadata_ack_ack payload reply host size fits h
        run =
      handle_metadata_ack_ack-Sound v mem timeouts _ reply h size fits run
  handle_packet-Sound v mem timeouts MessageType.chunk payload reply host size fits h run =
      handle_chunk-Sound v mem timeouts _ reply h host run
  handle_packet-Sound v mem timeouts MessageType.booting_ack payload reply host size fits h run =
      booting_ack-Sound v mem timeouts v.state reply refl h run
  handle_packet-Sound v mem timeouts MessageType.print_string payload reply host size fits h run =
      goes_on-Sound v v mem timeouts reply h run
  handle_packet-Sound v mem timeouts MessageType.probe payload reply host size fits h run =
      goes_on-Sound v v mem timeouts reply h run
  handle_packet-Sound v mem timeouts MessageType.allowed_versions payload reply host size fits h
        run =
      goes_on-Sound v v mem timeouts reply h run
  handle_packet-Sound v mem timeouts MessageType.use_version payload reply host size fits h run =
      goes_on-Sound v v mem timeouts reply h run
  handle_packet-Sound v mem timeouts MessageType.metadata_req payload reply host size fits h run =
      goes_on-Sound v v mem timeouts reply h run
  handle_packet-Sound v mem timeouts MessageType.metadata_ack payload reply host size fits h run =
      goes_on-Sound v v mem timeouts reply h run
  handle_packet-Sound v mem timeouts MessageType.chunk_req payload reply host size fits h run =
      goes_on-Sound v v mem timeouts reply h run
  handle_packet-Sound v mem timeouts MessageType.booting payload reply host size fits h run =
      goes_on-Sound v v mem timeouts reply h run
