-- ===== src/Frame/Layer.antt =====
-- common/okboot-common/src/frame/decode.rs, `FrameLayer`: the decoder of whole frames, over the
-- preamble decoder and the COBS decoder. An access of an array out of its bounds is a panic.
pub mod Feeds
pub mod Start
pub mod Packet
pub mod RoundTrip
use okeanos.Prelude.{
  ℕ, ◌+◌, ◌-◌, ◌*◌, ◌^◌, bit_and, bit_or, Option, none, some, List, [], ◌∷◌, map, ◌==◌, ltb, leb,
  not, if◌then◌else◌, get_or, set, replicate, Outcome, ok, err, panic,
}
use okeanos.Prelude.Words.{from_le_bytes32}
use okeanos.Frame.Crc.{Crc32, write_u8}
use okeanos.Frame.Message.{MessageType, try_from}
use okeanos.Frame.Preamble
use okeanos.Frame.Preamble.{
  PreambleDecoder, PreambleStatus, PreambleError, legacy_put_program_info, legacy_put_string,
}
use okeanos.Frame.Cobs
use okeanos.Frame.Cobs.{CobsDecoder, CobsError, CobsState, byte}

pub record FrameHeader : Type 0 where
  pub message_type : MessageType
  pub payload_len : ℕ

pub data FrameError : Type 0 where
  invalid_type : ℕ → FrameError
  invalid_crc : ℕ → ℕ → FrameError
  cobs : CobsError → FrameError
  preamble : PreambleError → FrameError
  overrun : FrameHeader → ℕ → FrameError
  header_cutoff : List ℕ → ℕ → FrameError
  payload_cutoff : FrameHeader → ℕ → FrameError
  crc_cutoff : List ℕ → ℕ → FrameError
  length_encoding : ℕ → ℕ → FrameError

pub data FrameState : Type 0 where
  preamble : FrameState
  length : ℕ → FrameState
  packet_header : ℕ → ℕ → FrameState
  packet_body : ℕ → FrameHeader → FrameState
  legacy : FrameState
  legacy_print_string : ℕ → ℕ → FrameState

pub data FrameOutput : Type 0 where
  skip : FrameOutput
  header : FrameHeader → FrameOutput
  payload : ℕ → FrameOutput
  finished : FrameOutput
  legacy : FrameOutput
  legacy_print_string_byte : ℕ → ℕ → FrameOutput

-- `H` is the type of the checksum's state.
pub record FrameLayer (H : Type 0) : Type 0 where
  pub preamble_layer : PreambleDecoder
  pub cobs_decoder : CobsDecoder
  pub length_bytes : List ℕ
  pub header_bytes : List ℕ
  pub crc_bytes : List ℕ
  pub decode_state : FrameState
  pub crc : H

-- `map_err(|_| FrameError::InvalidType(message_type))?`, and the header on a success
abbrev pub header_of : ℕ → ℕ → Option MessageType → Outcome FrameError FrameHeader
header_of word payload_len none = err (invalid_type word)
header_of word payload_len (some m) = ok (record { message_type = m; payload_len = payload_len })

module _ (crc32 : Crc32) where
  abbrev pub Layer : Type 0
  Layer = FrameLayer crc32.Hasher

  abbrev pub Fed : Type 0
  Fed = Layer × Outcome FrameError FrameOutput

  -- `FrameLayer::new`
  abbrev pub new : ℕ → Layer
  new cobs_xor = record {
    preamble_layer = Preamble.new;
    cobs_decoder = Cobs.new cobs_xor;
    length_bytes = replicate 4 0;
    header_bytes = replicate 4 0;
    crc_bytes = replicate 4 0;
    decode_state = FrameState.preamble;
    crc = crc32.new;
  }

  -- `FrameLayer::skip_preamble`
  abbrev pub skip_preamble : Layer → Layer
  skip_preamble l = record l { decode_state = FrameState.length 0 }

  -- `FrameLayer::reset`. The arrays keep their four places.
  unfoldable pub reset : Layer → Layer
  reset l = record {
    preamble_layer = Preamble.new;
    cobs_decoder = Cobs.reset l.cobs_decoder;
    length_bytes = map (λ _. 0) l.length_bytes;
    header_bytes = map (λ _. 0) l.header_bytes;
    crc_bytes = map (λ _. 0) l.crc_bytes;
    decode_state = FrameState.preamble;
    crc = crc32.new;
  }

  abbrev pub le_word : List ℕ → ℕ
  le_word bytes =
      from_le_bytes32 (get_or bytes 0 0) (get_or bytes 1 0) (get_or bytes 2 0) (get_or bytes 3 0)

  -- `FrameLayer::decode_header_bytes`
  unfoldable pub decode_header_bytes : Layer → ℕ → Outcome FrameError FrameHeader
  decode_header_bytes l payload_len =
      let word = le_word l.header_bytes in header_of word payload_len (try_from word)

  -- `feed` in the state `Preamble`, with the answer of the preamble layer
  unfoldable pub feed_preamble :
      Layer → PreambleDecoder × Outcome PreambleError PreambleStatus → Fed
  feed_preamble l (p, ok Preamble.preamble) =
      (record l { preamble_layer = p; decode_state = FrameState.length 0 }, ok FrameOutput.skip)
  feed_preamble l (p, ok legacy_put_program_info) =
      (record l { preamble_layer = p; decode_state = FrameState.legacy }, ok FrameOutput.legacy)
  feed_preamble l (p, ok Preamble.skip) = (record l { preamble_layer = p }, ok FrameOutput.skip)
  feed_preamble l (p, ok (legacy_put_string len)) = (
    record l { preamble_layer = p; decode_state = FrameState.legacy_print_string len 0 },
    ok FrameOutput.skip,
  )
  feed_preamble l (p, err e) = (record l { preamble_layer = p }, err (FrameError.preamble e))
  feed_preamble l (p, panic) = (record l { preamble_layer = p }, panic)

  -- The payload length from the length bytes: the low six bits of each.
  abbrev sextets : List ℕ → ℕ
  sextets bytes =
      let s = λ (i : ℕ). bit_and (get_or bytes i 0) 0x3f in
      bit_or (bit_or (bit_or (s 0) (s 1 * 2 ^ 6)) (s 2 * 2 ^ 12)) (s 3 * 2 ^ 18)

  -- `feed` in the state `Length(i)`
  unfoldable pub feed_length : Layer → ℕ → ℕ → Fed
  feed_length l i b =
      if not (bit_and b 0xc0 == 0xc0)
      then (l, err (length_encoding i b))
      else if leb 4 i
      then (l, panic)
      else (let l1 = record l { length_bytes = set l.length_bytes i b } in
          if i == 3
          then (
            record l1 { decode_state = FrameState.packet_header 0 (sextets l1.length_bytes) },
            ok FrameOutput.skip,
          )
          else (record l1 { decode_state = FrameState.length (i + 1) }, ok FrameOutput.skip))

  -- behind the fourth byte of the message type
  header_done : Layer → ℕ → Outcome FrameError FrameHeader → Fed
  header_done l i (ok h) =
      (record l { decode_state = FrameState.packet_body (i + 1) h }, ok (FrameOutput.header h))
  header_done l i (err e) = (l, err e)
  header_done l i panic = (l, panic)

  -- `feed` in the state `PacketHeader(i, payload_len)`, with the answer of the COBS decoder
  unfoldable pub feed_header : Layer → ℕ → ℕ → CobsState → Fed
  unfolding header_done
  feed_header l i payload_len Cobs.skip = (l, ok FrameOutput.skip)
  feed_header l i payload_len (byte b) =
      let l1 = record l { decode_state = FrameState.packet_header (i + 1) payload_len } in
      let l2 = record l1 {
        header_bytes = set l1.header_bytes i b;
        crc = write_u8 crc32 l1.crc b;
      } in
      if leb 4 i
      then (l1, panic)
      else if i == 3
      then header_done l2 i (decode_header_bytes l2 payload_len)
      else (l2, ok FrameOutput.skip)
  feed_header l i payload_len Cobs.finished = (l, err (header_cutoff l.header_bytes i))

  -- `feed` in the state `PacketBody(i, frame_header)`, with the answer of the COBS decoder
  unfoldable pub feed_body : Layer → ℕ → FrameHeader → CobsState → Fed
  feed_body l i h Cobs.skip = (l, ok FrameOutput.skip)
  feed_body l i h (byte b) =
      let l1 = record l { decode_state = FrameState.packet_body (i + 1) h } in
      let packet_finishes_at_index = 4 + h.payload_len in
      if ltb i packet_finishes_at_index
      then (record l1 { crc = write_u8 crc32 l1.crc b }, ok (FrameOutput.payload b))
      else if ltb i (packet_finishes_at_index + 4)
      then (
        record l1 { crc_bytes = set l1.crc_bytes (i - packet_finishes_at_index) b },
        ok FrameOutput.skip,
      )
      else (l1, err (overrun h b))
  feed_body l i h Cobs.finished =
      let crc = crc32.finalize l.crc in
      let l1 = record l { crc = crc32.new } in
      let frame_crc = le_word l.crc_bytes in
      if ltb i (4 + h.payload_len)
      then (l1, err (payload_cutoff h i))
      else if ltb i (4 + h.payload_len + 4)
      then (l1, err (crc_cutoff l1.crc_bytes i))
      else if not (frame_crc == crc)
      then (l1, err (invalid_crc crc frame_crc))
      else (record l1 { decode_state = FrameState.preamble }, ok FrameOutput.finished)

  -- `self.cobs_decoder.poll(byte).map_err(FrameError::Cobs)?`, and what follows on a success
  abbrev pub behind_cobs :
      Layer → CobsDecoder × Outcome CobsError CobsState → (Layer → CobsState → Fed) → Fed
  behind_cobs l (d, ok s) k = k (record l { cobs_decoder = d }) s
  behind_cobs l (d, err e) k = (record l { cobs_decoder = d }, err (FrameError.cobs e))
  behind_cobs l (d, panic) k = (record l { cobs_decoder = d }, panic)

  -- `feed` in the state `LegacyPrintString(length, index)`
  unfoldable pub feed_print_string : Layer → ℕ → ℕ → ℕ → Fed
  feed_print_string l len index b =
      let next_index = index + 1 in
      if leb len next_index
      then (record l { decode_state = FrameState.preamble }, ok (legacy_print_string_byte len b))
      else (
        record l { decode_state = FrameState.legacy_print_string len next_index },
        ok (legacy_print_string_byte len b),
      )

  unfoldable pub feed_in : FrameState → Layer → ℕ → Fed
  feed_in FrameState.legacy l b = (l, ok FrameOutput.legacy)
  feed_in FrameState.preamble l b = feed_preamble l (Preamble.poll l.preamble_layer b)
  feed_in (FrameState.length i) l b = feed_length l i b
  feed_in (FrameState.packet_header i payload_len) l b =
      behind_cobs l (Cobs.poll l.cobs_decoder b) (λ l' s. feed_header l' i payload_len s)
  feed_in (FrameState.packet_body i h) l b =
      behind_cobs l (Cobs.poll l.cobs_decoder b) (λ l' s. feed_body l' i h s)
  feed_in (FrameState.legacy_print_string len index) l b = feed_print_string l len index b

  -- `FrameLayer::feed`
  unfoldable pub feed : Layer → ℕ → Fed
  unfolding feed_in
  feed l b = feed_in l.decode_state l b
