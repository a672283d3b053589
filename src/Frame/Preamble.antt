-- ===== src/Frame/Preamble.antt =====
-- common/okboot-common/src/frame/decode.rs, `PreambleDecoder` and `PreambleLayer`: the state
-- machine that finds the start of a message in a stream of bytes.
pub mod Laws
use okeanos.Prelude.{ℕ, ◌==◌, if◌then◌else◌, Outcome, ok, err}
use okeanos.Prelude.Words.{from_le_bytes32}

-- `LegacyPutStringLength1([a])` and the like hold the bytes of the length read so far.
pub data PreambleState : Type 0 where
  initial preamble1 preamble2 preamble3 : PreambleState
  legacy_put_program_info1 legacy_put_program_info2 legacy_put_program_info3 : PreambleState
  legacy_put_string1 legacy_put_string2 legacy_put_string3 : PreambleState
  legacy_put_string_length0 : PreambleState
  legacy_put_string_length1 : ℕ → PreambleState
  legacy_put_string_length2 : ℕ → ℕ → PreambleState
  legacy_put_string_length3 : ℕ → ℕ → ℕ → PreambleState

pub data PreambleStatus : Type 0 where
  skip preamble legacy_put_program_info : PreambleStatus
  legacy_put_string : ℕ → PreambleStatus

pub record PreambleError : Type 0 where
  pub state : PreambleState
  pub wrong_byte : ℕ

pub record PreambleDecoder : Type 0 where
  pub state : PreambleState

abbrev pub Fed : Type 0
Fed = PreambleDecoder × Outcome PreambleError PreambleStatus

-- `PreambleDecoder::new` and `reset`
abbrev pub new : PreambleDecoder
new = record { state = initial }

-- The ways in which an arm of the match ends.
abbrev goto : PreambleState → Fed
goto s = (record { state = s }, ok skip)

abbrev done : PreambleStatus → Fed
done status = (new, ok status)

abbrev wrong : PreambleState → ℕ → Fed
wrong s byte = (new, err (record { state = s; wrong_byte = byte }))

feed_in : PreambleState → ℕ → Fed
feed_in initial byte =
    if byte == 0x55
    then goto preamble1
    else if byte == 0x44
    then goto legacy_put_program_info1
    else if byte == 0xee
    then goto legacy_put_string1
    else wrong initial byte
feed_in preamble1 byte = if byte == 0x55 then goto preamble2 else wrong preamble1 byte
feed_in preamble2 byte = if byte == 0x55 then goto preamble3 else wrong preamble2 byte
feed_in preamble3 byte =
    if byte == 0x5e
    then done preamble
    else if byte == 0x55
    then goto preamble3
    else wrong preamble3 byte
feed_in legacy_put_program_info1 byte =
    if byte == 0x44 then goto legacy_put_program_info2 else wrong legacy_put_program_info1 byte
feed_in legacy_put_program_info2 byte =
    if byte == 0x33 then goto legacy_put_program_info3 else wrong legacy_put_program_info2 byte
feed_in legacy_put_program_info3 byte =
    if byte == 0x33 then done legacy_put_program_info else wrong legacy_put_program_info3 byte
feed_in legacy_put_string1 byte =
    if byte == 0xee then goto legacy_put_string2 else wrong legacy_put_string1 byte
feed_in legacy_put_string2 byte =
    if byte == 0xdd then goto legacy_put_string3 else wrong legacy_put_string2 byte
feed_in legacy_put_string3 byte =
    if byte == 0xdd then goto legacy_put_string_length0 else wrong legacy_put_string3 byte
feed_in legacy_put_string_length0 byte = goto (legacy_put_string_length1 byte)
feed_in (legacy_put_string_length1 a) byte = goto (legacy_put_string_length2 a byte)
feed_in (legacy_put_string_length2 a b) byte = goto (legacy_put_string_length3 a b byte)
feed_in (legacy_put_string_length3 a b c) byte =
    done (legacy_put_string (from_le_bytes32 a b c byte))

-- `PreambleDecoder::feed`, which is also `PreambleLayer::poll`
unfoldable pub poll : PreambleDecoder → ℕ → Fed
unfolding feed_in
poll d byte = feed_in d.state byte
