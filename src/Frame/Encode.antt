-- ===== src/Frame/Encode.antt =====
-- common/okboot-common/src/frame/encode.rs: the length field, and the COBS encoder over a buffer
-- of 255 bytes. `cursor` is the place of the next byte; place 0 is for the code.
use okeanos.Prelude.{
  ℕ, ◌+◌, ◌-◌, ◌*◌, ◌/◌, ◌%◌, ◌^◌, bit_and, bit_or, bit_xor, not, List, [], ◌∷◌, ◌++◌, map, Option,
  none, some, ◌==◌, if◌then◌else◌, length, set, take, drop,
}

-- `COBS_SENTINEL`
abbrev pub cobs_sentinel : ℕ
cobs_sentinel = 0

-- `encode_length`. `!0xff_ffff` is written out for a 64-bit `usize`: forty ones above 24 zeros.
unfoldable pub encode_length : ℕ → Option (List ℕ)
encode_length len =
    if not (bit_and len ((2 ^ 40 - 1) * 2 ^ 24) == 0)
    then none
    else some (
        map (λ x. bit_or x 0xc0)
          (bit_and len 0x3f % 2 ^ 8
            ∷ (bit_and len 0xfc0 / 2 ^ 6) % 2 ^ 8
            ∷ (bit_and len 0x3_f000 / 2 ^ 12) % 2 ^ 8
            ∷ (bit_and len 0xfc_0000 / 2 ^ 18) % 2 ^ 8
            ∷ []))

-- `Buf(n)` stands for the slice `&mut buf[0..n]`, which borrows the buffer of the encoder.
pub data EncodeStateInner : Type 0 where
  buf : ℕ → EncodeStateInner
  pass : EncodeStateInner

pub record FrameEncoderInner : Type 0 where
  pub buf : List ℕ
  pub cursor : ℕ

-- `FrameEncoderInner::with_buffer`
unfoldable pub inner_with_buffer : List ℕ → Option FrameEncoderInner
inner_with_buffer underlying_buffer =
    if length underlying_buffer == 255
    then some (record { buf = underlying_buffer; cursor = 1 })
    else none

-- `FrameEncoderInner::write_u8`
unfoldable pub inner_write_u8 : FrameEncoderInner → ℕ → FrameEncoderInner × EncodeStateInner
inner_write_u8 e x =
    if e.cursor == 254
    then (if x == cobs_sentinel
        then (record e { buf = set e.buf 0 0xfe; cursor = 1 }, EncodeStateInner.buf 254)
        else (
          record e { buf = set (set e.buf 0 0xff) 0xfe x; cursor = 1 },
          EncodeStateInner.buf 255,
        ))
    else if not (x == cobs_sentinel)
    then (record e { buf = set e.buf e.cursor x; cursor = e.cursor + 1 }, pass)
    else (
      record e { buf = set e.buf 0 (e.cursor % 2 ^ 8); cursor = 1 },
      EncodeStateInner.buf e.cursor,
    )

-- `FrameEncoderInner::finish`: the encoder, whose buffer stays with the caller, and the length
-- of the slice that it returns.
unfoldable pub inner_finish : FrameEncoderInner → FrameEncoderInner × ℕ
inner_finish e =
    let buf' = set (set e.buf e.cursor cobs_sentinel) 0 (e.cursor % 2 ^ 8) in
    (record e { buf = buf'; cursor = e.cursor + 1 }, e.cursor + 1)

pub data EncodeState : Type 0 where
  buf : List ℕ → EncodeState
  pass : EncodeState

pub record FrameEncoder : Type 0 where
  pub inner : FrameEncoderInner
  pub xor : ℕ

-- `FrameEncoder::with_buffer_xor`
unfoldable pub with_buffer_xor : List ℕ → ℕ → Option FrameEncoder
unfolding inner_with_buffer
with_buffer_xor underlying_buffer xor = elim (inner_with_buffer underlying_buffer) [
  | none ↦ none
  | some inner ↦ some (record { inner = inner; xor = xor })
]

-- `b.iter_mut().for_each(|x| *x ^= self.xor)` on the first `n` bytes of the buffer.
abbrev pub xor_prefix : ℕ → ℕ → List ℕ → List ℕ
xor_prefix xor n buf' = map (λ x. bit_xor x xor) (take n buf') ++ drop n buf'

-- The slice of `n` bytes with its bytes changed in place.
abbrev xor_slice : FrameEncoder → FrameEncoderInner → ℕ → FrameEncoder × List ℕ
xor_slice e inner n =
    let buf' = xor_prefix e.xor n inner.buf in
    (record e { inner = record inner { buf = buf' } }, take n buf')

-- The two cases of the inner call's result.
abbrev outer : FrameEncoder → FrameEncoderInner × EncodeStateInner → FrameEncoder × EncodeState
outer e (inner, EncodeStateInner.buf n) =
    let (e', b) = xor_slice e inner n in (e', EncodeState.buf b)
outer e (inner, EncodeStateInner.pass) = (record e { inner = inner }, EncodeState.pass)

-- `FrameEncoder::write_u8`
unfoldable pub write_u8 : FrameEncoder → ℕ → FrameEncoder × EncodeState
write_u8 e x = outer e (inner_write_u8 e.inner x)

-- `FrameEncoder::finish`
unfoldable pub finish : FrameEncoder → FrameEncoder × List ℕ
finish e = let (inner, n) = inner_finish e.inner in xor_slice e inner n

-- `BufferedEncoder` lends its buffer to one frame after the other.
pub record BufferedEncoder : Type 0 where
  pub buffer : List ℕ
  pub xor : ℕ

-- `BufferedEncoder::frame`
unfoldable pub frame : BufferedEncoder → Option FrameEncoder
unfolding with_buffer_xor
frame b = with_buffer_xor b.buffer b.xor

abbrev pub buf_bytes : EncodeState → List ℕ
buf_bytes (EncodeState.buf b) = b
buf_bytes EncodeState.pass = []

-- Writes one byte after the other and collects what is returned, as `FrameWriter` does
-- (device/okboot/src/buf.rs, `_add_bytes_unhashed`).
unfoldable pub write_all : FrameEncoder → List ℕ → FrameEncoder × List ℕ
write_all e [] = (e, [])
write_all e (x ∷ xs) =
    let (e', state) = write_u8 e x in
    let (e'', out) = write_all e' xs in (e'', buf_bytes state ++ out)

-- All bytes of a frame: those of the writes, and then those of `finish`.
unfoldable pub encode : FrameEncoder → List ℕ → List ℕ
encode e xs = let (e', out) = write_all e xs in out ++ (finish e').1
