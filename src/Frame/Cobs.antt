-- ===== src/Frame/Cobs.antt =====
-- common/okboot-common/src/frame/decode.rs, `CobsDecoder`: COBS decoding one byte at a time.
pub mod Spec
pub mod Encoding
pub mod RoundTrip
pub mod Shape
use okeanos.Prelude.{
  ℕ, ◌+◌, bit_xor, List, [], ◌∷◌, ◌++◌, ◌==◌, ltb, not, if◌then◌else◌, Outcome, ok, err, panic,
}
use okeanos.Frame.Encode.{cobs_sentinel}

pub record CobsError : Type 0 where
  pub frame_loc : ℕ
  pub bytes_since_last_jump : ℕ
  pub last_jump : ℕ
  pub found : ℕ

pub data CobsState : Type 0 where
  skip finished : CobsState
  byte : ℕ → CobsState

pub record CobsDecoder : Type 0 where
  pub frame_loc : ℕ
  pub bytes_since_last_jump : ℕ
  pub last_jump : ℕ
  pub xor : ℕ

-- `CobsDecoder::new`
abbrev pub new : ℕ → CobsDecoder
new xor = record { frame_loc = 0; bytes_since_last_jump = 0; last_jump = 0; xor = xor }

-- `CobsDecoder::reset`
abbrev pub reset : CobsDecoder → CobsDecoder
reset d = record d { frame_loc = 0; bytes_since_last_jump = 0; last_jump = 0 }

-- `CobsDecoder::error`
abbrev pub error : CobsDecoder → ℕ → CobsError
error d found = record {
  frame_loc = d.frame_loc;
  bytes_since_last_jump = d.bytes_since_last_jump;
  last_jump = d.last_jump;
  found = found;
}

-- The body of `poll` on the byte without the xor value.
unfoldable pub poll_plain : CobsDecoder → ℕ → CobsDecoder × Outcome CobsError CobsState
poll_plain d b =
    if d.last_jump == 0
    then (if b == cobs_sentinel
        then (d, err (error d b))
        else if not (d.bytes_since_last_jump == d.last_jump)
        then (d, err (error d b))
        else (record d { last_jump = b; bytes_since_last_jump = 0 }, ok skip))
    else (let d1 = record d { bytes_since_last_jump = d.bytes_since_last_jump + 1 } in
        if ltb d1.bytes_since_last_jump d1.last_jump
        then (if b == cobs_sentinel then (d1, err (error d1 b)) else (d1, ok (byte b)))
        else (let d2 = record d1 { last_jump = b; bytes_since_last_jump = 0 } in
            if b == 0
            then (reset d2, ok finished)
            else if ltb d1.last_jump 0xff
            then (d2, ok (byte 0))
            else (d2, ok skip)))

-- `CobsDecoder::poll`
unfoldable pub poll : CobsDecoder → ℕ → CobsDecoder × Outcome CobsError CobsState
unfolding poll_plain
poll d b = poll_plain d (bit_xor b d.xor)

-- Polls byte by byte, and stops at the first error: the answers, in order.
abbrev cons_answer :
    CobsState
    → CobsDecoder × Outcome CobsError (List CobsState)
    → CobsDecoder × Outcome CobsError (List CobsState)
cons_answer s (d, ok states) = (d, ok (s ∷ states))
cons_answer s (d, err e) = (d, err e)
cons_answer s (d, panic) = (d, panic)

abbrev collect :
    CobsDecoder × Outcome CobsError CobsState
    → (CobsDecoder → CobsDecoder × Outcome CobsError (List CobsState))
    → CobsDecoder × Outcome CobsError (List CobsState)
collect (d, ok s) rest = cons_answer s (rest d)
collect (d, err e) rest = (d, err e)
collect (d, panic) rest = (d, panic)

unfoldable pub poll_all : CobsDecoder → List ℕ → CobsDecoder × Outcome CobsError (List CobsState)
poll_all d [] = (d, ok [])
poll_all d (b ∷ bytes) = collect (poll d b) (λ d'. poll_all d' bytes)
