-- ===== src/Boot/Receive.antt =====
-- device/okboot/src/buf.rs, `ReceiveBuffer`: a buffer that is filled byte by byte and then taken.
use okeanos.Prelude.{ℕ, ◌+◌, List, map, leb, if◌then◌else◌, length, set, take, Outcome, ok, err}

pub record ReceiveBuffer : Type 0 where
  pub underlying_storage : List ℕ
  pub cursor : ℕ

-- `ReceiveError::BufferOverflow` (device/okboot/src/protocol.rs), the one that this buffer gives.
pub data ReceiveError : Type 0 where
  buffer_overflow : ReceiveError

-- `ReceiveBuffer::new`
abbrev pub new : List ℕ → ReceiveBuffer
new underlying_storage = record { underlying_storage = underlying_storage; cursor = 0 }

-- `ReceiveBuffer::clear`
abbrev pub clear : ReceiveBuffer → ReceiveBuffer
clear r = record { underlying_storage = map (λ _. 0) r.underlying_storage; cursor = 0 }

unfoldable pub push_u8 : ReceiveBuffer → ℕ → ReceiveBuffer × Outcome ReceiveError (Unit {0})
push_u8 r b = if leb (length r.underlying_storage) r.cursor then (r, err buffer_overflow) else (
  record { underlying_storage = set r.underlying_storage r.cursor b; cursor = r.cursor + 1 },
  ok tt,
)

-- `ReceiveBuffer::finalize`: the slice of the bytes that were pushed.
abbrev pub finalize : ReceiveBuffer → ReceiveBuffer × List ℕ
finalize r = (record r { cursor = 0 }, take r.cursor r.underlying_storage)
