-- ===== src/Boot/Transmit.antt =====
-- device/okboot/src/buf.rs, `TransmitBuffer`: a circular buffer over a storage that the caller
-- gives, with checkpoints. A `usize` addition of two indices of the storage cannot overflow, as
-- the source assumes (line 86).
pub mod Laws
pub mod Rollback
use okeanos.Prelude.{
  ℕ, ◌+◌, ◌-◌, ◌%◌, Bool, true, false, List, [], ◌∷◌, map, Option, none, some, ◌==◌, ltb, leb,
  if◌then◌else◌, length, get_or, set, replicate,
}

pub record TransmitBuffer : Type 0 where
  pub underlying_storage : List ℕ
  pub circle_begin : ℕ
  pub circle_end : ℕ
  pub circle_len : ℕ

-- `TransmitBuffer::new`
abbrev pub new : List ℕ → TransmitBuffer
new storage = record {
  underlying_storage = storage;
  circle_begin = 0;
  circle_end = 0;
  circle_len = 0;
}

unfoldable pub clear : TransmitBuffer → TransmitBuffer
clear t = record {
  underlying_storage = map (λ _. 0) t.underlying_storage;
  circle_begin = 0;
  circle_end = 0;
  circle_len = 0;
}

abbrev pub is_empty : TransmitBuffer → Bool
is_empty t = t.circle_len == 0

abbrev pub remaining_space : TransmitBuffer → ℕ
remaining_space t = length t.underlying_storage - t.circle_len

-- `_wrapped_add`
abbrev pub wrapped_add : TransmitBuffer → ℕ → ℕ → ℕ × Bool
wrapped_add t a b = let i = (a + b) % length t.underlying_storage in (i, ltb i (a + b))

-- `_push_byte_at_unchecked`
abbrev pub push_byte_at_unchecked : TransmitBuffer → ℕ → ℕ → TransmitBuffer × ℕ
push_byte_at_unchecked t offset b =
    let t1 = record t { underlying_storage = set t.underlying_storage offset b } in
    (t1, (wrapped_add t1 offset 1).0)

-- `_write_bytes_at_unchecked`
unfoldable pub write_bytes_at_unchecked : TransmitBuffer → ℕ → List ℕ → TransmitBuffer × ℕ
write_bytes_at_unchecked t offset [] = (t, offset)
write_bytes_at_unchecked t offset (b ∷ bytes) =
    let (t1, next) = push_byte_at_unchecked t offset b in write_bytes_at_unchecked t1 next bytes

unfoldable pub push_byte : TransmitBuffer → ℕ → TransmitBuffer × Bool
push_byte t b =
    if t.circle_len == length t.underlying_storage
    then (t, false)
    else (let (t1, next) = push_byte_at_unchecked t t.circle_end b in
        (record t1 { circle_end = next; circle_len = t.circle_len + 1 }, true))

-- the loop of `extend_from_slice`, which drops what `push_byte` returns
unfoldable pub push_bytes : TransmitBuffer → List ℕ → TransmitBuffer
push_bytes t [] = t
push_bytes t (b ∷ src) = push_bytes (push_byte t b).0 src

unfoldable pub extend_from_slice : TransmitBuffer → List ℕ → TransmitBuffer × Bool
extend_from_slice t src =
    if leb (length src) (remaining_space t) then (push_bytes t src, true) else (t, false)

unfoldable pub reserve : TransmitBuffer → ℕ → TransmitBuffer × Option ℕ
reserve t n_bytes =
    if leb n_bytes (remaining_space t)
    then (
      record t {
        circle_end = (wrapped_add t t.circle_end n_bytes).0;
        circle_len = t.circle_len + n_bytes;
      },
      some t.circle_end,
    )
    else (t, none)

unfoldable pub shift_byte : TransmitBuffer → TransmitBuffer × Option ℕ
shift_byte t =
    if ltb 0 t.circle_len
    then (
      record t {
        underlying_storage = set t.underlying_storage t.circle_begin 0;
        circle_begin =
            (wrapped_add
              (record t { underlying_storage = set t.underlying_storage t.circle_begin 0 })
              t.circle_begin 1).0;
        circle_len = t.circle_len - 1;
      },
      some (get_or t.underlying_storage t.circle_begin 0),
    )
    else (t, none)

pub record TransmitBufferCheckpoint : Type 0 where
  pub circle_begin : ℕ
  pub circle_end : ℕ
  pub circle_len : ℕ

abbrev pub checkpoint : TransmitBuffer → TransmitBufferCheckpoint
checkpoint t = record {
  circle_begin = t.circle_begin;
  circle_end = t.circle_end;
  circle_len = t.circle_len;
}

unfoldable pub bytes_since_checkpoint : TransmitBuffer → TransmitBufferCheckpoint → ℕ
bytes_since_checkpoint t cp =
    if ltb t.circle_end cp.circle_end
    then length t.underlying_storage - cp.circle_end + t.circle_end
    else t.circle_end - cp.circle_end

unfoldable pub restore : TransmitBuffer → TransmitBufferCheckpoint → TransmitBuffer
restore t from =
    let t1 =
      (write_bytes_at_unchecked t from.circle_end
        (replicate (bytes_since_checkpoint t from) 0)).0 in
    record t1 {
      circle_begin = from.circle_begin;
      circle_end = from.circle_end;
      circle_len = from.circle_len;
    }
