-- ===== src/Ppp/Lcp.antt =====
-- device/antimony/src/net/lcp.rs: the options of the Link Control Protocol and their bytes.
use okeanos.Prelude.{
  ℕ, ◌+◌, List, ◌∷◌, ◌==◌, leb, Bool, true, false, if◌then◌else◌, length, get_or, drop, ok, err,
  panic,
}
use okeanos.Prelude.Words.{to_be_bytes16, to_be_bytes32, from_be_bytes16, from_le_bytes32}
use okeanos.Ppp.Frame.{Run}

pub data Opt : Type 0 where
  mru : ℕ → Opt
  accm : ℕ → Opt
  auth_protocol : ℕ → List ℕ → Opt
  qual_protocol : ℕ → List ℕ → Opt
  magic : ℕ → Opt
  pf_compression : Opt
  acf_compression : Opt

unfoldable pub to_bytes : Opt → Run (List ℕ)
to_bytes (mru n) = ok (1 ∷ 4 ∷ to_be_bytes16 n)
to_bytes (accm n) = ok (2 ∷ 6 ∷ to_be_bytes32 n)
to_bytes (auth_protocol proto data') = panic
to_bytes (qual_protocol proto data') = panic
to_bytes (magic n) = ok (5 ∷ 6 ∷ to_be_bytes32 n)
to_bytes pf_compression = panic
to_bytes acf_compression = panic

-- `u16::from_be_bytes([data[0], data[1]])`
abbrev pub be16_of : List ℕ → ℕ
be16_of bytes = from_be_bytes16 (get_or bytes 0 0) (get_or bytes 1 0)

-- `u32::from_be_bytes` of four bytes.
abbrev pub be32_of : List ℕ → ℕ
be32_of bytes =
    from_le_bytes32 (get_or bytes 3 0) (get_or bytes 2 0) (get_or bytes 1 0) (get_or bytes 0 0)

-- The early return with `None` unless the test holds.
abbrev pub require : Bool → Opt → Run Opt
require true o = ok o
require false o = err tt

unfoldable pub from_bytes : ℕ → List ℕ → Run Opt
from_bytes ty bytes =
    let opt_len = length bytes + 2 in
    if ty == 1
    then require (opt_len == 4) (mru (be16_of bytes))
    else if ty == 2
    then require (opt_len == 6) (accm (be32_of bytes))
    else if ty == 3
    then require (leb 4 (length bytes)) (auth_protocol (be16_of bytes) (drop 2 bytes))
    else if ty == 4
    then require (leb 4 (length bytes)) (qual_protocol (be16_of bytes) (drop 2 bytes))
    else if ty == 5
    then require (opt_len == 6) (magic (be32_of bytes))
    else if ty == 7
    then require (opt_len == 2) pf_compression
    else if ty == 8
    then require (opt_len == 2) acf_compression
    else err tt
