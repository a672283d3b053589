-- ===== src/Ppp/Ipcp.antt =====
-- device/antimony/src/net/ipcp.rs: the options of the IP Control Protocol and their bytes.
use okeanos.Prelude.{
  ℕ, ◌+◌, List, [], ◌∷◌, ◌==◌, ltb, if◌then◌else◌, length, get_or, drop, ok, err, panic,
}
use okeanos.Ppp.Frame.{Run}
use okeanos.Ppp.Lcp.{be16_of}

-- `core::net::Ipv4Addr` by its octets.
pub record Ipv4Addr : Type 0 where
  pub o0 : ℕ
  pub o1 : ℕ
  pub o2 : ℕ
  pub o3 : ℕ

pub data Opt : Type 0 where
  ip_compression_protocol : ℕ → List ℕ → Opt
  ip_address : Ipv4Addr → Opt

unfoldable pub to_bytes : Opt → Run (List ℕ)
to_bytes (ip_compression_protocol protocol bytes) = panic
to_bytes (ip_address a) = ok (3 ∷ 6 ∷ a.o0 ∷ a.o1 ∷ a.o2 ∷ a.o3 ∷ [])

-- `&data[4..]` is a panic on a slice of less than four bytes.
unfoldable pub from_bytes : ℕ → List ℕ → Run Opt
from_bytes ty bytes =
    let opt_len = length bytes + 2 in
    if ty == 1
    then err tt
    else if ty == 2
    then (if ltb opt_len 4
        then err tt
        else if ltb (length bytes) 4
        then panic
        else ok (ip_compression_protocol (be16_of bytes) (drop 4 bytes)))
    else if ty == 3
    then (if opt_len == 6
        then ok (
            ip_address (record {
              o0 = get_or bytes 0 0;
              o1 = get_or bytes 1 0;
              o2 = get_or bytes 2 0;
              o3 = get_or bytes 3 0;
            }))
        else err tt)
    else err tt
