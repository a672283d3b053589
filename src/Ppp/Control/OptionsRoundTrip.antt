-- ===== src/Ppp/Control/OptionsRoundTrip.antt =====
-- The options that device/antimony/src/net/lcp.rs writes are read back by the iterator of
-- control.rs.
use okeanos.Prelude.{
  ℕ, ◌+◌, ◌/◌, ◌%◌, ◌*◌, ◌^◌, ◌<◌, List, [], ◌∷◌, ◌++◌, length, some, ok, err, panic, subst, ◌≡◌,
  refl, ap, arith, leb, ltb, false,
}
use okeanos.Prelude.Words.{to_be_bytes16, to_be_bytes32, from_le_bytes32}
use okeanos.Ppp.Frame.{Run}
use okeanos.Ppp.Lcp
use okeanos.Ppp.Lcp.{
  mru, accm, auth_protocol, qual_protocol, magic, pf_compression, acf_compression,
}
use okeanos.Ppp.Control.{known, next, from_slice}
use okeanos.Ppp.Control.Protocols.{lcp}

-- The numbers in an option have the width of their type.
abbrev pub Fits : Lcp.Opt → Type 0
Fits (mru n) = n < 2 ^ 16
Fits (accm n) = n < 2 ^ 32
Fits (magic n) = n < 2 ^ 32
Fits (auth_protocol proto bytes) = proto < 2 ^ 16
Fits (qual_protocol proto bytes) = proto < 2 ^ 16
Fits pf_compression = Unit
Fits acf_compression = Unit

-- The bytes in a result.
abbrev bytes_of : Run (List ℕ) → List ℕ
bytes_of (ok bytes) = bytes
bytes_of (err e) = []
bytes_of panic = []

abbrev Reads : Lcp.Opt → List ℕ → List ℕ → Type 0
Reads o rest bytes =
    next lcp (from_slice (bytes ++ rest))
    ≡ ok (record { buf = bytes ++ rest; index = length bytes }, some (known o bytes))

Reads-mru : (n : ℕ) (rest : List ℕ) → n < 2 ^ 16 → Reads (mru n) rest (1 ∷ 4 ∷ to_be_bytes16 n)
unfolding next Lcp.from_bytes
Reads-mru n rest fits =
    let all = 1 ∷ 4 ∷ (to_be_bytes16 n ++ rest) in
    let some' : leb (length all) 0 ≡ false = ground arith in
    let two : leb (length all) 1 ≡ false = ground arith in
    let enough : ltb (length all) 4 ≡ false = ground arith in
    let same : (n / 2 ^ 8) % 256 * 2 ^ 8 + n % 256 ≡ n = omega arith in
    rw (some', two, enough, same) refl

Reads-word :
    (ty : ℕ) (o : ℕ → Lcp.Opt) (n : ℕ) (rest : List ℕ)
    → ((v : ℕ) (a b c d : ℕ)
        → from_le_bytes32 d c b a ≡ v
        → Lcp.from_bytes ty (a ∷ b ∷ c ∷ d ∷ []) ≡ ok (o v))
    → n < 2 ^ 32
    → Reads (o n) rest (ty ∷ 6 ∷ to_be_bytes32 n)
unfolding next
Reads-word ty o n rest reads fits =
    let all = ty ∷ 6 ∷ (to_be_bytes32 n ++ rest) in
    let some' : leb (length all) 0 ≡ false = ground arith in
    let two : leb (length all) 1 ≡ false = ground arith in
    let enough : ltb (length all) 6 ≡ false = ground arith in
    let call =
      reads n ((n / 2 ^ 24) % 256) ((n / 2 ^ 16) % 256) ((n / 2 ^ 8) % 256) (n % 256)
        (omega arith) in
    rw (some', two, enough, call) refl

from_bytes-accm :
    (v a b c d : ℕ)
    → from_le_bytes32 d c b a ≡ v
    → Lcp.from_bytes 2 (a ∷ b ∷ c ∷ d ∷ []) ≡ ok (accm v)
unfolding Lcp.from_bytes
from_bytes-accm v a b c d e = ap (λ w. ok (accm w)) e

from_bytes-magic :
    (v a b c d : ℕ)
    → from_le_bytes32 d c b a ≡ v
    → Lcp.from_bytes 5 (a ∷ b ∷ c ∷ d ∷ []) ≡ ok (magic v)
unfolding Lcp.from_bytes
from_bytes-magic v a b c d e = ap (λ w. ok (magic w)) e

-- An option that LCP writes, with anything behind it, is the next option that is read, and its
-- bytes are the slice that goes with it.
pub next-to_bytes :
    (o : Lcp.Opt) (bytes rest : List ℕ)
    → Fits o
    → Lcp.to_bytes o ≡ ok bytes
    → next lcp (from_slice (bytes ++ rest))
      ≡ ok (record { buf = bytes ++ rest; index = length bytes }, some (known o bytes))
unfolding Lcp.to_bytes
next-to_bytes (mru n) bytes rest fits e =
    subst (Reads (mru n) rest) (ap bytes_of e) (Reads-mru n rest fits)
next-to_bytes (accm n) bytes rest fits e =
    subst (Reads (accm n) rest) (ap bytes_of e) (Reads-word 2 accm n rest from_bytes-accm fits)
next-to_bytes (magic n) bytes rest fits e =
    subst (Reads (magic n) rest) (ap bytes_of e) (Reads-word 5 magic n rest from_bytes-magic fits)
next-to_bytes (auth_protocol proto data') bytes rest fits e = cc e
next-to_bytes (qual_protocol proto data') bytes rest fits e = cc e
next-to_bytes pf_compression bytes rest fits e = cc e
next-to_bytes acf_compression bytes rest fits e = cc e
