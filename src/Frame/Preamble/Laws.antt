-- ===== src/Frame/Preamble/Laws.antt =====
-- Which sequences of bytes the preamble decoder takes for the start of a message.
use okeanos.Prelude.{
  ℕ, zero, suc, List, [], ◌∷◌, ◌++◌, Outcome, ok, err, panic, ◌≡◌, inl, inr, refl, ap, subst₂, ◌∙◌,
  arith, replicate, length, Bool-cases, ◌==◌, eq_of_test,
}
use okeanos.Prelude.Words.{from_le_bytes32}
use okeanos.Frame.Preamble.{
  PreambleState, initial, preamble1, preamble2, preamble3, legacy_put_program_info1,
  legacy_put_program_info2, legacy_put_program_info3, legacy_put_string1, legacy_put_string2,
  legacy_put_string3, legacy_put_string_length0, legacy_put_string_length1,
  legacy_put_string_length2, legacy_put_string_length3, PreambleStatus, skip, preamble,
  legacy_put_program_info, legacy_put_string, PreambleError, PreambleDecoder, new, poll,
}

-- The outcome of the first byte that is not skipped, with the bytes behind it.
pub data Found : Type 0 where
  found : PreambleStatus → List ℕ → Found
  wrong : PreambleError → List ℕ → Found
  more : PreambleDecoder → Found

seek_in :
    PreambleDecoder × Outcome PreambleError PreambleStatus
    → (PreambleDecoder → Found)
    → List ℕ
    → Found
seek_in (d, ok skip) rest bytes = rest d
seek_in (d, ok s) rest bytes = found s bytes
seek_in (d, err e) rest bytes = wrong e bytes
seek_in (d, panic) rest bytes = more d

-- Polls until a byte is not skipped.
pub seek : PreambleDecoder → List ℕ → Found
unfolding seek_in
seek d [] = more d
seek d (b ∷ bytes) =
    let rest = λ (d' : PreambleDecoder). seek d' bytes in seek_in (poll d b) rest bytes

-- What a message may begin with, for each answer of the decoder: `all` is such a beginning, and
-- then `rest`.
abbrev pub Begins : PreambleStatus → List ℕ → List ℕ → Type 0
Begins skip all rest = ⊥
Begins preamble all rest = (n : ℕ) × (all ≡ replicate (suc (suc (suc n))) 0x55 ++ 0x5e ∷ rest)
Begins legacy_put_program_info all rest = all ≡ 0x44 ∷ 0x44 ∷ 0x33 ∷ 0x33 ∷ rest
Begins (legacy_put_string length) all rest =
    (a : ℕ) × (b : ℕ) × (c : ℕ) × (d : ℕ) × (length ≡ from_le_bytes32 a b c d)
    × (all ≡ 0xee ∷ 0xee ∷ 0xdd ∷ 0xdd ∷ a ∷ b ∷ c ∷ d ∷ rest)

seek_preamble3 :
    (n : ℕ) (rest : List ℕ)
    → seek (record { state = preamble3 }) (replicate n 0x55 ++ 0x5e ∷ rest) ≡ found preamble rest
unfolding seek poll
seek_preamble3 zero rest = refl
seek_preamble3 (suc n) rest = seek_preamble3 n rest

seek_of_Begins :
    (s : PreambleStatus) (all rest : List ℕ) → Begins s all rest → seek new all ≡ found s rest
unfolding seek poll
seek_of_Begins skip all rest h = absurd h
seek_of_Begins preamble all rest (n, e) = rw e (seek_preamble3 n rest)
seek_of_Begins legacy_put_program_info all rest e = rw e refl
seek_of_Begins (legacy_put_string length) all rest (a, b, c, d, l, e) = rw (e, l) refl

-- The whole input `all`, in a state that has `bytes` of it left to read.
abbrev Reads : PreambleState → List ℕ → List ℕ → Type 0
Reads initial all bytes = all ≡ bytes
Reads preamble1 all bytes = all ≡ 0x55 ∷ bytes
Reads preamble2 all bytes = all ≡ 0x55 ∷ 0x55 ∷ bytes
Reads preamble3 all bytes = (n : ℕ) × (all ≡ replicate (suc (suc (suc n))) 0x55 ++ bytes)
Reads legacy_put_program_info1 all bytes = all ≡ 0x44 ∷ bytes
Reads legacy_put_program_info2 all bytes = all ≡ 0x44 ∷ 0x44 ∷ bytes
Reads legacy_put_program_info3 all bytes = all ≡ 0x44 ∷ 0x44 ∷ 0x33 ∷ bytes
Reads legacy_put_string1 all bytes = all ≡ 0xee ∷ bytes
Reads legacy_put_string2 all bytes = all ≡ 0xee ∷ 0xee ∷ bytes
Reads legacy_put_string3 all bytes = all ≡ 0xee ∷ 0xee ∷ 0xdd ∷ bytes
Reads legacy_put_string_length0 all bytes = all ≡ 0xee ∷ 0xee ∷ 0xdd ∷ 0xdd ∷ bytes
Reads (legacy_put_string_length1 a) all bytes = all ≡ 0xee ∷ 0xee ∷ 0xdd ∷ 0xdd ∷ a ∷ bytes
Reads (legacy_put_string_length2 a b) all bytes = all ≡ 0xee ∷ 0xee ∷ 0xdd ∷ 0xdd ∷ a ∷ b ∷ bytes
Reads (legacy_put_string_length3 a b c) all bytes =
    all ≡ 0xee ∷ 0xee ∷ 0xdd ∷ 0xdd ∷ a ∷ b ∷ c ∷ bytes

-- What one poll says of the input: the state that it leaves has the bytes behind, or the answer
-- fits.
abbrev Polled : PreambleDecoder × Outcome PreambleError PreambleStatus → List ℕ → List ℕ → Type 0
Polled (d, ok skip) all bytes = Reads d.state all bytes
Polled (d, ok s) all bytes = Begins s all bytes
Polled (d, err e) all bytes = d ≡ new
Polled (d, panic) all bytes = ⊥

replicate-append-cons :
    (n v : ℕ) (xs : List ℕ) → replicate n v ++ v ∷ xs ≡ replicate (suc n) v ++ xs
replicate-append-cons zero v xs = refl
replicate-append-cons (suc n) v xs = ap (◌∷◌ v) (replicate-append-cons n v xs)

poll-Polled :
    (st : PreambleState) (all : List ℕ) (b : ℕ) (bytes : List ℕ)
    → Reads st all (b ∷ bytes)
    → Polled (poll (record { state = st }) b) all bytes
unfolding poll
poll-Polled preamble2 all b bytes h = elim (Bool-cases (b == 0x55)) [
  | inl t ↦ rw t (0, rw (eq_of_test b 0x55 t) at h)
  | inr f ↦ rw f refl
]
poll-Polled preamble3 all b bytes (n, h) = elim (Bool-cases (b == 0x5e)) [
  | inl t ↦ rw t (n, rw (eq_of_test b 0x5e t) at h)
  | inr f ↦ rw f (elim (Bool-cases (b == 0x55)) [
    | inl t ↦
        rw t (
          suc n,
          h ∙ rw (eq_of_test b 0x55 t) (replicate-append-cons (suc (suc (suc n))) 0x55 bytes),
        )
    | inr g ↦ rw g refl
  ])
]
poll-Polled (legacy_put_string_length3 x y z) all b bytes h = (x, y, z, b, refl, h)
poll-Polled legacy_put_string_length0 all b bytes h = h
poll-Polled (legacy_put_string_length1 x) all b bytes h = h
poll-Polled (legacy_put_string_length2 x y) all b bytes h = h
poll-Polled initial all b bytes h = ground arith
poll-Polled _ all b bytes h = ground arith

Begins-same :
    (all bytes rest : List ℕ) (s t : PreambleStatus)
    → found s bytes ≡ found t rest
    → Begins s all bytes
    → Begins t all rest
Begins-same all bytes rest s t h p = subst₂ (λ u r. Begins u all r) (cc) (cc) p

seek_in-Begins :
    (r : PreambleDecoder × Outcome PreambleError PreambleStatus) (later : PreambleDecoder → Found)
    (all bytes : List ℕ) (s : PreambleStatus) (rest : List ℕ)
    → ((d : PreambleDecoder) → Reads d.state all bytes → later d ≡ found s rest → Begins s all rest)
    → Polled r all bytes
    → seek_in r later bytes ≡ found s rest
    → Begins s all rest
unfolding seek_in
seek_in-Begins (d, ok skip) later all bytes s rest ih p h = ih d p h
seek_in-Begins (d, ok preamble) later all bytes s rest ih p h = Begins-same all bytes rest _ s h p
seek_in-Begins (d, ok legacy_put_program_info) later all bytes s rest ih p h =
    Begins-same all bytes rest _ s h p
seek_in-Begins (d, ok (legacy_put_string l)) later all bytes s rest ih p h =
    Begins-same all bytes rest _ s h p
seek_in-Begins (d, err e) later all bytes s rest ih p h = cc
seek_in-Begins (d, panic) later all bytes s rest ih p h = cc

Begins-of_seek :
    (bytes all : List ℕ) (d : PreambleDecoder) (s : PreambleStatus) (rest : List ℕ)
    → Reads d.state all bytes
    → seek d bytes ≡ found s rest
    → Begins s all rest
unfolding seek
Begins-of_seek [] all d s rest r h = cc
Begins-of_seek (b ∷ bytes) all d s rest r h =
    seek_in-Begins (poll d b) (λ d'. seek d' bytes) all bytes s rest
      (λ d' r' h'. Begins-of_seek bytes all d' s rest r' h') (poll-Polled d.state all b bytes r) h

-- The decoder, fed from its initial state, answers `s` with `rest` still to read exactly when the
-- input begins so: with three or more bytes 0x55 and then 0x5e (`Preamble`), with 44 44 33 33
-- (`LegacyPutProgramInfo`), or with ee ee dd dd and a little-endian length
-- (`LegacyPutString`).
pub seek_iff :
    (s : PreambleStatus) (all rest : List ℕ)
    → (Begins s all rest → seek new all ≡ found s rest)
      × (seek new all ≡ found s rest → Begins s all rest)
seek_iff s all rest = (seek_of_Begins s all rest, Begins-of_seek all all new s rest refl)
