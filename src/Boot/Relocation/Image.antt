-- ===== src/Boot/Relocation/Image.antt =====
-- What an image is written as and read as under a `Relocation` (device/okboot/src/stub.rs).
use okeanos.Prelude.{
  ℕ, zero, suc, ◌+◌, ◌-◌, ◌≤◌, ◌<◌, true, false, List, [], ◌∷◌, ◌++◌, ◌==◌, ltb, if◌then◌else◌,
  length, get_or, take, drop, ◌≡◌, ◌⊎◌, inl, inr, refl, sym, ap, ap₂, ◌∙◌, arith, Bool-cases,
  length-append, length-drop, append-nil, get_or-append, get_or-append_left, get_or-drop,
  get_or-take, take-append-drop, length-take,
}
use okeanos.Frame.Crc.{Crc32}
use okeanos.Boot.Relocation.{
  Memory, copy, slice, Relocation, write_ptr, write_bytes, verify_integrity, hash_side,
  hash_inplace, ok, crc_mismatch,
}

-- Where byte `i` of an image is kept.
abbrev pub place : Relocation → ℕ → ℕ
place r i = if ltb i r.relocate_first_n_bytes then r.side_buffer_ptr + i else r.base_address_ptr + i

-- The bytes of an image that are in memory.
pub record Holds (r : Relocation) (mem : Memory) (xs : List ℕ) : Type 0 where
  pub at : (i : ℕ) → i < length xs → mem (place r i) ≡ get_or xs i 0

pub slice_of :
    (mem : Memory) (xs : List ℕ) (a n : ℕ)
    → n ≡ length xs
    → ((j : ℕ) → j < n → mem (a + j) ≡ get_or xs j 0)
    → slice mem a n ≡ xs
unfolding slice
slice_of mem [] a zero e h = refl
slice_of mem [] a (suc n) e h = absurd (omega arith)
slice_of mem (x ∷ xs) a zero e h = absurd (omega arith)
slice_of mem (x ∷ xs) a (suc n) e h =
    let first : mem a ≡ x = ap mem (omega arith) ∙ h 0 (omega arith) in
    let next = λ (j : ℕ) (lt : j < n).
      let here : a + 1 + j ≡ a + suc j = omega arith in ap mem here ∙ h (suc j) (omega arith) in
    ap₂ (λ y ys. y ∷ ys) first (slice_of mem xs (a + 1) n (omega arith) next)

-- The regions do not meet.
pub record IsApart (r : Relocation) (len : ℕ) : Type 0 where
  pub moves : r.relocate ≡ true
  pub side_free : r.base_address_ptr + len ≤ r.side_buffer_ptr
  pub first_in : r.relocate_first_n_bytes ≤ len

-- A slice for the bytes from `k` on lies wholly below the part in place, or wholly in it.
abbrev pub OneSide : Relocation → ℕ → ℕ → Type 0
OneSide r k n = (k + n ≤ r.relocate_first_n_bytes) ⊎ (r.relocate_first_n_bytes ≤ k)

write_ptr_lem :
    (r : Relocation) (k : ℕ) → r.relocate ≡ true → write_ptr r (r.base_address_ptr + k) ≡ place r k
unfolding write_ptr
write_ptr_lem r k m = ground arith

pub copy_out :
    (mem : Memory) (dst : ℕ) (bytes : List ℕ) (a : ℕ)
    → (a < dst) ⊎ (dst + length bytes ≤ a)
    → copy mem dst bytes a ≡ mem a
unfolding copy
copy_out mem dst bytes a (inl h) = ground arith
copy_out mem dst bytes a (inr h) = ground arith

pub copy_in :
    (mem : Memory) (dst : ℕ) (bytes : List ℕ) (j : ℕ)
    → j < length bytes
    → copy mem dst bytes (dst + j) ≡ get_or bytes j 0
unfolding copy
copy_in mem dst bytes j h = let same : dst + j - dst ≡ j = omega arith in rw same (ground arith)

-- The bytes before place `k` are not touched by a slice for the bytes from `k` on.
before_apart :
    (r : Relocation) (len k n i : ℕ)
    → IsApart r len
    → k + n ≤ len
    → OneSide r k n
    → i < k
    → (place r i < place r k) ⊎ (place r k + n ≤ place r i)
before_apart r len k n i apart fits one lt = elim (Bool-cases (ltb i r.relocate_first_n_bytes)) [
  | inl below ↦ elim (Bool-cases (ltb k r.relocate_first_n_bytes)) [
    | inl kb ↦ rw (below, kb) (inl (omega arith))
    | inr ka ↦ rw (below, ka) (inr (omega (arith, apart.side_free)))
  ]
  | inr above ↦
      let ka : ltb k r.relocate_first_n_bytes ≡ false = ground arith in
      rw (above, ka) (inl (omega arith))
]

-- The slice stays on its side.
place-add : (r : Relocation) (k n j : ℕ) → OneSide r k n → j < n → place r (k + j) ≡ place r k + j
place-add r k n j (inl below) lt = ground arith
place-add r k n j (inr above) lt = ground arith

pub write-Holds :
    (r : Relocation) (mem : Memory) (len : ℕ) (xs bytes : List ℕ)
    → IsApart r len
    → length xs + length bytes ≤ len
    → OneSide r (length xs) (length bytes)
    → Holds r mem xs
    → Holds r (write_bytes r mem (r.base_address_ptr + length xs) bytes) (xs ++ bytes)
write-Holds r mem len xs bytes apart fits one h =
    let k = length xs in
    let n = length bytes in
    let dst = place r k in
    rw (write_ptr_lem r k apart.moves) (record {
      at = λ i lt. elim (Bool-cases (ltb i k)) [
        | inl t ↦
            let old : i < k = ground arith in
            copy_out mem dst bytes (place r i) (before_apart r len k n i apart fits one old)
            ∙ h.at i old
            ∙ sym (get_or-append_left xs bytes i 0 old)
        | inr t ↦
            let j = i - k in
            let split : i ≡ k + j = ground arith in
            let new' : j < n = omega (arith, length-append xs bytes, lt, split) in
            ap (λ m. copy mem dst bytes (place r m)) split
            ∙ ap (copy mem dst bytes) (place-add r k n j one new')
            ∙ copy_in mem dst bytes j new'
            ∙ sym (get_or-append xs bytes j 0)
            ∙ ap (λ m. get_or (xs ++ bytes) m 0) (sym split)
      ];
    })

-- What `verify_integrity` hashes.
hashed-Holds :
    (r : Relocation) (mem : Memory) (xs : List ℕ)
    → IsApart r (length xs)
    → Holds r mem xs
    → slice mem r.side_buffer_ptr r.relocate_first_n_bytes
        ++ slice mem
            (r.base_address_ptr + r.relocate_first_n_bytes)
            (length xs - r.relocate_first_n_bytes)
      ≡ xs
hashed-Holds r mem xs apart h =
    let first = r.relocate_first_n_bytes in
    let fits : first ≤ length xs = apart.first_in in
    let low : slice mem r.side_buffer_ptr first ≡ take first xs =
      slice_of mem (take first xs) r.side_buffer_ptr first
        (omega (arith, length-take first xs, fits))
        (λ j lt.
          let at_j : place r j ≡ r.side_buffer_ptr + j = ground arith in
          ap mem (sym at_j)
          ∙ h.at j (omega (arith, fits, lt))
          ∙ sym (get_or-take first xs j 0 lt)) in
    let high =
      slice_of mem (drop first xs) (r.base_address_ptr + first) (length xs - first)
        (sym (length-drop first xs))
        (λ j lt.
          let at_j : place r (first + j) ≡ r.base_address_ptr + first + j = ground arith in
          ap mem (sym at_j)
          ∙ h.at (first + j) (omega (arith, fits, lt))
          ∙ sym (get_or-drop xs first j 0)) in
    ap₂ (λ l m. l ++ m) low high ∙ take-append-drop first xs

-- The check of an image that memory holds is the comparison with the checksum of its bytes.
pub verify-Holds :
    (crc32 : Crc32) (r : Relocation) (mem : Memory) (xs : List ℕ) (expected : ℕ)
    → IsApart r (length xs)
    → Holds r mem xs
    → verify_integrity crc32 r mem expected (length xs) ≡ (
        let crc = crc32.finalize (crc32.update crc32.new xs) in
        if expected == crc then ok else crc_mismatch expected crc)
unfolding verify_integrity slice
verify-Holds crc32 r mem xs expected apart h =
    let first = r.relocate_first_n_bytes in
    let low = slice mem r.side_buffer_ptr first in
    let all = hashed-Holds r mem xs apart h in
    let hashed : hash_inplace crc32 r mem (length xs) (hash_side crc32 r mem crc32.new)
        ≡ crc32.update crc32.new xs =
      elim (Bool-cases (ltb first (length xs))) [
        | inl more ↦
            rw (apart.moves, more)
              (crc32.update-update crc32.new low
                  (slice mem (r.base_address_ptr + first) (length xs - first))
                ∙ ap (crc32.update crc32.new) all)
        | inr none' ↦
            let rest : length xs - first ≡ 0 = ground arith in
            let short : low ≡ xs =
              sym (append-nil low)
              ∙ ap (λ n. low ++ slice mem (r.base_address_ptr + first) n) (sym rest)
              ∙ all in
            rw (apart.moves, none') (ap (crc32.update crc32.new) short)
      ] in
    ap
      (λ h'.
        let crc = crc32.finalize h' in if expected == crc then ok else crc_mismatch expected crc)
      hashed
