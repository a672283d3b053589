-- ===== src/Frame/Cobs/Shape.antt =====
-- The shape of what the encoder of common/okboot-common/src/frame/encode.rs writes: where its
-- delimiter stands, and how long it is.
use okeanos.Prelude.{
  ℕ, suc, ◌+◌, ◌/◌, ◌≤◌, bit_xor, List, [], ◌∷◌, ◌++◌, append_assoc, ◌==◌, length, length-append,
  length-map, All, All-append, ◌≡◌, ◌≢◌, refl, sym, ap, ◌∙◌, inl, inr, arith, Bool-cases,
  eq_of_test, some,
}
use mathlib.Core.List.{map-append}
use okeanos.Prelude.Words.{bit_xor-bit_xor}
use okeanos.Frame.Encode.{FrameEncoder, with_buffer_xor, encode}
use okeanos.Frame.Cobs.Spec.{cobs, cobs-nil, cobs-zero, cobs_full, cobs_more}
use okeanos.Frame.Cobs.Encoding.{masked, encode-cobs}

-- A list that ends in 0, and has no other 0.
record Delimited (bytes : List ℕ) : Type 0 where
  init : List ℕ
  ends : bytes ≡ init ++ 0 ∷ []
  clean : All (λ b. b ≢ 0) init

Delimited-append : (xs ys : List ℕ) → All (λ b. b ≢ 0) xs → Delimited ys → Delimited (xs ++ ys)
Delimited-append xs ys h d = record {
  init = xs ++ d.init;
  ends = ap (λ l. xs ++ l) d.ends ∙ sym (append_assoc xs d.init (0 ∷ []));
  clean = All-append (λ b. b ≢ 0) xs d.init h d.clean;
}

cobs-Delimited : (xs p : List ℕ) → All (λ b. b ≢ 0) p → Delimited (cobs p xs)
cobs-Delimited [] p h =
    rw cobs-nil (record { init = suc (length p) ∷ p; ends = refl; clean = (omega arith, h) })
cobs-Delimited (x ∷ xs) p h = elim (Bool-cases (x == 0)) [
  | inl z ↦
      rw (eq_of_test x 0 z, cobs-zero p xs)
        (Delimited-append (suc (length p) ∷ p) _ (omega arith, h) (cobs-Delimited xs [] tt))
  | inr ne ↦
      let grown : All (λ b. b ≢ 0) (p ++ x ∷ []) =
        All-append (λ b. b ≢ 0) p (x ∷ []) h ((ground arith), tt) in
      elim (Bool-cases (length p == 253)) [
        | inl t ↦ rw (cobs_full p x xs ne (eq_of_test (length p) 253 t)) (
            Delimited-append (255 ∷ (p ++ x ∷ [])) _ (omega arith, grown) (cobs-Delimited xs [] tt))
        | inr room ↦ rw (cobs_more p x xs ne room) (cobs-Delimited xs (p ++ x ∷ []) grown)
      ]
]

length-cobs :
    (xs p : List ℕ)
    → length p ≤ 253
    → length (cobs p xs) ≤ length p + length xs + 2 + (length p + length xs) / 254
length-cobs [] p room = rw cobs-nil (omega (arith, length-append p (0 ∷ [])))
length-cobs (x ∷ xs) p room = elim (Bool-cases (x == 0)) [
  | inl z ↦
      rw (eq_of_test x 0 z, cobs-zero p xs)
        (omega (arith, length-append p (cobs [] xs), length-cobs xs [] (omega arith)))
  | inr ne ↦ elim (Bool-cases (length p == 253)) [
    | inl t ↦
        let full = eq_of_test (length p) 253 t in
        rw (cobs_full p x xs ne full) (
          omega (
            arith,
            length-append (p ++ x ∷ []) (cobs [] xs),
            length-append p (x ∷ []),
            length-cobs xs [] (omega arith),
          ))
    | inr more ↦ rw (cobs_more p x xs ne more) (
        omega (
          arith,
          length-append p (x ∷ []),
          length-cobs xs (p ++ x ∷ []) (ground (arith, length-append p (x ∷ []))),
        ))
  ]
]

masked_clean :
    (xor : ℕ) (l : List ℕ) → All (λ b. b ≢ 0) l → All (λ b. b ≢ bit_xor 0 xor) (masked xor l)
masked_clean xor [] h = tt
masked_clean xor (b ∷ l) h = (
  λ e. h.0 (sym (bit_xor-bit_xor b xor) ∙ ap (λ v. bit_xor v xor) e ∙ bit_xor-bit_xor 0 xor),
  masked_clean xor l h.1,
)

-- All that a frame encoder writes for `xs` is some bytes and then the masked delimiter, which is
-- none of those bytes; in all there are at most two bytes more than in `xs`, and one more for
-- each 254 bytes of `xs`.
pub encode_shape :
    (buffer : List ℕ) (xor : ℕ) (e : FrameEncoder) (xs : List ℕ)
    → with_buffer_xor buffer xor ≡ some e
    → (init : List ℕ) × (encode e xs ≡ init ++ bit_xor 0 xor ∷ [])
      × All (λ b. b ≢ bit_xor 0 xor) init
      × (length (encode e xs) ≤ length xs + 2 + length xs / 254)
encode_shape buffer xor e xs h =
    let d = cobs-Delimited xs [] tt in
    let enc = (encode-cobs buffer xor e xs h).1 in
    (
      masked xor d.init,
      enc ∙ ap (masked xor) d.ends ∙ map-append (λ b. bit_xor b xor) d.init (0 ∷ []),
      masked_clean xor d.init d.clean,
      rw enc (
          omega
            (arith, length-map (cobs [] xs) (λ b. bit_xor b xor), length-cobs xs [] (omega arith))),
    )
