-- ===== src/Host/Upload/Arguments.antt =====
-- host/okdude/src/v2.rs, `serialize_args`: the assertion on the length never fires.
use okeanos.Prelude.{
  ℕ, zero, ◌-◌, ◌%◌, List, [], ◌∷◌, ◌++◌, replicate, if◌then◌else◌, length, length-append,
  length-replicate, ok, panic, ◌≡◌, refl, ap, ◌∙◌, test_of_eq, arith,
}
use okeanos.Prelude.Words.{to_le_bytes32}
use okeanos.Host.Upload.{serialize_all, serialize_args}

abbrev padded : List ℕ → List ℕ
padded v = to_le_bytes32 (length v) ++ (v ++ replicate (4 - length v % 4) 0)

length-padded : (v : List ℕ) → length (padded v) % 4 ≡ 0
length-padded v = omega (
  arith,
  length-append v (replicate (4 - length v % 4) 0),
  length-append (to_le_bytes32 (length v)) (v ++ replicate (4 - length v % 4) 0),
  length-replicate (4 - length v % 4) zero,
)

serialize_all_returns :
    (v : List (List ℕ)) (v_out : List ℕ)
    → length v_out % 4 ≡ 0
    → (bytes : List ℕ) × (serialize_all v_out v ≡ ok bytes) × (length bytes % 4 ≡ 0)
unfolding serialize_all
serialize_all_returns [] v_out h = (v_out, refl, h)
serialize_all_returns (sub_v ∷ v) v_out h =
    let aligned : length (v_out ++ padded sub_v) % 4 ≡ 0 =
      omega (arith, h, length-append v_out (padded sub_v), length-padded sub_v) in
    let (bytes, run, size) = serialize_all_returns v (v_out ++ padded sub_v) aligned in
    (
      bytes,
      ap (λ b. if b then serialize_all (v_out ++ padded sub_v) v else panic)
            (test_of_eq (length (v_out ++ padded sub_v) % 4) 0 aligned)
          ∙ run,
      size,
    )

-- The arguments are always serialized, to a whole number of words.
pub serialize_args_returns :
    (args : List (List ℕ))
    → (bytes : List ℕ) × (serialize_args args ≡ ok bytes) × (length bytes % 4 ≡ 0)
unfolding serialize_args
serialize_args_returns args = serialize_all_returns args (to_le_bytes32 (length args)) refl
