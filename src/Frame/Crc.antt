-- ===== src/Frame/Crc.antt =====
-- The crate `crc32fast`, which is not part of the repository, as a parameter: its `Hasher` with
-- `new`, `update` and `finalize`. The laws are its documentation: updating with one slice after
-- the other is updating with both together, and the checksum is a `u32`.
use okeanos.Prelude.{ℕ, ◌<◌, ◌^◌, List, [], ◌∷◌, ◌++◌, ◌≡◌}

pub record Crc32 : Type 1 where
  pub Hasher : Type 0
  pub new : Hasher
  pub update : Hasher → List ℕ → Hasher
  pub finalize : Hasher → ℕ
  pub update-update : (h : Hasher) (xs ys : List ℕ) → update (update h xs) ys ≡ update h (xs ++ ys)
  pub finalize-lt : (h : Hasher) → finalize h < 2 ^ 32

-- `core::hash::Hasher::write_u8`, which writes the slice of the one byte.
abbrev pub write_u8 : (crc : Crc32) → crc.Hasher → ℕ → crc.Hasher
write_u8 crc h b = crc.update h (b ∷ [])
