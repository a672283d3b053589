-- ===== src/Frame/Cobs/Spec.antt =====
-- COBS as a function on lists: an independent description of the encoding. `pending` holds the
-- bytes of the group that is not complete.
use okeanos.Prelude.{
  ℕ, suc, ◌+◌, List, [], ◌∷◌, ◌++◌, ◌==◌, if◌then◌else◌, length, ◌≡◌, refl, sym, ap, append_assoc,
  arith, false, test_of_eq,
}

pub cobs : List ℕ → List ℕ → List ℕ
cobs pending [] = (length pending + 1) ∷ (pending ++ 0 ∷ [])
cobs pending (x ∷ xs) =
    let closed = (length pending + 1) ∷ (pending ++ cobs [] xs) in
    let full = 0xff ∷ (pending ++ x ∷ cobs [] xs) in
    let longer = cobs (pending ++ x ∷ []) xs in
    if x == 0 then closed else if length pending == 253 then full else longer

pub cobs-nil : (p : List ℕ) → cobs p [] ≡ suc (length p) ∷ (p ++ 0 ∷ [])
unfolding cobs
cobs-nil p = ground arith

pub cobs-zero : (p xs : List ℕ) → cobs p (0 ∷ xs) ≡ (suc (length p) ∷ p) ++ cobs [] xs
unfolding cobs
cobs-zero p xs = ground arith

pub cobs_full :
    (p : List ℕ) (x : ℕ) (xs : List ℕ)
    → (x == 0) ≡ false
    → length p ≡ 253
    → cobs p (x ∷ xs) ≡ (255 ∷ (p ++ x ∷ [])) ++ cobs [] xs
unfolding cobs
cobs_full p x xs ne full =
    rw (ne, test_of_eq (length p) 253 full)
      (ap (◌∷◌ 255) (sym (append_assoc p (x ∷ []) (cobs [] xs))))

pub cobs_more :
    (p : List ℕ) (x : ℕ) (xs : List ℕ)
    → (x == 0) ≡ false
    → (length p == 253) ≡ false
    → cobs p (x ∷ xs) ≡ cobs (p ++ x ∷ []) xs
unfolding cobs
cobs_more p x xs ne room = rw (ne, room) refl
