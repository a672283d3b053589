-- ===== src/Boot/Window.antt =====
-- A circular region of a storage as a list: the view by which the transmit buffer of
-- device/okboot/src/buf.rs is specified.
use okeanos.Prelude.{
  ℕ, zero, suc, ◌+◌, ◌-◌, ◌%◌, ◌≤◌, ◌<◌, List, [], ◌∷◌, ◌++◌, length, get_or, set, get_or-set_self,
  set_beyond, get_or-set_ne, ◌≡◌, ◌≢◌, ◌⊎◌, inl, inr, refl, sym, ap, ap₂, ◌∙◌, arith,
}
use native.Mathlib.Decide.{dec_lt}
use native.Mathlib.Nat.{mod-add-mod, add-zero, zero-add, mod-eq_of_lt, mod-eq-sub-mod}

-- The `n` bytes of `buf` from place `h` on, going round at `room`.
unfoldable pub window : List ℕ → ℕ → ℕ → ℕ → List ℕ
window buf room h zero = []
window buf room h (suc n) = get_or buf h 0 ∷ window buf room ((h + 1) % room) n

-- Going round at most once.
pub mod_cases :
    (room h k : ℕ)
    → h < room
    → k ≤ room
    → ((h + k < room) × ((h + k) % room ≡ h + k))
      ⊎ ((room ≤ h + k) × ((h + k) % room ≡ h + k - room))
mod_cases room h k hh hk = elim (dec_lt (h + k) room) [
  | yes p ↦ inl (p, mod-eq_of_lt p)
  | no p ↦ inr (
    omega arith,
    omega (
      arith,
      mod-eq-sub-mod {n = h + k} {m = room} (omega arith),
      mod-eq_of_lt {n = h + k - room} {m = room} (omega arith),
    ),
  )
]

pub mod_shift :
    (room h k : ℕ) → h < room → k < room → ((h + 1) % room + k) % room ≡ (h + suc k) % room
mod_shift room h k hh hk = rw mod-add-mod (ap (λ t. t % room) (omega arith))

pub length-window : (buf : List ℕ) (room h n : ℕ) → length (window buf room h n) ≡ n
unfolding window
length-window buf room h zero = refl
length-window buf room h (suc n) = ap suc (length-window buf room ((h + 1) % room) n)

-- The place before `h` is the last one behind `h + 1`.
pub mod_before : (room h : ℕ) → h < room → ((h + 1) % room + (room - 1)) % room ≡ h
mod_before room h hh = elim (mod_cases room h 1 hh (omega arith)) [
  | inl c ↦ rw c.1 (
      omega (
        arith,
        mod-eq-sub-mod {n = h + 1 + (room - 1)} {m = room} (omega arith),
        mod-eq_of_lt {n = h + 1 + (room - 1) - room} {m = room} (omega arith),
      ))
  | inr c ↦
      rw c.1 (omega (arith, mod-eq_of_lt {n = h + 1 - room + (room - 1)} {m = room} (omega arith)))
]

ahead_ne : (room h j : ℕ) → h < room → suc j < room → (h + suc j) % room ≢ h
ahead_ne room h j hh hj = elim (mod_cases room h (suc j) hh (omega arith)) [
  | inl c ↦ omega (arith, c.1)
  | inr c ↦ omega (arith, c.1)
]

-- A write `j` places behind the start writes element `j` of the view, if there is one.
pub window-set :
    (buf : List ℕ) (room h j v n : ℕ)
    → h < room
    → j < room
    → n ≤ room
    → room ≡ length buf
    → window (set buf ((h + j) % room) v) room h n ≡ set (window buf room h n) j v
unfolding window
window-set buf room h j v zero hh hj hn size = refl
window-set buf room h zero v (suc n) hh hj hn size =
    let e : (h + 0) % room ≡ h = rw add-zero (mod-eq_of_lt hh) in
    ap (λ i. window (set buf i v) room h (suc n)) e
    ∙ ap₂ ◌∷◌ (get_or-set_self buf h v 0 (omega arith)) (
        ap (λ i. window (set buf i v) room ((h + 1) % room) n) (sym (mod_before room h hh))
        ∙ window-set buf room ((h + 1) % room) (room - 1) v n (omega arith) (omega arith)
            (omega arith) size
        ∙ set_beyond (window buf room ((h + 1) % room) n) (room - 1) v
            (omega (arith, length-window buf room ((h + 1) % room) n)))
window-set buf room h (suc j) v (suc n) hh hj hn size =
    ap₂ ◌∷◌ (get_or-set_ne buf ((h + suc j) % room) h v 0 (ahead_ne room h j hh hj)) (
      ap (λ i. window (set buf i v) room ((h + 1) % room) n)
        (sym (mod_shift room h j hh (omega arith)))
      ∙ window-set buf room ((h + 1) % room) j v n (omega arith) (omega arith) (omega arith) size)

-- The view one byte longer.
pub window-suc :
    (buf : List ℕ) (room h n : ℕ)
    → h < room
    → n < room
    → window buf room h (suc n) ≡ window buf room h n ++ get_or buf ((h + n) % room) 0 ∷ []
unfolding window
window-suc buf room h zero hh hn = rw (add-zero, mod-eq_of_lt hh) refl
window-suc buf room h (suc n) hh hn = ap (◌∷◌ (get_or buf h 0)) (
    window-suc buf room ((h + 1) % room) n (omega arith) (omega arith)
    ∙ ap (λ i. window buf room ((h + 1) % room) n ++ get_or buf i 0 ∷ [])
        (mod_shift room h n hh (omega arith)))

-- The parts of a view.
pub window-add :
    (buf : List ℕ) (room h m n : ℕ)
    → h < room
    → m + n ≤ room
    → window buf room h (m + n) ≡ window buf room h m ++ window buf room ((h + m) % room) n
unfolding window
window-add buf room h zero n hh hn = rw (add-zero, mod-eq_of_lt hh, zero-add) refl
window-add buf room h (suc m) n hh hn =
    let e : suc m + n ≡ suc (m + n) = omega arith in
    ap (window buf room h) e
    ∙ ap (◌∷◌ (get_or buf h 0)) (
        window-add buf room ((h + 1) % room) m n (omega arith) (omega arith)
        ∙ ap (λ i. window buf room ((h + 1) % room) m ++ window buf room i n)
            (mod_shift room h m hh (omega arith)))
