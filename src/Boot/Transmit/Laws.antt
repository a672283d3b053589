-- ===== src/Boot/Transmit/Laws.antt =====
-- The transmit buffer of device/okboot/src/buf.rs against the queue of the bytes that it holds.
use okeanos.Prelude.{
  ℕ, suc, ◌+◌, ◌-◌, ◌%◌, ◌≤◌, ◌<◌, true, false, List, [], ◌∷◌, ◌++◌, append_assoc, append-nil, none,
  some, leb, length, get_or, set, length-set, length-append, set-append, set_beyond, ◌≡◌, ◌⊎◌, inl,
  inr, refl, sym, ap, subst, ◌∙◌, arith, Bool-cases, test_of_ne, ltb_of_lt,
}
use native.Mathlib.Nat.{mod-add-mod, add-zero, mod-eq_of_lt}
use native.Mathlib.Decide.{dec_lt}
use okeanos.Boot.Window.{window, length-window, window-set, window-suc, window-add, mod_before}
use okeanos.Boot.Transmit.{
  TransmitBuffer, push_byte, push_bytes, extend_from_slice, reserve, shift_byte, remaining_space,
  new,
}

abbrev pub room : TransmitBuffer → ℕ
room t = length t.underlying_storage

pub record IsValid (t : TransmitBuffer) : Type 0 where
  pub begin_in : t.circle_begin < room t
  pub len_in : t.circle_len ≤ room t
  pub end_is : t.circle_end ≡ (t.circle_begin + t.circle_len) % room t

-- The bytes in the buffer, oldest first.
abbrev pub contents : TransmitBuffer → List ℕ
contents t = window t.underlying_storage (room t) t.circle_begin t.circle_len

pub length-contents : (t : TransmitBuffer) → length (contents t) ≡ t.circle_len
length-contents t = length-window t.underlying_storage (room t) t.circle_begin t.circle_len

-- `t` is `t0` with the bytes `added` behind its own.
pub record Extends (t0 t : TransmitBuffer) (added : List ℕ) : Type 0 where
  pub valid : IsValid t
  pub same_room : room t ≡ room t0
  pub same_begin : t.circle_begin ≡ t0.circle_begin
  pub holds : contents t ≡ contents t0 ++ added

pub Extends-nil : (t : TransmitBuffer) → IsValid t → Extends t t []
Extends-nil t v = record {
  valid = v;
  same_room = refl;
  same_begin = refl;
  holds = sym (append-nil (contents t));
}

pub Extends-trans :
    {t0 t1 t2 : TransmitBuffer} {xs ys : List ℕ}
    → Extends t0 t1 xs
    → Extends t1 t2 ys
    → Extends t0 t2 (xs ++ ys)
Extends-trans {t0} {t1} {t2} {xs} {ys} a b = record {
  valid = b.valid;
  same_room = b.same_room ∙ a.same_room;
  same_begin = b.same_begin ∙ a.same_begin;
  holds = b.holds ∙ ap (λ l. l ++ ys) a.holds ∙ append_assoc (contents t0) xs ys;
}

-- A write at the end of the region, and the region one byte longer.
window_push :
    (buf : List ℕ) (h n b : ℕ)
    → h < length buf
    → n < length buf
    → window
        (set buf ((h + n) % length buf) b)
        (length (set buf ((h + n) % length buf) b))
        h
        (suc n)
      ≡ window buf (length buf) h n ++ b ∷ []
window_push buf h n b hh hn =
    let cap' = length buf in
    let w = window buf cap' h n in
    ap (λ c. window (set buf ((h + n) % cap') b) c h (suc n)) (length-set buf ((h + n) % cap') b)
    ∙ window-set buf cap' h n b (suc n) hh hn (omega arith) refl
    ∙ ap (λ l. set l n b) (window-suc buf cap' h n hh hn)
    ∙ ap (λ i. set (w ++ get_or buf ((h + n) % cap') 0 ∷ []) i b) (sym (length-window buf cap' h n))
    ∙ set-append w (get_or buf ((h + n) % cap') 0) [] b

-- One more place round the storage.
next_place : (cap' h n : ℕ) → 0 < cap' → ((h + n) % cap' + 1) % cap' ≡ (h + (n + 1)) % cap'
next_place cap' h n pos = rw mod-add-mod (ap (λ t. t % cap') (omega arith))

-- A buffer whose end was moved over `n` places that are part of the storage.
grown_end :
    (t : TransmitBuffer) (n : ℕ)
    → IsValid t
    → (t.circle_end + n) % room t ≡ (t.circle_begin + (t.circle_len + n)) % room t
grown_end t n v =
    ap (λ e. (e + n) % room t) v.end_is ∙ rw mod-add-mod (ap (λ k. k % room t) (omega arith))

-- On a buffer that is not full, `push_byte` appends its byte.
pub push_byte-Extends :
    (t : TransmitBuffer) (b : ℕ)
    → IsValid t
    → t.circle_len < room t
    → ((push_byte t b).1 ≡ true) × Extends t (push_byte t b).0 (b ∷ [])
unfolding push_byte
push_byte-Extends t b v lt =
    let buf = t.underlying_storage in
    let size = length-set buf t.circle_end b in
    let one_more : t.circle_len + 1 ≡ suc t.circle_len = omega arith in
    rw (test_of_ne t.circle_len (room t) (λ e. absurd (omega arith))) (
      refl,
      record {
        valid = record {
          begin_in = omega (arith, size);
          len_in = omega (arith, size);
          end_is =
              ap (λ c. (t.circle_end + 1) % c) size
              ∙ grown_end t 1 v
              ∙ ap (λ c. (t.circle_begin + (t.circle_len + 1)) % c) (sym size);
        };
        same_room = size;
        same_begin = refl;
        holds =
            ap
              (λ k.
                window (set buf t.circle_end b) (length (set buf t.circle_end b)) t.circle_begin k)
              one_more
            ∙ ap
                (λ e. window (set buf e b) (length (set buf e b)) t.circle_begin (suc t.circle_len))
                v.end_is
            ∙ window_push buf t.circle_begin t.circle_len b v.begin_in lt;
      },
    )

push_bytes-Extends :
    (src : List ℕ) (t : TransmitBuffer)
    → IsValid t
    → t.circle_len + length src ≤ room t
    → Extends t (push_bytes t src) src
unfolding push_bytes
push_bytes-Extends [] t v fits = Extends-nil t v
push_bytes-Extends (b ∷ src) t v fits =
    let (_, x) = push_byte-Extends t b v (omega arith) in
    let len : (push_byte t b).0.circle_len ≡ t.circle_len + 1 = omega (
      arith,
      ap length x.holds,
      length-contents t,
      length-contents (push_byte t b).0,
      length-append (contents t) (b ∷ []),
    ) in
    Extends-trans x
      (push_bytes-Extends src (push_byte t b).0 x.valid (omega (arith, len, x.same_room)))

-- `extend_from_slice` appends all of its bytes if there is room for them, and else changes
-- nothing.
pub extend_from_slice-Extends :
    (t : TransmitBuffer) (src : List ℕ)
    → IsValid t
    → ((t.circle_len + length src ≤ room t)
        × ((extend_from_slice t src).1 ≡ true)
        × Extends t (extend_from_slice t src).0 src)
      ⊎ ((room t < t.circle_len + length src) × (extend_from_slice t src ≡ (t, false)))
unfolding extend_from_slice
extend_from_slice-Extends t src v = elim (Bool-cases (leb (length src) (remaining_space t))) [
  | inl yes' ↦
      let fits : t.circle_len + length src ≤ room t = ground arith in
      inl (fits, rw yes' refl, rw yes' (push_bytes-Extends src t v fits))
  | inr no' ↦ inr ((ground arith), rw no' refl)
]

-- `reserve` appends as many bytes as it is asked for, whatever stood there, and returns the place
-- of the first; without room for them it changes nothing.
pub reserve-Extends :
    (t : TransmitBuffer) (n : ℕ)
    → IsValid t
    → ((t.circle_len + n ≤ room t)
        × ((reserve t n).1 ≡ some t.circle_end)
        × Extends t (reserve t n).0 (window t.underlying_storage (room t) t.circle_end n))
      ⊎ ((room t < t.circle_len + n) × (reserve t n ≡ (t, none)))
unfolding reserve
reserve-Extends t n v = elim (Bool-cases (leb n (remaining_space t))) [
  | inl yes' ↦
      let fits : t.circle_len + n ≤ room t = ground arith in
      inl (
        fits,
        rw yes' refl,
        rw yes' (record {
          valid = record { begin_in = v.begin_in; len_in = fits; end_is = grown_end t n v };
          same_room = refl;
          same_begin = refl;
          holds =
              window-add t.underlying_storage (room t) t.circle_begin t.circle_len n v.begin_in fits
              ∙ ap (λ e. contents t ++ window t.underlying_storage (room t) e n) (sym v.end_is);
        }),
      )
  | inr no' ↦ inr ((ground arith), rw no' refl)
]

-- A new buffer over a storage that is not empty is valid and holds nothing.
pub new-IsValid :
    (storage : List ℕ) → 0 < length storage → IsValid (new storage) × (contents (new storage) ≡ [])
unfolding window
new-IsValid storage h = (
  record { begin_in = h; len_in = omega arith; end_is = sym (rw add-zero (mod-eq_of_lt h)) },
  refl,
)

-- The view behind its first byte, after that byte was cleared.
window_shift :
    (buf : List ℕ) (h n : ℕ)
    → h < length buf
    → n < length buf
    → window (set buf h 0) (length (set buf h 0)) ((h + 1) % length (set buf h 0)) n
      ≡ window buf (length buf) ((h + 1) % length buf) n
window_shift buf h n hh hn =
    let c = length buf in
    let place : ((h + 1) % c + (c - 1)) % c ≡ h = mod_before c h hh in
    ap (λ k. window (set buf h 0) k ((h + 1) % k) n) (length-set buf h 0)
    ∙ ap (λ i. window (set buf i 0) c ((h + 1) % c) n) (sym place)
    ∙ window-set buf c ((h + 1) % c) (c - 1) 0 n (omega arith) (omega arith) (omega arith) refl
    ∙ set_beyond (window buf c ((h + 1) % c) n) (c - 1) 0
        (omega (arith, length-window buf c ((h + 1) % c) n))

shift_byte-none : (t : TransmitBuffer) → t.circle_len ≡ 0 → shift_byte t ≡ (t, none)
unfolding shift_byte
shift_byte-none t e = ground arith

-- What a call that takes `b` leaves.
record Takes (t : TransmitBuffer) (b : ℕ) : Type 0 where
  answer : (shift_byte t).1 ≡ some b
  oldest : contents t ≡ b ∷ contents (shift_byte t).0
  valid : IsValid (shift_byte t).0
  same_room : room (shift_byte t).0 ≡ room t

shift_byte_some :
    (t : TransmitBuffer)
    → IsValid t
    → 0 < t.circle_len
    → Takes t (get_or t.underlying_storage t.circle_begin 0)
unfolding shift_byte window
shift_byte_some t v pos =
    let buf = t.underlying_storage in
    let h = t.circle_begin in
    let n = t.circle_len - 1 in
    let size = length-set buf h 0 in
    let len : t.circle_len ≡ suc n = omega arith in
    let head : window buf (room t) h t.circle_len
        ≡ get_or buf h 0 ∷ window buf (room t) ((h + 1) % room t) n =
      ap (window buf (room t) h) len in
    let same_end : t.circle_end ≡ ((h + 1) % room t + n) % room t =
      v.end_is ∙ rw mod-add-mod (ap (λ k. k % room t) (omega arith)) in
    let lt : h < room t = v.begin_in in
    let fits : t.circle_len ≤ room t = v.len_in in
    let t' : TransmitBuffer = record {
      underlying_storage = set buf h 0;
      circle_begin = (h + 1) % length (set buf h 0);
      circle_end = t.circle_end;
      circle_len = n;
    } in
    let call : (t', some (get_or buf h 0)) ≡ shift_byte t =
      rw (ltb_of_lt 0 t.circle_len pos) refl in
    let valid : IsValid t' = record {
      begin_in = omega (arith, size);
      len_in = omega (arith, size);
      end_is = same_end ∙ ap (λ c. ((h + 1) % c + n) % c) (sym size);
    } in
    record {
      answer = ap (λ r. r.1) (sym call);
      oldest =
          head
          ∙ ap (◌∷◌ (get_or buf h 0)) (sym (window_shift buf h n lt (omega arith)))
          ∙ ap (λ r. get_or buf h 0 ∷ contents r.0) call;
      valid = subst (λ r. IsValid r.0) call valid;
      same_room = ap (λ r. room r.0) (sym call) ∙ size;
    }

-- `shift_byte` takes the oldest byte, if there is one, and leaves the others in a valid buffer.
pub shift_byte_lem :
    (t : TransmitBuffer)
    → IsValid t
    → ((t.circle_len ≡ 0) × (shift_byte t ≡ (t, none)))
      ⊎ ((b : ℕ) × ((shift_byte t).1 ≡ some b)
          × (contents t ≡ b ∷ contents (shift_byte t).0)
          × IsValid (shift_byte t).0
          × (room (shift_byte t).0 ≡ room t))
shift_byte_lem t v = elim (dec_lt 0 t.circle_len) [
  | yes pos ↦
      let x = shift_byte_some t v pos in
      inr (get_or t.underlying_storage t.circle_begin 0, x.answer, x.oldest, x.valid, x.same_room)
  | no stuck ↦ let e : t.circle_len ≡ 0 = omega arith in inl (e, shift_byte-none t e)
]
