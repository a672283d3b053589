-- ===== src/Boot/Transmit/Rollback.antt =====
-- Checkpoints of the transmit buffer of device/okboot/src/buf.rs: what `restore` undoes, and
-- writes into bytes that were reserved.
use okeanos.Prelude.{
  ℕ, suc, ◌+◌, ◌%◌, ◌≤◌, ◌<◌, List, [], ◌∷◌, ◌++◌, ◌==◌, if◌then◌else◌, length, set, take,
  replicate, length-set, length-append, length-replicate, take-length-append, write_at,
  write_at_beyond, ◌≡◌, inl, inr, refl, sym, ap, subst, ◌∙◌, arith,
}
use native.Mathlib.Nat.{mod-add-mod}
use okeanos.Boot.Window.{window, length-window, window-set, window-add, mod_cases}
use okeanos.Boot.Transmit.{
  TransmitBuffer, write_bytes_at_unchecked, checkpoint, bytes_since_checkpoint, restore,
}
use okeanos.Boot.Transmit.Laws.{room, IsValid, contents, length-contents, Extends}

-- What `_write_bytes_at_unchecked` does, `j` places behind `h`.
pub record Written (t t' : TransmitBuffer) (h j : ℕ) (bytes : List ℕ) : Type 0 where
  pub same_room : room t' ≡ room t
  pub same_begin : t'.circle_begin ≡ t.circle_begin
  pub same_end : t'.circle_end ≡ t.circle_end
  pub same_len : t'.circle_len ≡ t.circle_len
  pub view :
      (n : ℕ)
      → n ≤ room t
      → window t'.underlying_storage (room t) h n
        ≡ write_at (window t.underlying_storage (room t) h n) j bytes

pub write_bytes_at-Written :
    (bytes : List ℕ) (t : TransmitBuffer) (h j : ℕ)
    → h < room t
    → j + length bytes ≤ room t
    → Written t (write_bytes_at_unchecked t ((h + j) % room t) bytes).0 h j bytes
unfolding write_bytes_at_unchecked
write_bytes_at-Written [] t h j hh fits = record {
  same_room = refl;
  same_begin = refl;
  same_end = refl;
  same_len = refl;
  view = λ n hn. refl;
}
write_bytes_at-Written (b ∷ bytes) t h j hh fits =
    let place = (h + j) % room t in
    let t1 : TransmitBuffer = record t { underlying_storage = set t.underlying_storage place b } in
    let size : room t1 ≡ room t = length-set t.underlying_storage place b in
    let next : (place + 1) % room t1 ≡ (h + suc j) % room t1 =
      ap (λ c. (place + 1) % c) size
      ∙ (rw mod-add-mod (ap (λ k. k % room t) (omega arith)))
      ∙ ap (λ c. (h + suc j) % c) (sym size) in
    let w = write_bytes_at-Written bytes t1 h (suc j) (omega (arith, size)) (omega (arith, size)) in
    let done =
      subst (λ i. Written t1 (write_bytes_at_unchecked t1 i bytes).0 h (suc j) bytes) (sym next)
        w in
    let out = (write_bytes_at_unchecked t1 ((place + 1) % room t1) bytes).0.underlying_storage in
    record {
      same_room = done.same_room ∙ size;
      same_begin = done.same_begin;
      same_end = done.same_end;
      same_len = done.same_len;
      view = λ n hn.
          ap (λ c. window out c h n) (sym size)
          ∙ done.view n (omega (arith, size))
          ∙ ap (λ l. write_at l (suc j) bytes)
              (ap (λ c. window t1.underlying_storage c h n) size
                ∙ window-set t.underlying_storage (room t) h j b n hh (omega arith) hn refl);
    }

-- The bytes since a checkpoint are those that were added, but for one case: a buffer that was
-- empty then and is full now counts none.
pub bytes_since_checkpoint_lem :
    (t0 t : TransmitBuffer) (added : List ℕ)
    → IsValid t0
    → Extends t0 t added
    → bytes_since_checkpoint t (checkpoint t0)
      ≡ (if length added == room t0 then 0 else length added)
unfolding bytes_since_checkpoint
bytes_since_checkpoint_lem t0 t added v x =
    let a = length added in
    let len : t.circle_len ≡ t0.circle_len + a = omega (
      arith,
      ap length x.holds,
      length-contents t,
      length-contents t0,
      length-append (contents t0) added,
    ) in
    let fits : a ≤ room t0 = omega (arith, x.same_room, x.valid.len_in) in
    let end : t.circle_end ≡ (t0.circle_end + a) % room t0 =
      x.valid.end_is
      ∙ ap (λ c. (t.circle_begin + t.circle_len) % c) x.same_room
      ∙ ap (λ c. (c + t.circle_len) % room t0) x.same_begin
      ∙ ap (λ c. (t0.circle_begin + c) % room t0) len
      ∙ sym (
          ap (λ e. (e + a) % room t0) v.end_is
          ∙ rw mod-add-mod (ap (λ k. k % room t0) (omega arith))) in
    let end_in : t0.circle_end < room t0 = omega (arith, v.end_is, v.begin_in) in
    elim (mod_cases (room t0) t0.circle_end a end_in fits) [
      | inl c ↦ ground (arith, end, c.0, c.1, x.same_room)
      | inr c ↦ ground (arith, end, c.0, c.1, x.same_room, end_in, fits)
    ]

-- What was held before is still in its place.
kept :
    (t0 t : TransmitBuffer) (added : List ℕ)
    → Extends t0 t added
    → window t.underlying_storage (room t) t0.circle_begin t0.circle_len ≡ contents t0
kept t0 t added x =
    let a = length added in
    let w = window t.underlying_storage (room t) t0.circle_begin t0.circle_len in
    let len : t.circle_len ≡ t0.circle_len + a = omega (
      arith,
      ap length x.holds,
      length-contents t,
      length-contents t0,
      length-append (contents t0) added,
    ) in
    let rest =
      window t.underlying_storage (room t) ((t0.circle_begin + t0.circle_len) % room t) a in
    let split : w ++ rest ≡ contents t0 ++ added =
      sym (
        window-add t.underlying_storage (room t) t0.circle_begin t0.circle_len a
          (omega (arith, x.same_begin, x.valid.begin_in)) (omega (arith, len, x.valid.len_in)))
      ∙ ap (window t.underlying_storage (room t) t0.circle_begin) (sym len)
      ∙ ap (λ h. window t.underlying_storage (room t) h t.circle_len) (sym x.same_begin)
      ∙ x.holds in
    let wlen : t0.circle_len ≡ length w =
      sym (length-window t.underlying_storage (room t) t0.circle_begin t0.circle_len) in
    sym (take-length-append w rest)
    ∙ ap (λ n. take n (w ++ rest)) (sym wlen)
    ∙ ap (take t0.circle_len) split
    ∙ ap (λ n. take n (contents t0 ++ added)) (sym (length-contents t0))
    ∙ take-length-append (contents t0) added

-- After bytes were added to a valid buffer, `restore` brings back a valid buffer with just the
-- bytes that it held at the checkpoint.
pub restore-checkpoint :
    (t0 t : TransmitBuffer) (added : List ℕ)
    → IsValid t0
    → Extends t0 t added
    → IsValid (restore t (checkpoint t0))
      × (contents (restore t (checkpoint t0)) ≡ contents t0)
      × (room (restore t (checkpoint t0)) ≡ room t0)
unfolding restore
restore-checkpoint t0 t added v x =
    let n = bytes_since_checkpoint t (checkpoint t0) in
    let zeros = replicate n 0 in
    let len : t.circle_len ≡ t0.circle_len + length added = omega (
      arith,
      ap length x.holds,
      length-contents t,
      length-contents t0,
      length-append (contents t0) added,
    ) in
    let small : n ≤ length added = ground (arith, bytes_since_checkpoint_lem t0 t added v x) in
    let place : t0.circle_end ≡ (t0.circle_begin + t0.circle_len) % room t =
      v.end_is ∙ ap (λ c. (t0.circle_begin + t0.circle_len) % c) (sym x.same_room) in
    let w =
      write_bytes_at-Written zeros t t0.circle_begin t0.circle_len
        (omega (arith, x.same_room, v.begin_in))
        (omega (arith, length-replicate {A = ℕ} n 0, small, len, x.valid.len_in)) in
    let w' =
      subst
        (λ i. Written t (write_bytes_at_unchecked t i zeros).0 t0.circle_begin t0.circle_len zeros)
        (sym place) w in
    let out = (write_bytes_at_unchecked t t0.circle_end zeros).0 in
    let size : room out ≡ room t0 = w'.same_room ∙ x.same_room in
    (
      record {
        begin_in = omega (arith, size, v.begin_in);
        len_in = omega (arith, size, v.len_in);
        end_is = v.end_is ∙ ap (λ c. (t0.circle_begin + t0.circle_len) % c) (sym size);
      },
      ap (λ c. window out.underlying_storage c t0.circle_begin t0.circle_len) w'.same_room
          ∙ w'.view t0.circle_len (omega (arith, len, x.valid.len_in))
          ∙ write_at_beyond zeros
              (window t.underlying_storage (room t) t0.circle_begin t0.circle_len) t0.circle_len
              (omega
                (arith, length-window t.underlying_storage (room t) t0.circle_begin t0.circle_len))
          ∙ kept t0 t added x,
      size,
    )
