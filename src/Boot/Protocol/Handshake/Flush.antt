-- ===== src/Boot/Protocol/Handshake/Flush.antt =====
-- `flush_to_fifo` of device/okboot/src/protocol.rs: the whole transmit buffer goes out, in order.
use okeanos.Prelude.{
  ℕ, zero, suc, ◌≤◌, List, [], ◌∷◌, Option, none, some, length, ◌≡◌, inl, inr, refl, sym, ap, ◌∙◌,
  subst, arith,
}
use okeanos.Boot.Transmit.{TransmitBuffer, shift_byte}
use okeanos.Boot.Transmit.Laws.{IsValid, contents, length-contents, shift_byte_lem}
use okeanos.Boot.Protocol.Handshake.{flush_next, flush_bytes, flush_to_fifo}

nil_of_zero : (xs : List ℕ) → length xs ≡ 0 → xs ≡ []
nil_of_zero [] h = refl
nil_of_zero (x ∷ xs) h = absurd (omega (arith, h))

flush_next-some :
    (r : TransmitBuffer × Option ℕ) (rest : TransmitBuffer → TransmitBuffer × List ℕ) (b : ℕ)
    → r.1 ≡ some b
    → flush_next r rest ≡ ((rest r.0).0, b ∷ (rest r.0).1)
flush_next-some (t, some c) rest b e = ap (λ (o : Option ℕ). flush_next (t, o) rest) e
flush_next-some (t, none) rest b e = cc

record Flushed (t : TransmitBuffer) (r : TransmitBuffer × List ℕ) : Type 0 where
  out : r.1 ≡ contents t
  empty : r.0.circle_len ≡ 0
  valid : IsValid r.0

flush_bytes-Flushed :
    (n : ℕ) (t : TransmitBuffer) → IsValid t → t.circle_len ≤ n → Flushed t (flush_bytes n t)
unfolding flush_bytes
flush_bytes-Flushed zero t v h = record {
  out = sym (nil_of_zero (contents t) (omega (arith, length-contents t, h)));
  empty = omega (arith, h);
  valid = v;
}
flush_bytes-Flushed (suc n) t v h = elim (shift_byte_lem t v) [
  | inl (e, is) ↦
      subst (λ r. Flushed t (flush_next r (λ t'. flush_bytes n t'))) (sym is)
        (record {
          out = sym (nil_of_zero (contents t) (omega (arith, length-contents t, e)));
          empty = e;
          valid = v;
        })
  | inr (b, is, split, v', same) ↦
      let t' = (shift_byte t).0 in
      let rest =
        flush_bytes-Flushed n t' v'
          (omega (arith, length-contents t, length-contents t', ap length split, h)) in
      subst (Flushed t) (sym (flush_next-some (shift_byte t) (λ t'. flush_bytes n t') b is))
        (record { out = ap (◌∷◌ b) rest.out ∙ sym split; empty = rest.empty; valid = rest.valid })
]

-- All bytes of the transmit buffer go out, oldest first, and the buffer is empty.
pub flush_to_fifo-contents :
    (t : TransmitBuffer)
    → IsValid t
    → ((flush_to_fifo t).1 ≡ contents t)
      × ((flush_to_fifo t).0.circle_len ≡ 0)
      × IsValid (flush_to_fifo t).0
flush_to_fifo-contents t v =
    let f = flush_bytes-Flushed t.circle_len t v (omega arith) in (f.out, f.empty, f.valid)
