-- ===== src/Ppp/Phy/Drain/Octets.antt =====
-- device/antimony/src/net/phy.rs, `drain_uart_buffer`: escaped octets inside a frame.
use okeanos.Prelude.{
  ℕ, zero, suc, ◌+◌, ◌≤◌, ◌<◌, bit_xor, Bool, true, false, List, [], ◌∷◌, ◌==◌, ltb, ltb_of_lt,
  if◌then◌else◌, if-elim, test_of_ne, get_or, set, length, write_at, ◌≡◌, refl, sym, ap, ◌∙◌, arith,
}
use okeanos.Prelude.Words.{bit_xor-bit_xor, bit_xor_comm}
use okeanos.Ppp.Hdlc.{hdlc_flag, hdlc_esc, hdlc_esc_xor}
use okeanos.Ppp.Frame.{Buffer, max_frame}
use okeanos.Ppp.Phy.{RecvChannel}
use okeanos.Ppp.Phy.Drain.{Locals, update_at, with_buffer, drain_bytes}

-- The octets that the two sides agree on: the flag and the escape are escaped, and no escaped octet
-- becomes a flag.
pub record Escapes (esc : ℕ → Bool) : Type 0 where
  pub flag : esc 0x7e ≡ true
  pub escape : esc 0x7d ≡ true
  pub plain : esc 0x5e ≡ false

-- Octets as they go over the line.
unfoldable pub octet : (ℕ → Bool) → ℕ → List ℕ → List ℕ
octet esc x rest = if esc x then hdlc_esc ∷ bit_xor hdlc_esc_xor x ∷ rest else x ∷ rest

abbrev pub escaped : (ℕ → Bool) → List ℕ → List ℕ → List ℕ
escaped esc [] rest = rest
escaped esc (x ∷ xs) rest = octet esc x (escaped esc xs rest)

abbrev pub in_frame : ℕ → ℕ → Locals
in_frame buf bi = record { in_packet = true; denied = false; buf = buf; last_esc = false; bi = bi }

abbrev pub with_bytes : RecvChannel → ℕ → (List ℕ → List ℕ) → RecvChannel
with_bytes ch buf f = with_buffer ch buf (λ b. record b { bytes = f b.bytes })

unescaped : (x : ℕ) → bit_xor (bit_xor hdlc_esc_xor x) hdlc_esc_xor ≡ x
unescaped x =
    ap (λ y. bit_xor y hdlc_esc_xor) (bit_xor_comm hdlc_esc_xor x) ∙ bit_xor-bit_xor x hdlc_esc_xor

not_flag :
    (esc : ℕ → Bool) (x : ℕ)
    → Escapes esc
    → esc x ≡ true
    → (bit_xor hdlc_esc_xor x == hdlc_flag) ≡ false
not_flag esc x e t = test_of_ne _ _ (λ same.
    let is : x ≡ 0x5e = sym (unescaped x) ∙ ap (λ y. bit_xor y hdlc_esc_xor) same in
    let f : esc x ≡ false = ap esc is ∙ e.plain in cc)

plain_octet : (esc : ℕ → Bool) (x c : ℕ) → esc c ≡ true → esc x ≡ false → (x == c) ≡ false
plain_octet esc x c t f = test_of_ne x c (λ same. let g : esc x ≡ esc c = ap esc same in cc)

drain_octet_lem :
    (esc : ℕ → Bool) (ch : RecvChannel) (buf bi x : ℕ) (rest : List ℕ)
    → Escapes esc
    → bi < max_frame
    → drain_bytes (ch, in_frame buf bi) (octet esc x rest)
      ≡ drain_bytes (with_bytes ch buf (λ bs. set bs bi x), in_frame buf (bi + 1)) rest
unfolding drain_bytes octet
drain_octet_lem esc ch buf bi x rest e h =
    let fits : ltb bi max_frame ≡ true = ltb_of_lt bi max_frame h in
    if-elim
      (λ (ys : List ℕ).
        drain_bytes (ch, in_frame buf bi) ys
        ≡ drain_bytes (with_bytes ch buf (λ bs. set bs bi x), in_frame buf (bi + 1)) rest)
      (esc x) _ _ (λ t. rw (not_flag esc x e t, fits, unescaped x) refl)
      (λ f.
        rw (plain_octet esc x hdlc_flag e.flag f, plain_octet esc x hdlc_esc e.escape f, fits) refl)

pub update_at-update_at :
    (i : ℕ) (f g : Buffer → Buffer) (bs : List Buffer)
    → update_at i f (update_at i g bs) ≡ update_at i (λ b. f (g b)) bs
update_at-update_at i f g [] = refl
update_at-update_at zero f g (b ∷ bs) = refl
update_at-update_at (suc i) f g (b ∷ bs) = ap (◌∷◌ b) (update_at-update_at i f g bs)

update_at_same : (i : ℕ) (bs : List Buffer) → update_at i (λ b. b) bs ≡ bs
update_at_same i [] = refl
update_at_same zero (b ∷ bs) = refl
update_at_same (suc i) (b ∷ bs) = ap (◌∷◌ b) (update_at_same i bs)

pub get_or-update_at :
    (i : ℕ) (f : Buffer → Buffer) (bs : List Buffer) (d : Buffer)
    → i < length bs
    → get_or (update_at i f bs) i d ≡ f (get_or bs i d)
get_or-update_at i f [] d h = absurd (omega (arith, h))
get_or-update_at zero f (b ∷ bs) d h = refl
get_or-update_at (suc i) f (b ∷ bs) d h = get_or-update_at i f bs d (omega (arith, h))

pub get_or-update_at_ne :
    (i j : ℕ) (f : Buffer → Buffer) (bs : List Buffer) (d : Buffer)
    → ((j ≡ i) → ⊥)
    → get_or (update_at j f bs) i d ≡ get_or bs i d
get_or-update_at_ne i j f [] d h = refl
get_or-update_at_ne zero zero f (b ∷ bs) d h = absurd (h refl)
get_or-update_at_ne (suc i) zero f (b ∷ bs) d h = refl
get_or-update_at_ne zero (suc j) f (b ∷ bs) d h = refl
get_or-update_at_ne (suc i) (suc j) f (b ∷ bs) d h =
    get_or-update_at_ne i j f bs d (λ e. h (ap suc e))

pub drain-escaped :
    (esc : ℕ → Bool) (ch : RecvChannel) (buf bi : ℕ) (xs rest : List ℕ)
    → Escapes esc
    → bi + length xs ≤ max_frame
    → drain_bytes (ch, in_frame buf bi) (escaped esc xs rest)
      ≡ drain_bytes
          (with_bytes ch buf (λ bs. write_at bs bi xs), in_frame buf (bi + length xs))
          rest
drain-escaped esc ch buf bi [] rest e h =
    ap (λ bs. drain_bytes (record ch { buffers = bs }, in_frame buf bi) rest)
      (sym (update_at_same buf ch.buffers))
    ∙ ap (λ k. drain_bytes (with_bytes ch buf (λ bs. bs), in_frame buf k) rest) (omega arith)
drain-escaped esc ch buf bi (x ∷ xs) rest e h =
    drain_octet_lem esc ch buf bi x (escaped esc xs rest) e (omega (arith, h))
    ∙ drain-escaped esc (with_bytes ch buf (λ bs. set bs bi x)) buf (bi + 1) xs rest e
        (omega (arith, h))
    ∙ ap (λ bs. drain_bytes (record ch { buffers = bs }, in_frame buf (bi + 1 + length xs)) rest)
        (update_at-update_at buf (λ b. record b { bytes = write_at b.bytes (bi + 1) xs })
          (λ b. record b { bytes = set b.bytes bi x }) ch.buffers)
    ∙ ap
        (λ k.
          drain_bytes
            (
              with_bytes ch buf (λ bs. write_at (set bs bi x) k xs),
              in_frame buf (bi + 1 + length xs),
            )
            rest)
        (omega arith)
    ∙ ap (λ k. drain_bytes (with_bytes ch buf (λ bs. write_at bs bi (x ∷ xs)), in_frame buf k) rest)
        (omega arith)
