-- ===== src/Ppp/Phy/Xmit/Line.antt =====
-- device/antimony/src/net/phy.rs, `XmitChannel`: what goes out on the line, however it is cut into
-- interrupts.
use okeanos.Prelude.{
  ℕ, zero, suc, ◌+◌, ◌≤◌, ◌<◌, bit_xor, Bool, true, false, List, [], ◌∷◌, Option, none, some, ◌==◌,
  ltb, if◌then◌else◌, if-elim, length, get_or, take, take-nil, drop, ok, ◌>>=◌, ◌≡◌, refl, sym, ap,
  subst, ◌∙◌, arith, eq_of_test,
}
use okeanos.Ppp.Hdlc.{hdlc_esc, hdlc_esc_xor}
use okeanos.Ppp.Frame.{Buffer, Run, max_frame}
use okeanos.Ppp.Phy.Xmit.{TxBuffer, escapes, put_byte, after_byte, write_head}

-- The line for the bytes of a frame from `i` on.
unfoldable pub line_from : (ℕ → Bool) → ℕ → ℕ → List ℕ → List ℕ
line_from esc len i [] = []
line_from esc len i (x ∷ xs) =
    let rest = line_from esc len (suc i) xs in
    if escapes esc len i x then hdlc_esc ∷ bit_xor hdlc_esc_xor x ∷ rest else x ∷ rest

-- Behind an escape that went out, the line begins with the byte that it escapes.
abbrev line_behind : (ℕ → Bool) → ℕ → ℕ → List ℕ → List ℕ
line_behind esc len i [] = []
line_behind esc len i (x ∷ xs) = bit_xor hdlc_esc_xor x ∷ line_from esc len (suc i) xs

abbrev line_pending : (ℕ → Bool) → Bool → ℕ → ℕ → List ℕ → List ℕ
line_pending esc true len i xs = line_behind esc len i xs
line_pending esc false len i xs = line_from esc len i xs

-- What is still to go out for a frame.
abbrev pub remaining : (ℕ → Bool) → Option TxBuffer → List ℕ
remaining esc none = []
remaining esc (some b) =
    line_pending esc b.pending_escape b.buffer.len b.index
      (drop b.index (take b.buffer.len b.buffer.bytes))

-- The index is within the frame, and the frame within its buffer.
pub record IsWithin (b : TxBuffer) : Type 0 where
  pub index_in : b.index < b.buffer.len
  pub len_in : b.buffer.len ≤ length b.buffer.bytes
  pub in_frame : b.buffer.len ≤ max_frame

-- Of a frame nothing is left, or it is within.
abbrev pub Left : Option TxBuffer → Type 0
Left none = Unit
Left (some b) = IsWithin b

drop-cons :
    (xs : List ℕ) (i n : ℕ)
    → i < n
    → n ≤ length xs
    → drop i (take n xs) ≡ get_or xs i 0 ∷ drop (suc i) (take n xs)
drop-cons [] i n h k = absurd (omega (arith, h, k))
drop-cons (x ∷ xs) zero zero h k = absurd (omega (arith, h))
drop-cons (x ∷ xs) zero (suc n) h k = refl
drop-cons (x ∷ xs) (suc i) zero h k = absurd (omega (arith, h))
drop-cons (x ∷ xs) (suc i) (suc n) h k = drop-cons xs i n (omega (arith, h)) (omega (arith, k))

-- What a round of the inner loop keeps of the line.
record Puts (esc : ℕ → Bool) (b : TxBuffer) (r : TxBuffer × ℕ) : Type 0 where
  same_buffer : r.0.buffer ≡ b.buffer
  index_in : r.0.index ≤ b.buffer.len
  line_is :
      remaining esc (some b)
      ≡ r.1
        ∷ line_pending esc r.0.pending_escape b.buffer.len r.0.index
            (drop r.0.index (take b.buffer.len b.buffer.bytes))

module _ (esc : ℕ → Bool) where
  line_from-cons :
      (len i x : ℕ) (xs : List ℕ)
      → line_from esc len i (x ∷ xs) ≡ (
          if escapes esc len i x
          then hdlc_esc ∷ bit_xor hdlc_esc_xor x ∷ line_from esc len (suc i) xs
          else x ∷ line_from esc len (suc i) xs)
  unfolding line_from
  line_from-cons len i x xs = refl

  put_byte-Puts :
      (b : TxBuffer) → IsWithin b → Puts esc b (put_byte esc b (get_or b.buffer.bytes b.index 0))
  put_byte-Puts b w =
      let len = b.buffer.len in
      let i = b.index in
      let x = get_or b.buffer.bytes i 0 in
      let cons = drop-cons b.buffer.bytes i len w.index_in w.len_in in
      let next = line_from esc len (suc i) (drop (suc i) (take len b.buffer.bytes)) in
      let at : (y : ℕ)
          → y ∷ next ≡ y ∷ line_from esc len (i + 1) (drop (i + 1) (take len b.buffer.bytes)) =
        λ y. ap (λ k. y ∷ line_from esc len k (drop k (take len b.buffer.bytes))) (omega arith) in
      let line : line_from esc len i (drop i (take len b.buffer.bytes))
          ≡ (if escapes esc len i x then hdlc_esc ∷ bit_xor hdlc_esc_xor x ∷ next else x ∷ next) =
        ap (line_from esc len i) cons
        ∙ line_from-cons len i x (drop (suc i) (take len b.buffer.bytes)) in
      if-elim (Puts esc b) b.pending_escape _ _
        (λ t. record {
          same_buffer = refl;
          index_in = omega (arith, w.index_in);
          line_is =
              ap (λ p. line_pending esc p len i (drop i (take len b.buffer.bytes))) t
              ∙ ap (line_behind esc len i) cons
              ∙ at (bit_xor hdlc_esc_xor x);
        })
        (λ f.
          if-elim (Puts esc b) (escapes esc len i x) _ _
            (λ t. record {
              same_buffer = refl;
              index_in = omega (arith, w.index_in);
              line_is =
                  ap (λ p. line_pending esc p len i (drop i (take len b.buffer.bytes))) f
                  ∙ line
                  ∙ ap (λ c. if c then hdlc_esc ∷ bit_xor hdlc_esc_xor x ∷ next else x ∷ next) t
                  ∙ ap (λ (ys : List ℕ). hdlc_esc ∷ ys) (sym (ap (line_behind esc len i) cons));
            })
            (λ t. record {
              same_buffer = refl;
              index_in = omega (arith, w.index_in);
              line_is =
                  ap (λ p. line_pending esc p len i (drop i (take len b.buffer.bytes))) f
                  ∙ line
                  ∙ ap (λ c. if c then hdlc_esc ∷ bit_xor hdlc_esc_xor x ∷ next else x ∷ next) t
                  ∙ at x
                  ∙ ap
                      (λ p.
                        x ∷ line_pending esc p len (i + 1) (drop (i + 1) (take len b.buffer.bytes)))
                      (sym f);
            }))

-- The inner loop puts as much of the line as there is room, and leaves what is behind.
pub record Sends (esc : ℕ → Bool) (room : ℕ) (b : TxBuffer)
    (result : Run (Option TxBuffer × List ℕ)) : Type 0 where
  pub left : Option TxBuffer
  pub sent : List ℕ
  pub returns : result ≡ ok (left, sent)
  pub is_sent : sent ≡ take room (remaining esc (some b))
  pub is_left : remaining esc left ≡ drop room (remaining esc (some b))
  pub within : Left left

module _ (esc : ℕ → Bool) where
  drop-take_all : (xs : List ℕ) (n : ℕ) → drop n (take n xs) ≡ []
  drop-take_all xs zero = refl
  drop-take_all [] (suc n) = refl
  drop-take_all (x ∷ xs) (suc n) = drop-take_all xs n

  drop-nil : (n : ℕ) → drop {A = ℕ} n [] ≡ []
  drop-nil zero = refl
  drop-nil (suc n) = refl

  line_pending-nil : (p : Bool) (len i : ℕ) → line_pending esc p len i [] ≡ []
  unfolding line_from
  line_pending-nil true len i = refl
  line_pending-nil false len i = refl

  line_done :
      (p : Bool) (len i : ℕ) (bytes : List ℕ)
      → i ≡ len
      → line_pending esc p len i (drop i (take len bytes)) ≡ []
  line_done p len i bytes e =
      ap (λ k. line_pending esc p len k (drop k (take len bytes))) e
      ∙ ap (line_pending esc p len len) (drop-take_all bytes len)
      ∙ line_pending-nil p len len

  after_byte-Sends :
      (room : ℕ) (b : TxBuffer) (r : TxBuffer × ℕ)
      (rest : TxBuffer → Run (Option TxBuffer × List ℕ))
      → IsWithin b
      → Puts esc b r
      → ((b' : TxBuffer) → IsWithin b' → Sends esc room b' (rest b'))
      → Sends esc (suc room) b (after_byte r rest)
  after_byte-Sends room b r rest w p sends =
      let line : remaining esc (some b) ≡ r.1 ∷ remaining esc (some r.0) =
        p.line_is
        ∙ ap
            (λ (f : Buffer).
              r.1
              ∷ line_pending esc r.0.pending_escape f.len r.0.index
                  (drop r.0.index (take f.len f.bytes)))
            (sym p.same_buffer) in
      let len_is : r.0.buffer.len ≡ b.buffer.len = ap (λ (f : Buffer). f.len) p.same_buffer in
      let bytes_is : length r.0.buffer.bytes ≡ length b.buffer.bytes =
        ap (λ (f : Buffer). length f.bytes) p.same_buffer in
      if-elim (Sends esc (suc room) b) (r.0.index == r.0.buffer.len) _ _
        (λ t.
          let done : remaining esc (some b) ≡ r.1 ∷ [] =
            line
            ∙ ap (λ (ys : List ℕ). r.1 ∷ ys)
                (line_done r.0.pending_escape r.0.buffer.len r.0.index r.0.buffer.bytes
                  (eq_of_test _ _ t)) in
          record {
            left = none;
            sent = r.1 ∷ [];
            returns = refl;
            is_sent =
                sym (ap (take (suc room)) done ∙ ap (λ (ys : List ℕ). r.1 ∷ ys) (take-nil room));
            is_left = sym (ap (drop (suc room)) done ∙ drop-nil room);
            within = tt;
          })
        (λ f.
          let inside : r.0.index < r.0.buffer.len = ground (arith, f, len_is, p.index_in) in
          let s = sends r.0 (record {
            index_in = inside;
            len_in = omega (arith, w.len_in, len_is, bytes_is);
            in_frame = omega (arith, w.in_frame, len_is);
          }) in
          record {
            left = s.left;
            sent = r.1 ∷ s.sent;
            returns = ap (λ m. m >>= λ q. ok (q.0, r.1 ∷ q.1)) s.returns;
            is_sent = ap (λ (ys : List ℕ). r.1 ∷ ys) s.is_sent ∙ sym (ap (take (suc room)) line);
            is_left = s.is_left ∙ sym (ap (drop (suc room)) line);
            within = s.within;
          })

  -- Whatever room there is, the inner loop ends without a panic; it puts as much of the line as fits
  -- and leaves the frame with the rest of the line, so that the cut does not show on the line.
  pub write_head-Sends :
      (room : ℕ) (b : TxBuffer) → IsWithin b → Sends esc room b (write_head room esc b)
  unfolding write_head
  write_head-Sends zero b w = record {
    left = some b;
    sent = [];
    returns = refl;
    is_sent = refl;
    is_left = refl;
    within = w;
  }
  write_head-Sends (suc room) b w =
      if-elim (Sends esc (suc room) b) (ltb b.index max_frame) _ _
        (λ t.
          after_byte-Sends room b _ (λ b'. write_head room esc b') w (put_byte-Puts esc b w)
            (write_head-Sends room))
        (λ f. absurd (ground (arith, f, w.index_in, w.in_frame)))

line_pending_pos :
    (esc : ℕ → Bool) (p : Bool) (len i x : ℕ) (xs : List ℕ)
    → 0 < length (line_pending esc p len i (x ∷ xs))
unfolding line_from
line_pending_pos esc true len i x xs = omega arith
line_pending_pos esc false len i x xs =
    if-elim (λ (ys : List ℕ). 0 < length ys) (escapes esc len i x) _ _ (λ t. omega arith)
      (λ f. omega arith)

-- A frame that is not finished has something to go out.
pub remaining_pos :
    (esc : ℕ → Bool) (b : TxBuffer) → IsWithin b → 0 < length (remaining esc (some b))
remaining_pos esc b w =
    let len = b.buffer.len in
    let cons = drop-cons b.buffer.bytes b.index len w.index_in w.len_in in
    subst (λ xs. 0 < length (line_pending esc b.pending_escape len b.index xs)) (sym cons)
      (line_pending_pos esc b.pending_escape len b.index _ _)
