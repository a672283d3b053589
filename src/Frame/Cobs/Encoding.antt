-- ===== src/Frame/Cobs/Encoding.antt =====
-- The encoder of common/okboot-common/src/frame/encode.rs writes what `Spec.cobs` describes.
use okeanos.Prelude.{
  ℕ, zero, suc, ◌+◌, ◌≤◌, bit_xor, List, [], ◌∷◌, ◌++◌, map, append_assoc, set-append, ◌==◌, length,
  set, take, length-append, take-length-append, ◌≡◌, refl, sym, ap, ap₂, subst, ◌∙◌, inl, inr,
  arith, Bool-cases, false, eq_of_test, some,
}
use mathlib.Core.List.{map-append}
use okeanos.Frame.Encode.{
  FrameEncoderInner, EncodeStateInner, FrameEncoder, inner_write_u8, inner_finish, write_u8, finish,
  write_all, encode, buf_bytes, xor_prefix, with_buffer_xor, inner_with_buffer,
}
use okeanos.Frame.Cobs.Spec.{cobs, cobs-nil, cobs-zero, cobs_full, cobs_more}

take-suc-append :
    (p : List ℕ) (x : ℕ) (t : List ℕ) → take (suc (length p)) (p ++ x ∷ t) ≡ p ++ x ∷ []
take-suc-append [] x t = refl
take-suc-append (z ∷ p) x t = ap (◌∷◌ z) (take-suc-append p x t)

-- The encoder with `p` in its buffer, behind the place for the code.
abbrev holding : ℕ → List ℕ → ℕ → List ℕ → FrameEncoderInner
holding head p y tail = record { buf = head ∷ (p ++ y ∷ tail); cursor = suc (length p) }

pub record Holds (e : FrameEncoderInner) (p : List ℕ) : Type 0 where
  pub head : ℕ
  pub next : ℕ
  pub tail : List ℕ
  pub is : e ≡ holding head p next tail
  pub size : length p + length tail ≡ 253

-- A buffer of 255 bytes with the cursor at 1 holds nothing.
Holds-nil : (b : List ℕ) → length b ≡ 255 → Holds (record { buf = b; cursor = 1 }) []
Holds-nil [] h = absurd (omega arith)
Holds-nil (x ∷ []) h = absurd (omega arith)
Holds-nil (x ∷ y ∷ t) h = record { head = x; next = y; tail = t; is = refl; size = omega arith }

-- What an inner call leaves: a slice of `n` bytes, and a buffer of the same length.
record Emits (buf : List ℕ) (n : ℕ) (bytes : List ℕ) : Type 0 where
  slice : take n buf ≡ bytes
  whole : length buf ≡ 255
  within : n ≤ 255

module _ (head : ℕ) (p : List ℕ) (y : ℕ) (tail : List ℕ) (size : length p + length tail ≡ 253) where
  inner_write_zero :
      (b : List ℕ) × (inner_write_u8 (holding head p y tail) 0
        ≡ (record { buf = b; cursor = 1 }, EncodeStateInner.buf (suc (length p))))
      × Emits b (suc (length p)) (suc (length p) ∷ p)
  unfolding inner_write_u8
  inner_write_zero = (
    suc (length p) ∷ (p ++ y ∷ tail),
    ground arith,
    ground (arith, take-length-append p (y ∷ tail), length-append p (y ∷ tail)),
  )

  inner_write_full :
      (x : ℕ)
      → (x == 0) ≡ false
      → length p ≡ 253
      → (b : List ℕ) × (inner_write_u8 (holding head p y tail) x
          ≡ (record { buf = b; cursor = 1 }, EncodeStateInner.buf 255))
        × Emits b 255 (255 ∷ (p ++ x ∷ []))
  unfolding inner_write_u8
  inner_write_full x ne full = (
    255 ∷ (p ++ x ∷ tail),
    ground (arith, ap (λ i. set (p ++ y ∷ tail) i x) full, set-append p y tail x),
    record {
      slice =
          ap (◌∷◌ 255)
            (ap (λ i. take (suc i) (p ++ x ∷ tail)) (sym full) ∙ take-suc-append p x tail);
      whole = omega (arith, length-append p (x ∷ tail));
      within = omega arith;
    },
  )

  inner_finish_lem :
      (e : FrameEncoderInner) × (inner_finish (holding head p y tail) ≡ (e, suc (suc (length p))))
      × Emits e.buf (suc (suc (length p))) (suc (length p) ∷ (p ++ 0 ∷ []))
  unfolding inner_finish
  inner_finish_lem = (
    record { buf = suc (length p) ∷ (p ++ 0 ∷ tail); cursor = suc (suc (length p)) },
    ground (arith, set-append p y tail 0),
    record {
      slice = ap (◌∷◌ (suc (length p))) (take-suc-append p 0 tail);
      whole = omega (arith, length-append p (0 ∷ tail));
      within = omega arith;
    },
  )

inner_write_more :
    (head : ℕ) (p : List ℕ) (y : ℕ) (tail : List ℕ) (x : ℕ)
    → length p + length tail ≡ 253
    → (x == 0) ≡ false
    → (length p == 253) ≡ false
    → (e : FrameEncoderInner) × (inner_write_u8 (holding head p y tail) x
        ≡ (e, EncodeStateInner.pass))
      × Holds e (p ++ x ∷ [])
unfolding inner_write_u8
inner_write_more head p y [] x size ne room = absurd (ground arith)
inner_write_more head p y (z ∷ tail) x size ne room = (
  record { buf = head ∷ (p ++ x ∷ z ∷ tail); cursor = suc (suc (length p)) },
  ground (arith, set-append p y (z ∷ tail) x),
  record {
    head = head;
    next = z;
    tail = tail;
    is = ground (arith, append_assoc p (x ∷ []) (z ∷ tail), length-append p (x ∷ []));
    size = omega (arith, length-append p (x ∷ []));
  },
)

-- The xor value on every byte.
abbrev pub masked : ℕ → List ℕ → List ℕ
masked xor = map (λ x. bit_xor x xor)

take-xor_prefix : (xor n : ℕ) (b : List ℕ) → take n (xor_prefix xor n b) ≡ masked xor (take n b)
take-xor_prefix xor zero b = refl
take-xor_prefix xor (suc n) [] = refl
take-xor_prefix xor (suc n) (x ∷ b) = ap (◌∷◌ (bit_xor x xor)) (take-xor_prefix xor n b)

length-xor_prefix : (xor n : ℕ) (b : List ℕ) → length (xor_prefix xor n b) ≡ length b
length-xor_prefix xor zero b = refl
length-xor_prefix xor (suc n) [] = refl
length-xor_prefix xor (suc n) (x ∷ b) = ap suc (length-xor_prefix xor n b)

-- What one call of `write_u8` does to the pending bytes.
record Writes (e : FrameEncoder) (p : List ℕ) (x : ℕ) (out next : List ℕ) : Type 0 where
  bytes : buf_bytes (write_u8 e x).1 ≡ masked e.xor out
  holds : Holds (write_u8 e x).0.inner next
  same_xor : (write_u8 e x).0.xor ≡ e.xor

-- The outer call on an inner one that returns a slice.
Writes-of_Emits :
    (inner : FrameEncoderInner) (xor : ℕ) (p : List ℕ) (x n : ℕ) (b bytes : List ℕ)
    → inner_write_u8 inner x ≡ (record { buf = b; cursor = 1 }, EncodeStateInner.buf n)
    → Emits b n bytes
    → Writes (record { inner = inner; xor = xor }) p x bytes []
unfolding write_u8
Writes-of_Emits inner xor p x n b bytes call emits = record {
  bytes = rw call (take-xor_prefix xor n b ∙ ap (masked xor) emits.slice);
  holds = rw call (Holds-nil (xor_prefix xor n b) (length-xor_prefix xor n b ∙ emits.whole));
  same_xor = rw call refl;
}

module _ (xor : ℕ) (head : ℕ) (p : List ℕ) (y : ℕ) (t : List ℕ)
    (size : length p + length t ≡ 253) where
  write_zero : Writes (record { inner = holding head p y t; xor = xor }) p 0 (suc (length p) ∷ p) []
  write_zero =
      let (b, call, emits) = inner_write_zero head p y t size in
      Writes-of_Emits (holding head p y t) xor p 0 (suc (length p)) b (suc (length p) ∷ p) call
        emits

  write_full :
      (x : ℕ)
      → (x == 0) ≡ false
      → length p ≡ 253
      → Writes (record { inner = holding head p y t; xor = xor }) p x (255 ∷ (p ++ x ∷ [])) []
  write_full x ne full =
      let (b, call, emits) = inner_write_full head p y t size x ne full in
      Writes-of_Emits (holding head p y t) xor p x 255 b (255 ∷ (p ++ x ∷ [])) call emits

  write_more :
      (x : ℕ)
      → (x == 0) ≡ false
      → (length p == 253) ≡ false
      → Writes (record { inner = holding head p y t; xor = xor }) p x [] (p ++ x ∷ [])
  unfolding write_u8
  write_more x ne room =
      let (e, call, holds) = inner_write_more head p y t x size ne room in
      record { bytes = rw call refl; holds = rw call holds; same_xor = rw call refl }

  finish_lem :
      (finish (record { inner = holding head p y t; xor = xor })).1
      ≡ masked xor (suc (length p) ∷ (p ++ 0 ∷ []))
  unfolding finish
  finish_lem =
      let (e, call, emits) = inner_finish_lem head p y t size in
      rw call (take-xor_prefix xor (suc (suc (length p))) e.buf ∙ ap (masked xor) emits.slice)

encode-cons :
    (e : FrameEncoder) (x : ℕ) (xs : List ℕ)
    → encode e (x ∷ xs) ≡ buf_bytes (write_u8 e x).1 ++ encode (write_u8 e x).0 xs
unfolding encode write_all
encode-cons e x xs = append_assoc (buf_bytes (write_u8 e x).1) _ _

encode_of_Writes :
    (e : FrameEncoder) (p : List ℕ) (x : ℕ) (xs out next : List ℕ)
    → Writes e p x out next
    → encode (write_u8 e x).0 xs ≡ masked (write_u8 e x).0.xor (cobs next xs)
    → encode e (x ∷ xs) ≡ masked e.xor (out ++ cobs next xs)
encode_of_Writes e p x xs out next w ih =
    encode-cons e x xs
    ∙ ap₂ ◌++◌ w.bytes (ih ∙ ap (λ v. masked v (cobs next xs)) w.same_xor)
    ∙ sym (map-append (λ b. bit_xor b e.xor) out (cobs next xs))

-- The three cases of a write, at any encoder that holds `p`.
Writes-at :
    (e : FrameEncoder) (p : List ℕ) (x : ℕ) (out next : List ℕ) (h : Holds e.inner p)
    → Writes (record { inner = holding h.head p h.next h.tail; xor = e.xor }) p x out next
    → Writes e p x out next
Writes-at e p x out next h w =
    subst (λ i. Writes (record { inner = i; xor = e.xor }) p x out next) (sym h.is) w

-- An encoder that holds `p` goes on as `cobs p` describes.
pub encode-Holds :
    (xs : List ℕ) (e : FrameEncoder) (p : List ℕ)
    → Holds e.inner p
    → encode e xs ≡ masked e.xor (cobs p xs)
unfolding encode write_all
encode-Holds [] e p h =
    subst (λ i. encode (record { inner = i; xor = e.xor }) [] ≡ masked e.xor (cobs p [])) (sym h.is)
      (finish_lem e.xor h.head p h.next h.tail h.size ∙ ap (masked e.xor) (sym (cobs-nil p)))
encode-Holds (x ∷ xs) e p h = elim (Bool-cases (x == 0)) [
  | inl z ↦
      let w = Writes-at e p 0 _ _ h (write_zero e.xor h.head p h.next h.tail h.size) in
      rw (eq_of_test x 0 z) (
        encode_of_Writes e p 0 xs _ _ w (encode-Holds xs (write_u8 e 0).0 [] w.holds)
        ∙ ap (masked e.xor) (sym (cobs-zero p xs)))
  | inr ne ↦ elim (Bool-cases (length p == 253)) [
    | inl t ↦
        let full = eq_of_test (length p) 253 t in
        let w = Writes-at e p x _ _ h (write_full e.xor h.head p h.next h.tail h.size x ne full) in
        encode_of_Writes e p x xs _ _ w (encode-Holds xs (write_u8 e x).0 [] w.holds)
        ∙ ap (masked e.xor) (sym (cobs_full p x xs ne full))
    | inr room ↦
        let w = Writes-at e p x _ _ h (write_more e.xor h.head p h.next h.tail h.size x ne room) in
        encode_of_Writes e p x xs _ _ w (encode-Holds xs (write_u8 e x).0 (p ++ x ∷ []) w.holds)
        ∙ ap (masked e.xor) (sym (cobs_more p x xs ne room))
  ]
]

-- A frame encoder that was made over some buffer writes the COBS encoding of its bytes, under the
-- xor value; it is made just over a buffer of 255 bytes.
pub encode-cobs :
    (buffer : List ℕ) (xor : ℕ) (e : FrameEncoder) (xs : List ℕ)
    → with_buffer_xor buffer xor ≡ some e
    → (length buffer ≡ 255) × (encode e xs ≡ masked xor (cobs [] xs))
unfolding with_buffer_xor inner_with_buffer
encode-cobs buffer xor e xs h = elim (Bool-cases (length buffer == 255)) [
  | inl t ↦
      let len = eq_of_test (length buffer) 255 t in
      let same : record { inner = record { buf = buffer; cursor = 1 }; xor = xor } ≡ e =
        ground arith in
      (
        len,
        subst (λ f. encode f xs ≡ masked xor (cobs [] xs)) same
            (encode-Holds xs _ [] (Holds-nil buffer len)),
      )
  | inr f ↦ absurd (ground arith)
]
