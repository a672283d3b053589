-- ===== src/Frame/Cobs/RoundTrip.antt =====
-- The decoder of common/okboot-common/src/frame/decode.rs reads back what the encoder wrote.
use okeanos.Prelude.{
  ℕ, suc, ◌+◌, ◌≤◌, ◌<◌, bit_xor, List, [], ◌∷◌, ◌++◌, map, append_assoc, append-nil, ◌==◌, length,
  length-append, All, All-append, ok, ◌≡◌, ◌≢◌, refl, sym, ap, ap₂, subst, ◌∙◌, inl, inr, arith,
  Bool-cases, eq_of_test, some,
}
use mathlib.Core.List.{map-append}
use okeanos.Prelude.Words.{bit_xor-bit_xor}
use okeanos.Frame.Encode.{FrameEncoder, with_buffer_xor, encode}
use okeanos.Frame.Cobs.Spec.{cobs, cobs-nil, cobs-zero, cobs_full, cobs_more}
use okeanos.Frame.Cobs.Encoding.{masked, encode-cobs}
use okeanos.Frame.Cobs.{
  CobsState, skip, finished, byte, CobsDecoder, new, poll_plain, poll, poll_all,
}

-- `bytes` takes the decoder from `d` to `d'`, with the answers `out`.
pub data Decodes (d' : CobsDecoder) : CobsDecoder → List ℕ → List CobsState → Type 0 where
  stop : Decodes d' d' [] []
  step :
      {d d1 : CobsDecoder} {b : ℕ} {bytes : List ℕ} {s : CobsState} {out : List CobsState}
      → poll_plain d b ≡ (d1, ok s)
      → Decodes d' d1 bytes out
      → Decodes d' d (b ∷ bytes) (s ∷ out)

-- the decoder in a group of code `c`, `n` bytes behind the code
abbrev inside : ℕ → ℕ → ℕ → CobsDecoder
inside xor n c = record { frame_loc = 0; bytes_since_last_jump = n; last_jump = c; xor = xor }

-- Without the answers that only say that a byte was a code.
abbrev pub strip : List CobsState → List CobsState
strip [] = []
strip (skip ∷ l) = strip l
strip (finished ∷ l) = finished ∷ strip l
strip (byte b ∷ l) = byte b ∷ strip l

strip-append : (l m : List CobsState) → strip (l ++ m) ≡ strip l ++ strip m
strip-append [] m = refl
strip-append (skip ∷ l) m = strip-append l m
strip-append (finished ∷ l) m = ap (◌∷◌ finished) (strip-append l m)
strip-append (byte b ∷ l) m = ap (◌∷◌ (byte b)) (strip-append l m)

strip_bytes : (p : List ℕ) → strip (map byte p) ≡ map byte p
strip_bytes [] = refl
strip_bytes (b ∷ p) = ap (◌∷◌ (byte b)) (strip_bytes p)

-- `Finished` is the last answer, and only that.
abbrev pub Ends : List CobsState → Type 0
Ends [] = ⊥
Ends (skip ∷ l) = Ends l
Ends (byte b ∷ l) = Ends l
Ends (finished ∷ l) = l ≡ []

Ends-bytes : (p : List ℕ) (l : List CobsState) → Ends l → Ends (map byte p ++ l)
Ends-bytes [] l h = h
Ends-bytes (b ∷ p) l h = Ends-bytes p l h

-- The bytes of a group are answered as they are.
Decodes-group :
    (p : List ℕ) (xor n m c : ℕ) {d' : CobsDecoder} {bytes : List ℕ} {out : List CobsState}
    → All (λ b. b ≢ 0) p
    → m ≡ n + length p
    → m < c
    → Decodes d' (inside xor m c) bytes out
    → Decodes d' (inside xor n c) (p ++ bytes) (map byte p ++ out)
unfolding poll_plain
Decodes-group [] xor n m c {d'} {bytes} {out} h e lt rest =
    subst (λ k. Decodes d' (inside xor k c) bytes out) (omega arith) rest
Decodes-group (b ∷ p) xor n m c h e lt rest =
    step {d1 = inside xor (n + 1) c} (ground (arith, h.0))
      (Decodes-group p xor (n + 1) m c h.1 (omega arith) lt rest)

-- Places where the next byte is a code: `s` is the answer to it.
record Boundary (xor : ℕ) (d : CobsDecoder) (s : CobsState) : Type 0 where
  code : (k : ℕ) → k ≢ 0 → poll_plain d k ≡ (inside xor 0 k, ok s)
  goes_on : (l : List CobsState) → Ends l → Ends (s ∷ l)

Boundary-new : (xor : ℕ) → Boundary xor (new xor) skip
unfolding poll_plain
Boundary-new xor = record { code = λ k ne. ground arith; goes_on = λ l h. h }

Boundary-short : (xor n : ℕ) → suc n < 255 → Boundary xor (inside xor n (suc n)) (byte 0)
unfolding poll_plain
Boundary-short xor n lt = record { code = λ k ne. ground arith; goes_on = λ l h. h }

Boundary-full : (xor n : ℕ) → n ≡ 254 → Boundary xor (inside xor n 255) skip
unfolding poll_plain
Boundary-full xor n e = record { code = λ k ne. ground arith; goes_on = λ l h. h }

close_group : (xor n : ℕ) → poll_plain (inside xor n (suc n)) 0 ≡ (new xor, ok finished)
unfolding poll_plain
close_group xor n = ground arith

-- What decoding from a boundary comes to.
record Decoded (xor : ℕ) (d : CobsDecoder) (s : CobsState) (bytes xs : List ℕ) : Type 0 where
  out : List CobsState
  decodes : Decodes (new xor) d bytes out
  answers : strip out ≡ strip (s ∷ []) ++ (map byte xs ++ finished ∷ [])
  ends : Ends out

module _ (xor : ℕ) (d : CobsDecoder) (s : CobsState) (at : Boundary xor d s) where
  Decoded-nil :
      (p : List ℕ) → All (λ b. b ≢ 0) p → Decoded xor d s (suc (length p) ∷ (p ++ 0 ∷ [])) p
  Decoded-nil p h = record {
    out = s ∷ (map byte p ++ finished ∷ []);
    decodes = step (at.code (suc (length p)) (omega arith)) (
        Decodes-group p xor 0 (length p) (suc (length p)) h (omega arith) (omega arith)
          (step (close_group xor (length p)) stop));
    answers =
        strip-append (s ∷ []) (map byte p ++ finished ∷ [])
        ∙ ap (λ l. strip (s ∷ []) ++ l)
            (strip-append (map byte p) (finished ∷ [])
              ∙ ap (λ l. l ++ finished ∷ []) (strip_bytes p));
    ends = at.goes_on (map byte p ++ finished ∷ []) (Ends-bytes p (finished ∷ []) refl);
  }

  -- A group and what is decoded behind it.
  Decoded-group :
      (c : ℕ) (g : List ℕ) (s' : CobsState) (bytes xs ys : List ℕ)
      → All (λ b. b ≢ 0) g
      → c ≡ suc (length g)
      → strip (s' ∷ []) ++ map byte ys ≡ map byte xs
      → Decoded xor (inside xor (length g) c) s' bytes ys
      → Decoded xor d s ((c ∷ g) ++ bytes) (g ++ xs)
  Decoded-group c g s' bytes xs ys h e lead rest = record {
    out = s ∷ (map byte g ++ rest.out);
    decodes =
        step (at.code c (omega arith))
          (Decodes-group g xor 0 (length g) c h (omega arith) (omega arith) rest.decodes);
    answers =
        strip-append (s ∷ []) (map byte g ++ rest.out)
        ∙ ap (λ l. strip (s ∷ []) ++ l)
            (strip-append (map byte g) rest.out
              ∙ ap₂ ◌++◌ (strip_bytes g) (
                  rest.answers
                  ∙ sym (append_assoc (strip (s' ∷ [])) (map byte ys) (finished ∷ []))
                  ∙ ap (λ l. l ++ finished ∷ []) lead)
              ∙ sym (append_assoc (map byte g) (map byte xs) (finished ∷ []))
              ∙ ap (λ l. l ++ finished ∷ []) (sym (map-append byte g xs)));
    ends = at.goes_on (map byte g ++ rest.out) (Ends-bytes g rest.out rest.ends);
  }

-- Decoding from a boundary answers the bytes that were encoded, and then `Finished`.
Decoded-cobs :
    (xs p : List ℕ) (xor : ℕ) (d : CobsDecoder) (s : CobsState)
    → Boundary xor d s
    → All (λ b. b ≢ 0) p
    → length p ≤ 253
    → Decoded xor d s (cobs p xs) (p ++ xs)
Decoded-cobs [] p xor d s at h room = rw (cobs-nil p, append-nil) (Decoded-nil xor d s at p h)
Decoded-cobs (x ∷ xs) p xor d s at h room = elim (Bool-cases (x == 0)) [
  | inl z ↦
      rw (eq_of_test x 0 z, cobs-zero p xs)
        (Decoded-group xor d s at (suc (length p)) p (byte 0) (cobs [] xs) (0 ∷ xs) xs h refl refl (
          Decoded-cobs xs [] xor _ (byte 0) (Boundary-short xor (length p) (omega arith)) tt
            (omega arith)))
  | inr ne ↦
      let grown : All (λ b. b ≢ 0) (p ++ x ∷ []) =
        All-append (λ b. b ≢ 0) p (x ∷ []) h ((ground arith), tt) in
      elim (Bool-cases (length p == 253)) [
        | inl t ↦
            let full = eq_of_test (length p) 253 t in
            let len : length (p ++ x ∷ []) ≡ 254 = omega (arith, length-append p (x ∷ [])) in
            rw (cobs_full p x xs ne full) (
              subst (Decoded xor d s ((255 ∷ (p ++ x ∷ [])) ++ cobs [] xs))
                (append_assoc p (x ∷ []) xs)
                (Decoded-group xor d s at 255 (p ++ x ∷ []) skip (cobs [] xs) xs xs grown
                  (omega arith) refl
                  (Decoded-cobs xs [] xor _ skip (Boundary-full xor _ len) tt (omega arith))))
        | inr room' ↦ rw (cobs_more p x xs ne room') (
            subst (Decoded xor d s (cobs (p ++ x ∷ []) xs)) (append_assoc p (x ∷ []) xs) (
              Decoded-cobs xs (p ++ x ∷ []) xor d s at grown
                (ground (arith, length-append p (x ∷ [])))))
      ]
]

pub xor-poll_plain : (d : CobsDecoder) (b : ℕ) → (poll_plain d b).0.xor ≡ d.xor
unfolding poll_plain
xor-poll_plain d b = ground arith

poll_all_of_Decodes :
    {d' d : CobsDecoder} {bytes : List ℕ} {out : List CobsState} (xor : ℕ)
    → d.xor ≡ xor
    → Decodes d' d bytes out
    → poll_all d (masked xor bytes) ≡ (d', ok out)
unfolding poll_all
poll_all_of_Decodes xor e stop = refl
poll_all_of_Decodes xor e (step {d} {d1} {b} {bytes} {s} call rest) =
    let plain : poll d (bit_xor b xor) ≡ (d1, ok s) =
      unfold poll in (rw (← e, bit_xor-bit_xor) call) in
    let same : d1.xor ≡ xor = sym (ap (λ r. r.0.xor) call) ∙ xor-poll_plain d b ∙ e in
    rw (plain, poll_all_of_Decodes xor same rest) refl

pub Decodes-cobs :
    (xs : List ℕ) (xor : ℕ)
    → (out : List CobsState) × Decodes (new xor) (new xor) (cobs [] xs) out
      × (strip out ≡ map byte xs ++ finished ∷ [])
      × Ends out
Decodes-cobs xs xor =
    let d = Decoded-cobs xs [] xor (new xor) skip (Boundary-new xor) tt (omega arith) in
    (d.out, d.decodes, d.answers, d.ends)

-- Whatever bytes a frame encoder was given, the decoder with the same xor value takes all that it
-- wrote with no error, answers those bytes and then `Finished`, and is as new.
pub poll_all-encode :
    (buffer : List ℕ) (xor : ℕ) (e : FrameEncoder) (xs : List ℕ)
    → with_buffer_xor buffer xor ≡ some e
    → (out : List CobsState) × (poll_all (new xor) (encode e xs) ≡ (new xor, ok out))
      × (strip out ≡ map byte xs ++ finished ∷ [])
poll_all-encode buffer xor e xs h =
    let (out, decodes, answers, _) = Decodes-cobs xs xor in
    (
      out,
      ap (poll_all (new xor)) (encode-cobs buffer xor e xs h).1
          ∙ poll_all_of_Decodes xor refl decodes,
      answers,
    )
