-- ===== src/Host/Receive/Frames.antt =====
-- host/okdude/src/upload.rs, `recv_with_print_string`: it gives the message whose frame arrives.
use okeanos.Prelude.{
  ℕ, suc, ◌+◌, ◌*◌, ◌^◌, All, ◌≤◌, ◌<◌, true, false, List, [], ◌∷◌, ◌++◌, map, append_assoc,
  append-nil, Option, none, some, ◌==◌, test_of_eq, ltb, ltb_of_le, length, length-append,
  length-map, ◌-◌, ok, err, ok-injective, ◌>>=◌, ◌≡◌, refl, sym, ap, ◌∙◌, arith,
}
use okeanos.Prelude.Words.{to_le_bytes32}
use okeanos.Frame.Crc.{Crc32}
use okeanos.Frame.Message.{MessageType, to_u32, cobs_xor, preamble_bytes}
use okeanos.Frame.Encode.{FrameEncoder, encode, encode_length, with_buffer_xor}
use okeanos.Frame.Layer.{FrameHeader, FrameOutput, Layer, new, skip_preamble}
use okeanos.Frame.Layer.Feeds.{says, feed_all}
use okeanos.Frame.Layer.RoundTrip.{feed_all-skip_preamble}
use okeanos.Host.Decoder.Outputs.{feed_all-cons}
use okeanos.Host.Receive.{
  Round, byte, Got, Message, Partial, ended, next_state, find_preamble, on_output, read_frame,
  on_fed, read_exact, word_or_zero, skip_string, behind_preamble, recv_with_print_string,
}

-- A byte that is read in time.
abbrev pub heard : ℕ → Round
heard b = record { elapsed = false; answer = byte b }

-- The outputs of the frame layer one after the other.
on_outputs : Partial → List FrameOutput → Got Message
on_outputs p [] = err ended
on_outputs p (o ∷ outs) = on_output o p (λ p'. on_outputs p' outs)

on_output-says :
    (o : FrameOutput) (p : Partial) (outs : List FrameOutput)
    → on_output o p (λ p'. on_outputs p' outs) ≡ on_outputs p (says o outs)
unfolding on_outputs on_output
on_output-says FrameOutput.skip p outs = refl
on_output-says (FrameOutput.header h) p outs = refl
on_output-says (FrameOutput.payload b) p outs = refl
on_output-says FrameOutput.finished p outs = refl
on_output-says FrameOutput.legacy p outs = refl
on_output-says (FrameOutput.legacy_print_string_byte n b) p outs = refl

module _ (crc32 : Crc32) where
  -- Bytes that the layer takes with no error: the loop acts on its outputs.
  read_frame-feed_all :
      (l l' : Layer crc32) (bytes : List ℕ) (outs : List FrameOutput) (p : Partial)
      → feed_all crc32 l bytes ≡ (l', ok outs)
      → read_frame crc32 l p (map heard bytes) ≡ on_outputs p outs
  unfolding read_frame on_outputs feed_all
  read_frame-feed_all l l' [] outs p run =
      let e : [] ≡ outs = ok-injective _ refl (ap (λ r. r.1) run) in ap (on_outputs p) e
  read_frame-feed_all l l' (b ∷ bytes) outs p run =
      let (l1, o, outs1, fed, rest, same) = feed_all-cons crc32 l l' b bytes outs run in
      ap (λ f. on_fed crc32 f p (λ l'' p'. read_frame crc32 l'' p' (map heard bytes))) fed
      ∙ ap (on_output o p) (λ i p'. read_frame-feed_all l1 l' bytes outs1 p' rest i)
      ∙ on_output-says o p outs1
      ∙ ap (on_outputs p) same

-- The payload and the end of a packet.
on_outputs-payload :
    (h : FrameHeader) (got rest : List ℕ)
    → h.payload_len ≡ length got + length rest
    → on_outputs (some h, got) (map FrameOutput.payload rest ++ FrameOutput.finished ∷ [])
      ≡ ok (h.message_type, got ++ rest)
unfolding on_outputs on_output
on_outputs-payload h got [] e =
    let all : (h.payload_len == length got) ≡ true = test_of_eq _ _ (omega (arith, e)) in
    rw all (ap (λ xs. ok (h.message_type, xs)) (sym (append-nil got)))
on_outputs-payload h got (x ∷ rest) e =
    let more : length (got ++ x ∷ []) ≡ length got + 1 = length-append got (x ∷ []) in
    let fits : ltb h.payload_len (length (got ++ x ∷ [])) ≡ false =
      ltb_of_le _ _ (omega (arith, e, more)) in
    rw fits (
      on_outputs-payload h (got ++ x ∷ []) rest (omega (arith, e, more))
      ∙ ap (λ xs. ok (h.message_type, xs)) (append_assoc got (x ∷ []) rest))

-- A whole packet.
on_outputs-header :
    (h : FrameHeader) (payload : List ℕ)
    → h.payload_len ≡ length payload
    → on_outputs
        (none, [])
        (FrameOutput.header h ∷ (map FrameOutput.payload payload ++ FrameOutput.finished ∷ []))
      ≡ ok (h.message_type, payload)
unfolding on_outputs on_output
on_outputs-header h payload e = on_outputs-payload h [] payload (omega (arith, e))

pub heard-append : (xs ys : List ℕ) → map heard (xs ++ ys) ≡ map heard xs ++ map heard ys
heard-append [] ys = refl
heard-append (x ∷ xs) ys = ap (◌∷◌ (heard x)) (heard-append xs ys)

pub read_exact-heard :
    (bs : List ℕ) (rest : List Round)
    → read_exact (length bs) (map heard bs ++ rest) ≡ (some bs, rest)
unfolding read_exact
read_exact-heard [] rest = refl
read_exact-heard (b ∷ bs) rest =
    ap
      (λ (r : Option (List ℕ) × List Round).
        (elim r.0 [ none ↦ none | some bs' ↦ some (b ∷ bs') ], r.1))
      (read_exact-heard bs rest)

-- A string as the device prints it.
abbrev pub printed : List ℕ → List ℕ
printed string = 0xee ∷ 0xee ∷ 0xdd ∷ 0xdd ∷ (to_le_bytes32 (length string) ++ string)

abbrev pub all_printed : List (List ℕ) → List ℕ
all_printed [] = []
all_printed (s ∷ strings) = printed s ++ all_printed strings

word-le_bytes : (n : ℕ) → n < 2 ^ 32 → word_or_zero (some (to_le_bytes32 n)) ≡ n
word-le_bytes n h = omega (arith, h)

pub skip_string-printed :
    (s : List ℕ) (rest : List Round)
    → length s < 2 ^ 32
    → skip_string (map heard (to_le_bytes32 (length s)) ++ (map heard s ++ rest)) ≡ rest
skip_string-printed s rest h =
    ap (λ (r : Option (List ℕ) × List Round). (read_exact (word_or_zero r.0) r.1).1)
      (read_exact-heard (to_le_bytes32 (length s)) (map heard s ++ rest))
    ∙ ap (λ n. (read_exact n (map heard s ++ rest)).1) (word-le_bytes (length s) h)
    ∙ ap (λ (r : Option (List ℕ) × List Round). r.1) (read_exact-heard s rest)

-- Strings that are printed are skipped, and then the preamble is found.
find_preamble-printed :
    (strings : List (List ℕ)) (turns : ℕ) (rest : List ℕ)
    → All (λ s. length s < 2 ^ 32) strings
    → find_preamble
        (4 * length strings + 4 + turns)
        (map heard (all_printed strings ++ (preamble_bytes ++ rest)))
        0
      ≡ ok (some (map heard rest))
unfolding find_preamble next_state
find_preamble-printed [] turns rest h =
    let e : 4 * 0 + 4 + turns ≡ suc (suc (suc (suc turns))) = omega arith in
    ap (λ k. find_preamble k (map heard (preamble_bytes ++ rest)) 0) e
find_preamble-printed (s ∷ strings) turns rest h =
    let k = 4 * length strings + 4 + turns in
    let behind = all_printed strings ++ (preamble_bytes ++ rest) in
    let e : 4 * suc (length strings) + 4 + turns ≡ suc (suc (suc (suc k))) = omega arith in
    let split : map heard ((printed s ++ all_printed strings) ++ (preamble_bytes ++ rest))
        ≡ map heard (0xee ∷ 0xee ∷ 0xdd ∷ 0xdd ∷ [])
          ++ (map heard (to_le_bytes32 (length s)) ++ (map heard s ++ map heard behind)) =
      ap (map heard) (append_assoc (printed s) (all_printed strings) (preamble_bytes ++ rest))
      ∙ heard-append (printed s) behind in
    ap (λ t. find_preamble t (map heard (all_printed (s ∷ strings) ++ (preamble_bytes ++ rest))) 0)
      e
    ∙ ap (λ rs. find_preamble (suc (suc (suc (suc k)))) rs 0) split
    ∙ ap (λ rs. find_preamble k rs 0) (skip_string-printed s (map heard behind) h.0)
    ∙ find_preamble-printed strings turns rest h.1

pub length-all_printed :
    (strings : List (List ℕ)) → 4 * length strings ≤ length (all_printed strings)
length-all_printed [] = omega arith
length-all_printed (s ∷ strings) =
    omega (arith, length-append (printed s) (all_printed strings), length-all_printed strings)

module _ (crc32 : Crc32) where
  -- When the device prints any strings and then sends the frame of a message, and every byte comes before
  -- the timeout, the receiver gives the message, with no error. The strings are shorter than 2 ^ 32, and the
  -- payload has an encoding of its length.
  pub recv-frame :
      (strings : List (List ℕ)) (buffer : List ℕ) (e : FrameEncoder) (m : MessageType)
      (payload len_bytes : List ℕ)
      → All (λ s. length s < 2 ^ 32) strings
      → with_buffer_xor buffer cobs_xor ≡ some e
      → length payload < 2 ^ 64
      → encode_length (length payload) ≡ some len_bytes
      → let content = to_le_bytes32 (to_u32 m) ++ payload in
        let crc = crc32.finalize (crc32.update crc32.new content) in
        recv_with_print_string crc32 (
          map heard (
            all_printed strings
            ++ (preamble_bytes ++ (len_bytes ++ encode e (content ++ to_le_bytes32 crc)))))
        ≡ ok (some (m, payload))
  unfolding recv_with_print_string
  recv-frame strings buffer e m payload len_bytes short made big enc =
      let content = to_le_bytes32 (to_u32 m) ++ payload in
      let crc = crc32.finalize (crc32.update crc32.new content) in
      let wire = len_bytes ++ encode e (content ++ to_le_bytes32 crc) in
      let rounds = map heard (all_printed strings ++ (preamble_bytes ++ wire)) in
      let size : length rounds ≡ length (all_printed strings) + (4 + length wire) =
        length-map (all_printed strings ++ (preamble_bytes ++ wire)) heard
        ∙ length-append (all_printed strings) (preamble_bytes ++ wire)
        ∙ omega arith in
      let turns = suc (length rounds) - (4 * length strings + 4) in
      let enough : suc (length rounds) ≡ 4 * length strings + 4 + turns =
        omega (arith, size, length-all_printed strings) in
      let fed = feed_all-skip_preamble crc32 cobs_xor buffer e m payload len_bytes made big enc in
      let hdr : FrameHeader = record { message_type = m; payload_len = length payload } in
      ap (λ k. find_preamble k rounds 0 >>= behind_preamble crc32) enough
      ∙ ap (λ o. o >>= behind_preamble crc32) (find_preamble-printed strings turns wire short)
      ∙ ap (λ o. o >>= λ got. ok (some got))
          (read_frame-feed_all crc32 (skip_preamble crc32 (new crc32 cobs_xor)) fed.0 wire _
              (none, []) fed.1
            ∙ on_outputs-header hdr payload refl)
