-- ===== src/Ppp/Frame/RoundTrip.antt =====
-- A frame that device/antimony/src/net.rs builds passes its check of received frames.
use okeanos.Prelude.{
  ℕ, suc, ◌+◌, ◌-◌, ◌*◌, ◌/◌, ◌%◌, ◌^◌, ◌≤◌, ◌<◌, List, [], ◌∷◌, ◌++◌, length, take, drop, get_or,
  ok, panic, ◌>>=◌, ◌≡◌, refl, sym, ap, ◌∙◌, arith, append_assoc, length-append, get_or-append,
  take-length-append, leb, ltb, ltb_of_le, test_of_eq, ◌==◌, Bool-cases, inl, inr, true, false,
}
use okeanos.Prelude.Words.{to_be_bytes16, to_le_bytes16}
use okeanos.Ppp.Hdlc.{hdlc_flag, hdlc_address, hdlc_control, ppp_calc_fcs}
use okeanos.Ppp.Frame.{
  Buffer, Run, new, begin_ppp, write, finish_ppp, try_from_hdlc_frame, copy_in, max_frame,
  checked_part,
}

-- What a sender does for one packet, as in the loop of `PppInner::poll`.
abbrev pub build_packet : ℕ → List ℕ → Run Buffer
build_packet proto packet = write (begin_ppp new proto) packet >>= finish_ppp

-- The bytes under the check sequence.
abbrev covered : ℕ → List ℕ → List ℕ
covered proto packet = hdlc_address ∷ hdlc_control ∷ (to_be_bytes16 proto ++ packet)

-- What a receiver stores of a frame: all but the closing flag.
abbrev stored : ℕ → List ℕ → ℕ → List ℕ
stored proto packet fcs = hdlc_flag ∷ (covered proto packet ++ to_le_bytes16 fcs)

fcs-lt : (xs : List ℕ) → ppp_calc_fcs xs < 2 ^ 16
unfolding ppp_calc_fcs
fcs-lt xs = omega arith

accepted :
    (proto : ℕ) (packet : List ℕ)
    → try_from_hdlc_frame (stored proto packet (ppp_calc_fcs (covered proto packet)))
      ≡ ok (to_be_bytes16 proto ++ packet)
unfolding try_from_hdlc_frame
accepted proto packet =
    let c = covered proto packet in
    let fcs = ppp_calc_fcs c in
    let lt : fcs < 2 ^ 16 = fcs-lt c in
    let tail = to_le_bytes16 fcs in
    let frame = hdlc_flag ∷ (c ++ tail) in
    let len : length frame ≡ suc (length c) + 2 = omega (arith, length-append c tail) in
    let cut : length frame - 2 ≡ suc (length c) = omega arith in
    let front : take (length frame - 2) frame ≡ hdlc_flag ∷ c =
      ap (λ k. take k frame) cut ∙ take-length-append (hdlc_flag ∷ c) tail in
    let last : get_or frame (length frame - 1) 0 ≡ (fcs / 2 ^ 8) % 256 =
      let e : length frame - 1 ≡ length (hdlc_flag ∷ c) + 1 = omega arith in
      ap (λ k. get_or frame k 0) e ∙ get_or-append (hdlc_flag ∷ c) tail 1 0 in
    let second : get_or frame (length frame - 2) 0 ≡ fcs % 256 =
      let e : length frame - 2 ≡ length (hdlc_flag ∷ c) + 0 = omega arith in
      ap (λ k. get_or frame k 0) e ∙ get_or-append (hdlc_flag ∷ c) tail 0 0 in
    let long : ltb (length frame) 7 ≡ false = ltb_of_le (length frame) 7 (omega arith) in
    let same : (fcs == (fcs / 2 ^ 8) % 256 * 2 ^ 8 + fcs % 256) ≡ true =
      test_of_eq fcs ((fcs / 2 ^ 8) % 256 * 2 ^ 8 + fcs % 256) (omega arith) in
    rw (long, front, last, second, same) refl

-- A slice written behind a prefix.
copy_in-append :
    (pre rest b : List ℕ) (n : ℕ)
    → length pre ≡ n
    → copy_in (pre ++ rest) n b ≡ pre ++ b ++ drop (n + length b) (pre ++ rest)
copy_in-append pre rest b n e =
    let front : take n (pre ++ rest) ≡ pre =
      ap (λ k. take k (pre ++ rest)) (sym e) ∙ take-length-append pre rest in
    rw front refl

-- What a receiver stores of the frame of a packet: the frame's content up to its closing flag.
abbrev pub content : ℕ → List ℕ → List ℕ
content proto packet = covered proto packet ++ to_le_bytes16 (ppp_calc_fcs (covered proto packet))

-- The bytes of the buffer that `finish_ppp` completes.
finished :
    (proto : ℕ) (packet rest : List ℕ)
    → let front = hdlc_flag ∷ covered proto packet in
      let at_end = 5 + length packet in
      let fcs = ppp_calc_fcs (drop 1 (take at_end (front ++ rest))) in
      copy_in (front ++ rest) at_end (to_le_bytes16 fcs ++ hdlc_flag ∷ [])
      ≡ hdlc_flag ∷ (content proto packet ++ hdlc_flag ∷ drop (at_end + 3) (front ++ rest))
finished proto packet rest =
    let front = hdlc_flag ∷ covered proto packet in
    let at_end = 5 + length packet in
    let len : length front ≡ at_end = omega arith in
    let cut : take at_end (front ++ rest) ≡ front =
      ap (λ k. take k (front ++ rest)) (sym len) ∙ take-length-append front rest in
    let fcs = ppp_calc_fcs (covered proto packet) in
    let behind = drop (at_end + 3) (front ++ rest) in
    ap
      (λ l.
        copy_in (front ++ rest) at_end (to_le_bytes16 (ppp_calc_fcs (drop 1 l)) ++ hdlc_flag ∷ []))
      cut
    ∙ copy_in-append front rest (to_le_bytes16 fcs ++ hdlc_flag ∷ []) at_end len
    ∙ ap (λ l. l ++ behind) (sym (append_assoc front (to_le_bytes16 fcs) (hdlc_flag ∷ [])))
    ∙ append_assoc (front ++ to_le_bytes16 fcs) (hdlc_flag ∷ []) behind

pub try_from-content :
    (proto : ℕ) (packet : List ℕ)
    → try_from_hdlc_frame (hdlc_flag ∷ content proto packet) ≡ ok (to_be_bytes16 proto ++ packet)
try_from-content proto packet = accepted proto packet

pub length-content :
    (proto : ℕ) (packet : List ℕ) → length (content proto packet) ≡ 6 + length packet
length-content proto packet =
    let fcs = ppp_calc_fcs (covered proto packet) in
    omega (arith, length-append (covered proto packet) (to_le_bytes16 fcs))

-- The buffer that a sender has built: its bytes are the frame between flags, then what was there.
pub build_packet-content :
    (proto : ℕ) (packet : List ℕ)
    → length packet ≤ 1499
    → (f : Buffer) × (rest : List ℕ) × (build_packet proto packet ≡ ok f)
      × (f.len ≡ 8 + length packet)
      × (f.bytes ≡ hdlc_flag ∷ (content proto packet ++ hdlc_flag ∷ rest))
unfolding begin_ppp write finish_ppp
build_packet-content proto packet short =
    let n = length packet in
    let f1 = begin_ppp new proto in
    let rest = drop (5 + n) f1.bytes in
    let f2 : Buffer = record { len = 5 + n; bytes = copy_in f1.bytes 5 packet } in
    let fcs = ppp_calc_fcs (checked_part f2) in
    let f3 : Buffer = record {
      len = 5 + n + 3;
      bytes = copy_in f2.bytes (5 + n) (to_le_bytes16 fcs ++ hdlc_flag ∷ []);
    } in
    let fits2 : leb (5 + n) max_frame ≡ true = ground arith in
    let fits3 : leb (5 + n + 3) max_frame ≡ true = ground arith in
    (
      f3,
      drop (5 + n + 3) (hdlc_flag ∷ (covered proto packet ++ rest)),
      rw (fits2, fits3) refl,
      omega arith,
      finished proto packet rest,
    )

-- A packet of at most 1499 bytes makes a frame that, without its closing flag, passes the check of
-- a receiver, which gets the protocol and the packet.
pub try_from-build_packet :
    (proto : ℕ) (packet : List ℕ)
    → length packet ≤ 1499
    → (f : Buffer) × (build_packet proto packet ≡ ok f)
      × (try_from_hdlc_frame (take (f.len - 1) f.bytes) ≡ ok (to_be_bytes16 proto ++ packet))
try_from-build_packet proto packet short =
    let built = build_packet-content proto packet short in
    let f = built.0 in
    let frame = hdlc_flag ∷ content proto packet in
    let len : f.len - 1 ≡ length frame = omega (arith, built.3, length-content proto packet) in
    (
      f,
      built.2,
      ap (λ k. try_from_hdlc_frame (take k f.bytes)) len
          ∙ ap (λ l. try_from_hdlc_frame (take (length frame) l)) built.4
          ∙ ap try_from_hdlc_frame (take-length-append frame (hdlc_flag ∷ built.1))
          ∙ try_from-content proto packet,
    )

-- A packet of 1500 bytes, the MRU, or of more does not fit in the buffer: building its frame
-- panics.
pub build_packet-panic :
    (proto : ℕ) (packet : List ℕ) → 1500 ≤ length packet → build_packet proto packet ≡ panic
unfolding begin_ppp write finish_ppp
build_packet-panic proto packet long =
    let over : leb (5 + length packet + 3) max_frame ≡ false = ground arith in
    elim (Bool-cases (leb (5 + length packet) max_frame)) [
      | inl fits ↦ rw (fits, over) refl
      | inr not_fits ↦ rw not_fits refl
    ]
