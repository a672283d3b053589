-- ===== src/Ppp/Frame.antt =====
-- device/antimony/src/net.rs: frames built in a fixed buffer, and the check of a received frame.
-- A slice out of the buffer's bounds is a panic.
pub mod RoundTrip
use okeanos.Prelude.{
  ℕ, ◌+◌, ◌-◌, List, [], ◌∷◌, ◌++◌, ◌==◌, ltb, leb, not, ◌||◌, if◌then◌else◌, length, get_or, take,
  drop, replicate, Outcome, ok, err, panic,
}
use okeanos.Prelude.Words.{to_be_bytes16, to_le_bytes16, from_be_bytes16}
use okeanos.Ppp.Hdlc.{hdlc_flag, hdlc_address, hdlc_control, ppp_calc_fcs}

-- The result of code that may panic; the error is `Err(())`, or the `None` of an `Option`.
abbrev pub Run : Type 0 → Type 0
Run A = Outcome (Unit {0}) A

abbrev pub ppp_mru : ℕ
ppp_mru = 1500

abbrev pub proto_lcp : ℕ
proto_lcp = 0xc021

abbrev pub proto_ip : ℕ
proto_ip = 0x0021

-- One flag, the address, the control, the protocol, the MRU, the FCS.
abbrev pub max_frame : ℕ
max_frame = 1 + 1 + 1 + 2 + ppp_mru + 2

pub record Buffer : Type 0 where
  pub len : ℕ
  pub bytes : List ℕ

-- `Buffer::new`
abbrev pub new : Buffer
new = record { len = 0; bytes = replicate max_frame 0 }

-- `bytes[at..at + b.len()].copy_from_slice(b)`, in bounds.
abbrev pub copy_in : List ℕ → ℕ → List ℕ → List ℕ
copy_in bytes at b = take at bytes ++ b ++ drop (at + length b) bytes

-- `Buffer::begin_ppp`
unfoldable pub begin_ppp : Buffer → ℕ → Buffer
begin_ppp f proto = record {
  len = 5;
  bytes = copy_in f.bytes 0 (hdlc_flag ∷ hdlc_address ∷ hdlc_control ∷ to_be_bytes16 proto);
}

-- `Buffer::write`
unfoldable pub write : Buffer → List ℕ → Run Buffer
write f b =
    if leb (f.len + length b) max_frame
    then ok (record { len = f.len + length b; bytes = copy_in f.bytes f.len b })
    else panic

-- `&bytes[1..len]`
abbrev pub checked_part : Buffer → List ℕ
checked_part f = drop 1 (take f.len f.bytes)

-- `Buffer::finish_ppp`
unfoldable pub finish_ppp : Buffer → Run Buffer
finish_ppp f =
    if leb (f.len + 3) max_frame
    then ok (record {
      len = f.len + 3;
      bytes =
          copy_in f.bytes f.len (to_le_bytes16 (ppp_calc_fcs (checked_part f)) ++ hdlc_flag ∷ []);
    })
    else panic

-- `u16::from_le_bytes` of the last two bytes.
abbrev pub fcs_field : List ℕ → ℕ
fcs_field hdlc_frame =
    from_be_bytes16 (get_or hdlc_frame (length hdlc_frame - 1) 0)
      (get_or hdlc_frame (length hdlc_frame - 2) 0)

unfoldable pub try_from_hdlc_frame : List ℕ → Run (List ℕ)
try_from_hdlc_frame hdlc_frame =
    if ltb (length hdlc_frame) 7
    then err tt
    else if not (get_or hdlc_frame 0 0 == hdlc_flag)
        || not (get_or hdlc_frame 1 0 == hdlc_address)
        || not (get_or hdlc_frame 2 0 == hdlc_control)
    then err tt
    else if not
        (ppp_calc_fcs (drop 1 (take (length hdlc_frame - 2) hdlc_frame)) == fcs_field hdlc_frame)
    then err tt
    else ok (drop 3 (take (length hdlc_frame - 2) hdlc_frame))
