-- ===== src/Ppp/Control.antt =====
-- device/antimony/src/net/control.rs: the packets of the LCP-like protocols and the options in
-- them, and what a control protocol supplies to the automaton.
pub mod Automaton
pub mod Protocols
pub mod OptionsRoundTrip
use okeanos.Prelude.{
  ℕ, ◌+◌, ◌-◌, ◌%◌, ◌^◌, Bool, true, false, List, [], ◌∷◌, ◌++◌, Option, none, some, ◌==◌, ltb, leb,
  if◌then◌else◌, length, get_or, take, drop, Outcome, ok, err, panic, ◌>>=◌,
}
use okeanos.Ppp.Frame
use okeanos.Ppp.Frame.{Buffer, Run, begin_ppp, write, finish_ppp}

pub data Code : Type 0 where
  conf_req : Code
  conf_ack : Code
  conf_nak : Code
  conf_rej : Code
  term_req : Code
  term_ack : Code
  code_rej : Code

-- `code as u8`
unfoldable pub to_u8 : Code → ℕ
to_u8 conf_req = 1
to_u8 conf_ack = 2
to_u8 conf_nak = 3
to_u8 conf_rej = 4
to_u8 term_req = 5
to_u8 term_ack = 6
to_u8 code_rej = 7

unfoldable pub try_from : ℕ → Option Code
try_from value =
    if value == 1
    then some conf_req
    else if value == 2
    then some conf_ack
    else if value == 3
    then some conf_nak
    else if value == 4
    then some conf_rej
    else if value == 5
    then some term_req
    else if value == 6
    then some term_ack
    else if value == 7
    then some code_rej
    else none

pub record Packet : Type 0 where
  pub code : Code
  pub id : ℕ
  pub bytes : List ℕ

-- The states of the automaton, `S`.
pub data S : Type 0 where
  closed : S
  req_sent : S
  ack_received : S
  ack_sent : S
  opened : S

pub data Verdict : Type 0 where
  ack : Verdict
  nak : List ℕ → Verdict
  rej : List ℕ → Verdict

abbrev pub is_reject : Verdict → Bool
is_reject ack = false
is_reject (nak bytes) = false
is_reject (rej bytes) = true

abbrev pub as_reject : Verdict → Option (List ℕ)
as_reject ack = none
as_reject (nak bytes) = none
as_reject (rej bytes) = some bytes

abbrev pub is_nak : Verdict → Bool
is_nak ack = false
is_nak (nak bytes) = true
is_nak (rej bytes) = false

abbrev pub as_nak : Verdict → Option (List ℕ)
as_nak ack = none
as_nak (nak bytes) = some bytes
as_nak (rej bytes) = none

-- The trait `ControlProtocol`, with the trait `OptFromBytes` of its options. The frames that
-- `received_unknown_code` sends are its result.
pub record ControlProtocol (CP Opt : Type 0) : Type 0 where
  pub protocol : ℕ
  pub from_bytes : ℕ → List ℕ → Run Opt
  pub received_nak_opt : CP → Opt → CP × Bool
  pub received_unknown_code : ℕ → ℕ → List ℕ → Run (List Buffer)
  pub judge : CP → Opt → List ℕ → Run (CP × Verdict)
  pub get_opts : CP → Run (List ℕ)

-- An item of the iterator `Options`: `Ok((opt, opt_buf))` or `Err(bytes)`.
pub data Item (Opt : Type 0) : Type 0 where
  known : Opt → List ℕ → Item Opt
  refused : List ℕ → Item Opt

pub record Options : Type 0 where
  pub buf : List ℕ
  pub index : ℕ

abbrev pub from_slice : List ℕ → Options
from_slice inner = record { buf = inner; index = 0 }

-- The result of `from_bytes(..).map(..).ok_or(opt_buf)`.
abbrev pub item_of : {Opt : Type 0} → List ℕ → Run Opt → Run (Item Opt)
item_of opt_buf (ok o) = ok (known o opt_buf)
item_of opt_buf (err tt) = ok (refused opt_buf)
item_of opt_buf panic = panic

-- The advanced iterator and its item.
abbrev pub advance :
    {Opt : Type 0} → Options → ℕ → Run (Item Opt) → Run (Options × Option (Item Opt))
advance o len (ok item) = ok (record o { index = o.index + len }, some item)
advance o len (err tt) = err tt
advance o len panic = panic

-- `Iterator::next` of `Options`. A length below two makes the slice `index + 2..index + len` panic.
unfoldable pub next :
    {CP Opt : Type 0} → ControlProtocol CP Opt → Options → Run (Options × Option (Item Opt))
next cp o =
    let ty = get_or o.buf o.index 0 in
    let len = get_or o.buf (o.index + 1) 0 in
    let opt_buf = take len (drop o.index o.buf) in
    if leb (length o.buf) o.index
    then ok (o, none)
    else if leb (length o.buf) (o.index + 1)
    then panic
    else if ltb (length o.buf) (o.index + len)
    then ok (o, some (refused []))
    else if ltb len 2
    then panic
    else advance o len (item_of opt_buf (cp.from_bytes ty (drop 2 opt_buf)))

-- `frame.write` of one slice after the other.
unfoldable pub write_parts : Buffer → List (List ℕ) → Run Buffer
write_parts f [] = ok f
write_parts f (b ∷ parts) = write f b >>= λ f'. write_parts f' parts

-- A frame of the protocol with these slices, as every sender builds it.
unfoldable pub build : ℕ → List (List ℕ) → Run Buffer
build protocol parts = write_parts (begin_ppp Frame.new protocol) parts >>= finish_ppp
