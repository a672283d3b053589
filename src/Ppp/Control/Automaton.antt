-- ===== src/Ppp/Control/Automaton.antt =====
-- device/antimony/src/net/control.rs, `ControlAutomaton`, over the protocol that it is generic in.
-- The frames given to `phy::send` are listed in `sent`, oldest first. The iteration of a packet's
-- options takes fuel.
pub mod Laws
use okeanos.Prelude.{
  ℕ, zero, suc, ◌+◌, ◌%◌, ◌^◌, Bool, true, false, ◌&&◌, List, [], ◌∷◌, ◌++◌, Option, none, some,
  ◌==◌, ltb, leb, not, if◌then◌else◌, length, get_or, drop, Outcome, Exec, out_of_fuel, ok, err,
  panic, ◌>>=◌,
}
use okeanos.Prelude.Words.{to_be_bytes16, from_be_bytes16}
use okeanos.Ppp.Frame.{Buffer, Run}
use okeanos.Ppp.Control.{
  Code, conf_req, conf_ack, conf_nak, conf_rej, term_req, term_ack, code_rej, to_u8, try_from,
  Packet, S, closed, req_sent, ack_received, ack_sent, opened, Verdict, ack, nak, rej, is_reject,
  as_reject, is_nak, as_nak, ControlProtocol, Item, known, refused, Options, from_slice, next,
  build,
}

pub record ControlAutomaton (CP : Type 0) : Type 0 where
  pub inner : CP
  pub state : S
  pub scr_id : ℕ
  pub last_req_id : Option ℕ
  pub sent : List Buffer

-- Code without `Result`: `Run`'s error does not occur, and is a panic here.
abbrev pub exec : {A : Type 0} → Run A → Exec A
exec (ok a) = ok a
exec (err tt) = panic
exec panic = panic

-- `ControlAutomaton::new`
abbrev pub new : {CP : Type 0} → CP → ControlAutomaton CP
new np = record { inner = np; state = closed; scr_id = 0; last_req_id = none; sent = [] }

abbrev pub same_state : S → S → Bool
same_state closed closed = true
same_state req_sent req_sent = true
same_state ack_received ack_received = true
same_state ack_sent ack_sent = true
same_state opened opened = true
same_state s t = false

abbrev pub is_layer_up : {CP : Type 0} → ControlAutomaton CP → Bool
is_layer_up a = same_state a.state opened

abbrev pub is_closed : {CP : Type 0} → ControlAutomaton CP → Bool
is_closed a = same_state a.state closed

abbrev pub set_state : {CP : Type 0} → ControlAutomaton CP → S → ControlAutomaton CP
set_state a s = record a { state = s }

abbrev pub same_id : Option ℕ → ℕ → Bool
same_id none id = false
same_id (some last) id = last == id

-- The lengths of the vectors that `filter_map` keeps, and their `u16` sum.
abbrev pub kept_bytes : (Verdict → Option (List ℕ)) → List Verdict → List (List ℕ)
kept_bytes f [] = []
kept_bytes f (v ∷ verdicts) = elim (f v) [
  | none ↦ kept_bytes f verdicts
  | some bytes ↦ bytes ∷ kept_bytes f verdicts
]

abbrev pub total : List (List ℕ) → ℕ
total [] = 0
total (b ∷ bs) = length b + total bs

abbrev pub any : (Verdict → Bool) → List Verdict → Bool
any f [] = false
any f (v ∷ verdicts) = if f v then true else any f verdicts

module _ {CP Opt : Type 0} (cp : ControlProtocol CP Opt) where
  -- `phy::send` of a frame.
  abbrev pub push : ControlAutomaton CP → Buffer → ControlAutomaton CP
  push a frame = record a { sent = a.sent ++ frame ∷ [] }

  -- `send`
  unfoldable pub send : ControlAutomaton CP → Packet → Exec (ControlAutomaton CP)
  send a packet =
      exec (
        build cp.protocol (
          (to_u8 packet.code ∷ packet.id ∷ [])
          ∷ to_be_bytes16 ((4 + length packet.bytes) % 2 ^ 16)
          ∷ packet.bytes
          ∷ []))
      >>= λ frame. ok (push a frame)

  unfoldable pub send_configure_request : ControlAutomaton CP → Exec (ControlAutomaton CP)
  send_configure_request a = exec (cp.get_opts a.inner) >>= λ opts.
      send (record a { scr_id = (a.scr_id + 1) % 2 ^ 8 })
        (record { code = conf_req; id = a.scr_id; bytes = opts })

  abbrev pub send_terminate_ack : ControlAutomaton CP → ℕ → Exec (ControlAutomaton CP)
  send_terminate_ack a id = send a (record { code = term_ack; id = id; bytes = [] })

  abbrev pub send_configure_ack : ControlAutomaton CP → Packet → Exec (ControlAutomaton CP)
  send_configure_ack a packet = send a (record packet { code = conf_ack })

  -- The common text of `send_configure_nak` and `send_configure_reject`.
  abbrev pub send_verdicts :
      ControlAutomaton CP → Code → ℕ → List (List ℕ) → Exec (ControlAutomaton CP)
  send_verdicts a code id parts =
      exec (
        build cp.protocol
          ((to_u8 code ∷ id ∷ []) ∷ to_be_bytes16 ((4 + total parts) % 2 ^ 16) ∷ parts))
      >>= λ frame. ok (push a frame)

  abbrev pub send_configure_nak :
      ControlAutomaton CP → ℕ → List Verdict → Exec (ControlAutomaton CP)
  send_configure_nak a id verdicts = send_verdicts a conf_nak id (kept_bytes as_nak verdicts)

  abbrev pub send_configure_reject :
      ControlAutomaton CP → ℕ → List Verdict → Exec (ControlAutomaton CP)
  send_configure_reject a id verdicts = send_verdicts a conf_rej id (kept_bytes as_reject verdicts)

  -- The closure that `received_configure_request` maps over the options; `none` is `Err(())`.
  abbrev pub verdict_on : CP → Item Opt → Exec (CP × Option Verdict)
  verdict_on p (known o buf) = exec (cp.judge p o buf) >>= λ r. ok (r.0, some r.1)
  verdict_on p (refused []) = ok (p, none)
  verdict_on p (refused (b ∷ bs)) = ok (p, some (rej (b ∷ bs)))

  -- `try_collect`: it stops at the first `Err`.
  unfoldable pub collect : ℕ → CP → Options → Exec (CP × Option (List Verdict))
  collect zero p o = err out_of_fuel
  collect (suc fuel) p o = exec (next cp o) >>= λ step. elim step.1 [
    | none ↦ ok (p, some [])
    | some item ↦ verdict_on p item >>= λ r. elim r.1 [
      | none ↦ ok (r.0, none)
      | some v ↦ collect fuel r.0 step.0 >>= λ rest. elim rest.1 [
        | none ↦ ok (rest.0, none)
        | some vs ↦ ok (rest.0, some (v ∷ vs))
      ]
    ]
  ]

  -- The answer to the verdicts, and whether it was a Configure-Ack.
  abbrev pub answer :
      ControlAutomaton CP → Packet → Option (List Verdict) → Exec (ControlAutomaton CP × Bool)
  answer a packet none = ok (a, false)
  answer a packet (some verdicts) =
      if any is_reject verdicts
      then (send_configure_reject a packet.id verdicts >>= λ a'. ok (a', false))
      else if any is_nak verdicts
      then (send_configure_nak a packet.id verdicts >>= λ a'. ok (a', false))
      else (send_configure_ack a packet >>= λ a'. ok (a', true))

  unfoldable pub received_configure_request :
      ℕ → ControlAutomaton CP → Packet → Exec (ControlAutomaton CP × Bool)
  received_configure_request fuel a packet = collect fuel a.inner (from_slice packet.bytes) >>= λ r.
      answer (record a { inner = r.0 }) packet r.1

  -- The state after a Configure-Request, lines 214-225.
  abbrev pub after_request : ControlAutomaton CP → Packet → Bool → S → Exec (ControlAutomaton CP)
  after_request a packet true req_sent = ok (set_state a ack_sent)
  after_request a packet true ack_received = ok (set_state a opened)
  after_request a packet false ack_sent = ok (set_state a req_sent)
  after_request a packet did_ack opened =
      if not (same_id a.last_req_id packet.id)
      then send_configure_request (set_state a (if did_ack then ack_sent else req_sent))
      else ok a
  after_request a packet did_ack s = ok a

  unfoldable pub on_conf_req : ℕ → ControlAutomaton CP → Packet → Exec (ControlAutomaton CP)
  on_conf_req fuel a packet = received_configure_request fuel a packet >>= λ r.
      after_request r.0 packet r.1 a.state >>= λ a'. ok (record a' { last_req_id = some packet.id })

  -- The cases of the state, lines 236-243.
  abbrev pub acked : ControlAutomaton CP → S → Exec (ControlAutomaton CP)
  acked a req_sent = ok (set_state a ack_received)
  acked a ack_sent = ok (set_state a opened)
  acked a s = send_configure_request (set_state a req_sent)

  unfoldable pub on_conf_ack : ControlAutomaton CP → Exec (ControlAutomaton CP)
  on_conf_ack a = acked a a.state

  unfoldable pub on_term_req : ControlAutomaton CP → Packet → Exec (ControlAutomaton CP)
  on_term_req a packet = send_terminate_ack a packet.id >>= λ a'. ok (
      if same_state a.state opened
      then record a' { state = closed; last_req_id = none }
      else set_state a' req_sent)

  -- The loop over the options of a Configure-Nak: `all_ok` at its end.
  unfoldable pub nak_options : ℕ → CP → Options → Bool → Exec (CP × Bool)
  nak_options zero p o all_ok = err out_of_fuel
  nak_options (suc fuel) p o all_ok = exec (next cp o) >>= λ step. elim step.1 [
    | none ↦ ok (p, all_ok)
    | some (known opt buf) ↦
        let (p', is_ok) = cp.received_nak_opt p opt in nak_options fuel p' step.0 (all_ok && is_ok)
    | some (refused buf) ↦ nak_options fuel p step.0 all_ok
  ]

  unfoldable pub on_conf_nak : ℕ → ControlAutomaton CP → Packet → Exec (ControlAutomaton CP)
  on_conf_nak fuel a packet = nak_options fuel a.inner (from_slice packet.bytes) true >>= λ r.
      if r.1
      then send_configure_request (record a { inner = r.0 })
      else ok (record a { inner = r.0 })

  -- The match of `received` on the code, lines 206-294, in a state that is not `Closed`.
  abbrev pub dispatch : ℕ → ControlAutomaton CP → Packet → Code → Exec (ControlAutomaton CP)
  dispatch fuel a packet conf_req = on_conf_req fuel a packet
  dispatch fuel a packet conf_ack = on_conf_ack a
  dispatch fuel a packet term_req = on_term_req a packet
  dispatch fuel a packet term_ack = ok a
  dispatch fuel a packet conf_nak = on_conf_nak fuel a packet
  dispatch fuel a packet conf_rej = ok a
  dispatch fuel a packet code_rej = ok a

  abbrev pub handle : ℕ → ControlAutomaton CP → Packet → Exec (ControlAutomaton CP)
  handle fuel a packet =
      if is_closed a then send_terminate_ack a packet.id else dispatch fuel a packet packet.code

  -- The packet that was decoded, if one was.
  abbrev pub handle_decoded : ℕ → ControlAutomaton CP × Option Packet → Exec (ControlAutomaton CP)
  handle_decoded fuel (a, none) = ok a
  handle_decoded fuel (a, some packet) = handle fuel a packet

  -- A code that is not one of `Code` goes to the protocol.
  abbrev pub decode_code :
      ControlAutomaton CP
      → ℕ
      → ℕ
      → List ℕ
      → Option Code
      → Exec (ControlAutomaton CP × Option Packet)
  decode_code a pkt_code pkt_id pkt_data none =
      exec (cp.received_unknown_code pkt_code pkt_id pkt_data) >>= λ frames.
      ok (record a { sent = a.sent ++ frames }, none)
  decode_code a pkt_code pkt_id pkt_data (some code) =
      ok (a, some (record { code = code; id = pkt_id; bytes = pkt_data }))

  unfoldable pub decode_packet :
      ControlAutomaton CP → List ℕ → Exec (ControlAutomaton CP × Option Packet)
  decode_packet a packet =
      if ltb (length packet) 4
      then ok (a, none)
      else if not (from_be_bytes16 (get_or packet 2 0) (get_or packet 3 0) == length packet)
      then ok (a, none)
      else decode_code a (get_or packet 0 0) (get_or packet 1 0) (drop 4 packet)
          (try_from (get_or packet 0 0))

  unfoldable pub received : ℕ → ControlAutomaton CP → List ℕ → Exec (ControlAutomaton CP)
  received fuel a packet = decode_packet a packet >>= handle_decoded fuel

  -- `open`, with its `assert_eq!(self.state, S::Closed)`
  unfoldable pub open_layer : ControlAutomaton CP → Exec (ControlAutomaton CP)
  open_layer a = if is_closed a then send_configure_request (set_state a req_sent) else panic

  abbrev pub close : ControlAutomaton CP → ControlAutomaton CP
  close a = set_state a closed
