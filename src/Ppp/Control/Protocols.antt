-- ===== src/Ppp/Control/Protocols.antt =====
-- device/antimony/src/net/control.rs, `Ipcp` and `Lcp`: the two control protocols.
use okeanos.Prelude.{
  ℕ, ◌+◌, ◌%◌, ◌^◌, Bool, true, false, List, [], ◌∷◌, ◌++◌, Option, none, some, ◌==◌, if◌then◌else◌,
  length, ok, panic, ◌>>=◌,
}
use okeanos.Prelude.Words.{to_be_bytes16}
use okeanos.Ppp.Frame.{Buffer, Run, ppp_mru, proto_lcp}
use okeanos.Ppp.Lcp
use okeanos.Ppp.Ipcp
use okeanos.Ppp.Ipcp.{Ipv4Addr, ip_compression_protocol, ip_address}
use okeanos.Ppp.Lcp.{
  mru, accm, auth_protocol, qual_protocol, magic, pf_compression, acf_compression,
}
use okeanos.Ppp.Control.{ControlProtocol, Verdict, ack, nak, rej, build}

pub record IpcpState : Type 0 where
  pub host_address : Option Ipv4Addr
  pub prev_host_address : Option (Option Ipv4Addr)
  pub peer_address : Option Ipv4Addr

-- `Ipcp::new`
abbrev pub ipcp_new : IpcpState
ipcp_new = record { host_address = none; prev_host_address = none; peer_address = none }

unfoldable pub set_host_ip : IpcpState → Ipv4Addr → IpcpState
set_host_ip p new_ip = record p {
  host_address = some new_ip;
  prev_host_address = some p.host_address;
}

-- `self.host_address.unwrap()` in `get_host_addr_update`.
abbrev pub update_to : Option Ipv4Addr → Option Ipv4Addr → Run (Option (Option Ipv4Addr × Ipv4Addr))
update_to addr none = panic
update_to addr (some host) = ok (some (addr, host))

unfoldable pub get_host_addr_update :
    IpcpState → IpcpState × Run (Option (Option Ipv4Addr × Ipv4Addr))
get_host_addr_update p = elim p.prev_host_address [
  | none ↦ (p, ok none)
  | some addr ↦ (record p { prev_host_address = none }, update_to addr p.host_address)
]

abbrev pub ipcp_received_nak_opt : IpcpState → Ipcp.Opt → IpcpState × Bool
ipcp_received_nak_opt p (ip_compression_protocol protocol bytes) = (p, false)
ipcp_received_nak_opt p (ip_address a) = (set_host_ip p a, true)

abbrev pub ipcp_judge : IpcpState → Ipcp.Opt → List ℕ → Run (IpcpState × Verdict)
ipcp_judge p (ip_compression_protocol protocol bytes) buf = ok (p, rej buf)
ipcp_judge p (ip_address a) buf = ok (record p { peer_address = some a }, ack)

-- `unwrap_or(Ipv4Addr::new(0, 0, 0, 0))`
abbrev pub address_or_zero : Option Ipv4Addr → Ipv4Addr
address_or_zero none = record { o0 = 0; o1 = 0; o2 = 0; o3 = 0 }
address_or_zero (some a) = a

unfoldable pub ipcp_get_opts : IpcpState → Run (List ℕ)
ipcp_get_opts p = Ipcp.to_bytes (ip_address (address_or_zero p.host_address))

-- `impl ControlProtocol for Ipcp`; its `received_unknown_code` only prints.
abbrev pub ipcp : ControlProtocol IpcpState Ipcp.Opt
ipcp = record {
  protocol = 0x8021;
  from_bytes = Ipcp.from_bytes;
  received_nak_opt = ipcp_received_nak_opt;
  received_unknown_code = λ code id bytes. ok [];
  judge = ipcp_judge;
  get_opts = ipcp_get_opts;
}

-- `Verdict::Nak(Opt::Mru(PPP_MRU as u16).to_bytes())`
abbrev pub nak_mru : Run (Unit {0} × Verdict)
nak_mru = Lcp.to_bytes (mru ppp_mru) >>= λ bytes. ok (tt, nak bytes)

abbrev pub lcp_judge : Unit {0} → Lcp.Opt → List ℕ → Run (Unit {0} × Verdict)
lcp_judge s (mru n) buf = if n == ppp_mru then ok (tt, ack) else nak_mru
lcp_judge s (accm n) buf = if n == 0 then ok (tt, ack) else nak_mru
lcp_judge s (auth_protocol proto bytes) buf = ok (tt, rej buf)
lcp_judge s (qual_protocol proto bytes) buf = ok (tt, rej buf)
lcp_judge s (magic n) buf = ok (tt, rej buf)
lcp_judge s pf_compression buf = ok (tt, rej buf)
lcp_judge s acf_compression buf = ok (tt, rej buf)

-- Only an Echo-Request, code 9, is answered; the other branches print.
unfoldable pub lcp_received_unknown_code : ℕ → ℕ → List ℕ → Run (List Buffer)
lcp_received_unknown_code code id bytes =
    if code == 9
    then (build proto_lcp
          ((10 ∷ id ∷ []) ∷ to_be_bytes16 ((4 + length bytes) % 2 ^ 16) ∷ bytes ∷ [])
        >>= λ frame. ok (frame ∷ []))
    else ok []

unfoldable pub lcp_get_opts : Unit {0} → Run (List ℕ)
lcp_get_opts s =
    Lcp.to_bytes (magic 0) >>= λ first. Lcp.to_bytes (accm 0) >>= λ second. ok (first ++ second)

-- `impl ControlProtocol for Lcp`; the struct has no fields.
abbrev pub lcp : ControlProtocol (Unit {0}) Lcp.Opt
lcp = record {
  protocol = proto_lcp;
  from_bytes = Lcp.from_bytes;
  received_nak_opt = λ s o. (s, false);
  received_unknown_code = lcp_received_unknown_code;
  judge = lcp_judge;
  get_opts = lcp_get_opts;
}
