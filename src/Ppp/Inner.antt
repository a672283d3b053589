-- ===== src/Ppp/Inner.antt =====
-- device/antimony/src/net.rs: `PppInner`, the two control protocols with the queues of IP packets, and the
-- turn of `run`: a frame from the receive channel, or where there is none the poll and the new address of
-- the host. What `run` then does with the crates smoltcp and httparse, which are not part of the repository,
-- stands outside. Frames that are sent are listed by their
-- sender: those of a control protocol with it, those of the queue and the rejects in `sent`.
pub mod Delivery
use okeanos.Prelude.{
  ℕ, ◌+◌, ◌%◌, ◌^◌, Bool, true, false, not, ◌&&◌, List, [], ◌∷◌, ◌++◌, Option, none, some, ◌==◌,
  leb, if◌then◌else◌, length, get_or, take, drop, Outcome, Exec, ok, err, panic, ◌>>=◌,
}
use okeanos.Prelude.Words.{to_be_bytes16, from_be_bytes16}
use okeanos.Ppp.Frame.{Buffer, Run, max_frame, proto_lcp, proto_ip, try_from_hdlc_frame}
use okeanos.Ppp.Frame.RoundTrip.{build_packet}
use okeanos.Ppp.Control.{build}
use okeanos.Ppp.Control.Automaton
use okeanos.Ppp.Control.Automaton.{
  ControlAutomaton, exec, is_layer_up, is_closed, open_layer, close, received,
}
use okeanos.Ppp.Control.Protocols.{IpcpState, ipcp_new, ipcp, lcp, get_host_addr_update}
use okeanos.Ppp.Ipcp.{Ipv4Addr}
use okeanos.Ppp.Phy.{RecvChannel, read_head_buf, free_buffer}

abbrev pub proto_ipcp : ℕ
proto_ipcp = 0x8021

pub record PppInner : Type 0 where
  pub lcp : ControlAutomaton (Unit {0})
  pub ipcp : ControlAutomaton IpcpState
  pub ip_recv_queue : List (List ℕ)
  pub ip_xmit_queue : List (List ℕ)
  pub sent : List Buffer

-- `PppInner::new`
abbrev pub new : PppInner
new = record {
  lcp = Automaton.new tt;
  ipcp = Automaton.new ipcp_new;
  ip_recv_queue = [];
  ip_xmit_queue = [];
  sent = [];
}

-- The loop of `poll` over the queue, with the frames that it sends.
unfoldable pub send_queue : List (List ℕ) → Exec (List Buffer)
send_queue [] = ok []
send_queue (hd ∷ queue) = exec (build_packet proto_ip hd) >>= λ frame.
    (send_queue queue >>= λ frames. ok (frame ∷ frames))

abbrev open_lcp : PppInner → Exec PppInner
open_lcp p =
    if is_closed p.lcp then (open_layer lcp p.lcp >>= λ a. ok (record p { lcp = a })) else ok p

abbrev close_ipcp : PppInner → PppInner
close_ipcp p =
    if not (is_layer_up p.lcp) && not (is_closed p.ipcp)
    then record p { ipcp = close ipcp p.ipcp }
    else p

abbrev open_ipcp : PppInner → Exec PppInner
open_ipcp p =
    if is_layer_up p.lcp && is_closed p.ipcp
    then (open_layer ipcp p.ipcp >>= λ a. ok (record p { ipcp = a }))
    else ok p

unfoldable pub flush_xmit : PppInner → Exec PppInner
flush_xmit p =
    if is_layer_up p.ipcp
    then (send_queue p.ip_xmit_queue >>= λ frames.
        ok (record p { ip_xmit_queue = []; sent = p.sent ++ frames }))
    else ok p

unfoldable pub poll : PppInner → Exec PppInner
poll p = open_lcp p >>= λ p'. (open_ipcp (close_ipcp p') >>= flush_xmit)

unfoldable pub recv_lcp : ℕ → PppInner → List ℕ → Exec PppInner
recv_lcp fuel p packet = received lcp fuel p.lcp packet >>= λ a. ok (record p { lcp = a })

unfoldable pub recv_ipcp : ℕ → PppInner → List ℕ → Exec PppInner
recv_ipcp fuel p packet = received ipcp fuel p.ipcp packet >>= λ a. ok (record p { ipcp = a })

abbrev pub recv_ip : PppInner → List ℕ → PppInner
recv_ip p packet = record p { ip_recv_queue = p.ip_recv_queue ++ packet ∷ [] }

abbrev pub send_ip : PppInner → List ℕ → PppInner
send_ip p packet = record p { ip_xmit_queue = p.ip_xmit_queue ++ packet ∷ [] }

abbrev pop_front : List (List ℕ) → List (List ℕ) × Option (List ℕ)
pop_front [] = ([], none)
pop_front (hd ∷ queue) = (queue, some hd)

abbrev pub poll_ip : PppInner → PppInner × Option (List ℕ)
poll_ip p = let (queue, hd) = pop_front p.ip_recv_queue in (record p { ip_recv_queue = queue }, hd)

-- The state of `run` that the frames change.
pub record Net : Type 0 where
  pub inner : PppInner
  pub channel : RecvChannel
  pub lcp_rej_id : ℕ

-- A Protocol-Reject, if LCP is up.
unfoldable pub reject : Net → ℕ → List ℕ → Exec Net
reject n protocol packet =
    if is_layer_up n.inner.lcp
    then (exec (
          build proto_lcp (
            (8 ∷ n.lcp_rej_id ∷ [])
            ∷ to_be_bytes16 ((6 + length packet) % 2 ^ 16)
            ∷ to_be_bytes16 protocol
            ∷ packet
            ∷ []))
        >>= λ frame. ok (record n {
          inner = record n.inner { sent = n.inner.sent ++ frame ∷ [] };
          lcp_rej_id = (n.lcp_rej_id + 1) % 2 ^ 8;
        }))
    else ok n

abbrev pub with_inner : Net → Exec PppInner → Exec Net
with_inner n m = m >>= λ p. ok (record n { inner = p })

-- The match on the protocol.
unfoldable pub on_packet : ℕ → Net → ℕ → List ℕ → Exec Net
on_packet fuel n protocol packet =
    if protocol == proto_lcp
    then with_inner n (recv_lcp fuel n.inner packet)
    else if protocol == proto_ipcp && is_layer_up n.inner.lcp
    then with_inner n (recv_ipcp fuel n.inner packet)
    else if protocol == proto_ip && is_layer_up n.inner.ipcp
    then ok (record n { inner = recv_ip n.inner packet })
    else reject n protocol packet

-- `discard`
abbrev pub discard : Net → Net
discard n = record n { channel = free_buffer n.channel }

abbrev pub on_frame : ℕ → Net → Run (List ℕ) → Exec Net
on_frame fuel n panic = panic
on_frame fuel n (err tt) = ok (discard n)
on_frame fuel n (ok ppp_frame) =
    on_packet fuel n (from_be_bytes16 (get_or ppp_frame 0 0) (get_or ppp_frame 1 0))
      (drop 2 ppp_frame)
    >>= λ n'. ok (discard n')

-- The address that the host was given, where it is new, once IPCP is up.
abbrev pub host_addr_update : PppInner → Exec (PppInner × Option (Option Ipv4Addr × Ipv4Addr))
host_addr_update p =
    if is_layer_up p.ipcp
    then (let (layer, update) = get_host_addr_update p.ipcp.inner in
        exec update >>= λ ip_update.
        ok (record p { ipcp = record p.ipcp { inner = layer } }, ip_update))
    else ok (p, none)

-- Without a frame, up to what is handed to smoltcp: the poll, and the new address for its interface.
unfoldable pub idle : PppInner → Exec (PppInner × Option (Option Ipv4Addr × Ipv4Addr))
idle p = poll p >>= λ p'. host_addr_update p'

-- A turn of the loop of `run`: the frame at the read head, or what is done where there is none, of
-- which the state is kept here.
abbrev pub take_frame : ℕ → Net → Option Buffer → Exec Net
take_frame fuel n none = with_inner n (idle n.inner >>= λ r. ok r.0)
take_frame fuel n (some buf) =
    if leb buf.len max_frame
    then on_frame fuel n (try_from_hdlc_frame (take buf.len buf.bytes))
    else panic

unfoldable pub turn : ℕ → Net → Exec Net
turn fuel n = take_frame fuel n (read_head_buf n.channel)
