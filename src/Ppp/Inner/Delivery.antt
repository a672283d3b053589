-- ===== src/Ppp/Inner/Delivery.antt =====
-- device/antimony/src/net.rs and net/phy.rs: an IP packet from the frame that one side builds to the queue
-- of the other.
use okeanos.Prelude.{
  ℕ, ◌+◌, ◌*◌, ◌≤◌, ◌<◌, Bool, true, false, List, ◌∷◌, ◌++◌, length, get_or, take, some, leb, ◌==◌,
  test_of_ne, if◌then◌else◌, [], ok, panic, ◌>>=◌, ◌≡◌, refl, ap, ◌∙◌, arith, All,
}
use okeanos.Ppp.Frame
use okeanos.Ppp.Frame.{max_frame, proto_ip, try_from_hdlc_frame}
use okeanos.Ppp.Control.Automaton.{is_layer_up}
use okeanos.Ppp.Phy.{RecvChannel, channel_max_frames, read_head_buf, free_buffer}
use okeanos.Ppp.Phy.Xmit.{XmitChannel}
use okeanos.Ppp.Phy.Drain.Octets.{Escapes}
use okeanos.Ppp.Phy.Drain.RoundTrip.{IsIdle}
use okeanos.Ppp.Phy.Link.{Delivers, quiet, push-drain-Delivers}
use okeanos.Ppp.Inner.{PppInner, Net, recv_ip, on_packet, on_frame, take_frame, discard, turn}

-- The receiver has read all frames that it finished.
pub record IsRead (ch : RecvChannel) : Type 0 where
  pub read_is : ch.read_head ≡ ch.write_head
  pub finished_is : ch.finished_head ≡ ch.write_head
  pub free_in : ch.free_buffers ≤ channel_max_frames

read_head_buf-stores :
    {packet : List ℕ} {room : ℕ} {rooms : List ℕ} {sender : XmitChannel} {receiver : RecvChannel}
    (d : Delivers proto_ip packet room rooms sender receiver)
    → IsIdle receiver
    → IsRead receiver
    → read_head_buf d.stores ≡ some (get_or d.stores.buffers receiver.write_head Frame.new)
unfolding read_head_buf
read_head_buf-stores {receiver = receiver} d i r =
    let used : (d.stores.free_buffers == channel_max_frames) ≡ false =
      test_of_ne _ _ (λ e. omega (arith, e, d.free_is, r.free_in)) in
    let head : d.stores.read_head ≡ receiver.write_head = d.read_is ∙ r.read_is in
    let unread : (d.stores.read_head == d.stores.finished_head) ≡ false =
      test_of_ne _ _ (λ e. omega (arith, e, head, d.finished_is, r.finished_is, i.write_in)) in
    rw (used, unread) (ap (λ k. some (get_or d.stores.buffers k Frame.new)) head)

abbrev net_of : PppInner → RecvChannel → ℕ → Net
net_of p ch id = record { inner = p; channel = ch; lcp_rej_id = id }

-- A packet of the protocol of IP, where IPCP is up.
on_packet-ip :
    (fuel : ℕ) (p : PppInner) (ch : RecvChannel) (id : ℕ) (packet : List ℕ)
    → is_layer_up p.ipcp ≡ true
    → on_packet fuel (net_of p ch id) proto_ip packet ≡ ok (net_of (recv_ip p packet) ch id)
unfolding on_packet
on_packet-ip fuel p ch id packet up = rw up refl

turn-ip :
    {packet : List ℕ} {room : ℕ} {rooms : List ℕ} {sender : XmitChannel} {receiver : RecvChannel}
    (d : Delivers proto_ip packet room rooms sender receiver) (fuel : ℕ) (p : PppInner) (id : ℕ)
    → IsIdle receiver
    → IsRead receiver
    → is_layer_up p.ipcp ≡ true
    → turn fuel (net_of p d.stores id) ≡ ok (net_of (recv_ip p packet) (free_buffer d.stores) id)
unfolding turn
turn-ip {packet} {receiver = receiver} d fuel p id i r up =
    let n = net_of p d.stores id in
    let buf = get_or d.stores.buffers receiver.write_head Frame.new in
    let fits : leb buf.len max_frame ≡ true = ground (arith, d.len_in) in
    ap (take_frame fuel n) (read_head_buf-stores d i r)
    ∙ ap (λ b. if b then on_frame fuel n (try_from_hdlc_frame (take buf.len buf.bytes)) else panic)
        fits
    ∙ ap (on_frame fuel n) d.accepts
    ∙ ap (λ m. m >>= λ n'. ok (discard n')) (on_packet-ip fuel p d.stores id packet up)

-- What becomes of an IP packet: it goes over the line, and the turn that takes it from the channel puts it
-- into the queue.
pub record Arrives (packet : List ℕ) (room : ℕ) (rooms : List ℕ) (sender : XmitChannel)
    (receiver : RecvChannel) (fuel : ℕ) (p : PppInner) (id : ℕ) : Type 0 where
  pub delivered : Delivers proto_ip packet room rooms sender receiver
  pub queued :
      turn fuel (record { inner = p; channel = delivered.stores; lcp_rej_id = id })
      ≡ ok (record {
        inner = record p { ip_recv_queue = p.ip_recv_queue ++ packet ∷ [] };
        channel = free_buffer delivered.stores;
        lcp_rej_id = id;
      })

-- An IP packet of at most 1499 bytes, built into a frame, pushed on a quiet channel and sent by interrupts
-- that each find room for a byte, 16 and twice the packet's length of them, then drained in one call by a
-- receiver between frames that has read all it finished and has two buffers free, IPCP being up: no step
-- panics, and the next turn of the receiver's loop puts just the packet at the end of the queue for IP and
-- frees the buffer. The octets that are escaped are any that include the flag and the escape and not 0x5e.
pub turn-push :
    (esc : ℕ → Bool) (packet : List ℕ) (room : ℕ) (rooms : List ℕ) (writing : Bool)
    (receiver : RecvChannel) (fuel : ℕ) (p : PppInner) (id : ℕ)
    → Escapes esc
    → length packet ≤ 1499
    → All (λ r. 0 < r) rooms
    → 16 + 2 * length packet ≤ length rooms
    → IsIdle receiver
    → IsRead receiver
    → 2 ≤ receiver.free_buffers
    → is_layer_up p.ipcp ≡ true
    → Arrives packet room rooms (quiet esc writing) receiver fuel p id
turn-push esc packet room rooms writing receiver fuel p id agreed short pos enough idle read free
      up =
    let d =
      push-drain-Delivers esc proto_ip packet room rooms writing receiver agreed short pos enough
        idle free in
    record { delivered = d; queued = turn-ip d fuel p id idle read up }
