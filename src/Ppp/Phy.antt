-- ===== src/Ppp/Phy.antt =====
-- device/antimony/src/net/phy.rs, `RecvChannel`: a ring of frame buffers between the interrupt, which
-- fills them, and the reader.
pub mod Xmit
pub mod Drain
pub mod Link
use okeanos.Prelude.{
  ℕ, ◌+◌, ◌-◌, ◌%◌, ◌<◌, ◌≤◌, Bool, false, Option, none, some, ◌==◌, ◌||◌, if◌then◌else◌, ◌≡◌, ◌⊎◌,
  inl, inr, refl, ap, sym, ◌∙◌, arith, Bool-cases, List, get_or, replicate,
}
use native.Mathlib.Nat.{mod-add-mod}
use okeanos.Ppp.Frame
use okeanos.Ppp.Frame.{Buffer}

abbrev pub channel_max_frames : ℕ
channel_max_frames = 128

pub record RecvChannel : Type 0 where
  pub write_head : ℕ
  pub finished_head : ℕ
  pub read_head : ℕ
  pub free_buffers : ℕ
  pub in_packet : Bool
  pub last_esc : Bool
  pub buffers : List Buffer

-- `RecvChannel::new`
abbrev pub new : RecvChannel
new = record {
  write_head = 0;
  finished_head = 0;
  read_head = 0;
  free_buffers = channel_max_frames;
  in_packet = false;
  last_esc = false;
  buffers = replicate channel_max_frames Frame.new;
}

unfoldable pub free_buffer : RecvChannel → RecvChannel
free_buffer c = record c {
  read_head = (c.read_head + 1) % channel_max_frames;
  free_buffers = c.free_buffers + 1;
}

unfoldable pub try_alloc_buffer : RecvChannel → RecvChannel × Option ℕ
try_alloc_buffer c = if c.free_buffers == 0 then (c, none) else (
  record c {
    write_head = (c.write_head + 1) % channel_max_frames;
    free_buffers = c.free_buffers - 1;
  },
  some c.write_head,
)

unfoldable pub read_head_buf : RecvChannel → Option Buffer
read_head_buf c =
    if c.free_buffers == channel_max_frames || c.read_head == c.finished_head
    then none
    else some (get_or c.buffers c.read_head Frame.new)

-- The buffers from the read head to the write head are in use, and the others are free.
pub record IsRing (c : RecvChannel) : Type 0 where
  pub free_in : c.free_buffers ≤ channel_max_frames
  pub read_in : c.read_head < channel_max_frames
  pub write_is :
      c.write_head ≡ (c.read_head + (channel_max_frames - c.free_buffers)) % channel_max_frames

-- Allocation takes the buffer behind those in use, if one is free, and keeps the ring; it fails
-- just when no buffer is free, and then changes nothing.
pub try_alloc_buffer-IsRing :
    (c : RecvChannel)
    → IsRing c
    → ((c.free_buffers ≡ 0) × (try_alloc_buffer c ≡ (c, none)))
      ⊎ ((0 < c.free_buffers)
          × ((try_alloc_buffer c).1 ≡ some c.write_head)
          × IsRing (try_alloc_buffer c).0
          × ((try_alloc_buffer c).0.free_buffers + 1 ≡ c.free_buffers))
unfolding try_alloc_buffer
try_alloc_buffer-IsRing c r = elim (Bool-cases (c.free_buffers == 0)) [
  | inl yes' ↦ inl ((ground arith), rw yes' refl)
  | inr no' ↦
      let pos : 0 < c.free_buffers = ground arith in
      let free : c.free_buffers ≤ 128 = r.free_in in
      inr (
        pos,
        rw no' refl,
        rw no' (record {
          free_in = omega arith;
          read_in = r.read_in;
          write_is =
              ap (λ w. (w + 1) % 128) r.write_is
              ∙ rw mod-add-mod (ap (λ k. k % 128) (omega (arith, pos, free)));
        }),
        rw no' (omega (arith, pos)),
      )
]

-- Freeing the read head's buffer, where one is in use, keeps the ring.
pub free_buffer-IsRing :
    (c : RecvChannel) → IsRing c → c.free_buffers < channel_max_frames → IsRing (free_buffer c)
unfolding free_buffer
free_buffer-IsRing c r used = record {
  free_in = omega arith;
  read_in = omega arith;
  write_is = r.write_is ∙ sym (rw mod-add-mod (ap (λ k. k % 128) (omega (arith, used))));
}
