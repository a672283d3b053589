-- ===== src/Host/Upload/Chunks.antt =====
-- host/okdude/src/v2.rs: the chunks that the host sends are those that the device counts on.
use okeanos.Prelude.{
  ℕ, ◌+◌, ◌-◌, ◌*◌, ◌≤◌, ◌<◌, true, false, List, leb, if◌then◌else◌, length, take, drop,
  length-drop, take_all, ok, panic, ◌≡◌, ◌⊎◌, inl, inr, sym, ap, subst, ◌∙◌, arith,
}
use Prim.Native.Nat.{min}
use native.Mathlib.Decide.{dec_le}
use okeanos.Boot.V2.Chunk.Order.{chunk_of}
use okeanos.Host.Upload.{Info, chunk, send_chunk, dispatch_chunk_req}

slice_is :
    (compressed : List ℕ) (begin size : ℕ)
    → take (min (begin + size) (length compressed) - begin) (drop begin compressed)
      ≡ take size (drop begin compressed)
slice_is compressed begin size = elim (dec_le (begin + size) (length compressed)) [
  | yes h ↦ ap (λ n. take n (drop begin compressed)) (omega (arith, h))
  | no h ↦
      take_all (min (begin + size) (length compressed) - begin) (drop begin compressed)
        (omega (arith, h, length-drop begin compressed))
      ∙ sym (take_all size (drop begin compressed) (omega (arith, h, length-drop begin compressed)))
]

send_chunk_lem :
    (compressed : List ℕ) (which size : ℕ)
    → ((which * size ≤ length compressed)
        × (send_chunk size compressed which
            ≡ ok (
                chunk
                  (record { which = which; bytes = take size (drop (which * size) compressed) }))))
      ⊎ ((length compressed < which * size) × (send_chunk size compressed which ≡ panic))
send_chunk_lem compressed which size =
    let begin = which * size in
    let end = min (begin + size) (length compressed) in
    let ordered : begin ≤ length compressed → leb begin end ≡ true = λ h. ground (arith, h) in
    let crossed : (begin ≤ length compressed → ⊥) → leb begin end ≡ false =
      λ h. ground (arith, h) in
    elim (dec_le begin (length compressed)) [
      | yes h ↦ inl (
        h,
        ap
              (λ b.
                if b
                then ok (
                    chunk (record {
                      which = which;
                      bytes = take (end - begin) (drop begin compressed);
                    }))
                else panic)
              (ordered h)
            ∙ ap (λ bs. ok (chunk (record { which = which; bytes = bs })))
                (slice_is compressed begin size),
      )
      | no h ↦ inr (
        omega (arith, h),
        ap
            (λ b.
              if b
              then ok (
                  chunk
                    (record { which = which; bytes = take (end - begin) (drop begin compressed) }))
              else panic)
            (crossed h),
      )
    ]

-- With the chunk size that the device announces, the answer to the request of a chunk that begins
-- within the compressed bytes, or right behind them, is the chunk that the device counts on; and the
-- request of any later chunk is a panic of the host.
pub dispatch_chunk_req_lem :
    (info : Info) (compressed : List ℕ) (which : ℕ)
    → info.chunk_size ≡ 0x1000
    → ((which * 0x1000 ≤ length compressed)
        × (dispatch_chunk_req info compressed which
            ≡ ok (chunk (record { which = which; bytes = chunk_of compressed which }))))
      ⊎ ((length compressed < which * 0x1000) × (dispatch_chunk_req info compressed which ≡ panic))
unfolding dispatch_chunk_req
dispatch_chunk_req_lem info compressed which size =
    subst
      (λ n.
        ((which * 0x1000 ≤ length compressed)
          × (send_chunk n compressed which
              ≡ ok (chunk (record { which = which; bytes = chunk_of compressed which }))))
        ⊎ ((length compressed < which * 0x1000) × (send_chunk n compressed which ≡ panic)))
      (sym size) (send_chunk_lem compressed which 0x1000)
