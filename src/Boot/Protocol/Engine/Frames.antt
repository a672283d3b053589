-- ===== src/Boot/Protocol/Engine/Frames.antt =====
-- The loop of `run` in device/okboot/src/protocol.rs: how the outputs of the decoder become a packet
-- that is handed to the protocol.
use okeanos.Prelude.{
  false, ℕ, suc, ◌+◌, ◌≤◌, ◌<◌, List, [], ◌∷◌, ◌++◌, map, none, some, length, take, set, write_at,
  length-set, take-suc-set, append_assoc, append-nil, leb, Exec, ok, err, panic, ◌>>=◌, ◌≡◌, refl,
  sym, ap, ◌∙◌, arith,
}
use okeanos.Frame.Layer.{FrameHeader, FrameError, FrameOutput, FrameLayer, feed, reset}
use okeanos.Boot.Receive.{push_u8}
use okeanos.Boot.Protocol.Engine.{
  Poll, Next, runs, downloads_legacy, boots, Parts, State, decode, failed, goes_on, handle,
  finished, pushed, on_output, on_fed, take_byte, or_ends, waiting,
}

take-write_at :
    {A : Type 0} (xs : List A) (c : ℕ) (bytes : List A)
    → c + length bytes ≤ length xs
    → take (c + length bytes) (write_at xs c bytes) ≡ take c xs ++ bytes
take-write_at xs c [] fits = ap (λ n. take n xs) (omega arith) ∙ sym (append-nil (take c xs))
take-write_at xs c (b ∷ bytes) fits =
    let n : c + length (b ∷ bytes) ≡ suc c + length bytes = omega arith in
    ap (λ n. take n (write_at (set xs c b) (suc c) bytes)) n
    ∙ take-write_at (set xs c b) (suc c) bytes (omega (arith, length-set xs c b, fits))
    ∙ ap (λ ys. ys ++ bytes) (take-suc-set c xs b (omega (arith, fits)))
    ∙ append_assoc (take c xs) (b ∷ []) bytes

length-write_at :
    {A : Type 0} (xs : List A) (c : ℕ) (bytes : List A) → length (write_at xs c bytes) ≡ length xs
length-write_at xs c [] = refl
length-write_at xs c (b ∷ bytes) = length-write_at (set xs c b) (suc c) bytes ∙ length-set xs c b

push_u8-fits :
    (storage : List ℕ) (c b : ℕ)
    → c < length storage
    → push_u8 (record { underlying_storage = storage; cursor = c }) b
      ≡ (record { underlying_storage = set storage c b; cursor = c + 1 }, ok tt)
unfolding push_u8
push_u8-fits storage c b h =
    let room : leb (length storage) c ≡ false = ground (arith, h) in rw room refl

module _ (p : Parts) where
  -- The outputs of the decoder, one after the other.
  pub on_outputs : Poll → State p → List FrameOutput → Exec (Next (State p))
  on_outputs poll s [] = ok (runs s)
  on_outputs poll s (o ∷ outs) =
      on_output p poll s o >>= λ next. or_ends p next (λ s'. on_outputs poll s' outs)

  abbrev filled : State p → List ℕ → ℕ → State p
  filled s storage cursor = record s {
    rx_buffer = record { underlying_storage = storage; cursor = cursor };
    recv_state = waiting false;
  }

  -- The loop's variables where the packet is handed over.
  abbrev pub handed : State p → List ℕ → State p
  handed s bytes = record s {
    frame_header = none;
    rx_buffer = record {
      underlying_storage = write_at s.rx_buffer.underlying_storage s.rx_buffer.cursor bytes;
      cursor = 0;
    };
    decoder = reset p.crc32 s.decoder;
    recv_state = waiting false;
  }

  on_outputs-payload :
      (poll : Poll) (s : State p) (storage : List ℕ) (c : ℕ) (bytes : List ℕ)
      (rest : List FrameOutput)
      → c + length bytes ≤ length storage
      → on_outputs poll (filled s storage c) (map FrameOutput.payload bytes ++ rest)
        ≡ on_outputs poll (filled s (write_at storage c bytes) (c + length bytes)) rest
  unfolding on_outputs push_u8
  on_outputs-payload poll s storage c [] rest fits =
      ap (λ n. on_outputs poll (filled s storage n) rest) (omega arith)
  on_outputs-payload poll s storage c (b ∷ bytes) rest fits =
      let outs = map FrameOutput.payload bytes ++ rest in
      ap
        (λ r. pushed p poll.now (filled s storage c) r >>= λ next.
          or_ends p next (λ s'. on_outputs poll s' outs))
        (push_u8-fits storage c b (omega (arith, fits)))
      ∙ on_outputs-payload poll s (set storage c b) (c + 1) bytes rest
          (omega (arith, fits, length-set storage c b))
      ∙ ap
          (λ n.
            on_outputs poll (filled s (write_at (set storage c b) n bytes) (n + length bytes)) rest)
          (omega arith)
      ∙ ap (λ n. on_outputs poll (filled s (write_at storage c (b ∷ bytes)) n) rest) (omega arith)

  ends_here : (m : Exec (Next (State p))) → (m >>= λ next. or_ends p next (λ s'. ok (runs s'))) ≡ m
  ends_here (ok (runs s)) = refl
  ends_here (ok downloads_legacy) = refl
  ends_here (ok (boots booter mem)) = refl
  ends_here (err e) = refl
  ends_here panic = refl

  -- The outputs for a packet whose payload has room in the receive buffer hand over the packet with
  -- the header, and with the bytes that the buffer had in front of the payload.
  pub on_outputs-packet :
      (poll : Poll) (s : State p) (h : FrameHeader) (bytes : List ℕ)
      → s.rx_buffer.cursor + length bytes ≤ length s.rx_buffer.underlying_storage
      → on_outputs poll s
          (FrameOutput.header h ∷ (map FrameOutput.payload bytes ++ FrameOutput.finished ∷ []))
        ≡ handle p poll
            (handed s bytes)
            h
            (take s.rx_buffer.cursor s.rx_buffer.underlying_storage ++ bytes)
            s.protocol
  unfolding on_outputs
  on_outputs-packet poll s h bytes fits =
      let c = s.rx_buffer.cursor in
      let storage = s.rx_buffer.underlying_storage in
      let s1 : State p = record s { frame_header = some h } in
      on_outputs-payload poll s1 storage c bytes (FrameOutput.finished ∷ []) fits
      ∙ ends_here
          (finished p poll (filled s1 (write_at storage c bytes) (c + length bytes)) (some h))
      ∙ ap (λ payload. handle p poll (handed s bytes) h payload s.protocol)
          (take-write_at storage c bytes fits)

  -- A frame that breaks off with an error of the decoder leaves its bytes in the receive buffer: the
  -- next packet, received after the recovery, is handed over with them in front of its payload.
  pub on_outputs-stale :
      (poll poll' : Poll) (s : State p) (b : ℕ) (d : FrameLayer p.crc32.Hasher) (e : FrameError)
      (h : FrameHeader) (bytes : List ℕ)
      → feed p.crc32 s.decoder b ≡ (d, err e)
      → s.rx_buffer.cursor + length bytes ≤ length s.rx_buffer.underlying_storage
      → (s' : State p) × (take_byte p poll s b ≡ ok (runs s'))
        × (on_outputs poll'
              (goes_on p s')
              (FrameOutput.header h ∷ (map FrameOutput.payload bytes ++ FrameOutput.finished ∷ []))
            ≡ handle p poll'
                (handed (goes_on p s') bytes)
                h
                (take s.rx_buffer.cursor s.rx_buffer.underlying_storage ++ bytes)
                s.protocol)
  unfolding take_byte
  on_outputs-stale poll poll' s b d e h bytes fed fits = (
    failed p poll.now (decode e) (record s { decoder = reset p.crc32 d }),
    ap (on_fed p poll s) fed,
    on_outputs-packet poll'
        (goes_on p (failed p poll.now (decode e) (record s { decoder = reset p.crc32 d }))) h bytes
        fits,
  )
