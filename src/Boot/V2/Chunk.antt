-- ===== src/Boot/V2/Chunk.antt =====
-- device/okboot/src/protocol/v2.rs, `V2::recv_chunk`: a chunk goes to the inflater, and what it
-- writes goes to the loader.
pub mod Input
pub mod Laws
pub mod Fuel
pub mod Order
use okeanos.Prelude.{
  ℕ, zero, suc, ◌+◌, ◌-◌, ◌*◌, Bool, true, false, ◌&&◌, List, [], ◌∷◌, ◌++◌, ◌==◌, leb,
  if◌then◌else◌, length, take, drop, Outcome, Exec, out_of_fuel, ok, err, panic, ◌>>=◌,
}
use okeanos.Frame.Crc.{Crc32}
use okeanos.Boot.Relocation.{Memory}
use okeanos.Boot.V2.{
  LoaderEnum, bin_loader, elf_loader, receive_bytes, S, request_metadata, ack_metadata,
  request_chunk, boot, MzStatus, Inflate, InflateResult, V2,
}
use okeanos.Boot.V2
use okeanos.Boot.V2.Loader.{ElfBytes, LoadError, Booter, bin_finalize, elf_finalize}

-- The room behind the first 0x2000 bytes of the inflate buffer.
abbrev pub out_room : ℕ
out_room = 0x20000 - 0x2000

-- What the loop works on.
pub record Work (I : Type 0) : Type 0 where
  pub inflate_state : I
  pub pending : List ℕ
  pub loader : LoaderEnum
  pub mem : Memory

-- How a round of the loop ends: with the next round, with the end of the loop, or with
-- `return false`.
pub data RoundEnd : Type 0 where
  goes_on leaves fails : RoundEnd

-- The chunk message.
pub record Chunk : Type 0 where
  pub which : ℕ
  pub bytes : List ℕ

module _ (z : Inflate) where
  -- The loader takes what was written.
  abbrev pub receive : Work z.I → z.I → List ℕ → List ℕ → Work z.I
  receive w i pending written =
      let (l, mem) = receive_bytes w.loader w.mem written in
      record { inflate_state = i; pending = pending; loader = l; mem = mem }

  -- Lines 361-407: the rest of a round, by the status.
  abbrev pub round_end : Work z.I → InflateResult z.I → MzStatus → Exec (Work z.I × RoundEnd)
  round_end w r MzStatus.ok =
      let rest = drop r.bytes_consumed w.pending in
      if length r.written == 0
      then ok (record w { inflate_state = r.state; pending = rest }, leaves)
      else ok (receive w r.state rest r.written, goes_on)
  round_end w r MzStatus.stream_end =
      ok
        (receive w r.state (take (length w.pending - r.bytes_consumed) w.pending) r.written, leaves)
  round_end w r MzStatus.need_dict = panic
  round_end w r MzStatus.buf_error =
      if r.bytes_consumed == 0 && length r.written == 0
      then ok (record w { inflate_state = r.state }, leaves)
      else panic
  round_end w r MzStatus.data_error = ok (record w { inflate_state = r.state }, fails)
  round_end w r MzStatus.other_error = ok (record w { inflate_state = r.state }, fails)

  -- What follows a round, where `loop` is the rest of the loop.
  abbrev pub turn :
      (Work z.I → Exec (Work z.I × Bool)) → Work z.I × RoundEnd → Exec (Work z.I × Bool)
  turn loop (w, goes_on) = loop w
  turn loop (w, leaves) = ok (w, true)
  turn loop (w, fails) = ok (w, false)

  -- Lines 346-408. Each call of the inflater takes one of the rounds given.
  unfoldable pub inflate_loop : ℕ → Work z.I → Exec (Work z.I × Bool)
  inflate_loop zero w = err out_of_fuel
  inflate_loop (suc fuel) w =
      let r = z.inflate w.inflate_state w.pending out_room in
      round_end w r r.status >>= turn (λ next. inflate_loop fuel next)

  -- Lines 338-344, and the loop.
  unfoldable pub inflate_chunk : ℕ → V2 z.I → Memory → LoaderEnum → List ℕ → Exec (Work z.I × Bool)
  inflate_chunk fuel v mem l bytes =
      if leb (length bytes + length v.pending) 0x2000
      then inflate_loop fuel (record {
        inflate_state = v.inflate_state;
        pending = v.pending ++ bytes;
        loader = l;
        mem = mem;
      })
      else panic

  module _ {P : Type 0} (crc32 : Crc32) (minimal_parse : List ℕ → Outcome P ElfBytes) where
    -- `Loader::finalize`
    abbrev pub finalize : LoaderEnum → Memory → Outcome (LoadError P) Booter
    finalize (bin_loader l) mem = bin_finalize crc32 l mem
    finalize (elf_loader l) mem = elf_finalize crc32 minimal_parse l

    -- Lines 428-444.
    abbrev pub finish :
        V2 z.I → Memory → Outcome (LoadError P) Booter → Exec (V2 z.I × Memory × Bool)
    finish v mem (ok booter) = ok (record v { state = boot booter }, mem, true)
    finish v mem (err e) = ok (record v { state = request_metadata }, mem, false)
    finish v mem panic = panic

    -- Lines 410-447, for a chunk that was taken.
    abbrev pub after_chunk : V2 z.I → ℕ → ℕ → Work z.I × Bool → Exec (V2 z.I × Memory × Bool)
    after_chunk v which count (w, false) = ok (
      record v {
        state = request_chunk which count w.loader;
        inflate_state = w.inflate_state;
        pending = w.pending;
      },
      w.mem,
      false,
    )
    after_chunk v which count (w, true) =
        let v1 = record v {
          state = request_chunk (which + 1) count w.loader;
          once = true;
          inflate_state = w.inflate_state;
          pending = w.pending;
        } in
        if which + 1 == count
        then finish v1 w.mem (finalize w.loader w.mem)
        else ok (v1, w.mem, true)

    -- `V2::recv_chunk` by the state.
    abbrev pub recv_chunk_in : ℕ → V2 z.I → Memory → Chunk → S → Exec (V2 z.I × Memory × Bool)
    recv_chunk_in fuel v mem msg (request_chunk which count l) =
        if which == msg.which
        then (inflate_chunk fuel v mem l msg.bytes >>= after_chunk v which count)
        else ok (record v { once = true }, mem, true)
    recv_chunk_in fuel v mem msg s = ok (v, mem, true)

    unfoldable pub recv_chunk : ℕ → V2 z.I → Memory → Chunk → Exec (V2 z.I × Memory × Bool)
    recv_chunk fuel v mem msg = recv_chunk_in fuel v mem msg v.state
