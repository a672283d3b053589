-- ===== src/Boot/V2/Chunk/Fuel.antt =====
-- The loop of `V2::recv_chunk` of device/okboot/src/protocol/v2.rs ends.
use okeanos.Prelude.{
  ℕ, zero, suc, ◌+◌, ◌≤◌, ◌<◌, Bool, false, ◌&&◌, ◌==◌, length, take, drop, Exec, out_of_fuel, ok,
  err, panic, ◌>>=◌, ◌≡◌, ◌≢◌, ◌⊎◌, inl, inr, refl, sym, ap, subst, arith, Bool-cases,
  length-append, length-take, length-drop, pos_of_test,
}
use okeanos.Boot.V2.{MzStatus, Inflate}
use okeanos.Boot.V2.Chunk.{
  Work, RoundEnd, goes_on, leaves, fails, out_room, round_end, turn, inflate_loop,
}

module _ (z : Inflate) where
  abbrev input_size : Work z.I → ℕ
  input_size w = length (z.input w.inflate_state) + length w.pending

  -- Another round has the same input in all, and more was written before it.
  record Advances (w u : Work z.I) : Type 0 where
    same : input_size u ≡ input_size w
    more : length (z.output w.inflate_state) < length (z.output u.inflate_state)

  record Ends (w : Work z.I) (o : Exec (Work z.I × RoundEnd)) : Type 0 where
    ends :
        (o ≡ panic)
        ⊎ ((step : Work z.I × RoundEnd) × (o ≡ ok step) × (step.1 ≡ goes_on → Advances w step.0))

  ok-Advances :
      (w u : Work z.I)
      → let r = z.inflate w.inflate_state w.pending out_room in
        (length r.written == 0) ≡ false
        → u.inflate_state ≡ r.state
        → u.pending ≡ drop r.bytes_consumed w.pending
        → Advances w u
  ok-Advances w u e is is' =
      let r = z.inflate w.inflate_state w.pending out_room in
      let n = r.bytes_consumed in
      let some_written : 0 < length r.written = pos_of_test (length r.written) e in
      record {
        same = omega (
          arith,
          ap (λ i. length (z.input i)) is,
          ap length is',
          ap length (z.input-inflate w.inflate_state w.pending out_room),
          length-append (z.input w.inflate_state) (take n w.pending),
          length-take n w.pending,
          length-drop n w.pending,
          z.consumed-le w.inflate_state w.pending out_room,
        );
        more = omega (
          arith,
          ap (λ i. length (z.output i)) is,
          some_written,
          ap length (z.output-inflate w.inflate_state w.pending out_room),
          length-append (z.output w.inflate_state) r.written,
        );
      }

  round_end-Ends :
      (w : Work z.I) (s : MzStatus)
      → Ends w (round_end z w (z.inflate w.inflate_state w.pending out_room) s)
  round_end-Ends w MzStatus.ok =
      let r = z.inflate w.inflate_state w.pending out_room in
      let rest = drop r.bytes_consumed w.pending in
      elim (Bool-cases (length r.written == 0)) [
        | inl t ↦ record { ends = rw t (inr (_, refl, λ e. cc)) }
        | inr t ↦ record { ends = rw t (inr (_, refl, λ e. ok-Advances w _ t refl refl)) }
      ]
  round_end-Ends w MzStatus.stream_end = record { ends = inr (_, refl, λ e. cc) }
  round_end-Ends w MzStatus.need_dict = record { ends = inl refl }
  round_end-Ends w MzStatus.buf_error =
      let r = z.inflate w.inflate_state w.pending out_room in
      elim (Bool-cases (r.bytes_consumed == 0 && length r.written == 0)) [
        | inl t ↦ record { ends = rw t (inr (_, refl, λ e. cc)) }
        | inr t ↦ record { ends = rw t (inl refl) }
      ]
  round_end-Ends w MzStatus.data_error = record { ends = inr (_, refl, λ e. cc) }
  round_end-Ends w MzStatus.other_error = record { ends = inr (_, refl, λ e. cc) }

  turn-≢ :
      (loop : Work z.I → Exec (Work z.I × Bool)) (w : Work z.I) (o : Exec (Work z.I × RoundEnd))
      → ((u : Work z.I) → Advances w u → loop u ≢ err out_of_fuel)
      → Ends w o
      → (o >>= turn z loop) ≢ err out_of_fuel
  turn-≢ loop w o rest h = elim h.ends [
    | inl e ↦ subst (λ o'. (o' >>= turn z loop) ≢ err out_of_fuel) (sym e) (λ k. cc k)
    | inr (step, e, advances) ↦
        subst (λ o'. (o' >>= turn z loop) ≢ err out_of_fuel) (sym e) (by_step step advances)
  ]
    where
      by_step :
          (step : Work z.I × RoundEnd)
          → (step.1 ≡ goes_on → Advances w step.0)
          → turn z loop step ≢ err out_of_fuel
      by_step (u, goes_on) advances = rest u (advances refl)
      by_step (u, leaves) advances = λ k. cc k
      by_step (u, fails) advances = λ k. cc k

  -- Where what can be written for an input of at most `n` bytes is bounded, so many rounds and one
  -- more are enough.
  pub inflate_loop_ends :
      (fuel n cap : ℕ) (w : Work z.I)
      → ((i : z.I) → length (z.input i) ≤ n → length (z.output i) ≤ cap)
      → length (z.input w.inflate_state) + length w.pending ≤ n
      → cap < fuel + length (z.output w.inflate_state)
      → inflate_loop z fuel w ≢ err out_of_fuel
  unfolding inflate_loop
  inflate_loop_ends zero n cap w bounded fits enough =
      absurd (omega (arith, bounded w.inflate_state, fits, enough))
  inflate_loop_ends (suc fuel) n cap w bounded fits enough =
      turn-≢ (λ u. inflate_loop z fuel u) w _
        (λ u a.
          inflate_loop_ends fuel n cap u bounded (omega (arith, a.same, fits))
            (omega (arith, a.more, enough)))
        (round_end-Ends w _)
