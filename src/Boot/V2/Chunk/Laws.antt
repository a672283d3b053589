-- ===== src/Boot/V2/Chunk/Laws.antt =====
-- What `V2::recv_chunk` of device/okboot/src/protocol/v2.rs keeps: the inflater has taken the chunks
-- so far, and the loader and memory have what the inflater wrote.
use okeanos.Prelude.{
  ℕ, zero, suc, ◌+◌, ◌-◌, Bool, true, ◌&&◌, List, [], ◌∷◌, ◌++◌, ◌==◌, leb, length, take, Exec, ok,
  >>=-eq-ok, ◌≡◌, ◌≢◌, inl, inr, refl, sym, ap, subst, ◌∙◌, arith, append-nil, if-cases,
  and-eq-true, ok-injective, eq_of_test,
}
use okeanos.Boot.Relocation.{Memory}
use okeanos.Boot.V2.{LoaderEnum, receive_bytes, MzStatus, Inflate, V2}
use okeanos.Boot.V2.Chunk.Input.{
  StopsAtEnd, Taken, inflate-Taken, end-Taken, buf_error-Taken, more-Taken,
}
use okeanos.Boot.V2.Chunk.{
  Work, RoundEnd, goes_on, leaves, fails, out_room, turn, round_end, inflate_loop, inflate_chunk,
}
use okeanos.Boot.V2.Loader.{Metadata}
use okeanos.Boot.V2.Loader.Content.{Loaded, receive_bytes-Loaded}

nil_of_length : (xs : List ℕ) → (length xs == 0) ≡ true → xs ≡ []
nil_of_length [] h = refl
nil_of_length (x ∷ xs) h = absurd (omega (arith, eq_of_test (length (x ∷ xs)) 0 h))

module _ (z : Inflate) (stops : StopsAtEnd z) (self_end : ℕ) (m : Metadata) where
  -- The inflater has taken `xs`, and the loader and memory have what it wrote.
  pub record Keeps (xs : List ℕ) (w : Work z.I) : Type 0 where
    pub taken : Taken z w.inflate_state w.pending xs
    pub loaded : Loaded self_end m w.loader w.mem (z.output w.inflate_state)

  inflate-Loaded :
      (w : Work z.I) (room : ℕ)
      → Loaded self_end m w.loader w.mem (z.output w.inflate_state)
      → let r = z.inflate w.inflate_state w.pending room in
        Loaded self_end m
          (receive_bytes w.loader w.mem r.written).0
          (receive_bytes w.loader w.mem r.written).1
          (z.output r.state)
  inflate-Loaded w room h =
      let r = z.inflate w.inflate_state w.pending room in
      subst
        (Loaded self_end m (receive_bytes w.loader w.mem r.written).0
          (receive_bytes w.loader w.mem r.written).1)
        (sym (z.output-inflate w.inflate_state w.pending room))
        (receive_bytes-Loaded self_end m w.loader w.mem (z.output w.inflate_state) r.written h)

  -- The loader need not be given what is empty.
  idle-Loaded :
      (w : Work z.I) (room : ℕ)
      → let r = z.inflate w.inflate_state w.pending room in
        (length r.written == 0) ≡ true
        → Loaded self_end m w.loader w.mem (z.output w.inflate_state)
        → Loaded self_end m w.loader w.mem (z.output r.state)
  idle-Loaded w room e h =
      let r = z.inflate w.inflate_state w.pending room in
      subst (Loaded self_end m w.loader w.mem)
        (sym (
          z.output-inflate w.inflate_state w.pending room
          ∙ ap (λ ys. z.output w.inflate_state ++ ys) (nil_of_length r.written e)
          ∙ append-nil (z.output w.inflate_state)))
        h

  -- A round that does not fail keeps it.
  round_end-Keeps :
      (xs : List ℕ) (w w' : Work z.I) (s : MzStatus) (e : RoundEnd)
      → let r = z.inflate w.inflate_state w.pending out_room in
        r.status ≡ s → Keeps xs w → round_end z w r s ≡ ok (w', e) → e ≢ fails → Keeps xs w'
  round_end-Keeps xs w w' MzStatus.ok e is h run ne =
      let r = z.inflate w.inflate_state w.pending out_room in
      let taken = inflate-Taken z stops w.inflate_state w.pending out_room xs h.taken in
      elim (if-cases (length r.written == 0) _ _ run) [
        | inl (t, run') ↦
            subst (Keeps xs) (ap (λ u. u.0) (ok-injective _ refl run'))
              (record { taken = taken; loaded = idle-Loaded w out_room t h.loaded })
        | inr (t, run') ↦
            subst (Keeps xs) (ap (λ u. u.0) (ok-injective _ refl run'))
              (record { taken = taken; loaded = inflate-Loaded w out_room h.loaded })
      ]
  round_end-Keeps xs w w' MzStatus.stream_end e is h run ne =
      subst (Keeps xs) (ap (λ u. u.0) (ok-injective _ refl run)) (record {
        taken =
            end-Taken z stops w.inflate_state w.pending out_room xs
              (take
                (length w.pending - (z.inflate w.inflate_state w.pending out_room).bytes_consumed)
                w.pending)
              h.taken (z.ends w.inflate_state w.pending out_room is);
        loaded = inflate-Loaded w out_room h.loaded;
      })
  round_end-Keeps xs w w' MzStatus.need_dict e is h run ne = cc
  round_end-Keeps xs w w' MzStatus.buf_error e is h run ne =
      let r = z.inflate w.inflate_state w.pending out_room in
      elim (if-cases (r.bytes_consumed == 0 && length r.written == 0) _ _ run) [
        | inl (t, run') ↦ subst (Keeps xs) (ap (λ u. u.0) (ok-injective _ refl run')) (record {
          taken =
              buf_error-Taken z stops w.inflate_state w.pending out_room xs (and-eq-true _ _ t).0
                h.taken;
          loaded = idle-Loaded w out_room (and-eq-true (r.bytes_consumed == 0) _ t).1 h.loaded;
        })
        | inr (t, run') ↦ cc
      ]
  round_end-Keeps xs w w' MzStatus.data_error e is h run ne =
      absurd (ne (sym (ap (λ u. u.1) (ok-injective _ refl run))))
  round_end-Keeps xs w w' MzStatus.other_error e is h run ne =
      absurd (ne (sym (ap (λ u. u.1) (ok-injective _ refl run))))

  turn-Keeps :
      (loop : Work z.I → Exec (Work z.I × Bool)) (xs : List ℕ) (w w' : Work z.I)
      (step : Work z.I × RoundEnd)
      → ((u : Work z.I) → Keeps xs u → loop u ≡ ok (w', true) → Keeps xs w')
      → let r = z.inflate w.inflate_state w.pending out_room in
        Keeps xs w
        → round_end z w r r.status ≡ ok step
        → turn z loop step ≡ ok (w', true)
        → Keeps xs w'
  turn-Keeps loop xs w w' (u, goes_on) rest h is k =
      rest u (round_end-Keeps xs w u _ goes_on refl h is (λ e. cc e)) k
  turn-Keeps loop xs w w' (u, leaves) rest h is k =
      subst (Keeps xs) (ap (λ p. p.0) (ok-injective _ refl k))
        (round_end-Keeps xs w u _ leaves refl h is (λ e. cc e))
  turn-Keeps loop xs w w' (u, fails) rest h is k = cc

  inflate_loop-Keeps :
      (fuel : ℕ) (xs : List ℕ) (w w' : Work z.I)
      → Keeps xs w
      → inflate_loop z fuel w ≡ ok (w', true)
      → Keeps xs w'
  unfolding inflate_loop
  inflate_loop-Keeps zero xs w w' h run = cc
  inflate_loop-Keeps (suc fuel) xs w w' h run =
      let loop : Work z.I → Exec (Work z.I × Bool) = λ next. inflate_loop z fuel next in
      let (step, is, k) = >>=-eq-ok _ (turn z loop) run in
      turn-Keeps loop xs w w' step (λ u. inflate_loop-Keeps fuel xs u w') h is k

  pub inflate_chunk-Keeps :
      (fuel : ℕ) (xs bytes : List ℕ) (v : V2 z.I) (mem : Memory) (l : LoaderEnum) (w' : Work z.I)
      → Taken z v.inflate_state v.pending xs
      → Loaded self_end m l mem (z.output v.inflate_state)
      → inflate_chunk z fuel v mem l bytes ≡ ok (w', true)
      → Keeps (xs ++ bytes) w'
  unfolding inflate_chunk
  inflate_chunk-Keeps fuel xs bytes v mem l w' taken loaded run =
      elim (if-cases (leb (length bytes + length v.pending) 0x2000) _ _ run) [
        | inl (t, run') ↦
            inflate_loop-Keeps fuel (xs ++ bytes) _ w'
              (record {
                taken = more-Taken z v.inflate_state v.pending xs bytes taken;
                loaded = loaded;
              })
              run'
        | inr (t, run') ↦ cc
      ]
