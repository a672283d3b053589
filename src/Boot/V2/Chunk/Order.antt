-- ===== src/Boot/V2/Chunk/Order.antt =====
-- Chunks that arrive at `V2::recv_chunk` of device/okboot/src/protocol/v2.rs, in whatever order.
use okeanos.Prelude.{
  ℕ, ◌+◌, ◌*◌, ◌≤◌, Bool, true, false, List, [], ◌++◌, ◌==◌, length, take, drop, Outcome, ok, err,
  panic, >>=-eq-ok, ◌≡◌, inl, inr, refl, sym, ap, subst, subst₂, ◌∙◌, arith, if-cases, ok-injective,
  take-plus, take_all, eq_of_test,
}
use okeanos.Frame.Crc.{Crc32}
use okeanos.Boot.Relocation.{Memory}
use okeanos.Boot.V2.{
  chunk_size, LoaderEnum, S, request_metadata, ack_metadata, request_chunk, boot, Inflate, V2,
}
use okeanos.Boot.V2.Chunk.{Work, Chunk, finalize, finish, after_chunk, recv_chunk_in, recv_chunk}
use okeanos.Boot.V2.Loader.{Metadata, ElfBytes, LoadError, Booter}
use okeanos.Boot.V2.Loader.Content.{Loaded, Placed, loader_with}
use okeanos.Boot.V2.Chunk.Laws.{Keeps, inflate_chunk-Keeps}
use okeanos.Boot.V2.Chunk.Input.{StopsAtEnd, Taken}

-- Chunk `which` of the compressed bytes, as the host cuts them.
abbrev pub chunk_of : List ℕ → ℕ → List ℕ
chunk_of deflated which = take chunk_size (drop (which * chunk_size) deflated)

chunk_of-next :
    (deflated : List ℕ) (which : ℕ)
    → take (which * chunk_size) deflated ++ chunk_of deflated which
      ≡ take ((which + 1) * chunk_size) deflated
chunk_of-next deflated which =
    sym (take-plus (which * chunk_size) chunk_size deflated)
    ∙ ap (λ k. take k deflated) (omega arith)

module _ (z : Inflate) (self_end : ℕ) {P : Type 0} (crc32 : Crc32)
    (minimal_parse : List ℕ → Outcome P ElfBytes) (m : Metadata) (deflated : List ℕ) where
  -- Between chunks: the chunks before `which` are taken, and what was inflated of them is with the
  -- loader and in memory.
  pub record Chunks (v : V2 z.I) (mem : Memory) (which count : ℕ) (l : LoaderEnum) : Type 0 where
    pub taken : Taken z v.inflate_state v.pending (take (which * chunk_size) deflated)
    pub loaded : Loaded self_end m l mem (z.output v.inflate_state)
    pub enough : length deflated ≤ count * chunk_size

  -- What is booted, with the memory as it is: all of the compressed bytes were taken, what was inflated
  -- of them is in memory, and `Loader::finalize`, of the loader of the metadata with just this, has
  -- accepted it.
  pub record Finalized (i : z.I) (pending : List ℕ) (booter : Booter) (mem : Memory) : Type 0 where
    pub taken : Taken z i pending deflated
    pub placed : Placed self_end m m.format_details mem (z.output i)
    pub is :
        finalize z crc32 minimal_parse (loader_with self_end m m.format_details (z.output i)) mem
        ≡ ok booter

  abbrev pub Downloads : V2 z.I → Memory → S → Type 0
  Downloads v mem request_metadata = (v.inflate_state ≡ z.new) × (v.pending ≡ [])
  Downloads v mem (ack_metadata m') = (v.inflate_state ≡ z.new) × (v.pending ≡ []) × (m' ≡ m)
  Downloads v mem (request_chunk which count l) = Chunks v mem which count l
  Downloads v mem (boot booter) = Finalized v.inflate_state v.pending booter mem

  abbrev pub DownloadsNow : V2 z.I → Memory → Type 0
  DownloadsNow v mem = Downloads v mem v.state

  module _ (stops : StopsAtEnd z) where
    finish-DownloadsNow :
        (v v' : V2 z.I) (w : Work z.I) (mem' : Memory) (r : Outcome (LoadError P) Booter)
        → v.inflate_state ≡ w.inflate_state
        → v.pending ≡ w.pending
        → Keeps z stops self_end m deflated w
        → finalize z crc32 minimal_parse w.loader w.mem ≡ r
        → finish z crc32 minimal_parse v w.mem r ≡ ok (v', mem', true)
        → DownloadsNow v' mem'
    finish-DownloadsNow v v' w mem' (ok booter) e e' h is run =
        let at_end : Finalized w.inflate_state w.pending booter w.mem = record {
          taken = h.taken;
          placed = h.loaded.1;
          is = ap (λ l. finalize z crc32 minimal_parse l w.mem) (sym h.loaded.0) ∙ is;
        } in
        subst₂ DownloadsNow (ap (λ u. u.0) (ok-injective _ refl run))
          (ap (λ u. u.1) (ok-injective _ refl run))
          (subst₂ (λ i p. Finalized i p booter w.mem) (sym e) (sym e') at_end)
    finish-DownloadsNow v v' w mem' (err x) e e' h is run = cc
    finish-DownloadsNow v v' w mem' panic e e' h is run = cc

    after_chunk-DownloadsNow :
        (v v' : V2 z.I) (which count : ℕ) (w : Work z.I) (mem' : Memory)
        → length deflated ≤ count * chunk_size
        → Keeps z stops self_end m (take ((which + 1) * chunk_size) deflated) w
        → after_chunk z crc32 minimal_parse v which count (w, true) ≡ ok (v', mem', true)
        → DownloadsNow v' mem'
    after_chunk-DownloadsNow v v' which count w mem' enough h run =
        let v1 : V2 z.I = record v {
          state = request_chunk (which + 1) count w.loader;
          once = true;
          inflate_state = w.inflate_state;
          pending = w.pending;
        } in
        elim (if-cases (which + 1 == count) _ _ run) [
          | inl (t, run') ↦
              finish-DownloadsNow v1 v' w mem' _ refl refl
                (subst (λ xs. Keeps z stops self_end m xs w)
                  (take_all ((which + 1) * chunk_size) deflated
                    (omega (arith, enough, eq_of_test (which + 1) count t)))
                  h)
                refl run'
          | inr (t, run') ↦
              subst₂ DownloadsNow (ap (λ u. u.0) (ok-injective _ refl run'))
                (ap (λ u. u.1) (ok-injective _ refl run'))
                (record { taken = h.taken; loaded = h.loaded; enough = enough })
        ]

    after_run-DownloadsNow :
        (v v' : V2 z.I) (which count : ℕ) (u : Work z.I × Bool) (mem' : Memory)
        → length deflated ≤ count * chunk_size
        → (u.1 ≡ true → Keeps z stops self_end m (take ((which + 1) * chunk_size) deflated) u.0)
        → after_chunk z crc32 minimal_parse v which count u ≡ ok (v', mem', true)
        → DownloadsNow v' mem'
    after_run-DownloadsNow v v' which count (w, true) mem' enough h run =
        after_chunk-DownloadsNow v v' which count w mem' enough (h refl) run
    after_run-DownloadsNow v v' which count (w, false) mem' enough h run = cc

    recv_chunk_in-DownloadsNow :
        (fuel : ℕ) (v v' : V2 z.I) (mem mem' : Memory) (msg : Chunk) (s : S)
        → v.state ≡ s
        → Downloads v mem s
        → msg.bytes ≡ chunk_of deflated msg.which
        → recv_chunk_in z crc32 minimal_parse fuel v mem msg s ≡ ok (v', mem', true)
        → DownloadsNow v' mem'
    recv_chunk_in-DownloadsNow fuel v v' mem mem' msg request_metadata is h e run =
        subst₂ DownloadsNow (ap (λ u. u.0) (ok-injective _ refl run))
          (ap (λ u. u.1) (ok-injective _ refl run)) (subst (Downloads v mem) (sym is) h)
    recv_chunk_in-DownloadsNow fuel v v' mem mem' msg (ack_metadata m') is h e run =
        subst₂ DownloadsNow (ap (λ u. u.0) (ok-injective _ refl run))
          (ap (λ u. u.1) (ok-injective _ refl run)) (subst (Downloads v mem) (sym is) h)
    recv_chunk_in-DownloadsNow fuel v v' mem mem' msg (boot booter) is h e run =
        subst₂ DownloadsNow (ap (λ u. u.0) (ok-injective _ refl run))
          (ap (λ u. u.1) (ok-injective _ refl run)) (subst (Downloads v mem) (sym is) h)
    recv_chunk_in-DownloadsNow fuel v v' mem mem' msg (request_chunk which count l) is h e run =
        elim (if-cases (which == msg.which) _ _ run) [
          | inl (t, run') ↦
              let (u, got, rest) =
                >>=-eq-ok _ (after_chunk z crc32 minimal_parse v which count) run' in
              let next : chunk_of deflated which ≡ msg.bytes =
                ap (chunk_of deflated) (eq_of_test which msg.which t) ∙ sym e in
              after_run-DownloadsNow v v' which count u mem' h.enough
                (λ done.
                  subst (λ xs. Keeps z stops self_end m xs u.0)
                    (ap (λ ys. take (which * chunk_size) deflated ++ ys) (sym next)
                      ∙ chunk_of-next deflated which)
                    (inflate_chunk-Keeps z stops self_end m fuel
                      (take (which * chunk_size) deflated) msg.bytes v mem l u.0 h.taken h.loaded
                      (got ∙ ap (λ b. ok (u.0, b)) done)))
                rest
          | inr (t, run') ↦
              subst₂ DownloadsNow (ap (λ u. u.0) (ok-injective _ refl run'))
                (ap (λ u. u.1) (ok-injective _ refl run'))
                (subst (λ (s : S). Downloads (record v { once = true }) mem s) (sym is)
                  (record { taken = h.taken; loaded = h.loaded; enough = h.enough }))
        ]

    -- A chunk message of the host, in order or not, keeps what holds of a download: the inflater has
    -- taken the chunks so far, each once and in order, up to the end of the compressed stream; the
    -- loader of the metadata has what was inflated, and memory is as at some start but for it, each
    -- slice whole at the place of its first byte; and a program that is to be booted has passed the loader
    -- with all of this. An inflater at the end of its stream takes no more.
    pub recv_chunk-DownloadsNow :
        (fuel : ℕ) (v v' : V2 z.I) (mem mem' : Memory) (msg : Chunk)
        → DownloadsNow v mem
        → msg.bytes ≡ chunk_of deflated msg.which
        → recv_chunk z crc32 minimal_parse fuel v mem msg ≡ ok (v', mem', true)
        → DownloadsNow v' mem'
    unfolding recv_chunk
    recv_chunk-DownloadsNow fuel v v' mem mem' msg h e run =
        recv_chunk_in-DownloadsNow fuel v v' mem mem' msg v.state refl h e run
