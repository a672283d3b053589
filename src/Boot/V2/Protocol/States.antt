-- ===== src/Boot/V2/Protocol/States.antt =====
-- What the metadata and their acknowledgement leave of a download (`recv_metadata` and
-- `recv_metadata_ack_ack` of device/okboot/src/protocol/v2.rs).
use okeanos.Prelude.{
  ℕ, ◌+◌, ◌^◌, ◌≤◌, Bool, true, false, List, [], ◌++◌, length, ltb, Outcome, ok, >>=-eq-ok,
  ok-injective, if-cases, ◌≡◌, inl, inr, refl, sym, ap, subst, ◌∙◌, arith, Bool-cases,
}
use okeanos.Frame.Crc.{Crc32}
use okeanos.Boot.Relocation.{Memory}
use okeanos.Boot.Timeouts.{Timeouts}
use okeanos.Boot.V2.{
  chunk_size, LoaderEnum, S, request_metadata, ack_metadata, request_chunk, boot, Inflate, V2,
}
use okeanos.Boot.V2.Chunk.Input.{Reached, begins}
use okeanos.Boot.V2.Chunk.Order.{Downloads, DownloadsNow}
use okeanos.Boot.V2.Loader.Content.{LoadedAs, Loaded}
use okeanos.Boot.V2.Loader.{FormatDetails, bin, elf, Metadata, ElfBytes}
use okeanos.Boot.V2.Protocol.{
  accepts, loader_for, chunk_count, recv_metadata_in, recv_metadata_ack_ack_in,
}

loader_for-Loaded :
    (self_end : ℕ) (m : Metadata) (f : FormatDetails) (l : LoaderEnum) (mem : Memory)
    → loader_for self_end m f ≡ ok l
    → LoadedAs self_end m f l mem []
loader_for-Loaded self_end m (bin a) l mem run = elim (if-cases (ltb a (2 ^ 32)) _ _ run) [
  | inl (t, run') ↦
      (sym (ok-injective _ refl run'), record { start = mem; slices = []; all = refl; is = refl })
  | inr (t, run') ↦ cc
]
loader_for-Loaded self_end m elf l mem run = (sym (ok-injective _ refl run), tt)

module _ (z : Inflate) (self_end : ℕ) {P : Type 0} (crc32 : Crc32)
    (minimal_parse : List ℕ → Outcome P ElfBytes) (m : Metadata) (deflated : List ℕ)
    (mem : Memory) where
  abbrev pub Now : V2 z.I → Type 0
  Now v = DownloadsNow z self_end crc32 minimal_parse m deflated v mem

  pub keeps_state :
      (v : V2 z.I) (s : S)
      → v.state ≡ s
      → Downloads z self_end crc32 minimal_parse m deflated v mem s
      → Now v
  keeps_state v s e h = subst (Downloads z self_end crc32 minimal_parse m deflated v mem) (sym e) h

  pub recv_metadata_in-Now :
      (v : V2 z.I) (timeouts : Timeouts) (sent : Metadata) (s : S)
      → v.state ≡ s
      → Downloads z self_end crc32 minimal_parse m deflated v mem s
      → sent ≡ m
      → Now (recv_metadata_in z v timeouts sent s).0
  recv_metadata_in-Now v timeouts sent request_metadata e h size =
      elim (Bool-cases (accepts sent.format_details)) [
        | inl t ↦ rw t (h.0, h.1, size)
        | inr t ↦ rw t (keeps_state v request_metadata e h)
      ]
  recv_metadata_in-Now v timeouts sent (ack_metadata m') e h size = keeps_state v _ e h
  recv_metadata_in-Now v timeouts sent (request_chunk which count l) e h size = keeps_state v _ e h
  recv_metadata_in-Now v timeouts sent (boot booter) e h size = keeps_state v _ e h

  first_chunk :
      (v v' : V2 z.I) (m' : Metadata) (l : LoaderEnum)
      → Downloads z self_end crc32 minimal_parse m deflated v mem (ack_metadata m')
      → m.deflated_len ≡ length deflated
      → length deflated + chunk_size ≤ 2 ^ 32
      → Loaded self_end m' l mem []
      → v' ≡ record v { state = request_chunk 0 (chunk_count m') l; once = true }
      → Now v'
  first_chunk v v' m' l h size fits loaded e =
      let count : m'.deflated_len ≡ length deflated =
        ap (λ (d : Metadata). d.deflated_len) h.2 ∙ size in
      subst Now (sym e) (record {
        taken = record {
          reached = subst (Reached z) (sym h.0) begins;
          input = inr (ap (λ ys. ys ++ v.pending) (ap z.input h.0 ∙ z.input-new) ∙ h.1);
        };
        loaded =
            subst (λ xs. Loaded self_end m l mem xs) (sym (ap z.output h.0 ∙ z.output-new))
              (subst (λ d. Loaded self_end d l mem []) h.2 loaded);
        enough = omega (arith, count, fits);
      })

  pub recv_metadata_ack_ack_in-Now :
      (v v' : V2 z.I) (is_ok : Bool) (s : S)
      → v.state ≡ s
      → Downloads z self_end crc32 minimal_parse m deflated v mem s
      → m.deflated_len ≡ length deflated
      → length deflated + chunk_size ≤ 2 ^ 32
      → recv_metadata_ack_ack_in z self_end v is_ok s ≡ ok v'
      → Now v'
  recv_metadata_ack_ack_in-Now v v' true (ack_metadata m') e h size fits run =
      let (l, is, run') = >>=-eq-ok (loader_for self_end m' m'.format_details) _ run in
      first_chunk v v' m' l h size fits (loader_for-Loaded self_end m' m'.format_details l mem is)
        (sym (ok-injective _ refl run'))
  recv_metadata_ack_ack_in-Now v v' false (ack_metadata m') e h size fits run =
      subst Now (ok-injective _ refl run) (h.0, h.1)
  recv_metadata_ack_ack_in-Now v v' is_ok request_metadata e h size fits run =
      subst Now (ok-injective _ refl run) (keeps_state v _ e h)
  recv_metadata_ack_ack_in-Now v v' is_ok (request_chunk which count l) e h size fits run =
      subst Now (ok-injective _ refl run) (keeps_state v _ e h)
  recv_metadata_ack_ack_in-Now v v' is_ok (boot booter) e h size fits run =
      subst Now (ok-injective _ refl run) (keeps_state v _ e h)
