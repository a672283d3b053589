-- ===== src/Boot/Protocol/Engine/Download.antt =====
-- The loop of `run` in device/okboot/src/protocol.rs, and the download: the answers of the handshake
-- and of version 2.
use okeanos.Prelude.{
  ℕ, Bool, true, false, List, Option, none, some, Outcome, ok, err, panic, ok-injective, ◌≡◌, refl,
  subst,
}
use okeanos.Frame.Message.{MessageType, SupportedProtocol, try_version}
use okeanos.Boot.Writer.{FrameSink, SendError}
use okeanos.Boot.Protocol.{ProtocolStatus, continue, abcon, abend, switch}
use okeanos.Boot.Protocol.Handshake
use okeanos.Boot.Protocol.Handshake.{
  Handled, Expecting, probe, version, ProtocolEnum, handshake, v2, recv_probe, after_allowed,
  switch_to, recv_use_version,
}
use okeanos.Boot.Protocol.Engine.{
  Next, runs, downloads_legacy, boots, Parts, State, behind_packet, by_reply, run,
}
use okeanos.Boot.Relocation.{Memory}
use okeanos.Boot.V2.{V2}
use okeanos.Boot.V2.Loader.{Metadata}
use okeanos.Boot.V2.Chunk.Order.{DownloadsNow, Finalized}
use okeanos.Boot.V2.Protocol.{Reply, stays, enters}
use okeanos.Boot.V2.Protocol.Download.{Sound}

module _ (p : Parts) (m : Metadata) (deflated : List ℕ) where
  abbrev pub ProtocolSound : ProtocolEnum p.z.I → Memory → Type 0
  ProtocolSound (handshake expecting) mem = Unit
  ProtocolSound (v2 v) mem = DownloadsNow p.z p.self_end p.crc32 p.minimal_parse m deflated v mem

  -- What the loop leads to: it goes on with a sound download, or it boots, with the memory as it is
  -- then, what has passed the loader with all that was inflated of the compressed bytes.
  abbrev pub NextSound : Next (State p) → Type 0
  NextSound (runs s) = ProtocolSound s.protocol s.memory
  NextSound downloads_legacy = Unit
  NextSound (boots booter mem) =
      (i : p.z.I) × (pending : List ℕ) × Finalized p.z p.self_end p.crc32 p.minimal_parse m deflated
        i pending booter mem

  abbrev pub StatusSound : Memory → ProtocolStatus (ProtocolEnum p.z.I) → Type 0
  StatusSound mem (switch pe) = ProtocolSound pe mem
  StatusSound mem status = Unit

  pub by_status-Sound :
      (now : ℕ) (s : State p) (status : ProtocolStatus (ProtocolEnum p.z.I))
      → ProtocolSound s.protocol s.memory
      → StatusSound s.memory status
      → NextSound (behind_packet p now s status)
  by_status-Sound now s continue h k = h
  by_status-Sound now s abcon h k = h
  by_status-Sound now s abend h k = tt
  by_status-Sound now s (switch pe) h k = k

  after_allowed-Sound :
      (mem : Memory) (o : FrameSink × Outcome (SendError p.E) (Unit {0})) (r : Handled p.z.I)
      → after_allowed p.z p.crc32 p.to_slice o ≡ ok r
      → StatusSound mem r.2
  after_allowed-Sound mem (sink, ok u) r run =
      subst (λ (r : Handled p.z.I). StatusSound mem r.2) (ok-injective _ refl run) tt
  after_allowed-Sound mem (sink, err e) r run =
      subst (λ (r : Handled p.z.I). StatusSound mem r.2) (ok-injective _ refl run) tt
  after_allowed-Sound mem (sink, panic) r run = cc

  switch_to-Sound :
      (mem : Memory) (clock_ok : Bool) (now : ℕ) (sink : FrameSink)
      (o : Outcome ℕ SupportedProtocol) (r : Handled p.z.I)
      → switch_to p.z p.crc32 p.to_slice clock_ok now sink o ≡ ok r
      → StatusSound mem r.2
  switch_to-Sound mem true now sink (ok v) r run =
      subst (λ (r : Handled p.z.I). StatusSound mem r.2) (ok-injective _ refl run) (refl, refl)
  switch_to-Sound mem false now sink (ok v) r run =
      subst (λ (r : Handled p.z.I). StatusSound mem r.2) (ok-injective _ refl run) tt
  switch_to-Sound mem clock_ok now sink (err e) r run =
      subst (λ (r : Handled p.z.I). StatusSound mem r.2) (ok-injective _ refl run) tt
  switch_to-Sound mem clock_ok now sink panic r run = cc

  use_version-Sound :
      (mem : Memory) (clock_ok : Bool) (now : ℕ) (expecting : Expecting) (sink : FrameSink)
      (o : Option ℕ) (r : Handled p.z.I)
      → recv_use_version p.z p.crc32 p.to_slice clock_ok now expecting sink o ≡ ok r
      → StatusSound mem r.2
  use_version-Sound mem clock_ok now probe sink o r run =
      subst (λ (r : Handled p.z.I). StatusSound mem r.2) (ok-injective _ refl run) tt
  use_version-Sound mem clock_ok now version sink none r run =
      subst (λ (r : Handled p.z.I). StatusSound mem r.2) (ok-injective _ refl run) tt
  use_version-Sound mem clock_ok now version sink (some v) r run =
      switch_to-Sound mem clock_ok now sink (try_version v) r run

  probe-Sound :
      (mem : Memory) (expecting : Expecting) (sink : FrameSink) (r : Handled p.z.I)
      → recv_probe p.z p.crc32 p.to_slice expecting sink ≡ ok r
      → StatusSound mem r.2
  probe-Sound mem version sink r run =
      subst (λ (r : Handled p.z.I). StatusSound mem r.2) (ok-injective _ refl run) tt
  probe-Sound mem probe sink r run = after_allowed-Sound mem _ r run

  pub handshake-Sound :
      (mem : Memory) (clock_ok : Bool) (now : ℕ) (expecting : Expecting) (sink : FrameSink)
      (t : MessageType) (payload : List ℕ) (r : Handled p.z.I)
      → Handshake.handle_packet p.z p.crc32 p.to_slice p.use_version clock_ok now expecting sink t
          payload
        ≡ ok r
      → StatusSound mem r.2
  unfolding Handshake.handle_packet
  handshake-Sound mem clock_ok now expecting sink MessageType.probe payload r run =
      probe-Sound mem expecting sink r run
  handshake-Sound mem clock_ok now expecting sink MessageType.use_version payload r run =
      use_version-Sound mem clock_ok now expecting sink (p.use_version payload) r run
  handshake-Sound mem clock_ok now expecting sink MessageType.print_string payload r run =
      subst (λ (r : Handled p.z.I). StatusSound mem r.2) (ok-injective _ refl run) tt
  handshake-Sound mem clock_ok now expecting sink MessageType.allowed_versions payload r run =
      subst (λ (r : Handled p.z.I). StatusSound mem r.2) (ok-injective _ refl run) tt
  handshake-Sound mem clock_ok now expecting sink MessageType.metadata_req payload r run =
      subst (λ (r : Handled p.z.I). StatusSound mem r.2) (ok-injective _ refl run) tt
  handshake-Sound mem clock_ok now expecting sink MessageType.metadata payload r run =
      subst (λ (r : Handled p.z.I). StatusSound mem r.2) (ok-injective _ refl run) tt
  handshake-Sound mem clock_ok now expecting sink MessageType.metadata_ack payload r run =
      subst (λ (r : Handled p.z.I). StatusSound mem r.2) (ok-injective _ refl run) tt
  handshake-Sound mem clock_ok now expecting sink MessageType.metadata_ack_ack payload r run =
      subst (λ (r : Handled p.z.I). StatusSound mem r.2) (ok-injective _ refl run) tt
  handshake-Sound mem clock_ok now expecting sink MessageType.chunk_req payload r run =
      subst (λ (r : Handled p.z.I). StatusSound mem r.2) (ok-injective _ refl run) tt
  handshake-Sound mem clock_ok now expecting sink MessageType.chunk payload r run =
      subst (λ (r : Handled p.z.I). StatusSound mem r.2) (ok-injective _ refl run) tt
  handshake-Sound mem clock_ok now expecting sink MessageType.booting payload r run =
      subst (λ (r : Handled p.z.I). StatusSound mem r.2) (ok-injective _ refl run) tt
  handshake-Sound mem clock_ok now expecting sink MessageType.booting_ack payload r run =
      subst (λ (r : Handled p.z.I). StatusSound mem r.2) (ok-injective _ refl run) tt

  pub reply-Sound :
      (now : ℕ) (s : State p) (v : V2 p.z.I) (reply : Reply p.z.I (ProtocolEnum p.z.I))
      → Sound p.z p.self_end p.crc32 p.minimal_parse m deflated v reply
      → NextSound (by_reply p now s reply)
  reply-Sound now s v (stays v' mem timeouts continue) h = h
  reply-Sound now s v (stays v' mem timeouts abcon) h = h
  reply-Sound now s v (stays v' mem timeouts abend) h = tt
  reply-Sound now s v (stays v' mem timeouts (switch pe)) h = absurd h
  reply-Sound now s v (enters booter mem) h = (v.inflate_state, v.pending, h)
