-- ===== src/Boot/Protocol/Engine/Boots.antt =====
-- What the loop of `run` in device/okboot/src/protocol.rs boots.
use okeanos.Prelude.{ℕ, ◌+◌, ◌≤◌, ◌^◌, List, length, ◌≡◌}
use okeanos.Boot.Receive
use okeanos.Boot.Receive.{ReceiveBuffer, push_u8}
use okeanos.Boot.Protocol.Engine.{Parts, State}
use okeanos.Boot.V2.{chunk_size, V2}
use okeanos.Boot.V2.Chunk.Input.{StopsAtEnd}
use okeanos.Boot.V2.Loader.{Metadata}
use okeanos.Boot.Protocol.Engine.Download.{ProtocolSound}

module _ (p : Parts) (stops : StopsAtEnd p.z) (m : Metadata) (deflated : List ℕ)
    (size : m.deflated_len ≡ length deflated) (fits : length deflated + chunk_size ≤ 2 ^ 32) where
  record Good (s : State p) : Type 0 where
    sound : ProtocolSound p m deflated s.protocol s.memory
