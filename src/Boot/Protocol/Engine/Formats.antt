-- ===== src/Boot/Protocol/Engine/Formats.antt =====
-- What the loop of `run` in device/okboot/src/protocol.rs boots, by the format of the file.
use okeanos.Boot.Relocation
use okeanos.Boot.Relocation.{Relocation}
