-- ===== src/Frame/Message/Laws.antt =====
-- The numbers of the message types of common/okboot-common/src/lib.rs.
use okeanos.Prelude.{ℕ, ◌<◌, ◌^◌, some, ◌≡◌, refl, arith}
use okeanos.Frame.Message.{MessageType, print_string, to_u32, try_from}

pub try_from-to_u32 : (m : MessageType) → try_from (to_u32 m) ≡ some m
unfolding try_from to_u32
try_from-to_u32 print_string = refl
try_from-to_u32 _ = refl

-- A number that is read as a message type is the number of that type.
pub to_u32-try_from : (n : ℕ) (m : MessageType) → try_from n ≡ some m → to_u32 m ≡ n
unfolding try_from to_u32
to_u32-try_from n print_string h = ground arith
to_u32-try_from n _ h = ground arith

pub to_u32-lt : (m : MessageType) → to_u32 m < 2 ^ 32
unfolding to_u32
to_u32-lt print_string = omega arith
to_u32-lt _ = omega arith
