-- ===== src/Boot/Timeouts.antt =====
-- device/okboot/src/timeouts.rs, and `Timeouts` of device/okboot/src/protocol.rs: times that follow
-- from a number of bytes and the baud rate, in microseconds.
use okeanos.Prelude.{ℕ, ◌+◌, ◌-◌, ◌*◌, ◌/◌, ◌≤◌, ◌<◌, Option, none, arith}

-- `RateRelativeTimeout::at_baud_8n1`. A rate of 0, for a baud rate below 10, is a panic in the source.
unfoldable pub at_baud_8n1 : ℕ → ℕ → ℕ
at_baud_8n1 bytes baud =
    let byte_rate = baud / 10 in (bytes * 1_000_000 + byte_rate - 1) / byte_rate

pub record Timeouts : Type 0 where
  pub error_recovery : ℕ
  pub byte_read : ℕ
  pub session_expires : ℕ
  pub override_session_timeout : Option ℕ

-- `Timeouts::new_8n1`
unfoldable pub new_8n1 : ℕ → Timeouts
new_8n1 baud = record {
  error_recovery = at_baud_8n1 12 baud;
  byte_read = at_baud_8n1 2 baud;
  session_expires = at_baud_8n1 12288 baud;
  override_session_timeout = none;
}

-- `GET_PROG_INFO_INTERVAL`
abbrev pub get_prog_info_interval : ℕ
get_prog_info_interval = 300_000

-- A quotient that is rounded up is the least bound.
ceiling_lem :
    (n d : ℕ) → 0 < d → let t = (n + d - 1) / d in (n ≤ t * d) × ((s : ℕ) → n ≤ s * d → t ≤ s)
ceiling_lem n d h = (below, least)
  where
    below : n ≤ (n + d - 1) / d * d
    below = grind (arith, h)

    least : (s : ℕ) → n ≤ s * d → (n + d - 1) / d ≤ s
    least s k = grind (arith, h, k)

-- From a baud rate of 10 on, the timeout is the least number of microseconds in which so many bytes
-- pass at ten bits to a byte.
pub at_baud_8n1_lem :
    (bytes baud : ℕ)
    → 10 ≤ baud
    → let t = at_baud_8n1 bytes baud in
      (bytes * 1_000_000 ≤ t * (baud / 10))
      × ((s : ℕ) → bytes * 1_000_000 ≤ s * (baud / 10) → t ≤ s)
unfolding at_baud_8n1
at_baud_8n1_lem bytes baud h = ceiling_lem (bytes * 1_000_000) (baud / 10) (omega arith)
