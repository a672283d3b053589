-- ===== src/Quartz/TicketLock.antt =====
-- device/quartz/src/arch/arm1176/sync/ticket.rs: the ticket lock, with any number of threads. The exclusive
-- load and store around an addition are one step, as a store that fails is tried again.
pub mod Exclusion
use okeanos.Prelude.{ℕ, zero, suc, ◌+◌, ◌%◌, ◌/◌, ◌^◌, ◌==◌, if◌then◌else◌, ◌≡◌, ◌≢◌}

-- The fields of the word: `owner` is its low half, `next` its high half.
abbrev pub owner : ℕ → ℕ
owner raw = raw % 2 ^ 16

abbrev pub next : ℕ → ℕ
next raw = raw / 2 ^ 16 % 2 ^ 16

-- The addition of `NEXT_LSB`, and that of 1 in `unlock`, to the whole word.
unfoldable pub take_ticket : ℕ → ℕ
take_ticket raw = (raw + 2 ^ 16) % 2 ^ 32

unfoldable pub release : ℕ → ℕ
release raw = (raw + 1) % 2 ^ 32

-- A thread in `lock`, with the owner that it saw last and its ticket, or with the lock.
pub data Thread : Type 0 where
  idle : Thread
  spinning : ℕ → ℕ → Thread
  holding : ℕ → Thread

pub record System : Type 0 where
  pub raw : ℕ
  pub threads : ℕ → Thread

abbrev pub at : System → ℕ → ℕ → Thread → System
at s raw i t = record { raw = raw; threads = λ j. if j == i then t else s.threads j }

abbrev pub initial : System
initial = record { raw = 0; threads = λ i. idle }

-- The steps; the number tells how many tickets a step takes.
pub data Step (s : System) : ℕ → System → Type 0 where
  -- `lock`: the addition
  take :
      (i : ℕ)
      → s.threads i ≡ idle
      → Step s 1 (at s (take_ticket s.raw) i (spinning (owner s.raw) (next s.raw)))
  -- the body of the loop
  look :
      (i o t : ℕ)
      → s.threads i ≡ spinning o t
      → o ≢ t
      → Step s 0 (at s s.raw i (spinning (owner s.raw) t))
  -- the end of the loop
  enter : (i t : ℕ) → s.threads i ≡ spinning t t → Step s 0 (at s s.raw i (holding t))
  -- `try_lock` that returns `true`; one that returns `false` changes nothing
  try_lock :
      (i : ℕ)
      → s.threads i ≡ idle
      → owner s.raw ≡ next s.raw
      → Step s 1 (at s (take_ticket s.raw) i (holding (next s.raw)))
  unlock : (i t : ℕ) → s.threads i ≡ holding t → Step s 0 (at s (release s.raw) i idle)

-- Steps one after the other, with the number of tickets that they take.
pub data Run : ℕ → System → Type 0 where
  start : Run 0 initial
  step : {n k : ℕ} {s s' : System} → Run n s → Step s k s' → Run (n + k) s'
