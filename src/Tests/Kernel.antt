-- ===== src/Tests/Kernel.antt =====
-- The kernel's memory manager and ticket lock at concrete inputs (device/quartz).
use okeanos.Prelude.{ℕ, zero, ◌+◌, ◌*◌, [], ◌∷◌, ok, err, ◌≡◌, ◌⊎◌, refl, arith}
use okeanos.Prelude.Words.Highest.{Cleared, leading_zeros}
use okeanos.Quartz.Pmm.{
  Pmm, RegionInfo, supersection, large_page, small_page, out_of_memory, from_self_ptr, set_region,
  chain_end,
}
use okeanos.Quartz.Pmm.Allocate.{allocate_region, commit}
use okeanos.Quartz.Pmm.Supersection.{Taken, deallocate-allocate_supersection}
use okeanos.Quartz.Pmm.Pages.{commit-page_behind}
use okeanos.Quartz.TicketLock.{
  System, Run, start, step, take, enter, holding, spinning, initial, at, owner, next, take_ticket,
}
use okeanos.Quartz.TicketLock.Exclusion.{run-one_holder}

deallocate-allocate_supersection_example :
    ((from_self_ptr.supersection_mask ≡ 0)
      × (allocate_region from_self_ptr supersection ≡ err out_of_memory))
    ⊎ Taken from_self_ptr
deallocate-allocate_supersection_example =
    deallocate-allocate_supersection from_self_ptr
      (record { mask_in = omega arith; four_counts = refl; count_in = omega arith })

-- A manager with one large page, of which the pages 0 to 3 are free.
abbrev four_free : RegionInfo
four_free = record { bitmap = 0xf; next = chain_end; prev = chain_end }

abbrev one_page : Pmm
one_page = record from_self_ptr { regions = four_free ∷ [] }

unfoldable highest_of_four : Cleared 16 0xf
unfolding leading_zeros
highest_of_four = record {
  top = record {
    place = 3;
    below = 7;
    place_in = omega arith;
    zeros_are = refl;
    is = refl;
    below_lt = omega arith;
  };
  bit_is = refl;
  rest_is = refl;
}

commit-page_behind_example :
    commit one_page 0 large_page small_page
    ≡ ok (
      set_region one_page 0 (record four_free { bitmap = highest_of_four.top.below }),
      (0 * 16 + highest_of_four.top.place + 1) * 4096,
    )
unfolding highest_of_four
commit-page_behind_example =
    commit-page_behind one_page 0 highest_of_four (omega arith) (omega arith) (omega arith)
      (omega arith)

-- Two threads have taken tickets, and the first has come out of the loop.
abbrev first_took : System
first_took = at initial (take_ticket 0) 7 (spinning 0 0)

abbrev both_took : System
both_took =
    at first_took (take_ticket first_took.raw) 8
      (spinning (owner first_took.raw) (next first_took.raw))

abbrev first_holds : System
first_holds = at both_took both_took.raw 7 (holding 0)

first_holds_run : Run 2 first_holds
first_holds_run = step (step (step start (take 7 refl)) (take 8 refl)) (enter 7 0 refl)

abbrev seven : ℕ
seven = 7

run-one_holder_example : (seven ≡ seven) × (zero ≡ owner first_holds.raw)
run-one_holder_example =
    run-one_holder 2 first_holds 7 7 0 0 first_holds_run (omega arith) refl refl
