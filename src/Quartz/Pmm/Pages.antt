-- ===== src/Quartz/Pmm/Pages.antt =====
-- device/quartz/src/arch/arm1176/pmm.rs, `commit`: the page that it marks and the page that it returns.
use okeanos.Prelude.{
  ℕ, ◌+◌, ◌-◌, ◌*◌, ◌%◌, ◌<◌, true, false, ◌==◌, test_of_ne, ltb, ltb_of_lt, length, get_or, ok,
  ◌≡◌, refl, arith,
}
use okeanos.Prelude.Words.Highest.{leading_zeros, Cleared}
use okeanos.Quartz.Pmm.{Pmm, large_page, small_page, blank, set_region}
use okeanos.Quartz.Pmm.Allocate.{take_child, commit, commit_large_page}

-- Of a large page with at least two free small pages, commit marks the highest free one as used, and
-- returns the address of the one behind it, which was in use before, or lies in the next large page. The
-- page that is returned is below the end of the memory.
pub commit-page_behind :
    (st : Pmm) (pred : ℕ)
    → let r = get_or st.regions pred blank in
      (c : Cleared 16 r.bitmap)
      → pred < 0x2000
      → pred < length st.regions
      → 0 < c.top.below
      → pred * 16 + c.top.place + 1 < 0x20000
      → commit st pred large_page small_page
        ≡ ok (
          set_region st pred (record r { bitmap = c.top.below }),
          (pred * 16 + c.top.place + 1) * 4096,
        )
unfolding commit_large_page take_child
commit-page_behind st pred c low in_regions more in_memory =
    let r = get_or st.regions pred blank in
    let found : ltb pred (length st.regions) ≡ true = ltb_of_lt _ _ in_regions in
    let is_large : ltb pred 0x2000 ≡ true = ltb_of_lt _ _ low in
    let left : (c.top.below == 0) ≡ false = test_of_ne _ 0 (λ e. omega (arith, e, more)) in
    let shift : leading_zeros 16 r.bitmap % 16 ≡ leading_zeros 16 r.bitmap =
      omega (arith, c.top.zeros_are) in
    let no : 16 - leading_zeros 16 r.bitmap + pred * 16 ≡ pred * 16 + c.top.place + 1 =
      omega (arith, c.top.zeros_are) in
    let is_page : ltb (pred * 16 + c.top.place + 1) 0x20000 ≡ true = ltb_of_lt _ _ in_memory in
    rw (found, shift, c.rest_is, left, is_large, no, is_page) refl
