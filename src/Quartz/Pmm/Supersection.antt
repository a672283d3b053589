-- ===== src/Quartz/Pmm/Supersection.antt =====
-- device/quartz/src/arch/arm1176/pmm.rs: supersections, which are taken from the mask and put back.
use okeanos.Prelude.{
  ℕ, zero, suc, ◌+◌, ◌-◌, ◌*◌, ◌/◌, ◌%◌, ◌^◌, ◌<◌, bit_or, true, false, List, [], ◌∷◌, ◌==◌,
  test_of_eq, test_of_ne, pos_of_test, eq_of_test, Bool-cases, ltb, ltb_of_lt, length, get_or, ok,
  err, ◌≡◌, ◌⊎◌, inl, inr, refl, sym, ap, ap₂, ◌∙◌, arith,
}
use okeanos.Prelude.Words.{bit_or-fields}
use okeanos.Prelude.Words.Highest.{leading_zeros, Cleared, clear_highest}
use okeanos.Quartz.Pmm.{Pmm, supersection, out_of_memory, count_up, count_down}
use okeanos.Quartz.Pmm.Allocate.{allocate_region}
use okeanos.Quartz.Pmm.Release.{mark_free_supersection, deallocate_region}

-- The words of the manager are words.
pub record IsSane (st : Pmm) : Type 0 where
  pub mask_in : st.supersection_mask < 2 ^ 32
  pub four_counts : length st.allocated_counts ≡ 4
  pub count_in : get_or st.allocated_counts 3 0 < 2 ^ 32

-- A supersection that was free is taken, and giving it back restores the manager.
pub record Taken (st : Pmm) : Type 0 where
  pub ss_no : ℕ
  pub after : Pmm
  pub in_range : ss_no < 32
  pub returns : allocate_region st supersection ≡ ok (after, ss_no * (16 * (1024 * 1024)))
  pub was_free : after.supersection_mask + 2 ^ ss_no ≡ st.supersection_mask
  pub no_higher : after.supersection_mask < 2 ^ ss_no
  pub restored : deallocate_region after (ss_no * (16 * (1024 * 1024))) supersection ≡ ok st

count_down-count_up :
    (counts : List ℕ) (i : ℕ)
    → get_or counts i 0 < 2 ^ 32
    → count_down (count_up counts i) i ≡ counts
count_down-count_up [] i h = refl
count_down-count_up (c ∷ counts) zero h = ap (λ k. k ∷ counts) (omega (arith, h))
count_down-count_up (c ∷ counts) (suc i) h = ap (◌∷◌ c) (count_down-count_up counts i h)

abbrev taken_from : Pmm → ℕ → Pmm
taken_from st mask = record st {
  supersection_mask = mask;
  allocated_counts = count_up st.allocated_counts 3;
}

take_returns :
    (st : Pmm) (c : Cleared 32 st.supersection_mask)
    → 0 < st.supersection_mask
    → allocate_region st supersection
      ≡ ok (taken_from st c.top.below, c.top.place * (16 * (1024 * 1024)))
unfolding allocate_region
take_returns st c pos =
    let nonzero : (st.supersection_mask == 0) ≡ false =
      test_of_ne _ 0 (λ e. omega (arith, e, pos)) in
    let no : 31 - leading_zeros 32 st.supersection_mask ≡ c.top.place =
      omega (arith, c.top.zeros_are) in
    let in' : ltb c.top.place 0x20 ≡ true = ltb_of_lt _ _ (omega (arith, c.top.place_in)) in
    rw (nonzero, no, in', c.rest_is) refl

restore_returns :
    (st : Pmm) (c : Cleared 32 st.supersection_mask)
    → IsSane st
    → deallocate_region
        (taken_from st c.top.below)
        (c.top.place * (16 * (1024 * 1024)))
        supersection
      ≡ ok st
unfolding deallocate_region mark_free_supersection
restore_returns st c sane =
    let n = c.top.place in
    let aligned : (n * 0x100_0000 % 0x100_0000 == 0) ≡ true = test_of_eq _ _ (omega arith) in
    let no : n * 0x100_0000 / 0x100_0000 ≡ n = omega arith in
    let small : n % 32 ≡ n = omega (arith, c.top.place_in) in
    let bit : 1 * 2 ^ n ≡ 2 ^ n = omega arith in
    let mask : bit_or c.top.below (2 ^ n) ≡ st.supersection_mask =
      ap (bit_or c.top.below) (sym bit)
      ∙ bit_or-fields n c.top.below 1 c.top.below_lt
      ∙ omega (arith, c.top.is) in
    rw (aligned, no, small)
      (ap₂ (λ m counts. ok (record st { supersection_mask = m; allocated_counts = counts })) mask
        (count_down-count_up st.allocated_counts 3 sane.count_in))

-- If the words of the manager are words: with an empty mask the allocation of a supersection fails for
-- want of memory; else it returns the address of the highest that is free, and giving that one back
-- restores the manager as it was.
pub deallocate-allocate_supersection :
    (st : Pmm)
    → IsSane st
    → ((st.supersection_mask ≡ 0) × (allocate_region st supersection ≡ err out_of_memory))
      ⊎ Taken st
unfolding allocate_region
deallocate-allocate_supersection st sane = elim (Bool-cases (st.supersection_mask == 0)) [
  | inl none_free ↦ inl (eq_of_test _ _ none_free, rw none_free refl)
  | inr some_free ↦
      let pos = pos_of_test _ some_free in
      let c = clear_highest 32 st.supersection_mask pos sane.mask_in in
      inr (record {
        ss_no = c.top.place;
        after = taken_from st c.top.below;
        in_range = omega (arith, c.top.place_in);
        returns = take_returns st c pos;
        was_free = omega (arith, c.top.is);
        no_higher = c.top.below_lt;
        restored = restore_returns st c sane;
      })
]
