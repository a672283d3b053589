-- ===== src/Quartz/Pmm/Start.antt =====
-- device/quartz/src/arch/arm1176/pmm.rs, `initialize_once`: what is in use at the start is marked.
use okeanos.Prelude.{
  ℕ, zero, suc, ◌+◌, ◌-◌, ◌*◌, ◌/◌, ◌%◌, ◌^◌, bit_and, List, [], ◌∷◌, map, ◌==◌, leb, if◌then◌else◌,
  ok, panic, ◌>>=◌,
}
use okeanos.Quartz.Pmm.{
  Pmm, RegionKind, large_page, section, supersection, Run, chain_end, sp_ptr, ss_idx, s_idx, lp_idx,
  region_at, set_region, count_up, float,
}

-- The bitmap of a region with a bit cleared.
abbrev clear_bit : Pmm → ℕ → ℕ → Run Pmm
clear_bit st idx j = region_at st idx >>= λ r.
    ok (set_region st idx (record r { bitmap = bit_and r.bitmap (2 ^ 16 - 1 - 2 ^ (j % 16)) }))

abbrev count_used : ℕ → Pmm → Pmm
count_used i st = record st { allocated_counts = count_up st.allocated_counts i }

-- The inner `while`: the used regions that end on the page; none that is left ends the outer loop.
abbrev skip_ended : ℕ → List (ℕ × ℕ) → List (ℕ × ℕ)
skip_ended page_end [] = []
skip_ended page_end (u ∷ used) =
    let rest = skip_ended page_end used in if leb u.1 page_end then rest else u ∷ used

abbrev next_page : (List (ℕ × ℕ) → Pmm → Run Pmm) → List (ℕ × ℕ) → Pmm → Run Pmm
next_page loop [] st = ok st
next_page loop (u ∷ used) st = loop (u ∷ used) st

-- A turn of the first loop. There is no `used_regions[0]` where the list is empty.
abbrev mark_page : ℕ → ℕ → ℕ → (List (ℕ × ℕ) → Pmm → Run Pmm) → List (ℕ × ℕ) → Pmm → Run Pmm
mark_page j page page_end loop [] st = panic
mark_page j page page_end loop (u ∷ used) st =
    if leb page_end u.0
    then loop (u ∷ used) st
    else (lp_idx (j / 16) >>= λ idx.
        (clear_bit (count_used 0 st) idx j >>= λ st'.
        next_page loop (skip_ended page_end (u ∷ used)) st'))

-- The first loop, with the pages that are left to it and the next one.
unfoldable pub mark_pages : ℕ → ℕ → List (ℕ × ℕ) → Pmm → Run Pmm
mark_pages zero j used st = ok st
mark_pages (suc left) j used st = sp_ptr j >>= λ page.
    (sp_ptr (j + 1) >>= λ page_end.
    mark_page j page page_end (λ used' st'. mark_pages left (j + 1) used' st') used st)

-- `for j in from..from + left`
unfoldable pub for_range : ℕ → ℕ → (ℕ → Pmm → Run Pmm) → Pmm → Run Pmm
for_range zero from body st = ok st
for_range (suc left) from body st = body from st >>= λ st'. for_range left (from + 1) body st'

-- What the next two loops do with the child `j` of `i`: one that is not free as a whole is marked in its
-- parent, and floats if it is not full.
abbrev mark_child : (ℕ → Run ℕ) → (ℕ → Run ℕ) → RegionKind → ℕ → ℕ → ℕ → Pmm → Run Pmm
mark_child child_idx parent_idx kind count i j st = child_idx j >>= λ idx.
    (region_at st idx >>= λ r.
    if r.bitmap == 0xffff
    then ok st
    else (parent_idx i >>= λ parent.
        (clear_bit (count_used count st) parent j >>= λ st'.
        if r.bitmap == 0 then ok st' else float st' idx kind)))

abbrev mark_section : ℕ → Pmm → Run Pmm
mark_section i st = for_range 16 (i * 16) (mark_child lp_idx s_idx large_page 1 i) st

abbrev mark_supersection : ℕ → Pmm → Run Pmm
mark_supersection i st = for_range 16 (i * 16) (mark_child s_idx ss_idx section 2 i) st

abbrev mark_mask : ℕ → Pmm → Run Pmm
mark_mask i st = ss_idx i >>= λ idx.
    (region_at st idx >>= λ r.
    let st' = record (count_used 3 st) {
      supersection_mask = bit_and st.supersection_mask (2 ^ 32 - 1 - 2 ^ i);
    } in
    if r.bitmap == 0xffff
    then ok st
    else if r.bitmap == 0
    then ok st'
    else float st' idx supersection)

abbrev cleared : Pmm → Pmm
cleared st = record st {
  supersection_mask = 0xffff_ffff;
  regions = map (λ r. record { bitmap = 0xffff; next = chain_end; prev = chain_end }) st.regions;
}

unfoldable pub initialize_once : List (ℕ × ℕ) → Pmm → Run Pmm
initialize_once used_regions st = mark_pages 0x2_0000 0 used_regions (cleared st) >>= λ st1.
    (for_range 0x200 0 mark_section st1 >>= λ st2.
    (for_range 0x20 0 mark_supersection st2 >>= λ st3. for_range 32 0 mark_mask st3))
