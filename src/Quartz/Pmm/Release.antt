-- ===== src/Quartz/Pmm/Release.antt =====
-- device/quartz/src/arch/arm1176/pmm.rs: regions given back.
use okeanos.Prelude.{ℕ, ◌/◌, ◌%◌, ◌^◌, bit_or, ◌==◌, if◌then◌else◌, ok, panic, ◌>>=◌}
use okeanos.Quartz.Pmm.{
  Pmm, RegionKind, small_page, large_page, section, supersection, Run, size, ss_idx, s_idx, lp_idx,
  region_at, set_region, count_down, count_no, unfloat, float,
}

-- `mark_free_recursive` at a parent: its bit is set, and a parent that is free as a whole is marked free
-- in its own parent.
abbrev free_child : Pmm → ℕ → ℕ → RegionKind → (Pmm → ℕ → Run Pmm) → Run Pmm
free_child st region_no parent_idx parent_kind mark_parent = region_at st parent_idx >>= λ r.
    let bitmap_new = bit_or r.bitmap (2 ^ (region_no % 16)) in
    let st' = set_region st parent_idx (record r { bitmap = bitmap_new }) in
    if bitmap_new == 0xffff
    then (unfloat st' parent_idx parent_kind >>= λ st''. mark_parent st'' (region_no / 16))
    else if r.bitmap == 0
    then float st' parent_idx parent_kind
    else ok st'

unfoldable pub mark_free_supersection : Pmm → ℕ → Run Pmm
mark_free_supersection st region_no =
    ok (record st { supersection_mask = bit_or st.supersection_mask (2 ^ (region_no % 32)) })

unfoldable pub mark_free_section : Pmm → ℕ → Run Pmm
mark_free_section st region_no = ss_idx (region_no / 16) >>= λ idx.
    free_child st region_no idx supersection mark_free_supersection

unfoldable pub mark_free_large_page : Pmm → ℕ → Run Pmm
mark_free_large_page st region_no =
    s_idx (region_no / 16) >>= λ idx. free_child st region_no idx section mark_free_section

unfoldable pub mark_free_small_page : Pmm → ℕ → Run Pmm
mark_free_small_page st region_no =
    lp_idx (region_no / 16) >>= λ idx. free_child st region_no idx large_page mark_free_large_page

-- `mark_free_recursive`, by the kind.
abbrev pub mark_free_recursive : Pmm → ℕ → RegionKind → Run Pmm
mark_free_recursive st region_no small_page = mark_free_small_page st region_no
mark_free_recursive st region_no large_page = mark_free_large_page st region_no
mark_free_recursive st region_no section = mark_free_section st region_no
mark_free_recursive st region_no supersection = mark_free_supersection st region_no

unfoldable pub deallocate_region : Pmm → ℕ → RegionKind → Run Pmm
deallocate_region st region kind =
    if region % size kind == 0
    then (mark_free_recursive st (region / size kind) kind >>= λ st'.
        ok (record st' { allocated_counts = count_down st'.allocated_counts (count_no kind) }))
    else panic
