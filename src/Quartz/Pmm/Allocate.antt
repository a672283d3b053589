-- ===== src/Quartz/Pmm/Allocate.antt =====
-- device/quartz/src/arch/arm1176/pmm.rs: a free region is looked for, and larger ones are split for it.
use okeanos.Prelude.{
  ℕ, zero, suc, ◌+◌, ◌-◌, ◌*◌, ◌/◌, ◌%◌, ◌^◌, bit_and, ◌&&◌, Bool, true, false, List, [], ◌∷◌,
  Option, none, some, ◌==◌, ltb, leb, if◌then◌else◌, ok, err, panic, ◌>>=◌,
}
use okeanos.Prelude.Words.Highest.{leading_zeros}
use okeanos.Quartz.Pmm.{
  Pmm, RegionKind, small_page, large_page, section, supersection, out_of_memory, Run, next_smallest,
  ss_ptr, s_ptr, lp_ptr, sp_ptr, ss_idx, s_idx, lp_idx, region_at, set_region, count_up, count_no,
  unfloat, float, floating_list,
}

-- The beginning of `commit`: the highest free bit of the region is taken. The state and `child_no`.
unfoldable pub take_child : Pmm → ℕ → RegionKind → Run (Pmm × ℕ)
take_child st pred kind = region_at st pred >>= λ r.
    let lz = leading_zeros 16 r.bitmap in
    let bitmap = bit_and r.bitmap (2 ^ 16 - 1 - 2 ^ 15 / 2 ^ (lz % 16)) in
    let st' = set_region st pred (record r { bitmap = bitmap }) in
    (if bitmap == 0 then unfloat st' pred kind else ok st') >>= λ st''. ok (st'', 16 - lz)

abbrev pub is_kind : RegionKind → RegionKind → Bool
is_kind small_page small_page = true
is_kind large_page large_page = true
is_kind section section = true
is_kind supersection supersection = true
is_kind a b = false

abbrev pub with_pointer : Pmm → Run ℕ → Run (Pmm × ℕ)
with_pointer st m = m >>= λ p. ok (st, p)

-- `commit`, by the kind of the region that is split.
unfoldable pub commit_large_page : Pmm → ℕ → RegionKind → Run (Pmm × ℕ)
commit_large_page st pred alloc_kind = take_child st pred large_page >>= λ r.
    if ltb pred 0x2000
    then (if is_kind alloc_kind small_page
        then with_pointer r.0 (sp_ptr (r.1 + pred * 16))
        else panic)
    else panic

unfoldable pub commit_section : Pmm → ℕ → RegionKind → Run (Pmm × ℕ)
commit_section st pred alloc_kind = take_child st pred section >>= λ r.
    let lp_no = r.1 + (pred - 0x2000) * 16 in
    if leb 0x2000 pred && ltb (pred - 0x2000) 0x200
    then (if is_kind alloc_kind large_page
        then with_pointer r.0 (lp_ptr lp_no)
        else (lp_idx lp_no >>= λ idx. commit_large_page r.0 idx alloc_kind))
    else panic

unfoldable pub commit_supersection : Pmm → ℕ → RegionKind → Run (Pmm × ℕ)
commit_supersection st pred alloc_kind = take_child st pred supersection >>= λ r.
    let s_no = r.1 + (pred - 0x2200) * 16 in
    if leb 0x2200 pred && ltb (pred - 0x2200) 0x20
    then (if is_kind alloc_kind section
        then with_pointer r.0 (s_ptr s_no)
        else (s_idx s_no >>= λ idx. commit_section r.0 idx alloc_kind))
    else panic

abbrev pub commit : Pmm → ℕ → RegionKind → RegionKind → Run (Pmm × ℕ)
commit st pred small_page alloc_kind = panic
commit st pred large_page alloc_kind = commit_large_page st pred alloc_kind
commit st pred section alloc_kind = commit_section st pred alloc_kind
commit st pred supersection alloc_kind = commit_supersection st pred alloc_kind

-- An allocation that succeeded is counted.
abbrev pub counted : RegionKind → Pmm × ℕ → Pmm × ℕ
counted kind (st, p) =
    (record st { allocated_counts = count_up st.allocated_counts (count_no kind) }, p)

-- Where the loop of `allocate_region` has looked through all kinds: a supersection is split.
abbrev split_supersection : Pmm → RegionKind → Run (Pmm × ℕ)
split_supersection st kind =
    let lz = leading_zeros 32 st.supersection_mask in
    let ss_no = 31 - lz in
    let st' = record st {
      supersection_mask = bit_and st.supersection_mask (2 ^ 32 - 1 - 2 ^ 31 / 2 ^ lz);
    } in
    if st.supersection_mask == 0
    then err out_of_memory
    else if is_kind kind supersection
    then (ss_ptr ss_no >>= λ p. ok (counted supersection (st', p)))
    else (ss_idx ss_no >>= λ idx.
        (float st' idx supersection >>= λ st''.
        (commit_supersection st'' idx kind >>= λ r. ok (counted kind r))))

-- The kinds that the loop of `allocate_region` goes through; three rounds lead from any kind to the last.
abbrev pub kinds_from : ℕ → Option RegionKind → List RegionKind
kinds_from zero kind = []
kinds_from (suc rounds) none = []
kinds_from (suc rounds) (some kind) = kind ∷ kinds_from rounds (next_smallest kind)

abbrev pub kinds_above : RegionKind → List RegionKind
kinds_above kind = kinds_from 3 (next_smallest kind)

-- A turn of the loop: the first region that floats is split.
abbrev allocate_at :
    Pmm → RegionKind → RegionKind → Run (Pmm × ℕ) → Option (Option ℕ) → Run (Pmm × ℕ)
allocate_at st kind k rest none = panic
allocate_at st kind k rest (some none) = rest
allocate_at st kind k rest (some (some idx)) = commit st idx k kind >>= λ r. ok (counted kind r)

abbrev pub allocate_from : Pmm → RegionKind → List RegionKind → Run (Pmm × ℕ)
allocate_from st kind [] = split_supersection st kind
allocate_from st kind (k ∷ ks) =
    let rest = allocate_from st kind ks in allocate_at st kind k rest (floating_list st k)

unfoldable pub allocate_region : Pmm → RegionKind → Run (Pmm × ℕ)
allocate_region st kind = allocate_from st kind (kinds_above kind)
