-- ===== src/Quartz/Pmm.antt =====
-- device/quartz/src/arch/arm1176/pmm.rs: the physical memory manager. Pointers are addresses. The counts
-- are 32-bit words that wrap, as in a build without overflow checks; a shift takes its amount modulo the width.
pub mod Allocate
pub mod Release
pub mod Start
pub mod Supersection
pub mod Pages
use okeanos.Prelude.{
  ℕ, zero, suc, ◌+◌, ◌-◌, ◌*◌, ◌/◌, ◌%◌, ◌^◌, bit_and, ◌&&◌, Bool, true, false, List, [], ◌∷◌,
  Option, none, some, ◌==◌, ltb, leb, if◌then◌else◌, length, get_or, set, replicate, Outcome, ok,
  err, panic, ◌>>=◌,
}
use okeanos.Prelude.Words.Highest.{leading_zeros}

pub record RegionInfo : Type 0 where
  pub bitmap : ℕ
  pub next : ℕ
  pub prev : ℕ

abbrev pub chain_end : ℕ
chain_end = 0xffff

pub record Pmm : Type 0 where
  pub floating_lists : List (Option ℕ)
  pub regions : List RegionInfo
  pub supersection_mask : ℕ
  pub floating_counts : List ℕ
  pub allocated_counts : List ℕ

pub data RegionKind : Type 0 where
  small_page : RegionKind
  large_page : RegionKind
  section : RegionKind
  supersection : RegionKind

-- `PMMAllocError`
pub data AllocError : Type 0 where
  out_of_memory : AllocError

abbrev pub Run : Type 0 → Type 0
Run A = Outcome AllocError A

abbrev pub next_smallest : RegionKind → Option RegionKind
next_smallest small_page = some large_page
next_smallest large_page = some section
next_smallest section = some supersection
next_smallest supersection = none

abbrev pub size : RegionKind → ℕ
size small_page = 4 * 1024
size large_page = 64 * 1024
size section = 1024 * 1024
size supersection = 16 * (1024 * 1024)

-- A number below a bound, or a failed assertion.
abbrev pub asserted : ℕ → ℕ → ℕ → Run ℕ
asserted n bound value = if ltb n bound then ok value else panic

abbrev pub ss_ptr : ℕ → Run ℕ
ss_ptr ss_no = asserted ss_no 0x20 (ss_no * (16 * (1024 * 1024)))

abbrev pub s_ptr : ℕ → Run ℕ
s_ptr s_no = asserted s_no 0x200 (s_no * (1024 * 1024))

abbrev pub lp_ptr : ℕ → Run ℕ
lp_ptr lp_no = asserted lp_no 0x2000 (lp_no * (64 * 1024))

abbrev pub sp_ptr : ℕ → Run ℕ
sp_ptr sp_no = asserted sp_no 0x20000 (sp_no * (4 * 1024))

abbrev pub ss_idx : ℕ → Run ℕ
ss_idx ss_no = asserted ss_no 0x20 (ss_no + 0x2200)

abbrev pub s_idx : ℕ → Run ℕ
s_idx s_no = asserted s_no 0x200 (s_no + 0x2000)

abbrev pub lp_idx : ℕ → Run ℕ
lp_idx lp_no = asserted lp_no 0x2000 lp_no

-- `PMMInit::from_self_ptr`
abbrev pub from_self_ptr : Pmm
from_self_ptr = record {
  floating_lists = replicate 3 none;
  regions = replicate 0x2220 (record { bitmap = 0xffff; next = chain_end; prev = chain_end });
  supersection_mask = 0xffff_ffff;
  floating_counts = replicate 3 0;
  allocated_counts = replicate 4 0;
}

abbrev pub blank : RegionInfo
blank = record { bitmap = 0; next = 0; prev = 0 }

-- `&self.regions[idx]`, and a region written.
abbrev pub region_at : Pmm → ℕ → Run RegionInfo
region_at st idx = if ltb idx (length st.regions) then ok (get_or st.regions idx blank) else panic

abbrev pub set_region : Pmm → ℕ → RegionInfo → Pmm
set_region st idx r = record st { regions = set st.regions idx r }

-- `+= 1` and `-= 1` on a count.
abbrev pub count_up : List ℕ → ℕ → List ℕ
count_up counts i = set counts i ((get_or counts i 0 + 1) % 2 ^ 32)

abbrev pub count_down : List ℕ → ℕ → List ℕ
count_down counts i = set counts i ((get_or counts i 0 + (2 ^ 32 - 1)) % 2 ^ 32)

-- The place of a kind among the floating lists, and among the counts.
abbrev pub list_no : RegionKind → Option ℕ
list_no small_page = none
list_no large_page = some 0
list_no section = some 1
list_no supersection = some 2

abbrev pub count_no : RegionKind → ℕ
count_no small_page = 0
count_no large_page = 1
count_no section = 2
count_no supersection = 3

abbrev head_of : ℕ → Option ℕ
head_of next = if next == chain_end then none else some next

abbrev unlink_next : Pmm → ℕ → Run Pmm
unlink_next st next =
    if next == chain_end
    then ok st
    else (region_at st next >>= λ r. ok (set_region st next (record r { prev = chain_end })))

abbrev unlink_prev : Pmm → ℕ → ℕ → ℕ → Run Pmm
unlink_prev st i prev next =
    if prev == chain_end
    then ok (record st { floating_lists = set st.floating_lists i (head_of next) })
    else (region_at st prev >>= λ r. ok (set_region st prev (record r { next = next })))

abbrev unfloat_at : Pmm → ℕ → Option ℕ → Run Pmm
unfloat_at st idx none = ok st
unfloat_at st idx (some i) = region_at st idx >>= λ r.
    (unlink_next (record st { floating_counts = count_down st.floating_counts i }) r.next >>= λ st'.
    (region_at st' idx >>= λ r'. unlink_prev st' i r'.prev r.next))

unfoldable pub unfloat : Pmm → ℕ → RegionKind → Run Pmm
unfloat st idx kind = unfloat_at st idx (list_no kind)

-- `.map(|x| x as u16).unwrap_or(CHAIN_END)`
abbrev link_of : Option ℕ → ℕ
link_of none = chain_end
link_of (some x) = x % 2 ^ 16

abbrev float_at : Pmm → ℕ → Option ℕ → Run Pmm
float_at st idx none = ok st
float_at st idx (some i) = region_at st idx >>= λ r.
    ok
      (record (set_region st idx
        (record r { prev = chain_end; next = link_of (get_or st.floating_lists i none) })) {
          floating_counts = count_up st.floating_counts i;
          floating_lists = set st.floating_lists i (some idx);
        })

unfoldable pub float : Pmm → ℕ → RegionKind → Run Pmm
float st idx kind = float_at st idx (list_no kind)

abbrev pub floating_list : Pmm → RegionKind → Option (Option ℕ)
floating_list st large_page = some (get_or st.floating_lists 0 none)
floating_list st section = some (get_or st.floating_lists 1 none)
floating_list st supersection = some (get_or st.floating_lists 2 none)
floating_list st small_page = none
