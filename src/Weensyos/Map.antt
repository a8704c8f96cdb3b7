-- ===== src/Weensyos/Map.antt =====
-- vmiter::try_map of weensyos/k-vmiter.cc, and syscall_page_alloc of kernel.cc, which uses it. A
-- failed assertion or a panic is none.
pub mod Walks
pub mod Bits
pub mod Table
pub mod Loop
pub mod Mapping
pub mod PageAlloc
use cs300_s23_projects_days.Prelude.{
  ℕ, zero, suc, ◌+◌, ◌-◌, ◌*◌, ◌/◌, ◌%◌, ◌^◌, Bool, true, false, not, ◌&&◌, ◌||◌, Option, none,
  some, ltb, leb, ◌==◌, if◌then◌else◌, update, word_mod,
}
use cs300_s23_projects_days.Weensyos.{
  page_size, bit, pte_p, pamask, bits_and, bits_or, proc_start_addr, memsize_virtual,
}
use cs300_s23_projects_days.Weensyos.Pages.{Physical, memset, kalloc}
use cs300_s23_projects_days.Weensyos.Vmiter.{
  Entry, entry_at, zero_pe, Place, Vmiter, value, down, vmiter,
}

-- PTE_P | PTE_W | PTE_U
abbrev pub pte_pwu : ℕ
pte_pwu = 7

-- The assertions of try_map, for the pa that it uses.
unfoldable pub may_map : Vmiter → ℕ → ℕ → Bool
may_map it pa perm =
    it.va % page_size == 0
    && (if pte_p perm then not (pa == word_mod - 1) && pamask pa == pa else not (pte_p pa))
    && (not (bit perm 0) || bit it.place.perm 0)
    && (not (bit perm 1) || bit it.place.perm 1)
    && (not (bit perm 2) || bit it.place.perm 2)

abbrev pub store : ℕ → ℕ → Physical → Physical
store a word s = record s { memory = update s.memory a word }

-- A page for the next table, empty, in the entry pep.
unfoldable pub add_table : ℕ → ℕ → Physical → Physical
add_table pep pt s =
    store pep (bits_or pt pte_pwu) (record s { memory = memset pt 0 page_size s.memory })

module _ (kernel_end : ℕ) where
  -- The loop, and the store of the entry behind it; level_ is below `fuel`.
  unfoldable pub map_loop : ℕ → Place → ℕ → ℕ → ℕ → Physical → Option (Bool × Place × Physical)
  map_loop zero place va pa perm s = none
  map_loop (suc fuel) place va pa perm s = elim place.pep [
    | zero_pe ↦
        let (pt, s') = kalloc kernel_end page_size s in
        if perm == 0
        then some (true, place, s)
        else if pt == 0
        then some (false, place, s')
        else none
    | entry_at pep ↦
        let (pt, s') = kalloc kernel_end page_size s in
        let s'' = add_table pep pt s' in
        let rest : Option (Bool × Place × Physical) =
          elim (down s''.memory place.level pep place.perm va) [
            | none ↦ none
            | some lower ↦ map_loop fuel lower va pa perm s''
          ] in
        if not (place.level == 0) && not (perm == 0)
        then (if pte_p (s.memory pep)
            then none
            else if pt == 0
            then some (false, place, s')
            else rest)
        else if place.level == 0
        then some (true, place, store pep (bits_or pa perm) s)
        else some (true, place, s)
  ]

  unfoldable pub try_map : Vmiter → ℕ → ℕ → Physical → Option (Bool × Place × Physical)
  try_map it pa perm s =
      let pa' = if pa == word_mod - 1 && perm == 0 then 0 else pa in
      if may_map it pa' perm then map_loop 4 it.place it.va pa' perm s else none

  -- The result of the system call for the process with the page table pt: 0 or -1.
  unfoldable pub syscall_page_alloc : ℕ → ℕ → Physical → Option (Bool × Physical)
  syscall_page_alloc pt addr s =
      if ltb addr proc_start_addr || leb memsize_virtual addr
      then some (false, s)
      else elim (vmiter s.memory pt addr) [
        | none ↦ none
        | some it ↦
            let (alloc_pa, s') = kalloc kernel_end page_size s in
            let s'' = record s' { memory = memset alloc_pa 0 page_size s'.memory } in
            if alloc_pa == 0 then some (false, s') else elim (try_map it alloc_pa pte_pwu s'') [
              | none ↦ none
              | some (_, _, end) ↦ some (true, end)
            ]
      ]
