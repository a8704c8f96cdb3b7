-- ===== src/Weensyos/Pages.antt =====
-- kalloc and kfree of weensyos/kernel.cc, and which physical addresses they give out
-- (weensyos/k-hardware.cc). The end of the kernel, which the linker sets, is a parameter.
pub mod Laws
use cs300_s23_projects_days.Prelude.{
  ℕ, zero, suc, ◌+◌, ◌-◌, ◌*◌, ◌/◌, ◌%◌, ◌^◌, Bool, true, false, not, ◌&&◌, ◌||◌, ltb, leb, ◌==◌,
  if◌then◌else◌, update,
}
use cs300_s23_projects_days.Weensyos.{
  page_size, memsize_physical, npages, kernel_start_addr, kernel_stack_top, iophysmem, extphysmem,
}

-- refcount by the number of the page, as a uint8_t; memory by words of eight bytes.
pub record Physical : Type 0 where
  pub refcount : ℕ → ℕ
  pub next_alloc_pa : ℕ
  pub memory : ℕ → ℕ

abbrev pub used : ℕ → Physical → Bool
used page s = not (s.refcount page == 0)

unfoldable pub reserved_physical_address : ℕ → Bool
reserved_physical_address pa = ltb pa page_size || (leb iophysmem pa && ltb pa extphysmem)

abbrev pub round_up : ℕ → ℕ → ℕ
round_up x m = (x + (m - 1)) / m * m

unfoldable pub allocatable_physical_address : ℕ → ℕ → Bool
allocatable_physical_address kernel_end pa =
    not (reserved_physical_address pa)
    && (ltb pa kernel_start_addr || leb (round_up kernel_end page_size) pa)
    && (ltb pa (kernel_stack_top - page_size) || leb kernel_stack_top pa)
    && ltb pa memsize_physical

-- Eight times the byte c.
abbrev pub word_of : ℕ → ℕ
word_of c = c * 72340172838076673

-- For a pointer to a word and whole words.
unfoldable pub memset : ℕ → ℕ → ℕ → (ℕ → ℕ) → ℕ → ℕ
memset ptr c n memory a = if leb ptr a && ltb a (ptr + n) then word_of c else memory a

-- The body of the loop, for a page that is given out.
unfoldable pub take : ℕ → Physical → Physical
take pa s = record s {
  refcount = update s.refcount (pa / page_size) 1;
  memory = memset pa 204 page_size s.memory;
}

-- The loop, for at most `fuel` pages.
unfoldable pub kalloc_loop : ℕ → ℕ → Physical → ℕ × Physical
kalloc_loop zero kernel_end s = (0, s)
kalloc_loop (suc fuel) kernel_end s =
    let pa = s.next_alloc_pa in
    let s' = record s { next_alloc_pa = pa + page_size } in
    let rest = kalloc_loop fuel kernel_end s' in
    if ltb pa memsize_physical
    then (if allocatable_physical_address kernel_end pa && not (used (pa / page_size) s')
        then (pa, take pa s')
        else rest)
    else (0, s)

unfoldable pub kalloc : ℕ → ℕ → Physical → ℕ × Physical
kalloc kernel_end sz s = if ltb page_size sz then (0, s) else kalloc_loop npages kernel_end s

unfoldable pub kfree : ℕ → ℕ → Physical → Physical
kfree kernel_end kptr s =
    if kptr == 0
    then s
    else (let page = kptr / page_size in
        record s {
          refcount =
              if used page s && allocatable_physical_address kernel_end kptr
              then update s.refcount page ((s.refcount page + 255) % 256)
              else s.refcount;
          next_alloc_pa = if ltb kptr s.next_alloc_pa then kptr else s.next_alloc_pa;
        })
