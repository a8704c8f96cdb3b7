-- ===== src/Tests/Weensyos.antt =====
-- Tests of the pages and page tables of weensyos: a process with an empty page table in page 16.
use cs300_s23_projects_days.Prelude.{
  ℕ, ◌*◌, ◌≡◌, inl, refl, true, false, some, ◌==◌, if◌then◌else◌, arith,
}
use cs300_s23_projects_days.Weensyos.{pageindex, va_is_canonical}
use cs300_s23_projects_days.Weensyos.Pages.{
  Physical, kalloc, kalloc_loop, allocatable_physical_address, reserved_physical_address,
}
use cs300_s23_projects_days.Weensyos.Pages.Laws.{IsPages, Allocates, kalloc-Allocates}
use cs300_s23_projects_days.Weensyos.Vmiter.{
  Vmiter, vmiter, real_find, from_root, down, checked, next, present, perm,
}
use cs300_s23_projects_days.Weensyos.Vmiter.Find.{real_find-vmiter}
use cs300_s23_projects_days.Weensyos.Vmiter.Skip.{next-skips}
use cs300_s23_projects_days.Weensyos.Map.{try_map, may_map, syscall_page_alloc}
use cs300_s23_projects_days.Weensyos.Map.Walks.{arrived}
use cs300_s23_projects_days.Weensyos.Map.Mapping.{IsReady, IsMapping, iterator, try_map-IsMapping}
use cs300_s23_projects_days.Weensyos.Map.PageAlloc.{IsServed, syscall_page_alloc-IsServed}
use cs300_s23_projects_days.Weensyos.Schedule.{
  ProcState, runnable, schedule, Scheduled, schedule-Scheduled,
}

abbrev kernel_end : ℕ
kernel_end = 327680

abbrev one_page : Physical
one_page = record { refcount = λ n. if 16 == n then 1 else 0; next_alloc_pa = 0; memory = λ a. 0 }

one_page-IsPages : IsPages kernel_end one_page
one_page-IsPages = record {
  aligned = refl;
  below = λ n l a. absurd (omega arith);
  counts = λ n. ground arith;
}

page_16 : allocatable_physical_address kernel_end (16 * 4096) ≡ true
unfolding allocatable_physical_address reserved_physical_address
page_16 = refl

first_page : (kalloc kernel_end 4096 one_page).0 ≡ 4096
unfolding kalloc kalloc_loop allocatable_physical_address reserved_physical_address
first_page = refl

kalloc-Allocates_example :
    Allocates kernel_end one_page
      (kalloc kernel_end 4096 one_page).1
      (kalloc kernel_end 4096 one_page).0
    × IsPages kernel_end (kalloc kernel_end 4096 one_page).1
kalloc-Allocates_example = kalloc-Allocates kernel_end 4096 one_page (omega arith) one_page-IsPages

abbrev at_start : Vmiter
at_start = iterator 65536 1048576 65536 3 4095

at_start-vmiter : vmiter one_page.memory 65536 1048576 ≡ some at_start
unfolding vmiter real_find from_root down checked pageindex va_is_canonical
at_start-vmiter = refl

real_find-vmiter_example :
    real_find one_page.memory at_start 1052672 ≡ vmiter one_page.memory 65536 1052672
real_find-vmiter_example =
    real_find-vmiter one_page.memory 65536 1048576 1052672 at_start at_start-vmiter

abbrev next_region : Vmiter
next_region = iterator 65536 549755813888 65544 3 4095

at_start-next : next one_page.memory at_start ≡ some next_region
unfolding next perm real_find from_root down checked pageindex va_is_canonical
at_start-next = refl

next-skips_example :
    (vmiter one_page.memory 65536 2097152 ≡ some (record at_start { va = 2097152 }))
    × (present one_page.memory (record at_start { va = 2097152 }) ≡ false)
next-skips_example =
    next-skips one_page.memory 65536 1048576 2097152 at_start next_region at_start-vmiter
      at_start-next (omega arith) (omega arith) (λ c. omega arith)

one_page-IsReady : IsReady kernel_end one_page 65536 1048576 65536 3 4095
unfolding pageindex
one_page-IsReady = record {
  at = record { walk = arrived; here = inl (λ c. omega arith) };
  free = λ p. refl;
  sane = omega arith;
}

try_map-IsMapping_example :
    IsMapping kernel_end one_page 65536 65536 1048576 8192 7
      (try_map kernel_end (iterator 65536 1048576 65536 3 4095) 8192 7 one_page)
unfolding va_is_canonical may_map
try_map-IsMapping_example =
    try_map-IsMapping kernel_end one_page 65536 1048576 65536 3 4095 8192 7 refl one_page-IsReady
      (omega arith) one_page-IsPages (omega arith) (omega arith) refl refl

syscall_page_alloc-IsServed_example :
    IsServed kernel_end one_page 65536 65536 1048576
      (syscall_page_alloc kernel_end 65536 1048576 one_page)
syscall_page_alloc-IsServed_example =
    syscall_page_alloc-IsServed kernel_end one_page 65536 1048576 65536 3 4095 (omega arith)
      (omega arith) refl one_page-IsReady (omega arith) refl one_page-IsPages

-- Only the processes 1 and 3 can run.
abbrev two_ready : ℕ → ProcState
two_ready p = if p == 1 then runnable else if p == 3 then runnable else ProcState.free

three_after_one : schedule 16 two_ready 1 ≡ some 3
unfolding schedule
three_after_one = refl

schedule-Scheduled_example : Scheduled two_ready 1 (schedule 16 two_ready 1)
schedule-Scheduled_example = schedule-Scheduled 16 two_ready 1 (omega arith) (omega arith)
