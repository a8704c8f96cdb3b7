-- ===== src/Tests/Processes.antt =====
-- Tests of the processes and the ranges of addresses of weensyos.
use cs300_s23_projects_days.Prelude.{
  ℕ, ◌+◌, ◌-◌, ◌*◌, ◌≡◌, refl, List, [], ◌∷◌, map, Bool, ◌>>=◌, none, some, inl, inr, Option, ◌==◌,
  ◌&&◌, leb, if◌then◌else◌, arith, Bool-cases,
}
use cs300_s23_projects_days.Weensyos.{
  bits_and, bits_or, pageindex, va_is_canonical, proc_start_addr,
}
use cs300_s23_projects_days.Weensyos.Pages.{
  Physical, kfree, kalloc, kalloc_loop, take, memset, reserved_physical_address,
  allocatable_physical_address,
}
use cs300_s23_projects_days.Weensyos.Pages.Laws.{IsPages, IsAllocatable}
use cs300_s23_projects_days.Weensyos.Vmiter.{
  zero_pe, Vmiter, vmiter, real_find, from_root, from_entry, down, checked, user, present, writable,
  perm, pa, advance,
}
use cs300_s23_projects_days.Weensyos.Vmiter.Range.{low_perm}
use cs300_s23_projects_days.Weensyos.Vmiter.Range.Verdict.{Verdict, low_perm-Verdict}
use cs300_s23_projects_days.Weensyos.Map.{syscall_page_alloc, try_map, map_loop, may_map, add_table}
use cs300_s23_projects_days.Weensyos.Map.Mapping.{iterator}
use cs300_s23_projects_days.Weensyos.Schedule.{free, runnable}
use cs300_s23_projects_days.Weensyos.Processes.{
  fork_into, fork_end, fork_loop, fork_page, map_at, copy_page, free_slot, free_page, free_tables,
  syscall_exit, syscall_exit_assist, Kernel, free_user_pages, ptiter, ptiter_down, syscall_fork,
}
use cs300_s23_projects_days.Weensyos.Processes.Exit.{references, free_user_pages-frees}
use cs300_s23_projects_days.Weensyos.Processes.Tables.{IsTables, tables-IsSane, tables-IsMapped}
use cs300_s23_projects_days.Weensyos.Processes.Fork.{IsRefused, syscall_fork-refuses}

abbrev kernel_end : ℕ
kernel_end = 327680

-- An empty page table in page 16.
abbrev empty : Physical
empty = record { refcount = λ n. if 16 == n then 1 else 0; next_alloc_pa = 0; memory = λ a. 0 }

empty-IsPages : IsPages kernel_end empty
empty-IsPages = record {
  aligned = refl;
  below = λ n l a. absurd (omega arith);
  counts = λ n. ground arith;
}

empty-vmiter : (v : ℕ) → (at : Vmiter) × (vmiter empty.memory 65536 v ≡ some at)
unfolding vmiter real_find from_root down checked
empty-vmiter v = elim (Bool-cases (va_is_canonical v)) [
  | inl c ↦ (iterator 65536 v (65536 + 8 * pageindex v 3) 3 4095, rw (c) refl)
  | inr c ↦ (
    record { pt = 65536; place = record { pep = zero_pe; level = 3; perm = 0 }; va = v },
    rw (c) refl,
  )
]

low_perm-Verdict_example :
    Verdict empty.memory 65536 1048576 1052672 5
      (low_perm empty.memory (iterator 65536 1048576 65536 3 4095) 1048576 1052672 5)
unfolding vmiter real_find from_root down checked pageindex va_is_canonical
low_perm-Verdict_example =
    low_perm-Verdict empty.memory 65536 (iterator 65536 1048576 65536 3 4095) 1048576 1048576
      1052672 5 empty-vmiter refl (omega arith) (omega arith)

-- A process with the table in page 16, and tables in the pages 17, 18 and 19, that may use the page
-- 20 at 1048576 and the page 21, which may only be read, at 1052672.
abbrev table_word : ℕ → ℕ
table_word a =
    if a == 65536
    then 69639
    else if a == 69632
    then 73735
    else if a == 73728
    then 77831
    else if a == 79872
    then 81927
    else if a == 79880
    then 86021
    else 0

abbrev loaded : Physical
loaded = record {
  refcount = λ n. if leb 16 n && leb n 21 then 1 else 0;
  next_alloc_pa = 0;
  memory = table_word;
}

loaded-IsTables : IsTables loaded.memory
loaded-IsTables = record { inside = λ a. ground arith; small = λ a. ground arith }

loaded-IsPages : IsPages kernel_end loaded
loaded-IsPages = record {
  aligned = refl;
  below = λ n l a. absurd (omega arith);
  counts = λ n. ground arith;
}

free_user_pages-frees_example :
    (s' : Physical) × (free_user_pages kernel_end 512
        (vmiter loaded.memory 65536 proc_start_addr)
        loaded
      ≡ some s')
    × (s'.memory ≡ loaded.memory)
    × IsPages kernel_end s'
    × ((n : ℕ)
        → IsAllocatable kernel_end (n * 4096)
        → s'.refcount n ≡ loaded.refcount n - references loaded.memory 65536 n proc_start_addr 512)
free_user_pages-frees_example =
    free_user_pages-frees kernel_end 65536 loaded
      (tables-IsSane loaded.memory loaded-IsTables 65536)
      (tables-IsMapped loaded.memory loaded-IsTables 65536) loaded-IsPages

-- The process has one user page on each of the pages 20 and 21 and none on its tables.
loaded_references :
    map (λ n. references loaded.memory 65536 n proc_start_addr 512) (16 ∷ 19 ∷ 20 ∷ 21 ∷ [])
    ≡ 0 ∷ 0 ∷ 1 ∷ 1 ∷ []
unfolding vmiter real_find from_root from_entry down checked pageindex va_is_canonical bits_and user
    pa
loaded_references = refl

abbrev counted : Option Physical → List ℕ
counted none = []
counted (some s) = map s.refcount (16 ∷ 19 ∷ 20 ∷ 21 ∷ [])

-- The loop gives back these two and keeps the tables.
loaded_freed :
    counted (free_user_pages kernel_end 512 (vmiter loaded.memory 65536 proc_start_addr) loaded)
    ≡ 1 ∷ 1 ∷ 0 ∷ 0 ∷ []
unfolding vmiter real_find from_root from_entry down checked pageindex va_is_canonical bits_and user
    pa advance free_page free_user_pages kfree allocatable_physical_address
    reserved_physical_address
loaded_freed = refl

-- Every page is taken, and the slots behind the first are free.
abbrev full : Kernel
full = record {
  physical = record { refcount = λ n. 1; next_alloc_pa = 0; memory = λ a. 0 };
  ptable = λ i. record {
    pagetable = 65536;
    pid = i;
    state = if i == 1 then runnable else free;
    regs = record { reg_rax = 5; others = λ r. 0 };
  };
  current = 1;
}

full-IsPages : IsPages kernel_end full.physical
full-IsPages = record {
  aligned = refl;
  below = λ n l a. absurd (omega arith);
  counts = λ n. omega arith;
}

syscall_fork-refuses_example :
    (k' : Kernel) × (syscall_fork kernel_end 100 full ≡ some (none, k'))
    × IsRefused kernel_end full k'
syscall_fork-refuses_example =
    syscall_fork-refuses kernel_end 100 full full-IsPages (λ n a c. absurd (omega arith))

abbrev mapped : Option (Bool × Physical)
mapped = syscall_page_alloc kernel_end 65536 1048576 empty

abbrev process : Physical → Kernel
process s = record full { physical = s }

abbrev counts : Option Kernel → List ℕ
counts none = []
counts (some k) = map k.physical.refcount (1 ∷ 2 ∷ 3 ∷ 4 ∷ 16 ∷ [])

-- A page and three tables are taken, and exit gives back all of them and the table in page 16.
taken_pages : counts (do (ok, s) ← mapped; some (process s)) ≡ 1 ∷ 1 ∷ 1 ∷ 1 ∷ 1 ∷ []
unfolding syscall_page_alloc try_map map_loop may_map add_table vmiter real_find from_root
    from_entry down checked pageindex va_is_canonical bits_and bits_or kalloc kalloc_loop take
    memset allocatable_physical_address reserved_physical_address
taken_pages = refl

freed_pages :
    counts (do (ok, s) ← mapped; syscall_exit kernel_end 4000 (process s)) ≡ 0 ∷ 0 ∷ 0 ∷ 0 ∷ 0 ∷ []
unfolding syscall_page_alloc try_map map_loop may_map add_table vmiter real_find from_root
    from_entry down checked pageindex va_is_canonical bits_and bits_or kalloc kalloc_loop take
    memset allocatable_physical_address reserved_physical_address kfree user pa advance free_page
    free_user_pages free_tables ptiter ptiter_down syscall_exit_assist syscall_exit
freed_pages = refl

abbrev forked : Option ℕ × Kernel → Option (Option ℕ × List ℕ)
forked (child, k) = some (child, map k.physical.refcount (1 ∷ 5 ∷ 6 ∷ 7 ∷ 8 ∷ 9 ∷ 10 ∷ []))

-- The child 2 takes a table, a page and three more tables.
fork_pages :
    (do (ok, s) ← mapped; r ← syscall_fork kernel_end 4000 (process s); forked r)
    ≡ some (some 2, 1 ∷ 1 ∷ 1 ∷ 1 ∷ 1 ∷ 1 ∷ 0 ∷ [])
unfolding syscall_page_alloc try_map map_loop may_map add_table vmiter real_find from_root
    from_entry down checked pageindex va_is_canonical bits_and bits_or kalloc kalloc_loop take
    memset allocatable_physical_address reserved_physical_address kfree user pa advance free_page
    free_user_pages free_tables ptiter ptiter_down syscall_exit_assist syscall_exit syscall_fork
    fork_into fork_end fork_loop fork_page map_at copy_page free_slot present writable perm
fork_pages = refl
