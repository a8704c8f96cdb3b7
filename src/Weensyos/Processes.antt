-- ===== src/Weensyos/Processes.antt =====
-- syscall_exit_assist, syscall_exit and syscall_fork of weensyos/kernel.cc, and ptiter of
-- k-vmiter.hh and k-vmiter.cc. A failed assertion or a panic is none.
pub mod Exit
pub mod Tables
pub mod Fork
use cs300_s23_projects_days.Prelude.{
  ℕ, zero, suc, ◌+◌, ◌-◌, ◌*◌, ◌/◌, ◌%◌, ◌^◌, Bool, true, false, not, ◌&&◌, Option, none, some, ltb,
  leb, ◌==◌, if◌then◌else◌, update, ◌>>=◌,
}
use cs300_s23_projects_days.Weensyos.{
  page_size, proc_start_addr, memsize_virtual, pageindex, pte_p, pte_ps, pamask,
}
use cs300_s23_projects_days.Weensyos.Pages.{Physical, memset, kalloc, kfree}
use cs300_s23_projects_days.Weensyos.Vmiter.{
  Place, Vmiter, after_region, same_table, vmiter, perm, present, writable, user, pa, advance,
}
use cs300_s23_projects_days.Weensyos.Map.{try_map}
use cs300_s23_projects_days.Weensyos.Schedule.{ProcState, free, runnable, blocked, broken}

abbrev pub console_addr : ℕ
console_addr = 753664

-- The registers: reg_rax, and the others by their number.
pub record Registers : Type 0 where
  pub reg_rax : ℕ
  pub others : ℕ → ℕ

pub record Proc : Type 0 where
  pub pagetable : ℕ
  pub pid : ℕ
  pub state : ProcState
  pub regs : Registers

-- current is the pid of the process that current points to.
pub record Kernel : Type 0 where
  pub physical : Physical
  pub ptable : ℕ → Proc
  pub current : ℕ

-- pt_, pep_, level_ and va_.
pub record Ptiter : Type 0 where
  pub pt : ℕ
  pub pep : ℕ
  pub level : ℕ
  pub va : ℕ

-- active()
abbrev pub is_active : Ptiter → Bool
is_active it = ltb it.va (2 ^ 48)

module _ (load : ℕ → ℕ) where
  -- The loop of ptiter::down; none if it does not end in so many rounds.
  unfoldable pub ptiter_down : ℕ → Bool → ℕ → Ptiter → Option Ptiter
  ptiter_down zero skip stop it = none
  ptiter_down (suc fuel) skip stop it =
      let e = load it.pep in
      let below =
        ptiter_down fuel skip stop (record it {
          level = it.level - 1;
          pep = pamask e + 8 * pageindex it.va (it.level - 1);
        }) in
      let va' = after_region it.va it.level in
      let beside = ptiter_down fuel false stop (record it { pep = it.pep + 8; va = va' }) in
      let above =
        ptiter_down fuel false (it.level + 1)
          (record it { level = 3; pep = it.pt + 8 * pageindex it.va 3 }) in
      if pte_p e && not (pte_ps e) && not skip
      then (if it.level == stop then some it else below)
      else if same_table it.level it.va va'
      then beside
      else if it.level == 3
      then some (record it { va = 2 ^ 48 })
      else above

  -- The constructor, which calls go.
  unfoldable pub ptiter : ℕ → ℕ → ℕ → Option Ptiter
  ptiter fuel pt va =
      ptiter_down fuel false 1
        (record { pt = pt; pep = pt + 8 * pageindex va 3; level = 3; va = va })

abbrev pub set_proc : ℕ → Proc → Kernel → Kernel
set_proc pid p k = record k { ptable = update k.ptable pid p }

abbrev pub is_free : ProcState → Bool
is_free free = true
is_free runnable = false
is_free blocked = false
is_free broken = false

-- The search for a free slot, from i on.
unfoldable pub free_slot : ℕ → ℕ → (ℕ → Proc) → Option ℕ
free_slot zero i ptable = none
free_slot (suc left) i ptable =
    let rest = free_slot left (i + 1) ptable in if is_free (ptable i).state then some i else rest

-- memcpy of one page to another, by words.
unfoldable pub copy_page : ℕ → ℕ → (ℕ → ℕ) → ℕ → ℕ
copy_page dst src memory a =
    if leb dst a && ltb a (dst + page_size) then memory (src + (a - dst)) else memory a

-- pages[pa / PAGESIZE].refcount += 1
abbrev pub share : ℕ → Physical → Physical
share target s = record s {
  refcount = update s.refcount (target / page_size) ((s.refcount (target / page_size) + 1) % 256);
}

abbrev pub fork_next :
    (Option Vmiter → Option Vmiter → Physical → Option (Bool × Option ℕ × Physical))
    → Vmiter
    → Vmiter
    → Option (Bool × Option ℕ × Physical)
    → Option (Bool × Option ℕ × Physical)
fork_next next it process_it none = none
fork_next next it process_it (some (false, back, s)) = some (false, back, s)
fork_next next it process_it (some (true, back, s)) =
    next (advance s.memory it page_size) (advance s.memory process_it page_size) s

module _ (kernel_end : ℕ) where
  -- A user page of the process that exits.
  unfoldable pub free_page : Vmiter → Physical → Physical
  free_page it s =
      if user s.memory it && not (it.va == console_addr)
      then kfree kernel_end (pa s.memory it) s
      else s

  -- The first loop of syscall_exit_assist, for at most `left` pages.
  unfoldable pub free_user_pages : ℕ → Option Vmiter → Physical → Option Physical
  free_user_pages left none s = none
  free_user_pages zero (some it) s = if ltb it.va memsize_virtual then none else some s
  free_user_pages (suc left) (some it) s =
      let s' = free_page it s in
      let rest = free_user_pages left (advance s'.memory it page_size) s' in
      if ltb it.va memsize_virtual then rest else some s

  -- The second loop.
  unfoldable pub free_tables : ℕ → Option Ptiter → Physical → Option Physical
  free_tables fuel none s = none
  free_tables zero (some it) s = if is_active it then none else some s
  free_tables (suc fuel) (some it) s =
      let s' = kfree kernel_end (pamask (s.memory it.pep)) s in
      let rest = free_tables fuel (ptiter_down s'.memory fuel true 1 it) s' in
      if is_active it then rest else some s

  -- The loops over the tables take `fuel` rounds at most; there are 512 pages of the process.
  unfoldable pub syscall_exit_assist : ℕ → ℕ → Kernel → Option Kernel
  syscall_exit_assist fuel release_pid k = do
    let p = k.ptable release_pid
    let s = k.physical
    s' ← free_user_pages 512 (vmiter s.memory p.pagetable proc_start_addr) s
    s'' ← free_tables fuel (ptiter s'.memory fuel p.pagetable 0) s'
    some (
        set_proc release_pid (record p { state = free })
          (record k { physical = kfree kernel_end p.pagetable s'' }))

  unfoldable pub syscall_exit : ℕ → Kernel → Option Kernel
  syscall_exit fuel k = syscall_exit_assist fuel k.current k

  -- vmiter(table, va).try_map(target, perm)
  unfoldable pub map_at : ℕ → ℕ → ℕ → ℕ → Physical → Option (Bool × Physical)
  map_at table va target perm s = do
    at ← vmiter s.memory table va
    (ok, place, s') ← try_map kernel_end at target perm s
    some (ok, s')

  -- One round of the loop of syscall_fork: if it is not true, the child is released, and then
  -- the page that is given back, if any.
  unfoldable pub fork_page : ℕ → Vmiter → Physical → Option (Bool × Option ℕ × Physical)
  fork_page table it s =
      let this_perm = perm s.memory it in
      let this_pa = pa s.memory it in
      let (child_pa, taken) = kalloc kernel_end page_size s in
      let copied = record taken { memory = copy_page child_pa this_pa taken.memory } in
      if present s.memory it && not (writable s.memory it)
      then (do
        (ok, s') ← map_at table it.va this_pa this_perm s
        some (ok, none, if ok then share this_pa s' else s'))
      else if user s.memory it
      then (if it.va == console_addr
          then (do (ok, s') ← map_at table it.va console_addr this_perm s; some (ok, none, s'))
          else if child_pa == 0
          then some (false, none, taken)
          else (do
            (ok, s') ← map_at table it.va child_pa this_perm copied
            some (ok, if ok then none else some child_pa, s')))
      else (do (ok, s') ← map_at table it.va this_pa this_perm s; some (ok, none, s'))

  -- The loop, for at most `left` pages.
  unfoldable pub fork_loop :
      ℕ → ℕ → Option Vmiter → Option Vmiter → Physical → Option (Bool × Option ℕ × Physical)
  fork_loop left table none process_it s = none
  fork_loop left table (some it) none s = none
  fork_loop zero table (some it) (some process_it) s =
      if ltb it.va memsize_virtual then none else some (true, none, s)
  fork_loop (suc left) table (some it) (some process_it) s =
      let rest = fork_next (fork_loop left table) it process_it (fork_page table it s) in
      if ltb it.va memsize_virtual then rest else some (true, none, s)

  abbrev pub give_back : Option ℕ → Physical → Physical
  give_back none s = s
  give_back (some page) s = kfree kernel_end page s

  -- The end of syscall_fork: none stands for -1.
  unfoldable pub fork_end :
      ℕ → ℕ → Kernel → Option (Bool × Option ℕ × Physical) → Option (Option ℕ × Kernel)
  fork_end fuel child k none = none
  fork_end fuel child k (some (false, back, s)) = do
    k' ← syscall_exit_assist fuel child (record k { physical = s })
    some (none, record k' { physical = give_back back k'.physical })
  fork_end fuel child k (some (true, back, s)) =
      let parent = k.ptable k.current in
      let born = record (k.ptable child) {
        state = runnable;
        regs = record parent.regs { reg_rax = 0 };
      } in
      let k' = set_proc child born (record k { physical = s }) in
      let caller = k'.ptable parent.pid in
      some (
        some child,
        set_proc parent.pid (record caller { regs = record caller.regs { reg_rax = child } }) k',
      )

  unfoldable pub fork_into : ℕ → Option ℕ → Kernel → Option (Option ℕ × Kernel)
  fork_into fuel none k = some (none, k)
  fork_into fuel (some child) k =
      let named = set_proc child (record (k.ptable child) { pid = child }) k in
      let (table, s) = kalloc kernel_end page_size k.physical in
      let cleared = record s { memory = memset table 0 page_size s.memory } in
      let k' =
        set_proc child (record (named.ptable child) { pagetable = table })
          (record named { physical = cleared }) in
      let from = (k'.ptable k.current).pagetable in
      if table == 0
      then some (none, record named { physical = s })
      else fork_end fuel child k' (
          fork_loop 768 table (vmiter cleared.memory from 0) (vmiter cleared.memory table 0)
            cleared)

  unfoldable pub syscall_fork : ℕ → Kernel → Option (Option ℕ × Kernel)
  syscall_fork fuel k = fork_into fuel (free_slot 15 1 k.ptable) k
