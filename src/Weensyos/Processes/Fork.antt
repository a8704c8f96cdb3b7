-- ===== src/Weensyos/Processes/Fork.antt =====
-- syscall_fork of weensyos/kernel.cc where it returns -1.
use cs300_s23_projects_days.Prelude.{
  ℕ, ◌*◌, ◌≡◌, ◌≢◌, refl, ap, ◌∙◌, inl, inr, none, some, ◌==◌, update, arith, Bool-cases,
  Option-cases, ==_iff,
}
use cs300_s23_projects_days.Weensyos.Pages.{Physical, kalloc}
use cs300_s23_projects_days.Weensyos.Pages.Laws.{
  IsPages, IsAllocatable, Allocates, none_free, page, kalloc-Allocates,
}
use cs300_s23_projects_days.Weensyos.Processes.{Kernel, free_slot, fork_into, syscall_fork}

module _ (kernel_end : ℕ) where
  -- Every page that may be given out is in use.
  abbrev pub IsFull : Physical → Type 0
  IsFull s = (n : ℕ) → IsAllocatable kernel_end (n * 4096) → s.refcount n ≢ 0

  nothing_left :
      {s s' : Physical} {target : ℕ}
      → Allocates kernel_end s s' target
      → IsFull s
      → (target ≡ 0) × (s'.refcount ≡ s.refcount) × (s'.memory ≡ s.memory)
  nothing_left (none_free _ r m) full = (refl, r, m)
  nothing_left (page n may free _ _ _) full = absurd (full n may free)

  -- What fork may leave behind: a slot with its own number as pid.
  pub record IsRefused (k k' : Kernel) : Type 0 where
    pub refcount : k'.physical.refcount ≡ k.physical.refcount
    pub memory : k'.physical.memory ≡ k.physical.memory
    pub current : k'.current ≡ k.current
    pub table :
        (i : ℕ)
        → ((k'.ptable i).state ≡ (k.ptable i).state)
          × ((k'.ptable i).pagetable ≡ (k.ptable i).pagetable)
          × ((k'.ptable i).regs ≡ (k.ptable i).regs)

  fork_into-IsRefused :
      (fuel child : ℕ) (k : Kernel)
      → IsPages kernel_end k.physical
      → IsFull k.physical
      → (k' : Kernel) × (fork_into kernel_end fuel (some child) k ≡ some (none, k'))
        × IsRefused k k'
  unfolding fork_into
  fork_into-IsRefused fuel child k i full =
      let (given, _) = kalloc-Allocates kernel_end 4096 k.physical (omega arith) i in
      let (zero_page, counts, words) = nothing_left given full in
      let s = (kalloc kernel_end 4096 k.physical).1 in
      (
        record k {
          ptable = update k.ptable child (record (k.ptable child) { pid = child });
          physical = s;
        },
        rw (zero_page) refl,
        record {
          refcount = counts;
          memory = words;
          current = refl;
          table = λ j. elim (Bool-cases (child == j)) [
            | inl here ↦
                let same = (==_iff child j).0 here in
                rw (here) (
                  ap (λ x. (k.ptable x).state) same,
                  ap (λ x. (k.ptable x).pagetable) same,
                  ap (λ x. (k.ptable x).regs) same,
                )
            | inr other ↦ rw (other) (refl, refl, refl)
          ];
        },
      )

  -- If every page that may be given out is in use, under the page allocator's invariant:
  -- syscall_fork returns -1, whether or not a slot is free. No page or word of the memory
  -- changes, and every process keeps its state, its page table and its registers.
  pub syscall_fork-refuses :
      (fuel : ℕ) (k : Kernel)
      → IsPages kernel_end k.physical
      → IsFull k.physical
      → (k' : Kernel) × (syscall_fork kernel_end fuel k ≡ some (none, k')) × IsRefused k k'
  unfolding syscall_fork fork_into
  syscall_fork-refuses fuel k i full = elim (Option-cases (free_slot 15 1 k.ptable)) [
    | inl no_slot ↦ (
      k,
      rw (no_slot) refl,
      record { refcount = refl; memory = refl; current = refl; table = λ j. (refl, refl, refl) },
    )
    | inr (child, slot) ↦
        let (k', run, refused) = fork_into-IsRefused fuel child k i full in
        (k', ap (λ o. fork_into kernel_end fuel o k) slot ∙ run, refused)
  ]
