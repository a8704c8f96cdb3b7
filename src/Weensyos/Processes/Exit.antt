-- ===== src/Weensyos/Processes/Exit.antt =====
-- The first loop of syscall_exit_assist of weensyos/kernel.cc: the pages of the process.
use cs300_s23_projects_days.Prelude.{
  ℕ, zero, suc, ◌+◌, ◌-◌, ◌*◌, ◌/◌, ◌%◌, ◌^◌, ◌<◌, ◌≡◌, refl, sym, ap, ◌∙◌, subst, inl, inr, Bool,
  true, false, not, ◌&&◌, Option, none, some, ltb, ◌==◌, if◌then◌else◌, arith, Bool-cases, ==_self,
  ==_ne, ==_iff,
}
use cs300_s23_projects_days.Weensyos.{proc_start_addr}
use cs300_s23_projects_days.Weensyos.Pages.{Physical, used, allocatable_physical_address, kfree}
use cs300_s23_projects_days.Weensyos.Pages.Laws.{
  IsPages, IsAllocatable, low_allocatable, kfree-IsPages,
}
use cs300_s23_projects_days.Weensyos.Vmiter.{Vmiter, vmiter, user, pa, advance, real_find}
use cs300_s23_projects_days.Weensyos.Vmiter.Find.{vmiter_from, real_find-vmiter}
use cs300_s23_projects_days.Weensyos.Vmiter.Range.Verdict.{IsSane}
use cs300_s23_projects_days.Weensyos.Processes.{console_addr, free_page, free_user_pages}

-- The page n is what the process may use at va.
abbrev pub uses : (ℕ → ℕ) → ℕ → Option Vmiter → Bool
uses load n none = false
uses load n (some at) = (user load at && not (at.va == console_addr)) && pa load at == n * 4096

abbrev pub one_if : Bool → ℕ
one_if true = 1
one_if false = 0

-- How many of the pages from va on are the page n.
abbrev pub references : (ℕ → ℕ) → ℕ → ℕ → ℕ → ℕ → ℕ
references load pt n va zero = 0
references load pt n va (suc left) =
    one_if (uses load n (vmiter load pt va)) + references load pt n (va + 4096) left

-- What a process may use lies in the memory, page by page.
abbrev pub IsMapped : (ℕ → ℕ) → ℕ → Type 0
IsMapped load pt =
    (va : ℕ) (at : Vmiter)
    → va % 4096 ≡ 0
    → vmiter load pt va ≡ some at
    → user load at ≡ true
    → (pa load at % 4096 ≡ 0) × (pa load at < 2097152)

module _ (kernel_end : ℕ) where
  kfree-memory : (kptr : ℕ) (s : Physical) → (kfree kernel_end kptr s).memory ≡ s.memory
  unfolding kfree
  kfree-memory kptr s = elim (Bool-cases (kptr == 0)) [ inl z ↦ rw (z) refl | inr z ↦ rw (z) refl ]

  kfree_self :
      (n : ℕ) (s : Physical)
      → s.refcount n < 256
      → IsAllocatable kernel_end (n * 4096)
      → (kfree kernel_end (n * 4096) s).refcount n ≡ s.refcount n - 1
  unfolding kfree
  kfree_self n s small may =
      let low = low_allocatable kernel_end (n * 4096) may in
      let number : n * 4096 / 4096 ≡ n = omega arith in
      rw (==_ne (n * 4096) 0 (omega arith), number, may)
        (elim (Bool-cases (s.refcount n == 0)) [
          | inl none_left ↦ rw (none_left) (ground arith)
          | inr some_left ↦ rw (some_left, ==_self n) (ground arith)
        ])

  kfree_other :
      (kptr n : ℕ) (s : Physical)
      → kptr % 4096 ≡ 0
      → kptr == n * 4096 ≡ false
      → (kfree kernel_end kptr s).refcount n ≡ s.refcount n
  unfolding kfree
  kfree_other kptr n s al other =
      let away : kptr / 4096 == n ≡ false = ground arith in
      elim (Bool-cases (kptr == 0)) [
        | inl z ↦ rw (z) refl
        | inr z ↦
            elim (Bool-cases
              (used (kptr / 4096) s && allocatable_physical_address kernel_end kptr)) [
                | inl c ↦ rw (z, c, away) refl
                | inr c ↦ rw (z, c) refl
              ]
      ]

  -- A page that may be given out loses a reference, if it has one.
  kfree-counts :
      (kptr n : ℕ) (s : Physical)
      → kptr % 4096 ≡ 0
      → s.refcount n < 256
      → IsAllocatable kernel_end (n * 4096)
      → (kfree kernel_end kptr s).refcount n ≡ s.refcount n - one_if (kptr == n * 4096)
  kfree-counts kptr n s al small may = elim (Bool-cases (kptr == n * 4096)) [
    | inl here ↦ rw (here) (
        subst (λ k. (kfree kernel_end k s).refcount n ≡ s.refcount n - 1)
          (sym ((==_iff kptr (n * 4096)).0 here)) (kfree_self n s small may))
    | inr other ↦ rw (other) (kfree_other kptr n s al other ∙ omega arith)
  ]

  -- One round.
  record IsFreed (load : ℕ → ℕ) (pt va left : ℕ) (s s' : Physical) : Type 0 where
    memory : s'.memory ≡ load
    pages : IsPages kernel_end s'
    counts :
        (n : ℕ)
        → IsAllocatable kernel_end (n * 4096)
        → s'.refcount n ≡ s.refcount n - references load pt n va left

  module _ (load : ℕ → ℕ) (pt : ℕ) (sane : IsSane load pt) (mapped : IsMapped load pt) where
    one_reference :
        (va n : ℕ) (it : Vmiter)
        → vmiter load pt va ≡ some it
        → references load pt n va 1 ≡ one_if (uses load n (some it))
    one_reference va n it e = rw (e) (omega arith)

    free_page-load :
        (it : Vmiter) (s : Physical)
        → s.memory ≡ load
        → free_page kernel_end it s ≡ (
            if user load it && not (it.va == console_addr)
            then kfree kernel_end (pa load it) s
            else s)
    unfolding free_page
    free_page-load it s m =
        ap
          (λ l.
            if user l it && not (it.va == console_addr) then kfree kernel_end (pa l it) s else s)
          m

    free_page-IsFreed :
        (va : ℕ) (it : Vmiter) (s : Physical)
        → va % 4096 ≡ 0
        → vmiter load pt va ≡ some it
        → s.memory ≡ load
        → IsPages kernel_end s
        → IsFreed load pt va 1 s (free_page kernel_end it s)
    free_page-IsFreed va it s al e m i =
        rw (free_page-load it s m)
          (elim (Bool-cases (user load it && not (it.va == console_addr))) [
            | inl mine ↦
                let allowed : user load it ≡ true = ground arith in
                let (aligned, inside) = mapped va it al e allowed in
                let one = λ (n : ℕ). one_reference va n it e ∙ rw (mine) refl in
                rw (mine) record {
                  memory = kfree-memory (pa load it) s ∙ m;
                  pages = kfree-IsPages kernel_end (pa load it) s aligned inside i;
                  counts = λ n may.
                      kfree-counts (pa load it) n s aligned (i.counts n) may
                      ∙ ap (λ k. s.refcount n - k) (sym (one n));
                }
            | inr not_mine ↦ rw (not_mine) record {
              memory = m;
              pages = i;
              counts = λ n may.
                  let one : references load pt n va 1 ≡ 0 =
                    one_reference va n it e ∙ rw (not_mine) refl in
                  omega (arith, one);
            }
          ])

    advance-vmiter :
        (va : ℕ) (it : Vmiter) (memory : ℕ → ℕ)
        → va < 3145728
        → vmiter load pt va ≡ some it
        → memory ≡ load
        → advance memory it 4096 ≡ vmiter load pt (va + 4096)
    unfolding advance
    advance-vmiter va it memory l e m =
        let (_, _, va_is) = vmiter_from load pt va it e in
        let next : (it.va + 4096) % 2 ^ 64 ≡ va + 4096 = omega (arith, va_is) in
        ap (λ f. real_find f it ((it.va + 4096) % 2 ^ 64)) m
        ∙ ap (real_find load it) next
        ∙ real_find-vmiter load pt va (va + 4096) it e

    -- A round and the ones behind it.
    IsFreed-trans :
        (va left : ℕ) (s s' s'' : Physical)
        → IsFreed load pt va 1 s s'
        → IsFreed load pt (va + 4096) left s' s''
        → IsFreed load pt va (suc left) s s''
    IsFreed-trans va left s s' s'' one rest = record {
      memory = rest.memory;
      pages = rest.pages;
      counts = λ n may. omega (arith, one.counts n may, rest.counts n may);
    }

    free_user_pages-IsFreed :
        (left va : ℕ) (it : Vmiter) (s : Physical)
        → va % 4096 ≡ 0
        → va + left * 4096 ≡ 3145728
        → vmiter load pt va ≡ some it
        → s.memory ≡ load
        → IsPages kernel_end s
        → (s' : Physical) × (free_user_pages kernel_end left (some it) s ≡ some s')
          × IsFreed load pt va left s s'
    unfolding free_user_pages
    free_user_pages-IsFreed zero va it s al end e m i =
        let (_, _, va_is) = vmiter_from load pt va it e in
        let done : ltb it.va 3145728 ≡ false = ground arith in
        (s, rw (done) refl, record { memory = m; pages = i; counts = λ n may. omega arith })
    free_user_pages-IsFreed (suc left) va it s al end e m i =
        let (_, _, va_is) = vmiter_from load pt va it e in
        let more : ltb it.va 3145728 ≡ true = ground arith in
        let freed = free_page-IsFreed va it s al e m i in
        let s' = free_page kernel_end it s in
        let (it', found) = sane (va + 4096) in
        let next = advance-vmiter va it s'.memory (omega arith) e freed.memory ∙ found in
        let (s'', run, rest) =
          free_user_pages-IsFreed left (va + 4096) it' s' (omega arith) (omega arith) found
            freed.memory freed.pages in
        (s'', rw (more, next) run, IsFreed-trans va left s s' s'' freed rest)

  -- For a page table in which no walk panics and whose user pages lie in the memory, and a page
  -- allocator with the invariant IsPages: the loop of syscall_exit_assist over the pages of the
  -- process ends after its 512 pages and changes no word of the memory. Each page that may be
  -- given out loses as many references as the process has user pages on it, as far as it has any,
  -- and the invariant holds afterwards.
  pub free_user_pages-frees :
      (pt : ℕ) (s : Physical)
      → IsSane s.memory pt
      → IsMapped s.memory pt
      → IsPages kernel_end s
      → (s' : Physical) × (free_user_pages kernel_end 512 (vmiter s.memory pt proc_start_addr) s
          ≡ some s')
        × (s'.memory ≡ s.memory)
        × IsPages kernel_end s'
        × ((n : ℕ)
            → IsAllocatable kernel_end (n * 4096)
            → s'.refcount n ≡ s.refcount n - references s.memory pt n proc_start_addr 512)
  free_user_pages-frees pt s sane mapped i =
      let (it, found) = sane 1048576 in
      let (s', run, freed) =
        free_user_pages-IsFreed s.memory pt sane mapped 512 1048576 it s (omega arith) (omega arith)
          found refl i in
      (
        s',
        ap (λ o. free_user_pages kernel_end 512 o s) found ∙ run,
        freed.memory,
        freed.pages,
        freed.counts,
      )
