-- ===== src/Weensyos/Map/PageAlloc.antt =====
-- syscall_page_alloc of weensyos/kernel.cc.
use cs300_s23_projects_days.Prelude.{
  ℕ, ◌+◌, ◌*◌, ◌/◌, ◌%◌, ◌^◌, ◌≤◌, ◌<◌, ◌≡◌, ◌≢◌, inl, inr, refl, sym, ap, ◌∙◌, subst, Bool, true,
  false, Option, none, some, leb, ◌==◌, if◌then◌else◌, arith, Bool-cases, ==_ne, ==_self, le→ltb,
}
use cs300_s23_projects_days.Weensyos.{pageindex, va_is_canonical, pte_p, pamask}
use cs300_s23_projects_days.Weensyos.Pages.{Physical, memset, kalloc, word_of}
use cs300_s23_projects_days.Weensyos.Pages.Laws.{
  IsPages, IsAllocatable, Allocates, none_free, page, kalloc-Allocates, low_allocatable,
  memset-page,
}
use cs300_s23_projects_days.Weensyos.Vmiter.{Place, vmiter, initial_perm, pa}
use cs300_s23_projects_days.Weensyos.Map.{try_map, may_map, syscall_page_alloc}
use cs300_s23_projects_days.Weensyos.Map.Walks.{Walk-map}
use cs300_s23_projects_days.Weensyos.Map.Table.{IsKept, kept_elsewhere, still-IsKept}
use cs300_s23_projects_days.Weensyos.Map.Loop.{other_memory}
use cs300_s23_projects_days.Weensyos.Map.Mapping.{
  IsReady, iterator, IsMapping, exhausted, found, vmiter_ready, may_map_user, try_map-IsMapping,
}

low_canonical : (va : ℕ) → va < 3145728 → va_is_canonical va ≡ true
unfolding va_is_canonical
low_canonical va l = ground arith

module _ (kernel_end : ℕ) where
  -- The state in which try_map runs, with the page n for the program.
  module _ (s s' : Physical) (pt va q k pm n : ℕ) (r : IsReady kernel_end s pt va q k pm)
      (al : IsAllocatable kernel_end (n * 4096)) (free : s.refcount n ≡ 0)
      (counts : (j : ℕ) → s'.refcount j ≡ (if n == j then 1 else s.refcount j))
      (words : (a : ℕ) → s'.memory a ≡ (if a / 4096 == n then word_of 204 else s.memory a)) where
    abbrev cleared : Physical
    cleared = record s' { memory = memset (n * 4096) 0 4096 s'.memory }

    cleared-memory : (a : ℕ) → cleared.memory a ≡ (if a / 4096 == n then 0 else s.memory a)
    cleared-memory a = memset-page n 0 a s'.memory ∙ elim (Bool-cases (a / 4096 == n)) [
      | inl d ↦ rw (d) refl
      | inr d ↦ rw (d) (words a ∙ rw (d) refl)
    ]

    unchanged : (a : ℕ) → IsKept kernel_end s a → s.memory a ≡ cleared.memory a
    unchanged a kept =
        let away = kept_elsewhere kernel_end s s' n a al free kept in
        sym (cleared-memory a ∙ rw (==_ne (a / 4096) n away) refl)

    IsKept-on : (a : ℕ) → IsKept kernel_end s a → IsKept kernel_end cleared a
    IsKept-on a kept =
        still-IsKept kernel_end s cleared n a counts
          (kept_elsewhere kernel_end s s' n a al free kept) kept

    new_page :
        (a : ℕ) → a / 4096 ≡ n → (cleared.memory a ≡ 0) × IsKept kernel_end cleared a × (a ≢ q)
    new_page a e =
        let one : s'.refcount (a / 4096) ≡ 1 = counts (a / 4096) ∙ rw (e, ==_self n) refl in
        (
          cleared-memory a ∙ rw (e, ==_self n) refl,
          inl (λ z. omega (arith, one)),
          λ c.
              kept_elsewhere kernel_end s s' n q al free r.at.here (ap (λ x. x / 4096) (sym c) ∙ e),
        )

    cleared-IsReady : IsReady kernel_end cleared pt va q k pm
    cleared-IsReady =
        let here = unchanged q r.at.here in
        record {
          at = record {
            walk =
                Walk-map s.memory cleared.memory va _ _ q k pm 3 (pt + 8 * pageindex va 3)
                  initial_perm (λ a p. ((IsKept-on a p.0, p.1), unchanged a p.0)) r.at.walk;
            here = IsKept-on q r.at.here;
          };
          free = λ p. subst (λ x. pte_p x ≡ false) here (r.free p);
          sane = subst (λ x. pamask x < 2 ^ 32) here r.sane;
        }

  -- What syscall_page_alloc promises: -1 only with no page left; 0 with a page of zeros mapped, or
  -- with no page left for its tables. In pages in use, only the entry for addr changes.
  pub data IsServed (old : Physical) (entry pt addr : ℕ) : Option (Bool × Physical) → Type 0 where
    refused :
        (s : Physical)
        → IsPages kernel_end s
        → ((n : ℕ) → IsAllocatable kernel_end (n * 4096) → s.refcount n ≢ 0)
        → IsServed old entry pt addr (some (false, s))
    lost :
        (s : Physical)
        → IsPages kernel_end s
        → ((n : ℕ) → IsAllocatable kernel_end (n * 4096) → s.refcount n ≢ 0)
        → IsServed old entry pt addr (some (true, s))
    given :
        (n q pm : ℕ) (s : Physical)
        → IsPages kernel_end s
        → IsAllocatable kernel_end (n * 4096)
        → vmiter s.memory pt addr ≡ some (iterator pt addr q 0 pm)
        → pa s.memory (iterator pt addr q 0 pm) ≡ n * 4096
        → s.memory q ≡ n * 4096 + 7
        → old.refcount n ≡ 0
        → ((a : ℕ) → a / 4096 ≡ n → s.memory a ≡ 0)
        → ((a : ℕ) → IsKept kernel_end old a → a ≢ entry → s.memory a ≡ old.memory a)
        → IsServed old entry pt addr (some (true, s))

  IsServed-by :
      (s mid : Physical) (entry pt addr n : ℕ) (r : Option (Bool × Place × Physical))
      → IsAllocatable kernel_end (n * 4096)
      → s.refcount n ≡ 0
      → ((a : ℕ) → a / 4096 ≡ n → (mid.memory a ≡ 0) × IsKept kernel_end mid a × (a ≢ entry))
      → ((a : ℕ) → IsKept kernel_end s a → IsKept kernel_end mid a × (s.memory a ≡ mid.memory a))
      → IsMapping kernel_end mid entry pt addr (n * 4096) 7 r
      → IsServed s entry pt addr (elim r as (λ x. Option (Bool × Physical)) [
        | none ↦ none
        | some (ok, place, end) ↦ some (true, end)
      ])
  IsServed-by s mid entry pt addr n _ a f zeros keeps (exhausted place s' i u) = lost s' i u
  IsServed-by s mid entry pt addr n _ a f zeros keeps (found q pm s' i v e w same) =
      given n q pm s' i a v e w f
        (λ b in_page. let (z, kept, ne) = zeros b in_page in same b kept ne ∙ z)
        (λ b kept ne. let (kept', e') = keeps b kept in same b kept' ne ∙ sym e')

  -- The rest of the call, with the answer of kalloc.
  answered :
      (s : Physical) (pt addr q k pm : ℕ)
      → va_is_canonical addr ≡ true
      → addr % 4096 ≡ 0
      → IsReady kernel_end s pt addr q k pm
      → k < 4
      → pm % 8 ≡ 7
      → (target : ℕ) (s' : Physical) → Allocates kernel_end s s' target
      → IsPages kernel_end s'
      → IsServed s q pt addr (
          if target == 0
          then some (false, s')
          else elim (try_map kernel_end
                (iterator pt addr q k pm)
                target
                7
                (record s' { memory = memset target 0 4096 s'.memory }))
              as (λ x. Option (Bool × Physical)) [
                | none ↦ none
                | some (ok, place, end) ↦ some (true, end)
              ])
  answered s pt addr q k pm c al r le all _ s' (none_free u e m) j =
      refused s' j (λ n a. subst (λ f. f n ≢ 0) (sym e) (u n a))
  answered s pt addr q k pm c al r le all _ s' (page n a f least counts words) j =
      let low = low_allocatable kernel_end (n * 4096) a in
      let may : may_map (iterator pt addr q k pm) (n * 4096) 7 ≡ true =
        may_map_user pt addr q k pm n al (omega arith) all in
      rw (==_ne (n * 4096) 0 (omega arith)) (
        IsServed-by s (cleared s s' pt addr q k pm n r a f counts words) q pt addr n _ a f
          (new_page s s' pt addr q k pm n r a f counts words)
          (λ b kept. (
            IsKept-on s s' pt addr q k pm n r a f counts words b kept,
            unchanged s s' pt addr q k pm n r a f counts words b kept,
          ))
          (try_map-IsMapping kernel_end (cleared s s' pt addr q k pm n r a f counts words) pt addr q
            k pm (n * 4096) 7 c (cleared-IsReady s s' pt addr q k pm n r a f counts words) le
            (other_memory kernel_end s' _ j) (omega arith) (omega arith) refl may))

  -- For an aligned address of the application region whose walk is as IsReady says, with P, W and
  -- U on the way, and a page allocator with the invariant IsPages: syscall_page_alloc does not
  -- fail an assertion. It returns -1 only if no page is free. If it returns 0, a new iterator
  -- finds at the address a page that was free and is full of zeros, and no word of a page in use
  -- has changed but the entry where the walk ended; or no page was left for the tables of the
  -- mapping.
  pub syscall_page_alloc-IsServed :
      (s : Physical) (pt addr q k pm : ℕ)
      → 1048576 ≤ addr
      → addr < 3145728
      → addr % 4096 ≡ 0
      → IsReady kernel_end s pt addr q k pm
      → k < 4
      → pm % 8 ≡ 7
      → IsPages kernel_end s
      → IsServed s q pt addr (syscall_page_alloc kernel_end pt addr s)
  unfolding syscall_page_alloc
  syscall_page_alloc-IsServed s pt addr q k pm lo hi al r le all i =
      let c : va_is_canonical addr ≡ true = low_canonical addr hi in
      let (a, j) = kalloc-Allocates kernel_end 4096 s (omega arith) i in
      let high : leb 3145728 addr ≡ false = ground arith in
      rw (le→ltb addr 1048576 lo, high, vmiter_ready kernel_end s pt addr q k pm c r)
        (answered s pt addr q k pm c al r le all (kalloc kernel_end 4096 s).0
          (kalloc kernel_end 4096 s).1 a j)
