-- ===== src/Dmalloc/Base/Contract.antt =====
-- The base allocator of dmalloc/basealloc.cc meets the contract of the debugging allocator.
use cs300_s23_projects_days.Prelude.{
  ℕ, ◌+◌, ◌%◌, ◌≤◌, ◌<◌, ◌≡◌, ◌≢◌, ◌⊎◌, inl, inr, refl, sym, ap, ◌∙◌, subst, true, Option, none,
  some, List, length, get_elem?, set, ltb, ◌==◌, if◌then◌else◌, word_mod, arith, Bool-cases,
  Option-cases, ==_ne, ==_self,
}
use cs300_s23_projects_days.Dmalloc.Pointers.{find, insert, find-insert, find-erase}
use cs300_s23_projects_days.Dmalloc.Base.{
  Malloc, BaseState, assign, last_or, pop_back, alloc_random, try_frees, reuse, fresh, remember,
  base_malloc, base_free, base_allocator,
}
use cs300_s23_projects_days.Dmalloc.Base.Regions.{find-assign, IsMalloc, IsRegion, IsGood}
use cs300_s23_projects_days.Dmalloc.Base.Stages.{
  not_there, reuse-IsGood, heap-IsGood, assign-IsGood,
}
use cs300_s23_projects_days.Dmalloc.Programs.{IsBase}
use cs300_s23_projects_days.Dmalloc.Base.Search.{Found, nothing, entry, try_frees-Found, nonempty}
use cs300_s23_projects_days.Dmalloc.Base.Back.{none-some, freed-IsGood}

module _ {M : Type 0} (os : Malloc M) (IsGiven : M → ℕ → ℕ → Type 0)
    (works : IsMalloc os IsGiven) where
  abbrev pub IsFine : BaseState M → Type 0
  IsFine = IsGood os IsGiven works

  abbrev pub IsActive : BaseState M → ℕ → ℕ → Type 0
  IsActive b p n = find p b.allocs ≡ some n

  -- From a state to a state with a block of n bytes at p, if p is a pointer.
  record IsServed (old b : BaseState M) (p n : ℕ) : Type 0 where
    fine : IsFine b
    keeps : (r m : ℕ) → IsActive old r m → IsActive b r m
    region : p ≢ 0 → (p % 8 ≡ 0) × (p + n + 8 < word_mod)
    active : p ≢ 0 → IsActive b p n
    away : p ≢ 0 → (r m : ℕ) → IsActive old r m → (p + n ≤ r) ⊎ (r + m ≤ p)

  -- A block that was just put in allocs gets the size that was asked for.
  cut_down :
      (b c : BaseState M) (n start size : ℕ)
      → IsFine b
      → IsFine c
      → find start b.allocs ≡ none
      → find start c.allocs ≡ some size
      → ((r m : ℕ) → IsActive b r m → IsActive c r m)
      → ((r m : ℕ) → IsActive b r m → (r + m ≤ start) ⊎ (start + size ≤ r))
      → n ≤ size
      → IsServed b (record c { allocs = assign start n c.allocs }) start n
  cut_down b c n start size i j absent at kept apart le =
      let region = j.allocs_region start size at in
      record {
        fine =
            assign-IsGood os IsGiven works c j start n
              (record {
                nonzero = region.nonzero;
                aligned = region.aligned;
                room = region.room;
                some_room = region.some_room;
                fits = omega (arith, region.fits);
                below = region.below;
                given = region.given;
              })
              (λ s z e ne. elim (j.allocs_apart start size s z at e ne) [
                | inl a ↦ inl (omega arith)
                | inr a ↦ inr a
              ])
              (λ l g e.
                let (ne, a) = j.both_apart start size l g at e in
                (ne, elim a [ inl x ↦ inl (omega arith) | inr x ↦ inr x ]));
        keeps = λ r m e.
            find-assign start r n c.allocs j.sorted
            ∙ rw (==_ne start r (λ z. none-some (sym absent ∙ ap (λ x. find x b.allocs) z ∙ e)))
                (kept r m e);
        region = λ ne. (region.aligned, omega (arith, region.below, region.fits));
        active = λ ne. find-assign start start n c.allocs j.sorted ∙ rw (==_self start) refl;
        away = λ ne r m e. elim (apart r m e) [ inl a ↦ inr a | inr a ↦ inl (omega arith) ];
      }

  fresh_ptr : (n ptr : ℕ) (c : BaseState M) → ptr ≢ 0 → fresh os n (ptr, c) ≡ (ptr, c)
  unfolding fresh
  fresh_ptr n ptr c ne = rw (==_ne ptr 0 ne) refl

  remember_ptr :
      (n ptr : ℕ) (c : BaseState M)
      → ptr ≢ 0
      → remember os n (ptr, c) ≡ (ptr, record c { allocs = assign ptr n c.allocs })
  unfolding remember
  remember_ptr n ptr c ne = rw (==_ne ptr 0 ne) refl

  remember_null : (n : ℕ) (c : BaseState M) → remember os n (0, c) ≡ (0, c)
  unfolding remember
  remember_null n c = refl

  abbrev Serves : BaseState M → ℕ → ℕ × BaseState M → Type 0
  Serves b n (p, c) = IsServed b c p n

  -- A block of frees, cut to the size.
  reused :
      (b : BaseState M) (n k start size : ℕ)
      → IsFine b
      → get_elem? b.frees k ≡ some (start, size)
      → n ≤ size
      → Serves b n (
          remember os n (
            fresh os n (
              reuse os
                (some (start, size, pop_back (set b.frees k (last_or (start, size) b.frees))))
                b)))
  unfolding reuse
  reused b n k start size i here le =
      let (f0, fs, all) = nonempty b.frees k (start, size) here in
      let here' = ap (λ l. get_elem? l k) (sym all) ∙ here in
      let j =
        subst
          (λ l. IsFine (record b {
            allocs = insert start size b.allocs;
            frees = pop_back (set l k (last_or (start, size) l));
          }))
          (sym all) (reuse-IsGood os IsGiven works b i f0 fs k start size all here') in
      let c : BaseState M = record b {
        allocs = insert start size b.allocs;
        frees = pop_back (set b.frees k (last_or (start, size) b.frees));
      } in
      let absent = not_there os IsGiven works b i f0 fs k start size all here' in
      let at : find start c.allocs ≡ some size =
        find-insert start start size b.allocs absent ∙ rw (==_self start) refl in
      let region = j.allocs_region start size at in
      rw (fresh_ptr n start c region.nonzero, remember_ptr n start c region.nonzero)
        (cut_down b c n start size i j absent at
          (λ r m e.
            find-insert start r size b.allocs absent
            ∙ rw (==_ne start r (λ z. none-some (sym absent ∙ ap (λ x. find x b.allocs) z ∙ e))) e)
          (λ r m e. (i.both_apart r m k (start, size) e here).1) le)

  -- What malloc is asked for.
  abbrev asked : ℕ → ℕ
  asked n = if n == 0 then 1 else n

  asked-le : (n : ℕ) → (0 < asked n) × (n ≤ asked n)
  asked-le n = (ground arith, ground arith)

  -- A region of malloc becomes a block.
  grown :
      (b : BaseState M) (n : ℕ)
      → IsFine b
      → (os.malloc (asked n) b.heap).0 ≢ 0
      → (let (p, heap') = os.malloc (asked n) b.heap in
          IsServed b (record b { heap = heap'; allocs = assign p n b.allocs }) p n)
  grown b n i ne =
      let (pos, le) = asked-le n in
      let p = (os.malloc (asked n) b.heap).0 in
      let heap' = (os.malloc (asked n) b.heap).1 in
      let (al, room, given, away) = works.gives (asked n) b.heap pos ne in
      let j =
        heap-IsGood os IsGiven works b heap' (λ s z g. works.keeps (asked n) s z b.heap g) i in
      let far : (s z : ℕ)
          → IsRegion os IsGiven works b.heap s z
          → (p ≢ s) × ((p + n ≤ s) ⊎ (s + z ≤ p)) =
        λ s z r. elim (away s r.room r.given) [
          | inl o ↦ (λ c. omega (arith, c, pos), inl (omega (arith, le)))
          | inr o ↦ (λ c. omega (arith, c, r.some_room), inr (omega (arith, r.fits)))
        ] in
      record {
        fine =
            assign-IsGood os IsGiven works (record b { heap = heap' }) j p n
              (record {
                nonzero = ne;
                aligned = al;
                room = asked n;
                some_room = pos;
                fits = le;
                below = room;
                given = given;
              })
              (λ s z e d. (far s z (i.allocs_region s z e)).1)
              (λ l g e. far g.0 g.1 (i.frees_region l g.0 g.1 e));
        keeps = λ r m e.
            find-assign p r n b.allocs i.sorted
            ∙ rw (==_ne p r (far r m (i.allocs_region r m e)).0) e;
        region = λ d. (al, omega (arith, room, le));
        active = λ d. find-assign p p n b.allocs i.sorted ∙ rw (==_self p) refl;
        away = λ d r m e. (far r m (i.allocs_region r m e)).1;
      }

  new_region :
      (b : BaseState M) (n : ℕ)
      → IsFine b
      → Serves b n (remember os n (fresh os n (reuse os none b)))
  unfolding reuse fresh remember
  new_region b n i = elim (Bool-cases ((os.malloc (asked n) b.heap).0 == 0)) [
    | inl d ↦ rw (d) (record {
      fine = heap-IsGood os IsGiven works b _ (λ s z g. works.keeps _ s z b.heap g) i;
      keeps = λ r m e. e;
      region = λ ne. absurd (ne (ground arith));
      active = λ ne. absurd (ne (ground arith));
      away = λ ne. absurd (ne (ground arith));
    })
    | inr d ↦ rw (d) (grown b n i (λ c. ground arith))
  ]

  served_found :
      (b : BaseState M) (n : ℕ) (f : Option (ℕ × ℕ × List (ℕ × ℕ)))
      → Found b.frees n f
      → IsFine b
      → Serves b n (remember os n (fresh os n (reuse os f b)))
  served_found b n _ nothing i = new_region b n i
  served_found b n _ (entry k start size here le) i = reused b n k start size i here le

  random-IsFine : (b : BaseState M) (x : ℕ) → IsFine b → IsFine (record b { x = x })
  random-IsFine b x i = record {
    enabled = i.enabled;
    sorted = i.sorted;
    allocs_region = i.allocs_region;
    frees_region = i.frees_region;
    allocs_apart = i.allocs_apart;
    both_apart = i.both_apart;
    frees_apart = i.frees_apart;
  }

  before : (b c : BaseState M) (x p n : ℕ) → IsServed (record b { x = x }) c p n → IsServed b c p n
  before b c x p n i = record {
    fine = i.fine;
    keeps = i.keeps;
    region = i.region;
    active = i.active;
    away = i.away;
  }

  -- What the search of base_malloc gives.
  abbrev searched : ℕ → BaseState M → Option (ℕ × ℕ × List (ℕ × ℕ)) × ℕ
  searched n b =
      if (alloc_random b.x).0 % 4 == 0
      then (none, (alloc_random b.x).1)
      else try_frees (if ltb 10 (length b.frees) then 10 else length b.frees) n b.frees
          (alloc_random b.x).1

  searched-Found : (n : ℕ) (b : BaseState M) → Found b.frees n (searched n b).0
  searched-Found n b = elim (Bool-cases ((alloc_random b.x).0 % 4 == 0)) [
    | inl d ↦ rw (d) nothing
    | inr d ↦ rw (d) (try_frees-Found _ n b.frees _)
  ]

  base_malloc-Serves : (b : BaseState M) (n : ℕ) → IsFine b → Serves b n (base_malloc os n b)
  unfolding base_malloc
  base_malloc-Serves b n i =
      let found = (searched n b).0 in
      let x = (searched n b).1 in
      let on : (b.disabled == 0) ≡ true = rw (i.enabled) refl in
      rw (on) (
        before b _ x _ n
          (served_found (record b { x = x }) n found (searched-Found n b) (random-IsFine b x i)))

  base_free-IsFine : (p : ℕ) (b : BaseState M) → IsFine b → IsFine (base_free os p b)
  unfolding base_free
  base_free-IsFine p b i =
      let on : (b.disabled == 0) ≡ true = rw (i.enabled) refl in
      elim (Bool-cases (p == 0)) [
        | inl d ↦
            let e : p ≡ 0 = ground arith in
            rw (on, d)
              (heap-IsGood os IsGiven works b (os.free p b.heap)
                (λ s z g.
                  subst (λ m. IsGiven m s z)
                    (sym (ap (λ q. os.free q b.heap) e ∙ works.free_null b.heap)) g)
                i)
        | inr d ↦ elim (Option-cases (find p b.allocs)) [
          | inl n ↦ rw (on, d, n) i
          | inr (size, n) ↦ rw (on, d, n) (freed-IsGood os IsGiven works b p size i n)
        ]
      ]

  base_free-keeps :
      (r p m : ℕ) (b : BaseState M)
      → IsFine b
      → r ≢ p
      → IsActive b p m
      → IsActive (base_free os r b) p m
  unfolding base_free
  base_free-keeps r p m b i ne e =
      let on : (b.disabled == 0) ≡ true = rw (i.enabled) refl in
      elim (Bool-cases (r == 0)) [
        | inl d ↦ rw (on, d) e
        | inr d ↦ elim (Option-cases (find r b.allocs)) [
          | inl n ↦ rw (on, d, n) e
          | inr (size, n) ↦ rw (on, d, n) (find-erase r p b.allocs i.sorted ∙ rw (==_ne r p ne) e)
        ]
      ]

  -- Over a malloc that gives out aligned regions away from those it gave out before, and a free
  -- that does nothing with nullptr: base_malloc and base_free, enabled and with their blocks
  -- apart, meet the contract IsBase on which the debugging allocator relies. So a block that
  -- base_malloc takes from the freed ones or from malloc has no byte in common with a block that
  -- is given out.
  pub base_allocator-IsBase : IsBase (base_allocator os) IsFine IsActive
  base_allocator-IsBase = record {
    malloc_good = λ n b i. (base_malloc-Serves b n i).fine;
    free_good = λ p b i. base_free-IsFine p b i;
    malloc_keeps = λ n p m b i e. (base_malloc-Serves b n i).keeps p m e;
    free_keeps = λ r p m b i ne e. base_free-keeps r p m b i ne e;
    served = λ n p b i e ne.
        let s = base_malloc-Serves b n i in
        let ne' : (base_malloc os n b).0 ≢ 0 = λ c. ne (e ∙ c) in
        rw (e) ((s.region ne').0, (s.region ne').1, s.active ne', s.away ne');
  }
