-- ===== src/Weensyos/Map/Mapping.antt =====
-- try_map of weensyos/k-vmiter.cc, as its callers see it: a new iterator finds what it maps.
use cs300_s23_projects_days.Prelude.{
  ℕ, zero, suc, ◌+◌, ◌-◌, ◌*◌, ◌/◌, ◌%◌, ◌^◌, ◌<◌, ◌≡◌, ◌≢◌, refl, ◌∙◌, subst, Bool, true, false,
  not, ◌&&◌, Option, some, leb, ◌==◌, if◌then◌else◌, arith, ==_ne, ==_self, word_mod,
}
use cs300_s23_projects_days.Weensyos.{pageindex, va_is_canonical, pte_p, pamask}
use cs300_s23_projects_days.Weensyos.Pages.{Physical}
use cs300_s23_projects_days.Weensyos.Pages.Laws.{IsPages, IsAllocatable}
use cs300_s23_projects_days.Weensyos.Vmiter.{
  entry_at, Place, Vmiter, checked, down, vmiter, initial_perm, from_root, pa,
}
use cs300_s23_projects_days.Weensyos.Vmiter.Find.{vmiter_is}
use cs300_s23_projects_days.Weensyos.Map.{try_map, may_map}
use cs300_s23_projects_days.Weensyos.Map.Walks.{down-Walk}
use cs300_s23_projects_days.Weensyos.Map.Table.{IsKept, IsAt}
use cs300_s23_projects_days.Weensyos.Map.Loop.{Maps, full, mapped, loop-Maps}

and_true : (a b : Bool) → (a && b) ≡ true → (a ≡ true) × (b ≡ true)
and_true true b e = (refl, e)
and_true false b e = absurd (cc)

==_eq : (a b : ℕ) → (a == b) ≡ true → a ≡ b
==_eq a b e = ground arith

abbrev pub iterator : ℕ → ℕ → ℕ → ℕ → ℕ → Vmiter
iterator pt va q k pm = record {
  pt = pt;
  place = record { pep = entry_at q; level = k; perm = pm };
  va = va;
}

-- The assertions for a page of the program.
pub may_map_user :
    (pt va q k pm n : ℕ)
    → va % 4096 ≡ 0
    → n < 512
    → pm % 8 ≡ 7
    → may_map (iterator pt va q k pm) (n * 4096) 7 ≡ true
unfolding may_map
may_map_user pt va q k pm n al small all =
    let b0 : pm / 1 % 2 ≡ 1 = omega arith in
    let b1 : pm / 2 % 2 ≡ 1 = omega arith in
    let b2 : pm / 4 % 2 ≡ 1 = omega arith in
    let mask : pamask (n * 4096) ≡ n * 4096 = omega arith in
    rw
      (
        al,
        b0,
        b1,
        b2,
        mask,
        ==_ne (n * 4096) 18446744073709551615 (omega arith),
        ==_self (n * 4096),
      )
      refl

module _ (kernel_end : ℕ) where
  -- The iterator at va of the page table pt stands at the entry q of level k: the entries on the way
  -- are in pages that kalloc does not give out, and the entry does not lead to a large page.
  pub record IsReady (s : Physical) (pt va q k pm : ℕ) : Type 0 where
    pub at : IsAt kernel_end s (pt + 8 * pageindex va 3) va q k pm
    pub free : 0 < k → pte_p (s.memory q) ≡ false
    pub sane : pamask (s.memory q) < 2 ^ 32

  down_ready :
      (load : ℕ → ℕ) (va q k pm : ℕ)
      → (0 < k → pte_p (load q) ≡ false)
      → pamask (load q) < 2 ^ 32
      → down load k q pm va ≡ some (record { pep = entry_at q; level = k; perm = pm })
  unfolding down checked
  down_ready load va q zero pm o sane =
      let low : leb (2 ^ 32) (pamask (load q)) ≡ false = ground arith in rw (low) refl
  down_ready load va q (suc k) pm o sane =
      let low : leb (2 ^ 32) (pamask (load q)) ≡ false = ground arith in
      rw (o (omega arith), low) refl

  vmiter-down :
      (load : ℕ → ℕ) (pt va : ℕ) (r : Place)
      → va_is_canonical va ≡ true
      → down load 3 (pt + 8 * pageindex va 3) initial_perm va ≡ some r
      → vmiter load pt va ≡ some (record { pt = pt; place = r; va = va })
  unfolding from_root
  vmiter-down load pt va r c e = rw (vmiter_is load pt va, c, e) refl

  pub vmiter_ready :
      (s : Physical) (pt va q k pm : ℕ)
      → va_is_canonical va ≡ true
      → IsReady s pt va q k pm
      → vmiter s.memory pt va ≡ some (iterator pt va q k pm)
  vmiter_ready s pt va q k pm c r = vmiter-down s.memory pt va _ c (
      down-Walk s.memory va _ q k pm 3 (pt + 8 * pageindex va 3) initial_perm r.at.walk
      ∙ down_ready s.memory va q k pm r.free r.sane)

  -- The result of a mapping of va to an address in the page table pt: nothing is left to allocate,
  -- or a new iterator finds the address. In pages in use, only the entry where try_map starts
  -- changes.
  pub data IsMapping (old : Physical) (entry pt va target perm : ℕ)
      : Option (Bool × Place × Physical) → Type 0 where
    exhausted :
        (place : Place) (s : Physical)
        → IsPages kernel_end s
        → ((n : ℕ) → IsAllocatable kernel_end (n * 4096) → s.refcount n ≢ 0)
        → IsMapping old entry pt va target perm (some (false, place, s))
    found :
        (q pm : ℕ) (s : Physical)
        → IsPages kernel_end s
        → vmiter s.memory pt va ≡ some (iterator pt va q 0 pm)
        → pa s.memory (iterator pt va q 0 pm) ≡ target
        → s.memory q ≡ target + perm
        → ((a : ℕ) → IsKept kernel_end old a → a ≢ entry → s.memory a ≡ old.memory a)
        → IsMapping old entry pt va target perm (some (true, (iterator pt va q 0 pm).place, s))

  found_pa :
      (load : ℕ → ℕ) (pt va q pm target perm : ℕ)
      → load q ≡ target + perm
      → va % 4096 ≡ 0
      → target % 4096 ≡ 0
      → target < 2 ^ 32
      → perm < 4096
      → pte_p perm ≡ true
      → pa load (iterator pt va q 0 pm) ≡ target
  unfolding pa
  found_pa load pt va q pm target perm e al al' small few p = rw (e) (ground arith)

  Maps-IsMapping :
      (old : Physical) (entry pt va target perm : ℕ) (r : Option (Bool × Place × Physical))
      → va_is_canonical va ≡ true
      → va % 4096 ≡ 0
      → target % 4096 ≡ 0
      → target < 2 ^ 32
      → perm < 4096
      → pte_p perm ≡ true
      → Maps kernel_end old entry (pt + 8 * pageindex va 3) va target perm r
      → IsMapping old entry pt va target perm r
  Maps-IsMapping old entry pt va target perm _ c al al' small few p (full place s i u) =
      exhausted place s i u
  Maps-IsMapping old entry pt va target perm _ c al al' small few p (mapped q pm s i e d same) =
      found q pm s i (vmiter-down s.memory pt va _ c d)
        (found_pa s.memory pt va q pm target perm e al al' small few p) e same

  may_map_aligned :
      (pt va q k pm target perm : ℕ)
      → pte_p perm ≡ true
      → may_map (iterator pt va q k pm) target perm ≡ true
      → (va % 4096 ≡ 0) × (target % 4096 ≡ 0)
  unfolding may_map
  may_map_aligned pt va q k pm target perm p may =
      let pair = (and_true _ _ (and_true _ _ (and_true _ _ may).0).0).0 in
      let (first, second) = and_true _ _ pair in
      let plain : (not (target == word_mod - 1) && pamask target == target) ≡ true =
        subst
          (λ b.
            (if b
              then not (target == word_mod - 1) && pamask target == target
              else not (pte_p target))
            ≡ true)
          p second in
      let mask : pamask target ≡ target =
        ==_eq (pamask target) target
          (and_true (not (target == word_mod - 1)) (pamask target == target) plain).1 in
      (==_eq _ _ first, omega (arith, mask))

  -- With an iterator at an entry as IsReady says, the page allocator's invariant, a target below
  -- 2^32 and permissions with P, for which the assertions hold: try_map ends. Either it returns
  -- -1 with no page free, or a new iterator finds the target at the address, with the permissions
  -- in its entry, and no word of a page in use has changed but the entry of the iterator.
  pub try_map-IsMapping :
      (s : Physical) (pt va q k pm target perm : ℕ)
      → va_is_canonical va ≡ true
      → IsReady s pt va q k pm
      → k < 4
      → IsPages kernel_end s
      → target < 2 ^ 32
      → perm < 4096
      → pte_p perm ≡ true
      → may_map (iterator pt va q k pm) target perm ≡ true
      → IsMapping s q pt va target perm (try_map kernel_end (iterator pt va q k pm) target perm s)
  unfolding try_map
  try_map-IsMapping s pt va q k pm target perm c r le i small few p may =
      let (al, al') = may_map_aligned pt va q k pm target perm p may in
      let pos : 0 < perm = ground arith in
      let plain : (if target == word_mod - 1 && perm == 0 then 0 else target) ≡ target =
        ground arith in
      rw (plain, may)
        (Maps-IsMapping s q pt va target perm _ c al al' small few p (
          loop-Maps kernel_end (pt + 8 * pageindex va 3) va target perm al' small pos few 4 s q k pm
            le i r.at r.free))
