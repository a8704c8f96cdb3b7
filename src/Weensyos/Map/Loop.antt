-- ===== src/Weensyos/Map/Loop.antt =====
-- The loop of try_map of weensyos/k-vmiter.cc ends at an entry of the last level.
use cs300_s23_projects_days.Prelude.{
  ℕ, zero, suc, ◌+◌, ◌*◌, ◌/◌, ◌%◌, ◌^◌, ◌<◌, ◌≡◌, ◌≢◌, refl, sym, ◌∙◌, subst, Bool, true, false,
  Option, none, some, leb, ◌==◌, if◌then◌else◌, arith, update, ==_ne, ==_self,
}
use cs300_s23_projects_days.Weensyos.{pte_p, pamask, bits_or}
use cs300_s23_projects_days.Weensyos.Pages.{Physical, kalloc, word_of}
use cs300_s23_projects_days.Weensyos.Pages.Laws.{
  IsPages, IsAllocatable, Allocates, none_free, page, kalloc-Allocates, low_allocatable,
}
use cs300_s23_projects_days.Weensyos.Vmiter.{entry_at, Place, checked, down, initial_perm, pa}
use cs300_s23_projects_days.Weensyos.Map.{store, add_table, map_loop}
use cs300_s23_projects_days.Weensyos.Map.Walks.{Walk-map, down-Walk}
use cs300_s23_projects_days.Weensyos.Map.Bits.{bits_or_sum}
use cs300_s23_projects_days.Weensyos.Map.Table.{
  IsKept, IsAt, lower, fewer, visited, step-IsAt, empty, down_once,
}

module _ (kernel_end : ℕ) where
  -- What try_map promises for the page at va of the table with the entry root: -1 only with no page
  -- left, or a walk to an entry of the last level with the address and the permissions. In pages in
  -- use, only the entry where it starts changes.
  pub data Maps (old : Physical) (entry root va pa perm : ℕ)
      : Option (Bool × Place × Physical) → Type 0 where
    full :
        (place : Place) (s : Physical)
        → IsPages kernel_end s
        → ((n : ℕ) → IsAllocatable kernel_end (n * 4096) → s.refcount n ≢ 0)
        → Maps old entry root va pa perm (some (false, place, s))
    mapped :
        (q pm : ℕ) (s : Physical)
        → IsPages kernel_end s
        → s.memory q ≡ pa + perm
        → down s.memory 3 root initial_perm va
          ≡ some (record { pep = entry_at q; level = 0; perm = pm })
        → ((a : ℕ) → IsKept kernel_end old a → a ≢ entry → s.memory a ≡ old.memory a)
        → Maps old entry root va pa perm
            (some (true, record { pep = entry_at q; level = 0; perm = pm }, s))

  pub other_memory :
      (s : Physical) (memory : ℕ → ℕ)
      → IsPages kernel_end s
      → IsPages kernel_end (record s { memory = memory })
  other_memory s memory i = record { aligned = i.aligned; below = i.below; counts = i.counts }

  -- The promise from the entry below is one from the entry that leads to it.
  wider :
      (s s' : Physical) (root va q k pm n : ℕ) (i : IsAt kernel_end s root va q (suc k) pm)
      (al : IsAllocatable kernel_end (n * 4096)) (free : s.refcount n ≡ 0)
      (counts : (j : ℕ) → s'.refcount j ≡ (if n == j then 1 else s.refcount j))
      (words : (a : ℕ) → s'.memory a ≡ (if a / 4096 == n then word_of 204 else s.memory a))
      (pa perm : ℕ) (r : Option (Bool × Place × Physical))
      → Maps
          (add_table q (n * 4096) s')
          (lower kernel_end s s' root va q k pm n i al free counts words)
          root
          va
          pa
          perm
          r
      → Maps s q root va pa perm r
  wider s s' root va q k pm n i al free counts words pa perm _ (full place s2 p u) =
      full place s2 p u
  wider s s' root va q k pm n i al free counts words pa perm _ (mapped q' pm' s2 p e d same) =
      mapped q' pm' s2 p e d (λ a kept ne.
        let ((kept', ne'), e') =
          visited kernel_end s s' root va q k pm n i al free counts words a (kept, ne) in
        same a kept' ne' ∙ sym e')

  table-IsPages :
      (q pt : ℕ) (s : Physical) → IsPages kernel_end s → IsPages kernel_end (add_table q pt s)
  unfolding add_table
  table-IsPages q pt s i = record { aligned = i.aligned; below = i.below; counts = i.counts }

  module _ (root va pa perm : ℕ) (al : pa % 4096 ≡ 0) (small : pa < 2 ^ 32) (some_perm : 0 < perm)
      (few : perm < 4096) where
    last :
        (s : Physical) (q pm : ℕ)
        → IsPages kernel_end s
        → IsAt kernel_end s root va q 0 pm
        → Maps s q root va pa perm (
            some (
              true,
              record { pep = entry_at q; level = 0; perm = pm },
              store q (bits_or pa perm) s,
            ))
    unfolding down checked
    last s q pm pages i =
        let word : update s.memory q (bits_or pa perm) q ≡ pa + perm =
          rw (==_self q) (bits_or_sum pa perm al few) in
        let walk =
          Walk-map s.memory (update s.memory q (bits_or pa perm)) va _ (λ a. Unit) q 0 pm 3 root
            initial_perm (λ a p. (tt, sym (rw (==_ne q a (λ c. p.1 (sym c))) refl))) i.walk in
        let mask : leb (2 ^ 32) (pamask (pa + perm)) ≡ false = ground arith in
        mapped q pm (store q (bits_or pa perm) s) (other_memory s _ pages) word
          (down-Walk (update s.memory q (bits_or pa perm)) va _ q 0 pm 3 root initial_perm walk
            ∙ rw (word, mask) refl)
          (λ a kept ne. rw (==_ne q a (λ c. ne (sym c))) refl)

    -- An iteration, with the answer of kalloc.
    grown :
        (fuel : ℕ) (s : Physical) (q k pm pt : ℕ) (s' : Physical)
        → Allocates kernel_end s s' pt
        → IsPages kernel_end s'
        → IsAt kernel_end s root va q (suc k) pm
        → ((s : Physical) (q pm : ℕ)
            → IsPages kernel_end s
            → IsAt kernel_end s root va q k pm
            → (0 < k → pte_p (s.memory q) ≡ false)
            → Maps s q root va pa perm (
                map_loop kernel_end fuel
                  (record { pep = entry_at q; level = k; perm = pm })
                  va
                  pa
                  perm
                  s))
        → Maps s q root va pa perm (
            if pt == 0
            then some (false, record { pep = entry_at q; level = suc k; perm = pm }, s')
            else elim (down (add_table q pt s').memory (suc k) q pm va) [
              | none ↦ none
              | some lower' ↦ map_loop kernel_end fuel lower' va pa perm (add_table q pt s')
            ])
    grown fuel s q k pm _ s' (none_free u r m) j i rest =
        full _ s' j (λ n a. subst (λ f. f n ≢ 0) (sym r) (u n a))
    grown fuel s q k pm _ s' (page n a f least counts words) j i rest =
        let low = low_allocatable kernel_end (n * 4096) a in
        let bare = empty kernel_end s s' root va q k pm n i a f counts words in
        rw
          (
            ==_ne (n * 4096) 0 (omega arith),
            down_once kernel_end s s' root va q k pm n i a f counts words,
          )
          (wider s s' root va q k pm n i a f counts words pa perm _ (
            rest (add_table q (n * 4096) s')
              (lower kernel_end s s' root va q k pm n i a f counts words)
              (fewer kernel_end s s' root va q k pm n i a f counts words)
              (table-IsPages q (n * 4096) s' j)
              (step-IsAt kernel_end s s' root va q k pm n i a f counts words)
              (λ p. rw (bare) refl)))

    pub loop-Maps :
        (fuel : ℕ) (s : Physical) (q k pm : ℕ)
        → k < fuel
        → IsPages kernel_end s
        → IsAt kernel_end s root va q k pm
        → (0 < k → pte_p (s.memory q) ≡ false)
        → Maps s q root va pa perm (
            map_loop kernel_end fuel
              (record { pep = entry_at q; level = k; perm = pm })
              va
              pa
              perm
              s)
    unfolding map_loop
    loop-Maps zero s q k pm le pages i free = absurd (omega arith)
    loop-Maps (suc fuel) s q zero pm le pages i free = last s q pm pages i
    loop-Maps (suc fuel) s q (suc k) pm le pages i free =
        let (a, j) = kalloc-Allocates kernel_end 4096 s (omega arith) pages in
        rw (==_ne (suc k) 0 (omega arith), ==_ne perm 0 (omega arith), free (omega arith))
          (grown fuel s q k pm (kalloc kernel_end 4096 s).0 (kalloc kernel_end 4096 s).1 a j i
            (λ s' q' pm' p' i' f. loop-Maps fuel s' q' k pm' (omega arith) p' i' f))
