-- ===== src/Weensyos/Map/Table.antt =====
-- A new table in an empty entry, as in the loop of try_map of weensyos/k-vmiter.cc.
use cs300_s23_projects_days.Prelude.{
  ℕ, zero, suc, ◌+◌, ◌*◌, ◌/◌, ◌<◌, ◌≡◌, ◌≢◌, ◌⊎◌, inl, inr, refl, sym, ap, ◌∙◌, subst, true, not,
  ◌&&◌, some, ◌==◌, if◌then◌else◌, arith, Bool-cases, ==_ne, ==_self,
}
use cs300_s23_projects_days.Weensyos.{pageindex, pte_p, pte_ps, pamask, bits_and}
use cs300_s23_projects_days.Weensyos.Pages.{Physical, word_of}
use cs300_s23_projects_days.Weensyos.Pages.Laws.{IsAllocatable, low_allocatable, memset-page}
use cs300_s23_projects_days.Weensyos.Vmiter.{entry_at, checked, down, initial_perm}
use cs300_s23_projects_days.Weensyos.Vmiter.Find.{goes, pageindex_small}
use cs300_s23_projects_days.Weensyos.Map.{add_table}
use cs300_s23_projects_days.Weensyos.Map.Walks.{Walk, Walk-map, Walk-more}
use cs300_s23_projects_days.Weensyos.Map.Bits.{bits_or_sum}

down_empty :
    (load : ℕ → ℕ) (l p pm va : ℕ)
    → load p ≡ 0
    → down load l p pm va ≡ some (record { pep = entry_at p; level = l; perm = pm })
unfolding down checked
down_empty load zero p pm va e = rw (e) refl
down_empty load (suc l) p pm va e = rw (e) refl

down_into :
    (load : ℕ → ℕ) (l p pm va w : ℕ)
    → load p ≡ w
    → (pte_p w && not (pte_ps w)) ≡ true
    → down load (suc l) p pm va ≡ down load l (pamask w + 8 * pageindex va l) (bits_and 12 pm w) va
unfolding down
down_into load l p pm va w e g = rw (e, g) refl

module _ (kernel_end : ℕ) where
  -- A page that kalloc does not give out.
  abbrev pub IsKept : Physical → ℕ → Type 0
  IsKept s a = (s.refcount (a / 4096) ≢ 0) ⊎ (IsAllocatable kernel_end (a / 4096 * 4096) → ⊥)

  -- The walk to the entry q at level k, through entries that are kept.
  pub record IsAt (s : Physical) (root va q k n : ℕ) : Type 0 where
    pub walk : Walk s.memory va (λ a. IsKept s a × (a ≢ q)) q k n 3 root initial_perm
    pub here : IsKept s q

  pub kept_elsewhere :
      (s s' : Physical) (n a : ℕ)
      → IsAllocatable kernel_end (n * 4096)
      → s.refcount n ≡ 0
      → IsKept s a
      → a / 4096 ≢ n
  kept_elsewhere s s' n a al free (inl u) e = u (subst (λ x. s.refcount x ≡ 0) (sym e) free)
  kept_elsewhere s s' n a al free (inr u) e =
      u (subst (λ x. IsAllocatable kernel_end (x * 4096)) (sym e) al)

  pub still-IsKept :
      (s s' : Physical) (n a : ℕ)
      → ((k : ℕ) → s'.refcount k ≡ (if n == k then 1 else s.refcount k))
      → a / 4096 ≢ n
      → IsKept s a
      → IsKept s' a
  still-IsKept s s' n a same ne (inl u) = inl (
      subst (λ x. x ≢ 0) (sym (same (a / 4096) ∙ rw (==_ne n (a / 4096) (λ c. ne (sym c))) refl)) u)
  still-IsKept s s' n a same ne (inr u) = inr u

  -- The word at a when the new table n * 4096 is in the entry q.
  table-memory :
      (s s' : Physical) (n q a : ℕ)
      → ((b : ℕ) → s'.memory b ≡ (if b / 4096 == n then word_of 204 else s.memory b))
      → (add_table q (n * 4096) s').memory a
        ≡ (if q == a then n * 4096 + 7 else (if a / 4096 == n then 0 else s.memory a))
  unfolding add_table
  table-memory s s' n q a same =
      rw (memset-page n 0 a s'.memory, bits_or_sum (n * 4096) 7 (omega arith) (omega arith))
        (elim (Bool-cases (a / 4096 == n)) [
          | inl d ↦ rw (d) refl
          | inr d ↦ let keep : s'.memory a ≡ s.memory a = same a ∙ rw (d) refl in rw (d, keep) refl
        ])

  table_entry :
      (n : ℕ)
      → n < 512
      → (pamask (n * 4096 + 7) ≡ n * 4096)
        × ((pte_p (n * 4096 + 7) && not (pte_ps (n * 4096 + 7))) ≡ true)
  table_entry n small = (omega arith, ground arith)

  module _ (s s' : Physical) (root va q k pm n : ℕ) (i : IsAt s root va q (suc k) pm)
      (al : IsAllocatable kernel_end (n * 4096)) (free : s.refcount n ≡ 0)
      (counts : (j : ℕ) → s'.refcount j ≡ (if n == j then 1 else s.refcount j))
      (words : (a : ℕ) → s'.memory a ≡ (if a / 4096 == n then word_of 204 else s.memory a)) where
    -- Where the walk stands then.
    abbrev pub lower : ℕ
    lower = n * 4096 + 8 * pageindex va k

    abbrev pub fewer : ℕ
    fewer = bits_and 12 pm (n * 4096 + 7)

    lower_page : (lower / 4096 ≡ n) × (0 < n) × (n < 512)
    lower_page =
        let small = pageindex_small va k in
        let low = low_allocatable kernel_end (n * 4096) al in
        (omega (arith, small), omega arith, omega arith)

    apart_q : q / 4096 ≢ n
    apart_q = kept_elsewhere s s' n q al free i.here

    written : (add_table q (n * 4096) s').memory q ≡ n * 4096 + 7
    written = table-memory s s' n q q words ∙ rw (==_self q) refl

    pub visited :
        (a : ℕ)
        → IsKept s a × (a ≢ q)
        → (IsKept (add_table q (n * 4096) s') a × (a ≢ lower))
          × (s.memory a ≡ (add_table q (n * 4096) s').memory a)
    unfolding add_table
    visited a (kept, ne) =
        let away = kept_elsewhere s s' n a al free kept in
        (
          (still-IsKept s s' n a counts away kept, λ e. away (ap (λ x. x / 4096) e ∙ lower_page.0)),
          sym (
              table-memory s s' n q a words
              ∙ rw (==_ne q a (λ c. ne (sym c)), ==_ne (a / 4096) n away) refl),
        )

    lower-IsKept : IsKept (add_table q (n * 4096) s') lower
    unfolding add_table
    lower-IsKept =
        let one : s'.refcount (lower / 4096) ≡ 1 =
          counts (lower / 4096) ∙ rw (lower_page.0, ==_self n) refl in
        inl (λ z. omega (arith, one))

    q-IsKept : IsKept (add_table q (n * 4096) s') q
    unfolding add_table
    q-IsKept = still-IsKept s s' n q counts apart_q i.here

    pub step-IsAt : IsAt (add_table q (n * 4096) s') root va lower k fewer
    step-IsAt =
        let (mask, go) = table_entry n lower_page.2 in
        let load = (add_table q (n * 4096) s').memory in
        let P : ℕ → Type 0 = λ a. IsKept (add_table q (n * 4096) s') a × (a ≢ lower) in
        let old = Walk-map s.memory load va _ P q (suc k) pm 3 root initial_perm visited i.walk in
        let goes_q : goes load q ≡ true =
          subst (λ x. (pte_p x && not (pte_ps x)) ≡ true) (sym written) go in
        let new =
          Walk-more load va P q k pm 3 root initial_perm
            (q-IsKept, λ e. apart_q (ap (λ x. x / 4096) e ∙ lower_page.0)) goes_q old in
        let new' : Walk load va P (pamask (n * 4096 + 7) + 8 * pageindex va k) k fewer 3 root
            initial_perm =
          subst
            (λ x.
              Walk load va P (pamask x + 8 * pageindex va k) k (bits_and 12 pm x) 3 root
                initial_perm)
            written new in
        record {
          walk =
              subst (λ x. Walk load va P (x + 8 * pageindex va k) k fewer 3 root initial_perm) mask
                new';
          here = lower-IsKept;
        }

    pub empty : (add_table q (n * 4096) s').memory lower ≡ 0
    empty =
        table-memory s s' n q lower words
        ∙ rw
            (
              ==_ne q lower (λ e. apart_q (ap (λ x. x / 4096) e ∙ lower_page.0)),
              lower_page.0,
              ==_self n,
            )
            refl

    -- down goes one level down, to the empty entry.
    pub down_once :
        down (add_table q (n * 4096) s').memory (suc k) q pm va
        ≡ some (record { pep = entry_at lower; level = k; perm = fewer })
    down_once =
        let (mask, go) = table_entry n lower_page.2 in
        let empty' : (add_table q (n * 4096) s').memory (pamask (n * 4096 + 7) + 8 * pageindex va k)
            ≡ 0 =
          subst (λ x. (add_table q (n * 4096) s').memory (x + 8 * pageindex va k) ≡ 0) (sym mask)
            empty in
        down_into (add_table q (n * 4096) s').memory k q pm va (n * 4096 + 7) written go
        ∙ down_empty (add_table q (n * 4096) s').memory k
            (pamask (n * 4096 + 7) + 8 * pageindex va k) fewer va empty'
        ∙ rw (mask) refl
