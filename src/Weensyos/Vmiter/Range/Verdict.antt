-- ===== src/Weensyos/Vmiter/Range/Verdict.antt =====
-- What low_perm of weensyos/k-vmiter.hh answers.
use cs300_s23_projects_days.Prelude.{
  ℕ, zero, suc, ◌+◌, ◌-◌, ◌*◌, ◌/◌, ◌^◌, ◌≤◌, ◌<◌, ◌≡◌, refl, ap, ◌∙◌, subst, inl, inr, Bool, true,
  false, ◌&&◌, Option, some, ltb, leb, ◌==◌, arith, Bool-cases, ltb→lt, ==_iff,
}
use cs300_s23_projects_days.Weensyos.{page_shift, va_is_canonical, pageindex}
use cs300_s23_projects_days.Weensyos.Vmiter.{
  Place, Vmiter, from_root, vmiter, after_region, initial_perm,
}
use cs300_s23_projects_days.Weensyos.Vmiter.Find.{
  vmiter_is, vmiter_from, real_find-vmiter, down-level, checked-level,
}
use cs300_s23_projects_days.Weensyos.Vmiter.Skip.{in_region, root_same}
use cs300_s23_projects_days.Weensyos.Vmiter.Range.{
  va_lowend, last_va, has_perm, next_range, range_perm, found_perm, low_perm, low_perm_size,
}

-- The end of a region is at least a page further, and an address.
after_region_grows :
    (va level : ℕ)
    → level ≤ 3
    → va < 2 ^ 47
    → (va < after_region va level) × (va / 4096 < after_region va level / 4096)
after_region_grows va zero l h = omega arith
after_region_grows va (suc zero) l h = omega arith
after_region_grows va (suc (suc zero)) l h = omega arith
after_region_grows va (suc (suc (suc zero))) l h = omega arith
after_region_grows va (suc (suc (suc (suc level)))) l h = absurd (omega arith)

module _ (load : ℕ → ℕ) (pt : ℕ) where
  from_root-level : (va : ℕ) (r : Place) → from_root load pt va ≡ some r → r.level ≤ 3
  unfolding from_root
  from_root-level va r = elim (Bool-cases (va_is_canonical va)) [
    | inl d ↦ rw (d) (down-level load 3 (pt + 8 * pageindex va 3) initial_perm va r)
    | inr d ↦ rw (d) (λ e. omega (arith, checked-level load _ r e))
  ]

  -- Up to the end of its region, an iterator stands at the same entry.
  region_same :
      (va v : ℕ) (it : Vmiter)
      → vmiter load pt va ≡ some it
      → va ≤ v
      → v < last_va it
      → vmiter load pt v ≡ some (record it { va = v })
  unfolding last_va
  region_same va v it e lo hi =
      let (place, pt_is, va_is) = vmiter_from load pt va it e in
      let same : va / page_shift it.place.level ≡ v / page_shift it.place.level =
        elim (Bool-cases (va == v)) [
          | inl here ↦ ap (λ x. x / page_shift it.place.level) ((==_iff va v).0 here)
          | inr other ↦
              in_region va v it.place.level (ground arith)
                (subst (λ x. v < after_region x it.place.level) va_is hi)
        ] in
      rw (vmiter_is load pt v, root_same load pt va v it.place place same, pt_is) refl

  region_grows :
      (va : ℕ) (it : Vmiter)
      → vmiter load pt va ≡ some it
      → va < 2 ^ 47
      → (va < last_va it) × (va / 4096 < last_va it / 4096)
  unfolding last_va
  region_grows va it e h =
      let (place, _, va_is) = vmiter_from load pt va it e in
      rw (va_is) (after_region_grows va it.place.level (from_root-level va it.place place) h)

  -- What a test of [first, last) may answer: true if every address has the permissions p, false
  -- if one has not.
  pub data Verdict (first last p : ℕ) : Option (Bool × Vmiter) → Type 0 where
    granted :
        (it : Vmiter)
        → ((v : ℕ)
            → first ≤ v
            → v < last
            → (at : Vmiter) × (vmiter load pt v ≡ some at) × (has_perm load at p ≡ true))
        → Verdict first last p (some (true, it))
    denied :
        (it at : Vmiter) (v : ℕ)
        → first ≤ v
        → v < last
        → vmiter load pt v ≡ some at
        → has_perm load at p ≡ false
        → Verdict first last p (some (false, it))

  -- No address leads to a page that may be uninitialized.
  abbrev pub IsSane : Type 0
  IsSane = (v : ℕ) → (at : Vmiter) × (vmiter load pt v ≡ some at)

  -- The address has the permissions p.
  abbrev Grants : ℕ → ℕ → Type 0
  Grants p v = (at : Vmiter) × (vmiter load pt v ≡ some at) × (has_perm load at p ≡ true)

  granted_in_region :
      (p va : ℕ) (it : Vmiter)
      → vmiter load pt va ≡ some it
      → has_perm load it p ≡ true
      → (v : ℕ) → va ≤ v
      → v < last_va it
      → Grants p v
  unfolding has_perm
  granted_in_region p va it e h v lo hi = (record it { va = v }, region_same va v it e lo hi, h)

  next_range-vmiter :
      (va : ℕ) (it : Vmiter)
      → vmiter load pt va ≡ some it
      → next_range load it ≡ vmiter load pt (last_va it)
  unfolding next_range
  next_range-vmiter va it e = real_find-vmiter load pt va (last_va it) it e

  module _ (sane : IsSane) (first last p : ℕ) (low : last ≤ 2 ^ 47) where
    range_perm-Verdict :
        (fuel va : ℕ) (it : Vmiter)
        → vmiter load pt va ≡ some it
        → first ≤ va
        → ((v : ℕ) → first ≤ v → v < va → Grants p v)
        → last / 4096 < va / 4096 + fuel
        → Verdict first last p (range_perm load (suc fuel) it last p)
    unfolding range_perm
    range_perm-Verdict zero va it e from before enough =
        let (_, _, va_is) = vmiter_from load pt va it e in
        let done : ltb it.va last ≡ false = ground arith in
        rw (done) (granted it (λ v lo hi. before v lo (omega arith)))
    range_perm-Verdict (suc fuel) va it e from before enough =
        let (_, _, va_is) = vmiter_from load pt va it e in
        let test : ltb it.va last ≡ ltb va last = ap (λ x. ltb x last) va_is in
        elim (Bool-cases (ltb va last)) [
          | inr done ↦ rw (test ∙ done) (granted it (λ v lo hi. before v lo (ground arith)))
          | inl more ↦
              let below = ltb→lt va last more in
              elim (Bool-cases (has_perm load it p)) [
                | inr lacks ↦ rw (test ∙ more, lacks) (denied it it va from below e lacks)
                | inl has ↦
                    let (it', found) = sane (last_va it) in
                    let further = region_grows va it e (omega arith) in
                    rw (test ∙ more, has, next_range-vmiter va it e ∙ found)
                      (range_perm-Verdict fuel (last_va it) it' found (omega arith)
                        (λ v lo hi. elim (Bool-cases (ltb v va)) [
                          | inl old ↦ before v lo (ltb→lt v va old)
                          | inr new ↦ granted_in_region p va it e has v (ground arith) hi
                        ])
                        (omega arith))
              ]
        ]

    found_perm-Verdict :
        (it : Vmiter) (start : ℕ)
        → vmiter load pt start ≡ some it
        → Verdict first last p (found_perm load it first last p)
    unfolding found_perm
    found_perm-Verdict it start e =
        let (it', found) = sane first in
        rw (real_find-vmiter load pt start first it e ∙ found) (
          range_perm-Verdict (suc (last / 4096 - first / 4096)) first it' found (omega arith)
            (λ v lo hi. absurd (omega arith)) (omega arith))

  -- For a page table in which no walk panics, an iterator made at any address, and a range within
  -- the low half of the address space: the loop of low_perm ends. It answers true only if at
  -- every address of the range a new iterator has all the permissions asked for, and false only
  -- if at some address of the range it lacks one.
  pub low_perm-Verdict :
      (it : Vmiter) (start first last p : ℕ)
      → IsSane
      → vmiter load pt start ≡ some it
      → first ≤ last
      → last ≤ 2 ^ 47
      → Verdict first last p (low_perm load it first last p)
  unfolding low_perm
  low_perm-Verdict it start first last p sane e order low =
      let inside : (leb first last && leb last va_lowend) ≡ true = ground arith in
      elim (Bool-cases (first == last)) [
        | inl empty ↦ rw (inside, empty) (granted it (λ v lo hi. absurd (ground arith)))
        | inr some_bytes ↦
            rw (inside, some_bytes) (found_perm-Verdict sane first last p low it start e)
      ]

  pub low_perm_size-Verdict :
      (it : Vmiter) (start first size p : ℕ)
      → IsSane
      → vmiter load pt start ≡ some it
      → first + size ≤ 2 ^ 47
      → Verdict first (first + size) p (low_perm_size load it first size p)
  unfolding low_perm_size
  low_perm_size-Verdict it start first size p sane e low =
      let inside : (leb first va_lowend && leb size (va_lowend - first)) ≡ true = ground arith in
      elim (Bool-cases (size == 0)) [
        | inl empty ↦ rw (inside, empty) (granted it (λ v lo hi. absurd (ground arith)))
        | inr some_bytes ↦
            rw (inside, some_bytes) (found_perm-Verdict sane first (first + size) p low it start e)
      ]

  -- Outside of the low addresses the answer is false.
  pub low_perm_size-high :
      (it : Vmiter) (first size p : ℕ)
      → 2 ^ 47 < first + size
      → low_perm_size load it first size p ≡ some (false, it)
  unfolding low_perm_size
  low_perm_size-high it first size p high =
      let outside : (leb first va_lowend && leb size (va_lowend - first)) ≡ false = ground arith in
      rw (outside) refl
