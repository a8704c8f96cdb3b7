-- ===== src/Weensyos/Vmiter/Skip.antt =====
-- next of weensyos/k-vmiter.cc passes no page that is present.
use native.Mathlib.Nat.{div-eq_of_lt-le, div-mul-le_self}
use cs300_s23_projects_days.Prelude.{
  ℕ, zero, suc, ◌+◌, ◌-◌, ◌*◌, ◌/◌, ◌%◌, ◌≤◌, ◌<◌, ◌≡◌, ◌≢◌, ◌⊎◌, inl, inr, refl, sym, ◌∙◌, subst,
  true, false, not, ◌&&◌, some, ◌==◌, if◌then◌else◌, arith, Bool-cases,
}
use cs300_s23_projects_days.Weensyos.{
  page_shift, pageindex, va_is_canonical, pte_p, pte_ps, bits_and,
}
use cs300_s23_projects_days.Weensyos.Vmiter.{
  Place, Vmiter, initial_perm, value, down, from_root, vmiter, perm, present, next, after_region,
}
use cs300_s23_projects_days.Weensyos.Vmiter.Find.{
  walk_same, pageindex_same, canonical_same, down-level, vmiter_is, vmiter_from, coarser,
  checked_is, checked-level, goes, entry_in, real_find-vmiter,
}

-- The addresses in front of the end of a region lie in it.
pub in_region :
    (va v level : ℕ)
    → va < v
    → v < after_region va level
    → va / page_shift level ≡ v / page_shift level
in_region va v level lo hi =
    let size = page_shift level in
    let start : va / size * size ≤ va = div-mul-le_self va size in
    let hi' : v < (va / size + 1) * size = omega arith in
    sym (div-eq_of_lt-le size (omega (arith, start)) hi')

bits_and-odd : (n a b : ℕ) → a % 2 ≡ 1 → b % 2 ≡ 1 → bits_and (suc n) a b % 2 ≡ 1
unfolding bits_and
bits_and-odd n a b x y = rw (x, y) (omega arith)

pte_p-odd : (e : ℕ) → pte_p e ≡ true → e % 2 ≡ 1
pte_p-odd e h = ground arith

goes-odd : (e : ℕ) → (pte_p e && not (pte_ps e)) ≡ true → e % 2 ≡ 1
goes-odd e h = elim (Bool-cases (pte_p e)) [ inl d ↦ pte_p-odd e d | inr d ↦ absurd (ground arith) ]

module _ (load : ℕ → ℕ) where
  pub root_same :
      (pt va v : ℕ) (r : Place)
      → from_root load pt va ≡ some r
      → va / page_shift r.level ≡ v / page_shift r.level
      → from_root load pt v ≡ some r
  unfolding from_root
  root_same pt va v r = elim (Bool-cases (va_is_canonical va)) [
    | inr d ↦ rw (d) (λ e same.
        let top =
          subst (λ j. va / page_shift j ≡ v / page_shift j) (sym (checked-level load _ r e)) same in
        rw (sym (canonical_same va v top), d) e)
    | inl d ↦ rw (d) (λ e same.
        let low = down-level load 3 (pt + 8 * pageindex va 3) initial_perm va r e in
        let fill : 3 - r.level + r.level ≡ 3 = omega arith in
        let top =
          subst (λ j. va / page_shift j ≡ v / page_shift j) fill
            (coarser r.level (3 - r.level) va v same) in
        rw (sym (canonical_same va v top), d, sym (pageindex_same r.level 3 va v low same))
          (walk_same load 3 (pt + 8 * pageindex va 3) initial_perm va v r e same))
  ]

  -- perm_ keeps PTE_P in front of an entry that is present.
  down-odd :
      (l pep pm va : ℕ) (r : Place) → pm % 2 ≡ 1 → down load l pep pm va ≡ some r → r.perm % 2 ≡ 1
  unfolding down
  down-odd zero pep pm va r odd = λ e. subst (λ p. p.perm % 2 ≡ 1) (checked_is load _ r e) odd
  down-odd (suc l) pep pm va r odd = elim (Bool-cases (goes load pep)) [
    | inl d ↦ rw (d) (
        down-odd l (entry_in load pep l va) (bits_and 12 pm (load pep)) va r
          (bits_and-odd 11 pm (load pep) odd (goes-odd (load pep) d)))
    | inr d ↦ rw (d) (λ e. subst (λ p. p.perm % 2 ≡ 1) (checked_is load _ r e) odd)
  ]

  root-perm :
      (pt va : ℕ) (r : Place)
      → from_root load pt va ≡ some r
      → (value load r.pep ≡ 0) ⊎ (r.perm % 2 ≡ 1)
  unfolding from_root
  root-perm pt va r = elim (Bool-cases (va_is_canonical va)) [
    | inr d ↦ rw (d) (λ e. inl (subst (λ p. value load p.pep ≡ 0) (checked_is load _ r e) refl))
    | inl d ↦ rw (d) (λ e. inr (down-odd 3 (pt + 8 * pageindex va 3) initial_perm va r refl e))
  ]

  -- Without permissions, nothing is present.
  absent :
      (pt va : ℕ) (it : Vmiter)
      → from_root load pt va ≡ some it.place
      → perm load it ≡ 0
      → present load it ≡ false
  unfolding perm present
  absent pt va it f = elim (Bool-cases (pte_p (value load it.place.pep))) [
    | inr d ↦ λ z. d
    | inl d ↦ rw (d) (λ z. absurd (elim (root-perm pt va it.place f) [
      | inl c ↦ omega (arith, pte_p-odd (value load it.place.pep) d)
      | inr c ↦ omega (
        arith,
        bits_and-odd 11 it.place.perm (value load it.place.pep) c
            (pte_p-odd (value load it.place.pep) d),
      )
    ]))
  ]

  next-va :
      (pt va : ℕ) (it it' : Vmiter) (level : ℕ)
      → vmiter load pt va ≡ some it
      → next load it ≡ some it'
      → (if not (it.place.level == 0) && perm load it == 0 then it.place.level else 0) ≡ level
      → it'.va ≡ after_region va level
  unfolding next
  next-va pt va it it' level e n at =
      let (place, pt_is, va_is) = vmiter_from load pt va it e in
      let found : vmiter load pt (
            after_region it.va
              (if not (it.place.level == 0) && perm load it == 0 then it.place.level else 0))
          ≡ some it' =
        sym (real_find-vmiter load pt va _ it e) ∙ n in
      let (_, _, end) = vmiter_from load pt _ it' found in end ∙ rw (at, va_is) refl

  -- If next goes from an iterator made at an address to a later one, then at each address in
  -- between that is not in the first one's page, a new iterator stands at the same entry, which
  -- is not present: next skips no present page.
  pub next-skips :
      (pt va v : ℕ) (it it' : Vmiter)
      → vmiter load pt va ≡ some it
      → next load it ≡ some it'
      → va < v
      → v < it'.va
      → va / 4096 ≢ v / 4096
      → (vmiter load pt v ≡ some (record it { va = v }))
        × (present load (record it { va = v }) ≡ false)
  unfolding present
  next-skips pt va v it it' e n lo hi other =
      let (place, pt_is, va_is) = vmiter_from load pt va it e in
      elim (Bool-cases (not (it.place.level == 0) && perm load it == 0)) [
        | inl c ↦
            let z : perm load it ≡ 0 = ground arith in
            let same =
              in_region va v it.place.level lo
                (subst (λ x. v < x) (next-va pt va it it' it.place.level e n (rw (c) refl)) hi) in
            (
              rw (vmiter_is load pt v, root_same pt va v it.place place same, pt_is) refl,
              absent pt va it place z,
            )
        | inr c ↦ absurd (
            other (
              in_region va v 0 lo
                (subst (λ x. v < x) (next-va pt va it it' 0 e n (rw (c) refl)) hi)))
      ]
