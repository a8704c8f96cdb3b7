-- ===== src/Weensyos/Vmiter/Find.antt =====
-- real_find of weensyos/k-vmiter.cc starts in the middle of a walk where it can.
use native.Mathlib.Numerals.{unary_clauses}
use native.Mathlib.Nat.{div-div-eq-div-mul}
use cs300_s23_projects_days.Prelude.{
  ℕ, zero, suc, ◌+◌, ◌-◌, ◌*◌, ◌/◌, ◌%◌, ◌^◌, ◌≤◌, ◌<◌, ◌≡◌, ◌≢◌, inl, inr, refl, sym, ap, subst,
  Bool, not, ◌&&◌, ◌||◌, some, ltb, leb, ◌==◌, if◌then◌else◌, arith, Bool-cases, Option-cases,
}
use cs300_s23_projects_days.Weensyos.{
  page_shift, pageindex, va_is_canonical, pte_p, pte_ps, pamask, bits_and,
}
use cs300_s23_projects_days.Weensyos.Vmiter.{
  entry_at, Place, Vmiter, initial_perm, value, checked, down, from_root, from_entry, same_table,
  at_place, real_find, vmiter,
}

page_shift-suc : (k : ℕ) → page_shift (suc k) ≡ page_shift k * 512
page_shift-suc k =
    let e : 12 + suc k * 9 ≡ suc (suc (suc (suc (suc (suc (suc (suc (suc (12 + k * 9))))))))) =
      omega arith in
    rw (e) (simp unary_clauses (omega arith))

coarser_suc :
    (k va va' : ℕ)
    → va / page_shift k ≡ va' / page_shift k
    → va / page_shift (suc k) ≡ va' / page_shift (suc k)
coarser_suc k va va' e =
    rw
      (
        page_shift-suc k,
        sym (div-div-eq-div-mul va (page_shift k) 512),
        sym (div-div-eq-div-mul va' (page_shift k) 512),
        e,
      )
      refl

-- Agreement above a level is agreement above a higher one.
pub coarser :
    (k d va va' : ℕ)
    → va / page_shift k ≡ va' / page_shift k
    → va / page_shift (d + k) ≡ va' / page_shift (d + k)
coarser k zero va va' e = let z : 0 + k ≡ k = omega arith in rw (z) e
coarser k (suc d) va va' e =
    let z : suc d + k ≡ suc (d + k) = omega arith in
    rw (z) (coarser_suc (d + k) va va' (coarser k d va va' e))

pub pageindex_same :
    (k l va va' : ℕ)
    → k ≤ l
    → va / page_shift k ≡ va' / page_shift k
    → pageindex va l ≡ pageindex va' l
unfolding pageindex
pageindex_same k l va va' le e =
    let z : l - k + k ≡ l = omega arith in
    let f : va / page_shift l ≡ va' / page_shift l =
      subst (λ j. va / page_shift j ≡ va' / page_shift j) z (coarser k (l - k) va va' e) in
    ap (λ x. x % 512) f

pub pageindex_small : (va l : ℕ) → pageindex va l < 512
unfolding pageindex
pageindex_small va l = omega arith

-- From one entry of a table to another.
sibling :
    (e i j : ℕ)
    → i < 512
    → pamask e + 8 * i + 8 * j - 8 * ((pamask e + 8 * i) % 4096 / 8) ≡ pamask e + 8 * j
sibling e i j small = omega arith

pub some_inj : {A : Type 0} (x y : A) → some x ≡ some y → x ≡ y
some_inj x y e = cc

module _ (load : ℕ → ℕ) where
  pub checked_is : (p r : Place) → checked load p ≡ some r → p ≡ r
  unfolding checked
  checked_is p r = elim (Bool-cases (leb (2 ^ 32) (pamask (value load p.pep)))) [
    | inl d ↦ rw (d) (λ e. absurd (cc))
    | inr d ↦ rw (d) (some_inj p r)
  ]

  pub checked-level : (p r : Place) → checked load p ≡ some r → p.level ≡ r.level
  checked-level p r e = ap (λ x. x.level) (checked_is p r e)

  -- An entry that leads to another table.
  abbrev pub goes : ℕ → Bool
  goes pep = pte_p (load pep) && not (pte_ps (load pep))

  -- The entry of va in the table that an entry leads to.
  abbrev pub entry_in : ℕ → ℕ → ℕ → ℕ
  entry_in pep l va = pamask (load pep) + 8 * pageindex va l

  pub down-level : (l pep pm va : ℕ) (r : Place) → down load l pep pm va ≡ some r → r.level ≤ l
  unfolding down
  down-level zero pep pm va r = λ e. omega (arith, checked-level _ r e)
  down-level (suc l) pep pm va r = elim (Bool-cases (goes pep)) [
    | inl d ↦
        rw (d)
          (λ e. omega (arith, down-level l (entry_in pep l va) (bits_and 12 pm (load pep)) va r e))
    | inr d ↦ rw (d) (λ e. omega (arith, checked-level _ r e))
  ]

  stopped :
      (l pep pm va : ℕ) (r : Place)
      → down load l pep pm va ≡ some r
      → r.level ≡ l
      → r ≡ record { pep = entry_at pep; level = l; perm = pm }
  unfolding down
  stopped zero pep pm va r = λ e here. sym (checked_is _ r e)
  stopped (suc l) pep pm va r = elim (Bool-cases (goes pep)) [
    | inl d ↦ rw (d) (λ e here.
        absurd (omega (arith, down-level l (entry_in pep l va) (bits_and 12 pm (load pep)) va r e)))
    | inr d ↦ rw (d) (λ e here. sym (checked_is _ r e))
  ]

  -- A walk that ends above level 0 does not look at the address below that level.
  pub walk_same :
      (l pep pm va va' : ℕ) (r : Place)
      → down load l pep pm va ≡ some r
      → va / page_shift r.level ≡ va' / page_shift r.level
      → down load l pep pm va' ≡ some r
  unfolding down
  walk_same zero pep pm va va' r = λ e same. e
  walk_same (suc l) pep pm va va' r = elim (Bool-cases (goes pep)) [
    | inl d ↦ rw (d) (λ e same.
        let lower = down-level l (entry_in pep l va) (bits_and 12 pm (load pep)) va r e in
        rw (sym (pageindex_same r.level l va va' lower same))
          (walk_same l (entry_in pep l va) (bits_and 12 pm (load pep)) va va' r e same))
    | inr d ↦ rw (d) (λ e same. e)
  ]

  -- A walk goes on from the entry of another address in the table where it ended.
  walk_on :
      (l pep pm va va' : ℕ) (r : Place)
      → down load l pep pm va ≡ some r
      → r.level < l
      → va / page_shift (suc r.level) ≡ va' / page_shift (suc r.level)
      → down load l pep pm va' ≡ from_entry load r va'
  unfolding down from_entry
  walk_on zero pep pm va va' r = λ e low same. absurd (omega arith)
  walk_on (suc l) pep pm va va' r = elim (Bool-cases (goes pep)) [
    | inl d ↦ rw (d) (λ e low same.
        let lower = down-level l (entry_in pep l va) (bits_and 12 pm (load pep)) va r e in
        elim (Bool-cases (ltb r.level l)) [
          | inl c ↦ rw (sym (pageindex_same (suc r.level) l va va' (ground arith) same)) (
              walk_on l (entry_in pep l va) (bits_and 12 pm (load pep)) va va' r e (ground arith)
                same)
          | inr c ↦
              let here : r.level ≡ l = ground arith in
              let r_is = stopped l (entry_in pep l va) (bits_and 12 pm (load pep)) va r e here in
              rw
                (r_is, sibling (load pep) (pageindex va l) (pageindex va' l) (pageindex_small va l))
                refl
        ])
    | inr d ↦ rw (d) (λ e low same. absurd (omega (arith, checked-level _ r e)))
  ]

pub canonical_same :
    (va va' : ℕ) → va / page_shift 3 ≡ va' / page_shift 3 → va_is_canonical va ≡ va_is_canonical va'
unfolding va_is_canonical
canonical_same va va' e = ground arith

module _ (load : ℕ → ℕ) where
  pub vmiter_is : (pt va : ℕ) → vmiter load pt va ≡ at_place pt va (from_root load pt va)
  unfolding vmiter real_find
  vmiter_is pt va = refl

  pub vmiter_from :
      (pt va : ℕ) (it : Vmiter)
      → vmiter load pt va ≡ some it
      → (from_root load pt va ≡ some it.place) × (it.pt ≡ pt) × (it.va ≡ va)
  vmiter_from pt va it = rw (vmiter_is pt va) (elim (Option-cases (from_root load pt va)) [
    | inl n ↦ rw (n) (λ e. absurd (cc))
    | inr (p, n) ↦ rw (n) (λ e.
        let f = some_inj _ _ e in
        (ap (λ x. some (x.place)) f, sym (ap (λ x. x.pt) f), sym (ap (λ x. x.va) f)))
  ])

  root_on :
      (pt va va' : ℕ) (r : Place)
      → from_root load pt va ≡ some r
      → r.level ≢ 3
      → va / page_shift (suc r.level) ≡ va' / page_shift (suc r.level)
      → from_root load pt va' ≡ from_entry load r va'
  unfolding from_root
  root_on pt va va' r = elim (Bool-cases (va_is_canonical va)) [
    | inr d ↦ rw (d) (λ e ne same. absurd (ne (sym (checked-level load _ r e))))
    | inl d ↦ rw (d) (λ e ne same.
        let high = down-level load 3 (pt + 8 * pageindex va 3) initial_perm va r e in
        let low : suc r.level ≤ 3 = omega arith in
        let fill : 3 - suc r.level + suc r.level ≡ 3 = omega arith in
        let top =
          subst (λ j. va / page_shift j ≡ va' / page_shift j) fill
            (coarser (suc r.level) (3 - suc r.level) va va' same) in
        rw
          (sym (canonical_same va va' top), d, sym (pageindex_same (suc r.level) 3 va va' low same))
          (walk_on load 3 (pt + 8 * pageindex va 3) initial_perm va va' r e low same))
  ]

  found :
      (pt va va' : ℕ) (r : Place)
      → from_root load pt va ≡ some r
      → (if r.level == 3 || not (same_table r.level va va')
          then from_root load pt va'
          else from_entry load r va')
        ≡ from_root load pt va'
  found pt va va' r e = elim (Bool-cases (r.level == 3)) [
    | inl c ↦ rw (c) refl
    | inr c ↦ elim (Bool-cases (same_table r.level va va')) [
      | inr d ↦ rw (c, d) refl
      | inl d ↦
          let next : r.level + 1 ≡ suc r.level = omega arith in
          let agree : va / page_shift (r.level + 1) ≡ va' / page_shift (r.level + 1) =
            ground arith in
          let agree' : va / page_shift (suc r.level) ≡ va' / page_shift (suc r.level) =
            subst (λ j. va / page_shift j ≡ va' / page_shift j) next agree in
          rw (c, d) (sym (root_on pt va va' r e (λ z. ground arith) agree'))
    ]
  ]

  -- From an iterator made at any address, real_find of another address, which goes on in the
  -- table where the iterator stands if it can, gives the same as a new iterator made at that
  -- address, panics included.
  pub real_find-vmiter :
      (pt va va' : ℕ) (it : Vmiter)
      → vmiter load pt va ≡ some it
      → real_find load it va' ≡ vmiter load pt va'
  unfolding real_find
  real_find-vmiter pt va va' it e =
      let (place, pt_is, va_is) = vmiter_from pt va it e in
      rw (pt_is, va_is, vmiter_is pt va') (ap (at_place pt va') (found pt va va' it.place place))
