-- ===== src/Weensyos/Processes/Tables.antt =====
-- Page tables of weensyos whose words are small: no walk of vmiter panics, and what a process may
-- use lies in the memory.
use cs300_s23_projects_days.Prelude.{
  ℕ, zero, suc, ◌+◌, ◌*◌, ◌/◌, ◌%◌, ◌^◌, ◌<◌, ◌≡◌, refl, sym, ap, ◌∙◌, subst, ◌⊎◌, inl, inr, true,
  false, not, ◌&&◌, some, leb, arith, Bool-cases,
}
use cs300_s23_projects_days.Weensyos.{
  pamask, pageindex, va_is_canonical, bits_and, pte_p, pte_ps, bit,
}
use cs300_s23_projects_days.Weensyos.Vmiter.{
  Entry, entry_at, zero_pe, Place, Vmiter, at_place, value, checked, down, from_root, user, pa,
  initial_perm,
}
use cs300_s23_projects_days.Weensyos.Vmiter.Find.{some_inj, vmiter_is, vmiter_from}
use cs300_s23_projects_days.Weensyos.Vmiter.Range.Verdict.{IsSane}
use cs300_s23_projects_days.Weensyos.Processes.Exit.{IsMapped}

module _ (load : ℕ → ℕ) where
  -- A word of a table: an address in the memory, without the bit PTE_PS.
  pub record IsTables : Type 0 where
    pub inside : (a : ℕ) → load a < 2097152
    pub small : (a : ℕ) → load a / 128 % 2 ≡ 0

  -- The walk ends in the last level, or in an entry that leads to no table.
  abbrev IsLeaf : Place → Type 0
  IsLeaf r = (r.level ≡ 0) ⊎ (pte_p (value load r.pep) && not (pte_ps (value load r.pep)) ≡ false)

  module _ (tables : IsTables) where
    value-inside : (e : Entry) → value load e < 2097152
    value-inside (entry_at pep) = tables.inside pep
    value-inside zero_pe = omega arith

    value-small : (e : Entry) → value load e / 128 % 2 ≡ 0
    value-small (entry_at pep) = tables.small pep
    value-small zero_pe = refl

    checked-some : (p : Place) → checked load p ≡ some p
    unfolding checked
    checked-some p =
        let in_memory = value-inside p.pep in
        let passes : leb (2 ^ 32) (pamask (value load p.pep)) ≡ false = ground arith in
        rw (passes) refl

    down-some :
        (level pep perm va : ℕ) → (r : Place) × (down load level pep perm va ≡ some r) × IsLeaf r
    unfolding down
    down-some zero pep perm va = (_, checked-some _, inl refl)
    down-some (suc level) pep perm va =
        elim (Bool-cases (pte_p (load pep) && not (pte_ps (load pep)))) [
          | inl goes ↦ rw (goes) (
              down-some level (pamask (load pep) + 8 * pageindex va level)
                (bits_and 12 perm (load pep)) va)
          | inr stays ↦ rw (stays) (
            record { pep = entry_at pep; level = suc level; perm = perm },
            checked-some _,
            inr stays,
          )
        ]

    root-some : (pt va : ℕ) → (r : Place) × (from_root load pt va ≡ some r) × IsLeaf r
    unfolding from_root
    root-some pt va = elim (Bool-cases (va_is_canonical va)) [
      | inl c ↦ rw (c) (down-some 3 (pt + 8 * pageindex va 3) initial_perm va)
      | inr c ↦ rw (c) (record { pep = zero_pe; level = 3; perm = 0 }, checked-some _, inr refl)
    ]

    pub tables-IsSane : (pt : ℕ) → IsSane load pt
    tables-IsSane pt va =
        let (r, e, leaf) = root-some pt va in (_, vmiter_is load pt va ∙ ap (at_place pt va) e)

    parity : (b : ℕ) → (b % 2 ≡ 0) ⊎ (b % 2 ≡ 1)
    parity b = ground arith

    odd_product : (a b n : ℕ) → (a % 2 * (b % 2) + 2 * n) % 2 ≡ 1 → b % 2 ≡ 1
    odd_product a b n h = elim (parity b) [
      | inl even ↦
          let no_bit : a % 2 * (b % 2) ≡ 0 = rw (even) (omega arith) in
          absurd (omega (arith, no_bit))
      | inr odd ↦ odd
    ]

    -- A bit in both words.
    bits_and-odd : (n a b : ℕ) → bit (bits_and (suc n) a b) 0 ≡ true → b % 2 ≡ 1
    unfolding bits_and
    bits_and-odd n a b h = odd_product a b (bits_and n (a / 2) (b / 2)) (ground arith)

    user-present : (at : Vmiter) → user load at ≡ true → pte_p (value load at.place.pep) ≡ true
    unfolding user
    user-present at u =
        let first_bit : bit (bits_and 12 at.place.perm (value load at.place.pep)) 0 ≡ true =
          ground arith in
        let odd = bits_and-odd 11 at.place.perm (value load at.place.pep) first_bit in ground arith

    -- A page that is present and lies in the memory is found at the last level.
    last_level : (r : Place) → IsLeaf r → pte_p (value load r.pep) ≡ true → r.level ≡ 0
    last_level r (inl zero_level) p = zero_level
    last_level r (inr leaf) p =
        let few = value-small r.pep in
        let no_ps : pte_ps (value load r.pep) ≡ false = ground arith in absurd (ground arith)

    found-IsLeaf : (pt va : ℕ) (r : Place) → from_root load pt va ≡ some r → IsLeaf r
    found-IsLeaf pt va r e =
        let (r', e', leaf) = root-some pt va in subst IsLeaf (some_inj r' r (sym e' ∙ e)) leaf

    pa-last :
        (at : Vmiter)
        → at.place.level ≡ 0
        → at.va % 4096 ≡ 0
        → pte_p (value load at.place.pep) ≡ true
        → pa load at ≡ pamask (value load at.place.pep)
    unfolding pa
    pa-last at level al p = rw (p, level) (omega arith)

    pub tables-IsMapped : (pt : ℕ) → IsMapped load pt
    tables-IsMapped pt va at al e u =
        let (root, _, va_is) = vmiter_from load pt va at e in
        let present = user-present at u in
        let level = last_level at.place (found-IsLeaf pt va at.place root) present in
        let address = pa-last at level (omega (arith, va_is)) present in
        let bound = value-inside at.place.pep in (omega arith, omega arith)
