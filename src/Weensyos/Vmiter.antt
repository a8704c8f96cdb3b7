-- ===== src/Weensyos/Vmiter.antt =====
-- vmiter of weensyos/k-vmiter.hh and k-vmiter.cc: the iterator over the mappings of a page table.
-- load answers the word at a physical address. A panic is none.
pub mod Find
pub mod Skip
pub mod Range
use cs300_s23_projects_days.Prelude.{
  ℕ, zero, suc, ◌+◌, ◌-◌, ◌*◌, ◌/◌, ◌%◌, ◌^◌, Bool, true, false, not, ◌&&◌, ◌||◌, Option, none,
  some, ltb, leb, ◌==◌, if◌then◌else◌, word_mod,
}
use cs300_s23_projects_days.Weensyos.{
  page_shift, pageindex, va_is_canonical, bit, pte_p, pte_ps, pamask, bits_and,
}

-- pep_: the address of an entry, or the address of zero_pe.
pub data Entry : Type 0 where
  entry_at : ℕ → Entry
  zero_pe : Entry

-- Where a walk ends: pep_, level_ and perm_.
pub record Place : Type 0 where
  pub pep : Entry
  pub level : ℕ
  pub perm : ℕ

pub record Vmiter : Type 0 where
  pub pt : ℕ
  pub place : Place
  pub va : ℕ

abbrev pub initial_perm : ℕ
initial_perm = 4095

-- (va ^ va') & ~pageoffmask(level + 1) is 0.
abbrev pub same_table : ℕ → ℕ → ℕ → Bool
same_table level va va' = va / page_shift (level + 1) == va' / page_shift (level + 1)

-- The iterator after down.
abbrev pub at_place : ℕ → ℕ → Option Place → Option Vmiter
at_place pt va none = none
at_place pt va (some p) = some (record { pt = pt; place = p; va = va })

-- (va | pageoffmask(level)) + 1
abbrev pub after_region : ℕ → ℕ → ℕ
after_region va level = (va / page_shift level + 1) * page_shift level % word_mod

module _ (load : ℕ → ℕ) where
  abbrev pub value : Entry → ℕ
  value (entry_at pep) = load pep
  value zero_pe = 0

  -- The test at the end of down.
  unfoldable pub checked : Place → Option Place
  checked p = if leb (2 ^ 32) (pamask (value p.pep)) then none else some p

  -- down: from the entry pep at a level.
  unfoldable pub down : ℕ → ℕ → ℕ → ℕ → Option Place
  down zero pep perm va = checked (record { pep = entry_at pep; level = 0; perm = perm })
  down (suc level) pep perm va =
      let e = load pep in
      let below = down level (pamask e + 8 * pageindex va level) (bits_and 12 perm e) va in
      if pte_p e && not (pte_ps e)
      then below
      else checked (record { pep = entry_at pep; level = suc level; perm = perm })

  -- The first branch of real_find.
  unfoldable pub from_root : ℕ → ℕ → Option Place
  from_root pt va =
      if va_is_canonical va
      then down 3 (pt + 8 * pageindex va 3) initial_perm va
      else checked (record { pep = zero_pe; level = 3; perm = 0 })

  -- The other branch: the entry for va in the same table.
  unfoldable pub from_entry : Place → ℕ → Option Place
  from_entry p va = elim p.pep [
    | zero_pe ↦ none
    | entry_at pep ↦ down p.level (pep + 8 * pageindex va p.level - 8 * (pep % 4096 / 8)) p.perm va
  ]

  unfoldable pub real_find : Vmiter → ℕ → Option Vmiter
  real_find it va =
      let root = from_root it.pt va in
      let near = from_entry it.place va in
      at_place it.pt va
        (if it.place.level == 3 || not (same_table it.place.level it.va va) then root else near)

  -- The constructor.
  unfoldable pub vmiter : ℕ → ℕ → Option Vmiter
  vmiter pt va =
      real_find
        (record {
          pt = pt;
          place = record { pep = entry_at pt; level = 3; perm = initial_perm };
          va = 0;
        })
        va

  unfoldable pub perm : Vmiter → ℕ
  perm it = let e = value it.place.pep in if pte_p e then bits_and 12 it.place.perm e else 0

  unfoldable pub present : Vmiter → Bool
  present it = pte_p (value it.place.pep)

  -- *pep_ & perm_ has the bit k.
  abbrev pub allowed : ℕ → Vmiter → Bool
  allowed k it = bit (bits_and 12 it.place.perm (value it.place.pep)) k

  unfoldable pub writable : Vmiter → Bool
  writable it = allowed 0 it && allowed 1 it

  unfoldable pub user : Vmiter → Bool
  user it = allowed 0 it && allowed 2 it

  unfoldable pub pa : Vmiter → ℕ
  pa it =
      let e = value it.place.pep in
      if pte_p e
      then (if it.place.level == 0 then pamask e else pamask e / 8192 * 8192)
        + it.va % page_shift it.place.level
      else word_mod - 1

  unfoldable pub next : Vmiter → Option Vmiter
  next it =
      real_find it (
        after_region it.va
          (if not (it.place.level == 0) && perm it == 0 then it.place.level else 0))

  -- operator+= for a distance that does not lead behind the last address.
  unfoldable pub advance : Vmiter → ℕ → Option Vmiter
  advance it delta = real_find it ((it.va + delta) % word_mod)
