-- ===== src/Weensyos/Vmiter/Range.antt =====
-- next_range, perm and low_perm of weensyos/k-vmiter.hh: the test that a range of addresses has
-- some permissions.
pub mod Verdict
use cs300_s23_projects_days.Prelude.{
  ℕ, zero, suc, ◌+◌, ◌-◌, ◌/◌, ◌%◌, ◌^◌, Bool, true, false, not, ◌&&◌, ◌||◌, Option, none, some,
  ltb, leb, ◌==◌, if◌then◌else◌, word_mod,
}
use cs300_s23_projects_days.Weensyos.{bits_and}
use cs300_s23_projects_days.Weensyos.Vmiter.{Vmiter, value, after_region, real_find}

-- VA_LOWEND
abbrev pub va_lowend : ℕ
va_lowend = 2 ^ 47

unfoldable pub last_va : Vmiter → ℕ
last_va it = after_region it.va it.place.level

module _ (load : ℕ → ℕ) where
  -- (*pep_ & perm_ & p) == p
  unfoldable pub has_perm : Vmiter → ℕ → Bool
  has_perm it p = bits_and 12 (bits_and 12 it.place.perm (value load it.place.pep)) p == p

  unfoldable pub next_range : Vmiter → Option Vmiter
  next_range it = real_find load it (last_va it)

  -- The loop of perm, with the iterator behind it.
  unfoldable pub range_perm : ℕ → Vmiter → ℕ → ℕ → Option (Bool × Vmiter)
  range_perm zero it last p = none
  range_perm (suc fuel) it last p =
      let rest : Option (Bool × Vmiter) = elim (next_range it) [
        | none ↦ none
        | some it' ↦ range_perm fuel it' last p
      ] in
      if ltb it.va last then (if has_perm it p then rest else some (false, it)) else some (true, it)

  -- perm behind find.
  abbrev pub perm_from : Option Vmiter → ℕ → ℕ → ℕ → Option (Bool × Vmiter)
  perm_from none first last p = none
  perm_from (some it) first last p = range_perm (suc (suc (last / 4096 - first / 4096))) it last p

  -- find and perm, for a range that is not empty.
  unfoldable pub found_perm : Vmiter → ℕ → ℕ → ℕ → Option (Bool × Vmiter)
  found_perm it first last p = perm_from (real_find load it first) first last p

  -- low_perm of two pointers.
  unfoldable pub low_perm : Vmiter → ℕ → ℕ → ℕ → Option (Bool × Vmiter)
  low_perm it first last p =
      if not (leb first last && leb last va_lowend)
      then some (false, it)
      else if first == last
      then some (true, it)
      else found_perm it first last p

  -- low_perm of a pointer and a size.
  unfoldable pub low_perm_size : Vmiter → ℕ → ℕ → ℕ → Option (Bool × Vmiter)
  low_perm_size it first size p =
      if not (leb first va_lowend && leb size (va_lowend - first))
      then some (false, it)
      else if size == 0
      then some (true, it)
      else found_perm it first (first + size) p
