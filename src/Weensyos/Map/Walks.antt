-- ===== src/Weensyos/Map/Walks.antt =====
-- The entries that a walk of weensyos/k-vmiter.cc visits, and what a change of memory does to it.
use cs300_s23_projects_days.Prelude.{ℕ, suc, ◌+◌, ◌*◌, ◌≡◌, refl, subst, true, not, ◌&&◌}
use cs300_s23_projects_days.Weensyos.{pageindex, pte_p, pte_ps, pamask, bits_and}
use cs300_s23_projects_days.Weensyos.Vmiter.{down}
use cs300_s23_projects_days.Weensyos.Vmiter.Find.{goes, entry_in}

-- From the entry pep at level l to the entry q at level k, with the permissions pm and n; each entry
-- in front of q is a P.
pub data Walk (load : ℕ → ℕ) (va : ℕ) (P : ℕ → Type 0) (q k n : ℕ) : ℕ → ℕ → ℕ → Type 0 where
  arrived : Walk load va P q k n k q n
  step :
      (l pep pm : ℕ)
      → P pep
      → goes load pep ≡ true
      → Walk load va P q k n l (entry_in load pep l va) (bits_and 12 pm (load pep))
      → Walk load va P q k n (suc l) pep pm

-- Memory that agrees at the visited entries.
pub Walk-map :
    (load load' : ℕ → ℕ) (va : ℕ) (P P' : ℕ → Type 0) (q k n l pep pm : ℕ)
    → ((a : ℕ) → P a → P' a × (load a ≡ load' a))
    → Walk load va P q k n l pep pm
    → Walk load' va P' q k n l pep pm
Walk-map load load' va P P' q k n _ _ _ f arrived = arrived
Walk-map load load' va P P' q k n _ _ _ f (step l pep pm p g w) =
    let (p', e) = f pep p in
    step l pep pm p' (subst (λ x. (pte_p x && not (pte_ps x)) ≡ true) e g) (
      subst (λ x. Walk load' va P' q k n l (pamask x + 8 * pageindex va l) (bits_and 12 pm x)) e
        (Walk-map load load' va P P' q k n l _ _ f w))

-- One entry further.
pub Walk-more :
    (load : ℕ → ℕ) (va : ℕ) (P : ℕ → Type 0) (q k n l pep pm : ℕ)
    → P q
    → goes load q ≡ true
    → Walk load va P q (suc k) n l pep pm
    → Walk load va P (entry_in load q k va) k (bits_and 12 n (load q)) l pep pm
Walk-more load va P q k n _ _ _ p g arrived = step k q n p g arrived
Walk-more load va P q k n _ _ _ p g (step l pep pm p' g' w) =
    step l pep pm p' g' (Walk-more load va P q k n l _ _ p g w)

-- A walk goes on from where it is.
pub down-Walk :
    (load : ℕ → ℕ) (va : ℕ) (P : ℕ → Type 0) (q k n l pep pm : ℕ)
    → Walk load va P q k n l pep pm
    → down load l pep pm va ≡ down load k q n va
unfolding down
down-Walk load va P q k n _ _ _ arrived = refl
down-Walk load va P q k n _ _ _ (step l pep pm p g w) = rw (g) (down-Walk load va P q k n l _ _ w)
