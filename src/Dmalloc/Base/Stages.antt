-- ===== src/Dmalloc/Base/Stages.antt =====
-- Each part of base_malloc and base_free of dmalloc/basealloc.cc keeps the blocks apart.
use cs300_s23_projects_days.Prelude.{
  ℕ, ◌+◌, ◌≤◌, ◌<◌, ◌≡◌, ◌≢◌, ◌⊎◌, inl, inr, refl, sym, ap, ◌∙◌, Option, none, some, List, ◌∷◌,
  length, get_elem?, set, ◌==◌, if◌then◌else◌, arith, Bool-cases, Option-cases,
}
use cs300_s23_projects_days.Dmalloc.Pointers.{find, insert, insert-IsSorted, find-insert}
use cs300_s23_projects_days.Dmalloc.Base.{Malloc, BaseState, assign, last_or, pop_back, reuse}
use cs300_s23_projects_days.Dmalloc.Base.Regions.{
  find-assign, assign-IsSorted, get-removed, some_same, moved, IsApart, IsMalloc, IsRegion, IsGood,
}

-- An entry behind an insertion or an assignment.
pub new_or_old :
    (k s v z : ℕ) (old : Option ℕ)
    → (if k == s then some v else old) ≡ some z
    → ((k ≡ s) × (v ≡ z)) ⊎ ((k ≢ s) × (old ≡ some z))
new_or_old k s v z old = elim (Bool-cases (k == s)) [
  | inl d ↦ rw (d) (λ e. inl (ground arith, some_same v z e))
  | inr d ↦ rw (d) (λ e. inr (λ c. ground arith, e))
]

swap : {A B : Type 0} → A ⊎ B → B ⊎ A
swap (inl a) = inr a
swap (inr b) = inl b

module _ {M : Type 0} (os : Malloc M) (IsGiven : M → ℕ → ℕ → Type 0)
    (works : IsMalloc os IsGiven) where
  abbrev pub Good : BaseState M → Type 0
  Good = IsGood os IsGiven works

  -- The block k of frees goes to allocs.
  module _ (b : BaseState M) (i : Good b) (f0 : ℕ × ℕ) (fs : List (ℕ × ℕ)) (k start size : ℕ)
      (all : b.frees ≡ f0 ∷ fs) (here : get_elem? (f0 ∷ fs) k ≡ some (start, size)) where
    abbrev pub left : List (ℕ × ℕ)
    left = pop_back (set (f0 ∷ fs) k (last_or (start, size) (f0 ∷ fs)))

    here' : get_elem? b.frees k ≡ some (start, size)
    here' = ap (λ l. get_elem? l k) all ∙ here

    pub not_there : find start b.allocs ≡ none
    not_there = elim (Option-cases (find start b.allocs)) [
      | inl n ↦ n
      | inr (w, n) ↦ absurd ((i.both_apart start w k (start, size) n here').0 refl)
    ]

    entry :
        (s z : ℕ)
        → find s (insert start size b.allocs) ≡ some z
        → ((start ≡ s) × (size ≡ z)) ⊎ ((start ≢ s) × (find s b.allocs ≡ some z))
    entry s z e =
        new_or_old start s size z _ (sym (find-insert start s size b.allocs not_there) ∙ e)

    was :
        (j : ℕ) (g : ℕ × ℕ)
        → get_elem? left j ≡ some g
        → (j < length fs)
          × (moved k (length fs) j ≢ k)
          × (get_elem? b.frees (moved k (length fs) j) ≡ some g)
    was j g e =
        let (l, ne, old) = get-removed f0 fs k j (start, size) g e in
        (l, ne, ap (λ l. get_elem? l (moved k (length fs) j)) all ∙ old)

    moved_apart : (j l n : ℕ) → j ≢ l → j < n → l < n → moved k n j ≢ moved k n l
    moved_apart j l n ne a c e = ground arith

    pub reuse-IsGood : Good (reuse os (some (start, size, left)) b).1
    unfolding reuse
    reuse-IsGood = record {
      enabled = i.enabled;
      sorted = insert-IsSorted start size b.allocs i.sorted;
      allocs_region = λ s z e. elim (entry s z e) [
        | inl (a, c) ↦ rw (sym a, sym c) (i.frees_region k start size here')
        | inr (a, c) ↦ i.allocs_region s z c
      ];
      frees_region = λ j s z e. i.frees_region (moved k (length fs) j) s z (was j (s, z) e).2;
      allocs_apart = λ s z t w e f ne. elim (entry s z e) [
        | inl (a, c) ↦ elim (entry t w f) [
          | inl (a', c') ↦ absurd (ne (sym a ∙ a'))
          | inr (a', c') ↦ rw (sym a, sym c) (swap ((i.both_apart t w k (start, size) c' here').1))
        ]
        | inr (a, c) ↦ elim (entry t w f) [
          | inl (a', c') ↦ rw (sym a', sym c') ((i.both_apart s z k (start, size) c here').1)
          | inr (a', c') ↦ i.allocs_apart s z t w c c' ne
        ]
      ];
      both_apart = λ s z j g e f.
          let (l, ne, old) = was j g f in
          elim (entry s z e) [
            | inl (a, c) ↦
                rw (sym a, sym c)
                  (i.frees_apart k (moved k (length fs) j) (start, size) g here' old
                    (λ x. ne (sym x)))
            | inr (a, c) ↦ i.both_apart s z (moved k (length fs) j) g c old
          ];
      frees_apart = λ j l f g e e' ne.
          let (lj, nj, oj) = was j f e in
          let (ll, nl, ol) = was l g e' in
          i.frees_apart (moved k (length fs) j) (moved k (length fs) l) f g oj ol
            (moved_apart j l (length fs) ne lj ll);
    }

  -- Memory that malloc has given out since.
  pub heap-IsGood :
      (b : BaseState M) (heap' : M)
      → ((s z : ℕ) → IsGiven b.heap s z → IsGiven heap' s z)
      → Good b
      → Good (record b { heap = heap' })
  heap-IsGood b heap' keeps i =
      let region : (s z : ℕ)
          → IsRegion os IsGiven works b.heap s z
          → IsRegion os IsGiven works heap' s z =
        λ s z r. record {
          nonzero = r.nonzero;
          aligned = r.aligned;
          room = r.room;
          some_room = r.some_room;
          fits = r.fits;
          below = r.below;
          given = keeps s r.room r.given;
        } in
      record {
        enabled = i.enabled;
        sorted = i.sorted;
        allocs_region = λ s z e. region s z (i.allocs_region s z e);
        frees_region = λ j s z e. region s z (i.frees_region j s z e);
        allocs_apart = i.allocs_apart;
        both_apart = i.both_apart;
        frees_apart = i.frees_apart;
      }

  -- A block in allocs that is new, or has become smaller.
  module _ (b : BaseState M) (i : Good b) (p n : ℕ) (region : IsRegion os IsGiven works b.heap p n)
      (away : (s z : ℕ) → find s b.allocs ≡ some z → p ≢ s → (p + n ≤ s) ⊎ (s + z ≤ p))
      (away_frees : (j : ℕ) (g : ℕ × ℕ) → get_elem? b.frees j ≡ some g → IsApart (p, n) g) where
    set_entry :
        (s z : ℕ)
        → find s (assign p n b.allocs) ≡ some z
        → ((p ≡ s) × (n ≡ z)) ⊎ ((p ≢ s) × (find s b.allocs ≡ some z))
    set_entry s z e = new_or_old p s n z _ (sym (find-assign p s n b.allocs i.sorted) ∙ e)

    pub assign-IsGood : Good (record b { allocs = assign p n b.allocs })
    assign-IsGood = record {
      enabled = i.enabled;
      sorted = assign-IsSorted p n b.allocs i.sorted;
      allocs_region = λ s z e. elim (set_entry s z e) [
        | inl (a, c) ↦ rw (sym a, sym c) region
        | inr (a, c) ↦ i.allocs_region s z c
      ];
      frees_region = i.frees_region;
      allocs_apart = λ s z t w e f ne. elim (set_entry s z e) [
        | inl (a, c) ↦ elim (set_entry t w f) [
          | inl (a', c') ↦ absurd (ne (sym a ∙ a'))
          | inr (a', c') ↦ rw (sym a, sym c) (away t w c' a')
        ]
        | inr (a, c) ↦ elim (set_entry t w f) [
          | inl (a', c') ↦ rw (sym a', sym c') (swap (away s z c a))
          | inr (a', c') ↦ i.allocs_apart s z t w c c' ne
        ]
      ];
      both_apart = λ s z j g e f. elim (set_entry s z e) [
        | inl (a, c) ↦ rw (sym a, sym c) (away_frees j g f)
        | inr (a, c) ↦ i.both_apart s z j g c f
      ];
      frees_apart = i.frees_apart;
    }
