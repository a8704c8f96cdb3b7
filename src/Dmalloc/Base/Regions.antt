-- ===== src/Dmalloc/Base/Regions.antt =====
-- The blocks of dmalloc/basealloc.cc, given out or back, lie apart.
use cs300_s23_projects_days.Prelude.{
  ℕ, zero, suc, ◌+◌, ◌%◌, ◌≤◌, ◌<◌, ◌≡◌, ◌≢◌, ◌⊎◌, inl, inr, refl, ap, ◌∙◌, none, some, List, [],
  ◌∷◌, length, get_elem?, set, ◌==◌, if◌then◌else◌, word_mod, arith, Bool-cases, ==_ne, ==_self,
}
use cs300_s23_projects_days.Dmalloc.Pointers.{
  PointerMap, find, erase, IsSorted, insert-IsSorted, erase-IsSorted, find-insert, find-erase,
}
use cs300_s23_projects_days.Dmalloc.Base.{Malloc, BaseState, assign, last_or, pop_back}

pub find-assign :
    (k j v : ℕ) (m : PointerMap)
    → IsSorted m
    → find j (assign k v m) ≡ (if k == j then some v else find j m)
unfolding assign
find-assign k j v m s =
    let gone : find k (erase k m) ≡ none = find-erase k k m s ∙ rw (==_self k) refl in
    find-insert k j v (erase k m) gone ∙ elim (Bool-cases (k == j)) [
      | inl d ↦ rw (d) refl
      | inr d ↦ rw (d) (find-erase k j m s ∙ rw (d) refl)
    ]

pub assign-IsSorted : (k v : ℕ) (m : PointerMap) → IsSorted m → IsSorted (assign k v m)
unfolding assign
assign-IsSorted k v m s = insert-IsSorted k v (erase k m) (erase-IsSorted k m s)

-- Where an entry behind the removal of entry k was before.
abbrev pub moved : ℕ → ℕ → ℕ → ℕ
moved k n i = if i == k then n else i

get-pop_back :
    (f : ℕ × ℕ) (fs : List (ℕ × ℕ)) (i : ℕ) (g : ℕ × ℕ)
    → get_elem? (pop_back (f ∷ fs)) i ≡ some g
    → (i < length fs) × (get_elem? (f ∷ fs) i ≡ some g)
get-pop_back f [] i g e = absurd (cc)
get-pop_back f (h ∷ fs) zero g e = (omega arith, e)
get-pop_back f (h ∷ fs) (suc i) g e = let (l, r) = get-pop_back h fs i g e in (omega arith, r)

get-last_or :
    (f : ℕ × ℕ) (fs : List (ℕ × ℕ)) → get_elem? (f ∷ fs) (length fs) ≡ some (last_or f (f ∷ fs))
get-last_or f [] = refl
get-last_or f (h ∷ fs) = get-last_or h fs

pub some_same : {A : Type 0} (x y : A) → some x ≡ some y → x ≡ y
some_same x y e = cc

get-set :
    (fs : List (ℕ × ℕ)) (k i : ℕ) (g h : ℕ × ℕ)
    → get_elem? (set fs k g) i ≡ some h
    → ((i ≡ k) × (g ≡ h)) ⊎ ((i ≢ k) × (get_elem? fs i ≡ some h))
get-set [] k i g h e = absurd (cc)
get-set (f ∷ fs) zero zero g h e = inl (refl, some_same _ _ e)
get-set (f ∷ fs) zero (suc i) g h e = inr (λ c. omega arith, e)
get-set (f ∷ fs) (suc k) zero g h e = inr (λ c. omega arith, e)
get-set (f ∷ fs) (suc k) (suc i) g h e = elim (get-set fs k i g h e) [
  | inl (a, b) ↦ inl (omega arith, b)
  | inr (a, b) ↦ inr (λ c. a (omega arith), b)
]

get-popped :
    (fs : List (ℕ × ℕ)) (i : ℕ) (g : ℕ × ℕ)
    → get_elem? (pop_back fs) i ≡ some g
    → (suc i < length fs) × (get_elem? fs i ≡ some g)
get-popped [] i g e = absurd (cc)
get-popped (f ∷ fs) i g e = let (l, r) = get-pop_back f fs i g e in (omega arith, r)

length-set : (fs : List (ℕ × ℕ)) (k : ℕ) (g : ℕ × ℕ) → length (set fs k g) ≡ length fs
length-set [] k g = refl
length-set (f ∷ fs) zero g = refl
length-set (f ∷ fs) (suc k) g = ap suc (length-set fs k g)

-- The entries that are left are entries from before, at other places than k.
pub get-removed :
    (f0 : ℕ × ℕ) (fs : List (ℕ × ℕ)) (k i : ℕ) (f g : ℕ × ℕ)
    → get_elem? (pop_back (set (f0 ∷ fs) k (last_or f (f0 ∷ fs)))) i ≡ some g
    → (i < length fs)
      × (moved k (length fs) i ≢ k)
      × (get_elem? (f0 ∷ fs) (moved k (length fs) i) ≡ some g)
get-removed f0 fs k i f g e =
    let (l, r) = get-popped (set (f0 ∷ fs) k (last_or f (f0 ∷ fs))) i g e in
    let size = length-set (f0 ∷ fs) k (last_or f (f0 ∷ fs)) in
    let l' : i < length fs = omega (arith, size) in
    elim (get-set (f0 ∷ fs) k i (last_or f (f0 ∷ fs)) g r) [
      | inl (a, b) ↦
          rw (a, ==_self k)
            (omega (arith, a), (λ c. omega (arith, a, c)), get-last_or f0 fs ∙ ap some b)
      | inr (a, b) ↦ rw (==_ne i k a) (l', a, b)
    ]

-- Two blocks without a common byte and with two addresses.
abbrev pub IsApart : ℕ × ℕ → ℕ × ℕ → Type 0
IsApart (s, z) (t, w) = (s ≢ t) × ((s + z ≤ t) ⊎ (t + w ≤ s))

-- What malloc promises: a region that is aligned, in the address space and away from those that it
-- has given out.
pub record IsMalloc {M : Type 0} (os : Malloc M) (IsGiven : M → ℕ → ℕ → Type 0) : Type 0 where
  pub keeps : (n s z : ℕ) (m : M) → IsGiven m s z → IsGiven (os.malloc n m).1 s z
  pub free_null : (m : M) → os.free 0 m ≡ m
  pub gives :
      (n : ℕ) (m : M)
      → 0 < n
      → (os.malloc n m).0 ≢ 0
      → ((os.malloc n m).0 % 8 ≡ 0)
        × ((os.malloc n m).0 + n + 8 < word_mod)
        × IsGiven (os.malloc n m).1 (os.malloc n m).0 n
        × ((s z : ℕ) → IsGiven m s z → ((os.malloc n m).0 + n ≤ s) ⊎ (s + z ≤ (os.malloc n m).0))

module _ {M : Type 0} (os : Malloc M) (IsGiven : M → ℕ → ℕ → Type 0)
    (works : IsMalloc os IsGiven) where
  -- A block lies in a region of malloc.
  pub record IsRegion (m : M) (s z : ℕ) : Type 0 where
    pub nonzero : s ≢ 0
    pub aligned : s % 8 ≡ 0
    pub room : ℕ
    pub some_room : 0 < room
    pub fits : z ≤ room
    pub below : s + room + 8 < word_mod
    pub given : IsGiven m s room

  pub record IsGood (b : BaseState M) : Type 0 where
    pub enabled : b.disabled ≡ 0
    pub sorted : IsSorted b.allocs
    pub allocs_region : (s z : ℕ) → find s b.allocs ≡ some z → IsRegion b.heap s z
    pub frees_region : (i s z : ℕ) → get_elem? b.frees i ≡ some (s, z) → IsRegion b.heap s z
    pub allocs_apart :
        (s z t w : ℕ)
        → find s b.allocs ≡ some z
        → find t b.allocs ≡ some w
        → s ≢ t
        → (s + z ≤ t) ⊎ (t + w ≤ s)
    pub both_apart :
        (s z i : ℕ) (f : ℕ × ℕ)
        → find s b.allocs ≡ some z
        → get_elem? b.frees i ≡ some f
        → IsApart (s, z) f
    pub frees_apart :
        (i j : ℕ) (f g : ℕ × ℕ)
        → get_elem? b.frees i ≡ some f
        → get_elem? b.frees j ≡ some g
        → i ≢ j
        → IsApart f g
