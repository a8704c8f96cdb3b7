-- ===== src/Dmalloc/Pointers.antt =====
-- std::map<metaData*, size_t> of dmalloc/dmalloc.cc: entries in increasing order of their addresses.
use cs300_s23_projects_days.Prelude.{
  ℕ, ◌+◌, ◌<◌, ◌≡◌, refl, Option, none, some, List, [], ◌∷◌, length, ltb, ◌==◌, if◌then◌else◌,
  arith,
}

abbrev pub PointerMap : Type 0
PointerMap = List (ℕ × ℕ)

unfoldable pub find : ℕ → PointerMap → Option ℕ
find k [] = none
find k ((j, w) ∷ m) = if j == k then some w else find k m

-- insert leaves an entry that is there alone.
unfoldable pub insert : ℕ → ℕ → PointerMap → PointerMap
insert k v [] = (k, v) ∷ []
insert k v ((j, w) ∷ m) =
    if j == k then (j, w) ∷ m else if ltb k j then (k, v) ∷ (j, w) ∷ m else (j, w) ∷ insert k v m

-- erase(find(k)) for a key that is there.
unfoldable pub erase : ℕ → PointerMap → PointerMap
erase k [] = []
erase k ((j, w) ∷ m) = if j == k then m else (j, w) ∷ erase k m

-- The entry in front of the first key above p, where there is one.
unfoldable pub last_up_to : ℕ → PointerMap → Option (ℕ × ℕ)
last_up_to p [] = none
last_up_to p ((j, w) ∷ m) =
    let rest = last_up_to p m in
    if ltb p j then none else elim rest [ none ↦ some (j, w) | some e ↦ some e ]

-- The bytes of all entries.
unfoldable pub sizes : PointerMap → ℕ
sizes [] = 0
sizes ((j, w) ∷ m) = w + sizes m

abbrev pub Above : ℕ → PointerMap → Type 0
Above k [] = Unit
Above k ((j, w) ∷ m) = (k < j) × Above k m

abbrev pub IsSorted : PointerMap → Type 0
IsSorted [] = Unit
IsSorted ((j, w) ∷ m) = Above j m × IsSorted m

Above-trans : (k j : ℕ) (m : PointerMap) → k < j → Above j m → Above k m
Above-trans k j [] h a = tt
Above-trans k j ((i, w) ∷ m) h a = (omega arith, Above-trans k j m h a.1)

Above-find : (k : ℕ) (m : PointerMap) → Above k m → find k m ≡ none
unfolding find
Above-find k [] a = refl
Above-find k ((j, w) ∷ m) a = ground (arith, Above-find k m a.1)

Above-insert : (i k v : ℕ) (m : PointerMap) → i < k → Above i m → Above i (insert k v m)
unfolding insert
Above-insert i k v [] h a = (h, tt)
Above-insert i k v ((j, w) ∷ m) h a = ground (arith, Above-insert i k v m h a.1)

Above-erase : (i k : ℕ) (m : PointerMap) → Above i m → Above i (erase k m)
unfolding erase
Above-erase i k [] a = tt
Above-erase i k ((j, w) ∷ m) a = ground (arith, Above-erase i k m a.1)

pub insert-IsSorted : (k v : ℕ) (m : PointerMap) → IsSorted m → IsSorted (insert k v m)
unfolding insert
insert-IsSorted k v [] s = (tt, tt)
insert-IsSorted k v ((j, w) ∷ m) s =
    ground (arith, insert-IsSorted k v m s.1, Above-insert j k v m, Above-trans k j m, s)

pub erase-IsSorted : (k : ℕ) (m : PointerMap) → IsSorted m → IsSorted (erase k m)
unfolding erase
erase-IsSorted k [] s = tt
erase-IsSorted k ((j, w) ∷ m) s = ground (arith, erase-IsSorted k m s.1, Above-erase j k m s.0)

pub find-insert :
    (k j v : ℕ) (m : PointerMap)
    → find k m ≡ none
    → find j (insert k v m) ≡ (if k == j then some v else find j m)
unfolding find insert
find-insert k j v [] e = refl
find-insert k j v ((i, w) ∷ m) e = ground (arith, find-insert k j v m)

pub find-erase :
    (k j : ℕ) (m : PointerMap)
    → IsSorted m
    → find j (erase k m) ≡ (if k == j then none else find j m)
unfolding find erase
find-erase k j [] s = ground arith
find-erase k j ((i, w) ∷ m) s = ground (arith, find-erase k j m s.1, Above-find i m s.0)

pub insert-sizes :
    (k v : ℕ) (m : PointerMap)
    → find k m ≡ none
    → (sizes (insert k v m) ≡ v + sizes m) × (length (insert k v m) ≡ length m + 1)
unfolding find insert sizes
insert-sizes k v [] e = (omega arith, refl)
insert-sizes k v ((j, w) ∷ m) e = ground (arith, insert-sizes k v m)

pub erase-sizes :
    (k v : ℕ) (m : PointerMap)
    → find k m ≡ some v
    → (v + sizes (erase k m) ≡ sizes m) × (length (erase k m) + 1 ≡ length m)
unfolding find erase sizes
erase-sizes k v [] e = absurd (cc)
erase-sizes k v ((j, w) ∷ m) e = ground (arith, erase-sizes k v m)
