-- ===== src/Store/Concurrent/Locks.antt =====
-- The order in which MultiGet and MultiPut of concurrent_kvstore.cpp take their locks.
use cs300_s23_projects_days.Prelude.{
  ℕ, ◌≤◌, ◌<◌, ◌≡◌, refl, ◌∙◌, Bool, true, false, ◌||◌, List, [], ◌∷◌, ◌==◌, if◌then◌else◌, All,
  arith, update, ==_self, ==_ne, ap,
}
use cs300_s23_projects_days.Run.{done, Act, >>=-done}
use cs300_s23_projects_days.Store.Concurrent.{
  DbItem, DbMap, Lock, free, shared, exclusive, lock_shared, unlock_shared, lock, unlock, for_each,
  sort, insert_sorted, unique, unique_after,
}

abbrev pub mem : ℕ → List ℕ → Bool
mem a [] = false
mem a (x ∷ xs) = x == a || mem a xs

-- Strictly increasing from a bound on.
abbrev pub Above : ℕ → List ℕ → Type 0
Above a [] = Unit
Above a (x ∷ xs) = (a < x) × Above x xs

abbrev pub Increasing : List ℕ → Type 0
Increasing [] = Unit
Increasing (x ∷ xs) = Above x xs

abbrev NotBelow : ℕ → List ℕ → Type 0
NotBelow a [] = Unit
NotBelow a (x ∷ xs) = (a ≤ x) × NotBelow x xs

NotBelow-insert : (a x : ℕ) (xs : List ℕ) → a ≤ x → NotBelow a xs → NotBelow a (insert_sorted x xs)
unfolding insert_sorted
NotBelow-insert a x [] h s = (h, tt)
NotBelow-insert a x (y ∷ ys) h s = ground (arith, NotBelow-insert y x ys, s)

sort-NotBelow : (xs : List ℕ) → NotBelow 0 (sort xs)
unfolding sort
sort-NotBelow [] = tt
sort-NotBelow (x ∷ xs) = NotBelow-insert 0 x (sort xs) (omega arith) (sort-NotBelow xs)

unique_after-Above : (x : ℕ) (xs : List ℕ) → NotBelow x xs → Above x (unique_after x xs)
unfolding unique_after
unique_after-Above x [] s = tt
unique_after-Above x (y ∷ ys) s = ground (arith, unique_after-Above y ys s.1, s)

unique-Increasing : (xs : List ℕ) → NotBelow 0 xs → Increasing (unique xs)
unfolding unique
unique-Increasing [] s = tt
unique-Increasing (x ∷ xs) s = unique_after-Above x xs s.1

mem-insert_sorted : (a x : ℕ) (xs : List ℕ) → mem a (insert_sorted x xs) ≡ (x == a || mem a xs)
unfolding insert_sorted
mem-insert_sorted a x [] = refl
mem-insert_sorted a x (y ∷ ys) = ground (arith, mem-insert_sorted a x ys)

mem-sort : (a : ℕ) (xs : List ℕ) → mem a (sort xs) ≡ mem a xs
unfolding sort
mem-sort a [] = refl
mem-sort a (x ∷ xs) = mem-insert_sorted a x (sort xs) ∙ ap (λ b. x == a || b) (mem-sort a xs)

mem-unique_after :
    (a x : ℕ) (xs : List ℕ) → (x == a || mem a (unique_after x xs)) ≡ (x == a || mem a xs)
unfolding unique_after
mem-unique_after a x [] = refl
mem-unique_after a x (y ∷ ys) = ground (arith, mem-unique_after a y ys)

mem-unique : (a : ℕ) (xs : List ℕ) → mem a (unique xs) ≡ mem a xs
unfolding unique
mem-unique a [] = refl
mem-unique a (x ∷ xs) = mem-unique_after a x xs

-- The bucket numbers, sorted and without the repeated ones, are in strictly increasing order and
-- are the same numbers: the locks are taken in one global order, and none twice.
pub unique-sort :
    (xs : List ℕ) → Increasing (unique (sort xs)) × ((a : ℕ) → mem a (unique (sort xs)) ≡ mem a xs)
unique-sort xs =
    (unique-Increasing (sort xs) (sort-NotBelow xs), λ a. mem-unique a (sort xs) ∙ mem-sort a xs)

-- The array after a loop that writes `to` at each index.
abbrev pub updates : (ℕ → Lock) → List ℕ → Lock → ℕ → Lock
updates m [] to = m
updates m (b ∷ bs) to = updates (update m b to) bs to

pub updates-mem :
    (m : ℕ → Lock) (bs : List ℕ) (to : Lock) (j : ℕ)
    → updates m bs to j ≡ (if mem j bs then to else m j)
updates-mem m [] to j = refl
updates-mem m (b ∷ bs) to j = updates-mem (update m b to) bs to j ∙ ground arith

-- A locking loop over distinct buckets whose locks are all in one state.
module _ (op : ℕ → Act DbMap (Unit {0})) (from to : Lock)
    (step : (b : ℕ) (s : DbMap)
      → s.mtx b ≡ from
      → op b s ≡ done (tt, record s { mtx = update s.mtx b to })) where
  All-update :
      (m : ℕ → Lock) (b : ℕ) (bs : List ℕ)
      → Above b bs
      → (c : ℕ) → c ≤ b
      → All (λ x. m x ≡ from) bs
      → All (λ x. update m c to x ≡ from) bs
  All-update m b [] a c le h = tt
  All-update m b (x ∷ xs) a c le h =
      (rw (==_ne c x (λ e. absurd (omega arith))) h.0, All-update m x xs a.1 c (omega arith) h.1)

  for_each-Above :
      (b : ℕ) (bs : List ℕ) (s : DbMap)
      → Above b bs
      → All (λ x. s.mtx x ≡ from) bs
      → for_each op bs s ≡ done (tt, record s { mtx = updates s.mtx bs to })
  unfolding for_each
  for_each-Above b [] s a h = refl
  for_each-Above b (x ∷ xs) s a h =
      >>=-done (op x) (λ _. for_each op xs) s (step x s h.0)
      ∙ for_each-Above x xs (record s { mtx = update s.mtx x to }) a.1
          (All-update s.mtx x xs a.1 x (omega arith) h.1)

  pub for_each_lem :
      (bs : List ℕ) (s : DbMap)
      → Increasing bs
      → All (λ x. s.mtx x ≡ from) bs
      → for_each op bs s ≡ done (tt, record s { mtx = updates s.mtx bs to })
  unfolding for_each
  for_each_lem [] s a h = refl
  for_each_lem (x ∷ xs) s a h =
      >>=-done (op x) (λ _. for_each op xs) s (step x s h.0)
      ∙ for_each-Above x xs (record s { mtx = update s.mtx x to }) a
          (All-update s.mtx x xs a x (omega arith) h.1)

pub lock_shared-free :
    (b : ℕ) (s : DbMap)
    → s.mtx b ≡ free
    → lock_shared b s ≡ done (tt, record s { mtx = update s.mtx b (shared 0) })
unfolding lock_shared
lock_shared-free b s e = rw (e, lock_shared)

pub unlock_shared-shared :
    (b : ℕ) (s : DbMap)
    → s.mtx b ≡ shared 0
    → unlock_shared b s ≡ done (tt, record s { mtx = update s.mtx b free })
unfolding unlock_shared
unlock_shared-shared b s e = rw (e, unlock_shared)

pub lock-free :
    (b : ℕ) (s : DbMap)
    → s.mtx b ≡ free
    → lock b s ≡ done (tt, record s { mtx = update s.mtx b exclusive })
unfolding lock
lock-free b s e = rw (e, lock)

pub unlock-exclusive :
    (b : ℕ) (s : DbMap)
    → s.mtx b ≡ exclusive
    → unlock b s ≡ done (tt, record s { mtx = update s.mtx b free })
unfolding unlock
unlock-exclusive b s e = rw (e, unlock)

-- Giving back the lock that was just taken.
pub unlock_shared_taken :
    (b : ℕ) (bs : ℕ → List DbItem) (m : ℕ → Lock)
    → unlock_shared b (record { buckets = bs; mtx = update m b (shared 0) })
      ≡ done (tt, record { buckets = bs; mtx = update (update m b (shared 0)) b free })
unlock_shared_taken b bs m = unlock_shared-shared b _ (rw (==_self b))

pub unlock_taken :
    (b : ℕ) (bs : ℕ → List DbItem) (m : ℕ → Lock)
    → unlock b (record { buckets = bs; mtx = update m b exclusive })
      ≡ done (tt, record { buckets = bs; mtx = update (update m b exclusive) b free })
unlock_taken b bs m = unlock-exclusive b _ (rw (==_self b))

pub All-mem : (P : ℕ → Type 0) (bs : List ℕ) → ((b : ℕ) → mem b bs ≡ true → P b) → All P bs
All-mem P [] h = tt
All-mem P (b ∷ bs) h =
    (h b (ground (arith, ==_self b)), All-mem P bs (λ c m. h c (ground (arith, m))))

-- Taking the locks of a set of buckets, and giving them back.
module _ (bs : List ℕ) (inc : Increasing bs) (s : DbMap) (unlocked : (b : ℕ) → s.mtx b ≡ free) where
  pub lock_shared_all :
      for_each lock_shared bs s ≡ done (tt, record s { mtx = updates s.mtx bs (shared 0) })
  lock_shared_all =
      for_each_lem lock_shared free (shared 0) lock_shared-free bs s inc
        (All-mem _ bs (λ b m. unlocked b))

  pub lock_all : for_each lock bs s ≡ done (tt, record s { mtx = updates s.mtx bs exclusive })
  lock_all = for_each_lem lock free exclusive lock-free bs s inc (All-mem _ bs (λ b m. unlocked b))

  pub unlock_shared_all :
      (items : ℕ → List DbItem)
      → for_each unlock_shared bs (record { buckets = items; mtx = updates s.mtx bs (shared 0) })
        ≡ done (tt, record { buckets = items; mtx = updates (updates s.mtx bs (shared 0)) bs free })
  unlock_shared_all items =
      for_each_lem unlock_shared (shared 0) free unlock_shared-shared bs _ inc
        (All-mem _ bs (λ b m. updates-mem s.mtx bs (shared 0) b ∙ rw m))

  pub unlock_all :
      (items : ℕ → List DbItem)
      → for_each unlock bs (record { buckets = items; mtx = updates s.mtx bs exclusive })
        ≡ done (tt, record { buckets = items; mtx = updates (updates s.mtx bs exclusive) bs free })
  unlock_all items =
      for_each_lem unlock exclusive free unlock-exclusive bs _ inc
        (All-mem _ bs (λ b m. updates-mem s.mtx bs exclusive b ∙ rw m))

  pub free_again : (l : Lock) (j : ℕ) → updates (updates s.mtx bs l) bs free j ≡ free
  free_again l j =
      ground
        (arith, updates-mem (updates s.mtx bs l) bs free j, updates-mem s.mtx bs l j, unlocked j)
