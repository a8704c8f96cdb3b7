-- ===== src/Store/Concurrent/Leak.antt =====
-- The locks that a failed MultiGet of concurrent_kvstore.cpp leaves behind, and who waits for them.
use cs300_s23_projects_days.Prelude.{
  ℕ, ◌≡◌, ◌∙◌, true, List, [], ◌∷◌, map, Str, ==_self, arith, ◌⊎◌, inl, inr,
}
use cs300_s23_projects_days.Run.{blocked, ◌>>=◌, ◌>>◌}
use cs300_s23_projects_days.Net.Commands.{DeleteResponse}
use cs300_s23_projects_days.Store.Spec.{View}
use cs300_s23_projects_days.Store.Concurrent.{
  DbMap, shared, lock, bucket, bucket_nums, put, append, delete,
}
use cs300_s23_projects_days.Store.Concurrent.Locks.{mem, unique-sort, updates-mem}
use cs300_s23_projects_days.Store.Concurrent.Refine.{Shows}
use cs300_s23_projects_days.Store.Concurrent.Multi.{taken}

module _ (hash : Str → ℕ) where
  -- The key is one of the keys.
  abbrev pub Among : Str → List Str → Type 0
  Among k [] = ⊥
  Among k (x ∷ xs) = (x ≡ k) ⊎ Among k xs

  mem-bucket :
      (k : Str) (keys : List Str)
      → Among k keys
      → mem (bucket hash k) (map (bucket hash) keys) ≡ true
  mem-bucket k [] m = absurd m
  mem-bucket k (x ∷ xs) (inl e) = rw (e, ==_self (bucket hash k))
  mem-bucket k (x ∷ xs) (inr m) = ground (arith, mem-bucket k xs m)

  taken-shared :
      (f : View) (s : DbMap) (h : Shows hash f s) (k : Str) (keys : List Str)
      → Among k keys
      → taken hash s.mtx keys (bucket hash k) ≡ shared 0
  unfolding bucket_nums
  taken-shared f s h k keys m =
      updates-mem s.mtx (bucket_nums hash keys) (shared 0) (bucket hash k)
      ∙ rw ((unique-sort (map (bucket hash) keys)).1 (bucket hash k), mem-bucket k keys m)

  lock-shared : (b : ℕ) (s : DbMap) → s.mtx b ≡ shared 0 → lock b s ≡ blocked
  unfolding lock
  lock-shared b s e = rw (e, lock)

  -- If the shared locks of some keys are held once each, as a failed MultiGet leaves them, a Put,
  -- an Append and a Delete of any of these keys wait.
  pub writes_block :
      (f : View) (s : DbMap)
      → Shows hash f s
      → (keys : List Str) (k v : Str) (res : DeleteResponse) → Among k keys
      → (put hash (record { key = k; value = v }) (record s { mtx = taken hash s.mtx keys })
          ≡ blocked)
        × (append hash (record { key = k; value = v }) (record s { mtx = taken hash s.mtx keys })
            ≡ blocked)
        × (delete hash (record { key = k }) res (record s { mtx = taken hash s.mtx keys })
            ≡ blocked)
  unfolding put append delete
  writes_block f s h keys k v res m =
      let e =
        lock-shared (bucket hash k) (record s { mtx = taken hash s.mtx keys })
          (taken-shared f s h k keys m) in
      (rw (e, ◌>>◌, ◌>>=◌), rw (e, ◌>>◌, ◌>>=◌), rw (e, ◌>>◌, ◌>>=◌))
