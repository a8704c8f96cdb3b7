-- ===== src/Store/Concurrent/Refine.antt =====
-- Get, Put, Append and Delete of concurrent_kvstore.cpp against the partial functions of Store.Spec.
use native.Mathlib.Nat.{mod-lt}
use cs300_s23_projects_days.Prelude.{
  ℕ, ◌<◌, ◌≡◌, refl, ap, Bool, true, false, Option, none, some, List, ◌++◌, Str, str_eq_iff, ltb,
  lt→ltb, ltb_irrefl, length, update, arith,
}
use cs300_s23_projects_days.Run.{done, pure, ◌>>=◌, ◌>>◌}
use cs300_s23_projects_days.Net.Commands.{
  GetRequest, PutRequest, AppendRequest, DeleteRequest, GetResponse, DeleteResponse,
}
use cs300_s23_projects_days.Store.Spec
use cs300_s23_projects_days.Store.Spec.{View}
use cs300_s23_projects_days.Store.Concurrent.{
  DbItem, DbMap, Lock, free, shared, exclusive, bucket_count, find_item, insert_in, remove_from,
  get_if_exists, insert_item, remove_item, bucket, get, put, append, delete, delete_result,
}
use cs300_s23_projects_days.Store.Concurrent.Items.{
  at, value_of, at-insert_in, at-remove_from, removed-none, removed-some,
}
use cs300_s23_projects_days.Store.Concurrent.Locks.{
  lock_shared-free, lock-free, unlock_shared_taken, unlock_taken,
}

module _ (hash : Str → ℕ) where
  pub bucket-lt : (k : Str) → bucket hash k < bucket_count
  unfolding bucket
  bucket-lt k = mod-lt (hash k) (omega arith)

  -- Between two calls every lock is free and the table has the entries of f.
  pub record Shows (f : View) (s : DbMap) : Type 0 where
    pub unlocked : (b : ℕ) → s.mtx b ≡ free
    pub views : (k : Str) → at k (s.buckets (bucket hash k)) ≡ f k

  pub get_if_exists_lem :
      (k : Str) (s : DbMap)
      → get_if_exists (bucket hash k) k s ≡ done (find_item k (s.buckets (bucket hash k)), s)
  unfolding get_if_exists
  get_if_exists_lem k s = rw (lt→ltb (bucket hash k) bucket_count (bucket-lt k))

  pub insert_item_lem :
      (k v : Str) (s : DbMap)
      → insert_item (bucket hash k) k v s
        ≡ done (
          tt,
          record s {
            buckets = update s.buckets (bucket hash k) (insert_in k v (s.buckets (bucket hash k)));
          },
        )
  unfolding insert_item
  insert_item_lem k v s = rw (lt→ltb (bucket hash k) bucket_count (bucket-lt k))

  remove_item_lem :
      (k : Str) (s : DbMap)
      → remove_item (bucket hash k) k s
        ≡ done (
          ltb
              (length (remove_from k (s.buckets (bucket hash k))))
              (length (s.buckets (bucket hash k))),
          record s {
            buckets = update s.buckets (bucket hash k) (remove_from k (s.buckets (bucket hash k)));
          },
        )
  unfolding remove_item
  remove_item_lem k s = rw (lt→ltb (bucket hash k) bucket_count (bucket-lt k))

  -- The table after a write or a removal in the bucket of k.
  pub views-insert :
      (f : View) (bs : ℕ → List DbItem) (k v : Str)
      → ((j : Str) → at j (bs (bucket hash j)) ≡ f j)
      → (j : Str)
      → at j (update bs (bucket hash k) (insert_in k v (bs (bucket hash k))) (bucket hash j))
        ≡ Spec.write k v f j
  views-insert f bs k v h j = ground (
    arith,
    str_eq_iff k j,
    at-insert_in k j v (bs (bucket hash k)),
    h j,
    λ (e : k ≡ j). ap (bucket hash) e,
  )

  views-remove :
      (f : View) (bs : ℕ → List DbItem) (k : Str)
      → ((j : Str) → at j (bs (bucket hash j)) ≡ f j)
      → (j : Str)
      → at j (update bs (bucket hash k) (remove_from k (bs (bucket hash k))) (bucket hash j))
        ≡ Spec.remove k f j
  views-remove f bs k h j = ground (
    arith,
    str_eq_iff k j,
    at-remove_from k j (bs (bucket hash k)),
    h j,
    λ (e : k ≡ j). ap (bucket hash) e,
  )

  -- A lock that is taken and given back is free.
  free-update :
      (m : ℕ → Lock) (b : ℕ) (l : Lock)
      → ((j : ℕ) → m j ≡ free)
      → (j : ℕ) → update (update m b l) b free j ≡ free
  free-update m b l h j = ground (arith, h j)

  item_reply :
      (o : Option DbItem) (res : GetResponse)
      → (let r : Bool × GetResponse = elim o [
        | none ↦ (false, res)
        | some item ↦ (true, record { value = item.value })
      ] in
          r)
        ≡ Spec.get_reply (value_of o) res
  item_reply none res = refl
  item_reply (some item) res = refl

  appended_value :
      (o : Option DbItem) (v : Str)
      → (let w : Str = elim o [ none ↦ v | some item ↦ item.value ++ v ] in w)
        ≡ Spec.appended v (value_of o)
  appended_value none v = refl
  appended_value (some item) v = refl

  module _ (f : View) (s : DbMap) (h : Shows f s) where
    -- Get answers the value of the key, or fails if there is none, and changes nothing.
    pub get_locked :
        (req : GetRequest) (res : GetResponse)
        → Spec.Ends (get hash req res s) (Spec.get_reply (f req.key) res) (Shows f)
    unfolding get
    get_locked req res =
        let b = bucket hash req.key in
        (
          record s { mtx = update (update s.mtx b (shared 0)) b free },
          rw (
            lock_shared-free b s (h.unlocked b),
            get_if_exists_lem,
            unlock_shared_taken,
            item_reply,
            h.views,
            ◌>>◌,
            ◌>>=◌,
          ),
          record { unlocked = free-update s.mtx b (shared 0) h.unlocked; views = h.views },
        )

    -- Put succeeds, and the key has the value from then on.
    pub put_locked :
        (req : PutRequest)
        → Spec.Ends (put hash req s) true (Shows (Spec.write req.key req.value f))
    unfolding put
    put_locked req =
        let b = bucket hash req.key in
        (
          record {
            buckets = update s.buckets b (insert_in req.key req.value (s.buckets b));
            mtx = update (update s.mtx b exclusive) b free;
          },
          rw (lock-free b s (h.unlocked b), insert_item_lem, unlock_taken, ◌>>◌, ◌>>=◌),
          record {
            unlocked = free-update s.mtx b exclusive h.unlocked;
            views = views-insert f s.buckets req.key req.value h.views;
          },
        )

    -- Append succeeds; the new value is the old one, if any, followed by the argument.
    pub append_locked :
        (req : AppendRequest)
        → Spec.Ends
            (append hash req s)
            true
            (Shows (Spec.write req.key (Spec.appended req.value (f req.key)) f))
    unfolding append
    append_locked req =
        let b = bucket hash req.key in
        let v = Spec.appended req.value (f req.key) in
        (
          record {
            buckets = update s.buckets b (insert_in req.key v (s.buckets b));
            mtx = update (update s.mtx b exclusive) b free;
          },
          rw (
            lock-free b s (h.unlocked b),
            get_if_exists_lem,
            appended_value,
            h.views,
            insert_item_lem,
            unlock_taken,
            ◌>>◌,
            ◌>>=◌,
          ),
          record {
            unlocked = free-update s.mtx b exclusive h.unlocked;
            views = views-insert f s.buckets req.key v h.views;
          },
        )

    delete_step :
        (req : DeleteRequest) (res : DeleteResponse) (o : Option DbItem)
        → find_item req.key (s.buckets (bucket hash req.key)) ≡ o
        → delete_result hash
            (ltb
              (length (remove_from req.key (s.buckets (bucket hash req.key))))
              (length (s.buckets (bucket hash req.key))))
            (find_item req.key (s.buckets (bucket hash req.key)))
            res
          ≡ pure (
              Spec.delete_reply
                (value_of (find_item req.key (s.buckets (bucket hash req.key))))
                res)
    unfolding delete_result
    delete_step req res none e = rw (e, removed-none _ _ e, ltb_irrefl)
    delete_step req res (some item) e = rw (e, removed-some _ _ item e)

    -- From a state with all locks free, Delete answers the value that it removes, and fails
    -- without effect if there is none. It gives back its lock.
    pub delete_locked :
        (req : DeleteRequest) (res : DeleteResponse)
        → Spec.Ends
            (delete hash req res s)
            (Spec.delete_reply (f req.key) res)
            (Shows (Spec.remove req.key f))
    unfolding delete
    delete_locked req res =
        let b = bucket hash req.key in
        (
          record {
            buckets = update s.buckets b (remove_from req.key (s.buckets b));
            mtx = update (update s.mtx b exclusive) b free;
          },
          rw (
            lock-free b s (h.unlocked b),
            get_if_exists_lem,
            remove_item_lem,
            delete_step req res _ refl,
            unlock_taken,
            h.views req.key,
            ◌>>◌,
            ◌>>=◌,
          ),
          record {
            unlocked = free-update s.mtx b exclusive h.unlocked;
            views = views-remove f s.buckets req.key h.views;
          },
        )
