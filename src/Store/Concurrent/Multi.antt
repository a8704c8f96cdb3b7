-- ===== src/Store/Concurrent/Multi.antt =====
-- MultiGet and MultiPut of concurrent_kvstore.cpp.
use mathlib.Core.List.{append-nil, append_assoc}
use cs300_s23_projects_days.Prelude.{
  ℕ, ◌≡◌, ◌≢◌, refl, ◌∙◌, true, false, Option, none, some, List, [], ◌∷◌, ◌++◌, map, Str, ==_self,
  ==_ne, length, update, arith, Option-cases, inl, inr,
}
use cs300_s23_projects_days.Run.{done, ◌>>=◌, ◌>>◌}
use cs300_s23_projects_days.Net.Commands.{MultiGetRequest, MultiPutRequest, MultiGetResponse}
use cs300_s23_projects_days.Store.Spec
use cs300_s23_projects_days.Store.Spec.{View}
use cs300_s23_projects_days.Store.Concurrent.{
  DbItem, DbMap, Lock, free, shared, exclusive, find_item, insert_in, bucket, bucket_nums, collect,
  after_collect, multi_get, insert_all, multi_put,
}
use cs300_s23_projects_days.Store.Concurrent.Items.{at, value_of}
use cs300_s23_projects_days.Store.Concurrent.Locks.{
  Increasing, unique-sort, updates, lock_shared_all, lock_all, unlock_shared_all, unlock_all,
  free_again,
}
use cs300_s23_projects_days.Store.Concurrent.Refine.{
  Shows, get_if_exists_lem, insert_item_lem, views-insert,
}

module _ (hash : Str → ℕ) where
  -- The table holds the entries of f, whatever its locks.
  abbrev pub Holds : View → (ℕ → List DbItem) → Type 0
  Holds f items = (k : Str) → at k (items (bucket hash k)) ≡ f k

  found-none : (o : Option DbItem) → value_of o ≡ none → o ≡ none
  found-none none e = refl
  found-none (some item) e = absurd (cc)

  found-some :
      (o : Option DbItem) {v : Str}
      → value_of o ≡ some v
      → (item : DbItem) × (o ≡ some item) × (item.value ≡ v)
  found-some none e = absurd (cc)
  found-some (some item) e = (item, refl, ground arith)

  collect_lem :
      (f : View) (s : DbMap) (keys values : List Str)
      → Holds f s.buckets
      → collect hash keys values s
        ≡ done ((Spec.all_present f keys, values ++ Spec.leading f keys), s)
  unfolding collect
  collect_lem f s [] values h = rw (append-nil values)
  collect_lem f s (k ∷ ks) values h = elim (Option-cases (f k)) [
    | inl e ↦ rw (
      get_if_exists_lem,
      found-none _ (h k ∙ e),
      Spec.all_present-none f k ks e,
      Spec.leading-none f k ks e,
      append-nil,
      ◌>>=◌,
    )
    | inr (v, e) ↦
        let (item, p, q) = found-some (find_item k (s.buckets (bucket hash k))) (h k ∙ e) in
        rw
          (
            get_if_exists_lem,
            p,
            q,
            Spec.all_present-some f k ks e,
            Spec.leading-some f k ks e,
            ◌>>=◌,
          )
          (collect_lem f s ks (values ++ v ∷ []) h
            ∙ rw (append_assoc values (v ∷ []) (Spec.leading f ks)))
  ]

  insert_all_lem :
      (f : View) (s : DbMap) (keys values : List Str)
      → length keys ≡ length values
      → Holds f s.buckets
      → (items : ℕ → List DbItem) × (insert_all hash keys values s
          ≡ done (tt, record s { buckets = items }))
        × Holds (Spec.write_all keys values f) items
  unfolding insert_all
  insert_all_lem f s [] vs e h = (s.buckets, refl, h)
  insert_all_lem f s (k ∷ ks) [] e h = absurd (omega arith)
  insert_all_lem f s (k ∷ ks) (v ∷ vs) e h =
      let now = update s.buckets (bucket hash k) (insert_in k v (s.buckets (bucket hash k))) in
      let (items, p, q) =
        insert_all_lem (Spec.write k v f) (record s { buckets = now }) ks vs (omega arith)
          (views-insert hash f s.buckets k v h) in
      (items, rw (get_if_exists_lem, insert_item_lem, ◌>>◌, ◌>>=◌) p, q)

  nums-Increasing : (keys : List Str) → Increasing (bucket_nums hash keys)
  unfolding bucket_nums
  nums-Increasing keys = (unique-sort (map (bucket hash) keys)).0

  -- The locks that a MultiGet of these keys takes.
  abbrev pub taken : (ℕ → Lock) → List Str → ℕ → Lock
  taken m keys = updates m (bucket_nums hash keys) (shared 0)

  module _ (f : View) (s : DbMap) (h : Shows hash f s) where
    -- From a state with all locks free, a MultiGet of keys that all have values adds them to the
    -- response in the order of the keys, keeps what the store holds, and gives back every lock.
    pub multi_get-all :
        (req : MultiGetRequest) (res : MultiGetResponse)
        → Spec.all_present f req.keys ≡ true
        → Spec.Ends
            (multi_get hash req res s)
            (true, record { values = res.values ++ Spec.present f req.keys })
            (Shows hash f)
    unfolding multi_get after_collect
    multi_get-all req res e =
        let nums = bucket_nums hash req.keys in
        let inc = nums-Increasing req.keys in
        (
          record s { mtx = updates (taken s.mtx req.keys) nums free },
          rw (
            lock_shared_all nums inc s h.unlocked,
            collect_lem f (record s { mtx = taken s.mtx req.keys }) req.keys res.values h.views,
            e,
            unlock_shared_all nums inc s h.unlocked s.buckets,
            Spec.leading-present f req.keys e,
            ◌>>◌,
            ◌>>=◌,
          ),
          record { unlocked = free_again nums inc s h.unlocked (shared 0); views = h.views },
        )

    -- From a state with all locks free, a MultiGet with a key that has no value fails with the
    -- values of the keys in front of it, and returns with the shared locks of all its keys still
    -- held.
    pub multi_get-missing :
        (req : MultiGetRequest) (res : MultiGetResponse)
        → Spec.all_present f req.keys ≡ false
        → multi_get hash req res s
          ≡ done (
            (false, record { values = res.values ++ Spec.leading f req.keys }),
            record s { mtx = taken s.mtx req.keys },
          )
    unfolding multi_get after_collect
    multi_get-missing req res e =
        let nums = bucket_nums hash req.keys in
        let inc = nums-Increasing req.keys in
        rw (
          lock_shared_all nums inc s h.unlocked,
          collect_lem f (record s { mtx = taken s.mtx req.keys }) req.keys res.values h.views,
          e,
          ◌>>◌,
          ◌>>=◌,
        )

    -- From a state with all locks free, a MultiPut with as many values as keys takes its locks
    -- without waiting, succeeds, writes the pairs in order and gives back every lock.
    pub multi_put_locked :
        (req : MultiPutRequest)
        → length req.keys ≡ length req.values
        → Spec.Ends (multi_put hash req s) true (Shows hash (Spec.write_all req.keys req.values f))
    unfolding multi_put
    multi_put_locked req e =
        let nums = bucket_nums hash req.keys in
        let inc = nums-Increasing req.keys in
        let (items, p, q) =
          insert_all_lem f (record s { mtx = updates s.mtx nums exclusive }) req.keys req.values e
            h.views in
        (
          record { buckets = items; mtx = updates (updates s.mtx nums exclusive) nums free },
          rw (
            e,
            ==_self (length req.values),
            lock_all nums inc s h.unlocked,
            p,
            unlock_all nums inc s h.unlocked items,
            ◌>>◌,
            ◌>>=◌,
          ),
          record { unlocked = free_again nums inc s h.unlocked exclusive; views = q },
        )

    -- With vectors of different lengths it fails without effect.
    pub multi_put_locked-mismatch :
        (req : MultiPutRequest)
        → length req.keys ≢ length req.values
        → Spec.Ends (multi_put hash req s) false (Shows hash f)
    unfolding multi_put
    multi_put_locked-mismatch req e = (s, rw (==_ne (length req.keys) (length req.values) e), h)
