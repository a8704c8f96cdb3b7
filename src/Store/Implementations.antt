-- ===== src/Store/Implementations.antt =====
-- Both stores of kvstore/kvstore as implementations of the interface of Store.
use cs300_s23_projects_days.Prelude.{ℕ, Str}
use cs300_s23_projects_days.Store.{KvStore}
use cs300_s23_projects_days.Store.Contract.{Implements}
use cs300_s23_projects_days.Store.Simple
use cs300_s23_projects_days.Store.Simple.{SimpleKvStore}
use cs300_s23_projects_days.Store.Simple.Refine as SimpleLaws
use cs300_s23_projects_days.Store.Concurrent
use cs300_s23_projects_days.Store.Concurrent.{DbMap}
use cs300_s23_projects_days.Store.Concurrent.Refine as ConcurrentLaws
use cs300_s23_projects_days.Store.Concurrent.Multi

abbrev pub simple_store : KvStore SimpleKvStore
simple_store = record {
  get = Simple.get;
  put = Simple.put;
  append = Simple.append;
  delete = Simple.delete;
  multi_get = Simple.multi_get;
  multi_put = Simple.multi_put;
  all_keys = Simple.all_keys;
}

abbrev pub concurrent_store : (Str → ℕ) → KvStore DbMap
concurrent_store hash = record {
  get = Concurrent.get hash;
  put = Concurrent.put hash;
  append = Concurrent.append hash;
  delete = Concurrent.delete hash;
  multi_get = Concurrent.multi_get hash;
  multi_put = Concurrent.multi_put hash;
  all_keys = Concurrent.all_keys hash;
}

pub simple_store-Implements : Implements simple_store SimpleLaws.Shows
simple_store-Implements = record {
  get_law = SimpleLaws.get_lem;
  put_law = SimpleLaws.put_lem;
  append_law = SimpleLaws.append_lem;
  delete_law = SimpleLaws.delete_lem;
  multi_get_law = λ f s h req res e. rw e at (SimpleLaws.multi_get_lem f s h req res);
  multi_put_law = SimpleLaws.multi_put_lem;
  multi_put_mismatch = SimpleLaws.multi_put-mismatch;
}

pub concurrent_store-Implements :
    (hash : Str → ℕ) → Implements (concurrent_store hash) (ConcurrentLaws.Shows hash)
concurrent_store-Implements hash = record {
  get_law = ConcurrentLaws.get_locked hash;
  put_law = ConcurrentLaws.put_locked hash;
  append_law = ConcurrentLaws.append_locked hash;
  delete_law = ConcurrentLaws.delete_locked hash;
  multi_get_law = Multi.multi_get-all hash;
  multi_put_law = Multi.multi_put_locked hash;
  multi_put_mismatch = Multi.multi_put_locked-mismatch hash;
}
