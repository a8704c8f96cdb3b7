-- ===== src/Store/Contract.antt =====
-- The contract that a server relies on: a KvStore (kvstore/kvstore/kvstore.hpp) whose states show a
-- partial function, and whose methods return and act as Store.Spec says. A MultiGet of a missing key
-- is not part of it.
use cs300_s23_projects_days.Prelude.{◌≡◌, ◌≢◌, true, false, ◌++◌, length}
use cs300_s23_projects_days.Net.Commands.{
  GetRequest, PutRequest, AppendRequest, DeleteRequest, MultiGetRequest, MultiPutRequest,
  GetResponse, DeleteResponse, MultiGetResponse,
}
use cs300_s23_projects_days.Store.{KvStore}
use cs300_s23_projects_days.Store.Spec
use cs300_s23_projects_days.Store.Spec.{View, Ends}

pub record Implements {S : Type 0} (store : KvStore S) (Shows : View → S → Type 0) : Type 0 where
  pub get_law :
      (f : View) (s : S)
      → Shows f s
      → (req : GetRequest) (res : GetResponse)
      → Ends (store.get req res s) (Spec.get_reply (f req.key) res) (Shows f)
  pub put_law :
      (f : View) (s : S)
      → Shows f s
      → (req : PutRequest) → Ends (store.put req s) true (Shows (Spec.write req.key req.value f))
  pub append_law :
      (f : View) (s : S)
      → Shows f s
      → (req : AppendRequest)
      → Ends
          (store.append req s)
          true
          (Shows (Spec.write req.key (Spec.appended req.value (f req.key)) f))
  pub delete_law :
      (f : View) (s : S)
      → Shows f s
      → (req : DeleteRequest) (res : DeleteResponse)
      → Ends
          (store.delete req res s)
          (Spec.delete_reply (f req.key) res)
          (Shows (Spec.remove req.key f))
  pub multi_get_law :
      (f : View) (s : S)
      → Shows f s
      → (req : MultiGetRequest) (res : MultiGetResponse) → Spec.all_present f req.keys ≡ true
      → Ends
          (store.multi_get req res s)
          (true, record { values = res.values ++ Spec.present f req.keys })
          (Shows f)
  pub multi_put_law :
      (f : View) (s : S)
      → Shows f s
      → (req : MultiPutRequest) → length req.keys ≡ length req.values
      → Ends (store.multi_put req s) true (Shows (Spec.write_all req.keys req.values f))
  pub multi_put_mismatch :
      (f : View) (s : S)
      → Shows f s
      → (req : MultiPutRequest) → length req.keys ≢ length req.values
      → Ends (store.multi_put req s) false (Shows f)
