-- ===== src/Store.antt =====
-- kvstore/kvstore: the store interface (kvstore.hpp), its abstract meaning, and the two stores.
pub mod Spec
pub mod Contract
pub mod Simple
pub mod Concurrent
pub mod Implementations
use cs300_s23_projects_days.Prelude.{Bool, List, Str}
use cs300_s23_projects_days.Run.{Act}
use cs300_s23_projects_days.Net.Commands.{
  GetRequest, PutRequest, AppendRequest, DeleteRequest, MultiGetRequest, MultiPutRequest,
  GetResponse, DeleteResponse, MultiGetResponse,
}

-- class KvStore: a method takes the request and the response as it stands, and returns its Boolean
-- with the response that it leaves. The responses of Put, Append and MultiPut have no fields.
pub record KvStore (S : Type 0) : Type 0 where
  pub get : GetRequest → GetResponse → Act S (Bool × GetResponse)
  pub put : PutRequest → Act S Bool
  pub append : AppendRequest → Act S Bool
  pub delete : DeleteRequest → DeleteResponse → Act S (Bool × DeleteResponse)
  pub multi_get : MultiGetRequest → MultiGetResponse → Act S (Bool × MultiGetResponse)
  pub multi_put : MultiPutRequest → Act S Bool
  pub all_keys : Act S (List Str)
