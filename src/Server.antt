-- ===== src/Server.antt =====
-- kvstore/server/server.hpp and server.cpp: KvServer. The store behind it is a parameter, as the
-- code holds it through the KvStore interface.
pub mod Answers
pub mod Runs
pub mod Worker
pub mod Queue
use cs300_s23_projects_days.Prelude.{
  Bool, true, false, not, List, [], ◌∷◌, Str, codes, if◌then◌else◌,
}
use cs300_s23_projects_days.Common.Utils.{is_empty}
use cs300_s23_projects_days.Run.{Run, Act, pure, ◌>>=◌, ◌>>◌}
use cs300_s23_projects_days.Net.Commands.{
  Request, Response, GetRequest, PutRequest, AppendRequest, DeleteRequest, MultiGetRequest,
  MultiPutRequest,
}
use cs300_s23_projects_days.Store.{KvStore}

-- What process_request returns, or the exception for a request of the shardmaster.
pub data Processed : Type 0 where
  response : Response → Processed
  logic_error : Processed

abbrev pub error_response : Str → Processed
error_response msg = response (Response.error (record { msg = msg }))

abbrev pub not_responsible : Str
not_responsible = codes "server not responsible for key"

abbrev pub not_responsible_keys : Str
not_responsible_keys = codes "server not responsible for key(s)"

abbrev pub no_key : Str
no_key = codes "key does not exist in the KVStore"

abbrev pub no_keys : Str
no_keys = codes "key(s) do not exist in the KVStore"

abbrev pub internal_error : Str
internal_error = codes "internal KVStore error"

-- The part of KvServer's state that process_request reads.
pub record KvServer : Type 0 where
  pub shardmaster_address : Str

-- Both overloads answer true whether there is a shardmaster or not.
pub responsible_for : KvServer → Str → Bool
responsible_for server key = if is_empty server.shardmaster_address then true else true

pub responsible_for_all : KvServer → List Str → Bool
responsible_for_all server keys = if is_empty server.shardmaster_address then true else true

module _ {S : Type 0} (store : KvStore S) (server : KvServer) where
  process_get : Bool → GetRequest → Act S Processed
  process_get false req = pure (error_response not_responsible)
  process_get true req = do
    (found, res) ← store.get req (record { value = [] })
    pure (if found then response (Response.get res) else error_response no_key)

  process_put : Bool → PutRequest → Act S Processed
  process_put false req = pure (error_response not_responsible)
  process_put true req = do
    written ← store.put req
    pure (if written then response Response.put else error_response internal_error)

  process_append : Bool → AppendRequest → Act S Processed
  process_append false req = pure (error_response not_responsible)
  process_append true req = do
    written ← store.append req
    pure (if written then response Response.append else error_response internal_error)

  process_delete : Bool → DeleteRequest → Act S Processed
  process_delete false req = pure (error_response not_responsible)
  process_delete true req = do
    (found, res) ← store.delete req (record { value = [] })
    pure (if found then response (Response.delete res) else error_response no_key)

  process_multi_get : Bool → MultiGetRequest → Act S Processed
  process_multi_get false req = pure (error_response not_responsible_keys)
  process_multi_get true req = do
    (found, res) ← store.multi_get req (record { values = [] })
    pure (if found then response (Response.multi_get res) else error_response no_keys)

  process_multi_put : Bool → MultiPutRequest → Act S Processed
  process_multi_put false req = pure (error_response not_responsible_keys)
  process_multi_put true req = do
    written ← store.multi_put req
    pure (if written then response Response.multi_put else error_response internal_error)

  pub process_request : Request → Act S Processed
  unfolding process_get process_put process_append process_delete process_multi_get
      process_multi_put
  process_request (Request.get req) = process_get (responsible_for server req.key) req
  process_request (Request.put req) = process_put (responsible_for server req.key) req
  process_request (Request.append req) = process_append (responsible_for server req.key) req
  process_request (Request.delete req) = process_delete (responsible_for server req.key) req
  process_request (Request.multi_get req) =
      process_multi_get (responsible_for_all server req.keys) req
  process_request (Request.multi_put req) =
      process_multi_put (responsible_for_all server req.keys) req
  process_request other = pure logic_error
