-- ===== src/Client.antt =====
-- kvstore/client/simple_client.cpp: SimpleClient, over a connection to one server.
-- GDPRDelete is a stub in the code.
pub mod Loopback
pub mod EndToEnd
pub mod Sharded
use cs300_s23_projects_days.Prelude.{
  ℕ, Bool, true, false, Option, none, some, List, Str, if◌then◌else◌,
}
use cs300_s23_projects_days.Run.{Run, Act, pure, ◌>>=◌}
use cs300_s23_projects_days.Net.Commands.{
  Request, Response, GetRequest, PutRequest, AppendRequest, DeleteRequest, MultiGetRequest,
  MultiPutRequest,
}
use cs300_s23_projects_days.Net.Messages.{RequestCodecs, ResponseCodecs}
use cs300_s23_projects_days.Net.Connection.{Transport, send_request, recv_response}

pub record SimpleClient : Type 0 where
  pub server_addr : Str

-- The tests on the variant that a response has.
pub get_value : Option Response → Option Str
get_value (some (Response.get res)) = some res.value
get_value other = none

pub put_done : Option Response → Bool
put_done (some Response.put) = true
put_done other = false

pub append_done : Option Response → Bool
append_done (some Response.append) = true
append_done other = false

pub delete_value : Option Response → Option Str
delete_value (some (Response.delete res)) = some res.value
delete_value other = none

pub multi_get_values : Option Response → Option (List Str)
multi_get_values (some (Response.multi_get res)) = some res.values
multi_get_values other = none

pub multi_put_done : Option Response → Bool
multi_put_done (some Response.multi_put) = true
multi_put_done other = false

-- connect_to_server is a parameter; it answers none for a null pointer.
module _ {N : Type 0} (connect_to_server : Str → Act N (Option ℕ)) (net : Transport N)
    (requests : RequestCodecs) (responses : ResponseCodecs) where
  pub exchange_on : Request → Option ℕ → Act N (Option Response)
  exchange_on req none = pure none
  exchange_on req (some fd) = do
    sent ← send_request net requests fd req
    if sent then recv_response net responses fd else pure none

  -- What the methods have in common: connect, send the request, receive the response.
  pub exchange : SimpleClient → Request → Act N (Option Response)
  exchange client req = do conn ← connect_to_server client.server_addr; exchange_on req conn

  pub get : SimpleClient → Str → Act N (Option Str)
  get client key = do
    res ← exchange client (Request.get (record { key = key }))
    pure (get_value res)

  pub put : SimpleClient → Str → Str → Act N Bool
  put client key value = do
    res ← exchange client (Request.put (record { key = key; value = value }))
    pure (put_done res)

  pub append : SimpleClient → Str → Str → Act N Bool
  append client key value = do
    res ← exchange client (Request.append (record { key = key; value = value }))
    pure (append_done res)

  pub delete : SimpleClient → Str → Act N (Option Str)
  delete client key = do
    res ← exchange client (Request.delete (record { key = key }))
    pure (delete_value res)

  pub multi_get : SimpleClient → List Str → Act N (Option (List Str))
  multi_get client keys = do
    res ← exchange client (Request.multi_get (record { keys = keys }))
    pure (multi_get_values res)

  pub multi_put : SimpleClient → List Str → List Str → Act N Bool
  multi_put client keys values = do
    res ← exchange client (Request.multi_put (record { keys = keys; values = values }))
    pure (multi_put_done res)
