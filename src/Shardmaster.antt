-- ===== src/Shardmaster.antt =====
-- kvstore/shardmaster/static_shardmaster.hpp and static_shardmaster.cpp: StaticShardmaster. Its four
-- operations keep no state and leave their response as it is.
use cs300_s23_projects_days.Prelude.{
  ◌≡◌, refl, Bool, true, false, none, some, [], Str, codes, if◌then◌else◌,
}
use cs300_s23_projects_days.Common.Config.{ShardmasterConfig, get_server}
use cs300_s23_projects_days.Net.Commands.{
  Request, Response, JoinRequest, LeaveRequest, MoveRequest, QueryResponse,
}
use cs300_s23_projects_days.Server.{Processed, error_response}

pub join : JoinRequest → Bool
join req = true

pub leave : LeaveRequest → Bool
leave req = true

pub move : MoveRequest → Bool
move req = true

pub query : QueryResponse → Bool × QueryResponse
query res = (true, res)

-- QueryResponse query_res{};
pub empty_response : QueryResponse
empty_response = record { config = record { servers = [] } }

pub process_query : Bool × QueryResponse → Processed
process_query (true, res) = Processed.response (Response.query res)
process_query (false, res) = error_response (codes "Failed to process Query request.")

pub process_request : Request → Processed
process_request (Request.join req) =
    if join req
    then Processed.response Response.join
    else error_response (codes "Failed to process Join request.")
process_request (Request.leave req) =
    if leave req
    then Processed.response Response.leave
    else error_response (codes "Failed to process Leave request.")
process_request (Request.move req) =
    if move req
    then Processed.response Response.move
    else error_response (codes "Failed to process Move request.")
process_request Request.query = process_query (query empty_response)
process_request other = Processed.logic_error

-- The configuration that Query answers has no server for any key.
query-get_server :
    (key : Str)
    → (config : ShardmasterConfig) × (process_request Request.query
        ≡ Processed.response (Response.query (record { config = config })))
      × (get_server config key ≡ some none)
unfolding process_request process_query query empty_response get_server
query-get_server key = (record { servers = [] }, refl, refl)
