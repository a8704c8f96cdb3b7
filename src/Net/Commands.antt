-- ===== src/Net/Commands.antt =====
-- kvstore/net/server_commands.hpp, shardmaster_commands.hpp, and the variants of
-- network_messages.hpp. A response without fields is a value of the unit type.
use cs300_s23_projects_days.Prelude.{List, Str}
use cs300_s23_projects_days.Common.Shard.{Shard}
use cs300_s23_projects_days.Common.Config.{ShardmasterConfig}

pub record GetRequest : Type 0 where
  pub key : Str

pub record PutRequest : Type 0 where
  pub key : Str
  pub value : Str

pub record AppendRequest : Type 0 where
  pub key : Str
  pub value : Str

pub record DeleteRequest : Type 0 where
  pub key : Str

pub record MultiGetRequest : Type 0 where
  pub keys : List Str

pub record MultiPutRequest : Type 0 where
  pub keys : List Str
  pub values : List Str

pub record GetResponse : Type 0 where
  pub value : Str

pub record DeleteResponse : Type 0 where
  pub value : Str

pub record MultiGetResponse : Type 0 where
  pub values : List Str

pub record JoinRequest : Type 0 where
  pub server : Str

pub record LeaveRequest : Type 0 where
  pub server : Str

pub record MoveRequest : Type 0 where
  pub server : Str
  pub shards : List Shard

pub record QueryResponse : Type 0 where
  pub config : ShardmasterConfig

pub record ErrorResponse : Type 0 where
  pub msg : Str

pub data Request : Type 0 where
  join : JoinRequest → Request
  leave : LeaveRequest → Request
  move : MoveRequest → Request
  query : Request
  get : GetRequest → Request
  put : PutRequest → Request
  append : AppendRequest → Request
  delete : DeleteRequest → Request
  multi_get : MultiGetRequest → Request
  multi_put : MultiPutRequest → Request

pub data Response : Type 0 where
  join : Response
  leave : Response
  move : Response
  query : QueryResponse → Response
  get : GetResponse → Response
  put : Response
  append : Response
  delete : DeleteResponse → Response
  multi_get : MultiGetResponse → Response
  multi_put : Response
  error : ErrorResponse → Response
