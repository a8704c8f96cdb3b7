-- ===== src/Tests/Structs.antt =====
-- The serializer of each struct of kvstore/net that the tests use.
use cs300_s23_projects_days.Prelude.{refl}
use cs300_s23_projects_days.Common.Shard.{Shard}
use cs300_s23_projects_days.Common.Config.{ServerConfig, ShardmasterConfig}
use cs300_s23_projects_days.Net.Commands.{
  GetRequest, PutRequest, AppendRequest, DeleteRequest, MultiGetRequest, MultiPutRequest,
  GetResponse, DeleteResponse, MultiGetResponse, JoinRequest, LeaveRequest, MoveRequest,
  QueryResponse, ErrorResponse,
}
use cs300_s23_projects_days.Net.Messages.{Codec, RequestCodecs, ResponseCodecs}
use cs300_s23_projects_days.Net.Messages.RoundTrip.{Faithful, RequestsFaithful, ResponsesFaithful}
use cs300_s23_projects_days.Tests.Codecs.{
  text, no_fields, listed, paired, via, text-Faithful, no_fields-Faithful, listed-Faithful,
  paired-Faithful, via-Faithful,
}

abbrev get_request : Codec GetRequest
get_request = via (λ (a : GetRequest). a.key) (λ s. record { key = s }) text

get_request-Faithful : Faithful get_request
get_request-Faithful =
    via-Faithful (λ (a : GetRequest). a.key) (λ s. record { key = s }) text (λ a. refl)
      text-Faithful

abbrev delete_request : Codec DeleteRequest
delete_request = via (λ (a : DeleteRequest). a.key) (λ s. record { key = s }) text

delete_request-Faithful : Faithful delete_request
delete_request-Faithful =
    via-Faithful (λ (a : DeleteRequest). a.key) (λ s. record { key = s }) text (λ a. refl)
      text-Faithful

abbrev get_response : Codec GetResponse
get_response = via (λ (a : GetResponse). a.value) (λ s. record { value = s }) text

get_response-Faithful : Faithful get_response
get_response-Faithful =
    via-Faithful (λ (a : GetResponse). a.value) (λ s. record { value = s }) text (λ a. refl)
      text-Faithful

abbrev delete_response : Codec DeleteResponse
delete_response = via (λ (a : DeleteResponse). a.value) (λ s. record { value = s }) text

delete_response-Faithful : Faithful delete_response
delete_response-Faithful =
    via-Faithful (λ (a : DeleteResponse). a.value) (λ s. record { value = s }) text (λ a. refl)
      text-Faithful

abbrev join_request : Codec JoinRequest
join_request = via (λ (a : JoinRequest). a.server) (λ s. record { server = s }) text

join_request-Faithful : Faithful join_request
join_request-Faithful =
    via-Faithful (λ (a : JoinRequest). a.server) (λ s. record { server = s }) text (λ a. refl)
      text-Faithful

abbrev leave_request : Codec LeaveRequest
leave_request = via (λ (a : LeaveRequest). a.server) (λ s. record { server = s }) text

leave_request-Faithful : Faithful leave_request
leave_request-Faithful =
    via-Faithful (λ (a : LeaveRequest). a.server) (λ s. record { server = s }) text (λ a. refl)
      text-Faithful

abbrev error_response : Codec ErrorResponse
error_response = via (λ (a : ErrorResponse). a.msg) (λ s. record { msg = s }) text

error_response-Faithful : Faithful error_response
error_response-Faithful =
    via-Faithful (λ (a : ErrorResponse). a.msg) (λ s. record { msg = s }) text (λ a. refl)
      text-Faithful

abbrev multi_get_request : Codec MultiGetRequest
multi_get_request = via (λ (a : MultiGetRequest). a.keys) (λ s. record { keys = s }) (listed text)

multi_get_request-Faithful : Faithful multi_get_request
multi_get_request-Faithful =
    via-Faithful (λ (a : MultiGetRequest). a.keys) (λ s. record { keys = s }) (listed text)
      (λ a. refl) (listed-Faithful text text-Faithful)

abbrev multi_get_response : Codec MultiGetResponse
multi_get_response =
    via (λ (a : MultiGetResponse). a.values) (λ s. record { values = s }) (listed text)

multi_get_response-Faithful : Faithful multi_get_response
multi_get_response-Faithful =
    via-Faithful (λ (a : MultiGetResponse). a.values) (λ s. record { values = s }) (listed text)
      (λ a. refl) (listed-Faithful text text-Faithful)

abbrev put_request : Codec PutRequest
put_request =
    via (λ (a : PutRequest). (a.key, a.value)) (λ p. record { key = p.0; value = p.1 })
      (paired text text)

put_request-Faithful : Faithful put_request
put_request-Faithful =
    via-Faithful (λ (a : PutRequest). (a.key, a.value)) (λ p. record { key = p.0; value = p.1 })
      (paired text text) (λ a. refl) (paired-Faithful text text text-Faithful text-Faithful)

abbrev append_request : Codec AppendRequest
append_request =
    via (λ (a : AppendRequest). (a.key, a.value)) (λ p. record { key = p.0; value = p.1 })
      (paired text text)

append_request-Faithful : Faithful append_request
append_request-Faithful =
    via-Faithful (λ (a : AppendRequest). (a.key, a.value)) (λ p. record { key = p.0; value = p.1 })
      (paired text text) (λ a. refl) (paired-Faithful text text text-Faithful text-Faithful)

abbrev multi_put_request : Codec MultiPutRequest
multi_put_request =
    via (λ (a : MultiPutRequest). (a.keys, a.values)) (λ p. record { keys = p.0; values = p.1 })
      (paired (listed text) (listed text))

multi_put_request-Faithful : Faithful multi_put_request
multi_put_request-Faithful =
    via-Faithful (λ (a : MultiPutRequest). (a.keys, a.values))
      (λ p. record { keys = p.0; values = p.1 }) (paired (listed text) (listed text)) (λ a. refl)
      (paired-Faithful (listed text) (listed text) (listed-Faithful text text-Faithful)
        (listed-Faithful text text-Faithful))

abbrev shard : Codec Shard
shard =
    via (λ (a : Shard). (a.lower, a.upper)) (λ p. record { lower = p.0; upper = p.1 })
      (paired text text)

shard-Faithful : Faithful shard
shard-Faithful =
    via-Faithful (λ (a : Shard). (a.lower, a.upper)) (λ p. record { lower = p.0; upper = p.1 })
      (paired text text) (λ a. refl) (paired-Faithful text text text-Faithful text-Faithful)

abbrev server_config : Codec ServerConfig
server_config =
    via (λ (a : ServerConfig). (a.server, a.shards)) (λ p. record { server = p.0; shards = p.1 })
      (paired text (listed shard))

server_config-Faithful : Faithful server_config
server_config-Faithful =
    via-Faithful (λ (a : ServerConfig). (a.server, a.shards))
      (λ p. record { server = p.0; shards = p.1 }) (paired text (listed shard)) (λ a. refl)
      (paired-Faithful text (listed shard) text-Faithful (listed-Faithful shard shard-Faithful))

abbrev move_request : Codec MoveRequest
move_request =
    via (λ (a : MoveRequest). (a.server, a.shards)) (λ p. record { server = p.0; shards = p.1 })
      (paired text (listed shard))

move_request-Faithful : Faithful move_request
move_request-Faithful =
    via-Faithful (λ (a : MoveRequest). (a.server, a.shards))
      (λ p. record { server = p.0; shards = p.1 }) (paired text (listed shard)) (λ a. refl)
      (paired-Faithful text (listed shard) text-Faithful (listed-Faithful shard shard-Faithful))

abbrev shardmaster_config : Codec ShardmasterConfig
shardmaster_config =
    via (λ (a : ShardmasterConfig). a.servers) (λ s. record { servers = s }) (listed server_config)

shardmaster_config-Faithful : Faithful shardmaster_config
shardmaster_config-Faithful =
    via-Faithful (λ (a : ShardmasterConfig). a.servers) (λ s. record { servers = s })
      (listed server_config) (λ a. refl) (listed-Faithful server_config server_config-Faithful)

abbrev query_response : Codec QueryResponse
query_response =
    via (λ (a : QueryResponse). a.config) (λ s. record { config = s }) shardmaster_config

query_response-Faithful : Faithful query_response
query_response-Faithful =
    via-Faithful (λ (a : QueryResponse). a.config) (λ s. record { config = s }) shardmaster_config
      (λ a. refl) shardmaster_config-Faithful

abbrev pub requests : RequestCodecs
requests = record {
  join = join_request;
  leave = leave_request;
  move = move_request;
  query = no_fields;
  get = get_request;
  put = put_request;
  append = append_request;
  delete = delete_request;
  multi_get = multi_get_request;
  multi_put = multi_put_request;
}

pub requests-RequestsFaithful : RequestsFaithful requests
requests-RequestsFaithful = record {
  join = join_request-Faithful;
  leave = leave_request-Faithful;
  move = move_request-Faithful;
  query = no_fields-Faithful;
  get = get_request-Faithful;
  put = put_request-Faithful;
  append = append_request-Faithful;
  delete = delete_request-Faithful;
  multi_get = multi_get_request-Faithful;
  multi_put = multi_put_request-Faithful;
}

abbrev pub responses : ResponseCodecs
responses = record {
  join = no_fields;
  leave = no_fields;
  move = no_fields;
  query = query_response;
  get = get_response;
  put = no_fields;
  append = no_fields;
  delete = delete_response;
  multi_get = multi_get_response;
  multi_put = no_fields;
  error = error_response;
}

pub responses-ResponsesFaithful : ResponsesFaithful responses
responses-ResponsesFaithful = record {
  join = no_fields-Faithful;
  leave = no_fields-Faithful;
  move = no_fields-Faithful;
  query = query_response-Faithful;
  get = get_response-Faithful;
  put = no_fields-Faithful;
  append = no_fields-Faithful;
  delete = delete_response-Faithful;
  multi_get = multi_get_response-Faithful;
  multi_put = no_fields-Faithful;
  error = error_response-Faithful;
}
