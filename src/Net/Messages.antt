-- ===== src/Net/Messages.antt =====
-- kvstore/net/network_messages.hpp and network_messages.cpp: messages, and the functions that
-- serialize requests and responses. The library that writes and reads the structs
-- (common/zpp_bits.hpp) is a parameter: an encoder and a decoder for each struct.
pub mod RoundTrip
use cs300_s23_projects_days.Prelude.{ℕ, Option, none, some, List, length}
use cs300_s23_projects_days.Net.Commands.{
  Request, Response, GetRequest, PutRequest, AppendRequest, DeleteRequest, MultiGetRequest,
  MultiPutRequest, GetResponse, DeleteResponse, MultiGetResponse, JoinRequest, LeaveRequest,
  MoveRequest, QueryResponse, ErrorResponse,
}

pub data MessageType : Type 0 where
  get put append delete multi_get multi_put join leave move query error : MessageType

-- The buffer is a list of bytes.
pub record Message : Type 0 where
  pub type : MessageType
  pub sz : ℕ
  pub buf : List ℕ

-- What a function that can throw std::logic_error does.
pub data Outcome (A : Type 0) : Type 0 where
  returned : A → Outcome A
  logic_error : Outcome A

-- zpp::bits::output and zpp::bits::input on one struct; none if they do not succeed.
pub record Codec (A : Type 0) : Type 0 where
  pub out : A → Option (List ℕ)
  pub in_ : List ℕ → Option A

-- The structs of the requests. QueryRequest has no field.
pub record RequestCodecs : Type 0 where
  pub join : Codec JoinRequest
  pub leave : Codec LeaveRequest
  pub move : Codec MoveRequest
  pub query : Codec (Unit {0})
  pub get : Codec GetRequest
  pub put : Codec PutRequest
  pub append : Codec AppendRequest
  pub delete : Codec DeleteRequest
  pub multi_get : Codec MultiGetRequest
  pub multi_put : Codec MultiPutRequest

-- The structs of the responses. The responses of Join, Leave, Move, Put, Append and MultiPut have
-- no field.
pub record ResponseCodecs : Type 0 where
  pub join : Codec (Unit {0})
  pub leave : Codec (Unit {0})
  pub move : Codec (Unit {0})
  pub query : Codec QueryResponse
  pub get : Codec GetResponse
  pub put : Codec (Unit {0})
  pub append : Codec (Unit {0})
  pub delete : Codec DeleteResponse
  pub multi_get : Codec MultiGetResponse
  pub multi_put : Codec (Unit {0})
  pub error : Codec ErrorResponse

-- One branch of serialize: `if (!success(out(x))) return std::nullopt;`, and at the end the size.
pub framed : MessageType → Option (List ℕ) → Option Message
framed type none = none
framed type (some bytes) = some (record { type = type; sz = length bytes; buf = bytes })

pub encoded : {A : Type 0} → MessageType → Codec A → A → Option Message
encoded type codec x = framed type (codec.out x)

-- One case of deserialize: `if (!success(in(x))) return std::nullopt;`.
pub wrapped : {A R : Type 0} → (A → R) → Option A → Outcome (Option R)
wrapped wrap none = Outcome.returned none
wrapped wrap (some x) = Outcome.returned (some (wrap x))

pub decoded : {A R : Type 0} → (A → R) → Codec A → List ℕ → Outcome (Option R)
decoded wrap codec bytes = wrapped wrap (codec.in_ bytes)

module _ (codecs : RequestCodecs) where
  pub serialize_request : Request → Option Message
  serialize_request (Request.join req) = encoded MessageType.join codecs.join req
  serialize_request (Request.leave req) = encoded MessageType.leave codecs.leave req
  serialize_request (Request.move req) = encoded MessageType.move codecs.move req
  serialize_request Request.query = encoded MessageType.query codecs.query tt
  serialize_request (Request.get req) = encoded MessageType.get codecs.get req
  serialize_request (Request.put req) = encoded MessageType.put codecs.put req
  serialize_request (Request.append req) = encoded MessageType.append codecs.append req
  serialize_request (Request.delete req) = encoded MessageType.delete codecs.delete req
  serialize_request (Request.multi_get req) = encoded MessageType.multi_get codecs.multi_get req
  serialize_request (Request.multi_put req) = encoded MessageType.multi_put codecs.multi_put req

  pub deserialize_request : Message → Outcome (Option Request)
  deserialize_request message = elim message.type [
    | MessageType.join ↦ decoded Request.join codecs.join message.buf
    | MessageType.leave ↦ decoded Request.leave codecs.leave message.buf
    | MessageType.move ↦ decoded Request.move codecs.move message.buf
    | MessageType.query ↦ decoded (λ u. Request.query) codecs.query message.buf
    | MessageType.get ↦ decoded Request.get codecs.get message.buf
    | MessageType.put ↦ decoded Request.put codecs.put message.buf
    | MessageType.append ↦ decoded Request.append codecs.append message.buf
    | MessageType.delete ↦ decoded Request.delete codecs.delete message.buf
    | MessageType.multi_get ↦ decoded Request.multi_get codecs.multi_get message.buf
    | MessageType.multi_put ↦ decoded Request.multi_put codecs.multi_put message.buf
    | MessageType.error ↦ Outcome.logic_error
  ]

module _ (codecs : ResponseCodecs) where
  pub serialize_response : Response → Option Message
  serialize_response Response.join = encoded MessageType.join codecs.join tt
  serialize_response Response.leave = encoded MessageType.leave codecs.leave tt
  serialize_response Response.move = encoded MessageType.move codecs.move tt
  serialize_response (Response.query res) = encoded MessageType.query codecs.query res
  serialize_response (Response.get res) = encoded MessageType.get codecs.get res
  serialize_response Response.put = encoded MessageType.put codecs.put tt
  serialize_response Response.append = encoded MessageType.append codecs.append tt
  serialize_response (Response.delete res) = encoded MessageType.delete codecs.delete res
  serialize_response (Response.multi_get res) = encoded MessageType.multi_get codecs.multi_get res
  serialize_response Response.multi_put = encoded MessageType.multi_put codecs.multi_put tt
  serialize_response (Response.error res) = encoded MessageType.error codecs.error res

  pub deserialize_response : Message → Outcome (Option Response)
  deserialize_response message = elim message.type [
    | MessageType.join ↦ decoded (λ u. Response.join) codecs.join message.buf
    | MessageType.leave ↦ decoded (λ u. Response.leave) codecs.leave message.buf
    | MessageType.move ↦ decoded (λ u. Response.move) codecs.move message.buf
    | MessageType.query ↦ decoded Response.query codecs.query message.buf
    | MessageType.get ↦ decoded Response.get codecs.get message.buf
    | MessageType.put ↦ decoded (λ u. Response.put) codecs.put message.buf
    | MessageType.append ↦ decoded (λ u. Response.append) codecs.append message.buf
    | MessageType.delete ↦ decoded Response.delete codecs.delete message.buf
    | MessageType.multi_get ↦ decoded Response.multi_get codecs.multi_get message.buf
    | MessageType.multi_put ↦ decoded (λ u. Response.multi_put) codecs.multi_put message.buf
    | MessageType.error ↦ decoded Response.error codecs.error message.buf
  ]
