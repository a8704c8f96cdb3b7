-- ===== src/Net/Connection.antt =====
-- kvstore/net/network_conn.cpp: a request or a response on a connection. send_message and
-- recv_message of network_messages.cpp are an interface here; a connection is its descriptor.
-- An exception that nobody catches ends the program: it is `undefined`.
use cs300_s23_projects_days.Prelude.{ℕ, Bool, false, Option, none, some}
use cs300_s23_projects_days.Run.{undefined, Act, pure, ◌>>=◌}
use cs300_s23_projects_days.Net.Commands.{Request, Response}
use cs300_s23_projects_days.Net.Messages.{
  Message, Outcome, RequestCodecs, ResponseCodecs, serialize_request, deserialize_request,
  serialize_response, deserialize_response,
}

-- Both may fail; recv_message answers none if it does.
pub record Transport (N : Type 0) : Type 0 where
  pub send_message : ℕ → Message → Act N Bool
  pub recv_message : ℕ → Act N (Option Message)

unfoldable pub or_throw : {N A : Type 0} → Outcome A → Act N A
or_throw (Outcome.returned a) = pure a
or_throw Outcome.logic_error = λ s. undefined

module _ {N : Type 0} (net : Transport N) where
  unfoldable pub send_if_some : ℕ → Option Message → Act N Bool
  send_if_some fd none = pure false
  send_if_some fd (some m) = net.send_message fd m

  unfoldable pub read_if_some :
      {A : Type 0} → (Message → Outcome (Option A)) → Option Message → Act N (Option A)
  read_if_some deserialize none = pure none
  read_if_some deserialize (some m) = or_throw (deserialize m)

  -- ServerConn::send_request and recv_response, on the side of a client.
  unfoldable pub send_request : RequestCodecs → ℕ → Request → Act N Bool
  send_request codecs fd req = send_if_some fd (serialize_request codecs req)

  unfoldable pub recv_response : ResponseCodecs → ℕ → Act N (Option Response)
  recv_response codecs fd = do m ← net.recv_message fd; read_if_some (deserialize_response codecs) m

  -- ClientConn::recv_request and send_response, on the side of a server.
  unfoldable pub recv_request : RequestCodecs → ℕ → Act N (Option Request)
  recv_request codecs fd = do m ← net.recv_message fd; read_if_some (deserialize_request codecs) m

  unfoldable pub send_response : ResponseCodecs → ℕ → Response → Act N Bool
  send_response codecs fd res = send_if_some fd (serialize_response codecs res)
