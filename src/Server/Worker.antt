-- ===== src/Server/Worker.antt =====
-- KvServer::work_loop of kvstore/server/server.cpp: what a worker does with one request of a
-- client. The state is that of the store and that of the network.
use cs300_s23_projects_days.Prelude.{ℕ, Bool, false, Option, none, some}
use cs300_s23_projects_days.Run.{done, blocked, undefined, Act, pure, ◌>>=◌}
use cs300_s23_projects_days.Net.Commands.{Request, Response}
use cs300_s23_projects_days.Net.Messages.{RequestCodecs, ResponseCodecs}
use cs300_s23_projects_days.Net.Connection.{Transport, recv_request, send_response}
use cs300_s23_projects_days.Store.{KvStore}
use cs300_s23_projects_days.Server.{KvServer, Processed, process_request}

abbrev pub on_store : {S N A : Type 0} → Act S A → Act (S × N) A
on_store m (s, n) = elim (m s) [
  | done (a, s') ↦ done (a, (s', n))
  | blocked ↦ blocked
  | undefined ↦ undefined
]

abbrev pub on_net : {S N A : Type 0} → Act N A → Act (S × N) A
on_net m (s, n) = elim (m n) [
  | done (a, n') ↦ done (a, (s, n'))
  | blocked ↦ blocked
  | undefined ↦ undefined
]

-- An exception of process_request ends the program.
unfoldable pub response_of : {S : Type 0} → Processed → Act S Response
response_of (Processed.response res) = pure res
response_of Processed.logic_error = λ s. undefined

module _ {S N : Type 0} (store : KvStore S) (server : KvServer) (net : Transport N)
    (requests : RequestCodecs) (responses : ResponseCodecs) where
  -- The result says whether the loop goes on; if not, the worker closes the connection.
  unfoldable pub serve_some : ℕ → Option Request → Act (S × N) Bool
  serve_some fd none = pure false
  serve_some fd (some req) = do
    processed ← on_store (process_request store server req)
    res ← response_of processed
    on_net (send_response net responses fd res)

  unfoldable pub serve_one : ℕ → Act (S × N) Bool
  serve_one fd = do req ← on_net (recv_request net requests fd); serve_some fd req
