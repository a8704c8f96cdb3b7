-- ===== src/Client/Loopback.antt =====
-- A network with one server (kvstore/server/server.cpp) and one client: messages arrive whole and
-- in order. While the client waits for a response, a worker of the server takes its turn.
use cs300_s23_projects_days.Prelude.{
  ℕ, true, Option, none, some, List, [], ◌∷◌, ◌++◌, Str, str_eq, if◌then◌else◌,
}
use cs300_s23_projects_days.Run.{done, Act, pure, ◌>>◌}
use cs300_s23_projects_days.Net.Messages.{Message, RequestCodecs, ResponseCodecs}
use cs300_s23_projects_days.Net.Connection.{Transport}
use cs300_s23_projects_days.Store.{KvStore}
use cs300_s23_projects_days.Server.{KvServer}
use cs300_s23_projects_days.Server.Worker.{on_net, serve_one}

-- The messages on their way.
pub record Mail : Type 0 where
  pub to_server : List Message
  pub to_client : List Message

abbrev pub no_mail : Mail
no_mail = record { to_server = []; to_client = [] }

-- The first of a list of messages, if any.
abbrev first : List Message → Option Message × List Message
first [] = (none, [])
first (m ∷ ms) = (some m, ms)

abbrev pub server_side : Transport Mail
server_side = record {
  send_message = λ fd m mail. done (true, record mail { to_client = mail.to_client ++ m ∷ [] });
  recv_message =
      λ fd mail. let (m, rest) = first mail.to_server in done (m, record mail { to_server = rest });
}

module _ {S : Type 0} (store : KvStore S) (server : KvServer) (requests : RequestCodecs)
    (responses : ResponseCodecs) where
  abbrev pub client_side : Transport (S × Mail)
  client_side = record {
    send_message =
        λ fd m. on_net (λ mail. done (true, record mail { to_server = mail.to_server ++ m ∷ [] }));
    recv_message = λ fd. do
      serve_one store server server_side requests responses fd
      on_net λ mail.
          let (m, rest) = first mail.to_client in done (m, record mail { to_client = rest });
  }

-- The server listens on one address.
abbrev pub listening : {N : Type 0} → Str → Str → Act N (Option ℕ)
listening addr a = pure (if str_eq a addr then some 0 else none)
