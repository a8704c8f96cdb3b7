-- ===== src/Tests/Client.antt =====
-- Tests of kvstore/client and kvstore/net: a client against a server over the simple store.
use cs300_s23_projects_days.Prelude.{refl, some, [], ◌∷◌, codes}
use cs300_s23_projects_days.Run.{Run}
use cs300_s23_projects_days.Tests.Store.{one_entry, simple_one, simple_one-Shows}
use cs300_s23_projects_days.Net.Commands.{Request, Response}
use cs300_s23_projects_days.Store.Spec.{View, Ends}
use cs300_s23_projects_days.Store.Simple
use cs300_s23_projects_days.Store.Simple.Refine as SimpleLaws
use cs300_s23_projects_days.Store.Implementations.{simple_store, simple_store-Implements}
use cs300_s23_projects_days.Server.{KvServer}
use cs300_s23_projects_days.Server.Answers.{next_view}
use cs300_s23_projects_days.Client
use cs300_s23_projects_days.Client.{SimpleClient}
use cs300_s23_projects_days.Client.Loopback.{Mail, no_mail, client_side, listening}
use cs300_s23_projects_days.Client.EndToEnd.{Settled, exchange-answer}
use cs300_s23_projects_days.Tests.Structs.{
  requests, responses, requests-RequestsFaithful, responses-ResponsesFaithful,
}

abbrev lone_server : KvServer
lone_server = record { shardmaster_address = [] }

abbrev client : SimpleClient
client = record { server_addr = codes "localhost:1" }

abbrev put_two : Request
put_two =
    Request.multi_put
      (record { keys = codes "a" ∷ codes "b" ∷ []; values = codes "1" ∷ codes "2" ∷ [] })

abbrev a_value : Response
a_value = Response.get (record { value = codes "v" })

-- The store of the tests has one entry.
abbrev EndsSettled : {A : Type 0} → Run (A × (Simple.SimpleKvStore × Mail)) → A → View → Type 0
EndsSettled r a f = Ends r a (
    Settled simple_store SimpleLaws.Shows simple_store-Implements lone_server requests
      requests-RequestsFaithful responses responses-ResponsesFaithful client f)

exchange-answer_example :
    EndsSettled
      (Client.exchange
        (listening client.server_addr)
        (client_side simple_store lone_server requests responses)
        requests
        responses
        client
        put_two
        (simple_one, no_mail))
      (some Response.multi_put)
      (next_view one_entry put_two)
exchange-answer_example =
    exchange-answer simple_store SimpleLaws.Shows simple_store-Implements lone_server requests
      requests-RequestsFaithful responses responses-ResponsesFaithful client one_entry simple_one
      put_two Response.multi_put simple_one-Shows tt refl
