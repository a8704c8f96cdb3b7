-- ===== src/Client/EndToEnd.antt =====
-- A client, the messages, a worker of the server and a store together: kvstore/client/simple_client.cpp,
-- kvstore/net/network_conn.cpp and network_messages.cpp, and kvstore/server/server.cpp.
use cs300_s23_projects_days.Prelude.{
  ℕ, ◌≡◌, refl, true, Option, some, List, Str, str_eq_refl, Option-cases, inl, inr, length, ◌==◌,
  ==_iff, sym, subst, ◌∙◌,
}
use cs300_s23_projects_days.Run.{Act, pure, ◌>>=◌, ◌>>◌, >>=-done}
use cs300_s23_projects_days.Net.Commands.{Request, Response}
use cs300_s23_projects_days.Net.Messages.{RequestCodecs, ResponseCodecs}
use cs300_s23_projects_days.Net.Messages.RoundTrip.{
  RequestsFaithful, ResponsesFaithful, deserialize_request-serialize_request,
  deserialize_response-serialize_response,
}
use cs300_s23_projects_days.Net.Connection.{
  Transport, or_throw, send_if_some, read_if_some, send_request, recv_response, recv_request,
  send_response,
}
use cs300_s23_projects_days.Store.{KvStore}
use cs300_s23_projects_days.Store.Spec
use cs300_s23_projects_days.Store.Spec.{View, Ends}
use cs300_s23_projects_days.Store.Contract.{Implements}
use cs300_s23_projects_days.Server.{KvServer, Processed, no_key}
use cs300_s23_projects_days.Server.Answers.{IsServed, answer, next_view, process_request-answer}
use cs300_s23_projects_days.Server.Worker.{response_of, serve_some, serve_one}
use cs300_s23_projects_days.Client
use cs300_s23_projects_days.Client.{
  SimpleClient, exchange_on, exchange, get_value, append_done, delete_value, multi_get_values,
  multi_put_done,
}
use cs300_s23_projects_days.Client.Loopback.{Mail, no_mail, client_side, listening}

module _ {S : Type 0} (store : KvStore S) (Shows : View → S → Type 0)
    (contract : Implements store Shows) (server : KvServer) (requests : RequestCodecs)
    (requests_faithful : RequestsFaithful requests) (responses : ResponseCodecs)
    (responses_faithful : ResponsesFaithful responses) (client : SimpleClient) where
  abbrev connect : Str → Act (S × Mail) (Option ℕ)
  connect = listening client.server_addr

  abbrev net : Transport (S × Mail)
  net = client_side store server requests responses

  -- The store shows the map, and no message is left on the way.
  abbrev pub Settled : View → S × Mail → Type 0
  Settled f (s, mail) = Shows f s × (mail ≡ no_mail)

  -- With a serializer that can write every struct and reads back what it writes, and a store that
  -- meets the contract: a client that sends a served request receives the response that the map
  -- shown by the store determines, through both serializations and the worker of the server. The
  -- store then shows the next map, and no message is left on the way.
  pub exchange-answer :
      (f : View) (s : S) (req : Request) (res : Response)
      → Shows f s
      → IsServed f req
      → answer f req ≡ Processed.response res
      → Ends
          (exchange connect net requests responses client req (s, no_mail))
          (some res)
          (Settled (next_view f req))
  unfolding exchange exchange_on send_request recv_response recv_request send_response send_if_some
      read_if_some serve_one serve_some response_of or_throw
  exchange-answer f s req res shows served e =
      let (m, w, sz, r) = deserialize_request-serialize_request requests requests_faithful req in
      let (n, w', sz', r') =
        deserialize_response-serialize_response responses responses_faithful res in
      let (s', p, q) = process_request-answer store Shows contract server f s req shows served in
      ((s', no_mail), rw (str_eq_refl, w, r, p, e, w', r', ◌>>=◌, ◌>>◌) refl, (q, refl))

  -- A method returns what it makes of the response.
  finish :
      {A : Type 0} (k : Option Response → A) (req : Request) (res : Response) (o : A)
      → (st : S × Mail) (P : S × Mail → Type 0)
      → Ends (exchange connect net requests responses client req st) (some res) P
      → k (some res) ≡ o
      → Ends ((exchange connect net requests responses client req >>= λ r. pure (k r)) st) o P
  finish k req res o st P (st', p, q) e = (
    st',
    >>=-done (exchange connect net requests responses client req) (λ r. pure (k r)) st p ∙ rw (e),
    q,
  )

  -- Under the conditions on serializer and store of exchange-answer, the client's Get returns the
  -- value that the store has for the key, and nothing if there is none. The store keeps what it
  -- holds.
  pub get-answer :
      (f : View) (s : S) (key : Str)
      → Shows f s
      → Ends (Client.get connect net requests responses client key (s, no_mail)) (f key) (Settled f)
  unfolding Client.get get_value
  get-answer f s key shows = elim (Option-cases (f key)) [
    | inl e ↦
        let req = Request.get (record { key = key }) in
        let res = Response.error (record { msg = no_key }) in
        finish get_value req res (f key) (s, no_mail) (Settled f)
          (exchange-answer f s req res shows tt (rw (e))) (sym e)
    | inr (v, e) ↦
        let req = Request.get (record { key = key }) in
        let res = Response.get (record { value = v }) in
        finish get_value req res (f key) (s, no_mail) (Settled f)
          (exchange-answer f s req res shows tt (rw (e))) (sym e)
  ]

  -- Under the conditions on serializer and store of exchange-answer, the client's Delete returns
  -- the value that the store had for the key, if any, and the store has none afterwards.
  pub delete-answer :
      (f : View) (s : S) (key : Str)
      → Shows f s
      → Ends
          (Client.delete connect net requests responses client key (s, no_mail))
          (f key)
          (Settled (Spec.remove key f))
  unfolding Client.delete delete_value
  delete-answer f s key shows = elim (Option-cases (f key)) [
    | inl e ↦
        let req = Request.delete (record { key = key }) in
        let res = Response.error (record { msg = no_key }) in
        finish delete_value req res (f key) (s, no_mail) (Settled (Spec.remove key f))
          (exchange-answer f s req res shows tt (rw (e))) (sym e)
    | inr (v, e) ↦
        let req = Request.delete (record { key = key }) in
        let res = Response.delete (record { value = v }) in
        finish delete_value req res (f key) (s, no_mail) (Settled (Spec.remove key f))
          (exchange-answer f s req res shows tt (rw (e))) (sym e)
  ]

  -- Under the conditions on serializer and store of exchange-answer, the client's Append
  -- succeeds, and the store has the argument behind the old value, if any, under the key.
  pub append-answer :
      (f : View) (s : S) (key value : Str)
      → Shows f s
      → Ends
          (Client.append connect net requests responses client key value (s, no_mail))
          true
          (Settled (Spec.write key (Spec.appended value (f key)) f))
  unfolding Client.append append_done
  append-answer f s key value shows =
      let req = Request.append (record { key = key; value = value }) in
      finish append_done req Response.append true (s, no_mail) _
        (exchange-answer f s req Response.append shows tt refl) refl

  -- Under the conditions on serializer and store of exchange-answer, the client's MultiGet of
  -- keys that all have values returns the values in the order of the keys.
  pub multi_get-answer :
      (f : View) (s : S) (keys : List Str)
      → Shows f s
      → Spec.all_present f keys ≡ true
      → Ends
          (Client.multi_get connect net requests responses client keys (s, no_mail))
          (some (Spec.present f keys))
          (Settled f)
  unfolding Client.multi_get multi_get_values
  multi_get-answer f s keys shows all =
      let req = Request.multi_get (record { keys = keys }) in
      let res = Response.multi_get (record { values = Spec.present f keys }) in
      finish multi_get_values req res _ (s, no_mail) _ (exchange-answer f s req res shows all refl)
        refl

  -- Under the conditions on serializer and store of exchange-answer, the client's MultiPut with
  -- as many values as keys succeeds, and the store has the pairs, written in order.
  pub multi_put-answer :
      (f : View) (s : S) (keys values : List Str)
      → Shows f s
      → length keys ≡ length values
      → Ends
          (Client.multi_put connect net requests responses client keys values (s, no_mail))
          true
          (Settled (Spec.write_all keys values f))
  unfolding Client.multi_put multi_put_done
  multi_put-answer f s keys values shows same =
      let req = Request.multi_put (record { keys = keys; values = values }) in
      let e : length keys == length values ≡ true = (==_iff _ _).1 same in
      let written : next_view f req ≡ Spec.write_all keys values f = rw (e) in
      subst
        (λ (g : View).
          Ends (Client.multi_put connect net requests responses client keys values (s, no_mail))
            true (Settled g))
        written
        (finish multi_put_done req Response.multi_put true (s, no_mail) _
          (exchange-answer f s req Response.multi_put shows tt (rw (e))) refl)
