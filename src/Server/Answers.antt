-- ===== src/Server/Answers.antt =====
-- What a client of process_request (kvstore/server/server.cpp) sees, for any store that keeps the
-- contract.
use cs300_s23_projects_days.Prelude.{
  ◌≡◌, refl, true, Option, none, some, List, [], Str, ◌==◌, if◌then◌else◌, length, arith,
  Bool-cases, inl, inr, ==_iff,
}
use cs300_s23_projects_days.Run.{◌>>=◌}
use cs300_s23_projects_days.Net.Commands.{Request, Response}
use cs300_s23_projects_days.Store.{KvStore}
use cs300_s23_projects_days.Store.Spec
use cs300_s23_projects_days.Store.Spec.{View, Ends}
use cs300_s23_projects_days.Store.Contract.{Implements}
use cs300_s23_projects_days.Server.{
  KvServer, Processed, response, logic_error, error_response, no_key, internal_error,
  responsible_for, responsible_for_all, process_request,
}

-- The requests that a store answers: not those of the shardmaster, and no MultiGet of a missing key.
abbrev pub IsServed : View → Request → Type 0
IsServed f (Request.join req) = ⊥
IsServed f (Request.leave req) = ⊥
IsServed f (Request.move req) = ⊥
IsServed f Request.query = ⊥
IsServed f (Request.multi_get req) = Spec.all_present f req.keys ≡ true
IsServed f other = Unit

-- The answer, and what the store shows from then on.
abbrev pub get_answer : Option Str → Processed
get_answer none = error_response no_key
get_answer (some v) = response (Response.get (record { value = v }))

abbrev pub delete_answer : Option Str → Processed
delete_answer none = error_response no_key
delete_answer (some v) = response (Response.delete (record { value = v }))

abbrev pub answer : View → Request → Processed
answer f (Request.get req) = get_answer (f req.key)
answer f (Request.put req) = response Response.put
answer f (Request.append req) = response Response.append
answer f (Request.delete req) = delete_answer (f req.key)
answer f (Request.multi_get req) =
    response (Response.multi_get (record { values = Spec.present f req.keys }))
answer f (Request.multi_put req) =
    if length req.keys == length req.values
    then response Response.multi_put
    else error_response internal_error
answer f other = logic_error

abbrev pub next_view : View → Request → View
next_view f (Request.put req) = Spec.write req.key req.value f
next_view f (Request.append req) = Spec.write req.key (Spec.appended req.value (f req.key)) f
next_view f (Request.delete req) = Spec.remove req.key f
next_view f (Request.multi_put req) =
    if length req.keys == length req.values then Spec.write_all req.keys req.values f else f
next_view f other = f

module _ {S : Type 0} (store : KvStore S) (Shows : View → S → Type 0)
    (contract : Implements store Shows) (server : KvServer) where
  responsible : (key : Str) → responsible_for server key ≡ true
  unfolding responsible_for
  responsible key = ground arith

  responsible_all : (keys : List Str) → responsible_for_all server keys ≡ true
  unfolding responsible_for_all
  responsible_all keys = ground arith

  get_shown :
      (o : Option Str)
      → (if (Spec.get_reply o (record { value = [] })).0
          then response (Response.get (Spec.get_reply o (record { value = [] })).1)
          else error_response no_key)
        ≡ get_answer o
  get_shown none = refl
  get_shown (some v) = refl

  delete_shown :
      (o : Option Str)
      → (if (Spec.delete_reply o (record { value = [] })).0
          then response (Response.delete (Spec.delete_reply o (record { value = [] })).1)
          else error_response no_key)
        ≡ delete_answer o
  delete_shown none = refl
  delete_shown (some v) = refl

  -- For a store that meets the contract of Store.Contract and a request that is served (a request
  -- of the store, and a MultiGet only of keys that have values), process_request returns the
  -- answer that the map shown by the store determines, and leaves the store with the next map.
  pub process_request-answer :
      (f : View) (s : S) (req : Request)
      → Shows f s
      → IsServed f req
      → Ends (process_request store server req s) (answer f req) (Shows (next_view f req))
  unfolding process_request
  process_request-answer f s (Request.join req) h i = absurd i
  process_request-answer f s (Request.leave req) h i = absurd i
  process_request-answer f s (Request.move req) h i = absurd i
  process_request-answer f s Request.query h i = absurd i
  process_request-answer f s (Request.put req) h i =
      let (s', p, q) = contract.put_law f s h req in (s', rw (responsible, p, ◌>>=◌), q)
  process_request-answer f s (Request.append req) h i =
      let (s', p, q) = contract.append_law f s h req in (s', rw (responsible, p, ◌>>=◌), q)
  process_request-answer f s (Request.multi_get req) h i =
      let (s', p, q) = contract.multi_get_law f s h req (record { values = [] }) i in
      (s', rw (responsible_all, p, ◌>>=◌), q)
  process_request-answer f s (Request.get req) h i =
      let (s', p, q) = contract.get_law f s h req (record { value = [] }) in
      (s', rw (responsible, p, get_shown (f req.key), ◌>>=◌), q)
  process_request-answer f s (Request.delete req) h i =
      let (s', p, q) = contract.delete_law f s h req (record { value = [] }) in
      (s', rw (responsible, p, delete_shown (f req.key), ◌>>=◌), q)
  process_request-answer f s (Request.multi_put req) h i =
      elim (Bool-cases (length req.keys == length req.values)) [
        | inl e ↦
            let (s', p, q) =
              contract.multi_put_law f s h req
                ((==_iff (length req.keys) (length req.values)).0 e) in
            (s', rw (responsible_all, p, e, ◌>>=◌), rw e q)
        | inr e ↦
            let (s', p, q) =
              contract.multi_put_mismatch f s h req (λ same. ground (arith, e, same)) in
            (s', rw (responsible_all, p, e, ◌>>=◌), rw e q)
      ]
