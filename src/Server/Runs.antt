-- ===== src/Server/Runs.antt =====
-- Sequences of requests to process_request (kvstore/server/server.cpp), in the order in which
-- work_loop takes them, over either store.
use cs300_s23_projects_days.Prelude.{ℕ, refl, none, List, [], ◌∷◌, Str}
use cs300_s23_projects_days.Run.{Act, pure, ◌>>=◌}
use cs300_s23_projects_days.Net.Commands.{Request}
use cs300_s23_projects_days.Store.{KvStore}
use cs300_s23_projects_days.Store.Spec.{View, Ends}
use cs300_s23_projects_days.Store.Contract.{Implements}
use cs300_s23_projects_days.Store.Implementations.{
  simple_store, concurrent_store, simple_store-Implements, concurrent_store-Implements,
}
use cs300_s23_projects_days.StdMap
use cs300_s23_projects_days.Store.Simple
use cs300_s23_projects_days.Store.Simple.Refine as SimpleLaws
use cs300_s23_projects_days.Store.Concurrent
use cs300_s23_projects_days.Store.Concurrent.Refine as ConcurrentLaws
use cs300_s23_projects_days.Server.{KvServer, Processed, process_request}
use cs300_s23_projects_days.Server.Answers.{IsServed, answer, next_view, process_request-answer}

-- The requests of the loop in work_loop, with the responses in order.
pub process_all : {S : Type 0} → KvStore S → KvServer → List Request → Act S (List Processed)
process_all store server [] = pure []
process_all store server (req ∷ reqs) = do
  res ← process_request store server req
  rest ← process_all store server reqs
  pure (res ∷ rest)

abbrev pub AllServed : View → List Request → Type 0
AllServed f [] = Unit
AllServed f (req ∷ reqs) = IsServed f req × AllServed (next_view f req) reqs

abbrev pub answers : View → List Request → List Processed
answers f [] = []
answers f (req ∷ reqs) = answer f req ∷ answers (next_view f req) reqs

abbrev pub views_after : View → List Request → View
views_after f [] = f
views_after f (req ∷ reqs) = views_after (next_view f req) reqs

module _ {S : Type 0} (store : KvStore S) (Shows : View → S → Type 0)
    (contract : Implements store Shows) (server : KvServer) where
  -- Any sequence of served requests gets the answers of the specification, one after another, and no
  -- request waits for a lock.
  pub process_all-answers :
      (f : View) (s : S) (reqs : List Request)
      → Shows f s
      → AllServed f reqs
      → Ends (process_all store server reqs s) (answers f reqs) (Shows (views_after f reqs))
  unfolding process_all
  process_all-answers f s [] h a = (s, refl, h)
  process_all-answers f s (req ∷ reqs) h a =
      let (s', p, q) = process_request-answer store Shows contract server f s req h a.0 in
      let (s'', p', q') = process_all-answers (next_view f req) s' reqs q a.1 in
      (s'', rw (p, p', ◌>>=◌), q')

abbrev pub no_entries : View
no_entries k = none

pub simple_init-Shows : SimpleLaws.Shows no_entries Simple.init
unfolding StdMap.find
simple_init-Shows = record { free = refl; views = λ k. refl }

pub concurrent_init-Shows : (hash : Str → ℕ) → ConcurrentLaws.Shows hash no_entries Concurrent.init
unfolding Concurrent.find_item
concurrent_init-Shows hash = record { unlocked = λ b. refl; views = λ k. refl }

-- A server over the simple store and a server over the concurrent store, both from an empty
-- store, give the same responses to a sequence of served requests, whatever the hash. Afterwards
-- both stores hold the map that the requests describe.
pub same_answers :
    (hash : Str → ℕ) (server : KvServer) (reqs : List Request)
    → AllServed no_entries reqs
    → (res : List Processed) × Ends
        (process_all simple_store server reqs Simple.init)
        res
        (SimpleLaws.Shows (views_after no_entries reqs))
      × Ends
          (process_all (concurrent_store hash) server reqs Concurrent.init)
          res
          (ConcurrentLaws.Shows hash (views_after no_entries reqs))
same_answers hash server reqs a = (
  answers no_entries reqs,
  process_all-answers simple_store SimpleLaws.Shows simple_store-Implements server no_entries
      Simple.init reqs simple_init-Shows a,
  process_all-answers (concurrent_store hash) (ConcurrentLaws.Shows hash)
      (concurrent_store-Implements hash) server no_entries Concurrent.init reqs
      (concurrent_init-Shows hash) a,
)
