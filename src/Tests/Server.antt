-- ===== src/Tests/Server.antt =====
-- Tests of kvstore/server.
use cs300_s23_projects_days.Prelude.{refl, List, [], ◌∷◌, codes, length, str_eq}
use cs300_s23_projects_days.Net.Commands.{Request}
use cs300_s23_projects_days.Store.Spec.{Ends}
use cs300_s23_projects_days.Store.Simple
use cs300_s23_projects_days.Store.Simple.Refine as SimpleLaws
use cs300_s23_projects_days.Store.Concurrent
use cs300_s23_projects_days.Store.Concurrent.Refine as ConcurrentLaws
use cs300_s23_projects_days.Store.Implementations.{
  simple_store, concurrent_store, simple_store-Implements,
}
use cs300_s23_projects_days.Server.{KvServer, Processed, process_request}
use cs300_s23_projects_days.Server.Answers.{answer, next_view, process_request-answer}
use cs300_s23_projects_days.Server.Runs.{
  process_all, AllServed, views_after, no_entries, simple_init-Shows, same_answers,
}

abbrev lone_server : KvServer
lone_server = record { shardmaster_address = [] }

abbrev put_one : Request
put_one = Request.put (record { key = codes "k"; value = codes "v" })

abbrev session : List Request
session =
    put_one
    ∷ Request.append (record { key = codes "k"; value = codes "w" })
    ∷ Request.multi_get (record { keys = codes "k" ∷ [] })
    ∷ Request.get (record { key = codes "none" })
    ∷ []

session-AllServed : AllServed no_entries session
unfolding str_eq
session-AllServed = (tt, (tt, (refl, (tt, tt))))

process_request-answer_example :
    Ends
      (process_request simple_store lone_server put_one Simple.init)
      (answer no_entries put_one)
      (SimpleLaws.Shows (next_view no_entries put_one))
process_request-answer_example =
    process_request-answer simple_store SimpleLaws.Shows simple_store-Implements lone_server
      no_entries Simple.init put_one simple_init-Shows tt

same_answers_example :
    (res : List Processed) × Ends
      (process_all simple_store lone_server session Simple.init)
      res
      (SimpleLaws.Shows (views_after no_entries session))
    × Ends
        (process_all (concurrent_store length) lone_server session Concurrent.init)
        res
        (ConcurrentLaws.Shows length (views_after no_entries session))
same_answers_example = same_answers length lone_server session session-AllServed
