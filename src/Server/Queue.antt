-- ===== src/Server/Queue.antt =====
-- kvstore/server/synchronized_queue.hpp and synchronized_queue.cpp: the queue of connections, with
-- the threads that wait on it. A step of a thread is what it does between two points at which
-- another thread can come in: the mutex is taken and released within a step, but for a pop that is
-- about to wait, which holds it. notify_all comes after the unlock, so it is a step of its own.
pub mod Order
pub mod Wakeups
use cs300_s23_projects_days.Prelude.{
  ℕ, zero, suc, ◌+◌, ◌≡◌, Bool, true, false, Option, none, some, List, [], ◌∷◌, ◌++◌, if◌then◌else◌,
  length, update,
}

-- Where a thread is: outside of the queue, in pop with the mutex and before cv.wait, in cv.wait, out
-- of cv.wait and before the mutex is taken again, or back from pop with its result.
pub data Phase (T : Type 0) : Type 0 where
  outside about_to_wait sleeping woken : Phase T
  popped : T → Phase T
  told_stopped : Phase T

-- `mtx` is the thread that holds the mutex between two steps, and `notifies` counts the calls of
-- notify_all that are still to come.
pub record SynchronizedQueue (T : Type 0) : Type 0 where
  pub q : List T
  pub is_stopped : Bool
  pub mtx : Option ℕ
  pub notifies : ℕ
  pub threads : ℕ → Phase T

-- What pop has stored in *elt, once it has returned false.
unfoldable pub popped_elt : {T : Type 0} → Phase T → List T
popped_elt (Phase.popped x) = x ∷ []
popped_elt _ = []

-- The loop of flush: the vector grows at its end by the front of the queue.
unfoldable pub flush_loop : {T : Type 0} → List T → List T → List T × List T
flush_loop return_vector [] = (return_vector, [])
flush_loop return_vector (x ∷ rest) = flush_loop (return_vector ++ x ∷ []) rest

pub wake : {T : Type 0} → Phase T → Phase T
wake Phase.sleeping = Phase.woken
wake other = other

module _ {T : Type 0} where
  unfoldable pub go_to : ℕ → Phase T → SynchronizedQueue T → SynchronizedQueue T
  go_to i p s = record s { threads = update s.threads i p }

  -- The loop of pop, up to the wait or to the end.
  unfoldable pub pop_loop : ℕ → SynchronizedQueue T → SynchronizedQueue T
  pop_loop i s = elim s.q [
    | [] ↦
        if s.is_stopped
        then go_to i Phase.told_stopped s
        else go_to i Phase.about_to_wait (record s { mtx = some i })
    | x ∷ rest ↦ go_to i (Phase.popped x) (record s { q = rest })
  ]

  unfoldable pub pop : ℕ → SynchronizedQueue T → SynchronizedQueue T
  pop i s = if s.is_stopped then go_to i Phase.told_stopped s else pop_loop i s

  -- cv.wait releases the mutex.
  unfoldable pub wait : ℕ → SynchronizedQueue T → SynchronizedQueue T
  wait i s = go_to i Phase.sleeping (record s { mtx = none })

  unfoldable pub push : T → SynchronizedQueue T → SynchronizedQueue T
  push elt s = elim s.q [
    | [] ↦ record s { q = elt ∷ []; notifies = s.notifies + 1 }
    | x ∷ rest ↦ record s { q = s.q ++ elt ∷ [] }
  ]

  pub notify_all : ℕ → SynchronizedQueue T → SynchronizedQueue T
  notify_all left s = record s { notifies = left; threads = λ i. wake (s.threads i) }

  -- The vector that is returned, and the queue afterwards.
  unfoldable pub flush : SynchronizedQueue T → List T × SynchronizedQueue T
  flush s = let (return_vector, rest) = flush_loop [] s.q in (return_vector, record s { q = rest })

  -- stop does not take the mutex.
  pub stop : SynchronizedQueue T → SynchronizedQueue T
  stop s = record s { is_stopped = true; notifies = s.notifies + 1 }

  -- One step, with the elements that push is called with and those that a caller gets: what pop has
  -- stored in *elt, or the vector of flush. cv.wait may also return without a notification, and a
  -- thread that has left pop may call it again.
  pub data Step : SynchronizedQueue T → List T → List T → SynchronizedQueue T → Type 0 where
    call_pop :
        (s : SynchronizedQueue T) (i : ℕ)
        → s.threads i ≡ Phase.outside
        → s.mtx ≡ none
        → Step s [] (popped_elt ((pop i s).threads i)) (pop i s)
    go_on :
        (s : SynchronizedQueue T) (i : ℕ)
        → s.threads i ≡ Phase.woken
        → s.mtx ≡ none
        → Step s [] (popped_elt ((pop_loop i s).threads i)) (pop_loop i s)
    fall_asleep :
        (s : SynchronizedQueue T) (i : ℕ)
        → s.threads i ≡ Phase.about_to_wait
        → Step s [] [] (wait i s)
    spurious :
        (s : SynchronizedQueue T) (i : ℕ)
        → s.threads i ≡ Phase.sleeping
        → Step s [] [] (go_to i Phase.woken s)
    call_push :
        (s : SynchronizedQueue T) (elt : T) → s.mtx ≡ none → Step s (elt ∷ []) [] (push elt s)
    notify :
        (s : SynchronizedQueue T) (left : ℕ)
        → s.notifies ≡ suc left
        → Step s [] [] (notify_all left s)
    leave :
        (s : SynchronizedQueue T) (i : ℕ) (x : T)
        → s.threads i ≡ Phase.popped x
        → Step s [] [] (go_to i Phase.outside s)
    leave_stopped :
        (s : SynchronizedQueue T) (i : ℕ)
        → s.threads i ≡ Phase.told_stopped
        → Step s [] [] (go_to i Phase.outside s)
    call_flush : (s : SynchronizedQueue T) → s.mtx ≡ none → Step s [] (flush s).0 (flush s).1
    call_stop : (s : SynchronizedQueue T) → Step s [] [] (stop s)

  pub data Steps (s : SynchronizedQueue T) : List T → List T → SynchronizedQueue T → Type 0 where
    here : Steps s [] [] s
    next :
        {t u : SynchronizedQueue T} {ins outs new_ins new_outs : List T}
        → Steps s ins outs t
        → Step t new_ins new_outs u
        → Steps s (ins ++ new_ins) (outs ++ new_outs) u

unfoldable pub empty_queue : {T : Type 0} → SynchronizedQueue T
empty_queue = record {
  q = [];
  is_stopped = false;
  mtx = none;
  notifies = 0;
  threads = λ i. Phase.outside;
}
