-- ===== src/Tests/Queue.antt =====
-- Tests of the work queue of kvstore/server.
use cs300_s23_projects_days.Prelude.{ℕ, ◌<◌, ◌≡◌, refl, true, [], ◌∷◌, ◌++◌}
use cs300_s23_projects_days.Server.Queue.{
  SynchronizedQueue, Phase, popped_elt, pop, pop_loop, wait, push, flush, flush_loop, go_to, Step,
  Steps, empty_queue,
}
use cs300_s23_projects_days.Server.Queue.Order.{Steps-order}
use cs300_s23_projects_days.Server.Queue.Wakeups.{Steps-wakes, stop-lost}

-- Thread 0 pops and waits, and 7 is pushed.
abbrev waiting : SynchronizedQueue ℕ
waiting = wait 0 (pop 0 empty_queue)

abbrev pushed : SynchronizedQueue ℕ
pushed = push 7 waiting

to_pushed : Steps empty_queue (7 ∷ []) [] pushed
unfolding popped_elt pop pop_loop wait push go_to empty_queue
to_pushed =
    Steps.next
      (Steps.next (Steps.next Steps.here (Step.call_pop empty_queue 0 refl refl))
        (Step.fall_asleep (pop 0 empty_queue) 0 refl))
      (Step.call_push waiting 7 refl)

Steps-wakes_example : 0 < pushed.notifies
unfolding pop pop_loop wait push go_to empty_queue
Steps-wakes_example = Steps-wakes to_pushed 0 refl (λ e. cc)

-- 7, 8 and 9 are pushed into a new queue, thread 1 pops twice, and what is left is flushed.
abbrev three : SynchronizedQueue ℕ
three = push 9 (push 8 (push 7 empty_queue))

abbrev popped_twice : SynchronizedQueue ℕ
popped_twice = pop 1 (go_to 1 Phase.outside (pop 1 three))

to_flushed :
    Steps empty_queue (7 ∷ 8 ∷ 9 ∷ []) (7 ∷ 8 ∷ (flush popped_twice).0) (flush popped_twice).1
unfolding popped_elt pop pop_loop push go_to empty_queue
to_flushed =
    let pushed_one = Steps.next Steps.here (Step.call_push empty_queue 7 refl) in
    let pushed_two = Steps.next pushed_one (Step.call_push (push 7 empty_queue) 8 refl) in
    let pushed_three =
      Steps.next pushed_two (Step.call_push (push 8 (push 7 empty_queue)) 9 refl) in
    let popped_one = Steps.next pushed_three (Step.call_pop three 1 refl refl) in
    let left = Steps.next popped_one (Step.leave (pop 1 three) 1 7 refl) in
    let popped_two =
      Steps.next left (Step.call_pop (go_to 1 Phase.outside (pop 1 three)) 1 refl refl) in
    Steps.next popped_two (Step.call_flush popped_twice refl)

Steps-order_example :
    [] ++ 7 ∷ 8 ∷ 9 ∷ [] ≡ (7 ∷ 8 ∷ (flush popped_twice).0) ++ (flush popped_twice).1.q
unfolding empty_queue
Steps-order_example = Steps-order to_flushed

flushed : flush popped_twice ≡ (9 ∷ [], record popped_twice { q = [] })
unfolding flush flush_loop pop pop_loop push go_to empty_queue
flushed = refl

stop-lost_example :
    (t : SynchronizedQueue ℕ) × Steps (pop 0 empty_queue) [] [] t
    × (t.threads 0 ≡ Phase.sleeping)
    × (t.is_stopped ≡ true)
    × (t.notifies ≡ 0)
unfolding pop pop_loop go_to empty_queue
stop-lost_example = stop-lost (pop 0 empty_queue) 0 refl refl
