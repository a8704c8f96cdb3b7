-- ===== src/Server/Queue/Wakeups.antt =====
-- kvstore/server/synchronized_queue.cpp: which threads wait, and what wakes them.
use cs300_s23_projects_days.Prelude.{
  ℕ, ◌<◌, ◌≡◌, ◌≢◌, refl, ap, Bool, true, false, none, some, List, [], if◌then◌else◌, update, ◌==◌,
  arith, Bool-cases, List-cases, inl, inr, ==_iff, ==_self, ==_ne,
}
use cs300_s23_projects_days.Server.Queue.{
  SynchronizedQueue, Phase, go_to, pop_loop, pop, wait, wake, push, notify_all, flush, stop, Step,
  Steps, empty_queue,
}
use cs300_s23_projects_days.Server.Queue.Order.{flush_loop_lem}

module _ {T : Type 0} where
  -- A thread sleeps only over an empty queue, or a notification is on its way. A thread that is about
  -- to wait has the mutex, and the queue is empty.
  pub record IsAwake (s : SynchronizedQueue T) : Type 0 where
    pub sleepers : (i : ℕ) → s.threads i ≡ Phase.sleeping → s.q ≢ [] → 0 < s.notifies
    pub waiter : (i : ℕ) → s.threads i ≡ Phase.about_to_wait → (s.mtx ≡ some i) × (s.q ≡ [])

  pub empty_queue-IsAwake : IsAwake empty_queue
  unfolding empty_queue
  empty_queue-IsAwake = record { sleepers = λ i e. absurd (cc); waiter = λ i e. absurd (cc) }

  at_other : (i j : ℕ) (p : Phase T) (f : ℕ → Phase T) → i ≢ j → update f i p j ≡ f j
  at_other i j p f ne = rw (==_ne i j ne)

  at_self : (i : ℕ) (p : Phase T) (f : ℕ → Phase T) → update f i p i ≡ p
  at_self i p f = rw (==_self i)

  -- A thread moves to a phase other than these two.
  moved :
      (i : ℕ) (p : Phase T) (s t : SynchronizedQueue T)
      → IsAwake s
      → t.threads ≡ s.threads
      → t.notifies ≡ s.notifies
      → (t.q ≢ [] → s.q ≢ [])
      → ((j : ℕ) → s.threads j ≡ Phase.about_to_wait → (t.mtx ≡ some j) × (t.q ≡ []))
      → p ≢ Phase.sleeping
      → p ≢ Phase.about_to_wait
      → IsAwake (go_to i p t)
  unfolding go_to
  moved i p s t h same n shrinks keeps ns nw = record {
    sleepers = λ j e ne. elim (Bool-cases (i == j)) [
      | inl d ↦ absurd (ns (rw⁻¹ e (rw (d) refl)))
      | inr d ↦ rw (n) (h.sleepers j (rw⁻¹ e (rw (d, same) refl)) (shrinks ne))
    ];
    waiter = λ j e. elim (Bool-cases (i == j)) [
      | inl d ↦ absurd (nw (rw⁻¹ e (rw (d) refl)))
      | inr d ↦ keeps j (rw⁻¹ e (rw (d, same) refl))
    ];
  }

  nobody_waits :
      (s : SynchronizedQueue T)
      → s.mtx ≡ none
      → IsAwake s
      → (j : ℕ) → s.threads j ≢ Phase.about_to_wait
  nobody_waits s free h j e = let w = (h.waiter j e).0 in absurd (cc)

  -- A thread without an item, with the mutex, starts to wait.
  waits :
      (i : ℕ) (s : SynchronizedQueue T)
      → s.mtx ≡ none
      → IsAwake s
      → IsAwake (go_to i Phase.about_to_wait (record s { q = []; mtx = some i }))
  unfolding go_to
  waits i s free h = record {
    sleepers = λ j e ne. absurd (ne refl);
    waiter = λ j e. elim (Bool-cases (i == j)) [
      | inl d ↦ (ap some ((==_iff i j).0 d), refl)
      | inr d ↦ absurd (nobody_waits s free h j (rw⁻¹ e (rw (d) refl)))
    ];
  }

  loop-IsAwake :
      (i : ℕ) (s : SynchronizedQueue T) → s.mtx ≡ none → IsAwake s → IsAwake (pop_loop i s)
  unfolding pop_loop
  loop-IsAwake i s free h =
      let quiet = nobody_waits s free h in
      elim (List-cases s.q) [
        | inl e ↦ elim (Bool-cases s.is_stopped) [
          | inl d ↦
              rw (e, d)
                (moved i Phase.told_stopped s (record s { q = []; is_stopped = true }) h refl refl
                  (λ ne. absurd (ne refl)) (λ j w. absurd (quiet j w)) (λ p. cc) (λ p. cc))
          | inr d ↦
              rw (e, d)
                (waits i (record s { is_stopped = false }) free
                  (record { sleepers = h.sleepers; waiter = h.waiter }))
        ]
        | inr (x, rest, e) ↦ rw (e) (
            moved i (Phase.popped x) s (record s { q = rest }) h refl refl (λ ne p. cc)
              (λ j w. absurd (quiet j w)) (λ p. cc) (λ p. cc))
      ]

  tested-IsAwake :
      (i : ℕ) (s : SynchronizedQueue T) (stopped : Bool)
      → s.mtx ≡ none
      → IsAwake s
      → IsAwake (if stopped then go_to i Phase.told_stopped s else pop_loop i s)
  tested-IsAwake i s true free h =
      moved i Phase.told_stopped s s h refl refl (λ ne. ne)
        (λ j w. absurd (nobody_waits s free h j w)) (λ p. cc) (λ p. cc)
  tested-IsAwake i s false free h = loop-IsAwake i s free h

  sleeping-about : (p q : Phase T) → p ≡ Phase.sleeping → q ≡ Phase.about_to_wait → p ≢ q
  sleeping-about p q a b e = cc

  wait-IsAwake :
      (i : ℕ) (s : SynchronizedQueue T)
      → s.threads i ≡ Phase.about_to_wait
      → IsAwake s
      → IsAwake (wait i s)
  unfolding wait go_to
  wait-IsAwake i s a h =
      let (m, empty) = h.waiter i a in
      record {
        sleepers = λ j e ne. absurd (ne empty);
        waiter = λ j e. elim (Bool-cases (i == j)) [
          | inl d ↦ absurd (sleeping-about _ _ refl refl (rw⁻¹ e (rw (d) refl)))
          | inr d ↦
              let w = (h.waiter j (rw⁻¹ e (rw (d) refl))).0 in
              let same : i ≡ j = cc in let t = (==_iff i j).1 same in absurd (cc)
        ];
      }

  push-IsAwake :
      (elt : T) (s : SynchronizedQueue T) → s.mtx ≡ none → IsAwake s → IsAwake (push elt s)
  unfolding push
  push-IsAwake elt s free h =
      let quiet = nobody_waits s free h in
      elim (List-cases s.q) [
        | inl e ↦
            rw (e) (record { sleepers = λ j p ne. omega arith; waiter = λ j w. absurd (quiet j w) })
        | inr (x, rest, e) ↦ rw (e) (record {
          sleepers = λ j p ne. h.sleepers j p (λ n. cc);
          waiter = λ j w. absurd (quiet j w);
        })
      ]

  wake-sleeping : (p : Phase T) → wake p ≢ Phase.sleeping
  unfolding wake
  wake-sleeping Phase.sleeping e = cc
  wake-sleeping other e = cc

  wake-about : (p : Phase T) → wake p ≡ Phase.about_to_wait → p ≡ Phase.about_to_wait
  unfolding wake
  wake-about Phase.sleeping e = cc
  wake-about other e = e

  notify-IsAwake : (left : ℕ) (s : SynchronizedQueue T) → IsAwake s → IsAwake (notify_all left s)
  unfolding notify_all
  notify-IsAwake left s h = record {
    sleepers = λ j e ne. absurd (wake-sleeping (s.threads j) e);
    waiter = λ j e. h.waiter j (wake-about (s.threads j) e);
  }

  flush-IsAwake : (s : SynchronizedQueue T) → s.mtx ≡ none → IsAwake s → IsAwake (flush s).1
  unfolding flush
  flush-IsAwake s free h = rw (flush_loop_lem [] s.q) record {
    sleepers = λ j e ne. absurd (ne refl);
    waiter = λ j e. absurd (nobody_waits s free h j e);
  }

  Step-IsAwake :
      {s t : SynchronizedQueue T} {ins outs : List T} → Step s ins outs t → IsAwake s → IsAwake t
  unfolding pop stop
  Step-IsAwake (Step.call_pop s i e free) h = tested-IsAwake i s s.is_stopped free h
  Step-IsAwake (Step.go_on s i e free) h = loop-IsAwake i s free h
  Step-IsAwake (Step.fall_asleep s i e) h = wait-IsAwake i s e h
  Step-IsAwake (Step.spurious s i e) h =
      moved i Phase.woken s s h refl refl (λ ne. ne) h.waiter (λ p. cc) (λ p. cc)
  Step-IsAwake (Step.call_push s elt free) h = push-IsAwake elt s free h
  Step-IsAwake (Step.notify s left e) h = notify-IsAwake left s h
  Step-IsAwake (Step.leave s i x e) h =
      moved i Phase.outside s s h refl refl (λ ne. ne) h.waiter (λ p. cc) (λ p. cc)
  Step-IsAwake (Step.leave_stopped s i e) h =
      moved i Phase.outside s s h refl refl (λ ne. ne) h.waiter (λ p. cc) (λ p. cc)
  Step-IsAwake (Step.call_flush s free) h = flush-IsAwake s free h
  Step-IsAwake (Step.call_stop s) h = record { sleepers = λ j e ne. omega arith; waiter = h.waiter }

  Steps-IsAwake :
      {s t : SynchronizedQueue T} {ins outs : List T} → IsAwake s → Steps s ins outs t → IsAwake t
  Steps-IsAwake h Steps.here = h
  Steps-IsAwake h (Steps.next r step) = Step-IsAwake step (Steps-IsAwake h r)

  -- In a state that a new queue reaches by any steps of any threads, if a thread sleeps in pop
  -- while the queue is not empty, a notification is on its way: no pushed element is left without
  -- a thread that will look.
  pub Steps-wakes :
      {t : SynchronizedQueue T} {ins outs : List T}
      → Steps empty_queue ins outs t
      → (i : ℕ) → t.threads i ≡ Phase.sleeping
      → t.q ≢ []
      → 0 < t.notifies
  Steps-wakes r = (Steps-IsAwake empty_queue-IsAwake r).sleepers

  -- If a thread is between its test of the stop flag and its wait, and no notification is on its
  -- way, then there are steps in which stop sets the flag and notifies in between, after which
  -- the thread sleeps, the queue is stopped and no notification is on its way.
  pub stop-lost :
      (s : SynchronizedQueue T) (i : ℕ)
      → s.threads i ≡ Phase.about_to_wait
      → s.notifies ≡ 0
      → (t : SynchronizedQueue T) × Steps s [] [] t
        × (t.threads i ≡ Phase.sleeping)
        × (t.is_stopped ≡ true)
        × (t.notifies ≡ 0)
  unfolding stop notify_all wait go_to wake
  stop-lost s i e n =
      let still : wake (s.threads i) ≡ Phase.about_to_wait = rw (e) refl in
      let calls = Steps.next Steps.here (Step.call_stop s) in
      let told = Steps.next calls (Step.notify (stop s) s.notifies (omega arith)) in
      (
        wait i (notify_all s.notifies (stop s)),
        Steps.next told (Step.fall_asleep (notify_all s.notifies (stop s)) i still),
        at_self i Phase.sleeping ((notify_all s.notifies (stop s)).threads),
        refl,
        n,
      )
