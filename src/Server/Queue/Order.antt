-- ===== src/Server/Queue/Order.antt =====
-- kvstore/server/synchronized_queue.cpp: what comes out of the queue.
use mathlib.Core.List.{append-nil, append_assoc}
use cs300_s23_projects_days.Prelude.{
  ℕ, ==_self, ◌≡◌, refl, sym, ap, ◌∙◌, Bool, true, false, List, [], ◌∷◌, ◌++◌, if◌then◌else◌,
  Bool-cases, List-cases, inl, inr,
}
use cs300_s23_projects_days.Server.Queue.{
  SynchronizedQueue, Phase, popped_elt, go_to, pop_loop, pop, wait, push, notify_all, flush_loop,
  flush, stop, Step, Steps,
}

module _ {T : Type 0} where
  loop-order :
      (i : ℕ) (s : SynchronizedQueue T)
      → s.q ≡ popped_elt ((pop_loop i s).threads i) ++ (pop_loop i s).q
  unfolding pop_loop go_to popped_elt
  loop-order i s = elim (List-cases s.q) [
    | inl e ↦ elim (Bool-cases s.is_stopped) [
      | inl d ↦ rw (e, d, ==_self i) refl
      | inr d ↦ rw (e, d, ==_self i) refl
    ]
    | inr (x, rest, e) ↦ rw (e, ==_self i) refl
  ]

  tested-order :
      (i : ℕ) (s : SynchronizedQueue T) (stopped : Bool)
      → let after = if stopped then go_to i Phase.told_stopped s else pop_loop i s in
        s.q ≡ popped_elt (after.threads i) ++ after.q
  unfolding go_to popped_elt
  tested-order i s true = rw (==_self i) refl
  tested-order i s false = loop-order i s

  pop-order :
      (i : ℕ) (s : SynchronizedQueue T) → s.q ≡ popped_elt ((pop i s).threads i) ++ (pop i s).q
  unfolding pop
  pop-order i s = tested-order i s s.is_stopped

  pub flush_loop_lem : (l q : List T) → flush_loop l q ≡ (l ++ q, [])
  unfolding flush_loop
  flush_loop_lem l [] = rw (append-nil l) refl
  flush_loop_lem l (x ∷ q) = flush_loop_lem (l ++ x ∷ []) q ∙ rw (append_assoc l (x ∷ []) q) refl

  flush-order : (s : SynchronizedQueue T) → s.q ++ [] ≡ (flush s).0 ++ (flush s).1.q
  unfolding flush
  flush-order s = rw (flush_loop_lem [] s.q) refl

  push-order : (elt : T) (s : SynchronizedQueue T) → s.q ++ elt ∷ [] ≡ (push elt s).q
  unfolding push
  push-order elt s = elim (List-cases s.q) [ inl e ↦ rw (e) refl | inr (x, rest, e) ↦ rw (e) refl ]

  Step-order :
      {s t : SynchronizedQueue T} {ins outs : List T} → Step s ins outs t → s.q ++ ins ≡ outs ++ t.q
  unfolding wait go_to notify_all stop
  Step-order (Step.call_pop s i e free) = append-nil s.q ∙ pop-order i s
  Step-order (Step.go_on s i e free) = append-nil s.q ∙ loop-order i s
  Step-order (Step.fall_asleep s i e) = append-nil s.q
  Step-order (Step.spurious s i e) = append-nil s.q
  Step-order (Step.call_push s elt free) = push-order elt s
  Step-order (Step.notify s left e) = append-nil s.q
  Step-order (Step.leave s i x e) = append-nil s.q
  Step-order (Step.leave_stopped s i e) = append-nil s.q
  Step-order (Step.call_flush s free) = flush-order s
  Step-order (Step.call_stop s) = append-nil s.q

  -- Over any steps of any threads, the elements of the queue followed by those pushed are those
  -- that the callers got, in the order of the steps, followed by those left in the queue. What a
  -- caller got is what pop stored in *elt when it returned false, or the vector that flush
  -- returned. So no element is lost, made up, doubled or overtaken.
  pub Steps-order :
      {s t : SynchronizedQueue T} {ins outs : List T}
      → Steps s ins outs t
      → s.q ++ ins ≡ outs ++ t.q
  Steps-order Steps.here = append-nil _
  Steps-order {s} {t}
        (Steps.next {t = u} {ins = ins} {outs = outs} {new_ins = new_ins} {new_outs = new_outs} r
          step) =
      sym (append_assoc s.q ins new_ins)
      ∙ ap (λ l. l ++ new_ins) (Steps-order r)
      ∙ append_assoc outs u.q new_ins
      ∙ ap (λ l. outs ++ l) (Step-order step)
      ∙ sym (append_assoc outs new_outs t.q)
