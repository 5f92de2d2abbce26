-- ===== src/Controller/Exclusive.antt =====
-- `applier` of kube-runtime/src/controller/mod.rs from poll to poll: it does not panic, and reconciles an
-- object once at a time.
use kube.Prelude.{
  EqLaws, eq_refl, ℕ, ◌≡◌, refl, sym, subst, ◌∙◌, true, false, Option, none, some, List, [], ◌∷◌,
  is_some, Result, ok, err, Poll, ready, pending, Stream,
}
use kube.Prelude.HashMap
use kube.Prelude.HashMap.{HashMap}
use kube.Core.Resource.{Resource}
use kube.Reflector.Store
use kube.Reflector.Store.{Writer}
use kube.Scheduler.Delay.{DelayQueue, DelayQueueLaws}
use kube.Scheduler.Taking.{Fit, InReach}
use kube.Scheduler.Holding.{new-Inv}
use kube.Runner.{Runner, RunnerFault, Error as RunnerError}
use kube.Runner
use kube.Runner.FutureHashMap
use kube.Runner.Exclusion.{Starts, contains_key_cong}
use kube.Runner.Keeping.{Good, Running, Starts-Running}
use kube.Runner.Values.{GoodAnswer, GoodResult, poll_next-GoodResult, still_running-Running}
use kube.Runner.Polling.{still_running, poll_next-Answers}
use kube.Controller.{Action, ReconcileRequest, ReconcileReason, reconcile_request_eq}
use kube.Controller.Reschedule.{
  Sender, RescheduleReconciliation, Request, Sound, SoundPoll, poll-Sound,
}
use kube.Controller.Reschedule
use kube.Controller.Applier.{
  new, Reconciler, Jobs, Job, reconciling, rescheduling, not_found, Done, Item, WriterDropped,
  start_found, start_job, rescheduled, reconciled, poll_job, poll_next, answer_of,
}

module _ {K E : Type 0} (r : Resource K) ⦃e : EqLaws r.DynamicType⦄ (u : Reconciler K E) where
  -- A job that can be polled.
  abbrev pub Pollable : Job r u → Type 0
  Pollable (reconciling request obj tx running) = Unit
  Pollable (rescheduling request s) = Sound s
  Pollable (not_found o) = is_some o ≡ true

  found-Pollable :
      (request : ReconcileRequest r.DynamicType) (o : Option K) (w : Jobs r u)
      → Pollable (start_found r u request o w).0
  found-Pollable request none w = refl
  found-Pollable request (some obj) w = tt

  start_job-Pollable :
      (request : ReconcileRequest r.DynamicType) (w : Jobs r u)
      → Pollable (start_job r u request w).0
  unfolding start_job
  start_job-Pollable request w = found-Pollable request (Store.get r w.store request.obj_ref) w

  -- Jobs are started one after the other, each for an object of which no job runs, whatever the reason
  -- of that one is.
  abbrev pub StartsAlone :
      List (ReconcileRequest r.DynamicType)
      → HashMap (ReconcileRequest r.DynamicType) (Job r u)
      → Jobs r u
      → HashMap (ReconcileRequest r.DynamicType) (Job r u)
      → Jobs r u
      → Type 0
  StartsAlone [] slots w slots' w' = (slots' ≡ slots) × (w' ≡ w)
  StartsAlone (request ∷ requests) slots w slots' w' =
      ((reason : ReconcileReason)
        → FutureHashMap.contains_key slots (record { obj_ref = request.obj_ref; reason = reason })
          ≡ false)
      × StartsAlone requests (FutureHashMap.insert request (start_job r u request w).0 slots).1
          (start_job r u request w).1 slots' w'

  Starts-StartsAlone :
      (requests : List (ReconcileRequest r.DynamicType))
      (slots slots' : HashMap (ReconcileRequest r.DynamicType) (Job r u)) (w w' : Jobs r u)
      → Starts (start_job r u) requests slots w slots' w'
      → StartsAlone requests slots w slots' w'
  Starts-StartsAlone [] slots slots' w w' s = s
  Starts-StartsAlone (request ∷ requests) slots slots' w w' (alone, s) = (
    λ reason.
        sym (
          contains_key_cong slots request (record { obj_ref = request.obj_ref; reason = reason })
            (eq_refl request))
        ∙ alone,
    Starts-StartsAlone requests _ slots' _ w' s,
  )

module _ {K E : Type 0} (r : Resource K) ⦃e : EqLaws r.DynamicType⦄ (u : Reconciler K E)
    (Q : Type 0) where
  -- A job that has ended did so without a panic.
  abbrev NoPanic : Done r E Q → Type 0
  NoPanic (ok done) = Unit
  NoPanic (err fault) = ⊥

  rescheduled-Good :
      (request : ReconcileRequest r.DynamicType) (s : RescheduleReconciliation r.DynamicType E)
      (p : Reschedule.Polled r.DynamicType E)
      → SoundPoll p
      → Good (Pollable r u) NoPanic (rescheduled r u request s p)
  rescheduled-Good request s (ok (ready result, s')) sound = tt
  rescheduled-Good request s (ok (pending, s')) sound = sound
  rescheduled-Good request s (err fault) sound = absurd sound

  reconciled-Good :
      (now : ℕ) (request : ReconcileRequest r.DynamicType) (obj : K)
      (tx : Sender (Request r.DynamicType)) (p : Poll (Result E Action) × u.Running)
      → Good (Pollable r u) NoPanic (reconciled r u now request obj tx p)
  unfolding Reschedule.poll Reschedule.new
  reconciled-Good now request obj tx (pending, running) = tt
  reconciled-Good now request obj tx (ready result, running) =
      rescheduled-Good request _ _
        (poll-Sound (Reschedule.new now result (u.error_policy obj) request.obj_ref tx) refl)

  poll_job-Good :
      (now : ℕ) (job : Job r u)
      → Pollable r u job
      → Good (Pollable r u) NoPanic (poll_job r u now job)
  unfolding poll_job Reschedule.poll
  poll_job-Good now (reconciling request obj tx running) p =
      reconciled-Good now request obj tx (u.poll running)
  poll_job-Good now (rescheduling request s) p = rescheduled-Good request s _ (poll-Sound s p)
  poll_job-Good now (not_found (some o)) p = tt
  poll_job-Good now (not_found none) p = absurd cc

  -- An answer of the applier that is no panic.
  abbrev pub AnswerFine : Poll (Option (Item r E Q)) → Type 0
  AnswerFine (ready (some (err fault))) = ⊥
  AnswerFine (ready (some (ok item))) = Unit
  AnswerFine (ready none) = Unit
  AnswerFine pending = Unit

  module _ {d : DelayQueue (ReconcileRequest r.DynamicType)} (laws : DelayQueueLaws d) where
    abbrev pub Applier : Type 0
    Applier = Runner d (Job r u) (Jobs r u) WriterDropped

    answer-Fine :
        (a : Poll (Option (Result (RunnerError WriterDropped) (Done r E Q))))
        → GoodAnswer d (start_job r u) (Done r E Q) NoPanic a
        → AnswerFine (answer_of r u a)
    answer-Fine (ready (some (ok (ok done)))) g = tt
    answer-Fine (ready (some (ok (err fault)))) g = absurd g
    answer-Fine (ready (some (err x))) g = tt
    answer-Fine (ready none) g = tt
    answer-Fine pending g = tt

    -- What holds between polls: metadata and queue of the scheduler agree, requests are within the
    -- reach of the queue, and all jobs can be polled.
    abbrev pub Kept : Applier → Type 0
    Kept a = Fit laws a.scheduler × Running (Pollable r u) a.slots

    -- What a poll does: it answers without a panic, and starts jobs alone, of objects that no job
    -- has when the jobs that ended are gone; none before the store is ready.
    abbrev pub Applied :
        ℕ → Applier → Result RunnerFault (Poll (Option (Item r E Q)) × Applier) → Type 0
    Applied now a (err fault) = ⊥
    Applied now a (ok (answer, a')) =
        AnswerFine answer
        × Kept a'
        × (requests : List (ReconcileRequest r.DynamicType)) × StartsAlone r u requests
            (still_running laws (start_job r u) (poll_job r u {Q = Q} now) a) a.run_state a'.slots
            a'.run_state
        × (a'.is_ready_to_execute ≡ false → requests ≡ [])

    poll_next-Applied :
        (now : ℕ) (clock : ℕ → ℕ) (a : Applier)
        → Kept a
        → Applied now a (poll_next r u d now clock a)
    unfolding poll_next
    poll_next-Applied now clock a (kept, all) =
        let (answer, a', h, ran) =
          poll_next-Answers laws (start_job r u) (poll_job r u {Q = Q} now) clock a kept in
        rw h (
          answer-Fine answer (
              subst (GoodResult d (start_job r u) (Done r E Q) NoPanic) h (
                poll_next-GoodResult d (start_job r u) (Done r E Q) NoPanic (Pollable r u)
                  (poll_job r u now) (poll_job-Good now) clock a all)),
          (
            ran.kept,
            Starts-Running (Pollable r u) (start_job r u) (start_job-Pollable r u) ran.msgs _
                a'.slots a.run_state a'.run_state ran.started
                (still_running-Running laws (start_job r u) (Pollable r u) NoPanic
                  (poll_job r u now) (poll_job-Good now) a all),
          ),
          ran.msgs,
          Starts-StartsAlone r u ran.msgs _ a'.slots a.run_state a'.run_state ran.started,
          ran.gated,
        )

    -- The states of an applier: it is made, it is polled, and its store is written in between.
    pub data Reachable : Applier → Type 0 where
      made :
          (requests : Stream (Request r.DynamicType))
          (wait_until_ready : List (Poll (Result WriterDropped (Unit {0})))) (w : Jobs r u)
          → InReach laws requests
          → Reachable (new r u d requests wait_until_ready w)
      polled :
          (now : ℕ) (clock : ℕ → ℕ) (a a' : Applier) (answer : Poll (Option (Item r E Q)))
          → Reachable a
          → poll_next r u d now clock a ≡ ok (answer, a')
          → Reachable a'
      written :
          (a : Applier) (store : Writer r)
          → Reachable a
          → Reachable (record a { run_state = record a.run_state { store = store } })

    Reachable-Kept : (a : Applier) → Reachable a → Kept a
    unfolding new Runner.new Runner.delay_tasks_until HashMap.empty
    Reachable-Kept _ (made requests wait_until_ready w near) =
        (record { agree = new-Inv laws requests; near = near }, tt)
    Reachable-Kept _ (polled now clock a a' answer reachable h) =
        (subst (Applied now a) h (poll_next-Applied now clock a (Reachable-Kept a reachable))).1
    Reachable-Kept _ (written a store reachable) = Reachable-Kept a reachable

    -- Over a delay queue that keeps its laws, and if all requests that come are for times within the
    -- reach of the queue: however an applier was polled, and its store written in between, its next
    -- poll answers, and not with a panic. The jobs that the poll starts are of objects of which no job runs then, whatever
    -- the reasons are; before the store is ready it starts none.
    pub poll_next-Exclusive :
        (now : ℕ) (clock : ℕ → ℕ) (a : Applier)
        → Reachable a
        → Applied now a (poll_next r u d now clock a)
    poll_next-Exclusive now clock a reachable =
        poll_next-Applied now clock a (Reachable-Kept a reachable)
