-- ===== src/Controller/Applier.antt =====
-- `applier` of kube-runtime/src/controller/mod.rs: requests are scheduled, and run as jobs that reconcile
-- an object and schedule it again. A future of the reconciler is a value with a poll; each clone of the
-- channel to the scheduler is what its polls for room will answer.
use kube.Prelude.{
  EqLaws, ℕ, ◌+◌, Option, none, some, List, [], ◌∷◌, Result, ok, err, ◌>>=◌, Poll, ready, pending,
  Stream,
}
use kube.Core.Discovery.{ApiResource}
use kube.Core.Resource.{Resource}
use kube.Reflector.ObjectRef.{ObjectRef, erase}
use kube.Reflector.Store.{Writer}
use kube.Reflector.Store
use kube.Reflector.DelayedInit.{InitDropped}
use kube.Scheduler.Delay.{DelayQueue}
use kube.Scheduler.{Scheduler, ScheduleRequest}
use kube.Scheduler
use kube.Runner.{Runner, RunnerFault, Error as RunnerError}
use kube.Runner
use kube.Controller.{Action, ReconcileRequest, reconcile_request_eq}
use kube.Controller.Reschedule.{
  Readiness, Sender, TakenFault, result_already_taken, RescheduleReconciliation, Request,
}
use kube.Controller.Reschedule

-- The error of `wait_until_ready`, in kube-runtime/src/reflector/store.rs.
pub data WriterDropped : Type 0 where
  writer_dropped : InitDropped → WriterDropped

pub data Error (E Q : Type 0) : Type 0 where
  object_not_found : ObjectRef ApiResource → Error E Q
  reconciler_failed : E → ObjectRef ApiResource → Error E Q
  queue_error : Q → Error E Q
  runner_error : RunnerError WriterDropped → Error E Q

-- An item of the user's queue is scheduled after a millisecond.
unfoldable pub queue_request :
    {D E Q : Type 0} → ℕ → Result Q (ReconcileRequest D) → Result (Error E Q) (Request D)
queue_request now (err q) = err (queue_error q)
queue_request now (ok request) = ok (record { message = request; run_at = now + 1 })

-- What the user gives, with the context in it: the reconciler has a state of its own.
pub record Reconciler (K E : Type 0) : Type 1 where
  pub State : Type 0
  pub Running : Type 0
  pub reconcile : K → State → Running × State
  pub poll : Running → Poll (Result E Action) × Running
  pub error_policy : K → E → Action

-- The state of the closure that starts jobs: the store that it reads, the reconciler, and what the
-- clones of the channel will answer, in the order in which they are made.
pub record Jobs {K E : Type 0} (r : Resource K) (u : Reconciler K E) : Type 0 where
  pub store : Writer r
  pub state : u.State
  pub clones : List (List Readiness)

-- An object that is reconciled, its next reconciliation that is scheduled, and an object that is not
-- there; its error can be taken once.
pub data Job {K E : Type 0} (r : Resource K) (u : Reconciler K E) : Type 0 where
  reconciling :
      ReconcileRequest r.DynamicType → K → Sender (Request r.DynamicType) → u.Running → Job r u
  rescheduling : ReconcileRequest r.DynamicType → RescheduleReconciliation r.DynamicType E → Job r u
  not_found : Option (ObjectRef ApiResource) → Job r u

abbrev pub clone_tx : {T : Type 0} → List (List Readiness) → Sender T × List (List Readiness)
clone_tx [] = (record { readiness = []; sent = [] }, [])
clone_tx (c ∷ clones) = (record { readiness = c; sent = [] }, clones)

-- What a job ends with, or the panic of a future that is polled again.
abbrev pub Done : {K : Type 0} → Resource K → Type 0 → Type 0 → Type 0
Done r E Q = Result TakenFault (Result (Error E Q) (ObjectRef r.DynamicType × Result E Action))

-- What the stream gives.
abbrev pub Item : {K : Type 0} → Resource K → Type 0 → Type 0 → Type 0
Item r E Q = Result TakenFault (Result (Error E Q) (ObjectRef r.DynamicType × Action))

module _ {K E : Type 0} (r : Resource K) ⦃e : EqLaws r.DynamicType⦄ (u : Reconciler K E) where
  abbrev pub start_found : ReconcileRequest r.DynamicType → Option K → Jobs r u → Job r u × Jobs r u
  start_found request (some obj) w =
      let (tx, clones) = clone_tx w.clones in
      let (running, state) = u.reconcile obj w.state in
      (reconciling request obj tx running, record w { state = state; clones = clones })
  start_found request none w = (not_found (some (erase r request.obj_ref)), w)

  unfoldable pub start_job : ReconcileRequest r.DynamicType → Jobs r u → Job r u × Jobs r u
  unfolding Store.get erase
  start_job request w = start_found request (Store.get r w.store request.obj_ref) w

  module _ {Q : Type 0} where
    abbrev pub rescheduled :
        ReconcileRequest r.DynamicType
        → RescheduleReconciliation r.DynamicType E
        → Reschedule.Polled r.DynamicType E
        → Poll (Done r E Q) × Job r u
    rescheduled request s (ok (ready result, s')) =
        (ready (ok (ok (request.obj_ref, result))), rescheduling request s')
    rescheduled request s (ok (pending, s')) = (pending, rescheduling request s')
    rescheduled request s (err fault) = (ready (err fault), rescheduling request s)

    -- Polls the future that schedules the object again.
    abbrev pub poll_rescheduling :
        ReconcileRequest r.DynamicType
        → RescheduleReconciliation r.DynamicType E
        → Poll (Done r E Q) × Job r u
    unfolding Reschedule.poll
    poll_rescheduling request s = rescheduled request s (Reschedule.poll s)

    -- Once the reconciler is ready, the next future is polled at once.
    abbrev pub reconciled :
        ℕ
        → ReconcileRequest r.DynamicType
        → K
        → Sender (Request r.DynamicType)
        → Poll (Result E Action) × u.Running
        → Poll (Done r E Q) × Job r u
    unfolding Reschedule.new
    reconciled now request obj tx (pending, running) = (pending, reconciling request obj tx running)
    reconciled now request obj tx (ready result, running) =
        poll_rescheduling request
          (Reschedule.new now result (u.error_policy obj) request.obj_ref tx)

    unfoldable pub poll_job : ℕ → Job r u → Poll (Done r E Q) × Job r u
    poll_job now (reconciling request obj tx running) =
        reconciled now request obj tx (u.poll running)
    poll_job now (rescheduling request s) = poll_rescheduling request s
    poll_job now (not_found (some o)) = (ready (ok (err (object_not_found o))), not_found none)
    poll_job now (not_found none) = (ready (err result_already_taken), not_found none)

  module _ {Q : Type 0} where
    -- Failures of the reconciler become errors at the end.
    abbrev pub delivered :
        Result (Error E Q) (ObjectRef r.DynamicType × Result E Action)
        → Result (Error E Q) (ObjectRef r.DynamicType × Action)
    unfolding erase
    delivered (err x) = err x
    delivered (ok (obj_ref, ok action)) = ok (obj_ref, action)
    delivered (ok (obj_ref, err x)) = err (reconciler_failed x (erase r obj_ref))

    abbrev pub item_of : Result (RunnerError WriterDropped) (Done r E Q) → Item r E Q
    item_of (err x) = ok (err (runner_error x))
    item_of (ok (err fault)) = err fault
    item_of (ok (ok done)) = ok (delivered done)

    abbrev pub answer_of :
        Poll (Option (Result (RunnerError WriterDropped) (Done r E Q))) → Poll (Option (Item r E Q))
    answer_of (ready (some result)) = ready (some (item_of result))
    answer_of (ready none) = ready none
    answer_of pending = pending

  module _ (d : DelayQueue (ReconcileRequest r.DynamicType)) where
    -- The runner over the scheduler of the requests, which starts no job before the store is ready.
    unfoldable pub new :
        Stream (Request r.DynamicType)
        → List (Poll (Result WriterDropped (Unit {0})))
        → Jobs r u
        → Runner d (Job r u) (Jobs r u) WriterDropped
    unfolding Runner.new Runner.delay_tasks_until Scheduler.new
    new requests wait_until_ready w =
        Runner.delay_tasks_until d wait_until_ready (Runner.new d (Scheduler.new d requests) w)

    unfoldable pub poll_next :
        {Q : Type 0}
        → ℕ
        → (ℕ → ℕ)
        → Runner d (Job r u) (Jobs r u) WriterDropped
        → Result RunnerFault
            (Poll (Option (Item r E Q)) × Runner d (Job r u) (Jobs r u) WriterDropped)
    unfolding Runner.poll_next start_job poll_job
    poll_next {Q = Q} now clock runner = do
      (answer, runner') ← Runner.poll_next d start_job (poll_job {Q = Q} now) clock runner
      ok (answer_of answer, runner')
