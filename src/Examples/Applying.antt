-- ===== src/Examples/Applying.antt =====
-- Inputs for the theorems about `applier` of kube-runtime/src/controller/mod.rs: a reconciler that is
-- pending once, and fails.
use kube.Prelude.{
  arith, ℕ, if◌then◌else◌, nat_beq, false, ◌≡◌, refl, none, some, true, List, [], ◌∷◌, String,
  string_eq, Result, ok, err, Poll, ready, pending, Stream,
}
use kube.Prelude.HashMap.{HashMap}
use kube.Core.Resource.{ObjectMeta}
use kube.Reflector.ObjectRef.{ObjectRef}
use kube.Reflector.Store
use kube.Scheduler.Delay.{DelayQueue}
use kube.Scheduler.Timers.{timers, timers-Laws, reach-timers}
use kube.Controller.{Action, ReconcileRequest, object_updated, requeue}
use kube.Controller.Reschedule.{Request, full, room, due_after}
use kube.Controller.Applier.{Reconciler, Jobs, start_job, new, poll_next}
use kube.Controller.Jobs.{Finished, drive, start_job-Finished}
use kube.Controller.Exclusive.{Applied, made, poll_next-Exclusive}
use kube.Examples.Watching.{pods, pod}

abbrev failing : Reconciler ObjectMeta String
failing = record {
  State = Unit;
  Running = ℕ;
  reconcile = λ obj s. (1, s);
  poll = λ n. if nat_beq n 0 then (ready (err "failed"), n) else (pending, 0);
  error_policy = λ obj e. requeue 5;
}

abbrev pod_ref : ObjectRef String
pod_ref = record {
  dyntype = "Pod";
  name = "a";
  namespace = none;
  extra = record { resource_version = none; uid = none };
}

abbrev request : ReconcileRequest String
request = record { obj_ref = pod_ref; reason = object_updated }

abbrev jobs : Jobs pods failing
jobs = record {
  store = record {
    store = record { entries = (pod_ref, pod "1") ∷ [] };
    dyntype = "Pod";
    holds_ready_tx = false;
    is_ready = true;
  };
  state = tt;
  clones = (full ∷ room ∷ []) ∷ [];
}

abbrev failed : Result String Action
failed = err "failed"

start_job-Finished_example :
    Finished pods failing {Q = String} request failed
      (due_after 1 failed (λ e. requeue 5) pod_ref room)
      (drive pods failing 3 (λ i. i) (start_job pods failing request jobs).0)
unfolding Store.get kube.Prelude.HashMap.get
start_job-Finished_example =
    start_job-Finished pods failing 1 1 (λ i. i) request jobs room [] [] failed refl refl
      (0, refl, (0, refl)) refl

abbrev clock : DelayQueue (ReconcileRequest String)
clock = timers (ReconcileRequest String)

abbrev wanted : Stream (Request String)
wanted = ready (some (record { message = request; run_at = 0 })) ∷ []

poll_next-Exclusive_example :
    Applied pods failing String
      (timers-Laws (ReconcileRequest String))
      3
      (new pods failing clock wanted [] jobs)
      (poll_next pods failing clock 3 (λ i. 3) (new pods failing clock wanted [] jobs))
poll_next-Exclusive_example =
    poll_next-Exclusive pods failing String (timers-Laws (ReconcileRequest String)) 3 (λ i. 3)
      (new pods failing clock wanted [] jobs)
      (made wanted [] jobs (reach-timers (ReconcileRequest String) 0 (omega arith), tt))
