-- ===== src/Examples/Controlling.antt =====
-- Inputs for the theorems about kube-runtime/src/controller/mod.rs, wait.rs and utils/delayed_init.rs:
-- a pod with two owners, a failed reconciliation, a deletion that is watched.
use kube.Prelude.{
  ◌≡◌, refl, ℕ, none, some, List, [], ◌∷◌, ◌++◌, String, Result, ok, err, ready, pending, string_eq,
}
use kube.Core.Resource.{ObjectMeta, OwnerReference}
use kube.Reflector.ObjectRef.{ObjectRef}
use kube.Reflector.DelayedInit.{
  Receiver, canceled, new as new_init, answers, retained, answers-retained,
}
use kube.Watcher.Events.{deleted, restarted}
use kube.Watcher
use kube.Controller.{Action, requeue}
use kube.Controller.Trigger.{trigger_owners, flatten}
use kube.Controller.Owners.{mapped, requests_for, trigger_owners-mapped}
use kube.Controller.Reschedule.{full, room, due_after, Answered, polls, new, polls-Answered}
use kube.Wait.{await_condition, object, delete_and_finalize}
use kube.Wait.Conditions.{is_deleted}
use kube.Wait.Waiting.{Waited, Items, await_condition-Waited, delete_and_finalize-finishes}
use kube.Examples.Watching.{pods, pod}

abbrev owned_by : String → OwnerReference
owned_by kind = record {
  api_version = "v1";
  kind = kind;
  name = "owner";
  uid = "7";
  controller = none;
  block_owner_deletion = none;
}

abbrev owned : ObjectMeta
owned = record (pod "1") { owner_references = some (owned_by "Job" ∷ owned_by "Pod" ∷ []) }

abbrev updates : List (Result String ObjectMeta)
updates = ok owned ∷ err "gone" ∷ []

trigger_owners-mapped_example :
    trigger_owners pods pods "a" "b" updates
    ≡ ok (
        mapped
          (λ obj. requests_for pods pods "a" "b" obj (flatten pods pods obj.owner_references))
          updates)
trigger_owners-mapped_example = trigger_owners-mapped pods pods "a" "b" updates (refl, (tt, tt))

abbrev own_ref : ObjectRef String
own_ref = record {
  dyntype = "a";
  name = "owner";
  namespace = none;
  extra = record { resource_version = none; uid = none };
}

abbrev failed : Result String Action
failed = err "failed"

polls-Answered_example : Answered failed ([] ++ due_after 10 failed (λ e. requeue 5) own_ref room) (
    polls 3 (
      new 10 failed
        (λ e. requeue 5)
        own_ref
        (record { readiness = full ∷ full ∷ room ∷ []; sent = [] })))
polls-Answered_example = polls-Answered 2 10 room [] failed (λ e. requeue 5) own_ref [] refl

abbrev dying : ObjectMeta
dying = record (pod "1") { uid = some "7" }

abbrev reports : Items ObjectMeta
reports =
    ready (some (ok (restarted (dying ∷ [])))) ∷ pending ∷ ready (some (ok (deleted dying))) ∷ []

await_condition-Waited_example :
    Waited (is_deleted pods "7") reports (await_condition (is_deleted pods "7") reports)
await_condition-Waited_example = await_condition-Waited (is_deleted pods "7") reports

delete_and_finalize-finishes_example :
    delete_and_finalize pods (ok (object dying)) reports ≡ ok (ready (ok tt))
unfolding is_deleted Watcher.single_object
delete_and_finalize-finishes_example =
    delete_and_finalize-finishes pods (object dying) "7"
      (ready (some (ok (restarted (dying ∷ [])))) ∷ pending ∷ []) [] (ok (deleted dying)) none refl
      (refl, (tt, tt)) refl tt

abbrev init_dropped_late : Receiver ℕ
init_dropped_late = pending ∷ ready (err canceled) ∷ ready (ok 3) ∷ []

answers-retained_example : answers 4 (new_init init_dropped_late) ≡ retained 4 init_dropped_late
answers-retained_example = answers-retained 4 init_dropped_late
