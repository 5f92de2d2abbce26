-- ===== src/Examples/Finalizing.antt =====
-- Inputs for the theorem about kube-runtime/src/finalizer.rs: an object that is being deleted, behind
-- another finalizer, whose cleanup and patch succeed. The world is `Unit`.
use kube.Prelude.{◌≡◌, refl, true, none, some, List, [], ◌∷◌, String, Result, ok}
use kube.Core.Resource.{Resource, ObjectMeta}
use kube.Watcher.{ClientErr}
use kube.Controller.{Action, await_change}
use kube.Finalizer.{Event, cleanup, PatchOperation, remove_patch, finalizer, position}
use kube.Finalizer.Guarantee.{
  reconciled, patched, Checked, log_patch, log_reconcile, finalizer-Allowed,
}
use kube.Examples.Watching.{pods}

abbrev dying : ObjectMeta
dying = record {
  name = some "a";
  generate_name = none;
  namespace = some "b";
  resource_version = some "3";
  uid = none;
  deletion_timestamp = some 8;
  finalizers = some ("other/one" ∷ "our/own" ∷ []);
  owner_references = none;
}

abbrev patch : String → List PatchOperation → Unit {0} → Result ClientErr (Unit {0}) × Unit {0}
patch name ops w = (ok tt, w)

abbrev reconcile : Event ObjectMeta → Unit {0} → Result String Action × Unit {0}
reconcile event w = (ok await_change, w)

finalizer-Allowed_example : Checked pods patch reconcile "our/own" dying (
    finalizer pods
      (log_patch pods patch reconcile)
      (log_reconcile pods patch reconcile)
      "our/own"
      dying
      (tt, []))
finalizer-Allowed_example = finalizer-Allowed pods patch reconcile "our/own" dying tt

abbrev calls_of : {A B C : Type 0} → A × (B × C) → C
calls_of (a, (b, c)) = c

-- The cleanup comes first, and the patch names our entry.
cleaned_up :
    calls_of (
      finalizer pods
        (log_patch pods patch reconcile)
        (log_reconcile pods patch reconcile)
        "our/own"
        dying
        (tt, []))
    ≡ reconciled (cleanup dying) true ∷ patched "a" (remove_patch "our/own" 1) true ∷ []
unfolding finalizer position kube.Core.Resource.finalizers
cleaned_up = refl
