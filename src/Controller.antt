-- ===== src/Controller.antt =====
-- kube-runtime/src/controller/mod.rs: what is to be reconciled, and why.
pub mod Trigger
pub mod Owners
pub mod Reschedule
pub mod Applier
pub mod Jobs
pub mod Exclusive
use kube.Prelude.{EqLaws, ℕ, Option, none, some, String, eq_on, ◌+++◌}
use kube.Core.Discovery.{ApiResource}
use kube.Reflector.ObjectRef.{ObjectRef, object_ref_eq}

-- When to reconcile again, if nothing changes before.
pub record Action : Type 0 where
  pub requeue_after : Option ℕ

abbrev pub requeue : ℕ → Action
requeue duration = record { requeue_after = some duration }

abbrev pub await_change : Action
await_change = record { requeue_after = none }

pub data ReconcileReason : Type 0 where
  unknown object_updated reconciler_requested_retry : ReconcileReason
  error_policy_requested_retry bulk_reconcile : ReconcileReason
  related_object_updated : ObjectRef ApiResource → ReconcileReason
  custom : String → ReconcileReason

-- The text of a reason; `show` is that of a reference.
unfoldable pub display : (ObjectRef ApiResource → String) → ReconcileReason → String
display show unknown = "unknown"
display show object_updated = "object updated"
display show (related_object_updated object) = "related object updated: " +++ show object
display show bulk_reconcile = "bulk reconcile requested"
display show reconciler_requested_retry = "reconciler requested retry"
display show error_policy_requested_retry = "error policy requested retry"
display show (custom reason) = reason

pub record ReconcileRequest (D : Type 0) : Type 0 where
  pub obj_ref : ObjectRef D
  pub reason : ReconcileReason

-- Requests are compared by their object: the reason is left out.
instance abbrev pub reconcile_request_eq : {D : Type 0} ⦃e : EqLaws D⦄ → EqLaws (ReconcileRequest D)
reconcile_request_eq = eq_on object_ref_eq (λ request. request.obj_ref)

-- `From<ObjectRef>`.
abbrev pub from_ref : {D : Type 0} → ObjectRef D → ReconcileRequest D
from_ref obj_ref = record { obj_ref = obj_ref; reason = unknown }
