-- ===== src/Core/DeleteParams.antt =====
-- kube-core/src/params.rs: the parameters of delete calls. Their JSON text is serde's.
use kube.Prelude.{ℕ, Bool, true, false, not, ◌&&◌, Option, none, some, String, is_some}

pub data PropagationPolicy : Type 0 where
  orphan background foreground : PropagationPolicy

pub record Preconditions : Type 0 where
  pub resource_version : Option String
  pub uid : Option String

pub record DeleteParams : Type 0 where
  pub dry_run : Bool
  pub grace_period_seconds : Option ℕ
  pub propagation_policy : Option PropagationPolicy
  pub preconditions : Option Preconditions

abbrev pub default : DeleteParams
default = record {
  dry_run = false;
  grace_period_seconds = none;
  propagation_policy = none;
  preconditions = none;
}

abbrev pub with_policy : PropagationPolicy → DeleteParams
with_policy policy = record default { propagation_policy = some policy }

unfoldable pub dry_run : DeleteParams → DeleteParams
dry_run p = record p { dry_run = true }

unfoldable pub grace_period : ℕ → DeleteParams → DeleteParams
grace_period secs p = record p { grace_period_seconds = some secs }

unfoldable pub preconditions : Preconditions → DeleteParams → DeleteParams
preconditions conditions p = record p { preconditions = some conditions }

unfoldable pub is_default : DeleteParams → Bool
is_default p =
    not p.dry_run
    && not (is_some p.grace_period_seconds)
    && not (is_some p.propagation_policy)
    && not (is_some p.preconditions)
