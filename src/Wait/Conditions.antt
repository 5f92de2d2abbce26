-- ===== src/Wait/Conditions.antt =====
-- The conditions of kube-runtime/src/wait.rs, with their combinators. A condition looks at the object,
-- or at its absence.
use kube.Prelude.{
  Bool, true, false, ◌&&◌, ◌||◌, Option, none, some, List, String, ◌==◌, string_eq, option_eq,
  if◌then◌else◌, find,
}
use kube.Core.Resource.{Resource}

abbrev pub Condition : Type 0 → Type 0
Condition K = Option K → Bool

module _ {K : Type 0} where
  unfoldable pub not : Condition K → Condition K
  not cond obj = if cond obj then false else true

  unfoldable pub and : Condition K → Condition K → Condition K
  and cond other obj = cond obj && other obj

  unfoldable pub or : Condition K → Condition K → Condition K
  or cond other obj = cond obj || other obj

  unfoldable pub is_deleted : Resource K → String → Condition K
  is_deleted r uid none = true
  is_deleted r uid (some obj) = if (r.meta obj).uid == some uid then false else true

-- Types of k8s-openapi, with the fields that the conditions read.
pub record StatusCondition : Type 0 where
  pub type_ : String
  pub status : String

pub record ConditionsStatus : Type 0 where
  pub conditions : Option (List StatusCondition)

pub record CustomResourceDefinition : Type 0 where
  pub status : Option ConditionsStatus

pub record Job : Type 0 where
  pub status : Option ConditionsStatus

pub record PodStatus : Type 0 where
  pub phase : Option String

pub record Pod : Type 0 where
  pub status : Option PodStatus

abbrev is_true : Option StatusCondition → Bool
is_true (some pcond) = pcond.status == "True"
is_true none = false

-- The first condition of a type is true.
abbrev first_is_true : String → Option ConditionsStatus → Bool
first_is_true type_ none = false
first_is_true type_ (some s) = elim s.conditions [
  | some conds ↦ is_true (find (λ c. c.type_ == type_) conds)
  | none ↦ false
]

unfoldable pub is_crd_established : Condition CustomResourceDefinition
is_crd_established none = false
is_crd_established (some o) = first_is_true "Established" o.status

abbrev is_running : Option PodStatus → Bool
is_running none = false
is_running (some s) = elim s.phase [ some phase ↦ phase == "Running" | none ↦ false ]

unfoldable pub is_pod_running : Condition Pod
is_pod_running none = false
is_pod_running (some pod) = is_running pod.status

unfoldable pub is_job_completed : Condition Job
is_job_completed none = false
is_job_completed (some job) = first_is_true "Complete" job.status
